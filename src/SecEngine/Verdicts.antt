-- ===== src/SecEngine/Verdicts.antt =====
-- sec_engine.py: what the verdicts of `balance_checks` say.
use zion_terminal.Base.{
  ℕ, Bool, true, false, Option, none, some, List, [], ◌∷◌, String, keep, ◌⊎◌, inl, inr, ◌≡◌, refl,
  sym, ◌∙◌, All, if◌then◌else◌,
}
use mathlib.Core.Path.{subst}
use zion_terminal.Base.Result.{ok, Ensures, Ensures-ok, Ensures-bind}
use zion_terminal.SecEngine.Decimals.{Decimal, is_zero, sub_decimal}
use zion_terminal.SecEngine.Derivation.{Figure, subtract, number, calculate_figure}
use zion_terminal.SecEngine.Sources.{Sources, Row}
use zion_terminal.SecEngine.Selection.{figure_of}
use zion_terminal.SecEngine.Trailing.{number_lem}
use zion_terminal.SecEngine.Exact.{difference_lem}
use zion_terminal.SecEngine.Balance.{
  Verdict, withheld, passed, differs, BalanceIdentity, missing_total, identity_of, check_totals,
  chosen_total, check_days, is_balance_row, balance_identities,
}

-- Both totals are there, and their difference is zero, or is not.
abbrev pub Compared : Option Row → Option Row → Bool → BalanceIdentity → Type 0
Compared left right zero c =
    (l : Row) × (r : Row) × (a : Decimal) × (b : Decimal) × (left ≡ some l)
    × (right ≡ some r)
    × (l.value_decimal ≡ some a)
    × (r.value_decimal ≡ some b)
    × (c.difference_decimal ≡ some (sub_decimal a b))
    × (is_zero (sub_decimal a b) ≡ zero)

abbrev pub Says : Option Row → Option Row → Verdict → BalanceIdentity → Type 0
Says left right withheld c = ((left ≡ none) ⊎ (right ≡ none)) × (c.difference_decimal ≡ none)
Says left right passed c = Compared left right true c
Says left right differs c = Compared left right false c

-- The verdict on a day is about the totals that were chosen for it.
abbrev pub Sound : Sources → String → List Row → BalanceIdentity → Type 0
Sound src cutoff rows c =
    Says (chosen_total src cutoff rows c.period_end "us-gaap:Assets")
      (chosen_total src cutoff rows c.period_end "us-gaap:LiabilitiesAndStockholdersEquity")
      c.status c

some_injective : {m n : Decimal} → ◌≡◌ {A = Option Decimal} (some m) (some n) → m ≡ n
some_injective h = cc

figure_value : (row : Row) → (figure_of row (row ∷ [])).value_decimal ≡ row.value_decimal
unfolding figure_of
figure_value row = refl

-- The verdict of two totals that are there.
identity_of-Says :
    (ending : ℕ) (l r : Row) (difference : Figure) (a b : Decimal)
    → l.value_decimal ≡ some a
    → r.value_decimal ≡ some b
    → difference.value_decimal ≡ some (sub_decimal a b)
    → Says
        (some l)
        (some r)
        (identity_of ending difference (sub_decimal a b)).status
        (identity_of ending difference (sub_decimal a b))
unfolding identity_of
identity_of-Says ending l r difference a b h k e = branch (is_zero (sub_decimal a b)) refl
  where
    branch :
        (z : Bool)
        → is_zero (sub_decimal a b) ≡ z
        → Says
            (some l)
            (some r)
            (if z then passed else differs)
            (identity_of ending difference (sub_decimal a b))
    branch true z = (l, r, a, b, refl, refl, h, k, e, z)
    branch false z = (l, r, a, b, refl, refl, h, k, e, z)

abbrev Checked : ℕ → Option Row → Option Row → BalanceIdentity → Type 0
Checked ending left right c = (c.period_end ≡ ending) × Says left right c.status c

check_totals-Checked :
    (ending : ℕ) (left right : Option Row)
    → Ensures (Checked ending left right) (check_totals ending left right)
unfolding check_totals missing_total
check_totals-Checked ending none right = Ensures-ok _ (refl, (inl refl, refl))
check_totals-Checked ending (some l) none = Ensures-ok _ (refl, (inr refl, refl))
check_totals-Checked ending (some l) (some r) =
    Ensures-bind
      (calculate_figure subtract "balance_identity" none ending (figure_of l (l ∷ []))
        (figure_of r (r ∷ []) ∷ []))
      _
      (λ difference e. Ensures-bind (number difference.value_decimal) _ (λ n d.
        let (a, b, first, second, total) =
          difference_lem "balance_identity" none ending (figure_of l (l ∷ []))
            (figure_of r (r ∷ [])) e in
        let same : n ≡ sub_decimal a b =
          some_injective (sym (number_lem difference.value_decimal d) ∙ total) in
        Ensures-ok _ (
          rw same (
            refl,
            identity_of-Says ending l r difference a b (sym (figure_value l) ∙ first)
                (sym (figure_value r) ∙ second) total,
          ))))

at_day :
    (src : Sources) (cutoff : String) (rows : List Row) (c : BalanceIdentity) {ending : ℕ}
    → c.period_end ≡ ending
    → Says
        (chosen_total src cutoff rows ending "us-gaap:Assets")
        (chosen_total src cutoff rows ending "us-gaap:LiabilitiesAndStockholdersEquity")
        c.status
        c
    → Sound src cutoff rows c
at_day src cutoff rows c day says =
    subst
      (λ t.
        Says (chosen_total src cutoff rows t "us-gaap:Assets")
          (chosen_total src cutoff rows t "us-gaap:LiabilitiesAndStockholdersEquity") c.status c)
      (sym day) says

check_days-Sound :
    (src : Sources) (cutoff : String) (rows : List Row) (ends : List ℕ)
    → Ensures (All (Sound src cutoff rows)) (check_days src cutoff rows ends)
unfolding check_days
check_days-Sound src cutoff rows [] = Ensures-ok [] tt
check_days-Sound src cutoff rows (ending ∷ ends) =
    let left = chosen_total src cutoff rows ending "us-gaap:Assets" in
    let right = chosen_total src cutoff rows ending "us-gaap:LiabilitiesAndStockholdersEquity" in
    Ensures-bind (check_totals ending left right) _ (λ first e.
      Ensures-bind (check_days src cutoff rows ends) _ (λ others d.
        let (day, says) = (check_totals-Checked ending left right).returned first e in
        Ensures-ok _ (
          at_day src cutoff rows first day says,
          (check_days-Sound src cutoff rows ends).returned others d,
        )))

-- The verdict on a day is about the totals of assets and of liabilities with equity that stand for the latest
-- versions of that day: they pass exactly when both are there and their difference is zero, they differ
-- exactly when both are there and it is not zero, and the verdict is withheld, without a difference, exactly
-- when one of them is missing.
pub balance_identities-Sound :
    (src : Sources) (cutoff : String) (date_from date_to : ℕ) {checks : List BalanceIdentity}
    → balance_identities src cutoff date_from date_to ≡ ok checks
    → All
        (Sound src cutoff (keep (is_balance_row cutoff date_from date_to) src.observations))
        checks
unfolding balance_identities
balance_identities-Sound src cutoff date_from date_to h =
    (check_days-Sound src cutoff (keep (is_balance_row cutoff date_from date_to) src.observations)
        _).returned
      _ h
