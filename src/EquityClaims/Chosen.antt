-- ===== src/EquityClaims/Chosen.antt =====
-- equity_claims.py: the fact that is selected for a concept.
use zion_terminal.Base.{
  ℕ, Bool, true, false, Option, none, some, List, [], ◌∷◌, String, ◌≡◌, refl, sym, ap, ◌∙◌, All,
  All-keep_of, In, each-In, keep, str_eq, str_eq_iff, Bool-cases, inl, inr, if◌then◌else◌, if_both,
}
use mathlib.Core.Path.{subst}
use zion_terminal.Base.Int.{ℤ}
use zion_terminal.Base.Result.{ok, >>=-eq-ok, ok_injective}
use zion_terminal.Base.Json.{Json, obj, str, Fields, get}
use zion_terminal.Base.Texts.{str_leb, str_leb_total, str_leb_trans}
use zion_terminal.EquityClaims.Facts.{Reader, restrict_to_available}
use zion_terminal.EquityClaims.Selection.{
  Source, is_eligible, eligible, text_in, value_in, source_of, decimal_token, selected, choose,
  sourced, best_of, latest_filed, later_filed, latest_end, at_end,
}
use zion_terminal.EquityClaims.Available.{Available, eligible-All}
use zion_terminal.EquityClaims.Eligible.{IsCurrent, Dated, row-IsCurrent, row-Dated}

never_some : {A B : Type 0} {b : B} → ◌≡◌ {A = Option B} none (some b) → A
never_some h = cc

some_injective : {A : Type 0} {x y : A} → ◌≡◌ {A = Option A} (some x) (some y) → x ≡ y
some_injective h = cc

str_leb_self : (s : String) → str_leb s s ≡ true
str_leb_self s = elim (Bool-cases (str_leb s s)) [ inl e ↦ e | inr e ↦ str_leb_total s s e ]

-- No end is after the latest one.
abbrev pub EndsBy : String → Json → Type 0
EndsBy top row = str_leb (text_in "end" row) top ≡ true

latest_end_bounds :
    (best : String) (rows : List Json)
    → (str_leb best (latest_end best rows) ≡ true) × All (EndsBy (latest_end best rows)) rows
unfolding latest_end
latest_end_bounds best [] = (str_leb_self best, tt)
latest_end_bounds best (row ∷ rows) =
    split (λ x. latest_end_bounds x rows) (str_leb (text_in "end" row) best) refl
  where
    split :
        ((x : String)
          → (str_leb x (latest_end x rows) ≡ true) × All (EndsBy (latest_end x rows)) rows)
        → (b : Bool) → str_leb (text_in "end" row) best ≡ b
        → (str_leb best (latest_end (if b then best else text_in "end" row) rows) ≡ true)
          × All (EndsBy (latest_end (if b then best else text_in "end" row) rows)) (row ∷ rows)
    split next true e =
        let (first, rest) = next best in
        (first, (str_leb_trans (text_in "end" row) best (latest_end best rows) e first, rest))
    split next false e =
        let (first, rest) = next (text_in "end" row) in
        (
          str_leb_trans best (text_in "end" row) (latest_end (text_in "end" row) rows)
              (str_leb_total (text_in "end" row) best e) first,
          (first, rest),
        )

module _ (R : Reader) (cutoff : ℤ) (valuation : ℕ) where
  -- The row that is chosen is one of those that end last.
  latest_filed_keeps :
      (P : Json → Type 0) (best : Json) (rows : List Json)
      → P best
      → All P rows
      → P (latest_filed R best rows)
  unfolding latest_filed
  latest_filed_keeps P best [] h hs = h
  latest_filed_keeps P best (row ∷ rows) h hs =
      latest_filed_keeps P (if later_filed R row best then row else best) rows
        (if_both P (later_filed R row best) row best hs.0 h) hs.1

  best_of_keeps :
      (P : Json → Type 0) (rows : List Json) {row : Json}
      → All P rows
      → best_of R rows ≡ some row
      → P row
  unfolding best_of
  best_of_keeps P [] hs h = never_some h
  best_of_keeps P (x ∷ rows) hs h =
      subst P (some_injective h) (latest_filed_keeps P x rows hs.0 hs.1)

  -- What is known of the source of a concept: the row that it stands for, with its value and its
  -- two dates, and that no row ends later.
  pub record IsLatest (rows : List Json) (s : Source) : Type 0 where
    pub row : Fields
    pub chosen : In (obj row) rows
    pub is_reported : s.reported ≡ get "val" row
    pub is_ended : get "end" row ≡ str s.period_end
    pub is_filed : get "filed" row ≡ str s.filed
    pub current : IsCurrent R cutoff valuation s.filed s.period_end
    pub amount : decimal_token R s.reported ≡ ok s.value
    pub last : All (EndsBy s.period_end) rows

  at_end-All :
      (top : String) (rows : List Json)
      → All (λ row. Available R cutoff row × (is_eligible R valuation row ≡ true)) rows
      → All
          (λ row.
            (text_in "end" row ≡ top)
            × IsCurrent R cutoff valuation (text_in "filed" row) (text_in "end" row)
            × Dated row)
          (keep (at_end top) rows)
  unfolding at_end
  at_end-All top [] known = tt
  at_end-All top (row ∷ rows) (k, known) = elim (Bool-cases (str_eq (text_in "end" row) top)) [
    | inl e ↦ rw e (
      (
        (str_eq_iff (text_in "end" row) top).0 e,
        row-IsCurrent R cutoff valuation row k.0 k.1,
        row-Dated R cutoff valuation row k.1,
      ),
      at_end-All top rows known,
    )
    | inr e ↦ rw e (at_end-All top rows known)
  ]

  best_at :
      (top : String) (rows : List Json)
      → All (λ row. Available R cutoff row × (is_eligible R valuation row ≡ true)) rows
      → All (EndsBy top) rows
      → (row : Json) → best_of R (keep (at_end top) rows) ≡ some row
      → IsCurrent R cutoff valuation (text_in "filed" row) (text_in "end" row)
        × All (EndsBy (text_in "end" row)) rows
        × Dated row
        × In row rows
  best_at top rows known bounds row found =
      let (e, current, dated) =
        best_of_keeps
          (λ r.
            (text_in "end" r ≡ top)
            × IsCurrent R cutoff valuation (text_in "filed" r) (text_in "end" r)
            × Dated r)
          (keep (at_end top) rows) (at_end-All top rows known) found in
      let own = All-keep_of (λ r. In r rows) (at_end top) rows (each-In rows) in
      (
        current,
        rw e bounds,
        dated,
        best_of_keeps (λ r. In r rows) (keep (at_end top) rows) own found,
      )

  module _ (taxonomy concept unit : String) where
    of_row :
        (rows : List Json) (row : Json) (s : Source)
        → source_of R taxonomy concept unit row ≡ ok s
        → IsCurrent R cutoff valuation (text_in "filed" row) (text_in "end" row)
        → All (EndsBy (text_in "end" row)) rows
        → Dated row
        → In row rows
        → IsLatest rows s
    unfolding source_of value_in
    of_row rows row s h current last (d, is, ended, filed) own =
        let (z, e, k) = >>=-eq-ok (decimal_token R (value_in "val" row)) _ h in
        let reported : value_in "val" row ≡ get "val" d = ap (value_in "val") is in
        rw (sym (ok_injective k)) (record {
          row = d;
          chosen = subst (λ x. In x rows) is own;
          is_reported = reported;
          is_ended = ended;
          is_filed = filed;
          current = current;
          amount = e;
          last = last;
        })

    of_best :
        (rows : List Json) (best : Option Json) (s : Source)
        → sourced R taxonomy concept unit best ≡ ok (some s)
        → ((row : Json)
            → best ≡ some row
            → IsCurrent R cutoff valuation (text_in "filed" row) (text_in "end" row)
              × All (EndsBy (text_in "end" row)) rows
              × Dated row
              × In row rows)
        → IsLatest rows s
    unfolding sourced
    of_best rows none s h known = never_some (ok_injective h)
    of_best rows (some row) s h known =
        let (t, e, k) = >>=-eq-ok (source_of R taxonomy concept unit row) _ h in
        let (current, last, dated, own) = known row refl in
        of_row rows row s (e ∙ ap ok (some_injective (ok_injective k))) current last dated own

    choose-IsLatest :
        (rows : List Json) (s : Source)
        → All (λ row. Available R cutoff row × (is_eligible R valuation row ≡ true)) rows
        → choose R taxonomy concept unit rows ≡ ok (some s)
        → IsLatest rows s
    unfolding choose
    choose-IsLatest [] s known h = never_some (ok_injective h)
    choose-IsLatest (x ∷ xs) s known h =
        of_best (x ∷ xs) (best_of R (keep (at_end (latest_end (text_in "end" x) xs)) (x ∷ xs))) s h
          (best_at (latest_end (text_in "end" x) xs) (x ∷ xs) known
            (latest_end_bounds (text_in "end" x) xs))

    -- A fact that is selected from the facts that were available at a cutoff was filed on a day that
    -- had ended in UTC by the cutoff and is no later than the valuation date; its period ended on a
    -- date from 400 days before the valuation date to that date. It stands for one of the eligible
    -- rows of the concept: its dates are the row's `end` and `filed`, and its amount is the decimal of
    -- the row's `val`. No eligible row ends later, by the text of the dates.
    pub selected-IsLatest :
        (facts : Fields) {s : Source}
        → selected R taxonomy concept unit valuation (restrict_to_available R cutoff facts)
          ≡ ok (some s)
        → (rows : List Json) × (eligible R valuation taxonomy concept unit
              (restrict_to_available R cutoff facts)
            ≡ ok rows)
          × IsLatest rows s
    unfolding selected
    selected-IsLatest facts {s} h =
        let (rows, e, k) =
          >>=-eq-ok
            (eligible R valuation taxonomy concept unit (restrict_to_available R cutoff facts)) _
            h in
        (
          rows,
          e,
          choose-IsLatest rows s
              (eligible-All R cutoff valuation taxonomy concept unit facts rows e) k,
        )
