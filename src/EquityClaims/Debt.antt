-- ===== src/EquityClaims/Debt.antt =====
-- equity_claims.py: the debt of a filer that states a total of its current debt.
use zion_terminal.Base.{
  ℕ, true, false, Option, none, some, List, [], ◌∷◌, ◌≡◌, refl, sym, ◌∙◌, ◌⊎◌, inl, inr, Bool-cases,
}
use zion_terminal.Base.Int.{ℤ, pos, ◌+ℤ◌, int_laws}
use mathlib.Core.Path.{subst}
use zion_terminal.Base.Result.{ok, >>=-eq-ok, ok_injective}
use zion_terminal.Base.Json.{Fields}
use zion_terminal.Base.Dict.{Dict}
use zion_terminal.EquityClaims.Facts.{Reader}
use zion_terminal.EquityClaims.Selection.{Source}
use zion_terminal.EquityClaims.Claims.{
  Claim, reported, conflicting, group, in_order, head_of, sum, debt_claim, current_debt,
  noncurrent_debt, debt_of, candidates_in, exceeds, merged, current_borrowings,
}

-- The total counts once: with the noncurrent debt alone, or not at all where a part of its own date
-- exceeds it.
abbrev pub CountsOnce : Claim → Source → List Source → ℤ → Type 0
CountsOnce c total parts noncurrent =
    ((exceeds total (candidates_in total parts) ≡ false)
      × (c.state ≡ reported)
      × (c.value ≡ some (total.value +ℤ noncurrent)))
    ⊎ ((exceeds total (candidates_in total parts) ≡ true)
        × (c.state ≡ conflicting)
        × (c.value ≡ none)
        × (c.permitted ≡ false))

-- What the noncurrent debt adds: the noncurrent fact, or else the fact of all long-term debt.
abbrev pub noncurrent_part : Option Source → Option Source → ℤ
noncurrent_part (some s) other = s.value
noncurrent_part none (some s) = s.value
noncurrent_part none none = pos 0

+ℤ-zero : (z : ℤ) → z +ℤ pos 0 ≡ z
+ℤ-zero z = omega int_laws

part_lem : (a b : Option Source) → sum (noncurrent_debt a b) ≡ noncurrent_part a b
unfolding noncurrent_debt sum
part_lem (some a) b = +ℤ-zero a.value
part_lem none (some b) = +ℤ-zero b.value
part_lem none none = refl

debt_of-CountsOnce :
    (total : Source) (parts noncurrent : List Source)
    → CountsOnce (debt_of (current_debt (some total) parts) noncurrent) total parts (sum noncurrent)
unfolding debt_of current_debt
debt_of-CountsOnce total parts noncurrent =
    elim (Bool-cases (exceeds total (candidates_in total parts))) [
      | inl e ↦ inr (e, rw e refl, rw e refl, rw e refl)
      | inr e ↦ inl (e, rw e refl, rw e refl)
    ]

module _ (R : Reader) (valuation : ℕ) (facts : Fields) where
  -- Where the filer states a total of its current debt, a debt claim counts that total once: it is
  -- reported as the total and the fact of the noncurrent debt, or else the fact of all long-term debt,
  -- or else nothing more, whatever parts are reported; or, exactly where a part of the total's
  -- date exceeds the total, it is conflicting, has no amount and may not be used.
  pub debt_claim-CountsOnce :
      {c : Claim} {totals : Dict Source} {total : Source}
      → debt_claim R valuation facts ≡ ok c
      → group R valuation facts ("DebtCurrent" ∷ []) ≡ ok totals
      → head_of (in_order totals) ≡ some total
      → (parts : Dict Source) × (borrowings : Dict Source) × (noncurrent : Dict Source)
        × (long_term : Dict Source) × (group R valuation facts ("LongTermDebtCurrent" ∷ [])
            ≡ ok parts)
        × (group R valuation facts current_borrowings ≡ ok borrowings)
        × (group R valuation facts ("LongTermDebtNoncurrent" ∷ []) ≡ ok noncurrent)
        × (group R valuation facts ("LongTermDebt" ∷ []) ≡ ok long_term)
        × CountsOnce c total
            (in_order (merged parts borrowings))
            (noncurrent_part (head_of (in_order noncurrent)) (head_of (in_order long_term)))
  unfolding debt_claim
  debt_claim-CountsOnce {c} {totals} {total} h stated first =
      let (t, f1, k1) = >>=-eq-ok (group R valuation facts ("DebtCurrent" ∷ [])) _ h in
      let (p, f2, k2) = >>=-eq-ok (group R valuation facts ("LongTermDebtCurrent" ∷ [])) _ k1 in
      let (b, f3, k3) = >>=-eq-ok (group R valuation facts current_borrowings) _ k2 in
      let (n, f4, k4) = >>=-eq-ok (group R valuation facts ("LongTermDebtNoncurrent" ∷ [])) _ k3 in
      let (m, f5, k5) = >>=-eq-ok (group R valuation facts ("LongTermDebt" ∷ [])) _ k4 in
      let part = part_lem (head_of (in_order n)) (head_of (in_order m)) in
      (
        p,
        b,
        n,
        m,
        f2,
        f3,
        f4,
        f5,
        subst (CountsOnce c total (in_order (merged p b))) part (
            counted t (in_order (merged p b))
              (noncurrent_debt (head_of (in_order n)) (head_of (in_order m)))
              (ok_injective (sym f1 ∙ stated)) (ok_injective k5)),
      )
    where
      counted :
          (t : Dict Source) (parts noncurrent : List Source)
          → t ≡ totals
          → debt_of (current_debt (head_of (in_order t)) parts) noncurrent ≡ c
          → CountsOnce c total parts (sum noncurrent)
      counted t parts noncurrent e k =
          rw (sym (rw (e, first) at k)) (debt_of-CountsOnce total parts noncurrent)
