-- ===== src/Synthesis/Consistency.antt =====
-- Generated statements are consistent whatever the draws: they pass every validation check.
use zion_terminal.Base.{◌≡◌, refl, true, arith, inl, inr, Bool-cases}
use zion_terminal.Base.Result.{ok}
use zion_terminal.Base.Int.{ℤ, ◌+ℤ◌, ◌-ℤ◌, int_laws}
use zion_terminal.Base.Json.{Json, truthy}
use zion_terminal.Models.Responses.{passed, ValidationResult}
use zion_terminal.Validation.{build_result}
use zion_terminal.Validation.Synthesis.{within_two, validate_synthesis}
use zion_terminal.Synthesis.Agent.{with_press_release}
use zion_terminal.Synthesis.Statements.{Draws}

within_self : (a : ℤ) → within_two a a ≡ true
unfolding ◌-ℤ◌
within_self a = ground arith

same_equity : (a l : ℤ) → l +ℤ (a -ℤ l) ≡ a
same_equity a l = omega int_laws

within_identity : (a l : ℤ) → within_two a (l +ℤ (a -ℤ l)) ≡ true
within_identity a l = rw (same_equity a l) (within_self a)

ruleset agree = (within_self, within_identity)

-- Whatever the random draws and whatever the language model answers, the generated documents pass
-- the validation: it returns, no check fails, and its status is `passed`.
pub with_press_release-valid :
    (d : Draws) (pr : Json)
    → (v : ValidationResult) × (validate_synthesis (with_press_release d (ok pr)) ≡ ok v)
      × (v.success ≡ true)
      × (v.status ≡ passed)
      × (v.checks_failed ≡ 0)
unfolding with_press_release validate_synthesis build_result
with_press_release-valid d pr = elim (Bool-cases (truthy pr)) [
  | inl e ↦ rw e (_, refl, simp agree, simp agree, simp agree)
  | inr e ↦ rw e (_, refl, simp agree, simp agree, simp agree)
]
