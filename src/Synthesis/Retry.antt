-- ===== src/Synthesis/Retry.antt =====
-- `generate_with_retry`: what a returned result says, and that the first attempt is enough.
use zion_terminal.Base.{
  ℕ, suc, zero, ◌+◌, ◌≡◌, ◌⊎◌, refl, ◌∙◌, ap, Bool, true, false, some, String, arith, if◌then◌else◌,
  ◌==◌, inl, inr, if_cases,
}
use mathlib.Core.Path.{subst}
use zion_terminal.Base.Result.{ok, ◌>>=◌, >>=-eq-ok, ok_injective}
use zion_terminal.Base.Json.{Json, Fields}
use zion_terminal.Models.Responses.{SynthesisResult, ValidationResult}
use zion_terminal.Validation.{Checked}
use zion_terminal.Validation.Synthesis.{validate_synthesis}
use zion_terminal.Synthesis.Agent.{
  Params, World, with_press_release, generate, drawn, press_of, attempt_or, retry_from,
  generate_with_retry,
}
use zion_terminal.Synthesis.Statements.{Draws}
use zion_terminal.Synthesis.Consistency.{with_press_release-valid}

-- The result validates with no failed check.
abbrev pub Validated : SynthesisResult → Type 0
Validated r = (v : ValidationResult) × (validate_synthesis r ≡ ok v) × (v.checks_failed ≡ 0)

-- What an attempt does with its validation.
abbrev accept :
    SynthesisResult → Checked SynthesisResult → ValidationResult → Checked SynthesisResult
accept result rest v = if v.checks_failed == 0 then ok result else rest

abbrev checked : SynthesisResult → Checked SynthesisResult → Checked SynthesisResult
checked result rest = validate_synthesis result >>= accept result rest

attempt_or-Validated :
    (result : SynthesisResult) (rest : Checked SynthesisResult) {r : SynthesisResult}
    → attempt_or true result rest ≡ ok r
    → (rest ≡ ok r) ⊎ Validated r
unfolding attempt_or
attempt_or-Validated result rest {r} h =
    elim (if_cases result.success (checked result rest) rest h) [
      | inl (good, tried) ↦
          let (v, hv, k) = >>=-eq-ok (validate_synthesis result) (accept result rest) tried in
          elim (if_cases (v.checks_failed == 0) (ok result) rest k) [
            | inl (zero_failed, same) ↦
                inr (subst Validated (ok_injective same) (v, hv, ground arith))
            | inr (some_failed, later) ↦ inl later
          ]
      | inr (bad, later) ↦ inl later
    ]

module _ (w : World) (query : String) (others : Fields) (max_retries : ℕ) where
  retry_from-Validated :
      (left seed : ℕ) {r : SynthesisResult}
      → retry_from w query others true max_retries left seed ≡ ok r
      → r.success ≡ true
      → Validated r
  unfolding retry_from
  retry_from-Validated zero seed {r} h good =
      absurd (no_success (ap (λ (x : SynthesisResult). x.success) (ok_injective h) ∙ good))
    where
      no_success : false ≡ true → ⊥
      no_success e = cc
  retry_from-Validated (suc left) seed h good =
      elim (attempt_or-Validated (generate w query (record { seed = some seed; others = others }))
        (retry_from w query others true max_retries left (seed + 1)) h) [
          | inl later ↦ retry_from-Validated left (seed + 1) later good
          | inr now ↦ now
        ]

-- With a validator, a result that is returned as a success has been validated with no failed check.
pub generate_with_retry-Validated :
    (w : World) (query : String) (params : Params) (max_retries : ℕ) {r : SynthesisResult}
    → generate_with_retry w query params max_retries true ≡ ok r
    → r.success ≡ true
    → Validated r
unfolding generate_with_retry
generate_with_retry-Validated w query params max_retries h good =
    retry_from-Validated w query params.others max_retries max_retries _ h good

first_attempt :
    (d : Draws) (pr : Json) (validated : Bool) (rest : Checked SynthesisResult)
    → attempt_or validated (with_press_release d (ok pr)) rest ≡ ok (with_press_release d (ok pr))
unfolding attempt_or with_press_release
first_attempt d pr false rest = refl
first_attempt d pr true rest =
    let (v, hv, good, status, none_failed) = with_press_release-valid d pr in
    rw hv (rw none_failed refl)

-- A retry is never needed: with at least one attempt allowed, and a language model that does not
-- raise, the call returns the first attempt's result, with a validator and without.
pub generate_with_retry-first :
    (w : World) (query : String) (params : Params) (more : ℕ) (validated : Bool) {pr : Json}
    → press_of w (drawn w query params) ≡ ok pr
    → generate_with_retry w query params (suc more) validated ≡ ok (generate w query params)
unfolding generate_with_retry retry_from generate
generate_with_retry-first w query params more validated {pr} h =
    rw h (first_attempt (drawn w query params) pr validated _)
