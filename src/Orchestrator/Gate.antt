-- ===== src/Orchestrator/Gate.antt =====
-- The gate of strict mode: what a successful response says of its data.
use zion_terminal.Base.{
  Bool, true, false, not, ◌&&◌, ◌⊎◌, List, [], ◌∷◌, String, ◌≡◌, refl, sym, All, arith, is_empty,
  inl, inr, if◌then◌else◌,
}
use mathlib.Core.Path.{subst}
use mathlib.Core.List.{append-nil}
use zion_terminal.Base.Result.{ok, ◌>>=◌, >>=-eq-ok, ok_injective}
use zion_terminal.Base.Json.{Fields}
use zion_terminal.Models.Responses.{
  Text, RetrievalResult, ValidationResult, OrchestratorResponse, all_data,
}
use zion_terminal.Validation.{validate_retrieval}
use zion_terminal.Validation.Soundness.{validate_retrieval-success}
use zion_terminal.Validation.ItemChecks.{Sound}
use zion_terminal.Retrieval.{Task, fetch}
use zion_terminal.Orchestrator.Agent.{
  Orchestrator, Metadata, gated, ungated, validate_result, fetch_and_validate,
}

module _ (o : Orchestrator) (query : Text) (intent : String) (metadata : Metadata)
    (result : RetrievalResult) where
  gated_success :
      (v : ValidationResult)
      → validate_retrieval result ≡ ok v
      → o.strict ≡ true
      → (gated o query intent metadata result v).success ≡ true
      → All Sound result.items
  unfolding gated
  gated_success v hv strict h = (validate_retrieval-success result hv).0 (ground arith)

  no_items-Sound : (items : List Fields) → is_empty items ≡ true → All Sound items
  no_items-Sound [] h = tt
  no_items-Sound (x ∷ xs) h = cc

  -- The two ways in which a response comes about.
  when_returned :
      (b : Bool) {r : OrchestratorResponse}
      → (if b
          then (validate_retrieval result >>= λ v. ok (gated o query intent metadata result v))
          else ok (ungated query intent metadata result))
        ≡ ok r
      → ((v : ValidationResult) × (validate_retrieval result ≡ ok v)
          × (gated o query intent metadata result v ≡ r))
        ⊎ ((b ≡ false) × (ungated query intent metadata result ≡ r))
  when_returned true h =
      let (v, hv, e) =
        >>=-eq-ok (validate_retrieval result) (λ v. ok (gated o query intent metadata result v))
          h in
      inl (v, hv, ok_injective e)
  when_returned false h = inr (refl, ok_injective h)

  ungated-Sound :
      (validate : Bool)
      → (validate && (result.success && not (is_empty result.items))) ≡ false
      → validate ≡ true
      → (ungated query intent metadata result).success ≡ true
      → All Sound result.items
  unfolding ungated
  ungated-Sound validate off asked good = no_items-Sound result.items (ground arith)

  strict_result :
      (validate : Bool) {r : OrchestratorResponse}
      → validate_result o validate query intent metadata result ≡ ok r
      → o.strict ≡ true
      → validate ≡ true
      → r.success ≡ true
      → All Sound (all_data r)
  unfolding validate_result all_data
  strict_result validate {r} h strict asked good =
      elim (when_returned (validate && (result.success && not (is_empty result.items))) h) [
        | inl (v, hv, e) ↦
            subst (λ (s : OrchestratorResponse). All Sound (all_data s)) e
              (unfold gated in
                rw append-nil (
                  gated_success v hv strict
                    (subst (λ (s : OrchestratorResponse). s.success ≡ true) (sym e) good)))
        | inr (off, e) ↦
            subst (λ (s : OrchestratorResponse). All Sound (all_data s)) e
              (unfold ungated in
                rw append-nil (
                  ungated-Sound validate off asked
                    (subst (λ (s : OrchestratorResponse). s.success ≡ true) (sym e) good)))
      ]

  Keeps : OrchestratorResponse → Type 0
  Keeps r =
      (all_data r ≡ result.items)
      × (r.errors ≡ result.errors)
      × (r.success ≡ true → result.success ≡ true)
      × (o.strict ≡ false → r.success ≡ result.success)

  gated-Keeps : (v : ValidationResult) → Keeps (gated o query intent metadata result v)
  unfolding Keeps gated all_data
  gated-Keeps v = (append-nil result.items, refl, (λ h. ground arith), (λ h. ground arith))

  ungated-Keeps : Keeps (ungated query intent metadata result)
  unfolding Keeps ungated all_data
  ungated-Keeps = (append-nil result.items, refl, (λ h. h), (λ h. refl))

  kept_result :
      (validate : Bool) {r : OrchestratorResponse}
      → validate_result o validate query intent metadata result ≡ ok r
      → (all_data r ≡ result.items)
        × (r.errors ≡ result.errors)
        × (r.success ≡ true → result.success ≡ true)
        × (o.strict ≡ false → r.success ≡ result.success)
  unfolding validate_result Keeps
  kept_result validate {r} h =
      elim (when_returned (validate && (result.success && not (is_empty result.items))) h) [
        | inl (v, hv, e) ↦ subst Keeps e (gated-Keeps v)
        | inr (off, e) ↦ subst Keeps e ungated-Keeps
      ]

-- In strict mode a validated response that is a success holds only sound data: every item has a
-- source and no negative volume, and its tested price, which is the price, or the close where the
-- price is falsy, is a number above 0 and below one million if it is set.
pub fetch_and_validate-strict :
    (o : Orchestrator) (tasks : List Task) (query : Text) (intent : String) (metadata : Metadata)
    {r : OrchestratorResponse}
    → fetch_and_validate o tasks query intent true metadata ≡ ok r
    → o.strict ≡ true
    → r.success ≡ true
    → All Sound (all_data r)
unfolding fetch_and_validate
fetch_and_validate-strict o tasks query intent metadata h strict good =
    strict_result o query intent metadata (fetch o.adapters tasks) true h strict refl good

-- Whatever the mode, a response carries the data and the errors of the retrieval, is a success only
-- if the retrieval was one, and outside strict mode exactly if the retrieval was one.
pub fetch_and_validate-keeps :
    (o : Orchestrator) (tasks : List Task) (query : Text) (intent : String) (validate : Bool)
    (metadata : Metadata) {r : OrchestratorResponse}
    → fetch_and_validate o tasks query intent validate metadata ≡ ok r
    → let fetched = fetch o.adapters tasks in
      (all_data r ≡ fetched.items)
      × (r.errors ≡ fetched.errors)
      × (r.success ≡ true → fetched.success ≡ true)
      × (o.strict ≡ false → r.success ≡ fetched.success)
unfolding fetch_and_validate
fetch_and_validate-keeps o tasks query intent validate metadata h =
    kept_result o query intent metadata (fetch o.adapters tasks) validate h
