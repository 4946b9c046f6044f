-- ===== src/TruthQuery/Lookahead.antt =====
-- What the evidence of a response is: one row for each metric, none from after the cutoff.
use zion_terminal.Base.{
  ◌≤◌, ◌≡◌, refl, ap, if_cases, Bool, true, false, Option, none, some, List, [], ◌∷◌, ◌++◌, String,
  arith, ltb, length, length-append, All, All-append, All-keep, All-keep_of, Option-cases, inl, inr,
}
use mathlib.Core.Path.{subst}
use zion_terminal.Base.Result.{ok, err, >>=-eq-ok, ok_injective}
use zion_terminal.Base.Int.{ℤ, ◌≤ℤ◌, leb_ℤ}
use zion_terminal.Base.Json.{Json, Fields, get, is_str}
use zion_terminal.TruthQuery.Plan.{QueryPlan, parse_query, metric_not_available}
use zion_terminal.TruthQuery.Evidence.{
  source_as_of, is_available, has_metric, candidates_for, last_row, filter_evidence, as_of_value,
}
use zion_terminal.TruthQuery.Release.{
  QueryResponse, Loaded, RealSnapshot, SyntheticSnapshot, text_of, answered, handle_real,
  handle_synthetic, evidence_response, world_of, found, entity_named, synthetic_evidence,
  synthetic_release, public_entity, real_snapshot, synthetic_snapshot, check_world_id, check_entity,
}

-- The row was available at the instant, if there is one.
abbrev pub Known : Option ℤ → Fields → Type 0
Known none row = Unit
Known (some limit) row = (t : ℤ) × (source_as_of (get "available_at" row) ≡ some t) × (t ≤ℤ limit)

-- The rows are one for each metric, in the order of the metrics.
abbrev pub OnePer : List String → List Fields → Type 0
OnePer [] [] = Unit
OnePer (m ∷ ms) (row ∷ rows) = (has_metric m row ≡ true) × OnePer ms rows
OnePer _ _ = ⊥

All-last_row {κ} : (P : Fields → Type κ) (xs : List Fields) → All P xs → All P (last_row xs)
All-last_row P [] h = tt
All-last_row P (x ∷ []) h = h
All-last_row P (x ∷ y ∷ xs) h = All-last_row P (y ∷ xs) h.1

is_available-Known :
    (as_of : Option ℤ) (row : Fields) → is_available as_of row ≡ true → Known as_of row
unfolding is_available
is_available-Known none row h = tt
is_available-Known (some limit) row h =
    elim (Option-cases (source_as_of (get "available_at" row))) [
      | inl e ↦ absurd (never (rw (e, is_available) at h))
      | inr (t, e) ↦ (t, e, within t (rw (e, is_available) at h))
    ]
  where
    never : false ≡ true → ⊥
    never k = cc

    within : (t : ℤ) → leb_ℤ t limit ≡ true → t ≤ℤ limit
    within t k = ground arith

module _ (evidence : List Fields) (as_of : Option ℤ) where
  candidates-Known : (metric : String) → All (Known as_of) (candidates_for evidence as_of metric)
  unfolding candidates_for
  candidates-Known metric = All-keep (Known as_of) (is_available as_of) _ (is_available-Known as_of)

  candidates-has :
      (metric : String)
      → All (λ row. has_metric metric row ≡ true) (candidates_for evidence as_of metric)
  unfolding candidates_for
  candidates-has metric =
      All-keep_of _ (is_available as_of) _ (All-keep _ (has_metric metric) evidence (λ x h. h))

  filter_evidence-Known :
      (metrics : List String) → All (Known as_of) (filter_evidence evidence metrics as_of)
  unfolding filter_evidence
  filter_evidence-Known [] = tt
  filter_evidence-Known (metric ∷ metrics) =
      All-append (Known as_of) (last_row (candidates_for evidence as_of metric)) _
        (All-last_row (Known as_of) _ (candidates-Known metric)) (filter_evidence-Known metrics)

  at_most_one : (rows : List Fields) → length (last_row rows) ≤ 1
  at_most_one [] = omega arith
  at_most_one (x ∷ []) = omega arith
  at_most_one (x ∷ y ∷ xs) = at_most_one (y ∷ xs)

  filter_evidence-length :
      (metrics : List String) → length (filter_evidence evidence metrics as_of) ≤ length metrics
  unfolding filter_evidence
  filter_evidence-length [] = omega arith
  filter_evidence-length (metric ∷ metrics) =
      let rows = last_row (candidates_for evidence as_of metric) in
      let l = length-append rows (filter_evidence evidence metrics as_of) in
      let one = at_most_one (candidates_for evidence as_of metric) in
      let rest = filter_evidence-length metrics in omega arith

  -- With no row missing, the first metric has its row.
  OnePer-next :
      (metric : String) (metrics : List String) (rows rest : List Fields)
      → All (λ row. has_metric metric row ≡ true) rows
      → length rows ≤ 1
      → length rest ≤ length metrics
      → length (metric ∷ metrics) ≤ length (rows ++ rest)
      → (length metrics ≤ length rest → OnePer metrics rest)
      → OnePer (metric ∷ metrics) (rows ++ rest)
  OnePer-next metric metrics [] rest has one short full per = absurd (omega arith)
  OnePer-next metric metrics (row ∷ []) rest has one short full per = (has.0, per (omega arith))
  OnePer-next metric metrics (row ∷ other ∷ rows) rest has one short full per = absurd (omega arith)

  filter_evidence-OnePer :
      (metrics : List String)
      → length metrics ≤ length (filter_evidence evidence metrics as_of)
      → OnePer metrics (filter_evidence evidence metrics as_of)
  unfolding filter_evidence
  filter_evidence-OnePer [] full = tt
  filter_evidence-OnePer (metric ∷ metrics) full =
      OnePer-next metric metrics (last_row (candidates_for evidence as_of metric)) _
        (All-last_row _ _ (candidates-has metric))
        (at_most_one (candidates_for evidence as_of metric)) (filter_evidence-length metrics) full
        (filter_evidence-OnePer metrics)

-- What a response to a request says: its evidence answers the plan of the request, one row for each
-- metric, and no row was published after the instant that the request names.
pub record Answers (request : Fields) (r : QueryResponse) : Type 0 where
  pub plan : QueryPlan
  pub plan_of_query : parse_query (text_of (get "query" request)) ≡ ok plan
  pub as_of : Option ℤ
  pub as_of_request : as_of_value (get "as_of" request) ≡ ok as_of
  pub one_per_metric : OnePer plan.metrics r.evidence
  pub known : All (Known as_of) r.evidence

answered_lem :
    (world entity : Fields) (metrics : List String) (evidence : List Fields) (release : Fields)
    (id : Json) {r : QueryResponse}
    → answered world entity metrics evidence release id ≡ ok r
    → (length metrics ≤ length evidence) × (evidence ≡ r.evidence)
unfolding answered evidence_response
answered_lem world entity metrics evidence release id {r} h =
    elim (if_cases (ltb (length evidence) (length metrics)) (err metric_not_available)
      (ok (evidence_response world entity evidence release id)) h) [
        | inl (few, e) ↦ cc
        | inr (enough, e) ↦ (ground arith, ap (λ (x : QueryResponse). x.evidence) (ok_injective e))
      ]

filtered-Answers :
    (request world entity : Fields) (plan : QueryPlan) (rows : List Fields) (as_of : Option ℤ)
    (release : Fields) (id : Json) {r : QueryResponse}
    → parse_query (text_of (get "query" request)) ≡ ok plan
    → as_of_value (get "as_of" request) ≡ ok as_of
    → answered world entity plan.metrics (filter_evidence rows plan.metrics as_of) release id ≡ ok r
    → Answers request r
filtered-Answers request world entity plan rows as_of release id {r} hp ha h =
    let (full, same) =
      answered_lem world entity plan.metrics (filter_evidence rows plan.metrics as_of) release id
        h in
    record {
      plan = plan;
      plan_of_query = hp;
      as_of = as_of;
      as_of_request = ha;
      one_per_metric =
          subst (OnePer plan.metrics) same (filter_evidence-OnePer rows as_of plan.metrics full);
      known = subst (All (Known as_of)) same (filter_evidence-Known rows as_of plan.metrics);
    }

certified :
    (allow : Bool) (o : Option SyntheticSnapshot) {s : SyntheticSnapshot}
    → synthetic_snapshot allow o ≡ ok s
    → (t : SyntheticSnapshot) × (o ≡ some t)
      × (allow ≡ false → is_str (get "status" t.certification) "PASS" ≡ true)
unfolding synthetic_snapshot
certified allow none k = cc
certified allow (some t) k = (t, refl, λ f. ground arith)

module _ (same : Json → Json → Bool) where
  -- A response about the real world answers its request: its evidence has one row for each metric
  -- of the query's plan, in their order, and where the request names an instant no row was published
  -- after it (both to the microsecond).
  pub handle_real-Answers :
      (file : Loaded RealSnapshot) (request : Fields) {r : QueryResponse}
      → handle_real same file request ≡ ok r
      → Answers request r
  unfolding handle_real
  handle_real-Answers file request h =
      let (s, hs, h1) = >>=-eq-ok (real_snapshot file) _ h in
      let (plan, hp, h2) = >>=-eq-ok (parse_query (text_of (get "query" request))) _ h1 in
      let (u, hu, h3) = >>=-eq-ok (check_world_id same request s.world) _ h2 in
      let (v, hv, h4) = >>=-eq-ok (check_entity same plan s.entity) _ h3 in
      let (as_of, ha, h5) = >>=-eq-ok (as_of_value (get "as_of" request)) _ h4 in
      filtered-Answers request s.world s.entity plan s.evidence as_of s.release
        (get "request_id" request) hp ha h5

  -- A response about a synthetic world answers its request in the same way, and unless uncertified
  -- releases are allowed its release has passed the quality control.
  pub handle_synthetic-Answers :
      (allow_uncertified : Bool) (files : Option SyntheticSnapshot) (request : Fields)
      {r : QueryResponse}
      → handle_synthetic same allow_uncertified files request ≡ ok r
      → Answers request r
        × ((s : SyntheticSnapshot) × (files ≡ some s)
            × (allow_uncertified ≡ false → is_str (get "status" s.certification) "PASS" ≡ true))
  unfolding handle_synthetic
  handle_synthetic-Answers allow_uncertified files request h =
      let (s, hs, h1) = >>=-eq-ok (synthetic_snapshot allow_uncertified files) _ h in
      let (plan, hp, h2) = >>=-eq-ok (parse_query (text_of (get "query" request))) _ h1 in
      let (u, hu, h3) = >>=-eq-ok (check_world_id same request (world_of s)) _ h2 in
      let (entity, he, h4) = >>=-eq-ok (found same (entity_named plan.symbol s.entities)) _ h3 in
      let (as_of, ha, h5) = >>=-eq-ok (as_of_value (get "as_of" request)) _ h4 in
      (
        filtered-Answers request (world_of s) (public_entity entity) plan
            (synthetic_evidence same s plan entity) as_of (synthetic_release s)
            (get "request_id" request) hp ha h5,
        certified allow_uncertified files hs,
      )
