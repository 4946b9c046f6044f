-- ===== src/TruthQuery/Release.antt =====
-- truth_query.py: the clients of a real and of a synthetic release. The files of a release are read
-- by other code: a client takes what it read. A missing field of a row is `null` here.
use zion_terminal.Base.{
  ℕ, Bool, not, ◌&&◌, Option, none, some, List, [], ◌∷◌, ◌++◌, String, str_eq, ltb, if◌then◌else◌,
  keep, get_last?, length, map,
}
use zion_terminal.Base.Result.{ok, err, ◌>>=◌}
use zion_terminal.Base.Json.{
  Json, Fields, null, str, obj, end, field, get, contains, is_str, truthy,
}
use zion_terminal.Base.Upper.{upper}
use zion_terminal.Models.Responses.{Text, filled}
use zion_terminal.TruthQuery.Plan.{
  Queried, release_not_available, invalid_upstream_response, world_not_certified, world_not_found,
  entity_not_found, metric_not_available, QueryPlan, parse_query, listed,
}
use zion_terminal.TruthQuery.Evidence.{as_of_value, filter_evidence, has_metric, last_row}

abbrev pub text_of : Json → String
text_of (str s) = s
text_of _ = ""

abbrev pub fields_of : Json → Fields
fields_of (obj d) = d
fields_of _ = end

-- The response of `_evidence_response`; the answer is its list of clauses.
pub record QueryResponse : Type 0 where
  pub request_id : Json
  pub world : Fields
  pub entity : Fields
  pub answer : List Text
  pub metrics : List Fields
  pub calculations : List Json
  pub evidence : List Fields
  pub source_count : ℕ
  pub qc_status : Json
  pub release : Fields

-- `by_metric`: the last row of a metric
unfoldable pub row_of : String → List Fields → Option Fields
row_of metric rows = get_last? (keep (has_metric metric) rows)

unfoldable pub revenue_clause : Fields → List Fields → List Text
unfolding row_of
revenue_clause entity rows = elim (row_of "revenue" rows) [
  | none ↦ []
  | some row ↦
      filled "{symbol} revenue was ${value:.3f}B" (get "symbol" entity ∷ get "value" row ∷ []) ∷ []
]

unfoldable pub clause : String → String → List Fields → List Text
unfolding row_of
clause metric template rows = elim (row_of metric rows) [
  | none ↦ []
  | some row ↦ filled template (get "value" row ∷ []) ∷ []
]

unfoldable pub metric_fields : Fields → Fields
metric_fields row = field "metric" (get "metric" row) (
    field "value" (get "value" row)
      (field "unit" (get "unit" row) (field "period" (get "period" row) end)))

abbrev pub has_calculation : Fields → Bool
has_calculation row = truthy (get "calculation" row)

-- `_evidence_response`
unfoldable pub evidence_response : Fields → Fields → List Fields → Fields → Json → QueryResponse
unfolding revenue_clause clause metric_fields
evidence_response world entity evidence release request_id = record {
  request_id = request_id;
  world = world;
  entity = entity;
  answer =
      revenue_clause entity evidence
      ++ clause "operating_margin" "operating margin was {value:.2%}" evidence
      ++ clause "last_price" "the latest published price was ${value:.2f}" evidence;
  metrics = map metric_fields evidence;
  calculations = map (get "calculation") (keep has_calculation evidence);
  evidence = evidence;
  source_count = length evidence;
  qc_status = get "qc_status" release;
  release = release;
}

-- What `json.loads(self.release_file.read_text())` gives.
pub data Loaded (A : Type 0) : Type 0 where
  no_file : Loaded A
  not_json : Loaded A
  loaded : A → Loaded A

pub record RealSnapshot : Type 0 where
  pub world : Fields
  pub entity : Fields
  pub evidence : List Fields
  pub release : Fields

-- `RealReleaseClient._snapshot`
unfoldable pub real_snapshot : Loaded RealSnapshot → Queried RealSnapshot
real_snapshot no_file = err release_not_available
real_snapshot not_json = err invalid_upstream_response
real_snapshot (loaded s) = ok s

-- Every metric has its row, or the query fails.
unfoldable pub answered :
    Fields → Fields → List String → List Fields → Fields → Json → Queried QueryResponse
unfolding evidence_response
answered world entity metrics evidence release request_id =
    if ltb (length evidence) (length metrics)
    then err metric_not_available
    else ok (evidence_response world entity evidence release request_id)

pub record SyntheticSnapshot : Type 0 where
  pub manifest : Fields
  pub certification : Fields
  pub entities : List Fields
  pub financials : List Fields
  pub prices : List Fields
  pub qc_report_sha256 : String

abbrev pub world_of : SyntheticSnapshot → Fields
world_of s = fields_of (get "world" s.manifest)

-- `SyntheticReleaseClient._snapshot`, up to the reading of its public files
unfoldable pub synthetic_snapshot : Bool → Option SyntheticSnapshot → Queried SyntheticSnapshot
synthetic_snapshot allow_uncertified none = err release_not_available
synthetic_snapshot allow_uncertified (some s) =
    if not allow_uncertified && not (is_str (get "status" s.certification) "PASS")
    then err world_not_certified
    else ok s

-- The first entity with the symbol.
unfoldable pub entity_named : String → List Fields → Option Fields
unfolding upper
entity_named symbol [] = none
entity_named symbol (e ∷ es) =
    let rest = entity_named symbol es in
    if str_eq (upper (text_of (get "symbol" e))) symbol then some e else rest

abbrev pub traded : String → Fields → Bool
traded symbol row = is_str (get "security" row) symbol

-- The row of evidence for a published price.
unfoldable pub price_evidence : SyntheticSnapshot → Fields → Fields → Fields
price_evidence s entity row = field "entity_id" (get "entity_id" entity) (
    field "metric" (str "last_price") (
      field "value" (get "close" row) (
        field "unit" (if contains "unit" row then get "unit" row else str "USD/share") (
          field "period" (get "session" row) (
            field "observation_at" (get "observation_at" row) (
              field "available_at" (get "available_at" row) (
                field "retrieved_at" (get "available_at" row) (
                  field "source" (str "market-fuzzer-native") (
                    field "source_record" (get "source_record" (fields_of (get "provenance" row))) (
                      field "calculation" null (
                        field "world" (obj (world_of s)) (
                          field "provenance"
                            (obj (
                              field "producer" (get "producer" s.manifest) (
                                field "artifact" (str "public/prices.json") (
                                  field "artifact_sha256"
                                    (get "sha256" (
                                      fields_of (
                                        get "public/prices.json"
                                          (fields_of (get "artifact_hashes" s.manifest)))))
                                    end))))
                            (field "quality" (obj (field "status" (str "observed") end))
                              end)))))))))))))

-- The evidence for a price, when it is asked for and there is one.
unfoldable pub price_rows : SyntheticSnapshot → QueryPlan → Fields → List Fields
unfolding listed price_evidence
price_rows s plan entity =
    if listed "last_price" plan.metrics
    then map (price_evidence s entity) (last_row (keep (traded plan.symbol) s.prices))
    else []

unfoldable pub synthetic_release : SyntheticSnapshot → Fields
synthetic_release s = field "world_version" (get "version" (world_of s)) (
    field "producer_sha" (get "git_sha" (fields_of (get "producer" s.manifest))) (
      field "qc_status" (get "status" s.certification)
        (field "qc_report_sha256" (str s.qc_report_sha256) end)))

unfoldable pub public_entity : Fields → Fields
public_entity entity =
    field "entity_id" (get "entity_id" entity)
      (field "display_name" (get "display_name" entity) (field "symbol" (get "symbol" entity) end))

-- `same` is Python's `==` on JSON values.
module _ (same : Json → Json → Bool) where
  unfoldable pub check_world_id : Fields → Fields → Queried (Unit {0})
  check_world_id request world =
      if same (get "world_id" (fields_of (get "world" request))) (get "world_id" world)
      then ok tt
      else err world_not_found

  -- The release is about the entity of the plan.
  unfoldable pub check_entity : QueryPlan → Fields → Queried (Unit {0})
  check_entity plan entity =
      if is_str (get "symbol" entity) plan.symbol then ok tt else err entity_not_found

  -- `RealReleaseClient.handle`
  unfoldable pub handle_real : Loaded RealSnapshot → Fields → Queried QueryResponse
  unfolding real_snapshot check_world_id check_entity parse_query as_of_value filter_evidence
      answered
  handle_real file request = do
    s ← real_snapshot file
    plan ← parse_query (text_of (get "query" request))
    _ ← check_world_id request s.world
    _ ← check_entity plan s.entity
    as_of ← as_of_value (get "as_of" request)
    answered s.world s.entity plan.metrics (filter_evidence s.evidence plan.metrics as_of) s.release
        (get "request_id" request)

  -- The financial rows of an entity for the metrics of a plan.
  unfoldable pub is_financial : QueryPlan → Fields → Fields → Bool
  unfolding listed
  is_financial plan entity row =
      same (get "entity_id" row) (get "entity_id" entity)
      && listed (text_of (get "metric" row)) plan.metrics

  unfoldable pub synthetic_evidence : SyntheticSnapshot → QueryPlan → Fields → List Fields
  unfolding is_financial price_rows
  synthetic_evidence s plan entity =
      keep (is_financial plan entity) s.financials ++ price_rows s plan entity

  unfoldable pub found : Option Fields → Queried Fields
  found none = err entity_not_found
  found (some entity) = ok entity

  -- `SyntheticReleaseClient.handle`
  unfoldable pub handle_synthetic : Bool → Option SyntheticSnapshot → Fields → Queried QueryResponse
  unfolding synthetic_snapshot check_world_id parse_query entity_named found as_of_value
      synthetic_evidence filter_evidence synthetic_release public_entity answered
  handle_synthetic allow_uncertified files request = do
    s ← synthetic_snapshot allow_uncertified files
    plan ← parse_query (text_of (get "query" request))
    _ ← check_world_id request (world_of s)
    entity ← found (entity_named plan.symbol s.entities)
    as_of ← as_of_value (get "as_of" request)
    answered (world_of s) (public_entity entity) plan.metrics
        (filter_evidence (synthetic_evidence s plan entity) plan.metrics as_of)
        (synthetic_release s) (get "request_id" request)
