-- ===== src/Tests/Releases.antt =====
-- The theorems on sessions, instants and releases at concrete inputs.
use zion_terminal.Base.{
  ◌+◌, ◌≤◌, ◌<◌, ◌≡◌, refl, arith, true, false, some, List, [], ◌∷◌, String, All,
}
use zion_terminal.Base.Result.{ok}
use zion_terminal.Base.Json.{
  Json, Fields, null, str, obj, arr, cons, nil, end, field, get, int, is_str,
}
use zion_terminal.Temporal.Calendar.{
  Date, to_ordinal, weekday, next_month, last_weekday, holidays, among, us_equity_session,
}
use zion_terminal.Temporal.Instants.{TemporalInstant, parse_instant}
use zion_terminal.Temporal.Sessions.{last_weekday_lem, us_equity_session-weekday}
use zion_terminal.Temporal.Leakage.{validate_leakage, Published, validate_leakage-Published}
use zion_terminal.TruthQuery.Plan.{QueryPlan, parse_query}
use zion_terminal.TruthQuery.Plans.{Plausible, parse_query-Plausible}
use zion_terminal.TruthQuery.Release.{
  QueryResponse, RealSnapshot, SyntheticSnapshot, Loaded, loaded, handle_real, handle_synthetic,
}
use zion_terminal.TruthQuery.Lookahead.{Answers, handle_real-Answers, handle_synthetic-Answers}
use zion_terminal.Tests.Data.{value_or}
use zion_terminal.Tests.Router.{same_text}

-- May 31, 2026 is a Sunday, and the last Monday is May 25.
last_weekday_lem_example :
    let r = last_weekday 2026 5 0 in
    (weekday (r + 1) ≡ 0) × (next_month 2026 5 ≤ r + 7) × (r < next_month 2026 5)
unfolding next_month
last_weekday_lem_example = last_weekday_lem 2026 5 0 (omega arith) (omega arith)

abbrev memorial_day : Date
memorial_day = record { year = 2026; month = 5; day = 25 }

us_equity_session-weekday_example :
    (us_equity_session memorial_day).is_holiday ≡ among (to_ordinal memorial_day) (holidays 2026)
unfolding to_ordinal weekday
us_equity_session-weekday_example = us_equity_session-weekday memorial_day refl

open_on_memorial_day : (us_equity_session memorial_day).is_holiday ≡ false
unfolding us_equity_session
open_on_memorial_day = refl

abbrev row_at : Json → Fields
row_at t =
    field "available_at" t
      (field "input_available_at" (arr (cons (str "2026-01-01T00:00:00Z") nil)) end)

abbrev some_rows : List Fields
some_rows = row_at (str "2026-01-02T00:00:00Z") ∷ []

abbrev cutoff_text : Json
cutoff_text = str "2026-01-02T01:00:00+01:00"

validate_leakage-Published_example :
    (cutoff : TemporalInstant) × (parse_instant cutoff_text ≡ ok cutoff)
    × All (Published cutoff.epoch_ns) some_rows
unfolding validate_leakage parse_instant
validate_leakage-Published_example = validate_leakage-Published some_rows cutoff_text {u = tt} refl

abbrev plan : QueryPlan
plan = record { symbol = "NOVA"; metrics = "revenue" ∷ [] }

parse_query-Plausible_example : Plausible plan
unfolding parse_query
parse_query-Plausible_example =
    parse_query-Plausible "What is the revenue of NOVA?" {plan = plan} refl

abbrev nova : Fields
nova =
    field "entity_id" (str "e1")
      (field "symbol" (str "NOVA") (field "display_name" (str "Nova Systems") end))

abbrev nova_world : Fields
nova_world = field "world_id" (str "w1") end

abbrev evidence_row : String → Fields
evidence_row t =
    field "entity_id" (str "e1")
      (field "metric" (str "revenue") (field "value" (int 1000) (field "available_at" (str t) end)))

abbrev two_rows : List Fields
two_rows = evidence_row "2026-01-02" ∷ evidence_row "2026-03-01" ∷ []

abbrev as_of_request : Fields
as_of_request =
    field "query" (str "What is the revenue of NOVA?")
      (field "world" (obj nova_world) (field "as_of" (str "2026-02-01T00:00:00Z") end))

abbrev real_release : Loaded RealSnapshot
real_release =
    loaded (record { world = nova_world; entity = nova; evidence = two_rows; release = end })

abbrev no_response : QueryResponse
no_response = record {
  request_id = null;
  world = end;
  entity = end;
  answer = [];
  metrics = [];
  calculations = [];
  evidence = [];
  source_count = 0;
  qc_status = null;
  release = end;
}

-- The row of March is not in the answer as of February.
real_evidence :
    (value_or no_response (handle_real same_text real_release as_of_request)).evidence
    ≡ evidence_row "2026-01-02" ∷ []
unfolding handle_real
real_evidence = refl

handle_real-Answers_example :
    Answers as_of_request (value_or no_response (handle_real same_text real_release as_of_request))
unfolding handle_real
handle_real-Answers_example = handle_real-Answers same_text real_release as_of_request refl

abbrev synthetic_files : SyntheticSnapshot
synthetic_files = record {
  manifest = field "world" (obj nova_world) end;
  certification = field "status" (str "PASS") end;
  entities = nova ∷ [];
  financials = two_rows;
  prices = [];
  qc_report_sha256 = "";
}

handle_synthetic-Answers_example :
    Answers as_of_request
      (value_or no_response (handle_synthetic same_text false (some synthetic_files) as_of_request))
    × ((s : SyntheticSnapshot) × (some synthetic_files ≡ some s)
        × (false ≡ false → is_str (get "status" s.certification) "PASS" ≡ true))
unfolding handle_synthetic
handle_synthetic-Answers_example =
    handle_synthetic-Answers same_text false (some synthetic_files) as_of_request refl
