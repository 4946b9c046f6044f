-- ===== src/Orchestrator/Agent.antt =====
-- orchestrator/orchestrator.py: `Orchestrator`. Its logger and its `close` are left out.
use zion_terminal.Base.{
  ℕ, Bool, true, false, not, ◌&&◌, Option, none, some, List, [], ◌∷◌, String, str_eq, is_empty,
  is_some, length, ◌==◌, if◌then◌else◌,
}
use zion_terminal.Base.Result.{ok, ◌>>=◌}
use zion_terminal.Base.Upper.{upper}
use zion_terminal.Base.Json.{Json, Items, Fields, bool, str, arr, end, field, get, truthy, int}
use zion_terminal.Models.Responses.{
  Text, plain, filled, RetrievalResult, SynthesisResult, ValidationResult, retrieval, synthesis,
  validation, OrchestratorResponse,
}
use zion_terminal.Validation.{Checked, validate_retrieval}
use zion_terminal.Validation.Synthesis.{validate_synthesis}
use zion_terminal.Retrieval.{Adapters, Task, adapter_named, fetch, ticker_task}

-- The fields of the object that requests read; the document store is passed along beside it.
pub record Orchestrator : Type 0 where
  pub adapters : Adapters
  pub strict : Bool
  pub llm_name : String

-- orchestrator/intent_parser.py: `ParsedIntent`, as the parser hands it over.
pub record ParsedIntent : Type 0 where
  pub raw_query : String
  pub intent : String
  pub tickers : Items
  pub macro_series : Items
  pub params : Fields
  pub tasks : List Task
  pub needs_synthesis : Bool

abbrev pub Metadata : Type 0
Metadata = List (String × Json)

-- The response once the validation, if there was one, is known.
unfoldable pub gated :
    Orchestrator
    → Text
    → String
    → Metadata
    → RetrievalResult
    → ValidationResult
    → OrchestratorResponse
gated o query intent metadata result checked = record {
  success = if o.strict && not checked.success then false else result.success;
  query = query;
  intent = intent;
  results = retrieval result ∷ validation checked ∷ [];
  errors = result.errors;
  metadata = metadata;
}

unfoldable pub ungated : Text → String → Metadata → RetrievalResult → OrchestratorResponse
ungated query intent metadata result = record {
  success = result.success;
  query = query;
  intent = intent;
  results = retrieval result ∷ [];
  errors = result.errors;
  metadata = metadata;
}

-- `_fetch_and_validate` after the retrieval
unfoldable pub validate_result :
    Orchestrator → Bool → Text → String → Metadata → RetrievalResult → Checked OrchestratorResponse
unfolding gated ungated
validate_result o validate query intent metadata result =
    if validate && (result.success && not (is_empty result.items))
    then (do checked ← validate_retrieval result; ok (gated o query intent metadata result checked))
    else ok (ungated query intent metadata result)

-- `_fetch_and_validate`
unfoldable pub fetch_and_validate :
    Orchestrator → List Task → Text → String → Bool → Metadata → Checked OrchestratorResponse
unfolding validate_result
fetch_and_validate o tasks query intent validate metadata =
    validate_result o validate query intent metadata (fetch o.adapters tasks)

-- `_handle_synthesis`, on what the synthesis agent generated for the query
unfoldable pub handle_synthesis :
    Orchestrator → String → SynthesisResult → Checked OrchestratorResponse
handle_synthesis o raw_query result =
    if result.success && not (is_empty result.documents)
    then (do
      checked ← validate_synthesis result
      ok (record {
        success = if o.strict && not checked.success then false else result.success;
        query = plain raw_query;
        intent = "synthesis";
        results = synthesis result ∷ validation checked ∷ [];
        errors = result.errors;
        metadata = [];
      }))
    else ok (record {
      success = result.success;
      query = plain raw_query;
      intent = "synthesis";
      results = synthesis result ∷ [];
      errors = result.errors;
      metadata = [];
    })

abbrev pub not_understood : Text
not_understood =
    plain
      "Could not understand the query. Try mentioning a ticker (e.g. AAPL) or macro indicator (e.g. GDP)."

unfoldable pub query_metadata : Orchestrator → ParsedIntent → Metadata
query_metadata o parsed =
    ("tickers", arr parsed.tickers)
    ∷ ("macro_series", arr parsed.macro_series)
    ∷ ("tasks_count", int (length parsed.tasks))
    ∷ ("llm_provider", str o.llm_name)
    ∷ (if truthy (get "_llm_assisted" parsed.params) then ("llm_assisted", bool true) ∷ [] else [])

-- `query`, on the parsed text; `generate` is the synthesis agent's method
unfoldable pub query :
    Orchestrator
    → (String → Fields → SynthesisResult)
    → String
    → ParsedIntent
    → Bool
    → Checked OrchestratorResponse
unfolding handle_synthesis fetch_and_validate query_metadata
query o generate text parsed validate =
    if is_empty parsed.tasks
    then ok (record {
      success = false;
      query = plain text;
      intent = parsed.intent;
      results = [];
      errors = not_understood ∷ [];
      metadata = [];
    })
    else if parsed.needs_synthesis
    then handle_synthesis o parsed.raw_query (generate parsed.raw_query parsed.params)
    else fetch_and_validate o parsed.tasks (plain text) parsed.intent validate
        (query_metadata o parsed)

unfoldable pub get_quote : Orchestrator → String → Bool → Checked OrchestratorResponse
unfolding fetch_and_validate
get_quote o ticker validate =
    fetch_and_validate o (ticker_task "yahoo_finance" (upper ticker) "quote" end ∷ [])
      (filled "{ticker} quote" (str ticker ∷ [])) "quote" validate []

unfoldable pub get_history :
    Orchestrator → String → String → String → Bool → Checked OrchestratorResponse
unfolding fetch_and_validate
get_history o ticker period interval validate =
    fetch_and_validate o
      (ticker_task "yahoo_finance" (upper ticker) "history"
          (field "period" (str period) (field "interval" (str interval) end))
        ∷ [])
      (filled "{ticker} history {period} {interval}" (str ticker ∷ str period ∷ str interval ∷ []))
      "history" validate []

-- `if year: task["year"] = year`, at the end of the dict
abbrev pub optional_number : String → Option ℕ → Fields → Fields
optional_number k none rest = rest
optional_number k (some n) rest = if n == 0 then rest else field k (int n) rest

unfoldable pub statement_fields : String → Bool → Fields → Fields
statement_fields statement_type quarterly more =
    field "statement_type" (str statement_type) (field "quarterly" (bool quarterly) more)

-- The task of `get_financials`: SEC EDGAR if it is asked for and registered, else Yahoo, which
-- takes no year and no quarter.
unfoldable pub financials_task :
    Adapters → String → String → Bool → String → Option ℕ → Option ℕ → Task
unfolding statement_fields
financials_task adapters ticker statement_type quarterly source year quarter =
    if str_eq source "sec" && is_some (adapter_named "sec_edgar" adapters)
    then ticker_task "sec_edgar" (upper ticker) "financials" (
        statement_fields statement_type quarterly
          (optional_number "year" year (optional_number "quarter" quarter end)))
    else ticker_task "yahoo_finance" (upper ticker) "financials"
        (statement_fields statement_type quarterly end)

unfoldable pub get_financials :
    Orchestrator
    → String
    → String
    → Bool
    → String
    → Option ℕ
    → Option ℕ
    → Bool
    → Checked OrchestratorResponse
unfolding financials_task fetch_and_validate
get_financials o ticker statement_type quarterly source year quarter validate =
    fetch_and_validate o
      (financials_task o.adapters ticker statement_type quarterly source year quarter ∷ [])
      (filled "{ticker} {statement_type} {'quarterly' if quarterly else 'annual'}"
        (str ticker ∷ str statement_type ∷ bool quarterly ∷ []))
      "financials" validate
      (("source_preference", str source)
        ∷ ("source_role", str (if str_eq source "sec" then "primary" else "fallback"))
        ∷ [])

-- `if form: task["form"] = form`
abbrev pub optional_text : String → String → Fields → Fields
optional_text k s rest = if str_eq s "" then rest else field k (str s) rest

unfoldable pub get_filings :
    Orchestrator → String → String → ℕ → Option ℕ → Option ℕ → Bool → Checked OrchestratorResponse
unfolding fetch_and_validate
get_filings o ticker form limit year quarter validate =
    fetch_and_validate o
      (ticker_task "sec_edgar" (upper ticker) "filings" (
          field "limit" (int limit) (
            optional_text "form" form
              (optional_number "year" year (optional_number "quarter" quarter end))))
        ∷ [])
      (filled "{ticker} filings form={form} limit={limit}" (str ticker ∷ str form ∷ int limit ∷ []))
      "filings" validate []

unfoldable pub get_macro :
    Orchestrator → String → String → String → Bool → Checked OrchestratorResponse
unfolding fetch_and_validate
get_macro o series_id start_date end_date validate =
    fetch_and_validate o
      (field "source" (str "fred") (
          field "series_id" (str (upper series_id))
            (optional_text "start_date" start_date (optional_text "end_date" end_date end)))
        ∷ [])
      (filled "FRED {series_id}" (str series_id ∷ [])) "macro" validate []

unfoldable pub get_info : Orchestrator → String → Bool → Checked OrchestratorResponse
unfolding fetch_and_validate
get_info o ticker validate =
    fetch_and_validate o (ticker_task "yahoo_finance" (upper ticker) "info" end ∷ [])
      (filled "{ticker} company info" (str ticker ∷ [])) "company_info" validate []

unfoldable pub get_company_facts : Orchestrator → String → Bool → Checked OrchestratorResponse
unfolding fetch_and_validate
get_company_facts o ticker validate =
    fetch_and_validate o (ticker_task "sec_edgar" (upper ticker) "company_facts" end ∷ [])
      (filled "{ticker} company facts" (str ticker ∷ [])) "company_facts" validate []
