-- ===== src/Retrieval/Agent.antt =====
-- agents/retrieval/agent.py: `RetrievalAgent`. An adapter's `fetch` calls a web service, so it is
-- a function that the adapter carries.
use zion_terminal.Base.{
  ℕ, Bool, true, false, not, ◌&&◌, ◌||◌, Option, none, some, List, [], ◌∷◌, ◌++◌, String, str_eq,
  if◌then◌else◌, is_empty, is_some, map,
}
use zion_terminal.Base.Json.{Json, Fields, bool, str, end, field, get, contains, truthy, int}
use zion_terminal.Models.Responses.{Text, filled, RetrievalResult}

-- A task is a dict.
abbrev pub Task : Type 0
Task = Fields

pub record Adapter : Type 0 where
  pub source_name : String
  pub fetch_task : Task → RetrievalResult

-- `self._adapters`: a dict from source names, in insertion order.
abbrev pub Adapters : Type 0
Adapters = List Adapter

-- `register_adapter`: a later adapter of the same name takes the place of the earlier one.
unfoldable pub register_adapter : Adapter → Adapters → Adapters
register_adapter a [] = a ∷ []
register_adapter a (b ∷ bs) =
    let rest = register_adapter a bs in
    if str_eq a.source_name b.source_name then a ∷ bs else b ∷ rest

-- The constructor: Yahoo always, FRED and SEC EDGAR only with a key and an identity.
unfoldable pub new_agent : Adapter → Option Adapter → Option Adapter → Adapters
unfolding register_adapter
new_agent yahoo fred sec =
    let base : Adapters = register_adapter yahoo [] in
    let with_fred : Adapters = elim fred [ none ↦ base | some a ↦ register_adapter a base ] in
    elim sec [ none ↦ with_fred | some a ↦ register_adapter a with_fred ]

-- `self._adapters.get(name)`
unfoldable pub adapter_named : String → Adapters → Option Adapter
adapter_named name [] = none
adapter_named name (b ∷ bs) =
    let rest = adapter_named name bs in if str_eq b.source_name name then some b else rest

-- `available_sources`
unfoldable pub available_sources : Adapters → List String
available_sources bs = map (λ b. b.source_name) bs

-- The source that a task names; every caller gives a text or no source.
abbrev pub source_of : Json → String
source_of (str s) = s
source_of _ = ""

-- `task.get("action", "quote")`
unfoldable pub action_of : Task → Json
action_of task = if contains "action" task then get "action" task else str "quote"

-- `action in ("filings", "company_facts", "filing_markdown", "financials")`
unfoldable pub is_filing_action : Json → Bool
is_filing_action (str a) =
    str_eq a "filings"
    || (str_eq a "company_facts" || (str_eq a "filing_markdown" || str_eq a "financials"))
is_filing_action _ = false

-- SEC EDGAR first; Yahoo in its place marks the task.
unfoldable pub filing_adapter : Adapters → Task → Option Adapter × Task
filing_adapter adapters task = elim (adapter_named "sec_edgar" adapters) [
  | some sec ↦ (some sec, task)
  | none ↦ elim (adapter_named "yahoo_finance" adapters) [
    | some yahoo ↦ (some yahoo, field "_fallback_from" (str "sec_edgar") task)
    | none ↦ (none, task)
  ]
]

-- `_find_adapter_for_task`: the adapter, and the task, which the call may have marked.
unfoldable pub find_adapter_for_task : Adapters → Task → Option Adapter × Task
unfolding action_of is_filing_action filing_adapter
find_adapter_for_task adapters task =
    if contains "ticker" task && not (contains "series_id" task)
    then (if is_filing_action (action_of task)
        then filing_adapter adapters task
        else (adapter_named "yahoo_finance" adapters, task))
    else if contains "series_id" task
    then (adapter_named "fred" adapters, task)
    else (none, task)

-- `self._adapters.get(source) or self._find_adapter_for_task(task)`
unfoldable pub select_adapter : Adapters → Task → Option Adapter × Task
unfolding find_adapter_for_task
select_adapter adapters task = elim (adapter_named (source_of (get "source" task)) adapters) [
  | some a ↦ (some a, task)
  | none ↦ find_adapter_for_task adapters task
]

-- The variables of the loop in `fetch`.
pub record Progress : Type 0 where
  pub all_data : List Fields
  pub all_sources : List String
  pub all_errors : List Text
  pub all_warnings : List Text
  pub any_cached : Bool
  pub fallback_used : Bool
  pub actual_source : String

abbrev pub start : Progress
start = record {
  all_data = [];
  all_sources = [];
  all_errors = [];
  all_warnings = [];
  any_cached = false;
  fallback_used = false;
  actual_source = "";
}

abbrev pub no_adapter_error : Task → Text
no_adapter_error task =
    filled "No adapter found for source={source!r}. Available: {self.available_sources}"
      (get "source" task ∷ [])

abbrev pub fallback_warning : Adapter → Text
fallback_warning a =
    filled
      "SEC EDGAR unavailable — data served from {adapter.SOURCE_NAME} (fallback). Source role: fallback, not primary."
      (str a.source_name ∷ [])

-- The warning about a fallback, if the task is marked.
abbrev pub fallback_warnings : Adapter → Task → List Text
fallback_warnings a task =
    if truthy (get "_fallback_from" task) then fallback_warning a ∷ [] else []

-- One round of the loop over the tasks.
unfoldable pub fetch_selected : Progress → Option Adapter → Task → Progress
fetch_selected p none task = record p { all_errors = p.all_errors ++ no_adapter_error task ∷ [] }
fetch_selected p (some a) task =
    let result = a.fetch_task task in
    record {
      all_data = p.all_data ++ result.items;
      all_sources = p.all_sources ++ result.sources_used;
      all_errors = p.all_errors ++ result.errors;
      all_warnings = (p.all_warnings ++ fallback_warnings a task) ++ result.warnings;
      any_cached = if result.cached then true else p.any_cached;
      fallback_used = if truthy (get "_fallback_from" task) then true else p.fallback_used;
      actual_source = a.source_name;
    }

unfoldable pub fetch_from : Adapters → Progress → List Task → Progress
unfolding fetch_selected select_adapter
fetch_from adapters p [] = p
fetch_from adapters p (task ∷ tasks) =
    let (a, marked) = select_adapter adapters task in
    fetch_from adapters (fetch_selected p a marked) tasks

unfoldable pub member : String → List String → Bool
member s [] = false
member s (t ∷ ts) = str_eq t s || member s ts

-- `list(set(xs))`: each name once. Python leaves the order open; here the last place of each counts.
unfoldable pub distinct : List String → List String
unfolding member
distinct [] = []
distinct (s ∷ ss) = let rest = distinct ss in if member s ss then rest else s ∷ rest

-- `fetch`
unfoldable pub fetch : Adapters → List Task → RetrievalResult
unfolding fetch_from distinct
fetch adapters tasks =
    let p = fetch_from adapters start tasks in
    record {
      success = is_empty p.all_errors || not (is_empty p.all_data);
      items = p.all_data;
      sources_used = distinct p.all_sources;
      cached = p.any_cached;
      errors = p.all_errors;
      warnings = p.all_warnings;
      fallback_used = p.fallback_used;
      actual_source = p.actual_source;
    }

-- The tasks of the convenience methods. A dict literal lists its keys in the source's order.
abbrev pub ticker_task : String → String → String → Task → Task
ticker_task source ticker action more =
    field "source" (str source) (field "ticker" (str ticker) (field "action" (str action) more))

unfoldable pub fetch_quote : Adapters → String → RetrievalResult
unfolding fetch
fetch_quote adapters ticker = fetch adapters (ticker_task "yahoo_finance" ticker "quote" end ∷ [])

unfoldable pub fetch_history : Adapters → String → String → String → RetrievalResult
unfolding fetch
fetch_history adapters ticker period interval = fetch adapters (
    ticker_task "yahoo_finance" ticker "history"
      (field "period" (str period) (field "interval" (str interval) end))
    ∷ [])

-- Financials come from SEC EDGAR where it is registered, else from Yahoo.
unfoldable pub fetch_financials : Adapters → String → String → Bool → RetrievalResult
unfolding fetch
fetch_financials adapters ticker statement_type quarterly =
    let source : String =
      if is_some (adapter_named "sec_edgar" adapters) then "sec_edgar" else "yahoo_finance" in
    fetch adapters (
      ticker_task source ticker "financials"
        (field "statement_type" (str statement_type) (field "quarterly" (bool quarterly) end))
      ∷ [])

unfoldable pub fetch_macro : Adapters → String → RetrievalResult
unfolding fetch
fetch_macro adapters series_id =
    fetch adapters (field "source" (str "fred") (field "series_id" (str series_id) end) ∷ [])

-- `form` is left out when it is None or empty.
unfoldable pub fetch_sec_filings : Adapters → String → String → ℕ → RetrievalResult
unfolding fetch
fetch_sec_filings adapters ticker form limit = fetch adapters (
    ticker_task "sec_edgar" ticker "filings"
      (field "limit" (int limit) (if str_eq form "" then end else field "form" (str form) end))
    ∷ [])
