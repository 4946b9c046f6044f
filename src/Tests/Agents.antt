-- ===== src/Tests/Agents.antt =====
-- The agents' theorems at concrete inputs.
use zion_terminal.Base.{
  length, ◌+◌, ◌*◌, ◌≤◌, ◌<◌, ◌≡◌, ◌↔◌, refl, true, false, not, ◌&&◌, ◌||◌, none, some, [], ◌∷◌,
  All, is_some, is_empty, str_eq, if◌then◌else◌,
}
use zion_terminal.Base.Result.{ok}
use zion_terminal.Base.Json.{null, get, contains, truthy, end}
use zion_terminal.Models.Responses.{
  plain, passed, failed, RetrievalResult, ValidationResult, OrchestratorResponse, all_data,
}
use zion_terminal.Validation.{
  validate_retrieval, build_result, present, check_source, check_price, check_volume,
}
use zion_terminal.Validation.Summary.{NoneFailed, Counts, build_result_lem}
use zion_terminal.Validation.Soundness.{validate_retrieval-success}
use zion_terminal.Validation.ItemChecks.{Sound}
use zion_terminal.Validation.Synthesis.{validate_synthesis}
use zion_terminal.Retrieval.{
  adapter_named, select_adapter, is_filing_action, action_of, fetch, member,
}
use zion_terminal.Retrieval.Routing.{select_adapter-fallback}
use zion_terminal.Retrieval.Outcomes.{
  each, some_task, items_of, errors_of, warnings_of, cached_of, fallback_of, sources_of, fetch_lem,
  member-fetch,
}
use zion_terminal.Documents.{CleanedDocument, store, get_doc, list_docs}
use zion_terminal.Documents.Lookup.{get_doc-store, others, list_docs-store}
use zion_terminal.Orchestrator.{fetch_and_validate, gated}
use zion_terminal.Orchestrator.Gate.{fetch_and_validate-strict, fetch_and_validate-keeps}
use zion_terminal.Synthesis.{with_press_release, generate, generate_with_retry}
use zion_terminal.Synthesis.Consistency.{with_press_release-valid}
use zion_terminal.Synthesis.Retry.{
  Validated, generate_with_retry-first, generate_with_retry-Validated,
}
use zion_terminal.Tests.Data.{
  value_or, quote_item, free_item, answer_with, two_adapters, strict_orchestrator, quote_tasks,
  filing_task, some_draws, quiet_world, no_params,
}

abbrev quotes : RetrievalResult
quotes = answer_with "yahoo_finance" (quote_item ∷ free_item ∷ [])

abbrev validated_quotes : ValidationResult
validated_quotes = value_or (build_result []) (validate_retrieval quotes)

validate_retrieval-success_example :
    (validated_quotes.success ≡ true) ↔ All Sound (quote_item ∷ free_item ∷ [])
unfolding validate_retrieval
validate_retrieval-success_example = validate_retrieval-success quotes {v = validated_quotes} refl

build_result_lem_example :
    let r = build_result (present 0 ∷ present 1 ∷ []) in
    (r.details ≡ present 0 ∷ present 1 ∷ [])
    × (r.checks_run ≡ length (present 0 ∷ present 1 ∷ []))
    × Counts (present 0 ∷ present 1 ∷ []) r.checks_passed r.checks_failed r.checks_warned
    × (r.checks_passed + r.checks_warned + r.checks_failed ≡ r.checks_run)
    × ((r.success ≡ true) ↔ NoneFailed (present 0 ∷ present 1 ∷ []))
    × ((r.status ≡ failed) ↔ ((0 < r.checks_failed) × (r.checks_run ≤ 2 * r.checks_failed)))
    × ((r.status ≡ passed) ↔ (r.checks_passed ≡ r.checks_run))
build_result_lem_example = build_result_lem (present 0 ∷ present 1 ∷ [])

abbrev quote_response : OrchestratorResponse
quote_response =
    value_or (gated strict_orchestrator (plain "") "" [] quotes (build_result []))
      (fetch_and_validate strict_orchestrator quote_tasks (plain "AAPL quote") "quote" true [])

fetch_and_validate-strict_example : All Sound (all_data quote_response)
unfolding fetch_and_validate validate_retrieval fetch adapter_named check_source check_price
    check_volume
fetch_and_validate-strict_example =
    fetch_and_validate-strict strict_orchestrator quote_tasks (plain "AAPL quote") "quote" []
      {r = quote_response} refl refl refl

fetch_and_validate-keeps_example :
    let fetched = fetch two_adapters quote_tasks in
    (all_data quote_response ≡ fetched.items)
    × (quote_response.errors ≡ fetched.errors)
    × (quote_response.success ≡ true → fetched.success ≡ true)
    × (true ≡ false → quote_response.success ≡ fetched.success)
unfolding fetch_and_validate validate_retrieval fetch adapter_named
fetch_and_validate-keeps_example =
    fetch_and_validate-keeps strict_orchestrator quote_tasks (plain "AAPL quote") "quote" true []
      {r = quote_response} refl

fetch_lem_example :
    let tasks = filing_task ∷ quote_tasks in
    let r = fetch two_adapters tasks in
    (r.items ≡ each items_of two_adapters tasks)
    × (r.errors ≡ each errors_of two_adapters tasks)
    × (r.warnings ≡ each warnings_of two_adapters tasks)
    × (r.cached ≡ some_task cached_of two_adapters tasks)
    × (r.fallback_used ≡ some_task fallback_of two_adapters tasks)
    × (r.success ≡ (
        is_empty (each errors_of two_adapters tasks)
        || not (is_empty (each items_of two_adapters tasks))))
fetch_lem_example = fetch_lem two_adapters (filing_task ∷ quote_tasks)

member-fetch_example :
    member "yahoo_finance" (fetch two_adapters quote_tasks).sources_used
    ≡ member "yahoo_finance" (each sources_of two_adapters quote_tasks)
member-fetch_example = member-fetch two_adapters quote_tasks "yahoo_finance"

select_adapter-fallback_example :
    (truthy (get "_fallback_from" (select_adapter two_adapters filing_task).1) ≡ true) ↔ (
      (contains "ticker" filing_task && not (contains "series_id" filing_task) ≡ true)
      × (is_filing_action (action_of filing_task) ≡ true)
      × (adapter_named "sec_edgar" two_adapters ≡ none)
      × (is_some (adapter_named "yahoo_finance" two_adapters) ≡ true))
unfolding adapter_named
select_adapter-fallback_example = select_adapter-fallback two_adapters filing_task refl refl

abbrev filing : CleanedDocument
filing = record {
  doc_id = "AAPL_10-K_2023-11-03";
  ticker = "AAPL";
  form = "10-K";
  filing_date = "2023-11-03";
  markdown = "text";
  markdown_char_count = 4;
  verification = end;
  metadata = end;
}

get_doc-store_example :
    get_doc "MSFT" (store filing [])
    ≡ (if str_eq "AAPL_10-K_2023-11-03" "MSFT" then some filing else get_doc "MSFT" [])
get_doc-store_example = get_doc-store filing "MSFT" []

abbrev other_filing : CleanedDocument
other_filing = record filing { doc_id = "AAPL_10-Q_2024-02-02"; form = "10-Q" }

list_docs-store_example :
    others "AAPL_10-K_2023-11-03" (list_docs "aapl" "" (store filing (other_filing ∷ filing ∷ [])))
    ≡ others "AAPL_10-K_2023-11-03" (list_docs "aapl" "" (other_filing ∷ filing ∷ []))
list_docs-store_example = list_docs-store filing "aapl" "" (other_filing ∷ filing ∷ [])

with_press_release-valid_example :
    (v : ValidationResult) × (validate_synthesis (with_press_release some_draws (ok null)) ≡ ok v)
    × (v.success ≡ true)
    × (v.status ≡ passed)
    × (v.checks_failed ≡ 0)
with_press_release-valid_example = with_press_release-valid some_draws null

generate_with_retry-first_example :
    generate_with_retry quiet_world "a company" no_params 3 true
    ≡ ok (generate quiet_world "a company" no_params)
generate_with_retry-first_example =
    generate_with_retry-first quiet_world "a company" no_params 2 true refl

generate_with_retry-Validated_example : Validated (generate quiet_world "a company" no_params)
unfolding generate
generate_with_retry-Validated_example =
    generate_with_retry-Validated quiet_world "a company" no_params 3
      generate_with_retry-first_example refl
