-- ===== src/Tests/Reports.antt =====
-- The theorems on reconciliation at concrete facts and values.
use zion_terminal.Base.{◌≡◌, refl, [], ◌∷◌, none, some, length, count_if}
use zion_terminal.Base.Int.{pos, negsuc, ◌-ℤ◌, scale_by}
use zion_terminal.Base.Json.{int, str}
use zion_terminal.Base.{String, List, All, map}
use zion_terminal.BalanceQuality.Guard.{Observation, BalanceCheck, balance_checks}
use zion_terminal.Base.{str_eq, if◌then◌else◌}
use zion_terminal.Base.Result.{ok, err}
use zion_terminal.BalanceQuality.Periods.{Comparator, Compared, legacy_checks, unit_failure_context}
use zion_terminal.BalanceQuality.Suppression.{Periods}
use zion_terminal.BalanceQuality.Vintage.{Sourced, balance_checks-Sourced}
use zion_terminal.Reconciler.{
  CanonicalFact, ExtractedValue, sign_mismatch, compare, reconcile, is_numeric, fact_amount,
  markdown_amount,
}
use zion_terminal.Reconciler.Classes.{Says, compare-Says}
use zion_terminal.Reconciler.Tally.{Tallied, reconcile_lem}

abbrev revenue_fact : CanonicalFact
revenue_fact = record { concept = "us-gaap:Revenues"; local_name = "Revenues"; value = int 1000 }

abbrev name_fact : CanonicalFact
name_fact = record { concept = "dei:Name"; local_name = "Name"; value = str "Nova" }

abbrev net_revenue : ExtractedValue
net_revenue = record {
  label = " Net Revenue";
  value = some (pos 10);
  scaled_value = some (pos 10000000);
}

abbrev loss : ExtractedValue
loss = record { label = "Sales"; value = some (negsuc 9999999); scaled_value = none }

compare-Says_example :
    Says 100
      (fact_amount revenue_fact)
      (markdown_amount loss)
      (compare 100 revenue_fact loss).status
compare-Says_example = compare-Says 100 revenue_fact loss

opposite : (compare 100 revenue_fact loss).status ≡ sign_mismatch
unfolding compare ◌-ℤ◌ scale_by
opposite = refl

reconcile_lem_example :
    let facts = revenue_fact ∷ name_fact ∷ [] in
    Tallied (reconcile 100 facts (net_revenue ∷ []))
    × (length (reconcile 100 facts (net_revenue ∷ [])).matches ≡ count_if is_numeric facts)
reconcile_lem_example = reconcile_lem 100 (net_revenue ∷ []) (revenue_fact ∷ name_fact ∷ [])

one_matched : (reconcile 100 (revenue_fact ∷ name_fact ∷ []) (net_revenue ∷ [])).facts_matched ≡ 1
unfolding reconcile ◌-ℤ◌
one_matched = refl

abbrev total : String → Observation
total id = record {
  source_observation_id = id;
  concept = "us-gaap:Assets";
  metric = "balance_component:assets";
  value_decimal = some "100";
  accession = "0001";
  form = "10-K";
  available_at = "2026-02-01T00:00:00Z";
  unit = "USD";
  currency = "USD";
  period_start = none;
  period_end = some "2025-12-31";
}

abbrev passed_check : BalanceCheck
passed_check = record {
  status = "PASS";
  period_end = "2025-12-31";
  source_observation_ids = "a" ∷ "l" ∷ [];
  reason = none;
  qualification = none;
  difference_decimal = some "0";
  available_at = some "2026-02-01T00:00:00Z";
  balance_quality_version = none;
}

abbrev two_totals : List Observation
two_totals = total "a" ∷ total "l" ∷ []

balance_checks-Sourced_example :
    All (Sourced two_totals) (balance_checks two_totals (passed_check ∷ []))
balance_checks-Sourced_example = balance_checks-Sourced two_totals (passed_check ∷ [])

still_passed :
    map (λ (c : BalanceCheck). c.status) (balance_checks two_totals (passed_check ∷ []))
    ≡ "PASS" ∷ []
unfolding balance_checks
still_passed = refl

-- A comparator whose units fail for 2024, and so for a range with that year.
abbrev comparator : Comparator
comparator date_from date_to =
    if str_eq date_from "2025-12-31"
    then ok (passed_check ∷ [])
    else err "INCOMPATIBLE_COMPONENT_UNITS"

abbrev old_total : Observation
old_total = record (total "o") { period_end = some "2024-12-31" }

abbrev range_checks : Compared (List BalanceCheck)
range_checks =
    legacy_checks comparator (old_total ∷ two_totals) [] "2026-03-01" "2024-01-01" "2026-01-01"

abbrev returned_checks : List BalanceCheck
returned_checks =
    unit_failure_context (old_total ∷ two_totals) [] "2026-03-01" "2024-12-31" ∷ passed_check ∷ []
