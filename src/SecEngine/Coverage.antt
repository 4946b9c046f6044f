-- ===== src/SecEngine/Coverage.antt =====
-- sec_engine.py: the last part of `history`: the figures in order, and why others are missing.
use zion_terminal.Base.{
  ℕ, Bool, true, false, ◌&&◌, ◌||◌, not, Option, none, some, List, [], ◌∷◌, ◌++◌, String, str_eq,
  ◌==◌, leb, keep, is_empty, if◌then◌else◌,
}
use zion_terminal.Base.Sorting.{sorted}
use zion_terminal.Base.Texts.{str_leb}
use zion_terminal.Retrieval.{member}
use zion_terminal.SecEngine.Derivation.{Figure}
use zion_terminal.SecEngine.Sources.{Sources, Gap, within, Intervals}
use zion_terminal.SecEngine.Output.{Frequency, frequency_gaps, annual}

-- `quarantined.get(metric)`
unfoldable pub quarantine_reason : String → List (String × String) → Option String
quarantine_reason m [] = none
quarantine_reason m ((k, why) ∷ rest) =
    let later = quarantine_reason m rest in if str_eq k m then some why else later

abbrev pub is_open : List (String × String) → String → Bool
is_open quarantined m = elim (quarantine_reason m quarantined) [ none ↦ true | some why ↦ false ]

abbrev pub range_gap : ℕ → ℕ → String → String → Gap
range_gap date_from date_to metric reason = record {
  metric = metric;
  period_start = some date_from;
  period_end = some date_to;
  reason = reason;
}

unfoldable pub quarantined_gaps : List (String × String) → ℕ → ℕ → List String → List Gap
unfolding quarantine_reason
quarantined_gaps quarantined date_from date_to [] = []
quarantined_gaps quarantined date_from date_to (m ∷ ms) =
    let rest = quarantined_gaps quarantined date_from date_to ms in
    elim (quarantine_reason m quarantined) [
      | none ↦ rest
      | some why ↦ range_gap date_from date_to m why ∷ rest
    ]

unfoldable pub is_published : List (String × String) → ℕ → ℕ → Figure → Bool
unfolding quarantine_reason
is_published quarantined date_from date_to f =
    within date_from date_to f.period_end && is_open quarantined f.metric

-- The order of the output: by metric, end and start, no start first.
abbrev pub start_leb : Option ℕ → Option ℕ → Bool
start_leb none s = true
start_leb (some a) none = false
start_leb (some a) (some b) = leb a b

unfoldable pub before : Figure → Figure → Bool
unfolding str_leb
before a b =
    if not (str_eq a.metric b.metric)
    then str_leb a.metric b.metric
    else if not (a.period_end == b.period_end)
    then leb a.period_end b.period_end
    else start_leb a.period_start b.period_start

unfoldable pub has_end : String → ℕ → List Figure → Bool
has_end m ending [] = false
has_end m ending (f ∷ fs) = (str_eq f.metric m && f.period_end == ending) || has_end m ending fs

abbrev pub has_metric : String → List Figure → Bool
has_metric m fs = not (is_empty (keep (λ (f : Figure). str_eq f.metric m) fs))

unfoldable pub missing_gaps : String → ℕ → ℕ → List Figure → Intervals → List Gap
unfolding has_end
missing_gaps m date_from date_to output [] = []
missing_gaps m date_from date_to output ((start, ending) ∷ rest) =
    let more = missing_gaps m date_from date_to output rest in
    if within date_from date_to ending && not (has_end m ending output)
    then record {
      metric = m;
      period_start = some start;
      period_end = some ending;
      reason = "REQUIRED_SOURCE_CONTEXT_OR_DERIVATION_UNAVAILABLE";
    }
      ∷ more
    else more

unfoldable pub coverage_gaps : ℕ → ℕ → List Figure → Intervals → List String → List Gap
unfolding missing_gaps
coverage_gaps date_from date_to output anchors [] = []
coverage_gaps date_from date_to output anchors (m ∷ ms) =
    let rest = coverage_gaps date_from date_to output anchors ms in
    missing_gaps m date_from date_to output anchors
    ++ ((if has_metric m output
          then []
          else range_gap date_from date_to m "NO_VALID_OBSERVATIONS_IN_REQUEST" ∷ [])
        ++ rest)

unfoldable pub is_reported : List String → ℕ → ℕ → Gap → Bool
unfolding member
is_reported metrics date_from date_to g =
    member g.metric metrics
    && elim g.period_end [ none ↦ true | some ending ↦ within date_from date_to ending ]

pub record HistoryResult : Type 0 where
  pub observations : List Figure
  pub coverage_gaps : List Gap

abbrev pub anchors_for : Frequency → Intervals → Intervals → Intervals
anchors_for annual years quarters = years
anchors_for _ years quarters = quarters

-- The figures of the request in order, and why others are missing.
unfoldable pub publish :
    Sources → List String → Frequency → ℕ → ℕ → Intervals → List Gap → List Figure → HistoryResult
unfolding is_published before sorted quarantined_gaps frequency_gaps coverage_gaps is_reported
publish src metrics frequency date_from date_to anchors gaps found =
    let output =
      sorted before (keep (is_published src.quarantined_metrics date_from date_to) found) in
    record {
      observations = output;
      coverage_gaps = keep (is_reported metrics date_from date_to) (
          gaps
          ++ (frequency_gaps frequency metrics
              ++ (quarantined_gaps src.quarantined_metrics date_from date_to metrics
                  ++ coverage_gaps date_from date_to output anchors metrics)));
    }
