-- ===== src/BalanceQuality/Periods.antt =====
-- deploy/cloudflare-query/src/sec_balance_quality.py: `_legacy_checks`, which asks the frozen comparator
-- again period by period when units are incompatible. The comparator is a function of two dates, for
-- the data and the instant of the query.
use zion_terminal.Base.{
  Bool, true, false, ◌&&◌, Option, none, some, List, [], ◌∷◌, ◌++◌, String, str_eq, is_empty, keep,
  map, every, if◌then◌else◌,
}
use zion_terminal.Base.Result.{Result, ok, err, ◌>>=◌}
use zion_terminal.Base.Sorting.{sorted}
use zion_terminal.Base.Texts.{str_leb}
use zion_terminal.Base.Upper.{is_prefix}
use zion_terminal.Retrieval.{distinct}
use zion_terminal.BalanceQuality.Guard.{Observation, BalanceCheck, latest_available}

-- `HistoryError`: its code
abbrev pub Compared : Type 0 → Type 0
Compared A = Result String A

abbrev pub Comparator : Type 0
Comparator = String → String → Compared (List BalanceCheck)

abbrev pub no_date : Option String → Bool
no_date none = true
no_date (some s) = false

abbrev pub is_date_at : String → Option String → Bool
is_date_at ending none = false
is_date_at ending (some s) = str_eq s ending

-- A reported total of the concept, at the end of the period, available at the cutoff.
unfoldable pub is_total : String → String → String → Observation → Bool
unfolding is_prefix str_leb
is_total concept ending cutoff row =
    str_eq row.concept concept
    && (is_prefix "balance_component:" row.metric
        && (no_date row.period_start
            && (is_date_at ending row.period_end && str_leb row.available_at cutoff)))

-- A rejected context that is at least as recent as the latest total.
unfoldable pub rejects : String → String → String → String → Observation → Bool
unfolding str_leb
rejects metric ending latest cutoff row =
    str_eq row.metric metric
    && (is_date_at ending row.period_end
        && (no_date row.period_start
            && (str_leb latest row.available_at && str_leb row.available_at cutoff)))

abbrev pub same_value : Option String → Observation → Bool
same_value none row = false
same_value (some v) row = is_date_at v row.value_decimal

-- `min(versions, key=source_observation_id)`: the first of the least ids
unfoldable pub least_id : Observation → List Observation → Observation
unfolding str_leb
least_id a [] = a
least_id a (b ∷ rows) =
    least_id (if str_leb a.source_observation_id b.source_observation_id then a else b) rows

-- The versions of a total: the row that stands for them, unless one was rejected or they differ.
unfoldable pub chosen_version :
    List Observation → String → String → String → List Observation → List Observation
unfolding rejects least_id
chosen_version rejected ending latest cutoff [] = []
chosen_version rejected ending latest cutoff (a ∷ rows) =
    if is_empty (keep (rejects a.metric ending latest cutoff) rejected)
      && every (same_value a.value_decimal) (a ∷ rows)
    then least_id a rows ∷ []
    else []

abbrev pub is_latest : String → Observation → Bool
is_latest latest row = str_eq row.available_at latest

unfoldable pub selected_total :
    List Observation → List Observation → String → String → String → List Observation
unfolding is_total latest_available chosen_version
selected_total rows rejected cutoff ending concept =
    let totals = keep (is_total concept ending cutoff) rows in
    elim (latest_available none totals) [
      | none ↦ []
      | some latest ↦ chosen_version rejected ending latest cutoff (keep (is_latest latest) totals)
    ]

-- `_unit_failure_context`
unfoldable pub unit_failure_context :
    List Observation → List Observation → String → String → BalanceCheck
unfolding selected_total sorted latest_available
unit_failure_context rows rejected cutoff ending =
    let selected =
      selected_total rows rejected cutoff ending "us-gaap:Assets"
      ++ selected_total rows rejected cutoff ending "us-gaap:LiabilitiesAndStockholdersEquity" in
    record {
      status = "UNAVAILABLE";
      period_end = ending;
      source_observation_ids =
          sorted str_leb (map (λ (row : Observation). row.source_observation_id) selected);
      reason = some "LATEST_BALANCE_TOTALS_DIFFERENT_UNIT_OR_CURRENCY";
      qualification = some "LATEST_REPORTED_TOTALS_NOT_COMPARABLE;NO_OLDER_VINTAGE_SUBSTITUTION";
      difference_decimal = none;
      available_at = latest_available none selected;
      balance_quality_version = none;
    }

-- The end of a balance component in the range that was available at the cutoff.
unfoldable pub end_of : String → String → String → Observation → List String
unfolding is_prefix str_leb
end_of date_from date_to cutoff row = elim row.period_end [
  | none ↦ []
  | some ending ↦
      if is_prefix "balance_component:" row.metric
        && (no_date row.period_start
            && (str_leb date_from ending
                && (str_leb ending date_to && str_leb row.available_at cutoff)))
      then ending ∷ []
      else []
]

unfoldable pub all_ends : String → String → String → List Observation → List String
unfolding end_of
all_ends date_from date_to cutoff [] = []
all_ends date_from date_to cutoff (row ∷ rows) =
    end_of date_from date_to cutoff row ++ all_ends date_from date_to cutoff rows

-- `ends`
unfoldable pub period_ends : String → String → String → List Observation → List String
unfolding all_ends sorted distinct
period_ends date_from date_to cutoff rows =
    sorted str_leb (distinct (all_ends date_from date_to cutoff rows))

abbrev pub is_incompatible : String → Bool
is_incompatible code = str_eq code "INCOMPATIBLE_COMPONENT_UNITS"

-- A failure of the units has another value in its place; every other error is raised.
unfoldable pub on_incompatible :
    Compared (List BalanceCheck) → Compared (List BalanceCheck) → Compared (List BalanceCheck)
on_incompatible (ok checks) other = ok checks
on_incompatible (err code) other = if is_incompatible code then other else err code

-- The loop over the periods, with the context that stands for a period whose units fail.
unfoldable pub each_period :
    Comparator → (String → BalanceCheck) → List String → Compared (List BalanceCheck)
unfolding on_incompatible
each_period comparator context [] = ok []
each_period comparator context (ending ∷ ends) =
    let rest = each_period comparator context ends in
    on_incompatible (comparator ending ending) (ok (context ending ∷ [])) >>= λ first.
    rest >>= λ others. ok (first ++ others)

-- `_legacy_checks`
unfoldable pub legacy_checks :
    Comparator
    → List Observation
    → List Observation
    → String
    → String
    → String
    → Compared (List BalanceCheck)
unfolding on_incompatible each_period unit_failure_context period_ends
legacy_checks comparator rows rejected cutoff date_from date_to =
    on_incompatible (comparator date_from date_to) (
      each_period comparator (unit_failure_context rows rejected cutoff)
        (period_ends date_from date_to cutoff rows))
