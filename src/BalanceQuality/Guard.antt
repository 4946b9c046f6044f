-- ===== src/BalanceQuality/Guard.antt =====
-- deploy/cloudflare-query/src/sec_balance_quality.py: `balance_checks`, on the checks that the
-- frozen comparator gives. A check and an observation are dicts; their texts are ISO instants and
-- ids, which Python orders as texts.
use zion_terminal.Base.{
  Bool, true, false, not, ◌&&◌, ◌||◌, Option, none, some, List, [], ◌∷◌, String, str_eq,
  if◌then◌else◌,
}
use zion_terminal.Base.Texts.{str_leb}

-- One context of a balance total.
pub record Observation : Type 0 where
  pub source_observation_id : String
  pub concept : String
  pub metric : String
  pub value_decimal : Option String
  pub accession : String
  pub form : String
  pub available_at : String
  pub unit : String
  pub currency : String
  pub period_start : Option String
  pub period_end : Option String

-- The fields of a check that the guard reads or writes; the others pass unchanged.
pub record BalanceCheck : Type 0 where
  pub status : String
  pub period_end : String
  pub source_observation_ids : List String
  pub reason : Option String
  pub qualification : Option String
  pub difference_decimal : Option String
  pub available_at : Option String
  pub balance_quality_version : Option String

-- `source[sid]`: a later observation of an id takes the place of an earlier one.
unfoldable pub source_of_id : String → List Observation → Option Observation
source_of_id id [] = none
source_of_id id (row ∷ rows) =
    let rest = source_of_id id rows in
    elim rest [
      | some later ↦ some later
      | none ↦ if str_eq row.source_observation_id id then some row else none
    ]

-- `[source[sid] for sid in ids if sid in source]`
unfoldable pub selected_rows : List Observation → List String → List Observation
unfolding source_of_id
selected_rows rows [] = []
selected_rows rows (id ∷ ids) =
    let rest = selected_rows rows ids in
    elim (source_of_id id rows) [ none ↦ rest | some row ↦ row ∷ rest ]

-- `not row.get(key)`, for an absent value is an empty text
abbrev pub absent : String → Bool
absent s = str_eq s ""

unfoldable pub context_missing : Observation → Bool
context_missing row = absent row.accession || (absent row.form || absent row.available_at)

unfoldable pub unit_missing : Observation → Bool
unit_missing row = absent row.unit || absent row.currency

unfoldable pub same_unit : Observation → Observation → Bool
same_unit a b = str_eq a.unit b.unit && str_eq a.currency b.currency

-- The row is an instant at the end of the period of the check.
unfoldable pub in_scope : String → Observation → Bool
in_scope period row =
    elim row.period_start [ some start ↦ false | none ↦ true ]
    && elim row.period_end [ none ↦ false | some ending ↦ str_eq ending period ]

unfoldable pub same_vintage : Observation → Observation → Bool
same_vintage a b =
    str_eq a.accession b.accession && (str_eq a.form b.form && str_eq a.available_at b.available_at)

-- Why two totals are not comparable, in the order of the tests.
unfoldable pub pair_reason : String → Observation → Observation → Option String
unfolding context_missing unit_missing same_unit in_scope same_vintage
pair_reason period a b =
    if context_missing a || context_missing b
    then some "LATEST_BALANCE_TOTAL_CONTEXT_MISSING"
    else if (unit_missing a || unit_missing b) || not (same_unit a b)
    then some "LATEST_BALANCE_TOTALS_DIFFERENT_UNIT_OR_CURRENCY"
    else if not (in_scope period a && in_scope period b)
    then some "LATEST_BALANCE_TOTALS_DIFFERENT_PERIOD_SCOPE"
    else if not (same_vintage a b)
    then some "LATEST_BALANCE_TOTALS_DIFFERENT_FILING_VINTAGES"
    else none

-- `reason`: anything but two totals has no context.
unfoldable pub unavailable_reason : String → List Observation → Option String
unfolding pair_reason
unavailable_reason period (a ∷ b ∷ []) = pair_reason period a b
unavailable_reason period _ = some "LATEST_BALANCE_TOTAL_CONTEXT_MISSING"

-- `max(row["available_at"] for row in selected)`, with a default
unfoldable pub latest_available : Option String → List Observation → Option String
latest_available default [] = default
latest_available default (row ∷ rows) =
    let rest = latest_available none rows in
    elim rest [
      | none ↦ some row.available_at
      | some t ↦ some (if str_leb row.available_at t then t else row.available_at)
    ]

abbrev pub version : String
version = "sec-balance-same-vintage-v1"

unfoldable pub withheld : BalanceCheck → String → List Observation → BalanceCheck
unfolding latest_available
withheld check why selected = record check {
  status = "UNAVAILABLE";
  reason = some why;
  qualification = some "LATEST_REPORTED_TOTALS_NOT_COMPARABLE;NO_OLDER_VINTAGE_SUBSTITUTION";
  difference_decimal = none;
  available_at = latest_available check.available_at selected;
  balance_quality_version = some version;
}

abbrev pub is_decided : String → Bool
is_decided status = str_eq status "PASS" || str_eq status "FAIL"

-- The guard on a decided check, once its rows are known.
unfoldable pub guard_selected : BalanceCheck → List Observation → BalanceCheck
unfolding withheld unavailable_reason
guard_selected check selected = elim (unavailable_reason check.period_end selected) [
  | some why ↦ withheld check why selected
  | none ↦ record check { balance_quality_version = some version }
]

-- One check.
unfoldable pub guard_check : List Observation → BalanceCheck → BalanceCheck
unfolding selected_rows guard_selected
guard_check rows check =
    if is_decided check.status
    then guard_selected check (selected_rows rows check.source_observation_ids)
    else record check { balance_quality_version = some version }

-- `balance_checks`
unfoldable pub balance_checks : List Observation → List BalanceCheck → List BalanceCheck
unfolding guard_check
balance_checks rows [] = []
balance_checks rows (check ∷ checks) = guard_check rows check ∷ balance_checks rows checks
