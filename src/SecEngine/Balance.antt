-- ===== src/SecEngine/Balance.antt =====
-- sec_engine.py: `balance_checks`, which compares the reported totals of a balance sheet.
use zion_terminal.Base.{
  ℕ, Bool, true, false, ◌&&◌, ◌||◌, Option, none, some, List, [], ◌∷◌, String, str_eq, ◌==◌, leb,
  is_empty, keep, every, map, if◌then◌else◌,
}
use zion_terminal.Base.Result.{ok, ◌>>=◌}
use zion_terminal.Base.Sorting.{sorted}
use zion_terminal.Base.Texts.{str_leb}
use zion_terminal.Base.Upper.{is_prefix}
use zion_terminal.SecEngine.Decimals.{Decimal, same_optional, is_zero, same_text}
use zion_terminal.SecEngine.Derivation.{
  Figure, Engine, subtract, number, latest_text, calculate_figure,
}
use zion_terminal.SecEngine.Sources.{Sources, Row, Rejected, within}
use zion_terminal.SecEngine.Selection.{least_row, figure_of, is_version}

abbrev pub no_start : Option ℕ → Bool
no_start none = true
no_start (some s) = false

-- A reported total in the range that was available at the cutoff.
unfoldable pub is_balance_row : String → ℕ → ℕ → Row → Bool
unfolding is_prefix str_leb
is_balance_row cutoff date_from date_to row =
    is_prefix "balance_component:" row.metric
    && (no_start row.period_start
        && (within date_from date_to row.period_end && str_leb row.available_at cutoff))

-- A rejected context that is at least as recent as the versions; its concept is not asked for.
unfoldable pub invalidates : Row → String → String → Rejected → Bool
unfolding str_leb
invalidates version latest cutoff r =
    str_eq r.metric version.metric
    && (r.period_end == version.period_end
        && (no_start r.period_start
            && (str_leb latest r.available_at && str_leb r.available_at cutoff)))

abbrev pub is_stated : Row → Bool
is_stated row = elim row.value_decimal [ none ↦ false | some n ↦ true ]

-- The versions of a total: the row that stands for them, if they state one value.
unfoldable pub total_at : Sources → String → String → List Row → Option Row
unfolding invalidates least_row same_text
total_at src cutoff latest [] = none
total_at src cutoff latest (v ∷ vs) =
    if is_empty (keep (invalidates v latest cutoff) src.rejected_contexts)
      && (every (λ (r : Row). same_optional r.value_decimal v.value_decimal) vs && is_stated v)
    then some (least_row v vs)
    else none

unfoldable pub total_of : Sources → String → List Row → Option Row
unfolding total_at latest_text
total_of src cutoff [] = none
total_of src cutoff (row ∷ rows) =
    let latest = latest_text row.available_at (map (λ (r : Row). r.available_at) rows) in
    total_at src cutoff latest (keep (is_version latest) (row ∷ rows))

abbrev pub is_total_of : ℕ → String → Row → Bool
is_total_of ending concept row = row.period_end == ending && str_eq row.concept concept

-- `chosen.get((end, concept))`
unfoldable pub chosen_total : Sources → String → List Row → ℕ → String → Option Row
unfolding total_of
chosen_total src cutoff rows ending concept =
    total_of src cutoff (keep (is_total_of ending concept) rows)

pub data Verdict : Type 0 where
  withheld passed differs : Verdict

pub record BalanceIdentity : Type 0 where
  pub period_end : ℕ
  pub status : Verdict
  pub difference_decimal : Option Decimal
  pub source_observation_ids : List String
  pub available_at : Option String

unfoldable pub missing_total : ℕ → BalanceIdentity
missing_total ending = record {
  period_end = ending;
  status = withheld;
  difference_decimal = none;
  source_observation_ids = [];
  available_at = none;
}

unfoldable pub identity_of : ℕ → Figure → Decimal → BalanceIdentity
identity_of ending difference n = record {
  period_end = ending;
  status = if is_zero n then passed else differs;
  difference_decimal = difference.value_decimal;
  source_observation_ids = difference.source_observation_ids;
  available_at = some difference.available_at;
}

-- The check of a day, once its two totals are known.
unfoldable pub check_totals : ℕ → Option Row → Option Row → Engine BalanceIdentity
unfolding calculate_figure figure_of number identity_of missing_total
check_totals ending (some left) (some right) =
    calculate_figure subtract "balance_identity" none ending (figure_of left (left ∷ []))
      (figure_of right (right ∷ []) ∷ [])
    >>= λ difference. number difference.value_decimal >>= λ n. ok (identity_of ending difference n)
check_totals ending _ _ = ok (missing_total ending)

unfoldable pub has_day : ℕ → List ℕ → Bool
has_day d [] = false
has_day d (e ∷ es) = e == d || has_day d es

unfoldable pub days_of : List Row → List ℕ
unfolding has_day
days_of [] = []
days_of (row ∷ rows) =
    let rest = days_of rows in if has_day row.period_end rest then rest else row.period_end ∷ rest

unfoldable pub check_days : Sources → String → List Row → List ℕ → Engine (List BalanceIdentity)
unfolding check_totals chosen_total
check_days src cutoff rows [] = ok []
check_days src cutoff rows (ending ∷ ends) =
    let rest = check_days src cutoff rows ends in
    check_totals ending (chosen_total src cutoff rows ending "us-gaap:Assets")
      (chosen_total src cutoff rows ending "us-gaap:LiabilitiesAndStockholdersEquity")
    >>= λ first. rest >>= λ others. ok (first ∷ others)

-- `balance_checks`
unfoldable pub balance_identities : Sources → String → ℕ → ℕ → Engine (List BalanceIdentity)
unfolding check_days is_balance_row sorted days_of
balance_identities src cutoff date_from date_to =
    let rows = keep (is_balance_row cutoff date_from date_to) src.observations in
    check_days src cutoff rows (sorted leb (days_of rows))
