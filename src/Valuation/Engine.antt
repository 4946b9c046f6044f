-- ===== src/Valuation/Engine.antt =====
-- valuation_engine.py: `calculate`. The result leaves out the constant fields and the copy of the inputs.
use zion_terminal.Base.{
  Bool, not, ◌&&◌, ◌||◌, Option, none, some, List, [], ◌∷◌, ◌++◌, String, if◌then◌else◌,
}
use zion_terminal.Base.Result.{ok, err, ◌>>=◌}
use zion_terminal.Base.Int.{ℤ, ltb_ℤ}
use zion_terminal.Base.Json.{Json, Fields, null, get, is_str}
use zion_terminal.Base.Sorting.{sorted}
use zion_terminal.Base.Texts.{str_leb}
use zion_terminal.Base.Fractions.{Fraction, lowest}
use zion_terminal.Retrieval.{distinct}
use zion_terminal.Valuation.Numbers.{Reason, code_of, Checked, decimal_if_terminating}
use zion_terminal.Valuation.Formulas.{
  Metric, roles, is_ev_metric, market_role, Numbers, metric_named,
}
use zion_terminal.Valuation.Inputs.{
  input, instant, gather_row, currencies, common_currency, check_frequencies,
}
use zion_terminal.Valuation.Context.{check_context, check_periods}
use zion_terminal.Valuation.Derivation.{derive}

pub data Quality : Type 0 where
  unavailable excluded derivation_verified : Quality

pub record Calculation : Type 0 where
  pub metric : Metric
  pub quality : Quality
  pub reasons : List Reason
  pub source_ids : List String
  pub currency : Json
  pub valuation_at : Json
  pub value : Option Fraction
  pub value_decimal : Option Fraction
  pub available_at : Json
  pub period_start : Json
  pub period_end : Json
  pub frequency : Json

-- The result before anything is known.
abbrev pub initial : Metric → Calculation
initial metric = record {
  metric = metric;
  quality = unavailable;
  reasons = [];
  source_ids = [];
  currency = null;
  valuation_at = null;
  value = none;
  value_decimal = none;
  available_at = null;
  period_start = null;
  period_end = null;
  frequency = null;
}

-- What the loop over the roles has gathered: an error leaves the source ids so far.
pub data Gathering : Type 0 where
  stopped : List String → Reason → Gathering
  gathered : List String → Numbers → Gathering

unfoldable pub gather_next :
    List String
    → String
    → Checked (List String × Fraction)
    → (List String → Fraction → Gathering)
    → Gathering
gather_next ids role (err reason) rest = stopped ids reason
gather_next ids role (ok (more, n)) rest = rest (ids ++ more) n

unfoldable pub gather : ℤ → Fields → List String → List String → Numbers → Gathering
unfolding gather_row gather_next
gather cutoff inputs [] ids numbers = gathered ids numbers
gather cutoff inputs (role ∷ rest) ids numbers =
    gather_next ids role (gather_row cutoff inputs role)
      (λ more n. gather cutoff inputs rest more (numbers ++ (role, n) ∷ []))

unfoldable pub check_market_flows : Fields → List String → Option String → Checked (Unit {0})
unfolding check_frequencies
check_market_flows inputs rs none = ok tt
check_market_flows inputs rs (some role) = check_frequencies inputs rs

-- The part of `calculate` after the market times.
unfoldable pub conclude : Metric → Fields → Json → Json → Numbers → Checked Fraction
unfolding check_market_flows check_periods derive
conclude metric inputs currency scope n = do
  _ ← check_market_flows inputs (roles metric) (market_role metric)
  _ ← check_periods metric inputs currency
  derive metric inputs currency scope n

-- `max(..., key=instant)`: the first of the latest
unfoldable pub later : Json → Json → Json
unfolding instant
later a b = elim (instant a) [
  | err e ↦ b
  | ok s ↦ elim (instant b) [ err e ↦ a | ok t ↦ if ltb_ℤ s t then b else a ]
]

unfoldable pub latest_available : Fields → Json → List String → Json
unfolding later
latest_available inputs a [] = a
latest_available inputs a (role ∷ rest) =
    latest_available inputs (later a (get "available_at" (input inputs role))) rest

abbrev pub last_role : List String → String
last_role [] = ""
last_role (r ∷ []) = r
last_role (r ∷ s ∷ rest) = last_role (s ∷ rest)

abbrev pub first_available : Fields → List String → Json
first_available inputs [] = null
first_available inputs (role ∷ rest) =
    latest_available inputs (get "available_at" (input inputs role)) rest

-- The result with its value.
unfoldable pub verified : Calculation → Fields → Fraction → Calculation
unfolding lowest decimal_if_terminating latest_available
verified r inputs number =
    let last = input inputs (last_role (roles r.metric)) in
    record r {
      quality = derivation_verified;
      reasons = [];
      value = some (lowest number);
      value_decimal = decimal_if_terminating (lowest number);
      available_at = first_available inputs (roles r.metric);
      period_start = get "period_start" last;
      period_end = get "period_end" last;
      frequency = get "frequency" last;
    }

unfoldable pub failed : Calculation → Reason → Calculation
failed r reason = record r { reasons = reason ∷ [] }

unfoldable pub settle : Calculation → Fields → Checked Fraction → Calculation
unfolding failed verified
settle r inputs (err reason) = failed r reason
settle r inputs (ok number) = verified r inputs number

unfoldable pub after_market : Calculation → Fields → Json → Numbers → Checked Json → Calculation
unfolding failed conclude settle
after_market r inputs scope n (err reason) = failed r reason
after_market r inputs scope n (ok valuation_at) =
    settle (record r { valuation_at = valuation_at }) inputs
      (conclude r.metric inputs r.currency scope n)

unfoldable pub after_currency :
    Calculation → ℤ → Fields → Json → Numbers → Checked Json → Calculation
unfolding failed after_market check_context
after_currency r cutoff inputs scope n (err reason) = failed r reason
after_currency r cutoff inputs scope n (ok currency) =
    after_market (record r { currency = currency }) inputs scope n
      (check_context r.metric cutoff inputs currency n)

unfoldable pub after_gathering : Calculation → ℤ → Fields → Json → Gathering → Calculation
unfolding failed after_currency currencies common_currency distinct sorted
after_gathering r cutoff inputs scope (stopped ids reason) =
    failed (record r { source_ids = ids }) reason
after_gathering r cutoff inputs scope (gathered ids n) =
    after_currency (record r { source_ids = sorted str_leb (distinct ids) }) cutoff inputs scope n
      (common_currency (currencies inputs (roles r.metric)))

unfoldable pub after_cutoff : Calculation → Fields → Json → Checked ℤ → Calculation
unfolding failed after_gathering gather
after_cutoff r inputs scope (err reason) = failed r reason
after_cutoff r inputs scope (ok cutoff) =
    after_gathering r cutoff inputs scope (gather cutoff inputs (roles r.metric) [] [])

-- The industries that have no enterprise value here.
unfoldable pub is_financial : Json → Bool
is_financial industry =
    is_str industry "financial_statement_evidence"
    || (is_str industry "bank" || is_str industry "insurance")

-- `calculate`, for a metric that has a formula
unfoldable pub calculate : Metric → Fields → Json → Json → Json → Calculation
unfolding is_financial failed after_cutoff instant
calculate metric inputs as_of industry scope =
    if is_ev_metric metric && is_financial industry
    then record (failed (initial metric) (code_of "FINANCIAL_INDUSTRY_EV_DEFINITION_EXCLUDED")) {
      quality = excluded;
    }
    else if is_ev_metric metric && not (is_str industry "nonfinancial_verified")
    then failed (initial metric) (code_of "NONFINANCIAL_INDUSTRY_UNVERIFIED")
    else after_cutoff (initial metric) inputs scope (instant as_of)

-- An unknown metric raises.
unfoldable pub calculate_named : String → Fields → Json → Json → Json → Checked Calculation
unfolding metric_named calculate
calculate_named name inputs as_of industry scope = elim (metric_named name) [
  | none ↦ err (code_of "UNSUPPORTED_FORMULA")
  | some metric ↦ ok (calculate metric inputs as_of industry scope)
]
