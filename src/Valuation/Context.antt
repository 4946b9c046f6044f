-- ===== src/Valuation/Context.antt =====
-- valuation_engine.py: what `calculate` asks of the inputs together: units, definitions, market times, periods.
use zion_terminal.Base.{
  Bool, false, not, ◌&&◌, ◌||◌, Option, none, some, List, [], ◌∷◌, String, str_eq, every,
  if◌then◌else◌,
}
use zion_terminal.Base.Result.{ok, err, ◌>>=◌}
use zion_terminal.Base.Int.{ℤ, leb_ℤ}
use zion_terminal.Base.Json.{Json, Fields, null, get, truthy, is_set, is_str}
use zion_terminal.Retrieval.{member}
use zion_terminal.Valuation.Numbers.{Checked, is_positive}
use zion_terminal.Valuation.Formulas.{
  Metric, leverage, roles, needs_year, needs_period, market_role, Numbers, number_of,
}
use zion_terminal.Valuation.Inputs.{require, same_scalar, input, instant, has_unit, check_years}

-- The checks from the units to the times of the market input, which it returns.
unfoldable pub is_defined : Fields → String → String → Bool
is_defined inputs role definition = is_str (get "definition" (input inputs role)) definition

unfoldable pub check_balance_flow : Metric → Fields → Checked (Unit {0})
unfolding require same_scalar
check_balance_flow leverage inputs =
    require
      (same_scalar (get "period_end" (input inputs "total_debt"))
        (get "period_end" (input inputs "ebitda")))
      "BALANCE_FLOW_PERIOD_MISMATCH"
check_balance_flow _ inputs = ok tt

-- An instant that is known, and no later than the limit.
unfoldable pub no_later : ℤ → Checked ℤ → Bool
no_later limit (err e) = false
no_later limit (ok t) = leb_ℤ t limit

-- The input was available no later than the price.
unfoldable pub available_by : ℤ → Fields → String → Bool
unfolding instant no_later
available_by limit inputs role = no_later limit (instant (get "available_at" (input inputs role)))

unfoldable pub check_market : ℤ → Fields → List String → Option String → Checked Json
unfolding require instant available_by
check_market cutoff inputs rs none = ok null
check_market cutoff inputs rs (some role) = do
  _ ← require (truthy (get "valuation_at" (input inputs role))) "PRICE_VALUATION_TIME_UNESTABLISHED"
  priced ← instant (get "valuation_at" (input inputs role))
  _ ← require (leb_ℤ priced cutoff) "PRICE_AFTER_CUTOFF"
  _ ←
      require (every (λ k. str_eq k role || available_by priced inputs k) rs)
        "FINANCIAL_INPUT_AFTER_PRICE"
  ok (get "valuation_at" (input inputs role))

unfoldable pub check_context : Metric → ℤ → Fields → Json → Numbers → Checked Json
unfolding require has_unit is_defined check_years check_balance_flow check_market member
check_context metric cutoff inputs currency numbers = do
  _ ← require (every (has_unit inputs currency) (roles metric)) "UNIT_MISMATCH"
  _ ←
      require
        (not (member "free_cash_flow" (roles metric))
          || is_defined inputs "free_cash_flow"
              "OPERATING_CASH_FLOW_MINUS_CASH_PPE_PURCHASES_VERIFIED")
        "FCF_DEFINITION_UNVERIFIED"
  _ ←
      require
        (not (member "market_cap" (roles metric)) || is_positive (number_of "market_cap" numbers))
        "NONPOSITIVE_EQUITY_INPUT"
  _ ← if needs_year metric then check_years inputs (roles metric) else ok tt
  _ ← check_balance_flow metric inputs
  check_market cutoff inputs (roles metric) (market_role metric)

-- One period of all inputs, and no part of it missing.
unfoldable pub same_period : Fields → Fields → Bool
unfolding same_scalar
same_period a b =
    same_scalar (get "period_start" a) (get "period_start" b)
    && (same_scalar (get "period_end" a) (get "period_end" b)
        && same_scalar (get "frequency" a) (get "frequency" b))

unfoldable pub one_period : Fields → List String → Bool
unfolding same_period
one_period inputs [] = false
one_period inputs (role ∷ rest) =
    let first = input inputs role in
    every (λ k. same_period first (input inputs k)) rest
    && (is_set (get "period_start" first)
        && (is_set (get "period_end" first) && is_set (get "frequency" first)))

unfoldable pub check_periods : Metric → Fields → Json → Checked (Unit {0})
unfolding require one_period same_scalar
check_periods metric inputs currency =
    if needs_period metric
    then (do
      _ ← require (one_period inputs (roles metric)) "PERIOD_MISMATCH"
      require (every (λ k. same_scalar (get "unit" (input inputs k)) currency) (roles metric))
          "UNIT_MISMATCH")
    else ok tt
