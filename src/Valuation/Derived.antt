-- ===== src/Valuation/Derived.antt =====
-- valuation_engine.py: each number that `calculate` derives is that of the metric's formula.
use zion_terminal.Base.{arith, true, Option, none, some, [], ◌∷◌, String, ◌≡◌}
use zion_terminal.Base.Result.{ok}
use zion_terminal.Base.Json.{Json, Fields}
use zion_terminal.Base.Fractions.{Fraction, div_fraction}
use zion_terminal.Valuation.Numbers.{is_positive}
use zion_terminal.Valuation.Formulas.{
  Metric, revenue_growth, operating_margin, net_margin, free_cash_flow, free_cash_flow_margin,
  market_cap, price_to_earnings, price_to_sales, enterprise_value, ev_ebitda, ev_revenue,
  free_cash_flow_yield, leverage, Numbers, number_of, formula, denominator_of,
}
use zion_terminal.Valuation.Inputs.{require}
use zion_terminal.Valuation.Derivation.{
  derive, growth, cash_flow, capitalization, enterprise, ratio,
}

-- The denominator of a metric, where it has one, is positive.
abbrev pub HasPositive : Option String → Numbers → Type 0
HasPositive none n = Unit
HasPositive (some role) n = is_positive (number_of role n) ≡ true

-- A number is that of the metric's formula, whose denominator is positive.
abbrev pub IsDerived : Metric → Numbers → Fraction → Type 0
IsDerived metric n q =
    (q ≡ formula metric (λ role. number_of role n)) × HasPositive (denominator_of metric) n

growth-IsDerived :
    (inputs : Fields) (n : Numbers) {q : Fraction}
    → growth inputs n ≡ ok q
    → IsDerived revenue_growth n q
unfolding growth require
growth-IsDerived inputs n h = ground arith

cash_flow-IsDerived :
    (inputs : Fields) (n : Numbers) {q : Fraction}
    → cash_flow inputs n ≡ ok q
    → IsDerived free_cash_flow n q
unfolding cash_flow require
cash_flow-IsDerived inputs n h = ground arith

capitalization-IsDerived :
    (inputs : Fields) (currency scope : Json) (n : Numbers) {q : Fraction}
    → capitalization inputs currency scope n ≡ ok q
    → IsDerived market_cap n q
unfolding capitalization require
capitalization-IsDerived inputs currency scope n h = ground arith

enterprise-IsDerived :
    (inputs : Fields) (n : Numbers) {q : Fraction}
    → enterprise inputs n ≡ ok q
    → IsDerived enterprise_value n q
unfolding enterprise require
enterprise-IsDerived inputs n h = ground arith

-- A quotient of the inputs that the metric takes.
ratio_lem :
    (metric : Metric) (inputs : Fields) (n : Numbers) (first second : String) {q : Fraction}
    → ratio metric inputs n (first ∷ second ∷ []) ≡ ok q
    → (q ≡ div_fraction (number_of first n) (number_of second n))
      × (is_positive (number_of second n) ≡ true)
unfolding ratio require
ratio_lem metric inputs n first second h = ground arith

pub derive-IsDerived :
    (metric : Metric) (inputs : Fields) (currency scope : Json) (n : Numbers) {q : Fraction}
    → derive metric inputs currency scope n ≡ ok q
    → IsDerived metric n q
unfolding derive
derive-IsDerived revenue_growth inputs currency scope n h = growth-IsDerived inputs n h
derive-IsDerived operating_margin inputs currency scope n h =
    ratio_lem operating_margin inputs n _ _ h
derive-IsDerived net_margin inputs currency scope n h = ratio_lem net_margin inputs n _ _ h
derive-IsDerived free_cash_flow inputs currency scope n h = cash_flow-IsDerived inputs n h
derive-IsDerived free_cash_flow_margin inputs currency scope n h =
    ratio_lem free_cash_flow_margin inputs n _ _ h
derive-IsDerived market_cap inputs currency scope n h =
    capitalization-IsDerived inputs currency scope n h
derive-IsDerived price_to_earnings inputs currency scope n h =
    ratio_lem price_to_earnings inputs n _ _ h
derive-IsDerived price_to_sales inputs currency scope n h = ratio_lem price_to_sales inputs n _ _ h
derive-IsDerived enterprise_value inputs currency scope n h = enterprise-IsDerived inputs n h
derive-IsDerived ev_ebitda inputs currency scope n h = ratio_lem ev_ebitda inputs n _ _ h
derive-IsDerived ev_revenue inputs currency scope n h = ratio_lem ev_revenue inputs n _ _ h
derive-IsDerived free_cash_flow_yield inputs currency scope n h =
    ratio_lem free_cash_flow_yield inputs n _ _ h
derive-IsDerived leverage inputs currency scope n h = ratio_lem leverage inputs n _ _ h
