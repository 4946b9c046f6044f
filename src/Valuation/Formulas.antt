-- ===== src/Valuation/Formulas.antt =====
-- valuation_engine.py: the metrics, the inputs that each of them takes, and the formulas as the
-- table of expressions states them.
use zion_terminal.Base.{
  ℕ, Bool, true, false, ◌||◌, Option, none, some, List, [], ◌∷◌, String, str_eq, if◌then◌else◌,
}
use zion_terminal.Base.Fractions.{
  Fraction, add_fraction, sub_fraction, mul_fraction, div_fraction, one_fraction,
}

pub data Metric : Type 0 where
  revenue_growth operating_margin net_margin free_cash_flow free_cash_flow_margin market_cap
        price_to_earnings price_to_sales enterprise_value ev_ebitda ev_revenue free_cash_flow_yield
        leverage :
      Metric

-- `metric in FORMULAS`
unfoldable pub metric_named : String → Option Metric
metric_named s =
    if str_eq s "revenue_growth"
    then some revenue_growth
    else if str_eq s "operating_margin"
    then some operating_margin
    else if str_eq s "net_margin"
    then some net_margin
    else if str_eq s "free_cash_flow"
    then some free_cash_flow
    else if str_eq s "free_cash_flow_margin"
    then some free_cash_flow_margin
    else if str_eq s "market_cap"
    then some market_cap
    else if str_eq s "price_to_earnings"
    then some price_to_earnings
    else if str_eq s "price_to_sales"
    then some price_to_sales
    else if str_eq s "enterprise_value"
    then some enterprise_value
    else if str_eq s "ev_ebitda"
    then some ev_ebitda
    else if str_eq s "ev_revenue"
    then some ev_revenue
    else if str_eq s "free_cash_flow_yield"
    then some free_cash_flow_yield
    else if str_eq s "leverage"
    then some leverage
    else none

-- `FORMULAS`
abbrev pub roles : Metric → List String
roles revenue_growth = "revenue" ∷ "prior_revenue" ∷ []
roles operating_margin = "operating_income" ∷ "revenue" ∷ []
roles net_margin = "net_income" ∷ "revenue" ∷ []
roles free_cash_flow = "operating_cash_flow" ∷ "capital_expenditures" ∷ []
roles free_cash_flow_margin = "free_cash_flow" ∷ "revenue" ∷ []
roles market_cap = "price" ∷ "shares_outstanding" ∷ []
roles price_to_earnings = "market_cap" ∷ "net_income" ∷ []
roles price_to_sales = "market_cap" ∷ "revenue" ∷ []
roles enterprise_value =
    "market_cap" ∷ "total_debt" ∷ "cash" ∷ "preferred_equity" ∷ "noncontrolling_interest" ∷ []
roles ev_ebitda = "enterprise_value" ∷ "ebitda" ∷ []
roles ev_revenue = "enterprise_value" ∷ "revenue" ∷ []
roles free_cash_flow_yield = "free_cash_flow" ∷ "market_cap" ∷ []
roles leverage = "total_debt" ∷ "ebitda" ∷ []

-- `EV_METRICS`
abbrev pub is_ev_metric : Metric → Bool
is_ev_metric enterprise_value = true
is_ev_metric ev_ebitda = true
is_ev_metric ev_revenue = true
is_ev_metric leverage = true
is_ev_metric _ = false

-- The metrics whose flows must cover a year.
abbrev pub needs_year : Metric → Bool
needs_year price_to_earnings = true
needs_year price_to_sales = true
needs_year ev_ebitda = true
needs_year ev_revenue = true
needs_year free_cash_flow_yield = true
needs_year leverage = true
needs_year _ = false

-- The metrics whose inputs must have one period.
abbrev pub needs_period : Metric → Bool
needs_period operating_margin = true
needs_period net_margin = true
needs_period free_cash_flow = true
needs_period free_cash_flow_margin = true
needs_period _ = false

-- `market_role`
abbrev pub market_role : Metric → Option String
market_role market_cap = some "price"
market_role price_to_earnings = some "market_cap"
market_role price_to_sales = some "market_cap"
market_role enterprise_value = some "market_cap"
market_role free_cash_flow_yield = some "market_cap"
market_role ev_ebitda = some "enterprise_value"
market_role ev_revenue = some "enterprise_value"
market_role _ = none

-- The numbers of the inputs, by role.
abbrev pub Numbers : Type 0
Numbers = List (String × Fraction)

abbrev pub number_of : String → Numbers → Fraction
number_of role [] = record { num = zion_terminal.Base.Int.pos 0; den = 1 }
number_of role ((k, n) ∷ rest) = if str_eq k role then n else number_of role rest

-- `FORMULA_EXPRESSIONS`, read as mathematics
abbrev pub formula : Metric → (String → Fraction) → Fraction
formula revenue_growth n =
    sub_fraction (div_fraction (n "revenue") (n "prior_revenue")) one_fraction
formula operating_margin n = div_fraction (n "operating_income") (n "revenue")
formula net_margin n = div_fraction (n "net_income") (n "revenue")
formula free_cash_flow n = sub_fraction (n "operating_cash_flow") (n "capital_expenditures")
formula free_cash_flow_margin n = div_fraction (n "free_cash_flow") (n "revenue")
formula market_cap n = mul_fraction (n "price") (n "shares_outstanding")
formula price_to_earnings n = div_fraction (n "market_cap") (n "net_income")
formula price_to_sales n = div_fraction (n "market_cap") (n "revenue")
formula enterprise_value n =
    sub_fraction
      (add_fraction
        (add_fraction (add_fraction (n "market_cap") (n "total_debt")) (n "preferred_equity"))
        (n "noncontrolling_interest"))
      (n "cash")
formula ev_ebitda n = div_fraction (n "enterprise_value") (n "ebitda")
formula ev_revenue n = div_fraction (n "enterprise_value") (n "revenue")
formula free_cash_flow_yield n = div_fraction (n "free_cash_flow") (n "market_cap")
formula leverage n = div_fraction (n "total_debt") (n "ebitda")

-- The input that the formula divides by, which must be positive.
abbrev pub denominator_of : Metric → Option String
denominator_of revenue_growth = some "prior_revenue"
denominator_of operating_margin = some "revenue"
denominator_of net_margin = some "revenue"
denominator_of free_cash_flow = none
denominator_of free_cash_flow_margin = some "revenue"
denominator_of market_cap = none
denominator_of price_to_earnings = some "net_income"
denominator_of price_to_sales = some "revenue"
denominator_of enterprise_value = none
denominator_of ev_ebitda = some "ebitda"
denominator_of ev_revenue = some "revenue"
denominator_of free_cash_flow_yield = some "market_cap"
denominator_of leverage = some "ebitda"
