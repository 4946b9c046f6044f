-- ===== src/Valuation/Derivation.antt =====
-- valuation_engine.py: the number of each metric, with the checks before it.
use zion_terminal.Base.{◌+◌, Bool, true, not, ◌&&◌, ◌||◌, List, [], ◌∷◌, String, str_eq, leb, every}
use zion_terminal.Base.Result.{ok, err, ◌>>=◌}
use zion_terminal.Base.Json.{Json, Fields, get, truthy, is_set, is_str}
use zion_terminal.Base.Fractions.{
  Fraction, add_fraction, sub_fraction, mul_fraction, div_fraction, one_fraction,
}
use zion_terminal.Valuation.Numbers.{bad_context, Checked, is_positive, is_nonnegative}
use zion_terminal.Valuation.Formulas.{
  Metric, revenue_growth, free_cash_flow, market_cap, price_to_earnings, enterprise_value, leverage,
  roles, Numbers, number_of,
}
use zion_terminal.Valuation.Inputs.{require, same_scalar, input, per_share, day}
use zion_terminal.Valuation.Context.{is_defined}

-- The two periods are a year apart and of one length, within days.
unfoldable pub check_comparable : Fields → Fields → Checked (Unit {0})
unfolding require same_scalar day
check_comparable a b = do
  _ ←
      require
        (same_scalar (get "unit" a) (get "unit" b)
          && (same_scalar (get "frequency" a) (get "frequency" b)
              && (is_set (get "period_start" a) && is_set (get "period_start" b))))
        "PERIOD_MISMATCH"
  last_a ← day (get "period_end" a)
  last_b ← day (get "period_end" b)
  first_a ← day (get "period_start" a)
  first_b ← day (get "period_start" b)
  require
      ((leb (last_b + 350) last_a && leb last_a (last_b + 378))
        && (leb (last_a + first_b) (last_b + first_a + 8)
            && leb (last_b + first_a) (last_a + first_b + 8)))
      "NONCOMPARABLE_PRIOR_PERIOD"

unfoldable pub growth : Fields → Numbers → Checked Fraction
unfolding require
growth inputs n = do
  _ ← check_comparable (input inputs "revenue") (input inputs "prior_revenue")
  _ ← require (is_positive (number_of "prior_revenue" n)) "NONPOSITIVE_DENOMINATOR"
  ok (
      sub_fraction (div_fraction (number_of "revenue" n) (number_of "prior_revenue" n))
        one_fraction)

unfoldable pub cash_flow : Fields → Numbers → Checked Fraction
unfolding require is_defined
cash_flow inputs n = do
  _ ←
      require
        (is_defined inputs "capital_expenditures" "CASH_PPE_PURCHASES_POSITIVE_OUTFLOW"
          && is_nonnegative (number_of "capital_expenditures" n))
        "CAPEX_DEFINITION_UNVERIFIED"
  ok (sub_fraction (number_of "operating_cash_flow" n) (number_of "capital_expenditures" n))

unfoldable pub capitalization : Fields → Json → Json → Numbers → Checked Fraction
unfolding require is_defined same_scalar
capitalization inputs currency scope n =
    let price = input inputs "price" in
    let shares = input inputs "shares_outstanding" in
    do
      _ ←
          require
            (is_str (get "price_basis" price) "RAW"
              && is_str (get "adjustment_method" price) "NONE")
            "PRICE_SHARE_ADJUSTMENT_BASIS_UNVERIFIED"
      _ ←
          require (is_defined inputs "shares_outstanding" "COMMON_SHARES_OUTSTANDING")
            "OUTSTANDING_SHARE_DEFINITION_REQUIRED"
      _ ← require (is_str scope "SINGLE_COMMON_CLASS_VERIFIED") "SECURITY_SCOPE_UNVERIFIED"
      _ ←
          require
            (same_scalar (get "security_id" price) (get "security_id" shares)
              && truthy (get "security_id" price))
            "SECURITY_SCOPE_MISMATCH"
      _ ←
          require
            (same_scalar (get "unit" price) (per_share currency)
              && is_str (get "unit" shares) "shares")
            "UNIT_MISMATCH"
      _ ←
          require
            (is_positive (number_of "price" n) && is_positive (number_of "shares_outstanding" n))
            "NONPOSITIVE_EQUITY_INPUT"
      _ ←
          require (same_scalar (get "period_end" shares) (get "session_date" price))
            "SAME_DATE_SHARE_COUNT_REQUIRED"
      ok (mul_fraction (number_of "price" n) (number_of "shares_outstanding" n))

-- The balance inputs of an enterprise value, at one date.
unfoldable pub one_balance_date : Fields → Bool
unfolding same_scalar
one_balance_date inputs =
    let date = get "period_end" (input inputs "total_debt") in
    is_set date
    && every (λ k. same_scalar date (get "period_end" (input inputs k)))
        ("cash" ∷ "preferred_equity" ∷ "noncontrolling_interest" ∷ [])

unfoldable pub enterprise : Fields → Numbers → Checked Fraction
unfolding require is_defined one_balance_date
enterprise inputs n = do
  _ ←
      require (is_defined inputs "total_debt" "NONOVERLAPPING_INTEREST_BEARING_DEBT")
        "DEBT_COMPONENT_OVERLAP_UNRESOLVED"
  _ ← require (one_balance_date inputs) "BALANCE_PERIOD_MISMATCH"
  ok (
      sub_fraction
        (add_fraction
          (add_fraction (add_fraction (number_of "market_cap" n) (number_of "total_debt" n))
            (number_of "preferred_equity" n))
          (number_of "noncontrolling_interest" n))
        (number_of "cash" n))

-- The definitions that a quotient asks of its inputs.
unfoldable pub income_scope : Metric → Fields → Bool
unfolding is_defined
income_scope price_to_earnings inputs =
    is_defined inputs "net_income" "NET_INCOME_ATTRIBUTABLE_TO_COMMON"
income_scope _ inputs = true

unfoldable pub ebitda_defined : String → Fields → Bool
unfolding is_defined
ebitda_defined second inputs =
    not (str_eq second "ebitda")
    || (is_defined inputs "ebitda" "REPORTED_RECONCILED_EBITDA"
        || is_defined inputs "ebitda" "OPERATING_INCOME_PLUS_DA_RECONCILED")

unfoldable pub debt_defined : Metric → Fields → Bool
unfolding is_defined
debt_defined leverage inputs = is_defined inputs "total_debt" "NONOVERLAPPING_INTEREST_BEARING_DEBT"
debt_defined _ inputs = true

unfoldable pub ratio : Metric → Fields → Numbers → List String → Checked Fraction
unfolding require income_scope ebitda_defined debt_defined
ratio metric inputs n (first ∷ second ∷ []) = do
  _ ← require (income_scope metric inputs) "COMMON_INCOME_SCOPE_UNVERIFIED"
  _ ← require (ebitda_defined second inputs) "EBITDA_DEFINITION_UNVERIFIED"
  _ ← require (debt_defined metric inputs) "DEBT_COMPONENT_OVERLAP_UNRESOLVED"
  _ ← require (is_positive (number_of second n)) "NONPOSITIVE_DENOMINATOR"
  ok (div_fraction (number_of first n) (number_of second n))
ratio metric inputs n _ = err bad_context

unfoldable pub derive : Metric → Fields → Json → Json → Numbers → Checked Fraction
unfolding growth cash_flow capitalization enterprise ratio
derive revenue_growth inputs currency scope n = growth inputs n
derive free_cash_flow inputs currency scope n = cash_flow inputs n
derive market_cap inputs currency scope n = capitalization inputs currency scope n
derive enterprise_value inputs currency scope n = enterprise inputs n
derive metric inputs currency scope n = ratio metric inputs n (roles metric)
