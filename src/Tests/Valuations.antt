-- ===== src/Tests/Valuations.antt =====
-- The theorems on valuations at concrete inputs.
use zion_terminal.Base.{◌≡◌, ◌↔◌, ◌||◌, not, refl, true, ℕ, ◌*◌, none, some, String, All}
use Prim.Native.Nat.{◌^◌}
use zion_terminal.Base.Int.{ℤ, pos, leb_ℤ}
use zion_terminal.Base.Json.{Json, Fields, str, arr, obj, nil, cons, end, field, null, is_str, get}
use zion_terminal.Base.Result.{ok}
use zion_terminal.Base.Fractions.{lowest, div_fraction}
use zion_terminal.Valuation.Formulas.{
  net_margin, price_to_sales, roles, is_ev_metric, number_of, Numbers, formula, denominator_of,
}
use zion_terminal.Valuation.Numbers.{is_terminating}
use zion_terminal.Valuation.Inputs.{instant, input}
use zion_terminal.Valuation.Engine.{calculate}
use zion_terminal.Valuation.Derived.{HasPositive}
use zion_terminal.Valuation.Rows.{Rows}
use zion_terminal.Valuation.Verified.{calculate-verified}
use zion_terminal.Valuation.Priced.{Before, calculate-Before}
use zion_terminal.Valuation.Terminating.{is_terminating_iff}

-- A year's amount in dollars, known on a day.
abbrev amount : String → String → Json
amount digits known = obj (
    field "quality" (str "REPORTED") (
      field "source_ids" (arr (cons (str "filing") nil)) (
        field "available_at" (str known) (
          field "value_decimal" (str digits) (
            field "currency" (str "USD") (
              field "unit" (str "USD") (
                field "frequency" (str "annual") (
                  field "period_start" (str "2023-01-01") (
                    field "period_end" (str "2023-12-31")
                      (field "valuation_at" (str "2024-03-01") end))))))))))

abbrev income : Fields
income =
    field "net_income" (amount "12.50" "2024-02-01")
      (field "revenue" (amount "100" "2024-02-01") end)

abbrev as_of : Json
as_of = str "2024-06-30"

margin :
    (calculate net_margin income as_of null null).value ≡ some (record { num = pos 1; den = 8 })
unfolding calculate div_fraction
margin = refl

calculate-verified_example :
    (cutoff : ℤ) × (n : Numbers) × (instant as_of ≡ ok cutoff)
    × Rows cutoff income (roles net_margin) n
    × ((calculate net_margin income as_of null null).value
        ≡ some (lowest (formula net_margin (λ role. number_of role n))))
    × HasPositive (denominator_of net_margin) n
    × ((not (is_ev_metric net_margin) || is_str null "nonfinancial_verified") ≡ true)
unfolding calculate
calculate-verified_example = calculate-verified net_margin income as_of null null refl

-- The value of the market at a price of March, with revenue known in February.
abbrev sales : Fields
sales =
    field "market_cap" (amount "400" "2024-03-02") (field "revenue" (amount "100" "2024-02-01") end)

calculate-Before_example :
    (cutoff : ℤ) × (priced : ℤ) × (instant as_of ≡ ok cutoff)
    × (instant (get "valuation_at" (input sales "market_cap")) ≡ ok priced)
    × (leb_ℤ priced cutoff ≡ true)
    × All (Before priced sales "market_cap") (roles price_to_sales)
unfolding calculate
calculate-Before_example =
    calculate-Before price_to_sales sales as_of null null "market_cap" refl refl

-- A price of March comes before the revenue that became known in April.
abbrev early_sales : Fields
early_sales =
    field "market_cap" (amount "400" "2024-03-02") (field "revenue" (amount "100" "2024-04-01") end)

early : (calculate price_to_sales early_sales as_of null null).value ≡ none
unfolding calculate
early = refl

is_terminating_iff_example : (is_terminating 40 ≡ true) ↔ ((a : ℕ) × (b : ℕ) × (40 ≡ 2 ^ a * 5 ^ b))
is_terminating_iff_example = is_terminating_iff 40
