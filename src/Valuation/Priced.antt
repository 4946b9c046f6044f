-- ===== src/Valuation/Priced.antt =====
-- valuation_engine.py: the price of a verified result comes before its cutoff and after its other inputs.
use zion_terminal.Base.{
  arith, true, not, ◌||◌, some, List, [], ◌∷◌, String, str_eq, every, ◌≡◌, refl, ◌⊎◌, inl, inr,
  Bool-cases, and_parts, if◌then◌else◌,
}
use zion_terminal.Valuation.Engine.{derivation_verified, calculate}
use zion_terminal.Base.Result.{ok, err, >>=-eq-ok}
use zion_terminal.Base.Int.{ℤ, leb_ℤ}
use zion_terminal.Base.Json.{Json, Fields, get, truthy}
use zion_terminal.Valuation.Numbers.{Checked, is_positive}
use zion_terminal.Valuation.Formulas.{Metric, roles, market_role, Numbers, number_of}
use zion_terminal.Valuation.Inputs.{require, input, instant}
use zion_terminal.Valuation.Context.{check_context, check_market, no_later, available_by}
use zion_terminal.Valuation.Rows.{require-eq-ok}
use zion_terminal.Valuation.Verified.{calculate-Trace}
use zion_terminal.Base.{All}
use zion_terminal.Retrieval.{member}
use zion_terminal.Valuation.Inputs.{has_unit, check_years}
use zion_terminal.Valuation.Context.{is_defined, check_balance_flow}
use zion_terminal.Valuation.Formulas.{needs_year}

-- The input was available no later than an instant.
abbrev pub AvailableBy : ℤ → Fields → String → Type 0
AvailableBy limit inputs role =
    (t : ℤ) × (instant (get "available_at" (input inputs role)) ≡ ok t) × (leb_ℤ t limit ≡ true)

no_later_lem :
    (limit : ℤ) (c : Checked ℤ)
    → no_later limit c ≡ true
    → (t : ℤ) × (c ≡ ok t) × (leb_ℤ t limit ≡ true)
unfolding no_later
no_later_lem limit (err e) h = cc
no_later_lem limit (ok t) h = (t, refl, h)

available_by-AvailableBy :
    (limit : ℤ) (inputs : Fields) (role : String)
    → available_by limit inputs role ≡ true
    → AvailableBy limit inputs role
unfolding available_by
available_by-AvailableBy limit inputs role h = no_later_lem limit _ h

-- The market input itself, or an input available no later than the price.
abbrev pub Before : ℤ → Fields → String → String → Type 0
Before priced inputs market role = (str_eq role market ≡ true) ⊎ AvailableBy priced inputs role

every-Before :
    (priced : ℤ) (inputs : Fields) (market : String) (rs : List String)
    → every (λ k. str_eq k market || available_by priced inputs k) rs ≡ true
    → All (Before priced inputs market) rs
every-Before priced inputs market [] h = tt
every-Before priced inputs market (k ∷ rs) h =
    let (here, there) =
      and_parts _ (every (λ k. str_eq k market || available_by priced inputs k) rs) h in
    (one here, every-Before priced inputs market rs there)
  where
    one : (str_eq k market || available_by priced inputs k) ≡ true → Before priced inputs market k
    one e = elim (Bool-cases (str_eq k market)) [
      | inl m ↦ inl m
      | inr m ↦ inr (available_by-AvailableBy priced inputs k (ground arith))
    ]

check_market_lem :
    (cutoff : ℤ) (inputs : Fields) (rs : List String) (role : String) {v : Json}
    → check_market cutoff inputs rs (some role) ≡ ok v
    → (priced : ℤ) × (instant (get "valuation_at" (input inputs role)) ≡ ok priced)
      × (leb_ℤ priced cutoff ≡ true)
      × All (Before priced inputs role) rs
unfolding check_market
check_market_lem cutoff inputs rs role h =
    let (a, ha, h1) = >>=-eq-ok (require (truthy (get "valuation_at" (input inputs role))) _) _ h in
    let (p, hp, h2) = >>=-eq-ok (instant (get "valuation_at" (input inputs role))) _ h1 in
    let (b, hb, h3) = >>=-eq-ok (require (leb_ℤ p cutoff) _) _ h2 in
    let (c, hc, h4) =
      >>=-eq-ok (require (every (λ k. str_eq k role || available_by p inputs k) rs) _) _ h3 in
    (p, hp, require-eq-ok _ _ hb, every-Before p inputs role rs (require-eq-ok _ _ hc))

check_context-check_market :
    (metric : Metric) (cutoff : ℤ) (inputs : Fields) (currency : Json) (n : Numbers) {v : Json}
    → check_context metric cutoff inputs currency n ≡ ok v
    → check_market cutoff inputs (roles metric) (market_role metric) ≡ ok v
unfolding check_context
check_context-check_market metric cutoff inputs currency n h =
    let (a, ha, h1) =
      >>=-eq-ok (require (every (has_unit inputs currency) (roles metric)) "UNIT_MISMATCH") _ h in
    let (b, hb, h2) =
      >>=-eq-ok
        (require
          (not (member "free_cash_flow" (roles metric))
            || is_defined inputs "free_cash_flow"
                "OPERATING_CASH_FLOW_MINUS_CASH_PPE_PURCHASES_VERIFIED")
          "FCF_DEFINITION_UNVERIFIED")
        _ h1 in
    let (c, hc, h3) =
      >>=-eq-ok
        (require
          (not (member "market_cap" (roles metric)) || is_positive (number_of "market_cap" n))
          "NONPOSITIVE_EQUITY_INPUT")
        _ h2 in
    let (d, hd, h4) =
      >>=-eq-ok (if needs_year metric then check_years inputs (roles metric) else ok tt) _ h3 in
    let (e, he, h5) = >>=-eq-ok (check_balance_flow metric inputs) _ h4 in h5

-- A verified result of a metric that takes a price or a value of the market: the instant of that input is
-- no later than `as_of`, and every other input of the metric was available no later than it.
pub calculate-Before :
    (metric : Metric) (inputs : Fields) (as_of industry scope : Json) (market : String)
    → (calculate metric inputs as_of industry scope).quality ≡ derivation_verified
    → market_role metric ≡ some market
    → (cutoff : ℤ) × (priced : ℤ) × (instant as_of ≡ ok cutoff)
      × (instant (get "valuation_at" (input inputs market)) ≡ ok priced)
      × (leb_ℤ priced cutoff ≡ true)
      × All (Before priced inputs market) (roles metric)
calculate-Before metric inputs as_of industry scope market h m =
    let t = (calculate-Trace metric inputs as_of industry scope h).1 in
    let checked : check_market t.cutoff inputs (roles metric) (some market) ≡ ok t.valued =
      rw (← m) (check_context-check_market metric t.cutoff inputs t.currency t.numbers t.context) in
    let (p, hp, le, before) = check_market_lem t.cutoff inputs (roles metric) market checked in
    (t.cutoff, p, t.cut, hp, le, before)
