-- ===== src/Valuation/Verified.antt =====
-- valuation_engine.py: what a verified result of `calculate` rests on.
use zion_terminal.Base.{
  arith, ◌&&◌, Bool, true, false, not, ◌||◌, some, List, [], String, ◌≡◌, refl, ap, ◌∙◌,
  if◌then◌else◌,
}
use zion_terminal.Valuation.Engine.{
  unavailable, excluded, derivation_verified, Calculation, Gathering, gathered, gather, failed,
  verified, settle, conclude, check_market_flows, initial, stopped, after_market, after_currency,
  after_gathering, after_cutoff, calculate,
}
use zion_terminal.Base.Result.{ok, err, >>=-eq-ok}
use zion_terminal.Base.Int.{ℤ}
use zion_terminal.Base.Json.{Json, Fields, is_str}
use zion_terminal.Base.Fractions.{Fraction, lowest}
use zion_terminal.Valuation.Numbers.{Checked}
use zion_terminal.Valuation.Formulas.{
  Metric, roles, is_ev_metric, market_role, Numbers, number_of, formula, denominator_of,
}
use zion_terminal.Valuation.Inputs.{instant, currencies, common_currency}
use zion_terminal.Base.Sorting.{sorted}
use zion_terminal.Base.Texts.{str_leb}
use zion_terminal.Retrieval.{distinct}
use zion_terminal.Valuation.Context.{check_context, check_periods}
use zion_terminal.Valuation.Derivation.{derive}
use zion_terminal.Valuation.Derived.{HasPositive, derive-IsDerived}
use zion_terminal.Valuation.Rows.{Rows, gather-Rows}

settle-verified :
    (r : Calculation) (inputs : Fields) (c : Checked Fraction)
    → r.quality ≡ unavailable
    → (settle r inputs c).quality ≡ derivation_verified
    → (q : Fraction) × (c ≡ ok q) × ((settle r inputs c).value ≡ some (lowest q))
unfolding settle failed verified
settle-verified r inputs (err reason) hr h = cc
settle-verified r inputs (ok q) hr h = (q, refl, refl)

-- A verified result has the number that the last steps return.
abbrev pub Concludes : Calculation → Fields → Json → Json → Numbers → Calculation → Type 0
Concludes r inputs currency scope n final =
    (q : Fraction) × (conclude r.metric inputs currency scope n ≡ ok q)
    × (final.value ≡ some (lowest q))

after_market-verified :
    (r : Calculation) (inputs : Fields) (scope : Json) (n : Numbers) (c : Checked Json)
    → r.quality ≡ unavailable
    → (after_market r inputs scope n c).quality ≡ derivation_verified
    → (v : Json) × (c ≡ ok v)
      × Concludes r inputs r.currency scope n (after_market r inputs scope n c)
unfolding after_market failed
after_market-verified r inputs scope n (err reason) hr h = cc
after_market-verified r inputs scope n (ok v) hr h = (
  v,
  refl,
  settle-verified (record r { valuation_at = v }) inputs
      (conclude r.metric inputs r.currency scope n) hr h,
)

after_currency-verified :
    (r : Calculation) (cutoff : ℤ) (inputs : Fields) (scope : Json) (n : Numbers) (c : Checked Json)
    → r.quality ≡ unavailable
    → (after_currency r cutoff inputs scope n c).quality ≡ derivation_verified
    → (currency : Json) × (v : Json) × (check_context r.metric cutoff inputs currency n ≡ ok v)
      × Concludes r inputs currency scope n (after_currency r cutoff inputs scope n c)
unfolding after_currency failed
after_currency-verified r cutoff inputs scope n (err reason) hr h = cc
after_currency-verified r cutoff inputs scope n (ok currency) hr h =
    let (v, e, rest) =
      after_market-verified (record r { currency = currency }) inputs scope n
        (check_context r.metric cutoff inputs currency n) hr h in
    (currency, v, e, rest)

after_gathering-verified :
    (r : Calculation) (cutoff : ℤ) (inputs : Fields) (scope : Json) (g : Gathering)
    → r.quality ≡ unavailable
    → (after_gathering r cutoff inputs scope g).quality ≡ derivation_verified
    → (ids : List String) × (n : Numbers) × (currency : Json) × (v : Json) × (g ≡ gathered ids n)
      × (check_context r.metric cutoff inputs currency n ≡ ok v)
      × Concludes r inputs currency scope n (after_gathering r cutoff inputs scope g)
unfolding after_gathering failed
after_gathering-verified r cutoff inputs scope (stopped ids reason) hr h = cc
after_gathering-verified r cutoff inputs scope (gathered ids n) hr h =
    let (currency, v, e, rest) =
      after_currency-verified (record r { source_ids = sorted str_leb (distinct ids) }) cutoff
        inputs scope n (common_currency (currencies inputs (roles r.metric))) hr h in
    (ids, n, currency, v, refl, e, rest)

-- The trace of a verified result: a cutoff, the numbers gathered at it, and the steps that returned.
pub record Trace (metric : Metric) (inputs : Fields) (as_of scope : Json) (final : Calculation)
    : Type 0 where
  pub cutoff : ℤ
  pub numbers : Numbers
  pub ids : List String
  pub currency : Json
  pub valued : Json
  pub cut : instant as_of ≡ ok cutoff
  pub gathering : gather cutoff inputs (roles metric) [] [] ≡ gathered ids numbers
  pub context : check_context metric cutoff inputs currency numbers ≡ ok valued
  pub conclusion : Concludes (initial metric) inputs currency scope numbers final

after_cutoff-verified :
    (metric : Metric) (inputs : Fields) (as_of scope : Json) (c : Checked ℤ)
    → instant as_of ≡ c
    → (after_cutoff (initial metric) inputs scope c).quality ≡ derivation_verified
    → Trace metric inputs as_of scope (after_cutoff (initial metric) inputs scope c)
unfolding after_cutoff failed
after_cutoff-verified metric inputs as_of scope (err reason) e h = cc
after_cutoff-verified metric inputs as_of scope (ok cutoff) e h =
    let (ids, n, currency, v, g, c, rest) =
      after_gathering-verified (initial metric) cutoff inputs scope
        (gather cutoff inputs (roles metric) [] []) refl h in
    record {
      cutoff = cutoff;
      numbers = n;
      ids = ids;
      currency = currency;
      valued = v;
      cut = e;
      gathering = g;
      context = c;
      conclusion = rest;
    }

-- The two tests on the industry, both passed.
screened :
    (a b : Bool) (x y z : Calculation)
    → x.quality ≡ excluded
    → y.quality ≡ unavailable
    → (if a then x else if b then y else z).quality ≡ derivation_verified
    → (b ≡ false) × ((if a then x else if b then y else z) ≡ z)
screened true b x y z hx hy h = cc
screened false true x y z hx hy h = cc
screened false false x y z hx hy h = (refl, refl)

and_not_lem : (a b : Bool) → (a && not b) ≡ false → (not a || b) ≡ true
and_not_lem a b h = ground arith

pub calculate-Trace :
    (metric : Metric) (inputs : Fields) (as_of industry scope : Json)
    → (calculate metric inputs as_of industry scope).quality ≡ derivation_verified
    → ((not (is_ev_metric metric) || is_str industry "nonfinancial_verified") ≡ true)
      × Trace metric inputs as_of scope (calculate metric inputs as_of industry scope)
unfolding calculate failed
calculate-Trace metric inputs as_of industry scope h =
    let (b, e) =
      screened _ (is_ev_metric metric && not (is_str industry "nonfinancial_verified")) _ _
        (after_cutoff (initial metric) inputs scope (instant as_of)) refl refl h in
    (
      and_not_lem (is_ev_metric metric) _ b,
      rw e (after_cutoff-verified metric inputs as_of scope (instant as_of) refl (rw (← e) h)),
    )

conclude-derive :
    (metric : Metric) (inputs : Fields) (currency scope : Json) (n : Numbers) {q : Fraction}
    → conclude metric inputs currency scope n ≡ ok q
    → derive metric inputs currency scope n ≡ ok q
unfolding conclude
conclude-derive metric inputs currency scope n h =
    let (u, e, h1) =
      >>=-eq-ok (check_market_flows inputs (roles metric) (market_role metric)) _ h in
    let (v, k, h2) = >>=-eq-ok (check_periods metric inputs currency) _ h1 in h2

-- A verified result rests on what was known at its instant: every input of the metric has a row that is
-- permitted, has source ids, was available no later than `as_of` and states the number used for it; the
-- value is that of the metric's formula at these numbers, in lowest terms; the input that the formula
-- divides by is positive; and a metric on enterprise value is of an industry verified not to be financial.
pub calculate-verified :
    (metric : Metric) (inputs : Fields) (as_of industry scope : Json)
    → (calculate metric inputs as_of industry scope).quality ≡ derivation_verified
    → (cutoff : ℤ) × (n : Numbers) × (instant as_of ≡ ok cutoff)
      × Rows cutoff inputs (roles metric) n
      × ((calculate metric inputs as_of industry scope).value
          ≡ some (lowest (formula metric (λ role. number_of role n))))
      × HasPositive (denominator_of metric) n
      × ((not (is_ev_metric metric) || is_str industry "nonfinancial_verified") ≡ true)
calculate-verified metric inputs as_of industry scope h =
    let (screen, t) = calculate-Trace metric inputs as_of industry scope h in
    let (q, c, v) = t.conclusion in
    let (new, e, rows) = gather-Rows t.cutoff inputs (roles metric) [] [] t.gathering in
    let (d, positive) =
      derive-IsDerived metric inputs t.currency scope t.numbers
        (conclude-derive metric inputs t.currency scope t.numbers c) in
    (t.cutoff, t.numbers, t.cut, rw e rows, v ∙ ap (λ x. some (lowest x)) d, positive, screen)
