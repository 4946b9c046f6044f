-- ===== src/SecEngine/Trailing.antt =====
-- sec_engine.py: a trailing year of `history` is the sum of four quarters that follow each other.
use zion_terminal.Base.{
  ℕ, ◌+◌, ◌≤◌, true, false, not, ◌&&◌, Option, none, some, List, [], ◌∷◌, ◌++◌, String, str_eq,
  str_eq_iff, ◌≡◌, refl, sym, ap, ◌∙◌, All, every, and_parts, arith,
}
use zion_terminal.Base.Result.{
  ok, >>=-eq-ok, ok_injective, otherwise, Ensures, Ensures-ok, Ensures-if, Ensures-bind,
}
use zion_terminal.SecEngine.Decimals.{Decimal, sum_from, zero_decimal}
use zion_terminal.SecEngine.Derivation.{
  Figure, Operation, sum, number, numbers, value_of, combine, same_units, derived_figure,
  calculate_figure,
}
use zion_terminal.SecEngine.Sources.{within, days_between}
use zion_terminal.SecEngine.Output.{follows, is_year, trailing}

pub number_lem : (o : Option Decimal) {n : Decimal} → number o ≡ ok n → o ≡ some n
unfolding number
number_lem o h = ground arith

-- The values of figures.
abbrev pub HaveValues : List Figure → List Decimal → Type 0
HaveValues [] [] = Unit
HaveValues (p ∷ ps) (n ∷ ns) = (p.value_decimal ≡ some n) × HaveValues ps ns
HaveValues _ _ = ⊥

numbers-HaveValues : (ps : List Figure) {ns : List Decimal} → numbers ps ≡ ok ns → HaveValues ps ns
unfolding numbers
numbers-HaveValues [] {ns = []} h = tt
numbers-HaveValues [] {ns = n ∷ ns} h = cc
numbers-HaveValues (p ∷ ps) {ns = ns} h =
    let (n, e, h1) = >>=-eq-ok (number p.value_decimal) _ h in
    let (rest, d, h2) = >>=-eq-ok (numbers ps) _ h1 in
    rw (sym (ok_injective h2)) (number_lem p.value_decimal e, numbers-HaveValues ps d)

value_of_lem :
    (operation : Operation) (n : Decimal) (ns : List Decimal) {v : Decimal}
    → value_of operation (n ∷ ns) ≡ ok v
    → v ≡ combine operation n ns
unfolding value_of
value_of_lem operation n ns h = ground arith

-- What `calculate` derives: the period asked for, and the sum or the difference of the parts' values.
pub calculate_figure_lem :
    (operation : Operation) (metric : String) (start : Option ℕ) (ending : ℕ) (p : Figure)
    (ps : List Figure) {f : Figure}
    → calculate_figure operation metric start ending p ps ≡ ok f
    → (n : Decimal) × (ns : List Decimal) × HaveValues (p ∷ ps) (n ∷ ns)
      × (f.value_decimal ≡ some (combine operation n ns))
      × (f.period_start ≡ start)
      × (f.period_end ≡ ending)
      × (f.metric ≡ metric)
unfolding calculate_figure
calculate_figure_lem operation metric start ending p ps {f = f} h =
    let (u, h1) = otherwise (not (every (λ (q : Figure). same_units q p) ps)) _ _ h in
    let (vals, v, h2) = >>=-eq-ok (numbers (p ∷ ps)) _ h1 in
    let (value, w, h3) = >>=-eq-ok (value_of operation vals) _ h2 in
    known vals value (numbers-HaveValues (p ∷ ps) v) w (sym (ok_injective h3))
  where
    known :
        (vals : List Decimal) (value : Decimal)
        → HaveValues (p ∷ ps) vals
        → value_of operation vals ≡ ok value
        → f ≡ derived_figure operation metric start ending p ps value
        → (n : Decimal) × (ns : List Decimal) × HaveValues (p ∷ ps) (n ∷ ns)
          × (f.value_decimal ≡ some (combine operation n ns))
          × (f.period_start ≡ start)
          × (f.period_end ≡ ending)
          × (f.metric ≡ metric)
    known [] value k w e = absurd k
    known (n ∷ ns) value k w e = (
      n,
      ns,
      k,
      ap (λ x. x.value_decimal) (e)
          ∙ unfold derived_figure in ap some (value_of_lem operation n ns w),
      ap (λ x. x.period_start) e ∙ unfold derived_figure in refl,
      ap (λ x. x.period_end) e ∙ unfold derived_figure in refl,
      ap (λ x. x.metric) e ∙ unfold derived_figure in refl,
    )

-- Four figures of one concept, each of which starts on the day after the one before, of 330 to 380 days.
pub record Contiguous (a b c d : Figure) : Type 0 where
  pub first_start : ℕ
  pub starts : a.period_start ≡ some first_start
  pub second : b.period_start ≡ some (a.period_end + 1)
  pub third : c.period_start ≡ some (b.period_end + 1)
  pub fourth : d.period_start ≡ some (c.period_end + 1)
  pub concepts : (b.concept ≡ a.concept) × (c.concept ≡ a.concept) × (d.concept ≡ a.concept)
  pub at_least : first_start + 330 ≤ d.period_end + 1
  pub at_most : d.period_end + 1 ≤ first_start + 380

follows_lem : (a b : Figure) → follows a b ≡ true → b.period_start ≡ some (a.period_end + 1)
unfolding follows
follows_lem a b h = ground arith

-- A period of 330 to 380 days.
abbrev Spans : Option ℕ → ℕ → Type 0
Spans start ending =
    (first : ℕ) × (start ≡ some first) × (first + 330 ≤ ending + 1) × (ending + 1 ≤ first + 380)

spans_lem :
    (start : Option ℕ) (ending : ℕ)
    → elim start [ none ↦ false | some first ↦ within 330 380 (days_between first ending) ] ≡ true
    → Spans start ending
spans_lem none ending h = cc
spans_lem (some first) ending h = (first, refl, ground arith, ground arith)

is_year-Contiguous : (a b c d : Figure) → is_year a b c d ≡ true → Contiguous a b c d
unfolding is_year
is_year-Contiguous a b c d h =
    let (chain, rest) = and_parts (follows a b && (follows b c && follows c d)) _ h in
    let (one, chain) = and_parts (follows a b) _ chain in
    let (two, three) = and_parts (follows b c) _ chain in
    let (concepts, span) =
      and_parts
        (str_eq b.concept a.concept && (str_eq c.concept a.concept && str_eq d.concept a.concept)) _
        rest in
    let (b_concept, concepts) = and_parts (str_eq b.concept a.concept) _ concepts in
    let (c_concept, d_concept) = and_parts (str_eq c.concept a.concept) _ concepts in
    let (first, starts, low, high) = spans_lem a.period_start d.period_end span in
    record {
      first_start = first;
      starts = starts;
      second = follows_lem a b one;
      third = follows_lem b c two;
      fourth = follows_lem c d three;
      concepts = (
        (str_eq_iff _ _).0 b_concept,
        (str_eq_iff _ _).0 c_concept,
        (str_eq_iff _ _).0 d_concept,
      );
      at_least = low;
      at_most = high;
    }

-- A trailing year: the sum of four quarters that stand one after the other in the list.
pub record TrailingYear (metric : String) (quarters : List Figure) (year : Figure) : Type 0 where
  pub before : List Figure
  pub a : Figure
  pub b : Figure
  pub c : Figure
  pub d : Figure
  pub after : List Figure
  pub place : quarters ≡ before ++ (a ∷ b ∷ c ∷ d ∷ after)
  pub contiguous : Contiguous a b c d
  pub n : Decimal
  pub ns : List Decimal
  pub values : HaveValues (a ∷ b ∷ c ∷ d ∷ []) (n ∷ ns)
  pub total : year.value_decimal ≡ some (sum_from zero_decimal (n ∷ ns))
  pub year_start : year.period_start ≡ a.period_start
  pub year_end : year.period_end ≡ d.period_end
  pub year_metric : year.metric ≡ metric

further :
    (metric : String) (q : Figure) (quarters : List Figure) (year : Figure)
    → TrailingYear metric quarters year
    → TrailingYear metric (q ∷ quarters) year
further metric q quarters year t = record {
  before = q ∷ t.before;
  a = t.a;
  b = t.b;
  c = t.c;
  d = t.d;
  after = t.after;
  place = ap (λ l. q ∷ l) t.place;
  contiguous = t.contiguous;
  n = t.n;
  ns = t.ns;
  values = t.values;
  total = t.total;
  year_start = t.year_start;
  year_end = t.year_end;
  year_metric = t.year_metric;
}

All_further :
    (metric : String) (q : Figure) (quarters years : List Figure)
    → All (TrailingYear metric quarters) years
    → All (TrailingYear metric (q ∷ quarters)) years
All_further metric q quarters [] h = tt
All_further metric q quarters (y ∷ years) h =
    (further metric q quarters y h.0, All_further metric q quarters years h.1)

here :
    (metric : String) (a b c d : Figure) (rest : List Figure) {year : Figure}
    → is_year a b c d ≡ true
    → calculate_figure sum metric a.period_start d.period_end a (b ∷ c ∷ d ∷ []) ≡ ok year
    → TrailingYear metric (a ∷ b ∷ c ∷ d ∷ rest) year
unfolding combine
here metric a b c d rest h e =
    let (n, ns, values, total, start, ending, same) =
      calculate_figure_lem sum metric a.period_start d.period_end a (b ∷ c ∷ d ∷ []) e in
    record {
      before = [];
      a = a;
      b = b;
      c = c;
      d = d;
      after = rest;
      place = refl;
      contiguous = is_year-Contiguous a b c d h;
      n = n;
      ns = ns;
      values = values;
      total = total;
      year_start = start;
      year_end = ending;
      year_metric = same;
    }

trailing_years :
    (metric : String) (quarters : List Figure)
    → Ensures (All (TrailingYear metric quarters)) (trailing metric quarters)
unfolding trailing
trailing_years metric [] = Ensures-ok [] tt
trailing_years metric (a ∷ []) = Ensures-ok [] tt
trailing_years metric (a ∷ b ∷ []) = Ensures-ok [] tt
trailing_years metric (a ∷ b ∷ c ∷ []) = Ensures-ok [] tt
trailing_years metric (a ∷ b ∷ c ∷ d ∷ rest) =
    let later = trailing_years metric (b ∷ c ∷ d ∷ rest) in
    let moved = λ (years : List Figure) (e : trailing metric (b ∷ c ∷ d ∷ rest) ≡ ok years).
      All_further metric a (b ∷ c ∷ d ∷ rest) years (later.returned years e) in
    Ensures-if (is_year a b c d) _ (trailing metric (b ∷ c ∷ d ∷ rest))
      (λ h.
        Ensures-bind (calculate_figure sum metric a.period_start d.period_end a (b ∷ c ∷ d ∷ [])) _
          (λ year e.
            Ensures-bind (trailing metric (b ∷ c ∷ d ∷ rest)) _
              (λ years k. Ensures-ok (year ∷ years) (here metric a b c d rest h e, moved years k))))
      (λ h. record { returned = moved })

-- Every trailing year of a metric is the sum of four quarters that stand one after the other in the list of
-- its quarters: each starts on the day after the one before ends, all are of one concept, together they
-- cover 330 to 380 days, and the year runs from the start of the first to the end of the last.
pub trailing-TrailingYear :
    (metric : String) (quarters : List Figure) {years : List Figure}
    → trailing metric quarters ≡ ok years
    → All (TrailingYear metric quarters) years
trailing-TrailingYear metric quarters h = (trailing_years metric quarters).returned _ h
