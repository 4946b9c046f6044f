-- ===== src/TruthQuery/Plans.antt =====
-- What a plan of a query is.
use zion_terminal.Base.{
  Bool, true, false, not, ◌&&◌, ◌||◌, Option, none, some, List, [], ◌∷◌, ◌++◌, String, str_eq, ◌≡◌,
  refl, All-keep, All-last, str_eq_iff, arith, keep, get_last?, if◌then◌else◌, inl, inr, Bool-cases,
  is_empty, map,
}
use mathlib.Core.Path.{subst}
use zion_terminal.Base.Result.{ok, ok_injective, otherwise}
use zion_terminal.Base.Upper.{upper, strip_of}
use zion_terminal.Base.Sorting.{sorted}
use zion_terminal.TruthQuery.Plan.{
  QueryPlan, parse_query, plan_of, metrics_of, metrics_from, metric_aliases, longer_first, listed,
  includes, candidates, is_candidate, is_symbol, stopwords, split_words, is_punctuation,
}

-- The members of a list are different from each other.
abbrev pub Distinct : List String → Type 0
Distinct [] = Unit
Distinct (x ∷ xs) = (listed x xs ≡ false) × Distinct xs

-- A plan that can be answered: some metrics, each once, and a symbol that is no stop word.
pub record Plausible (plan : QueryPlan) : Type 0 where
  pub some_metric : is_empty plan.metrics ≡ false
  pub distinct : Distinct plan.metrics
  pub symbol_form : is_symbol plan.symbol ≡ true
  pub no_stopword : listed plan.symbol stopwords ≡ false

or_false : (a b : Bool) → (a || b) ≡ false → (a ≡ false) × (b ≡ false)
or_false a b h = ground arith

str_eq-flip : (x y : String) → str_eq x y ≡ false → str_eq y x ≡ false
str_eq-flip x y h = ground (arith, str_eq_iff x y, str_eq_iff y x)

listed-append :
    (x y : String) (xs : List String)
    → listed x xs ≡ false
    → str_eq y x ≡ false
    → listed x (xs ++ y ∷ []) ≡ false
unfolding listed
listed-append x y [] h k = rw k refl
listed-append x y (z ∷ xs) h k = elim (Bool-cases (str_eq z x)) [
  | inl e ↦ cc
  | inr e ↦ rw e (listed-append x y xs (rw e at h) k)
]

Distinct-append :
    (y : String) (xs : List String) → Distinct xs → listed y xs ≡ false → Distinct (xs ++ y ∷ [])
unfolding listed
Distinct-append y [] d h = (refl, tt)
Distinct-append y (x ∷ xs) d h =
    let (other, rest) = or_false (str_eq x y) (listed y xs) h in
    (listed-append x y xs d.0 (str_eq-flip x y other), Distinct-append y xs d.1 rest)

Distinct-if :
    (b : Bool) (x : String) (xs : List String)
    → Distinct xs
    → Distinct (if b && not (listed x xs) then xs ++ x ∷ [] else xs)
Distinct-if false x xs d = d
Distinct-if true x xs d = elim (Bool-cases (listed x xs)) [
  | inl e ↦ rw e d
  | inr e ↦ rw e (Distinct-append x xs d e)
]

metrics_from-Distinct :
    (text : String) (metrics : List String) (aliases : List (String × String))
    → Distinct metrics
    → Distinct (metrics_from text metrics aliases)
unfolding metrics_from
metrics_from-Distinct text metrics [] d = d
metrics_from-Distinct text metrics (a ∷ rest) d =
    metrics_from-Distinct text
      (if includes (upper a.0) text && not (listed a.1 metrics)
        then metrics ++ a.1 ∷ []
        else metrics)
      rest (Distinct-if (includes (upper a.0) text) a.1 metrics d)

metrics_of-Distinct : (text : String) → Distinct (metrics_of text)
unfolding metrics_of
metrics_of-Distinct text = metrics_from-Distinct text [] (sorted longer_first metric_aliases) tt

and_not : (a b : Bool) → (a && not b) ≡ true → (a ≡ true) × (b ≡ false)
and_not a b h = ground arith

is_candidate_lem :
    (t : String) → is_candidate t ≡ true → (is_symbol t ≡ true) × (listed t stopwords ≡ false)
unfolding is_candidate
is_candidate_lem t h = and_not (is_symbol t) (listed t stopwords) h

candidate_lem :
    (text symbol : String)
    → get_last? (candidates text) ≡ some symbol
    → (is_symbol symbol ≡ true) × (listed symbol stopwords ≡ false)
unfolding candidates
candidate_lem text symbol h =
    let tokens = map (strip_of is_punctuation) (split_words text) in
    is_candidate_lem symbol (
      All-last (λ t. is_candidate t ≡ true) (keep is_candidate tokens)
        (All-keep (λ t. is_candidate t ≡ true) is_candidate tokens (λ t k. k)) h)

plan_of-Plausible :
    (metrics : List String) (symbol : Option String) {plan : QueryPlan}
    → Distinct metrics
    → ((s : String) → symbol ≡ some s → (is_symbol s ≡ true) × (listed s stopwords ≡ false))
    → plan_of metrics symbol ≡ ok plan
    → Plausible plan
unfolding plan_of
plan_of-Plausible [] symbol d good h = cc
plan_of-Plausible (m ∷ ms) none d good h = cc
plan_of-Plausible (m ∷ ms) (some s) d good h = subst Plausible (ok_injective h) (record {
  some_metric = refl;
  distinct = d;
  symbol_form = (good s refl).0;
  no_stopword = (good s refl).1;
})

-- A query that is parsed gives a plan that can be answered: it has at least one metric and none
-- twice, and its symbol has the form of one and is no stop word.
pub parse_query-Plausible :
    (text : String) {plan : QueryPlan} → parse_query text ≡ ok plan → Plausible plan
unfolding parse_query
parse_query-Plausible text h =
    let (valid, parsed) = otherwise _ _ _ h in
    plan_of-Plausible (metrics_of (upper text)) (get_last? (candidates (upper text)))
      (metrics_of-Distinct (upper text)) (candidate_lem (upper text)) parsed
