-- ===== src/SecEngine/Derivation.antt =====
-- sec_engine.py: `calculate`, which derives a figure from others. A date is its day number, which orders
-- as its text does; an instant is its text. The copy of the components is left out.
use zion_terminal.Base.{
  ℕ, Bool, true, false, ◌&&◌, not, Option, none, some, List, [], ◌∷◌, ◌++◌, String, str_eq, leb,
  length, map, keep, every, if◌then◌else◌,
}
use zion_terminal.Base.Int.{ℤ, pos, eq_ℤ, ◌+ℤ◌, ◌-ℤ◌}
use zion_terminal.Base.Result.{Result, ok, err, ◌>>=◌}
use zion_terminal.Base.Sorting.{sorted}
use zion_terminal.Base.Texts.{str_leb}
use zion_terminal.Retrieval.{distinct}
use zion_terminal.SecEngine.Decimals.{Decimal, size, precision, sum_from, sub_decimal, zero_decimal}

-- How often an observation of the source counts in a figure.
pub record Term : Type 0 where
  pub source_observation_id : String
  pub coefficient : ℤ

-- A selected or derived figure; a derived one has no form.
pub record Figure : Type 0 where
  pub metric : String
  pub concept : String
  pub unit : String
  pub currency : Option String
  pub period_start : Option ℕ
  pub period_end : ℕ
  pub value_decimal : Option Decimal
  pub available_at : String
  pub form : String
  pub is_derived : Bool
  pub source_terms : List Term
  pub source_observation_ids : List String

-- `HistoryError`: its code
abbrev pub Engine : Type 0 → Type 0
Engine A = Result String A

pub data Operation : Type 0 where
  sum subtract : Operation

-- `number`
unfoldable pub number : Option Decimal → Engine Decimal
number none = err "SOURCE_NULL"
number (some n) = ok n

unfoldable pub numbers : List Figure → Engine (List Decimal)
unfolding number
numbers [] = ok []
numbers (p ∷ ps) =
    let rest = numbers ps in number p.value_decimal >>= λ n. rest >>= λ ns. ok (n ∷ ns)

unfoldable pub same_currency : Option String → Option String → Bool
same_currency none none = true
same_currency (some a) (some b) = str_eq a b
same_currency _ _ = false

unfoldable pub same_units : Figure → Figure → Bool
unfolding same_currency
same_units a b = str_eq a.unit b.unit && same_currency a.currency b.currency

-- The sum or the difference, exactly: the precision that the code sets for it is taken as sufficient.
unfoldable pub combine : Operation → Decimal → List Decimal → Decimal
unfolding sum_from sub_decimal
combine sum v vals = sum_from zero_decimal (v ∷ vals)
combine subtract v vals = sub_decimal v (sum_from zero_decimal vals)

unfoldable pub check_precision : ℕ → List Decimal → Bool
unfolding precision size
check_precision count vals =
    every (λ (v : Decimal). leb (size v) 80) vals && leb (precision count vals) 512

-- The value of the parts.
unfoldable pub value_of : Operation → List Decimal → Engine Decimal
unfolding combine check_precision
value_of operation [] = err "DECIMAL_PRECISION_BUDGET"
value_of operation (v ∷ vals) =
    if check_precision (length (v ∷ vals)) (v ∷ vals)
    then ok (combine operation v vals)
    else err "DECIMAL_PRECISION_BUDGET"

-- `terms[sid] = terms.get(sid, 0) + coefficient`
unfoldable pub add_term : String → ℤ → List Term → List Term
unfolding ◌+ℤ◌
add_term id c [] = record { source_observation_id = id; coefficient = pos 0 +ℤ c } ∷ []
add_term id c (t ∷ ts) =
    let rest = add_term id c ts in
    if str_eq t.source_observation_id id
    then record t { coefficient = t.coefficient +ℤ c } ∷ ts
    else t ∷ rest

unfoldable pub add_terms : Bool → List Term → List Term → List Term
unfolding add_term ◌-ℤ◌
add_terms positive [] terms = terms
add_terms positive (t ∷ ts) terms = add_terms positive ts (
    add_term t.source_observation_id (if positive then t.coefficient else pos 0 -ℤ t.coefficient)
      terms)

unfoldable pub rest_terms : Bool → List Figure → List Term → List Term
unfolding add_terms
rest_terms positive [] terms = terms
rest_terms positive (p ∷ ps) terms =
    rest_terms positive ps (add_terms positive p.source_terms terms)

abbrev pub is_sum : Operation → Bool
is_sum sum = true
is_sum subtract = false

abbrev pub earlier_id : Term → Term → Bool
earlier_id a b = str_leb a.source_observation_id b.source_observation_id

abbrev pub is_counted : Term → Bool
is_counted t = not (eq_ℤ t.coefficient (pos 0))

-- The terms of the parts, by id, without those that cancel out.
unfoldable pub terms_of : Operation → Figure → List Figure → List Term
unfolding rest_terms add_terms sorted
terms_of operation p ps =
    keep is_counted
      (sorted earlier_id (rest_terms (is_sum operation) ps (add_terms true p.source_terms [])))

-- `max` of texts
unfoldable pub latest_text : String → List String → String
unfolding str_leb
latest_text s [] = s
latest_text s (t ∷ ts) = latest_text (if str_leb t s then s else t) ts

unfoldable pub all_ids : List Figure → List String
all_ids [] = []
all_ids (p ∷ ps) = p.source_observation_ids ++ all_ids ps

unfoldable pub ids_of : List Figure → List String
unfolding all_ids sorted distinct
ids_of parts = sorted str_leb (distinct (all_ids parts))

unfoldable pub common_concept : Figure → List Figure → String
common_concept p ps =
    if every (λ (q : Figure). str_eq q.concept p.concept) ps
    then p.concept
    else "DERIVED_MULTIPLE_EXPLICIT_CONCEPTS"

unfoldable pub derived_figure :
    Operation → String → Option ℕ → ℕ → Figure → List Figure → Decimal → Figure
unfolding terms_of latest_text ids_of common_concept
derived_figure operation metric start ending p ps value = record {
  metric = metric;
  concept = common_concept p ps;
  unit = p.unit;
  currency = p.currency;
  period_start = start;
  period_end = ending;
  value_decimal = some value;
  available_at = latest_text p.available_at (map (λ (q : Figure). q.available_at) ps);
  form = "";
  is_derived = true;
  source_terms = terms_of operation p ps;
  source_observation_ids = ids_of (p ∷ ps);
}

-- `calculate`; it is called with one part at least.
unfoldable pub calculate_figure :
    Operation → String → Option ℕ → ℕ → Figure → List Figure → Engine Figure
unfolding same_units numbers value_of derived_figure
calculate_figure operation metric start ending p ps =
    if not (every (λ (q : Figure). same_units q p) ps)
    then err "INCOMPATIBLE_COMPONENT_UNITS"
    else do
      vals ← numbers (p ∷ ps)
      value ← value_of operation vals
      ok (derived_figure operation metric start ending p ps value)
