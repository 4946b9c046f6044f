-- ===== src/Valuation/Inputs.antt =====
-- valuation_engine.py: what `calculate` asks of each input, of their currencies and units, and of their
-- periods. A currency is a text.
use Prim.Native.String.{◌++◌ as str_append}
use zion_terminal.Base.{
  ℕ, ◌+◌, Bool, true, false, not, ◌&&◌, ◌||◌, Option, none, some, List, [], ◌∷◌, String, str_eq,
  leb, map, keep, every, if◌then◌else◌,
}
use zion_terminal.Base.Result.{ok, err, ◌>>=◌}
use zion_terminal.Base.Int.{ℤ, leb_ℤ, eq_ℤ}
use zion_terminal.Base.Json.{
  Json, Items, Fields, null, bool, num, str, arr, obj, nil, cons, end, get, truthy, is_set, is_str,
}
use zion_terminal.Temporal.Calendar.{ordinal}
use zion_terminal.Temporal.Instants.{
  TemporalInstant, Timed, match_date, is_date, normalize_source_instant,
}
use zion_terminal.Base.Fractions.{Fraction}
use zion_terminal.Valuation.Numbers.{code_of, not_instant, bad_context, Checked, row_value}

-- `raise ValueError(reason)` unless the test holds
unfoldable pub require : Bool → String → Checked (Unit {0})
require true reason = ok tt
require false reason = err (code_of reason)

-- Python's `==` on scalars
unfoldable pub same_scalar : Json → Json → Bool
same_scalar null null = true
same_scalar (bool a) (bool b) = if a then b else not b
same_scalar (num a) (num b) = eq_ℤ a b
same_scalar (str a) (str b) = str_eq a b
same_scalar _ _ = false

-- `inputs[role]`, once it is known to be a dict
abbrev pub fields_of : Json → Fields
fields_of (obj d) = d
fields_of _ = end

abbrev pub input : Fields → String → Fields
input inputs role = fields_of (get role inputs)

unfoldable pub instant_of : Timed TemporalInstant → Checked ℤ
instant_of (ok t) = ok t.epoch_ns
instant_of (err e) = err (not_instant e)

-- `normalize_source_instant(x).epoch_ns`
unfoldable pub instant : Json → Checked ℤ
unfolding instant_of normalize_source_instant
instant x = instant_of (normalize_source_instant x)

-- `quality in {"UNAVAILABLE", "AMBIGUOUS", "EXCLUDED", "FAIL"}`
unfoldable pub is_refused : Json → Bool
is_refused quality =
    is_str quality "UNAVAILABLE"
    || (is_str quality "AMBIGUOUS" || (is_str quality "EXCLUDED" || is_str quality "FAIL"))

-- The texts of a list, if it holds nothing else.
unfoldable pub texts : Items → Option (List String)
texts nil = some []
texts (cons (str s) xs) = elim (texts xs) [ none ↦ none | some ss ↦ some (s ∷ ss) ]
texts (cons _ xs) = none

-- `source_ids` of a row: a list of texts that is not empty
unfoldable pub source_ids_of : String → Json → Checked (List String)
unfolding texts
source_ids_of role (arr (cons x xs)) = elim (texts (cons x xs)) [
  | none ↦ err (code_of (str_append "INPUT_PROVENANCE_MISSING:" role))
  | some ids ↦ ok ids
]
source_ids_of role _ = err (code_of (str_append "INPUT_PROVENANCE_MISSING:" role))

unfoldable pub row_of : String → Json → Checked Fields
row_of role (obj row) = ok row
row_of role _ = err (code_of (str_append "MISSING_COMPONENT:" role))

-- One round of the loop over the roles: the source ids and the number of an input.
unfoldable pub gather_row : ℤ → Fields → String → Checked (List String × Fraction)
unfolding row_of require is_refused source_ids_of instant row_value
gather_row cutoff inputs role = do
  row ← row_of role (get role inputs)
  _ ←
      require (not (is_refused (get "quality" row)))
        (str_append "INPUT_QUALITY_NOT_PERMITTED:" role)
  ids ← source_ids_of role (get "source_ids" row)
  _ ←
      require (truthy (get "available_at" row))
        (str_append "INPUT_AVAILABILITY_UNESTABLISHED:" role)
  t ← instant (get "available_at" row)
  _ ← require (leb_ℤ t cutoff) "INPUT_NOT_AVAILABLE"
  n ← row_value row
  ok (ids, n)

-- The currencies of the inputs that are amounts of money.
abbrev pub is_amount : String → Bool
is_amount role = not (str_eq role "shares_outstanding")

unfoldable pub currencies : Fields → List String → List Json
currencies inputs roles = map (λ role. get "currency" (input inputs role)) (keep is_amount roles)

abbrev pub is_established : Json → Bool
is_established c = is_set c && not (is_str c "UNKNOWN")

-- The one currency of all of them.
unfoldable pub common_currency : List Json → Checked Json
unfolding require same_scalar
common_currency cs = do
  _ ← require (every is_established cs) "CURRENCY_UNESTABLISHED"
  elim cs [
    | [] ↦ err (code_of "CURRENCY_MISMATCH")
    | c ∷ rest ↦ require (every (same_scalar c) rest) "CURRENCY_MISMATCH" >>= λ u. ok c
  ]

-- `result["currency"] + "/share"`
abbrev pub per_share : Json → Json
per_share (str c) = str (str_append c "/share")
per_share _ = null

abbrev pub expected_unit : Json → String → Json
expected_unit currency role =
    if str_eq role "shares_outstanding"
    then str "shares"
    else if str_eq role "price"
    then per_share currency
    else currency

unfoldable pub has_unit : Fields → Json → String → Bool
unfolding same_scalar
has_unit inputs currency role =
    same_scalar (get "unit" (input inputs role)) (expected_unit currency role)

unfoldable pub day_of : Option (ℕ × ℕ × ℕ) → Checked ℕ
unfolding is_date ordinal
day_of none = err bad_context
day_of (some (y, m, d)) = if is_date (y, m, d) then ok (ordinal y m d) else err bad_context

-- `date.fromisoformat(x)`, for texts of the form YYYY-MM-DD
unfoldable pub day : Json → Checked ℕ
unfolding day_of match_date
day (str s) = day_of (match_date s)
day _ = err bad_context

-- `role in {"net_income", "revenue", "free_cash_flow", "ebitda"}`
unfoldable pub is_flow : String → Bool
is_flow role =
    str_eq role "net_income"
    || (str_eq role "revenue" || (str_eq role "free_cash_flow" || str_eq role "ebitda"))

abbrev pub is_yearly : Json → Bool
is_yearly frequency = is_str frequency "annual" || is_str frequency "ttm"

-- A flow covers 350 to 378 days, and is annual or trailing.
unfoldable pub check_year : Fields → Checked (Unit {0})
unfolding require day
check_year row = do
  _ ← require (is_yearly (get "frequency" row)) "ANNUAL_OR_TTM_REQUIRED"
  last ← day (get "period_end" row)
  first ← day (get "period_start" row)
  require (leb (first + 349) last && leb last (first + 377)) "ANNUAL_OR_TTM_DURATION_UNSUPPORTED"

unfoldable pub check_years : Fields → List String → Checked (Unit {0})
unfolding is_flow check_year
check_years inputs [] = ok tt
check_years inputs (role ∷ roles) =
    let rest = check_years inputs roles in
    if is_flow role then (check_year (input inputs role) >>= λ u. rest) else rest

unfoldable pub check_frequencies : Fields → List String → Checked (Unit {0})
unfolding require is_flow
check_frequencies inputs roles =
    require
      (every (λ role. not (is_flow role) || is_yearly (get "frequency" (input inputs role))) roles)
      "ANNUAL_OR_TTM_REQUIRED"
