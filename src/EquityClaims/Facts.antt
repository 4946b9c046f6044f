-- ===== src/EquityClaims/Facts.antt =====
-- equity_claims.py: the facts of a filer that were available at an instant, and the choice of the
-- latest one of a concept. Dates are ordinals; `Reader` is what the code takes from datetime, decimal
-- and `str`. The digests of sources are left out.
use zion_terminal.Base.{
  ℕ, ◌+◌, ◌*◌, Bool, false, Option, none, some, List, String, str_eq, if◌then◌else◌,
}
use zion_terminal.Base.Int.{ℤ, pos, ◌-ℤ◌, leb_ℤ}
use zion_terminal.Base.Result.{Result, ok, err, ◌>>=◌}
use zion_terminal.Base.Json.{
  Json, null, str, arr, obj, Items, nil, cons, to_list, Fields, end, field, get,
}

-- The code's exceptions: ValueErrors by their text, and those of Python.
pub data ClaimError : Type 0 where
  invalid_token nonfinite_token attribute_error overflow_error : ClaimError

abbrev pub Claimed : Type 0 → Type 0
Claimed A = Result ClaimError A

-- `Decimal(str(value))`: an amount in units of a common last place, or no finite number.
pub data Token : Type 0 where
  finite : ℤ → Token
  nonfinite unreadable : Token

-- `date.fromisoformat` as an ordinal, the decimal of a value, and `str(value)`
pub record Reader : Type 0 where
  pub fromisoformat : String → Option ℕ
  pub decimal : Json → Token
  pub text : Json → String

-- `d.get(k)` where None and a missing key differ
unfoldable pub find : String → Fields → Option Json
find k end = none
find k (field j v d) = let rest = find k d in if str_eq j k then some v else rest

-- `dict(d, k=v)`
unfoldable pub set : String → Json → Fields → Fields
set k v end = field k v end
set k v (field j w d) = let rest = set k v d in if str_eq j k then field j v d else field j w rest

-- `day` is an ordinal; 719163 is that of 1970-01-01.
unfoldable pub end_of_day_utc : ℕ → ℤ
end_of_day_utc day =
    pos ((day * 86400 + 86399) * 1000000000 + 999999999) -ℤ pos (719163 * 86400 * 1000000000)

unfoldable pub ended_by : ℤ → Option ℕ → Bool
unfolding end_of_day_utc
ended_by cutoff none = false
ended_by cutoff (some day) = leb_ℤ (end_of_day_utc day) cutoff

-- `row.get("filed") if isinstance(row, dict) else None`
unfoldable pub filed_of : Json → Json
filed_of (obj row) = get "filed" row
filed_of _ = null

unfoldable pub text_day : Reader → Json → Option ℕ
text_day R (str s) = R.fromisoformat s
text_day R _ = none

module _ (R : Reader) (cutoff : ℤ) where
  unfoldable pub is_available : Json → Bool
  unfolding ended_by filed_of text_day
  is_available row = ended_by cutoff (text_day R (filed_of row))

  unfoldable pub available_rows : Items → Items
  unfolding is_available
  available_rows nil = nil
  available_rows (cons row rows) =
      let rest = available_rows rows in if is_available row then cons row rest else rest

  unfoldable pub available_list : Json → Json
  unfolding available_rows
  available_list (arr rows) = arr (available_rows rows)
  available_list x = x

  unfoldable pub available_units : Fields → Fields
  unfolding available_list
  available_units end = end
  available_units (field unit rows d) = field unit (available_list rows) (available_units d)

  unfoldable pub with_units : Fields → Option Json → Json
  unfolding available_units set
  with_units definition (some (obj units)) =
      obj (set "units" (obj (available_units units)) definition)
  with_units definition _ = obj definition

  unfoldable pub available_definition : Json → Json
  unfolding with_units find
  available_definition (obj definition) = with_units definition (find "units" definition)
  available_definition x = x

  unfoldable pub available_definitions : Fields → Fields
  unfolding available_definition
  available_definitions end = end
  available_definitions (field tag x d) =
      field tag (available_definition x) (available_definitions d)

  unfoldable pub available_taxonomy : Json → Json
  unfolding available_definitions
  available_taxonomy (obj definitions) = obj (available_definitions definitions)
  available_taxonomy x = x

  unfoldable pub restrict_to_available : Fields → Fields
  unfolding available_taxonomy
  restrict_to_available end = end
  restrict_to_available (field taxonomy x d) =
      field taxonomy (available_taxonomy x) (restrict_to_available d)

-- `d.get(k, {}).get(...)`: a value that is no dict has no `get`.
unfoldable pub dict_or_empty : Option Json → Claimed Fields
dict_or_empty none = ok end
dict_or_empty (some (obj d)) = ok d
dict_or_empty (some _) = err attribute_error

unfoldable pub list_or_none : Option Json → Option (List Json)
list_or_none (some (arr rows)) = some (to_list rows)
list_or_none _ = none

unfoldable pub rows_in : String → Option Json → Claimed (Option (List Json))
unfolding dict_or_empty list_or_none find
rows_in unit (some (obj body)) = do
  units ← dict_or_empty (find "units" body)
  ok (list_or_none (find unit units))
rows_in unit _ = ok none

-- `facts[taxonomy][concept]["units"][unit]`
unfoldable pub rows_at : String → String → String → Fields → Claimed (Option (List Json))
unfolding rows_in dict_or_empty find
rows_at taxonomy concept unit facts = do
  definitions ← dict_or_empty (find taxonomy facts)
  rows_in unit (find concept definitions)
