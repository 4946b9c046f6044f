-- ===== src/Validation/Checks.antt =====
-- agents/validation/agent.py: the single checks on one retrieved item. Arithmetic on a value that
-- is no number raises a TypeError, and `get` on a value that is no dict an AttributeError.
use zion_terminal.Base.{
  ℕ, ◌*◌, Bool, false, ◌&&◌, Option, none, some, List, [], ◌∷◌, ◌++◌, String, ltb, leb,
  if◌then◌else◌,
}
use zion_terminal.Base.Result.{Result, ok, err, ◌>>=◌}
use zion_terminal.Base.Int.{ℤ, pos, ◌+ℤ◌, ◌-ℤ◌, ltb_ℤ, leb_ℤ, eq_ℤ, abs}
use zion_terminal.Base.Json.{
  Json, Fields, null, num, str, obj, one, int, get, truthy, or_else, is_set, number?,
}
use zion_terminal.Models.Responses.{
  ValidationStatus, passed, failed, warning, Text, filled, ValidationCheck,
}

pub data Exception : Type 0 where
  type_error attribute_error : Exception

abbrev pub Checked : Type 0 → Type 0
Checked A = Result Exception A

abbrev pub check : String → ValidationStatus → Text → Text → ValidationCheck
check name status message location = record {
  check_name = name;
  status = status;
  message = message;
  location = location;
  expected = null;
  actual = null;
}

-- The number that arithmetic reads, or the TypeError that it raises.
abbrev pub number : Json → Checked ℤ
number x = elim (number? x) [ none ↦ err type_error | some z ↦ ok z ]

-- `x.get`: only a dict has it.
abbrev pub dict : Json → Checked Fields
dict (obj d) = ok d
dict _ = err attribute_error

-- The check that item `i` is not empty, when it is not.
abbrev pub present : ℕ → ValidationCheck
present i =
    check "non_empty" passed (filled "item[{i}]: data present" (int i ∷ []))
      (filled "item[{i}]" (int i ∷ []))

-- The source attribution of item `i`.
unfoldable pub check_source : ℕ → Fields → List ValidationCheck
check_source i item =
    if truthy (get "source" item)
    then check "source_attribution" passed
        (filled "item[{i}]: source={source}" (int i ∷ get "source" item ∷ []))
        (filled "item[{i}].source" (int i ∷ []))
      ∷ []
    else check "source_attribution" failed (filled "item[{i}]: missing source field" (int i ∷ []))
        (filled "item[{i}].source" (int i ∷ []))
      ∷ []

-- `isinstance(price, (int, float)) and 0 < price < 1_000_000`
abbrev pub in_bounds : Option ℤ → Bool
in_bounds none = false
in_bounds (some z) = ltb_ℤ (pos 0) z && ltb_ℤ z (pos (1000000 * one))

-- The check on a price that is not None.
unfoldable pub price_check : ℕ → Json → Bool → List ValidationCheck
price_check i price within =
    if within
    then check "price_bounds" passed
        (filled "item[{i}]: price={price} within bounds" (int i ∷ price ∷ []))
        (filled "item[{i}].price" (int i ∷ []))
      ∷ []
    else record {
      check_name = "price_bounds";
      status = failed;
      message = filled "item[{i}]: price={price} outside [0, 1M]" (int i ∷ price ∷ []);
      location = filled "item[{i}].price" (int i ∷ []);
      expected = str "0 < price < 1,000,000";
      actual = price;
    }
      ∷ []

-- The price bounds of item `i`.
unfoldable pub check_price : ℕ → Fields → List ValidationCheck
unfolding price_check
check_price i item =
    let price : Json = or_else (get "price" item) (get "close" item) in
    if is_set price then price_check i price (in_bounds (number? price)) else []

-- The sign of the volume of item `i`.
unfoldable pub check_volume_number : ℕ → Json → Option ℤ → List ValidationCheck
check_volume_number i volume none = []
check_volume_number i volume (some z) =
    if leb_ℤ (pos 0) z
    then check "volume_non_negative" passed
        (filled "item[{i}]: volume={volume}" (int i ∷ volume ∷ []))
        (filled "item[{i}].volume" (int i ∷ []))
      ∷ []
    else record {
      check_name = "volume_non_negative";
      status = failed;
      message = filled "item[{i}]: negative volume={volume}" (int i ∷ volume ∷ []);
      location = filled "item[{i}].volume" (int i ∷ []);
      expected = str ">=0";
      actual = volume;
    }
      ∷ []

unfoldable pub check_volume : ℕ → Fields → List ValidationCheck
unfolding check_volume_number
check_volume i item = check_volume_number i (get "volume" item) (number? (get "volume" item))

-- Gross profit against revenue minus cost: a mismatch of more than one percent of the revenue is a
-- warning.
unfoldable pub income_check : ℕ → Json → ℤ → ℤ → ℤ → List ValidationCheck
income_check i gp expected r g =
    if leb (abs (expected -ℤ g) * 100) (abs r)
    then check "income_math" passed (filled "item[{i}]: gross profit consistent" (int i ∷ []))
        (filled "item[{i}].line_items" (int i ∷ []))
      ∷ []
    else record {
      check_name = "income_math";
      status = warning;
      message =
          filled "item[{i}]: gross profit mismatch ({expected} vs {gp})"
            (int i ∷ num expected ∷ gp ∷ []);
      location = filled "item[{i}].line_items" (int i ∷ []);
      expected = num expected;
      actual = gp;
    }
      ∷ []

-- `_check_income_math` on the three line items.
unfoldable pub compare_income : ℕ → Json → Json → Json → Checked (List ValidationCheck)
unfolding income_check
compare_income i revenue cogs gp =
    if is_set revenue && (is_set cogs && is_set gp)
    then (do
      r ← number revenue
      c ← number cogs
      g ← number gp
      ok (income_check i gp (r -ℤ c) r g))
    else ok []

-- The value of the first key that is truthy, else the value of the second.
abbrev pub either_key : String → String → Fields → Json
either_key j k li = or_else (get j li) (get k li)

-- `_check_income_math`
unfoldable pub check_income_math : ℕ → Fields → Checked (List ValidationCheck)
unfolding compare_income
check_income_math i item =
    if truthy (get "line_items" item)
    then (do
      li ← dict (get "line_items" item)
      compare_income i (either_key "Total Revenue" "total_revenue" li)
          (either_key "Cost Of Revenue" "cost_of_revenue" li)
          (either_key "Gross Profit" "gross_profit" li))
    else ok []

-- Assets against liabilities plus equity: they may differ by one percent of the assets, or by 1 if
-- the assets are 0.
unfoldable pub balance_check : ℕ → Json → Json → Json → ℤ → ℤ → List ValidationCheck
balance_check i assets liabilities equity a expected =
    if leb (abs (a -ℤ expected) * 100) (if eq_ℤ a (pos 0) then 100 * one else abs a)
    then check "balance_identity" passed (filled "item[{i}]: A = L + E" (int i ∷ []))
        (filled "item[{i}].line_items" (int i ∷ []))
      ∷ []
    else record {
      check_name = "balance_identity";
      status = warning;
      message =
          filled "item[{i}]: A({assets}) != L({liabilities}) + E({equity})"
            (int i ∷ assets ∷ liabilities ∷ equity ∷ []);
      location = filled "item[{i}].line_items" (int i ∷ []);
      expected = num expected;
      actual = assets;
    }
      ∷ []

-- `_check_balance_identity` on the three line items.
unfoldable pub compare_balance : ℕ → Json → Json → Json → Checked (List ValidationCheck)
unfolding balance_check
compare_balance i assets liabilities equity =
    if is_set assets && (is_set liabilities && is_set equity)
    then (do
      l ← number liabilities
      e ← number equity
      a ← number assets
      ok (balance_check i assets liabilities equity a (l +ℤ e)))
    else ok []

-- `_check_balance_identity`
unfoldable pub check_balance_identity : ℕ → Fields → Checked (List ValidationCheck)
unfolding compare_balance
check_balance_identity i item =
    if truthy (get "line_items" item)
    then (do
      li ← dict (get "line_items" item)
      compare_balance i (either_key "Total Assets" "total_assets" li)
          (either_key "Total Liabilities" "total_liabilities" li)
          (or_else (either_key "Total Equity" "total_equity" li)
            (get "Total Stockholders Equity" li)))
    else ok []

-- The first of the keys that is not None.
abbrev pub first_set : List String → Fields → Json
first_set [] li = null
first_set (k ∷ ks) li = if is_set (get k li) then get k li else first_set ks li

unfoldable pub check_scale : ℕ → Json → Option ℤ → List ValidationCheck
check_scale i revenue none = []
check_scale i revenue (some r) =
    (if ltb 0 (abs r) && ltb (abs r) (1000 * one)
      then check "scale_plausibility" warning
          (filled "item[{i}]: revenue={revenue} — may be in millions/billions"
            (int i ∷ revenue ∷ []))
          (filled "item[{i}].line_items" (int i ∷ []))
        ∷ []
      else check "scale_plausibility" passed
          (filled "item[{i}]: revenue scale plausible" (int i ∷ []))
          (filled "item[{i}].line_items" (int i ∷ []))
        ∷ [])
    ++ (if ltb_ℤ r (pos 0)
        then check "sign_plausibility" warning
            (filled "item[{i}]: negative revenue={revenue}" (int i ∷ revenue ∷ []))
            (filled "item[{i}].line_items" (int i ∷ []))
          ∷ []
        else [])

-- The revenue under the first of its names that is present.
abbrev pub revenue_of : Fields → Json
revenue_of li = first_set ("Total Revenue" ∷ "total_revenue" ∷ "Revenue" ∷ "Revenues" ∷ []) li

-- `_check_scale_plausibility`, on the dict of line items
unfoldable pub check_scale_plausibility : ℕ → Fields → List ValidationCheck
unfolding check_scale
check_scale_plausibility i li = check_scale i (revenue_of li) (number? (revenue_of li))
