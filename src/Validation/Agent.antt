-- ===== src/Validation/Agent.antt =====
-- agents/validation/agent.py: the checks on a retrieval result and on a synthesis result, and the
-- summary of a list of checks.
use zion_terminal.Base.{
  ℕ, ◌+◌, ◌*◌, Bool, true, false, Option, none, some, List, [], ◌∷◌, ◌++◌, String, map, ltb, ◌==◌,
  if◌then◌else◌, length, keep, count_if, str_eq,
}
use zion_terminal.Base.Result.{ok, err, ◌>>=◌}
use zion_terminal.Base.Int.{ℤ, leb_ℤ, eq_ℤ}
use zion_terminal.Base.Json.{
  Json, Fields, str, arr, obj, end, field, cons, int, get, truthy, or_else, number?, is_str,
  to_list,
}
use zion_terminal.Base.Sorting.{in_order}
use zion_terminal.Base.Texts.{str_leb}
use zion_terminal.Models.Responses.{
  ValidationStatus, passed, failed, warning, filled, ValidationCheck, ValidationResult,
  RetrievalResult,
}
use zion_terminal.Validation.Checks.{
  type_error, Checked, check, present, dict, check_source, check_price, check_volume,
  check_income_math, check_balance_identity, check_scale_plausibility,
}

-- `[dp.get("date", "") for dp in data_points if dp.get("date")]`
unfoldable pub dates : List Json → Checked (List Json)
dates [] = ok []
dates (p ∷ ps) = do
  d ← dict p
  rest ← dates ps
  ok (if truthy (get "date" d) then get "date" d ∷ rest else rest)

-- Every date as a text, if every one is.
unfoldable pub texts : List Json → Option (List String)
texts [] = some []
texts (str s ∷ xs) = elim (texts xs) [ none ↦ none | some ss ↦ some (s ∷ ss) ]
texts (_ ∷ xs) = none

unfoldable pub numbers : List Json → Option (List ℤ)
numbers [] = some []
numbers (x ∷ xs) = elim (number? x) [
  | none ↦ none
  | some z ↦ elim (numbers xs) [ none ↦ none | some zs ↦ some (z ∷ zs) ]
]

-- `dates == sorted(dates)`. Texts compare with texts and numbers with numbers; `sorted` raises a
-- TypeError on any other two values. (Dates that are lists are taken to be of that kind too.)
unfoldable pub chronological : List Json → Checked Bool
unfolding texts numbers in_order
chronological [] = ok true
chronological (x ∷ []) = ok true
chronological xs = elim (texts xs) [
  | some ss ↦ ok (in_order str_leb str_eq ss)
  | none ↦ elim (numbers xs) [ some zs ↦ ok (in_order leb_ℤ eq_ℤ zs) | none ↦ err type_error ]
]

unfoldable pub order_check : ℕ → ℕ → Bool → List ValidationCheck
order_check i n ordered =
    if ordered
    then check "chronological_order" passed
        (filled "item[{i}]: {len(dates)} points in order" (int i ∷ int n ∷ []))
        (filled "item[{i}].data_points" (int i ∷ []))
      ∷ []
    else check "chronological_order" warning
        (filled "item[{i}]: data points not chronologically sorted" (int i ∷ []))
        (filled "item[{i}].data_points" (int i ∷ []))
      ∷ []

-- The order of the data points, when there are at least two.
unfoldable pub check_order : ℕ → Json → Checked (List ValidationCheck)
unfolding dates chronological order_check
check_order i (arr (cons p (cons q ps))) = do
  ds ← dates (to_list (cons p (cons q ps)))
  ordered ← chronological ds
  ok (order_check i (length ds) ordered)
check_order i _ = ok []

-- The dict of line items, if it is a non-empty dict.
unfoldable pub check_line_items : ℕ → Json → List ValidationCheck
check_line_items i (obj (field k v li)) = check_scale_plausibility i (field k v li)
check_line_items i _ = []

unfoldable pub check_type : ℕ → Fields → List ValidationCheck
check_type i item =
    let data_type : Json = or_else (get "type" item) (get "statement_type" item) in
    if truthy data_type
    then check "has_type_field" passed
        (filled "item[{i}]: type={data_type}" (int i ∷ data_type ∷ []))
        (filled "item[{i}].type" (int i ∷ []))
      ∷ []
    else []

abbrev pub when : Bool → Checked (List ValidationCheck) → Checked (List ValidationCheck)
when b m = if b then m else ok []

-- The checks on a non-empty item, in the order in which they are appended.
unfoldable pub item_checks :
    ℕ
    → Fields
    → List ValidationCheck
    → List ValidationCheck
    → List ValidationCheck
    → List ValidationCheck
item_checks i item income balance order =
    present i
    ∷ (check_source i item
        ++ (check_price i item
            ++ (check_volume i item
                ++ (income
                    ++ (balance
                        ++ (check_line_items i (get "line_items" item)
                            ++ (order ++ check_type i item)))))))

unfoldable pub check_item : ℕ → Fields → Checked (List ValidationCheck)
unfolding check_line_items check_order check_type item_checks
check_item i item = do
  income ← when (is_str (get "statement_type" item) "income_statement") (check_income_math i item)
  balance ←
      when (is_str (get "statement_type" item) "balance_sheet") (check_balance_identity i item)
  order ← check_order i (get "data_points" item)
  ok (item_checks i item income balance order)

-- One round of the loop over the items.
unfoldable pub validate_item : ℕ → Fields → Checked (List ValidationCheck)
unfolding check_item
validate_item i end = ok (
    check "non_empty" failed (filled "item[{i}]: empty data item" (int i ∷ []))
      (filled "item[{i}]" (int i ∷ []))
    ∷ [])
validate_item i (field k v rest) = check_item i (field k v rest)

unfoldable pub validate_items : ℕ → List Fields → Checked (List ValidationCheck)
unfolding validate_item
validate_items i [] = ok []
validate_items i (item ∷ items) = do
  first ← validate_item i item
  rest ← validate_items (i + 1) items
  ok (first ++ rest)

abbrev pub has_status : ValidationStatus → ValidationCheck → Bool
has_status passed c = elim c.status [ passed ↦ true | failed ↦ false | warning ↦ false ]
has_status failed c = elim c.status [ passed ↦ false | failed ↦ true | warning ↦ false ]
has_status warning c = elim c.status [ passed ↦ false | failed ↦ false | warning ↦ true ]

-- The overall status from the numbers of checks; `failed < len(checks) / 2` is exact division.
unfoldable pub overall_status : ℕ → ℕ → ℕ → ValidationStatus
overall_status total warned failures =
    if ltb 0 failures
    then (if ltb (2 * failures) total then warning else failed)
    else if ltb 0 warned
    then warning
    else passed

-- `_build_result`
unfoldable pub build_result : List ValidationCheck → ValidationResult
unfolding overall_status
build_result checks =
    let warned = count_if (has_status warning) checks in
    let failures = count_if (has_status failed) checks in
    record {
      success = failures == 0;
      status = overall_status (length checks) warned failures;
      checks_run = length checks;
      checks_passed = count_if (has_status passed) checks;
      checks_warned = warned;
      checks_failed = failures;
      details = checks;
      warnings = map (λ c. c.message) (keep (has_status warning) checks);
    }

-- `validate_retrieval`
unfoldable pub validate_retrieval : RetrievalResult → Checked ValidationResult
unfolding validate_items build_result
validate_retrieval result = do checks ← validate_items 0 result.items; ok (build_result checks)
