-- ===== src/Validation/Soundness.antt =====
-- Which items make the validation of a retrieval fail: the checks that can fail are those on the
-- presence of data, the source, the price and the volume. Everything else at most warns.
use zion_terminal.Base.{
  ℕ, ◌+◌, ◌≡◌, ◌≢◌, refl, ◌↔◌, inl, inr, true, List, [], ◌∷◌, ◌++◌, All, All-append,
  All-append_split, Bool-cases,
}
use mathlib.Core.Path.{subst, sym}
use zion_terminal.Base.Result.{ok, >>=-eq-ok, bind_three-eq-ok, ok_injective}
use zion_terminal.Base.Json.{
  Json, Fields, end, field, get, truthy, or_else, is_set, number?, is_str, obj,
}
use zion_terminal.Models.Responses.{failed, ValidationCheck, RetrievalResult, ValidationResult}
use zion_terminal.Validation.Checks.{
  present, revenue_of, check_source, check_price, check_volume, check_income_math,
  check_balance_identity, check_scale_plausibility, in_bounds,
}
use zion_terminal.Validation.Agent.{
  check_line_items, check_order, check_type, item_checks, check_item, validate_item, validate_items,
  validate_retrieval, build_result, when,
}
use zion_terminal.Validation.Summary.{NoneFailed, build_result_lem}
use zion_terminal.Validation.ItemChecks.{
  safe_rules, PriceSound, Safe, Safe-when, Sound, VolumeSound, check_order-Safe,
  compare_balance-Safe, compare_income-Safe, in_bounds_iff, optional, passed_ne, scale-NoneFailed,
  volume_number_iff,
}

module _ (i : ℕ) (item : Fields) where
  source_iff : NoneFailed (check_source i item) ↔ (truthy (get "source" item) ≡ true)
  unfolding check_source
  source_iff = elim (Bool-cases (truthy (get "source" item))) [
    | inl e ↦ rw e (λ h. refl, λ h. ((λ f. cc), tt))
    | inr e ↦ rw e (λ h. absurd (h.0 refl), λ h. cc)
  ]

  price_iff :
      NoneFailed (check_price i item) ↔ PriceSound (or_else (get "price" item) (get "close" item))
  unfolding check_price
  price_iff =
      let price : Json = or_else (get "price" item) (get "close" item) in
      elim (Bool-cases (is_set price)) [
        | inl e ↦ rw e (elim (Bool-cases (in_bounds (number? price))) [
          | inl b ↦ rw b (λ h s. (in_bounds_iff (number? price)).0 b, λ h. ((λ f. cc), tt))
          | inr b ↦ rw b (
            λ h. absurd (h.0 refl),
            λ h. let bad = (in_bounds_iff (number? price)).1 (h refl) in cc,
          )
        ])
        | inr e ↦ rw e (λ h s. cc, λ h. tt)
      ]

  volume_iff : NoneFailed (check_volume i item) ↔ VolumeSound (get "volume" item)
  unfolding check_volume
  volume_iff = volume_number_iff i (get "volume" item) (number? (get "volume" item))

  income-Safe : Safe (check_income_math i item)
  unfolding check_income_math
  income-Safe = search (safe_rules, compare_income-Safe)

  balance-Safe : Safe (check_balance_identity i item)
  unfolding check_balance_identity
  balance-Safe = search (safe_rules, compare_balance-Safe)

  type-NoneFailed : NoneFailed (check_type i item)
  unfolding check_type
  type-NoneFailed = optional _ _ (λ f. cc)

  line_items-NoneFailed : (x : Json) → NoneFailed (check_line_items i x)
  unfolding check_line_items check_scale_plausibility
  line_items-NoneFailed (obj (field k v li)) =
      let revenue = revenue_of (field k v li) in scale-NoneFailed i revenue (number? revenue)
  line_items-NoneFailed _ = tt

none_append : (xs ys : List ValidationCheck) → NoneFailed xs → NoneFailed ys → NoneFailed (xs ++ ys)
none_append xs ys = All-append (λ c. c.status ≢ failed) xs ys

none_split : (xs ys : List ValidationCheck) → NoneFailed (xs ++ ys) → NoneFailed xs × NoneFailed ys
none_split xs ys = All-append_split (λ c. c.status ≢ failed) xs ys

parts_iff :
    (c : ValidationCheck) (s p v rest : List ValidationCheck)
    → c.status ≢ failed
    → NoneFailed rest
    → NoneFailed (c ∷ (s ++ (p ++ (v ++ rest)))) ↔ (NoneFailed s × NoneFailed p × NoneFailed v)
parts_iff c s p v rest hc hr = (
  λ h.
      let a = none_split s (p ++ (v ++ rest)) h.1 in
      let b = none_split p (v ++ rest) a.1 in (a.0, b.0, (none_split v rest b.1).0),
  λ h. (
    hc,
    none_append s (p ++ (v ++ rest)) h.0
        (none_append p (v ++ rest) h.1 (none_append v rest h.2 hr)),
  ),
)

module _ (i : ℕ) (item : Fields) (cs : List ValidationCheck) where
  check_item_iff :
      check_item i item ≡ ok cs
      → NoneFailed cs ↔ (
          (truthy (get "source" item) ≡ true)
          × PriceSound (or_else (get "price" item) (get "close" item))
          × VolumeSound (get "volume" item))
  unfolding check_item item_checks
  check_item_iff h =
      let (income, balance, order, hi, hb, ho, same) =
        bind_three-eq-ok
          (when (is_str (get "statement_type" item) "income_statement") (check_income_math i item))
          (when (is_str (get "statement_type" item) "balance_sheet")
            (check_balance_identity i item))
          (check_order i (get "data_points" item)) (item_checks i item) h in
      let items = check_line_items i (get "line_items" item) in
      let kind = check_type i item in
      let none_in_order = (check_order-Safe i (get "data_points" item)).returned order ho in
      let none_in_income =
        (Safe-when (is_str (get "statement_type" item) "income_statement")
            (check_income_math i item) (income-Safe i item)).returned
          income hi in
      let none_in_balance =
        (Safe-when (is_str (get "statement_type" item) "balance_sheet")
            (check_balance_identity i item) (balance-Safe i item)).returned
          balance hb in
      let none_in_items = line_items-NoneFailed i item (get "line_items" item) in
      let safe = none_append income (balance ++ (items ++ (order ++ kind))) none_in_income (
        none_append balance (items ++ (order ++ kind)) none_in_balance (
          none_append items (order ++ kind) none_in_items
            (none_append order kind none_in_order (type-NoneFailed i item)))) in
      let parts =
        parts_iff (present i) (check_source i item) (check_price i item) (check_volume i item)
          (income ++ (balance ++ (items ++ (order ++ kind)))) passed_ne safe in
      subst
        (λ ds. NoneFailed ds ↔ (
          (truthy (get "source" item) ≡ true)
          × PriceSound (or_else (get "price" item) (get "close" item))
          × VolumeSound (get "volume" item)))
        same
        (
          (λ n.
              let m = parts.0 n in
              ((source_iff i item).0 m.0, (price_iff i item).0 m.1, (volume_iff i item).0 m.2)),
          (λ n.
              parts.1
                ((source_iff i item).1 n.0, (price_iff i item).1 n.1, (volume_iff i item).1 n.2)),
        )

-- One item, whatever its position.
validate_item_iff :
    (i : ℕ) (item : Fields) (cs : List ValidationCheck)
    → validate_item i item ≡ ok cs
    → NoneFailed cs ↔ Sound item
unfolding validate_item
validate_item_iff i end cs h =
    (λ n. absurd ((subst NoneFailed (sym (ok_injective h)) n).0 refl), λ s. absurd (s.0 refl))
validate_item_iff i (field k v d) cs h =
    let r = check_item_iff i (field k v d) cs h in
    (λ n. ((λ e. cc), (r.0 n).0, (r.0 n).1, (r.0 n).2), λ s. r.1 (s.1, s.2, s.3))

validate_items_iff :
    (i : ℕ) (items : List Fields) (cs : List ValidationCheck)
    → validate_items i items ≡ ok cs
    → NoneFailed cs ↔ All Sound items
unfolding validate_items
validate_items_iff i [] cs h = (λ n. tt, λ s. subst NoneFailed (ok_injective h) tt)
validate_items_iff i (item ∷ items) cs h =
    let (first, hf, h1) = >>=-eq-ok _ _ h in
    let (rest, hr, h2) = >>=-eq-ok _ _ h1 in
    let one = validate_item_iff i item first hf in
    let others = validate_items_iff (i + 1) items rest hr in
    (
      λ n.
          let parts = none_split first rest (subst NoneFailed (sym (ok_injective h2)) n) in
          (one.0 parts.0, others.0 parts.1),
      λ s. subst NoneFailed (ok_injective h2) (none_append first rest (one.1 s.0) (others.1 s.1)),
    )

-- A validation of a retrieval result that returns is a success exactly when every item is sound:
-- it has some field, a truthy source, no negative volume, and its tested price, which is the price, or
-- the close where the price is falsy, is a number above 0 and below one million if it is set. So a price
-- of 0 without a close is not tested, nor a close beside a truthy price. Line items, the order of the
-- data points and the type never make it fail.
pub validate_retrieval-success :
    (result : RetrievalResult) {v : ValidationResult}
    → validate_retrieval result ≡ ok v
    → (v.success ≡ true) ↔ All Sound result.items
unfolding validate_retrieval
validate_retrieval-success result {v} h =
    let (cs, hc, h1) = >>=-eq-ok _ _ h in
    let items = validate_items_iff 0 result.items cs hc in
    let built = (build_result_lem cs).4 in
    let same : build_result cs ≡ v = ok_injective h1 in
    subst (λ (w : ValidationResult). (w.success ≡ true) ↔ All Sound result.items) same
      ((λ s. items.0 (built.0 s)), (λ s. built.1 (items.1 s)))
