-- ===== src/EquityClaims/Available.antt =====
-- equity_claims.py: what is known of the fact that stands behind a claim.
use zion_terminal.Base.{
  ℕ, Bool, true, Option, none, some, List, [], ◌∷◌, String, ◌≡◌, refl, sym, All, keep, str_eq,
  str_eq_iff, leb, Bool-cases, inl, inr,
}
use zion_terminal.Base.Int.{ℤ}
use zion_terminal.Base.Result.{ok, err, ◌>>=◌, >>=-eq-ok, ok_injective, otherwise}
use zion_terminal.Base.Json.{
  Json, null, bool, num, obj, arr, str, Items, nil, cons, to_list, Fields, end, field,
}
use zion_terminal.EquityClaims.Facts.{
  Reader, Claimed, find, set, is_available, available_rows, available_list, available_units,
  with_units, available_definition, available_definitions, available_taxonomy,
  restrict_to_available, dict_or_empty, list_or_none, rows_in, rows_at, overflow_error,
  attribute_error,
}
use zion_terminal.EquityClaims.Selection.{is_eligible, in_time, eligible, max_age_days}

-- The kept elements keep what held of them, and pass the test.
All-keep_both :
    {A : Type 0} (p : A → Bool) (P : A → Type 0) (xs : List A)
    → All P xs
    → All (λ x. P x × (p x ≡ true)) (keep p xs)
All-keep_both p P [] h = tt
All-keep_both p P (x ∷ xs) h = elim (Bool-cases (p x)) [
  | inl e ↦ rw e ((h.0, e), All-keep_both p P xs h.1)
  | inr e ↦ rw e (All-keep_both p P xs h.1)
]

module _ (R : Reader) (cutoff : ℤ) where
  abbrev pub Available : Json → Type 0
  Available row = is_available R cutoff row ≡ true

  available_rows-Available : (rows : Items) → All Available (to_list (available_rows R cutoff rows))
  unfolding available_rows
  available_rows-Available nil = tt
  available_rows-Available (cons row rows) = elim (Bool-cases (is_available R cutoff row)) [
    | inl e ↦ rw e (e, available_rows-Available rows)
    | inr e ↦ rw e (available_rows-Available rows)
  ]

  image : (Json → Json) → Option Json → Option Json
  image f none = none
  image f (some x) = some (f x)

  -- Looking up a key commutes with the restriction of every entry.
  find-available_definitions :
      (tag : String) (d : Fields)
      → find tag (available_definitions R cutoff d)
        ≡ image (available_definition R cutoff) (find tag d)
  unfolding find available_definitions image
  find-available_definitions tag end = refl
  find-available_definitions tag (field j x d) = elim (Bool-cases (str_eq j tag)) [
    | inl e ↦ rw e refl
    | inr e ↦ rw e (find-available_definitions tag d)
  ]

  find-restrict_to_available :
      (taxonomy : String) (d : Fields)
      → find taxonomy (restrict_to_available R cutoff d)
        ≡ image (available_taxonomy R cutoff) (find taxonomy d)
  unfolding find restrict_to_available image
  find-restrict_to_available taxonomy end = refl
  find-restrict_to_available taxonomy (field j x d) = elim (Bool-cases (str_eq j taxonomy)) [
    | inl e ↦ rw e refl
    | inr e ↦ rw e (find-restrict_to_available taxonomy d)
  ]

  find-available_units :
      (unit : String) (d : Fields)
      → find unit (available_units R cutoff d) ≡ image (available_list R cutoff) (find unit d)
  unfolding find available_units image
  find-available_units unit end = refl
  find-available_units unit (field j x d) = elim (Bool-cases (str_eq j unit)) [
    | inl e ↦ rw e refl
    | inr e ↦ rw e (find-available_units unit d)
  ]

  find-set : (k : String) (v : Json) (d : Fields) → find k (set k v d) ≡ some v
  unfolding find set
  find-set k v end = rw ((str_eq_iff k k).1 refl) refl
  find-set k v (field j w d) = elim (Bool-cases (str_eq j k)) [
    | inl e ↦ rw e (rw e refl)
    | inr e ↦ rw e (rw e (find-set k v d))
  ]

  -- The rows of a list that was restricted.
  AreAvailable : Option (List Json) → Type 0
  AreAvailable none = Unit
  AreAvailable (some rows) = All Available rows

  listed-AreAvailable :
      (x : Option Json) → AreAvailable (list_or_none (image (available_list R cutoff) x))
  unfolding AreAvailable list_or_none image available_list
  listed-AreAvailable none = tt
  listed-AreAvailable (some (arr rows)) = available_rows-Available rows
  listed-AreAvailable (some _) = tt

  refused :
      {A : Type 0} (rows : Option (List Json))
      → ◌≡◌ {A = Claimed (Option (List Json))} (err attribute_error) (ok rows)
      → A
  refused rows k = cc

  -- The rows of a definition whose units were restricted, if it has any.
  with_units-AreAvailable :
      (unit : String) (d : Fields) (u : Option Json) (rows : Option (List Json))
      → find "units" d ≡ u
      → rows_in unit (some (with_units R cutoff d u)) ≡ ok rows
      → AreAvailable rows
  unfolding AreAvailable rows_in with_units dict_or_empty
  with_units-AreAvailable unit d (some (obj units)) rows e h =
      rw
        (sym (
          ok_injective (
            rw
              (
                find-set "units" (obj (available_units R cutoff units)) d,
                find-available_units unit units,
              )
              at h)))
        (listed-AreAvailable (find unit units))
  with_units-AreAvailable unit d none rows e h = rw (sym (ok_injective (rw e at h))) tt
  with_units-AreAvailable unit d (some null) rows e h = refused rows (rw e at h)
  with_units-AreAvailable unit d (some (bool x)) rows e h = refused rows (rw e at h)
  with_units-AreAvailable unit d (some (num x)) rows e h = refused rows (rw e at h)
  with_units-AreAvailable unit d (some (str x)) rows e h = refused rows (rw e at h)
  with_units-AreAvailable unit d (some (arr x)) rows e h = refused rows (rw e at h)

  rows_in-AreAvailable :
      (unit : String) (x : Option Json) (rows : Option (List Json))
      → rows_in unit (image (available_definition R cutoff) x) ≡ ok rows
      → AreAvailable rows
  unfolding AreAvailable image rows_in available_definition with_units
  rows_in-AreAvailable unit none rows h = rw (sym (ok_injective h)) tt
  rows_in-AreAvailable unit (some (obj d)) rows h =
      with_units-AreAvailable unit d (find "units" d) rows refl h
  rows_in-AreAvailable unit (some _) rows h = rw (sym (ok_injective h)) tt

  in_taxonomy-AreAvailable :
      (concept unit : String) (x : Option Json) (rows : Option (List Json))
      → (dict_or_empty (image (available_taxonomy R cutoff) x) >>= λ d.
          rows_in unit (find concept d))
        ≡ ok rows
      → AreAvailable rows
  unfolding AreAvailable image dict_or_empty available_taxonomy rows_in find
  in_taxonomy-AreAvailable concept unit none rows h = rw (sym (ok_injective h)) tt
  in_taxonomy-AreAvailable concept unit (some (obj d)) rows h =
      rows_in-AreAvailable unit (find concept d) rows
        (rw (find-available_definitions concept d) at h)
  in_taxonomy-AreAvailable concept unit (some _) rows h = refused rows h

  rows_at-AreAvailable :
      (taxonomy concept unit : String) (facts : Fields) (rows : Option (List Json))
      → rows_at taxonomy concept unit (restrict_to_available R cutoff facts) ≡ ok rows
      → AreAvailable rows
  unfolding rows_at
  rows_at-AreAvailable taxonomy concept unit facts rows h =
      in_taxonomy-AreAvailable concept unit (find taxonomy facts) rows
        (rw (find-restrict_to_available taxonomy facts) at h)

  -- Every eligible row of the restricted facts was available, and lies in the window.
  pub eligible-All :
      (valuation : ℕ) (taxonomy concept unit : String) (facts : Fields) (rows : List Json)
      → eligible R valuation taxonomy concept unit (restrict_to_available R cutoff facts) ≡ ok rows
      → All (λ row. Available row × (is_eligible R valuation row ≡ true)) rows
  unfolding eligible in_time AreAvailable
  eligible-All valuation taxonomy concept unit facts rows h =
      let (found, f, k) =
        >>=-eq-ok (rows_at taxonomy concept unit (restrict_to_available R cutoff facts)) _ h in
      kept found (rows_at-AreAvailable taxonomy concept unit facts found f) k
    where
      kept :
          (found : Option (List Json))
          → AreAvailable found
          → in_time R valuation found ≡ ok rows
          → All (λ row. Available row × (is_eligible R valuation row ≡ true)) rows
      kept none known k = rw (sym (ok_injective k)) tt
      kept (some xs) known k =
          let (_, l) = otherwise (leb valuation max_age_days) overflow_error _ k in
          rw (sym (ok_injective l)) (All-keep_both (is_eligible R valuation) Available xs known)
