-- ===== src/HistoryStore/Stored.antt =====
-- history_store.py: the object and the entry of every series of a release.
use zion_terminal.Base.{
  ◌+◌, Bool, false, not, some, List, [], ◌∷◌, String, ◌≡◌, ◌≢◌, refl, sym, ◌∙◌, arith, All, In,
  In-append_left, In-append_right, All-In, length, count_if, is_some, ltb, get_last?, str_eq,
  str_eq_iff, Bool-cases, inl, inr,
}
use zion_terminal.Base.Dict.{Dict, lookup, lookup→In, lookup-put, lookup-put_same}
use zion_terminal.Base.Result.{ok, >>=-eq-ok, ok_injective, otherwise}
use zion_terminal.Base.Sorting.{sorted, In-sorted, Pairwise, sorted-Pairwise}
use zion_terminal.HistoryStore.Files.{max_object}
use zion_terminal.HistoryStore.Series.{Item, Series, Spec, rows_of, object_budget}
use zion_terminal.HistoryStore.Release.{
  Objects, add_object, add_objects, objects_of, by_name, entry_of, day_of, first_of, file_of,
}
use zion_terminal.HistoryStore.Manifest.{Writer, Entry, body_json}

count_both :
    {A : Type 0} (p : A → Bool) (xs : List A)
    → count_if p xs + count_if (λ x. not (p x)) xs ≡ length xs
count_both p [] = refl
count_both p (x ∷ xs) = ground (arith, count_both p xs)

module _ (W : Writer) where
  -- The entry of a series, which pins the rows that it stands for and counts their values and gaps.
  abbrev pub Pins : String × Entry → Spec → List Item → Type 0
  Pins named spec rows =
      (named.1.spec ≡ spec)
      × (named.1.sha256 ≡ W.digest (W.encoded (body_json named.0 rows)))
      × (named.1.rows ≡ length rows)
      × (named.1.observations ≡ count_if (λ r. is_some r.value) rows)
      × (named.1.missing ≡ count_if (λ r. not (is_some r.value)) rows)
      × (named.1.observations + named.1.missing ≡ named.1.rows)

  -- The rows of a series stand in the object under the file of its entry.
  abbrev pub IsStored : String × Entry → List Item → Objects W → Type 0
  IsStored named rows o = lookup named.1.file o.bodies ≡ some (W.encoded (body_json named.0 rows))

  -- The files of two series differ.
  abbrev pub Apart : String × Series → String × Series → Type 0
  Apart a b = file_of W a.0 ≢ file_of W b.0

  abbrev pub HasEntry : String × Series → Objects W → Type 0
  HasEntry s o =
      (e : Entry) × In (s.0, e) o.entries
      × Pins (s.0, e) s.1.spec (rows_of s.1.items)
      × (e.file ≡ file_of W s.0)
      × IsStored (s.0, e) (rows_of s.1.items) o

  -- The later state has the earlier entries, and the bodies of the files that no series of the list
  -- has.
  abbrev Grows : List (String × Series) → Objects W → Objects W → Type 0
  Grows ss o next =
      ((e : String × Entry) → In e o.entries → In e next.entries)
      × ((file : String) (body : W.Bytes)
          → All (λ s. file ≢ file_of W s.0) ss
          → lookup file o.bodies ≡ some body
          → lookup file next.bodies ≡ some body)

  add_object-HasEntry :
      (s : String × Series) (o next : Objects W)
      → add_object W s o ≡ ok next
      → HasEntry s next × Grows (s ∷ []) o next
  unfolding add_object entry_of
  add_object-HasEntry (series, s) o next h =
      let rows = rows_of s.items in
      let body = W.encoded (body_json series rows) in
      let new =
        entry_of W series s rows body (day_of W (first_of W rows)) (day_of W (get_last? rows)) in
      let (_, k) = otherwise (ltb max_object (W.size body)) object_budget _ h in
      rw (sym (ok_injective k)) (
        (
          new,
          In-append_right (series, new) o.entries ((series, new) ∷ []) (inl refl),
          (refl, refl, refl, refl, refl, count_both (λ r. is_some r.value) rows),
          refl,
          lookup-put_same (file_of W series) body o.bodies,
        ),
        (
          λ e i. In-append_left e o.entries ((series, new) ∷ []) i,
          λ file old differs found.
              lookup-put file (file_of W series) body o.bodies
              ∙ rw (unequal file (file_of W series) differs.0) found,
        ),
      )
    where
      unequal : (a b : String) → a ≢ b → str_eq a b ≡ false
      unequal a b differs = elim (Bool-cases (str_eq a b)) [
        | inl e ↦ absurd (differs ((str_eq_iff a b).0 e))
        | inr e ↦ e
      ]

  add_objects-HasEntry :
      (ss : List (String × Series)) (o next : Objects W)
      → Pairwise Apart ss
      → add_objects W ss o ≡ ok next
      → All (λ s. HasEntry s next) ss × Grows ss o next
  unfolding add_objects
  add_objects-HasEntry [] o next apart h =
      (tt, rw (sym (ok_injective h)) ((λ e i. i), (λ file body differs found. found)))
  add_objects-HasEntry (s ∷ ss) o next apart h =
      let (middle, first, rest) = >>=-eq-ok (add_object W s o) _ h in
      let ((e, i, pins, file, stored), (before, kept)) = add_object-HasEntry s o middle first in
      let (others, (after, keeps)) = add_objects-HasEntry ss middle next apart.1 rest in
      (
        (
          (
            e,
            after (s.0, e) i,
            pins,
            file,
            keeps e.file (W.encoded (body_json s.0 (rows_of s.1.items))) (rw file apart.0) stored,
          ),
          others,
        ),
        (
          λ f j. after f (before f j),
          λ at body differs found. keeps at body differs.1 (kept at body (differs.0, tt) found),
        ),
      )

  pub objects_of-HasEntry :
      (table : Dict Series) (objects : Objects W) (name : String) (s : Series)
      → Pairwise Apart table
      → objects_of W table ≡ ok objects
      → lookup name table ≡ some s
      → HasEntry (name, s) objects
  unfolding objects_of
  objects_of-HasEntry table objects name s apart h found =
      let inside =
        sorted-Pairwise Apart (λ a b differ same. differ (sym same)) (by_name W) table apart in
      let (all, _) =
        add_objects-HasEntry (sorted (by_name W) table) (record { bodies = []; entries = [] })
          objects inside h in
      All-In (λ x. HasEntry x objects) (name, s) (sorted (by_name W) table) all
        (In-sorted (by_name W) (name, s) table (lookup→In name table found))
