-- ===== src/HistoryStore/Complete.antt =====
-- history_store.py: what a release says of the observations that it was built from.
use zion_terminal.Base.{
  Bool, true, false, some, List, [], ◌∷◌, ◌++◌, map, String, ◌≡◌, refl, sym, ap, ◌∙◌, All, All_map,
  In, In_map, length, is_empty, Bool-cases, inl, inr, if◌then◌else◌,
}
use zion_terminal.Base.Dict.{Dict, lookup, lookup→In}
use zion_terminal.Base.Result.{Result, ok, err, >>=-eq-ok, ok_injective}
use zion_terminal.Base.Json.{Fields, Items}
use zion_terminal.Base.Sorting.{
  sorted, In-sorted, IsSorted, All-sorted, sorted-IsSorted, Pairwise, Pairwise-map,
}
use zion_terminal.Base.Texts.{str_leb, str_leb_total}
use zion_terminal.HistoryStore.Files.{Observation}
use zion_terminal.HistoryStore.Series.{
  Item, Series, add_rows, rows_of, by_day, item_of, spec_of, empty_release, ReleaseError, Released,
}
use zion_terminal.HistoryStore.Names.{Differ, IsNamed, add_rows-names}
use zion_terminal.HistoryStore.Stored.{Pins, IsStored, Apart, objects_of-HasEntry}
use zion_terminal.HistoryStore.Rows.{Kept, add_rows-Kept, add_rows-IsDated}
use zion_terminal.HistoryStore.Release.{
  Objects, file_of, objects_of, published, checked_objects, build_release, Built, manifest_json,
  body_writes,
}
use zion_terminal.HistoryStore.Manifest.{Writer, Entry, Release, total}

-- The days ascend.
abbrev pub DaysAscend : List Item → Type 0
DaysAscend rows = IsSorted (λ a b. str_leb a.day b.day) rows

-- Rows in the order of their keys, under which they stand, are in the order of their days.
ascending :
    (es : List (String × Item))
    → All (λ e. e.1.day ≡ e.0) es
    → IsSorted by_day es
    → DaysAscend (map (λ e. e.1) es)
ascending [] keyed s = tt
ascending (e ∷ []) keyed s = tt
ascending (e ∷ f ∷ es) (k, (l, keyed)) (le, s) = (rw (k, l) le, ascending (f ∷ es) (l, keyed) s)

pub rows_of-DaysAscend :
    (items : Dict Item) → All (λ e. e.1.day ≡ e.0) items → DaysAscend (rows_of items)
unfolding rows_of
rows_of-DaysAscend items keyed =
    ascending (sorted by_day items) (All-sorted by_day (λ e. e.1.day ≡ e.0) items keyed)
      (sorted-IsSorted by_day (λ a b. str_leb_total a.0 b.0) items)

pub rows_of-In :
    (items : Dict Item) (day : String) {item : Item}
    → lookup day items ≡ some item
    → In item (rows_of items)
unfolding rows_of
rows_of-In items day {item} h =
    In_map (λ e. e.1) (day, item) (sorted by_day items)
      (In-sorted by_day (day, item) items (lookup→In day items h))

module _ (W : Writer) where
  -- What a release holds of an observation: the entry of its series, and its object, among whose
  -- rows it stands.
  pub record IsPublished (objects : Objects W) (o : Observation) : Type 0 where
    pub entry : Entry
    pub rows : List Item
    pub named : In (o.row.series_id, entry) objects.entries
    pub pins : Pins W (o.row.series_id, entry) (spec_of o.row) rows
    pub stored : IsStored W (o.row.series_id, entry) rows objects
    pub row : In (item_of o) rows
    pub ascend : DaysAscend rows

  Kept→IsPublished :
      (table : Dict Series) (objects : Objects W) (o : Observation)
      → Pairwise (Apart W) table
      → objects_of W table ≡ ok objects
      → ((name : String) (s : Series)
          → lookup name table ≡ some s
          → All (λ e. e.1.day ≡ e.0) s.items)
      → Kept table o
      → IsPublished objects o
  Kept→IsPublished table objects o apart h dated kept =
      let (e, i, (spec, sha, size, values, gaps, counts), file, stored) =
        objects_of-HasEntry W table objects o.row.series_id kept.series apart h kept.found in
      record {
        entry = e;
        rows = rows_of kept.series.items;
        named = i;
        pins = (spec ∙ kept.spec, sha, size, values, gaps, counts);
        stored = stored;
        row = rows_of-In kept.series.items o.row.observation_date kept.item;
        ascend =
            rows_of-DaysAscend kept.series.items (dated o.row.series_id kept.series kept.found);
      }

  -- Series of the observations whose files are the same are the same.
  abbrev pub Separate : List Observation → Type 0
  Separate os =
      (a b : Observation)
      → In a os
      → In b os
      → file_of W a.row.series_id ≡ file_of W b.row.series_id
      → a.row.series_id ≡ b.row.series_id

  table-Apart :
      (is_finite : String → Result String Bool) (sources : Fields) (os : List Observation)
      (table : Dict Series)
      → Separate os
      → add_rows is_finite sources [] os ≡ ok table
      → Pairwise (Apart W) table
  table-Apart is_finite sources os table separate h =
      let (differ, named) = add_rows-names is_finite sources os table h in
      Pairwise-map (λ e. IsNamed os e.0) Differ (Apart W) table
        (λ x y (a, i, p) (b, j, q) distinct same.
          distinct
            (sym p ∙ separate a b i j (ap (file_of W) p ∙ same ∙ sym (ap (file_of W) q)) ∙ q))
        named differ

  -- The files of a release in the order in which they are written: the manifest comes last.
  abbrev pub IsRelease : Built W → Release → Objects W → Fields → Items → Type 0
  IsRelease built r objects sources discovery =
      let raw = W.encoded (manifest_json W r.release_id objects.entries sources discovery) in
      (built.0 ≡ body_writes W r.release_id objects.bodies ++ (r.relative_manifest, raw) ∷ [])
      × (r.sha256 ≡ W.digest raw)
      × (r.series_count ≡ length objects.entries)
      × (r.observations ≡ total (λ e. e.observations) objects.entries)
      × (r.missing ≡ total (λ e. e.missing) objects.entries)

  abbrev choice : {A : Type 0} → Bool → A → A → ReleaseError → Release → A × Released Release
  choice b ws vs e a = if b then (ws, err e) else (vs, ok a)

  returned :
      {A : Type 0} (b : Bool) (ws vs : A) (e : ReleaseError) (a : Release) {r : Release}
      → (choice b ws vs e a).1 ≡ ok r
      → ((choice b ws vs e a).0 ≡ vs) × (a ≡ r)
  returned true ws vs e a h = cc
  returned false ws vs e a h = (refl, ok_injective h)

  published-IsRelease :
      (objects : Objects W) (sources : Fields) (discovery : Items) (r : Release)
      → (published W objects sources discovery).1 ≡ ok r
      → IsRelease (published W objects sources discovery) r objects sources discovery
  unfolding published
  published-IsRelease objects sources discovery r h =
      let (files, same) = returned _ _ _ _ _ h in rw (sym same) (files, refl, refl, refl, refl)

  -- The stages of a release that is returned.
  built :
      (found : Released (Objects W)) (sources : Fields) (discovery : Items) (r : Release)
      → (checked_objects W found sources discovery).1 ≡ ok r
      → (objects : Objects W) × (found ≡ ok objects)
        × IsRelease (checked_objects W found sources discovery) r objects sources discovery
  unfolding checked_objects
  built (err e) sources discovery r h = cc
  built (ok objects) sources discovery r h = elim (Bool-cases (is_empty objects.entries)) [
    | inl e ↦ refused (rw e at h)
    | inr e ↦ (objects, refl, rw e (published-IsRelease objects sources discovery r (rw e at h)))
  ]
    where
      refused : {A : Type 0} → ◌≡◌ {A = Released Release} (err empty_release) (ok r) → A
      refused k = cc

  -- A release that is returned holds every observation unchanged: it stands among the rows of its
  -- series, whose days ascend, and the object with exactly these rows is stored under the file of the
  -- entry of the series. The entry has the unit, class, label and frequency of the series, the digest
  -- of the object, and the numbers of its rows, of those with a value and of those without one. The
  -- manifest is written after all objects, and the totals are the sums over the entries. Condition:
  -- no two series of the observations have the same file, which is named by a digest.
  pub build_release-IsPublished :
      (is_finite : String → Result String Bool) (os : List Observation) (sources : Fields)
      (discovery : Items) {r : Release}
      → Separate os
      → (build_release W is_finite os sources discovery).1 ≡ ok r
      → (objects : Objects W) × IsRelease
          (build_release W is_finite os sources discovery)
          r
          objects
          sources
          discovery
        × All (IsPublished objects) os
  unfolding build_release lookup
  build_release-IsPublished is_finite os sources discovery {r} separate h =
      let (objects, made, release) = built _ sources discovery r h in
      let (table, added, grouped) =
        >>=-eq-ok (add_rows is_finite sources [] os) (objects_of W) made in
      (
        objects,
        release,
        All_map (Kept table) (IsPublished objects) os
            (λ o.
              Kept→IsPublished table objects o
                (table-Apart is_finite sources os table separate added) grouped
                (add_rows-IsDated is_finite sources [] table os added
                  (λ name s k. none_there name s k)))
            (add_rows-Kept is_finite sources [] table os added),
      )
    where
      none_there :
          (name : String) (s : Series) → lookup name [] ≡ some s → All (λ e. e.1.day ≡ e.0) s.items
      none_there name s k = cc
