-- ===== src/HistoryStore/Rows.antt =====
-- history_store.py: what the loop over the observations keeps of each of them.
use zion_terminal.Base.{
  Bool, true, not, ◌||◌, Option, none, some, List, [], ◌∷◌, String, str_eq, str_eq_iff, ◌≡◌, refl,
  sym, ap, ◌∙◌, arith, All, Bool-cases, inl, inr,
}
use zion_terminal.Base.Dict.{
  Dict, lookup, put, lookup-put, lookup-put_same, lookup-put_cases, All-put,
}
use zion_terminal.Base.Result.{Result, ok, err, >>-eq-ok, >>=-eq-ok, ok_injective, otherwise}
use zion_terminal.Base.Json.{Fields, contains}
use zion_terminal.HistoryStore.Files.{Observation}
use zion_terminal.HistoryStore.Series.{
  Spec, Item, Series, same_spec, same_text_or_none, same_item, spec_of, item_of, items_at,
  check_spec, check_item, check_value, add_row, add_rows, is_series, is_iso_day, Released,
  invalid_identity, spec_conflict, observation_conflict,
}

same_text_or_none→eq : (a b : Option String) → same_text_or_none a b ≡ true → a ≡ b
unfolding same_text_or_none
same_text_or_none→eq none none h = refl
same_text_or_none→eq none (some b) h = cc
same_text_or_none→eq (some a) none h = cc
same_text_or_none→eq (some a) (some b) h = ap some ((str_eq_iff a b).0 h)

same_spec→eq : (a b : Spec) → same_spec a b ≡ true → a ≡ b
unfolding same_spec
same_spec→eq a b h = ground (
  arith,
  str_eq_iff a.unit b.unit,
  str_eq_iff a.asset_class b.asset_class,
  str_eq_iff a.label b.label,
  str_eq_iff a.frequency b.frequency,
)

same_item→eq : (a b : Item) → same_item a b ≡ true → a ≡ b
unfolding same_item
same_item→eq a b h = ground (
  arith,
  str_eq_iff a.day b.day,
  str_eq_iff a.source_id b.source_id,
  same_text_or_none→eq a.value b.value,
  same_text_or_none→eq a.missing_reason b.missing_reason,
)

-- The observation stands in the table, under its series and its day, as it came.
pub record Kept (table : Dict Series) (o : Observation) : Type 0 where
  pub series : Series
  pub found : lookup o.row.series_id table ≡ some series
  pub spec : series.spec ≡ spec_of o.row
  pub item : lookup o.row.observation_date series.items ≡ some (item_of o)

module _ (is_finite : String → Result String Bool) (sources : Fields) where
  pub added :
      (table next : Dict Series) (o : Observation)
      → add_row is_finite sources table o ≡ ok next
      → (check_spec (spec_of o.row) (lookup o.row.series_id table) ≡ ok tt)
        × (check_item
              (item_of o)
              (lookup o.row.observation_date (items_at (lookup o.row.series_id table)))
            ≡ ok tt)
        × (next
            ≡ put o.row.series_id
                (record {
                  spec = spec_of o.row;
                  items =
                      put o.row.observation_date
                        (item_of o)
                        (items_at (lookup o.row.series_id table));
                })
                table)
  unfolding add_row
  added table next o h =
      let (_, h1) =
        otherwise
          (not (is_series o.row.series_id)
            || not (is_iso_day o.row.observation_date)
            || not (contains o.source_id sources))
          invalid_identity _ h in
      let (_, _, h2) =
        >>-eq-ok (check_value is_finite o.row.value_decimal o.row.missing_reason) _ h1 in
      let (_, spec, h3) =
        >>-eq-ok (check_spec (spec_of o.row) (lookup o.row.series_id table)) _ h2 in
      let (_, item, h4) = >>-eq-ok (check_item (item_of o) _) _ h3 in
      (spec, item, sym (ok_injective h4))

  -- The new row is kept, and so is every row that was kept before.
  add_row-Kept :
      (table next : Dict Series) (o : Observation)
      → add_row is_finite sources table o ≡ ok next
      → Kept next o
  add_row-Kept table next o h =
      let (_, _, e) = added table next o h in
      rw e (record {
        series = record {
          spec = spec_of o.row;
          items = put o.row.observation_date (item_of o) (items_at (lookup o.row.series_id table));
        };
        found = lookup-put_same o.row.series_id _ table;
        spec = refl;
        item = lookup-put_same o.row.observation_date _ _;
      })

  checked_spec : (s : Spec) (old : Series) → check_spec s (some old) ≡ ok tt → old.spec ≡ s
  unfolding check_spec
  checked_spec s old h = elim (Bool-cases (same_spec old.spec s)) [
    | inl e ↦ same_spec→eq old.spec s e
    | inr e ↦ refused (rw e at h)
  ]
    where
      refused : {A : Type 0} → ◌≡◌ {A = Released (Unit {0})} (err spec_conflict) (ok tt) → A
      refused k = cc

  checked_item : (i old : Item) → check_item i (some old) ≡ ok tt → old ≡ i
  unfolding check_item
  checked_item i old h = elim (Bool-cases (same_item old i)) [
    | inl e ↦ same_item→eq old i e
    | inr e ↦ refused (rw e at h)
  ]
    where
      refused : {A : Type 0} → ◌≡◌ {A = Released (Unit {0})} (err observation_conflict) (ok tt) → A
      refused k = cc

  kept_item :
      (day new : String) (old item : Item) (items : Dict Item)
      → lookup day items ≡ some old
      → check_item item (lookup new items) ≡ ok tt
      → lookup day (put new item items) ≡ some old
  kept_item day new old item items found checked = elim (Bool-cases (str_eq day new)) [
    | inl same ↦
        let there = rw ((str_eq_iff day new).0 same) at found in
        lookup-put day new item items
        ∙ rw same (ap some (sym (checked_item item old (rw there at checked))))
    | inr other ↦ lookup-put day new item items ∙ rw other found
  ]

  same_series :
      (table : Dict Series) (o p : Observation)
      → p.row.series_id ≡ o.row.series_id
      → check_spec (spec_of o.row) (lookup o.row.series_id table) ≡ ok tt
      → check_item
          (item_of o)
          (lookup o.row.observation_date (items_at (lookup o.row.series_id table)))
        ≡ ok tt
      → Kept table p
      → Kept
          (put o.row.series_id
            (record {
              spec = spec_of o.row;
              items =
                  put o.row.observation_date (item_of o) (items_at (lookup o.row.series_id table));
            })
            table)
          p
  unfolding items_at
  same_series table o p q spec item kept =
      let found = rw q at kept.found in
      record {
        series = record {
          spec = spec_of o.row;
          items = put o.row.observation_date (item_of o) (items_at (lookup o.row.series_id table));
        };
        found = rw q (lookup-put_same o.row.series_id _ table);
        spec = sym (checked_spec (spec_of o.row) kept.series (rw found at spec)) ∙ kept.spec;
        item = rw found (
            kept_item p.row.observation_date o.row.observation_date (item_of p) (item_of o)
              kept.series.items kept.item (rw found at item));
      }

  add_row-Kept_before :
      (table next : Dict Series) (o p : Observation)
      → add_row is_finite sources table o ≡ ok next
      → Kept table p
      → Kept next p
  add_row-Kept_before table next o p h kept =
      let (spec, item, e) = added table next o h in
      elim (Bool-cases (str_eq p.row.series_id o.row.series_id)) [
        | inl same ↦ rw e (
            same_series table o p ((str_eq_iff p.row.series_id o.row.series_id).0 same) spec item
              kept)
        | inr other ↦ rw e (record {
          series = kept.series;
          found = lookup-put p.row.series_id o.row.series_id _ table ∙ rw other kept.found;
          spec = kept.spec;
          item = kept.item;
        })
      ]

  add_rows-Kept_before :
      (table next : Dict Series) (os : List Observation) (p : Observation)
      → add_rows is_finite sources table os ≡ ok next
      → Kept table p
      → Kept next p
  unfolding add_rows
  add_rows-Kept_before table next [] p h kept = rw (sym (ok_injective h)) kept
  add_rows-Kept_before table next (o ∷ os) p h kept =
      let (middle, first, rest) = >>=-eq-ok (add_row is_finite sources table o) _ h in
      add_rows-Kept_before middle next os p rest (add_row-Kept_before table middle o p first kept)

  -- Every observation is kept.
  pub add_rows-Kept :
      (table next : Dict Series) (os : List Observation)
      → add_rows is_finite sources table os ≡ ok next
      → All (Kept next) os
  unfolding add_rows
  add_rows-Kept table next [] h = tt
  add_rows-Kept table next (o ∷ os) h =
      let (middle, first, rest) = >>=-eq-ok (add_row is_finite sources table o) _ h in
      (
        add_rows-Kept_before middle next os o rest (add_row-Kept table middle o first),
        add_rows-Kept middle next os rest,
      )

  -- The items of a series stand under their days.
  abbrev pub IsKeyed : String × Item → Type 0
  IsKeyed e = e.1.day ≡ e.0

  abbrev pub IsDated : Dict Series → Type 0
  IsDated table = (name : String) (s : Series) → lookup name table ≡ some s → All IsKeyed s.items

  add_row-IsDated :
      (table next : Dict Series) (o : Observation)
      → add_row is_finite sources table o ≡ ok next
      → IsDated table
      → IsDated next
  unfolding items_at item_of
  add_row-IsDated table next o h dated name s found =
      let (_, _, e) = added table next o h in
      elim (lookup-put_cases name o.row.series_id _ table (rw e at found)) [
        | inl same ↦ rw (sym same.1) (
            All-put IsKeyed o.row.observation_date (item_of o) _ (λ j k. k)
              (before (lookup o.row.series_id table) refl))
        | inr old ↦ dated name s old
      ]
    where
      before :
          (found : Option Series)
          → lookup o.row.series_id table ≡ found
          → All IsKeyed (items_at found)
      before none _ = tt
      before (some old) there = dated o.row.series_id old there

  pub add_rows-IsDated :
      (table next : Dict Series) (os : List Observation)
      → add_rows is_finite sources table os ≡ ok next
      → IsDated table
      → IsDated next
  unfolding add_rows
  add_rows-IsDated table next [] h dated = rw (sym (ok_injective h)) dated
  add_rows-IsDated table next (o ∷ os) h dated =
      let (middle, first, rest) = >>=-eq-ok (add_row is_finite sources table o) _ h in
      add_rows-IsDated middle next os rest (add_row-IsDated table middle o first dated)
