-- ===== src/HistoryStore/Names.antt =====
-- history_store.py: the names of the series that `build_release` groups.
use zion_terminal.Base.{
  Bool, false, List, [], ◌∷◌, String, str_eq, str_eq_iff, ◌≡◌, ◌≢◌, refl, sym, ◌∙◌, All, All_map,
  each-In, In, Bool-cases, inl, inr,
}
use zion_terminal.Base.Dict.{Dict, put, All-put}
use zion_terminal.Base.Result.{Result, ok, >>=-eq-ok, ok_injective}
use zion_terminal.Base.Json.{Fields}
use zion_terminal.Base.Sorting.{Pairwise}
use zion_terminal.HistoryStore.Files.{Observation}
use zion_terminal.HistoryStore.Series.{Series, add_rows, add_row}
use zion_terminal.HistoryStore.Rows.{added}

-- Two entries have different names.
abbrev pub Differ : {V : Type 0} → String × V → String × V → Type 0
Differ a b = a.0 ≢ b.0

apart : (k j : String) → k ≡ j → str_eq k j ≡ false → ⊥
apart k j same e = let yes = (str_eq_iff k j).1 same in cc

-- Setting a key of a dict without repeated keys repeats none.
Differ-put :
    {V : Type 0} (k : String) (v : V) (d : Dict V) → Pairwise Differ d → Pairwise Differ (put k v d)
unfolding put
Differ-put k v [] p = (tt, tt)
Differ-put k v ((j, w) ∷ d) p = elim (Bool-cases (str_eq k j)) [
  | inl e ↦ rw e p
  | inr e ↦ rw e (
    All-put (λ t. j ≢ t.0) k v d (λ i same clash. apart k j (same ∙ sym clash) e) p.0,
    Differ-put k v d p.1,
  )
]

-- The name is that of a series of some observation.
abbrev pub IsNamed : List Observation → String → Type 0
IsNamed os name = (o : Observation) × In o os × (o.row.series_id ≡ name)

module _ (is_finite : String → Result String Bool) (sources : Fields) (P : String → Type 0) where
  -- No name is repeated, and each has a property.
  abbrev AreNamed : Dict Series → Type 0
  AreNamed table = Pairwise Differ table × All (λ e. P e.0) table

  add_rows-AreNamed :
      (table next : Dict Series) (os : List Observation)
      → add_rows is_finite sources table os ≡ ok next
      → All (λ o. P o.row.series_id) os
      → AreNamed table
      → AreNamed next
  unfolding add_rows
  add_rows-AreNamed table next [] h ps named = rw (sym (ok_injective h)) named
  add_rows-AreNamed table next (o ∷ os) h ps named =
      let (middle, first, rest) = >>=-eq-ok (add_row is_finite sources table o) _ h in
      let (_, _, e) = added is_finite sources table middle o first in
      add_rows-AreNamed middle next os rest ps.1 (
        rw e (
          Differ-put o.row.series_id _ table named.0,
          All-put (λ x. P x.0) o.row.series_id _ table (λ j k. rw (sym k) ps.0) named.1,
        ))

-- The names of the table are those of the observations, each once.
pub add_rows-names :
    (is_finite : String → Result String Bool) (sources : Fields) (os : List Observation)
    (table : Dict Series)
    → add_rows is_finite sources [] os ≡ ok table
    → Pairwise Differ table × All (λ e. IsNamed os e.0) table
add_rows-names is_finite sources os table h =
    add_rows-AreNamed is_finite sources (IsNamed os) [] table os h
      (All_map (λ o. In o os) (λ o. IsNamed os o.row.series_id) os (λ o i. (o, i, refl))
        (each-In os))
      (tt, tt)
