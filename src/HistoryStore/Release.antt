-- ===== src/HistoryStore/Release.antt =====
-- history_store.py: `build_release`, the objects of a release, its manifest and the order of the
-- writes. The JSON writer, SHA-256 and the encoding of texts are a library's, in `Writer`.
use Prim.Native.String.{◌++◌ as ◌<>◌}
use zion_terminal.Base.{
  Bool, not, Option, none, some, List, [], ◌∷◌, ◌++◌, String, ltb, if◌then◌else◌, is_some, length,
  count_if, is_empty, get_last?,
}
use zion_terminal.Base.Dict.{Dict, put}
use zion_terminal.Base.Result.{Result, ok, err, ◌>>=◌}
use zion_terminal.Base.Json.{Json, str, obj, Items, Fields, end, field, int}
use zion_terminal.Base.Sorting.{sorted}
use zion_terminal.Base.Texts.{str_leb}
use zion_terminal.HistoryStore.Files.{Observation, max_object}
use zion_terminal.HistoryStore.Series.{
  object_budget, empty_release, manifest_budget, Released, Item, Series, add_rows, rows_of,
}
use zion_terminal.HistoryStore.Manifest.{
  Entry, Release, Writer, body_json, entries_json, identity_fields, prefix, total,
}

module _ (W : Writer) where
  unfoldable pub file_of : String → String
  file_of series = "series/" <> W.digest (W.utf8 series) <> ".json"

  unfoldable pub entry_of : String → Series → List Item → W.Bytes → String → String → Entry
  unfolding file_of
  entry_of series s rows body first last = record {
    spec = s.spec;
    file = file_of series;
    sha256 = W.digest body;
    bytes = W.size body;
    date_min = first;
    date_max = last;
    rows = length rows;
    observations = count_if (λ r. is_some r.value) rows;
    missing = count_if (λ r. not (is_some r.value)) rows;
  }

  -- The bodies by their file names, and the entries.
  pub record Objects : Type 0 where
    pub bodies : Dict W.Bytes
    pub entries : Dict Entry

  -- `rows[0][0]` and `rows[-1][0]`; a series has a row, since it came with one.
  unfoldable pub day_of : Option Item → String
  day_of none = ""
  day_of (some r) = r.day

  unfoldable pub first_of : List Item → Option Item
  first_of [] = none
  first_of (r ∷ rs) = some r

  unfoldable pub add_object : String × Series → Objects → Released Objects
  unfolding rows_of body_json entry_of day_of first_of put file_of
  add_object (series, s) o =
      let rows = rows_of s.items in
      let body = W.encoded (body_json series rows) in
      if ltb max_object (W.size body)
      then err object_budget
      else ok (record {
        bodies = put (file_of series) body o.bodies;
        entries =
            o.entries
            ++ (
              series,
              entry_of series s rows body (day_of (first_of rows)) (day_of (get_last? rows)),
            )
              ∷ [];
      })

  unfoldable pub add_objects : List (String × Series) → Objects → Released Objects
  unfolding add_object
  add_objects [] o = ok o
  add_objects (s ∷ ss) o = do next ← add_object s o; add_objects ss next

  abbrev pub by_name : String × Series → String × Series → Bool
  by_name a b = str_leb a.0 b.0

  -- The loop over `sorted(grouped.items())`
  unfoldable pub objects_of : Dict Series → Released Objects
  unfolding add_objects sorted
  objects_of table = add_objects (sorted by_name table) (record { bodies = []; entries = [] })

  unfoldable pub release_of : Dict Entry → Fields → Items → String
  unfolding identity_fields entries_json
  release_of entries sources discovery =
      W.digest
        (W.encoded (obj (identity_fields (entries_json (λ e. end) entries) sources discovery end)))

  unfoldable pub entry_keys : String → Entry → Fields
  entry_keys release e =
      field "key" (str (prefix <> release <> "/" <> e.file))
        (field "local_path" (str ("releases/" <> release <> "/" <> e.file)) end)

  unfoldable pub manifest_json : String → Dict Entry → Fields → Items → Json
  unfolding identity_fields entries_json entry_keys total
  manifest_json release entries sources discovery = obj (
      identity_fields (entries_json (entry_keys release) entries) sources discovery (
        field "release_id" (str release) (
          field "series_count" (int (length entries)) (
            field "observation_count" (int (total (λ e. e.observations) entries))
              (field "missing_count" (int (total (λ e. e.missing) entries)) end)))))

  -- The writes of the bodies, in order.
  unfoldable pub body_writes : String → Dict W.Bytes → List (String × W.Bytes)
  body_writes release [] = []
  body_writes release ((name, body) ∷ bodies) =
      ("releases/" <> release <> "/" <> name, body) ∷ body_writes release bodies

  -- The files that are written, in order, and what is returned or raised after them.
  abbrev pub Built : Type 0
  Built = List (String × W.Bytes) × Released Release

  unfoldable pub published : Objects → Fields → Items → Built
  unfolding release_of manifest_json body_writes total
  published o sources discovery =
      let release = release_of o.entries sources discovery in
      let raw = W.encoded (manifest_json release o.entries sources discovery) in
      let relative = "releases/" <> release <> "/manifest.json" in
      let written = body_writes release o.bodies in
      if ltb max_object (W.size raw) then (written, err manifest_budget) else (
        written ++ (relative, raw) ∷ [],
        ok (record {
          release_id = release;
          key = prefix <> release <> "/manifest.json";
          sha256 = W.digest raw;
          relative_manifest = relative;
          series_count = length o.entries;
          observations = total (λ e. e.observations) o.entries;
          missing = total (λ e. e.missing) o.entries;
        }),
      )

  unfoldable pub checked_objects : Released Objects → Fields → Items → Built
  unfolding published
  checked_objects (err e) sources discovery = ([], err e)
  checked_objects (ok o) sources discovery =
      if is_empty o.entries then ([], err empty_release) else published o sources discovery

  unfoldable pub build_release :
      (String → Result String Bool) → List Observation → Fields → Items → Built
  unfolding add_rows objects_of checked_objects
  build_release is_finite observations sources discovery =
      checked_objects (add_rows is_finite sources [] observations >>= objects_of) sources discovery
