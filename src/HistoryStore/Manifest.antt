-- ===== src/HistoryStore/Manifest.antt =====
-- history_store.py: `build_release`, the JSON values of the objects and of the manifest.
use zion_terminal.Base.{ℕ, ◌+◌, false, Option, none, some, List, [], ◌∷◌, String}
use zion_terminal.Base.Dict.{Dict}
use zion_terminal.Base.Json.{
  Json, null, bool, str, arr, obj, Items, nil, cons, Fields, end, field, int,
}
use zion_terminal.HistoryStore.Series.{Spec, Item}

pub record Writer : Type 1 where
  pub Bytes : Type 0
  pub size : Bytes → ℕ
  pub digest : Bytes → String
  pub encoded : Json → Bytes
  pub utf8 : String → Bytes

-- `entries[series]`
pub record Entry : Type 0 where
  pub spec : Spec
  pub file : String
  pub sha256 : String
  pub bytes : ℕ
  pub date_min : String
  pub date_max : String
  pub rows : ℕ
  pub observations : ℕ
  pub missing : ℕ

pub record Release : Type 0 where
  pub release_id : String
  pub key : String
  pub sha256 : String
  pub relative_manifest : String
  pub series_count : ℕ
  pub observations : ℕ
  pub missing : ℕ

unfoldable pub text_or_null : Option String → Json
text_or_null none = null
text_or_null (some s) = str s

unfoldable pub row_json : Item → Json
unfolding text_or_null
row_json r = arr (
    cons (str r.day) (
      cons (text_or_null r.value)
        (cons (text_or_null r.missing_reason) (cons (str r.source_id) nil))))

unfoldable pub rows_json : List Item → Items
unfolding row_json
rows_json [] = nil
rows_json (r ∷ rs) = cons (row_json r) (rows_json rs)

unfoldable pub columns : Items
columns =
    cons (str "observation_date")
      (cons (str "value_decimal") (cons (str "missing_reason") (cons (str "source_id") nil)))

-- SCHEMA and PREFIX
abbrev pub schema : String
schema = "zion-historical-series-v1"

abbrev pub prefix : String
prefix = "gold/historical-series/releases/"

unfoldable pub body_json : String → List Item → Json
unfolding rows_json columns
body_json series rows = obj (
    field "schema_version" (str schema) (
      field "series_id" (str series)
        (field "columns" (arr columns) (field "rows" (arr (rows_json rows)) end))))

unfoldable pub spec_fields : Spec → Fields → Fields
spec_fields s rest = field "unit" (str s.unit) (
    field "asset_class" (str s.asset_class)
      (field "label" (str s.label) (field "frequency" (str s.frequency) rest)))

-- An entry, and the keys that it is given afterwards.
unfoldable pub entry_json : Entry → Fields → Json
unfolding spec_fields
entry_json e rest = obj (
    spec_fields e.spec (
      field "file" (str e.file) (
        field "sha256" (str e.sha256) (
          field "bytes" (int e.bytes) (
            field "date_min" (str e.date_min) (
              field "date_max" (str e.date_max) (
                field "rows" (int e.rows) (
                  field "observations" (int e.observations)
                    (field "missing" (int e.missing) rest)))))))))

unfoldable pub entries_json : (Entry → Fields) → Dict Entry → Fields
unfolding entry_json
entries_json keys [] = end
entries_json keys ((series, e) ∷ es) = field series (entry_json e (keys e)) (entries_json keys es)

unfoldable pub total : (Entry → ℕ) → Dict Entry → ℕ
total count [] = 0
total count ((_, e) ∷ es) = count e + total count es

unfoldable pub identity_fields : Fields → Fields → Items → Fields → Fields
identity_fields entries sources discovery rest = field "schema_version" (str schema) (
    field "series" (obj entries) (
      field "sources" (obj sources) (
        field "discovery" (arr discovery) (
          field "point_in_time_status" (str "NOT_ESTABLISHED") (
            field "historical_as_of_supported" (bool false) (
              field "available_at" null (
                field "availability_policy" (str "OBSERVATION_DATE_IS_NOT_PUBLICATION_DATE") (
                  field "rights"
                    (str
                      "OWNER_PRIVATE_SOURCE_RESEARCH;REDISTRIBUTION_REQUIRES_SOURCE_TERMS_REVIEW")
                    rest))))))))
