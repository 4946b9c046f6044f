-- ===== src/HistoryStore/Series.antt =====
-- history_store.py: `build_release`, the observations of each series. The code's two dicts
-- `grouped` and `metadata` get their keys together, and are one dict of series here.
use Prim.Native.Char.{Char, code}
use Prim.Native.String.{[], ◌∷◌}
use zion_terminal.Base.{
  ℕ, ◌+◌, ◌==◌, Bool, true, false, not, ◌&&◌, ◌||◌, Option, none, some, List, [], ◌∷◌, map, String,
  str_eq, leb, if◌then◌else◌,
}
use zion_terminal.Base.Dict.{Dict, lookup, put}
use zion_terminal.Base.Result.{Result, ok, err, ◌>>=◌, ◌>>◌}
use zion_terminal.Base.Json.{Fields, contains}
use zion_terminal.Base.Sorting.{sorted}
use zion_terminal.Base.Texts.{str_leb}
use zion_terminal.Temporal.Instants.{match_date, is_date}
use zion_terminal.HistoryStore.Files.{Parsed, Observation}

-- ValueError by its message (a text that is no date raises one of datetime's in place of
-- `invalid_identity`); `raised` is another exception, such as decimal's InvalidOperation.
pub data ReleaseError : Type 0 where
  invalid_identity invalid_numeric reason_required spec_conflict observation_conflict object_budget
        empty_release manifest_budget :
      ReleaseError
  raised : String → ReleaseError

abbrev pub Released : Type 0 → Type 0
Released A = Result ReleaseError A

pub record Spec : Type 0 where
  pub unit : String
  pub asset_class : String
  pub label : String
  pub frequency : String

-- `item = [day, value, row.get("missing_reason"), row["source_id"]]`
pub record Item : Type 0 where
  pub day : String
  pub value : Option String
  pub missing_reason : Option String
  pub source_id : String

pub record Series : Type 0 where
  pub spec : Spec
  pub items : Dict Item

unfoldable pub same_spec : Spec → Spec → Bool
same_spec a b =
    str_eq a.unit b.unit
    && str_eq a.asset_class b.asset_class
    && str_eq a.label b.label
    && str_eq a.frequency b.frequency

unfoldable pub same_text_or_none : Option String → Option String → Bool
same_text_or_none none none = true
same_text_or_none (some a) (some b) = str_eq a b
same_text_or_none _ _ = false

unfoldable pub same_item : Item → Item → Bool
unfolding same_text_or_none
same_item a b =
    str_eq a.day b.day
    && same_text_or_none a.value b.value
    && same_text_or_none a.missing_reason b.missing_reason
    && str_eq a.source_id b.source_id

-- [A-Za-z0-9_:.-]
unfoldable pub is_series_char : Char → Bool
is_series_char c =
    (leb 65 (code c) && leb (code c) 90)
    || (leb 97 (code c) && leb (code c) 122)
    || (leb 48 (code c) && leb (code c) 58)
    || code c == 95
    || code c == 46
    || code c == 45

unfoldable pub series_chars : ℕ → String → Bool
unfolding is_series_char
series_chars n [] = leb 1 n && leb n 180
series_chars n (c ∷ s) = is_series_char c && series_chars (n + 1) s

-- `re.fullmatch(r"[A-Za-z0-9_:.-]{1,180}", series)`
unfoldable pub is_series : String → Bool
unfolding series_chars
is_series s = series_chars 0 s

unfoldable pub is_day : Option (ℕ × ℕ × ℕ) → Bool
unfolding is_date
is_day none = false
is_day (some day) = is_date day

-- `date.fromisoformat(day).isoformat() == day`
unfoldable pub is_iso_day : String → Bool
unfolding match_date is_day
is_iso_day s = is_day (match_date s)

-- `row.get("frequency", "daily")`
unfoldable pub frequency_of : Option String → String
frequency_of none = "daily"
frequency_of (some f) = f

unfoldable pub spec_of : Parsed → Spec
unfolding frequency_of
spec_of r = record {
  unit = r.unit;
  asset_class = r.asset_class;
  label = r.label;
  frequency = frequency_of r.frequency;
}

unfoldable pub item_of : Observation → Item
item_of o = record {
  day = o.row.observation_date;
  value = o.row.value_decimal;
  missing_reason = o.row.missing_reason;
  source_id = o.source_id;
}

-- `not row.get("missing_reason")`
unfoldable pub is_blank : Option String → Bool
is_blank none = true
is_blank (some s) = str_eq s ""

unfoldable pub check_spec : Spec → Option Series → Released (Unit {0})
unfolding same_spec
check_spec spec none = ok tt
check_spec spec (some s) = if same_spec s.spec spec then ok tt else err spec_conflict

unfoldable pub items_at : Option Series → Dict Item
items_at none = []
items_at (some s) = s.items

unfoldable pub check_item : Item → Option Item → Released (Unit {0})
unfolding same_item
check_item item none = ok tt
check_item item (some old) = if same_item old item then ok tt else err observation_conflict

-- `Decimal(value).is_finite()` is a parameter: `err` names the exception of a text that is no number.
module _ (is_finite : String → Result String Bool) where
  unfoldable pub check_finite : Result String Bool → Released (Unit {0})
  check_finite (err e) = err (raised e)
  check_finite (ok true) = ok tt
  check_finite (ok false) = err invalid_numeric

  unfoldable pub check_value : Option String → Option String → Released (Unit {0})
  unfolding check_finite is_blank
  check_value (some value) reason = check_finite (is_finite value)
  check_value none reason = if is_blank reason then err reason_required else ok tt

  unfoldable pub add_row : Fields → Dict Series → Observation → Released (Dict Series)
  unfolding is_series is_iso_day check_value check_spec items_at check_item lookup put spec_of
      item_of
  add_row sources table o =
      let series = o.row.series_id in
      let day = o.row.observation_date in
      let items = items_at (lookup series table) in
      if not (is_series series) || not (is_iso_day day) || not (contains o.source_id sources)
      then err invalid_identity
      else (do
        check_value o.row.value_decimal o.row.missing_reason
        check_spec (spec_of o.row) (lookup series table)
        check_item (item_of o) (lookup day items)
        ok (put series (record { spec = spec_of o.row; items = put day (item_of o) items }) table))

  -- The loop over the observations.
  unfoldable pub add_rows : Fields → Dict Series → List Observation → Released (Dict Series)
  unfolding add_row
  add_rows sources table [] = ok table
  add_rows sources table (o ∷ os) = do next ← add_row sources table o; add_rows sources next os

abbrev pub by_day : String × Item → String × Item → Bool
by_day a b = str_leb a.0 b.0

-- `[items[day] for day in sorted(items)]`: the days of a dict are distinct.
unfoldable pub rows_of : Dict Item → List Item
unfolding sorted
rows_of items = map (λ e. e.1) (sorted by_day items)
