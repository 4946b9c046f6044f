-- ===== src/SecEngine/LongQuarters.antt =====
-- sec_engine.py: `infer_calendar`, which allows a quarter of more than 105 days where four intervals of 75 to
-- 120 days make up a reported year.
use zion_terminal.Base.{
  ℕ, ◌+◌, ◌-◌, Bool, false, ◌&&◌, ◌||◌, Option, none, some, List, [], ◌∷◌, ◌++◌, String, str_eq,
  ◌==◌, ltb, leb, keep, if◌then◌else◌,
}
use zion_terminal.Base.Sorting.{sorted}
use zion_terminal.Base.Texts.{str_leb}
use zion_terminal.SecEngine.Registry.{in_registry}
use zion_terminal.SecEngine.Sources.{Row, LongQuarter, same_start, days_between, within, is_annual}

-- The row is of the concept, and starts on the day.
unfoldable pub in_year : String → ℕ → Row → Bool
unfolding in_registry
in_year concept start row =
    in_registry row.metric
    && (str_eq row.concept concept && same_start row.period_start (some start))

unfoldable pub has_end_in : ℕ → List ℕ → Bool
has_end_in e [] = false
has_end_in e (d ∷ ds) = d == e || has_end_in e ds

unfoldable pub distinct_ends : List Row → List ℕ
unfolding has_end_in
distinct_ends [] = []
distinct_ends (r ∷ rows) =
    let rest = distinct_ends rows in
    if has_end_in r.period_end rest then rest else r.period_end ∷ rest

abbrev pub ends_inside : ℕ → ℕ → Row → Bool
ends_inside start ending row = ltb start row.period_end && ltb row.period_end ending

-- `inner`
unfoldable pub inner_ends : List Row → String → ℕ → ℕ → List ℕ
unfolding in_year distinct_ends sorted
inner_ends rows concept start ending =
    sorted leb (distinct_ends (keep (ends_inside start ending) (keep (in_year concept start) rows)))

-- `contexts[(concept, start, e)]`: the least instant of its rows
unfoldable pub earliest : Option String → List Row → Option String
unfolding str_leb
earliest t [] = t
earliest none (r ∷ rows) = earliest (some r.available_at) rows
earliest (some t) (r ∷ rows) =
    earliest (some (if str_leb t r.available_at then t else r.available_at)) rows

abbrev pub ends_on : ℕ → Row → Bool
ends_on e row = row.period_end == e

unfoldable pub known_at : List Row → String → ℕ → ℕ → Option String
unfolding earliest in_year
known_at rows concept start e = earliest none (keep (ends_on e) (keep (in_year concept start) rows))

-- `max` over the four ends; each of them has a context.
unfoldable pub later_of : Option String → Option String → Option String
unfolding str_leb
later_of (some a) (some b) = some (if str_leb b a then a else b)
later_of _ _ = none

-- `combinations(inner, 3)`
pub record Trio : Type 0 where
  pub first : ℕ
  pub second : ℕ
  pub third : ℕ

abbrev pub with_third : ℕ → ℕ → List ℕ → List Trio
with_third a b [] = []
with_third a b (c ∷ cs) = record { first = a; second = b; third = c } ∷ with_third a b cs

abbrev pub with_second : ℕ → List ℕ → List Trio
with_second a [] = []
with_second a (b ∷ bs) = with_third a b bs ++ with_second a bs

unfoldable pub trios : List ℕ → List Trio
trios [] = []
trios (a ∷ rest) = with_second a rest ++ trios rest

abbrev pub quarter_spans : ℕ → ℕ → Trio → Bool
quarter_spans start ending t =
    (within 75 120 (days_between start t.first) && within 75 120 (t.second - t.first))
    && (within 75 120 (t.third - t.second) && within 75 120 (ending - t.third))

-- A long interval is allowed from the latest of the instants of its year.
unfoldable pub long_interval : String → ℕ → ℕ → List LongQuarter
long_interval known start ending =
    if ltb 105 (days_between start ending)
    then record { period_start = start; period_end = ending; available_at = known } ∷ []
    else []

unfoldable pub long_intervals : String → ℕ → ℕ → Trio → List LongQuarter
unfolding long_interval
long_intervals known start ending t =
    long_interval known start t.first
    ++ (long_interval known (t.first + 1) t.second
        ++ (long_interval known (t.second + 1) t.third ++ long_interval known (t.third + 1) ending))

unfoldable pub allowed_at : Option String → ℕ → ℕ → Trio → List LongQuarter
unfolding long_intervals
allowed_at none start ending t = []
allowed_at (some known) start ending t =
    if quarter_spans start ending t then long_intervals known start ending t else []

unfoldable pub trio_known : List Row → String → ℕ → ℕ → Trio → Option String
unfolding known_at later_of
trio_known rows concept start ending t =
    later_of
      (later_of
        (later_of (known_at rows concept start t.first) (known_at rows concept start t.second))
        (known_at rows concept start t.third))
      (known_at rows concept start ending)

unfoldable pub year_intervals : List Row → String → ℕ → ℕ → List Trio → List LongQuarter
unfolding allowed_at trio_known
year_intervals rows concept start ending [] = []
year_intervals rows concept start ending (t ∷ ts) =
    allowed_at (trio_known rows concept start ending t) start ending t
    ++ year_intervals rows concept start ending ts

unfoldable pub row_intervals : List Row → Row → Option ℕ → List LongQuarter
unfolding year_intervals trios inner_ends
row_intervals rows row none = []
row_intervals rows row (some start) =
    if is_annual start row.period_end row.form
    then year_intervals rows row.concept start row.period_end
        (trios (inner_ends rows row.concept start row.period_end))
    else []

unfoldable pub all_intervals : List Row → List Row → List LongQuarter
unfolding row_intervals
all_intervals rows [] = []
all_intervals rows (row ∷ rest) = row_intervals rows row row.period_start ++ all_intervals rows rest

-- `allowed[(qs, b)] = min(...)`
unfoldable pub allow : LongQuarter → List LongQuarter → List LongQuarter
unfolding str_leb
allow q [] = q ∷ []
allow q (p ∷ ps) =
    let rest = allow q ps in
    if p.period_start == q.period_start && p.period_end == q.period_end
    then record p {
      available_at =
          if str_leb p.available_at q.available_at then p.available_at else q.available_at;
    }
      ∷ ps
    else p ∷ rest

unfoldable pub allow_all : List LongQuarter → List LongQuarter → List LongQuarter
unfolding allow
allow_all [] allowed = allowed
allow_all (q ∷ qs) allowed = allow_all qs (allow q allowed)

abbrev pub earlier_quarter : LongQuarter → LongQuarter → Bool
earlier_quarter a b =
    ltb a.period_start b.period_start
    || (a.period_start == b.period_start && leb a.period_end b.period_end)

-- `infer_calendar`
unfoldable pub infer_calendar : List Row → List LongQuarter
unfolding all_intervals allow_all sorted
infer_calendar rows = sorted earlier_quarter (allow_all (all_intervals rows rows) [])
