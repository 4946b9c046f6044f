-- ===== src/SecEngine/InsideYear.antt =====
-- sec_engine.py: every long quarter that `infer_calendar` allows lies inside a reported year.
use zion_terminal.Base.{
  ℕ, ◌+◌, ◌-◌, ◌≤◌, true, ◌&&◌, Option, none, some, List, [], ◌∷◌, String, ltb, ◌==◌, ◌≡◌, refl,
  All, All-append, All_map, ◌⊎◌, inl, inr, if_both, and_parts, Bool-cases, arith,
}
use zion_terminal.Base.Sorting.{All-sorted}
use zion_terminal.SecEngine.Sources.{Row, LongQuarter, days_between, within, is_annual}
use zion_terminal.SecEngine.LongQuarters.{
  Trio, quarter_spans, long_interval, long_intervals, allowed_at, trio_known, year_intervals,
  row_intervals, all_intervals, allow, allow_all, earlier_quarter, infer_calendar, trios,
  inner_ends,
}

-- The interval lies in a period, and has 106 to 120 days.
abbrev Fits : ℕ → ℕ → LongQuarter → Type 0
Fits start ending q =
    (start ≤ q.period_start)
    × (q.period_end ≤ ending)
    × (106 ≤ days_between q.period_start q.period_end)
    × (days_between q.period_start q.period_end ≤ 120)

-- The row reports a year that the interval lies in.
abbrev pub InYearOf : LongQuarter → Row → Type 0
InYearOf q row =
    (start : ℕ) × (row.period_start ≡ some start)
    × (is_annual start row.period_end row.form ≡ true)
    × (start ≤ q.period_start)
    × (q.period_end ≤ row.period_end)
    × (106 ≤ days_between q.period_start q.period_end)
    × (days_between q.period_start q.period_end ≤ 120)

-- One of the rows does.
abbrev pub InYear : List Row → LongQuarter → Type 0
InYear [] q = ⊥
InYear (row ∷ rows) q = InYearOf q row ⊎ InYear rows q

long_interval-Fits :
    (known : String) (start ending s e : ℕ)
    → start ≤ s
    → e ≤ ending
    → days_between s e ≤ 120
    → All (Fits start ending) (long_interval known s e)
unfolding long_interval
long_interval-Fits known start ending s e h k l = elim (Bool-cases (ltb 105 (days_between s e))) [
  | inl t ↦ rw t ((h, k, ground arith, l), tt)
  | inr t ↦ rw t tt
]

-- The four intervals of a trio.
record Spans (start ending : ℕ) (t : Trio) : Type 0 where
  one : (75 ≤ days_between start t.first) × (days_between start t.first ≤ 120)
  two : (75 ≤ t.second - t.first) × (t.second - t.first ≤ 120)
  three : (75 ≤ t.third - t.second) × (t.third - t.second ≤ 120)
  four : (75 ≤ ending - t.third) × (ending - t.third ≤ 120)

within_lem : (low high n : ℕ) → within low high n ≡ true → (low ≤ n) × (n ≤ high)
within_lem low high n h = (ground arith, ground arith)

quarter_spans-Spans :
    (start ending : ℕ) (t : Trio) → quarter_spans start ending t ≡ true → Spans start ending t
quarter_spans-Spans start ending t h =
    let (left, right) =
      and_parts (within 75 120 (days_between start t.first) && within 75 120 (t.second - t.first)) _
        h in
    let (a, b) = and_parts (within 75 120 (days_between start t.first)) _ left in
    let (c, d) = and_parts (within 75 120 (t.third - t.second)) _ right in
    record {
      one = within_lem 75 120 _ a;
      two = within_lem 75 120 _ b;
      three = within_lem 75 120 _ c;
      four = within_lem 75 120 _ d;
    }

long_intervals-Fits :
    (known : String) (start ending : ℕ) (t : Trio)
    → Spans start ending t
    → All (Fits start ending) (long_intervals known start ending t)
unfolding long_intervals
long_intervals-Fits known start ending t s =
    let (a, b) = s.one in
    let (c, d) = s.two in
    let (e, f) = s.three in
    let (g, h) = s.four in
    All-append (Fits start ending) (long_interval known start t.first) _
      (long_interval-Fits known start ending start t.first (omega arith) (omega arith) b)
      (All-append (Fits start ending) (long_interval known (t.first + 1) t.second) _
        (long_interval-Fits known start ending (t.first + 1) t.second (omega arith) (omega arith)
          (omega arith))
        (All-append (Fits start ending) (long_interval known (t.second + 1) t.third) _
          (long_interval-Fits known start ending (t.second + 1) t.third (omega arith) (omega arith)
            (omega arith))
          (long_interval-Fits known start ending (t.third + 1) ending (omega arith) (omega arith)
            (omega arith))))

allowed_at-Fits :
    (known : Option String) (start ending : ℕ) (t : Trio)
    → All (Fits start ending) (allowed_at known start ending t)
unfolding allowed_at
allowed_at-Fits none start ending t = tt
allowed_at-Fits (some known) start ending t = elim (Bool-cases (quarter_spans start ending t)) [
  | inl e ↦ rw e (long_intervals-Fits known start ending t (quarter_spans-Spans start ending t e))
  | inr e ↦ rw e tt
]

year_intervals-Fits :
    (rows : List Row) (concept : String) (start ending : ℕ) (ts : List Trio)
    → All (Fits start ending) (year_intervals rows concept start ending ts)
unfolding year_intervals
year_intervals-Fits rows concept start ending [] = tt
year_intervals-Fits rows concept start ending (t ∷ ts) =
    All-append (Fits start ending) _ (year_intervals rows concept start ending ts)
      (allowed_at-Fits (trio_known rows concept start ending t) start ending t)
      (year_intervals-Fits rows concept start ending ts)

row_intervals-InYearOf :
    (rows : List Row) (row : Row) (start : Option ℕ)
    → row.period_start ≡ start
    → All (λ q. InYearOf q row) (row_intervals rows row start)
unfolding row_intervals
row_intervals-InYearOf rows row none e = tt
row_intervals-InYearOf rows row (some start) e =
    elim (Bool-cases (is_annual start row.period_end row.form)) [
      | inl y ↦ rw y (
          All_map (Fits start row.period_end) (λ q. InYearOf q row)
            (year_intervals rows row.concept start row.period_end
              (trios (inner_ends rows row.concept start row.period_end)))
            (λ q f. (start, e, y, f.0, f.1, f.2, f.3))
            (year_intervals-Fits rows row.concept start row.period_end _))
      | inr y ↦ rw y tt
    ]

all_intervals-InYear : (rows rest : List Row) → All (InYear rest) (all_intervals rows rest)
unfolding all_intervals
all_intervals-InYear rows [] = tt
all_intervals-InYear rows (row ∷ rest) =
    All-append (InYear (row ∷ rest)) (row_intervals rows row row.period_start)
      (all_intervals rows rest)
      (All_map (λ q. InYearOf q row) (InYear (row ∷ rest)) _ (λ q. inl)
        (row_intervals-InYearOf rows row row.period_start refl))
      (All_map (InYear rest) (InYear (row ∷ rest)) (all_intervals rows rest) (λ q. inr)
        (all_intervals-InYear rows rest))

-- The predicate says nothing of the instant, which `allow` may change.
allow-InYear :
    (rows : List Row) (q : LongQuarter) (ps : List LongQuarter)
    → InYear rows q
    → All (InYear rows) ps
    → All (InYear rows) (allow q ps)
unfolding allow
allow-InYear rows q [] h hs = (h, tt)
allow-InYear rows q (p ∷ ps) h hs =
    if_both (All (InYear rows)) (p.period_start == q.period_start && p.period_end == q.period_end) _
      (p ∷ allow q ps) (any_instant rows p _ hs.0, hs.1) (hs.0, allow-InYear rows q ps h hs.1)
  where
    any_instant :
        (rs : List Row) (r : LongQuarter) (t : String)
        → InYear rs r
        → InYear rs (record r { available_at = t })
    any_instant [] r t k = k
    any_instant (row ∷ rs) r t (inl k) = inl k
    any_instant (row ∷ rs) r t (inr k) = inr (any_instant rs r t k)

allow_all-InYear :
    (rows : List Row) (qs allowed : List LongQuarter)
    → All (InYear rows) qs
    → All (InYear rows) allowed
    → All (InYear rows) (allow_all qs allowed)
unfolding allow_all
allow_all-InYear rows [] allowed h k = k
allow_all-InYear rows (q ∷ qs) allowed h k =
    allow_all-InYear rows qs (allow q allowed) h.1 (allow-InYear rows q allowed h.0 k)

-- A long quarter that the calendar allows has 106 to 120 days and lies inside a year of 330 to 380 days that
-- one of the observations reports in an annual form.
pub infer_calendar-InYear : (rows : List Row) → All (InYear rows) (infer_calendar rows)
unfolding infer_calendar
infer_calendar-InYear rows =
    All-sorted earlier_quarter (InYear rows) (allow_all (all_intervals rows rows) [])
      (allow_all-InYear rows (all_intervals rows rows) [] (all_intervals-InYear rows rows) tt)
