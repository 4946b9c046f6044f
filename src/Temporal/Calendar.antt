-- ===== src/Temporal/Calendar.antt =====
-- temporal.py: days as Python's `date.toordinal` counts them, weekdays, holidays and the sessions of
-- the US equity market.
use zion_terminal.Base.{
  ℕ, ◌+◌, ◌-◌, ◌*◌, ◌/◌, ◌%◌, Bool, true, false, not, ◌&&◌, ◌||◌, Option, none, some, List, [], ◌∷◌,
  String, ◌==◌, leb, if◌then◌else◌, map,
}

pub record Date : Type 0 where
  pub year : ℕ
  pub month : ℕ
  pub day : ℕ

unfoldable pub is_leap : ℕ → Bool
is_leap y = y % 4 == 0 && (not (y % 100 == 0) || y % 400 == 0)

-- The days of the months before month `m`, in a year that is no leap year.
unfoldable pub days_before : ℕ → ℕ
days_before m =
    if m == 1
    then 0
    else if m == 2
    then 31
    else if m == 3
    then 59
    else if m == 4
    then 90
    else if m == 5
    then 120
    else if m == 6
    then 151
    else if m == 7
    then 181
    else if m == 8
    then 212
    else if m == 9
    then 243
    else if m == 10
    then 273
    else if m == 11
    then 304
    else 334

-- `date(y, m, d).toordinal()`: January 1 of year 1 is day 1.
unfoldable pub ordinal : ℕ → ℕ → ℕ → ℕ
unfolding is_leap days_before
ordinal y m d =
    (y - 1) * 365
    + (y - 1) / 4
    - (y - 1) / 100
    + (y - 1) / 400
    + days_before m
    + (if is_leap y && leb 3 m then 1 else 0)
    + d

unfoldable pub to_ordinal : Date → ℕ
unfolding ordinal
to_ordinal d = ordinal d.year d.month d.day

-- `weekday()`: 0 is Monday.
unfoldable pub weekday : ℕ → ℕ
weekday n = (n + 6) % 7

-- `_nth_weekday`; the remainder is that of the difference in ℤ.
unfoldable pub nth_weekday : ℕ → ℕ → ℕ → ℕ → ℕ
unfolding ordinal weekday
nth_weekday year month w n =
    let first = ordinal year month 1 in first + (w + 7 - weekday first) % 7 + 7 * (n - 1)

-- The first day of the next month.
unfoldable pub next_month : ℕ → ℕ → ℕ
unfolding ordinal
next_month year month = if month == 12 then ordinal (year + 1) 1 1 else ordinal year (month + 1) 1

-- `_last_weekday`
unfoldable pub last_weekday : ℕ → ℕ → ℕ → ℕ
unfolding next_month weekday
last_weekday year month w =
    let next = next_month year month in next - ((weekday next + 7 - w) % 7 + 1)

-- The holidays of a year.
unfoldable pub holidays : ℕ → List ℕ
unfolding ordinal nth_weekday last_weekday
holidays year =
    ordinal year 1 1
    ∷ nth_weekday year 1 0 3
    ∷ nth_weekday year 2 0 3
    ∷ last_weekday year 5 0
    ∷ nth_weekday year 9 0 1
    ∷ nth_weekday year 11 3 4
    ∷ ordinal year 12 25
    ∷ (if leb 2022 year then ordinal year 6 19 ∷ [] else [])

-- The day on which a holiday is observed, as the code has it.
unfoldable pub observed_day : ℕ → ℕ
unfolding weekday
observed_day d = if weekday d == 5 then d + 1 else if weekday d == 6 then d - 1 else d

-- `day in days`
unfoldable pub among : ℕ → List ℕ → Bool
among d [] = false
among d (h ∷ hs) = d == h || among d hs

-- `MarketSession`, with the day as an ordinal
pub record MarketSession : Type 0 where
  pub calendar_id : String
  pub session_date : ℕ
  pub exchange_timezone : String
  pub regular_open : Option String
  pub regular_close : Option String
  pub is_holiday : Bool
  pub is_early_close : Bool
  pub session_phase : String

unfoldable pub closed_session : ℕ → MarketSession
closed_session day = record {
  calendar_id = "XNYS";
  session_date = day;
  exchange_timezone = "America/New_York";
  regular_open = none;
  regular_close = none;
  is_holiday = true;
  is_early_close = false;
  session_phase = "CLOSED";
}

unfoldable pub open_session : ℕ → Bool → MarketSession
open_session day early = record {
  calendar_id = "XNYS";
  session_date = day;
  exchange_timezone = "America/New_York";
  regular_open = some "09:30:00";
  regular_close = some (if early then "13:00:00" else "16:00:00");
  is_holiday = false;
  is_early_close = early;
  session_phase = "REGULAR";
}

-- The day after Thanksgiving, and July 3.
unfoldable pub is_early : Date → Bool
unfolding to_ordinal nth_weekday
is_early d = to_ordinal d == nth_weekday d.year 11 3 4 + 1 || (d.month == 7 && d.day == 3)

-- `us_equity_session`
unfoldable pub us_equity_session : Date → MarketSession
unfolding to_ordinal weekday holidays observed_day among closed_session open_session is_early
us_equity_session d =
    if leb 5 (weekday (to_ordinal d)) || among (to_ordinal d) (map observed_day (holidays d.year))
    then closed_session (to_ordinal d)
    else open_session (to_ordinal d) (is_early d)
