-- ===== src/Temporal/Sessions.antt =====
-- Weekdays within a month, and when the market is closed.
use zion_terminal.Base.{
  ℕ, ◌+◌, ◌-◌, ◌*◌, ◌%◌, ◌≤◌, ◌<◌, ◌≡◌, refl, ◌∙◌, Bool, true, false, List, [], ◌∷◌, ◌==◌, leb,
  arith, if◌then◌else◌, map,
}
use zion_terminal.Temporal.Calendar.{
  Date, ordinal, to_ordinal, weekday, nth_weekday, next_month, last_weekday, holidays, observed_day,
  among, closed_session, open_session, is_early, us_equity_session,
}

-- The first day from `f` on with weekday `w`, moved on by whole weeks.
week_lem : (f w k : ℕ) → w < 7 → (f + (w + 7 - (f + 6) % 7) % 7 + 7 * k + 6) % 7 ≡ w
week_lem f w k h = omega arith

bounds_lem : (f a k : ℕ) → a < 7 → (f + 7 * k ≤ f + a + 7 * k) × (f + a + 7 * k < f + 7 * k + 7)
bounds_lem f a k h = (omega arith, omega arith)

rem_lt : (a : ℕ) → a % 7 < 7
rem_lt a = omega arith

-- `_nth_weekday` gives the day with that weekday in the n-th week counted from the first of the
-- month.
pub nth_weekday_lem :
    (year month w n : ℕ)
    → w < 7
    → let first = ordinal year month 1 in
      let r = nth_weekday year month w n in
      (weekday r ≡ w) × (first + 7 * (n - 1) ≤ r) × (r < first + 7 * (n - 1) + 7)
unfolding nth_weekday weekday
nth_weekday_lem year month w n h =
    let first = ordinal year month 1 in
    let b = bounds_lem first ((w + 7 - (first + 6) % 7) % 7) (n - 1) (rem_lt _) in
    (week_lem first w (n - 1) h, b.0, b.1)

last_lem :
    (f w : ℕ)
    → w < 7
    → 7 ≤ f
    → let r = f - (((f + 6) % 7 + 7 - w) % 7 + 1) in ((r + 1 + 6) % 7 ≡ w) × (f ≤ r + 7) × (r < f)
last_lem f w h k = (omega arith, omega arith, omega arith)

-- The day that `_last_weekday` gives is one of the seven days before the next month, but it is the
-- day after it that has the weekday which was asked for.
pub last_weekday_lem :
    (year month w : ℕ)
    → w < 7
    → 7 ≤ next_month year month
    → let r = last_weekday year month w in
      (weekday (r + 1) ≡ w) × (next_month year month ≤ r + 7) × (r < next_month year month)
unfolding last_weekday weekday
last_weekday_lem year month w h k = last_lem (next_month year month) w h k

-- A shift of a holiday for observance never reaches a weekday.
observed_day_lem : (d h : ℕ) → leb 5 (weekday d) ≡ false → (d == observed_day h) ≡ (d == h)
unfolding observed_day weekday
observed_day_lem d h w = grind arith

among-observed :
    (d : ℕ) (hs : List ℕ) → leb 5 (weekday d) ≡ false → among d (map observed_day hs) ≡ among d hs
unfolding among
among-observed d [] w = refl
among-observed d (h ∷ hs) w = rw (observed_day_lem d h w) (rw (among-observed d hs w) refl)

session_closed :
    (b : Bool) (d : ℕ) (early : Bool)
    → (if b then closed_session d else open_session d early).is_holiday ≡ b
unfolding closed_session open_session
session_closed true d early = refl
session_closed false d early = refl

-- From Monday to Friday the market is closed exactly on the days of the holiday table itself: the
-- shift of holidays for observance, from Saturday to Sunday and from Sunday to Saturday, closes no
-- weekday and opens none.
pub us_equity_session-weekday :
    (d : Date)
    → leb 5 (weekday (to_ordinal d)) ≡ false
    → (us_equity_session d).is_holiday ≡ among (to_ordinal d) (holidays d.year)
unfolding us_equity_session
us_equity_session-weekday d w =
    session_closed _ (to_ordinal d) (is_early d)
    ∙ rw w (among-observed (to_ordinal d) (holidays d.year) w)
