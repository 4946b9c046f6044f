-- ===== src/Temporal/Instants.antt =====
-- temporal.py: RFC 3339 instants and whole days, as nanoseconds since 1970, and the test that no
-- observation is later than a cutoff. The printed form `iso_utc` and the
-- text of the source's timezone are not modelled. Digits are ASCII.
use Prim.Native.Char.{Char, code}
use Prim.Native.String.{[], ◌∷◌}
use zion_terminal.Base.{
  ℕ, suc, zero, ◌+◌, ◌-◌, ◌*◌, ◌/◌, Bool, not, ◌&&◌, ◌||◌, Option, none, some, [], ◌∷◌, String,
  str_eq, ◌==◌, leb, ltb, if◌then◌else◌,
}
use zion_terminal.Base.{◌≡◌, refl}
use zion_terminal.Base.Result.{Result, ok, err, ◌>>=◌}
use zion_terminal.Base.Int.{ℤ, pos, negsuc, ◌-ℤ◌}
use zion_terminal.Base.Json.{Json, str}
use zion_terminal.Temporal.Calendar.{is_leap, ordinal}

-- `TemporalError`, by the check that raises it; `not_iterable` is Python's TypeError.
pub data TemporalError : Type 0 where
  not_text no_offset invalid_instant not_a_date invalid_date missing_available leaked precedes
        not_iterable :
      TemporalError

abbrev pub Timed : Type 0 → Type 0
Timed A = Result TemporalError A

pub record TemporalInstant : Type 0 where
  pub epoch_ns : ℤ
  pub precision : String
  pub source_value : Option String
  pub normalization_policy : String

-- `epoch_ns // 1000`, rounded down: the microseconds that a `datetime` keeps
abbrev pub microseconds : ℤ → ℤ
microseconds (pos n) = pos (n / 1000)
microseconds (negsuc n) = negsuc (n / 1000)

unfoldable pub as_datetime : TemporalInstant → ℤ
as_datetime t = microseconds t.epoch_ns

unfoldable pub size : String → ℕ
size [] = 0
size (c ∷ s) = suc (size s)

-- `_precision`
unfoldable pub precision_of : String → String
unfolding size
precision_of fraction =
    if size fraction == 0
    then "second"
    else if leb (size fraction) 3
    then "millisecond"
    else if leb (size fraction) 6
    then "microsecond"
    else "nanosecond"

abbrev pub is_digit : Char → Bool
is_digit c = leb 48 (code c) && leb (code c) 57

-- `n` digits, as a number, and the rest of the text
unfoldable pub digits : ℕ → ℕ → String → Option (ℕ × String)
digits zero value s = some (value, s)
digits (suc n) value [] = none
digits (suc n) value (c ∷ s) =
    let rest = digits n (value * 10 + (code c - 48)) s in if is_digit c then rest else none

-- One given character, and the rest of the text
abbrev pub symbol_then : ℕ → Option (ℕ × String) → Option (ℕ × String)
symbol_then k none = none
symbol_then k (some (value, [])) = none
symbol_then k (some (value, c ∷ s)) = if code c == k then some (value, s) else none

infixl 5 ◌next◌
abbrev pub ◌next◌ {ℓ κ} :
    {A : Type ℓ} {B : Type κ} → Option (A × String) → (A → String → Option B) → Option B
none next f = none
some p next f = f p.0 p.1

-- `\d{4}-\d{2}-\d{2}`
unfoldable pub match_day : String → Option ((ℕ × ℕ × ℕ) × String)
unfolding digits
match_day s = symbol_then 45 (digits 4 0 s) next λ year s1.
    symbol_then 45 (digits 2 0 s1) next λ month s2.
    digits 2 0 s2 next λ day s3. some ((year, month, day), s3)

-- The characters of a leading run of digits, and the rest.
unfoldable pub digit_run : String → String × String
digit_run [] = ([], [])
digit_run (c ∷ s) =
    let rest = digit_run s in if is_digit c then (c ∷ rest.0, rest.1) else ([], c ∷ s)

-- `(?:\.\d{1,9})?`: the fraction, empty where there is none
unfoldable pub match_fraction : String → Option (String × String)
unfolding digit_run size
match_fraction [] = some ([], [])
match_fraction (c ∷ s) =
    if not (code c == 46)
    then some ([], c ∷ s)
    else if leb 1 (size (digit_run s).0) && leb (size (digit_run s).0) 9
    then some (digit_run s)
    else none

-- The offset from UTC: none for Z, else whether it is positive, with its hours and minutes.
abbrev pub Offset : Type 0
Offset = Option (Bool × ℕ × ℕ)

-- `Z|[+-]\d{2}:\d{2}`, at the end of the text
unfoldable pub match_offset : String → Option Offset
unfolding digits
match_offset [] = none
match_offset (c ∷ s) =
    if code c == 90 && str_eq s ""
    then some none
    else if code c == 43 || code c == 45
    then (symbol_then 58 (digits 2 0 s) next λ hours s1. digits 2 0 s1 next λ minutes s2.
        if str_eq s2 "" then some (some (code c == 43, hours, minutes)) else none)
    else none

pub record Matched : Type 0 where
  pub day : ℕ × ℕ × ℕ
  pub hour : ℕ
  pub minute : ℕ
  pub second : ℕ
  pub fraction : String
  pub offset : Offset

-- `_INSTANT.fullmatch`
unfoldable pub match_instant : String → Option Matched
unfolding match_day digits match_fraction match_offset
match_instant s = match_day s next λ day s1. symbol_then 84 (some (0, s1)) next λ t s2.
    symbol_then 58 (digits 2 0 s2) next λ hour s3. symbol_then 58 (digits 2 0 s3) next λ minute s4.
    digits 2 0 s4 next λ second s5. match_fraction s5 next λ fraction s6. elim (match_offset s6) [
      | none ↦ none
      | some offset ↦ some (record {
        day = day;
        hour = hour;
        minute = minute;
        second = second;
        fraction = fraction;
        offset = offset;
      })
    ]

unfoldable pub days_in_month : ℕ → ℕ → ℕ
unfolding is_leap
days_in_month y m =
    if m == 2
    then (if is_leap y then 29 else 28)
    else if m == 4 || (m == 6 || (m == 9 || m == 11))
    then 30
    else 31

-- The dates that `datetime` takes.
unfoldable pub is_date : ℕ × ℕ × ℕ → Bool
unfolding days_in_month
is_date (y, m, d) = leb 1 y && (leb 1 m && (leb m 12 && (leb 1 d && leb d (days_in_month y m))))

-- The seconds from the start of year 1 to a day and a time on it.
unfoldable pub seconds_of : ℕ × ℕ × ℕ → ℕ → ℕ → ℕ → ℕ
unfolding ordinal
seconds_of (y, m, d) hour minute second =
    (ordinal y m d - 1) * 86400 + hour * 3600 + minute * 60 + second

-- The seconds from the start of year 1 to 1970, and to the end of year 9999.
abbrev pub epoch_seconds : ℕ
epoch_seconds = 719162 * 86400

abbrev pub max_seconds : ℕ
max_seconds = 3652059 * 86400

-- `astimezone(timezone.utc)`: an offset of a day or more, and a result outside the years 1 to
-- 9999, are errors.
unfoldable pub to_utc : Offset → ℕ → Timed ℕ
to_utc none seconds = ok seconds
to_utc (some (positive, hours, minutes)) seconds =
    let shift = (hours * 60 + minutes) * 60 in
    if not (ltb (hours * 60 + minutes) 1440)
    then err invalid_instant
    else if positive
    then (if ltb seconds shift then err invalid_instant else ok (seconds - shift))
    else (if ltb (seconds + shift) max_seconds then ok (seconds + shift) else err invalid_instant)

-- `int(fraction.ljust(9, "0"))`, digit by digit from the left, for at most `n` digits
unfoldable pub nanoseconds : ℕ → ℕ → String → ℕ
nanoseconds zero value s = value
nanoseconds (suc n) value [] = nanoseconds n (value * 10) []
nanoseconds (suc n) value (c ∷ s) = nanoseconds n (value * 10 + (code c - 48)) s

-- `_epoch_ns`, for the seconds from the start of year 1
unfoldable pub epoch_ns_of : ℕ → ℕ → ℤ
unfolding ◌-ℤ◌
epoch_ns_of seconds nanos = pos (seconds * 1000000000 + nanos) -ℤ pos (epoch_seconds * 1000000000)

unfoldable pub instant_of : String → Matched → Timed TemporalInstant
unfolding is_date seconds_of to_utc nanoseconds epoch_ns_of precision_of
instant_of value m =
    if not (is_date m.day && (ltb m.hour 24 && (ltb m.minute 60 && ltb m.second 60)))
    then err invalid_instant
    else (do
      utc ← to_utc m.offset (seconds_of m.day m.hour m.minute m.second)
      ok (record {
        epoch_ns = epoch_ns_of utc (nanoseconds 9 0 m.fraction);
        precision = precision_of m.fraction;
        source_value = some value;
        normalization_policy = "rfc3339_utc";
      }))

-- `parse_instant`
unfoldable pub parse_instant : Json → Timed TemporalInstant
unfolding match_instant instant_of
parse_instant (str value) =
    if str_eq value ""
    then err not_text
    else elim (match_instant value) [ none ↦ err no_offset | some m ↦ instant_of value m ]
parse_instant _ = err not_text

-- `_DATE.fullmatch`
unfoldable pub match_date : String → Option (ℕ × ℕ × ℕ)
unfolding match_day
match_date s = match_day s next λ day rest. if str_eq rest "" then some day else none

-- `normalize_date_only` with its default policy, on a text that is a date: the last nanosecond of
-- the day in UTC
unfoldable pub normalize_day : String → ℕ × ℕ × ℕ → Timed TemporalInstant
unfolding is_date seconds_of epoch_ns_of
normalize_day value day =
    if is_date day
    then ok (record {
      epoch_ns = epoch_ns_of (seconds_of day 23 59 59) 999999999;
      precision = "date";
      source_value = some value;
      normalization_policy = "date_only_end_of_day_utc";
    })
    else err invalid_date

unfoldable pub normalize_date_only : Json → Timed TemporalInstant
unfolding match_date normalize_day
normalize_date_only (str value) = elim (match_date value) [
  | none ↦ err not_a_date
  | some day ↦ normalize_day value day
]
normalize_date_only _ = err not_a_date

-- `normalize_source_instant`
unfoldable pub normalize_source_instant : Json → Timed TemporalInstant
unfolding match_date normalize_day parse_instant
normalize_source_instant (str value) = elim (match_date value) [
  | some day ↦ normalize_day value day
  | none ↦ parse_instant (str value)
]
normalize_source_instant x = parse_instant x

half_second :
    parse_instant (str "1970-01-01T01:00:00.5+01:00")
    ≡ ok (record {
      epoch_ns = pos 500000000;
      precision = "millisecond";
      source_value = some "1970-01-01T01:00:00.5+01:00";
      normalization_policy = "rfc3339_utc";
    })
unfolding parse_instant
half_second = refl
