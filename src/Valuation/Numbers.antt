-- ===== src/Valuation/Numbers.antt =====
-- valuation_engine.py: `value`, the number of a row, and which fractions have a finite decimal form.
use Prim.Native.Char.{code}
use Prim.Native.Nat.{◌^◌}
use Prim.Native.String.{[], ◌∷◌}
use zion_terminal.Base.{
  ℕ, zero, suc, ◌+◌, ◌-◌, ◌*◌, ◌/◌, ◌%◌, Bool, true, false, not, ◌&&◌, Option, none, some, String,
  str_eq, ◌==◌, leb, if◌then◌else◌, ◌≡◌, refl,
}
use zion_terminal.Base.Result.{Result, ok, err}
use zion_terminal.Base.Int.{ℤ, pos, negsuc, ltb_ℤ, leb_ℤ}
use zion_terminal.Base.Json.{Fields, null, str, get}
use zion_terminal.Base.Fractions.{Fraction, lowest, with_sign}
use zion_terminal.Temporal.Instants.{TemporalError, size, digit_run}

-- Why a calculation has no value: a code of the engine, an instant that is none, or Python's
-- TypeError, KeyError or ValueError about a missing or misformed context.
pub data Reason : Type 0 where
  code_of : String → Reason
  not_instant : TemporalError → Reason
  bad_context : Reason

abbrev pub Checked : Type 0 → Type 0
Checked A = Result Reason A

unfoldable pub digits_value : ℕ → String → ℕ
digits_value value [] = value
digits_value value (c ∷ s) = digits_value (value * 10 + (code c - 48)) s

-- `(?:\.\d{1,40})?` at the end of the text: the digits after the point
unfoldable pub decimal_places : String → Option String
unfolding digit_run size
decimal_places [] = some []
decimal_places (c ∷ s) =
    let places = (digit_run s).0 in
    if code c == 46 && (str_eq (digit_run s).1 "" && (leb 1 (size places) && leb (size places) 40))
    then some places
    else none

-- `\d{1,80}(?:\.\d{1,40})?`, with the sign that stood before it
unfoldable pub unsigned_decimal : ℤ → String → Option Fraction
unfolding digit_run size decimal_places digits_value
unsigned_decimal sign s =
    let whole = (digit_run s).0 in
    if not (leb 1 (size whole) && leb (size whole) 80)
    then none
    else elim (decimal_places (digit_run s).1) [
      | none ↦ none
      | some places ↦ some (record {
        num = with_sign sign (digits_value (digits_value 0 whole) places);
        den = 10 ^ size places;
      })
    ]

unfoldable pub decimal : String → Option Fraction
unfolding unsigned_decimal
decimal [] = none
decimal (c ∷ s) =
    if code c == 45 then unsigned_decimal (negsuc 0) s else unsigned_decimal (pos 0) (c ∷ s)

-- `value`
unfoldable pub row_value : Fields → Checked Fraction
unfolding decimal lowest
row_value row = elim (get "value_decimal" row) [
  | null ↦ err (code_of "NULL_INPUT")
  | str s ↦ elim (decimal s) [
    | none ↦ err (code_of "INVALID_NUMERIC_ENCODING")
    | some q ↦ ok (lowest q)
  ]
  | _ ↦ err (code_of "INVALID_NUMERIC_ENCODING")
]

-- `while rest % p == 0: rest //= p`, on a number of rounds that `rest` bounds
unfoldable pub strip_factor : ℕ → ℕ → ℕ → ℕ
strip_factor p zero rest = rest
strip_factor p (suc n) rest = elim (rest % p == 0) [
  | true ↦ strip_factor p n (rest / p)
  | false ↦ rest
]

-- The test of `decimal_if_terminating` on the denominator.
unfoldable pub is_terminating : ℕ → Bool
unfolding strip_factor
is_terminating d = let halved = strip_factor 2 d d in strip_factor 5 halved halved == 1

-- `decimal_if_terminating`: the fraction stands for its finite decimal text.
unfoldable pub decimal_if_terminating : Fraction → Option Fraction
unfolding is_terminating
decimal_if_terminating q = if is_terminating q.den then some q else none

abbrev pub is_positive : Fraction → Bool
is_positive q = ltb_ℤ (pos 0) q.num

abbrev pub is_nonnegative : Fraction → Bool
is_nonnegative q = leb_ℤ (pos 0) q.num

half : decimal "-12.50" ≡ some (record { num = negsuc 1249; den = 100 })
unfolding decimal
half = refl
