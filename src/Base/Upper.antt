-- ===== src/Base/Upper.antt =====
-- `str.upper()`, `str.lower()`, `str.strip()` and `str.replace(" ", "_")` on ASCII texts, such as tickers and form names.
use Prim.Native.Nat.{ℕ, ◌+◌, ◌-◌, ◌<◌, compare, Ordering}
use Prim.Native.Char.{Char, char, code, IsScalar}
use Prim.Native.String.{String, [], ◌∷◌}
use mathlib.Core.Path.{◌≡◌, refl}
use mathlib.Core.Bool.{Bool, true, false, ◌&&◌, ◌||◌}
use text.Mathlib.Text.{◌==◌ as str_eq}
use mathlib.Core.Option.{Option, none, some}
use native.Mathlib.Omega.{arith}
use native.Mathlib.Decide.{dec_le}
use zion_terminal.Base.Tests.{leb, ◌==◌, if◌then◌else◌}

below_surrogates : (n : ℕ) → n < 55296 → compare n 55296 ≡ Ordering.lt
below_surrogates n h = ground arith

pub IsScalar-small : (n : ℕ) → n < 55296 → IsScalar n
IsScalar-small n h = rw (below_surrogates n h) tt

-- A lower-case ASCII letter becomes its capital.
unfoldable pub upper_char : Char → Char
unfolding dec_le
upper_char c = elim (dec_le 97 (code c)) [
  | yes _ ↦ elim (dec_le (code c) 122) [
    | yes h ↦ char (code c - 32) (IsScalar-small (code c - 32) (omega arith))
    | no _ ↦ c
  ]
  | no _ ↦ c
]

-- `s.upper()`
unfoldable pub upper : String → String
unfolding upper_char
upper [] = []
upper (c ∷ s) = upper_char c ∷ upper s

-- A capital ASCII letter becomes its lower-case letter.
unfoldable pub lower_char : Char → Char
unfolding dec_le
lower_char c = elim (dec_le 65 (code c)) [
  | yes _ ↦ elim (dec_le (code c) 90) [
    | yes h ↦ char (code c + 32) (IsScalar-small (code c + 32) (omega arith))
    | no _ ↦ c
  ]
  | no _ ↦ c
]

-- `s.lower()`
unfoldable pub lower : String → String
unfolding lower_char
lower [] = []
lower (c ∷ s) = lower_char c ∷ lower s

-- The ASCII white space: space and the codes from tab to carriage return.
abbrev pub is_space : Char → Bool
is_space c = code c == 32 || (leb 9 (code c) && leb (code c) 13)

unfoldable pub lstrip : (Char → Bool) → String → String
lstrip p [] = []
lstrip p (c ∷ s) = let rest = lstrip p s in if p c then rest else c ∷ s

unfoldable pub rstrip : (Char → Bool) → String → String
rstrip p [] = []
rstrip p (c ∷ s) = let rest = rstrip p s in if p c && str_eq rest "" then [] else c ∷ rest

-- `s.strip(chars)`, for the characters that `p` accepts
unfoldable pub strip_of : (Char → Bool) → String → String
unfolding lstrip rstrip
strip_of p s = rstrip p (lstrip p s)

-- `s.strip()`
unfoldable pub strip : String → String
unfolding strip_of
strip s = strip_of is_space s

-- `s.replace(" ", "_")`
unfoldable pub underscored : String → String
underscored [] = []
underscored (c ∷ s) = (if code c == 32 then "_" else c) ∷ underscored s

-- `s.startswith(p)`
unfoldable pub is_prefix : String → String → Bool
is_prefix [] s = true
is_prefix (c ∷ p) [] = false
is_prefix (c ∷ p) (d ∷ s) = code c == code d && is_prefix p s

upper_ticker : upper "aapl1" ≡ "AAPL1"
unfolding upper
upper_ticker = refl

strip_label : strip (lower " Net Income ") ≡ "net income"
unfolding strip lower
strip_label = refl

unfoldable without : String → String → Option String
without [] s = some s
without (c ∷ p) [] = none
without (c ∷ p) (d ∷ s) = if code c == code d then without p s else none

-- `s.removeprefix(p)`
unfoldable pub remove_prefix : String → String → String
unfolding without
remove_prefix p s = elim (without p s) [ none ↦ s | some rest ↦ rest ]
