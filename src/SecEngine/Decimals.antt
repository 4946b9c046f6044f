-- ===== src/SecEngine/Decimals.antt =====
-- sec_engine.py: the decimals of the source, which stand for their texts in fixed notation, and the
-- precision that a sum of them takes. A text -0 is not told from 0.
use zion_terminal.Base.{
  ℕ, zero, suc, ◌+◌, ◌-◌, ◌/◌, Bool, true, false, ◌&&◌, Option, none, some, List, [], ◌∷◌, ◌==◌,
  ltb, leb, map, ◌≡◌, refl, if◌then◌else◌,
}
use Prim.Native.Nat.{◌^◌}
use zion_terminal.Base.Int.{ℤ, pos, negsuc, abs, eq_ℤ, ltb_ℤ, scale_by, ◌+ℤ◌, ◌-ℤ◌}

-- `digits` over ten to the power `places`
pub record Decimal : Type 0 where
  pub digits : ℤ
  pub places : ℕ

-- One text: 1.0 and 1.00 differ.
unfoldable pub same_text : Decimal → Decimal → Bool
same_text a b = eq_ℤ a.digits b.digits && a.places == b.places

abbrev pub same_optional : Option Decimal → Option Decimal → Bool
same_optional none none = true
same_optional (some a) (some b) = same_text a b
same_optional _ _ = false

abbrev pub is_negative : Decimal → Bool
is_negative a = ltb_ℤ a.digits (pos 0)

abbrev pub is_zero : Decimal → Bool
is_zero a = eq_ℤ a.digits (pos 0)

-- The number of digits of `n`, and one for 0; the fuel counts divisions by ten.
unfoldable pub digit_count : ℕ → ℕ → ℕ
digit_count zero n = 1
digit_count (suc fuel) n = elim (ltb n 10) [ true ↦ 1 | false ↦ suc (digit_count fuel (n / 10)) ]

-- `len(v.as_tuple().digits)`
unfoldable pub size : Decimal → ℕ
unfolding digit_count
size a = digit_count (abs a.digits) (abs a.digits)

-- `max(v.adjusted())` and `min(v.as_tuple().exponent)`, as the digits before and behind the point
abbrev pub greater : ℕ → ℕ → ℕ
greater a b = if leb a b then b else a

unfoldable pub max_of : List ℕ → ℕ
max_of [] = 0
max_of (n ∷ ns) = greater n (max_of ns)

abbrev pub places_of : List Decimal → ℕ
places_of vals = max_of (map (λ (v : Decimal). v.places) vals)

-- The digits of each number, with its zeros down to the last place of all.
abbrev pub width_of : List Decimal → ℕ
width_of vals = max_of (map (λ (v : Decimal). size v + (places_of vals - v.places)) vals)

-- `ctx.prec` without the reserve for carries
unfoldable pub precision : ℕ → List Decimal → ℕ
unfolding max_of size
precision count vals = greater 1 (width_of vals) + count + 4

-- The digits of a number with more places.
unfoldable pub rescaled : ℕ → Decimal → ℤ
rescaled places a = scale_by (10 ^ (places - a.places)) a.digits

unfoldable pub add_decimal : Decimal → Decimal → Decimal
unfolding rescaled
add_decimal a b =
    let places = greater a.places b.places in
    record { digits = rescaled places a +ℤ rescaled places b; places = places }

unfoldable pub sub_decimal : Decimal → Decimal → Decimal
unfolding rescaled
sub_decimal a b =
    let places = greater a.places b.places in
    record { digits = rescaled places a -ℤ rescaled places b; places = places }

abbrev pub zero_decimal : Decimal
zero_decimal = record { digits = pos 0; places = 0 }

-- `sum(vals, Decimal(0))`
unfoldable pub sum_from : Decimal → List Decimal → Decimal
unfolding add_decimal
sum_from total [] = total
sum_from total (v ∷ vals) = sum_from (add_decimal total v) vals

cents :
    add_decimal
      (record { digits = pos 15; places = 1 })
      (record { digits = negsuc 149; places = 2 })
    ≡ record { digits = pos 0; places = 2 }
unfolding add_decimal scale_by ◌+ℤ◌
cents = refl
