-- ===== src/Base/Fractions.antt =====
-- Python's `Fraction`: an integer over a positive number, in lowest terms where it is shown.
use Prim.Native.Nat.{ℕ, zero, suc, ◌+◌, ◌*◌, ◌/◌, ◌%◌, ◌<◌, ◌∣◌}
use mathlib.Core.Path.{◌≡◌, refl, ap, ◌∙◌}
use mathlib.Core.Bool.{true, false}
use mathlib.Core.Logic.{inl, inr}
use native.Mathlib.Nat.{div-mul_cancel, dvd_refl, dvd-zero, dvd-mod_iff}
use native.Mathlib.Omega.{arith}
use zion_terminal.Base.Tests.{◌==◌, Bool-cases}
use zion_terminal.Base.Int.{ℤ, pos, negsuc, pos_part, neg_part, abs, sub_ℕ, ◌+ℤ◌, ◌-ℤ◌}

-- Euclid's loop, on a number of rounds that `b` bounds.
unfoldable pub gcd_rounds : ℕ → ℕ → ℕ → ℕ
gcd_rounds zero a b = a
gcd_rounds (suc n) a b = elim (b == 0) [ true ↦ a | false ↦ gcd_rounds n b (a % b) ]

unfoldable pub gcd : ℕ → ℕ → ℕ
unfolding gcd_rounds
gcd a b = gcd_rounds (suc b) a b

gcd_rounds-dvd : (n a b : ℕ) → b < n → (gcd_rounds n a b ∣ a) × (gcd_rounds n a b ∣ b)
unfolding gcd_rounds
gcd_rounds-dvd zero a b h = absurd (omega arith)
gcd_rounds-dvd (suc n) a b h = elim (Bool-cases (b == 0)) [
  | inl e ↦ let z : b ≡ 0 = ground arith in rw (e, gcd_rounds) (dvd_refl a, rw z (dvd-zero a))
  | inr e ↦
      let (left, right) = gcd_rounds-dvd n b (a % b) (smaller (ground arith)) in
      rw (e, gcd_rounds) ((dvd-mod_iff _ left).0 right, left)
]
  where
    smaller : 0 < b → a % b < n
    smaller p = grind arith

pub gcd-dvd : (a b : ℕ) → (gcd a b ∣ a) × (gcd a b ∣ b)
unfolding gcd
gcd-dvd a b = gcd_rounds-dvd (suc b) a b (omega arith)

cross_of : (g q r n d : ℕ) → q * g ≡ n → r * g ≡ d → d * q ≡ r * n
cross_of g q r n d hn hd = rw (← hn, ← hd) (omega arith)

sub_ℕ_parts : (k : ℕ) → (pos_part (sub_ℕ 0 k) ≡ 0) × (neg_part (sub_ℕ 0 k) ≡ k)
sub_ℕ_parts k = (ground arith, ground arith)

-- Dividing either factor of a product by a common divisor gives one result.
cross : (g n d : ℕ) → g ∣ n → g ∣ d → d * (n / g) ≡ d / g * n
cross g n d hn hd = cross_of g (n / g) (d / g) n d (div-mul_cancel g hn) (div-mul_cancel g hd)

pub record Fraction : Type 0 where
  pub num : ℤ
  pub den : ℕ

-- `a * b`
unfoldable pub mul_ℤ : ℤ → ℤ → ℤ
mul_ℤ a b =
    sub_ℕ (pos_part a * pos_part b + neg_part a * neg_part b)
      (pos_part a * neg_part b + neg_part a * pos_part b)

unfoldable pub add_fraction : Fraction → Fraction → Fraction
unfolding mul_ℤ
add_fraction a b = record {
  num = mul_ℤ a.num (pos b.den) +ℤ mul_ℤ b.num (pos a.den);
  den = a.den * b.den;
}

unfoldable pub sub_fraction : Fraction → Fraction → Fraction
unfolding mul_ℤ
sub_fraction a b = record {
  num = mul_ℤ a.num (pos b.den) -ℤ mul_ℤ b.num (pos a.den);
  den = a.den * b.den;
}

unfoldable pub mul_fraction : Fraction → Fraction → Fraction
unfolding mul_ℤ
mul_fraction a b = record { num = mul_ℤ a.num b.num; den = a.den * b.den }

-- `a / b` for a positive `b`
unfoldable pub div_fraction : Fraction → Fraction → Fraction
unfolding mul_ℤ
div_fraction a b = record { num = mul_ℤ a.num (pos b.den); den = a.den * pos_part b.num }

abbrev pub one_fraction : Fraction
one_fraction = record { num = pos 1; den = 1 }

-- An integer with the sign of `z` and the size `n`.
abbrev pub with_sign : ℤ → ℕ → ℤ
with_sign (pos m) n = pos n
with_sign (negsuc m) n = sub_ℕ 0 n

-- The fraction in lowest terms.
unfoldable pub lowest : Fraction → Fraction
unfolding gcd
lowest q =
    let g = gcd (abs q.num) q.den in
    record { num = with_sign q.num (abs q.num / g); den = q.den / g }

-- Two fractions have one value: their cross products agree, for the positive and the negative parts.
abbrev pub SameValue : Fraction → Fraction → Type 0
SameValue a b =
    (b.den * pos_part a.num ≡ a.den * pos_part b.num)
    × (b.den * neg_part a.num ≡ a.den * neg_part b.num)

lowest_of :
    (z : ℤ) (d g : ℕ)
    → g ∣ abs z
    → g ∣ d
    → (d * pos_part (with_sign z (abs z / g)) ≡ d / g * pos_part z)
      × (d * neg_part (with_sign z (abs z / g)) ≡ d / g * neg_part z)
lowest_of (pos n) d g hn hd =
    let e = cross g (n + 0) d hn hd in
    let k : n + 0 ≡ n = omega arith in (e ∙ rw k refl, omega arith)
lowest_of (negsuc n) d g hn hd =
    let (p, m) = sub_ℕ_parts ((0 + suc n) / g) in
    let e = cross g (0 + suc n) d hn hd in
    let k : 0 + suc n ≡ suc n = omega arith in
    (rw p (omega arith), ap (λ x. d * x) m ∙ e ∙ rw k refl)

-- Lowest terms keep the value.
pub lowest-SameValue : (q : Fraction) → SameValue (lowest q) q
unfolding lowest
lowest-SameValue q =
    let (a, b) = gcd-dvd (abs q.num) q.den in lowest_of q.num q.den (gcd (abs q.num) q.den) a b
