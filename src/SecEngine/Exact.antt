-- ===== src/SecEngine/Exact.antt =====
-- sec_engine.py: the value that `calculate` derives for a difference of two figures.
use Prim.Native.Nat.{◌^◌}
use native.Mathlib.Nat.{pow-zero}
use zion_terminal.Base.{ℕ, ◌+◌, ◌-◌, ◌*◌, ◌≡◌, ap, ◌∙◌, arith}
use zion_terminal.Base.Int.{ℤ, pos, negsuc, pos_part, neg_part, sub_ℕ, scale_by, ◌+ℤ◌, eq_of_parts}
use zion_terminal.Base.{Option, some, List, [], ◌∷◌, String}
use zion_terminal.Base.Result.{ok}
use zion_terminal.SecEngine.Decimals.{
  Decimal, zero_decimal, greater, rescaled, add_decimal, sub_decimal,
}
use zion_terminal.SecEngine.Derivation.{Figure, subtract, combine, calculate_figure}
use zion_terminal.SecEngine.Trailing.{HaveValues, calculate_figure_lem}

ℤ_parts : (z : ℤ) → pos_part z * neg_part z ≡ 0
ℤ_parts (pos n) = omega arith
ℤ_parts (negsuc n) = omega arith

sub_parts : (x y : ℕ) → (pos_part (sub_ℕ x y) ≡ x - y) × (neg_part (sub_ℕ x y) ≡ y - x)
sub_parts x y = (ground arith, ground arith)

scale_parts :
    (n : ℕ) (a : ℤ)
    → (pos_part (scale_by n a) ≡ n * pos_part a) × (neg_part (scale_by n a) ≡ n * neg_part a)
unfolding scale_by
scale_parts n (pos m) = (grind arith, grind arith)
scale_parts n (negsuc m) = (grind arith, grind arith)

plus_parts :
    (x y : ℤ)
    → (pos_part (x +ℤ y) ≡ pos_part x + pos_part y - (neg_part x + neg_part y))
      × (neg_part (x +ℤ y) ≡ neg_part x + neg_part y - (pos_part x + pos_part y))
unfolding ◌+ℤ◌
plus_parts x y = sub_parts (pos_part x + pos_part y) (neg_part x + neg_part y)

plus_zero : (n m : ℕ) (z : ℤ) → m ≡ 1 → scale_by n (pos 0) +ℤ scale_by m z ≡ z
plus_zero n m z h = eq_of_parts _ z (
    omega (
      arith,
      plus_parts (scale_by n (pos 0)) (scale_by m z),
      scale_parts n (pos 0),
      scale_parts m z,
      ap (λ (t : ℕ). t * pos_part z) h,
      ap (λ (t : ℕ). t * neg_part z) h,
      ℤ_parts z,
    ))

-- Nothing added to a decimal leaves it.
zero_left : (a : Decimal) → add_decimal zero_decimal a ≡ a
unfolding add_decimal rescaled
zero_left a = same (none_added a.places) (ap (λ n. 10 ^ n) (no_shift a.places) ∙ pow-zero 10)
  where
    none_added : (p : ℕ) → greater 0 p ≡ p
    none_added p = ground arith

    no_shift : (p : ℕ) → greater 0 p - p ≡ 0
    no_shift p = ground arith

    same :
        greater 0 a.places ≡ a.places
        → 10 ^ (greater 0 a.places - a.places) ≡ 1
        → add_decimal zero_decimal a ≡ a
    same e f = λ i. record {
      digits =
          plus_zero (10 ^ (greater 0 a.places - 0)) (10 ^ (greater 0 a.places - a.places)) a.digits
            f i;
      places = e i;
    }

-- The value of a difference.
pub difference_lem :
    (metric : String) (start : Option ℕ) (ending : ℕ) (p q : Figure) {f : Figure}
    → calculate_figure subtract metric start ending p (q ∷ []) ≡ ok f
    → (a : Decimal) × (b : Decimal) × (p.value_decimal ≡ some a)
      × (q.value_decimal ≡ some b)
      × (f.value_decimal ≡ some (sub_decimal a b))
difference_lem metric start ending p q {f = f} h =
    let (a, rest, values, total, starts, ends, same) =
      calculate_figure_lem subtract metric start ending p (q ∷ []) h in
    difference a rest values total
  where
    difference :
        (a : Decimal) (rest : List Decimal)
        → HaveValues (p ∷ q ∷ []) (a ∷ rest)
        → f.value_decimal ≡ some (combine subtract a rest)
        → (a : Decimal) × (b : Decimal) × (p.value_decimal ≡ some a)
          × (q.value_decimal ≡ some b)
          × (f.value_decimal ≡ some (sub_decimal a b))
    difference a [] values total = absurd values.1
    difference a (b ∷ c ∷ rest) values total = absurd values.1.1
    difference a (b ∷ []) values total = (
      a,
      b,
      values.0,
      values.1.0,
      total ∙ unfold combine in ap (λ x. some (sub_decimal a x)) (zero_left b),
    )
