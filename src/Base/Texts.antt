-- ===== src/Base/Texts.antt =====
-- The order of texts by their code points, as Python compares `str`.
use Prim.Native.Nat.{ℕ, Ordering, compare as compare_ℕ}
use Prim.Native.Char.{Char, code}
use Prim.Native.String.compare
use Prim.Native.String.{String, [], ◌∷◌, compare, then}
use mathlib.Core.Path.{◌≡◌, refl, sym, ap, ◌∙◌}
use mathlib.Core.Bool.{Bool, true, false}
use mathlib.Core.Logic.{◌⊎◌, inl, inr}
use native.Mathlib.Omega.{arith}

abbrev not_gt : Ordering → Bool
not_gt Ordering.gt = false
not_gt _ = true

-- `s <= t`
unfoldable pub str_leb : String → String → Bool
str_leb s t = not_gt (compare s t)

flip : Ordering → Ordering
flip Ordering.lt = Ordering.gt
flip Ordering.eq = Ordering.eq
flip Ordering.gt = Ordering.lt

flip-then : (o r : Ordering) → flip (then o r) ≡ then (flip o) (flip r)
unfolding flip
flip-then Ordering.lt r = refl
flip-then Ordering.eq r = refl
flip-then Ordering.gt r = refl

compare_ℕ-flip : (m n : ℕ) → compare_ℕ n m ≡ flip (compare_ℕ m n)
unfolding flip
compare_ℕ-flip m n = ground arith

compare-flip : (s t : String) → compare t s ≡ flip (compare s t)
compare-flip [] [] = unfold flip in refl
compare-flip [] (d ∷ t) = rw (compare.nil-cons, compare.cons-nil) (unfold flip in refl)
compare-flip (c ∷ s) [] = rw (compare.nil-cons, compare.cons-nil) (unfold flip in refl)
compare-flip (c ∷ s) (d ∷ t) =
    compare.cons-cons d c t s
    ∙ (λ i. then (compare_ℕ-flip (code c) (code d) i) (compare-flip s t i))
    ∙ sym (flip-then (compare_ℕ (code c) (code d)) (compare s t))
    ∙ sym (ap flip (compare.cons-cons c d s t))

not_gt-flip : (o : Ordering) → not_gt o ≡ false → not_gt (flip o) ≡ true
unfolding flip
not_gt-flip Ordering.lt h = cc
not_gt-flip Ordering.eq h = cc
not_gt-flip Ordering.gt h = refl

pub str_leb_total : (s t : String) → str_leb s t ≡ false → str_leb t s ≡ true
unfolding str_leb
str_leb_total s t h = ap not_gt (compare-flip s t) ∙ not_gt-flip (compare s t) h

-- The first characters decide, or they are equal and the rest does.
then_cases :
    (o r : Ordering)
    → not_gt (then o r) ≡ true
    → (o ≡ Ordering.lt) ⊎ ((o ≡ Ordering.eq) × (not_gt r ≡ true))
then_cases Ordering.lt r h = inl refl
then_cases Ordering.eq r h = inr (refl, h)
then_cases Ordering.gt r h = cc

then_lt : (o r : Ordering) → o ≡ Ordering.lt → not_gt (then o r) ≡ true
then_lt Ordering.lt r h = refl
then_lt Ordering.eq r h = cc
then_lt Ordering.gt r h = cc

then_eq : (o r : Ordering) → o ≡ Ordering.eq → not_gt r ≡ true → not_gt (then o r) ≡ true
then_eq Ordering.eq r h k = k
then_eq Ordering.lt r h k = cc
then_eq Ordering.gt r h k = cc

lt_trans :
    (a b c : ℕ)
    → compare_ℕ a b ≡ Ordering.lt
    → compare_ℕ b c ≡ Ordering.lt
    → compare_ℕ a c ≡ Ordering.lt
lt_trans a b c h k = ground arith

lt-eq :
    (a b c : ℕ)
    → compare_ℕ a b ≡ Ordering.lt
    → compare_ℕ b c ≡ Ordering.eq
    → compare_ℕ a c ≡ Ordering.lt
lt-eq a b c h k = ground arith

eq-lt :
    (a b c : ℕ)
    → compare_ℕ a b ≡ Ordering.eq
    → compare_ℕ b c ≡ Ordering.lt
    → compare_ℕ a c ≡ Ordering.lt
eq-lt a b c h k = ground arith

eq_trans :
    (a b c : ℕ)
    → compare_ℕ a b ≡ Ordering.eq
    → compare_ℕ b c ≡ Ordering.eq
    → compare_ℕ a c ≡ Ordering.eq
eq_trans a b c h k = ground arith

-- No text with a character comes before the empty one.
not_below_empty : {A : Type 0} (c : Char) (s : String) → not_gt (compare (c ∷ s) []) ≡ true → A
not_below_empty c s h = refused (rw compare.cons-nil at h)
  where
    refused : {B : Type 0} → not_gt Ordering.gt ≡ true → B
    refused e = cc

then_trans :
    (a b c : ℕ) (q r p : Ordering)
    → (not_gt q ≡ true → not_gt r ≡ true → not_gt p ≡ true)
    → not_gt (then (compare_ℕ a b) q) ≡ true
    → not_gt (then (compare_ℕ b c) r) ≡ true
    → not_gt (then (compare_ℕ a c) p) ≡ true
then_trans a b c q r p rest h k = elim (then_cases (compare_ℕ a b) q h) [
  | inl e ↦ elim (then_cases (compare_ℕ b c) r k) [
    | inl f ↦ then_lt _ p (lt_trans a b c e f)
    | inr (f, y) ↦ then_lt _ p (lt-eq a b c e f)
  ]
  | inr (e, x) ↦ elim (then_cases (compare_ℕ b c) r k) [
    | inl f ↦ then_lt _ p (eq-lt a b c e f)
    | inr (f, y) ↦ then_eq _ p (eq_trans a b c e f) (rest x y)
  ]
]

not_gt_trans :
    (s t u : String)
    → not_gt (compare s t) ≡ true
    → not_gt (compare t u) ≡ true
    → not_gt (compare s u) ≡ true
not_gt_trans [] t [] h k = refl
not_gt_trans [] t (e ∷ u) h k = rw compare.nil-cons refl
not_gt_trans (c ∷ s) [] u h k = not_below_empty c s h
not_gt_trans (c ∷ s) (d ∷ t) [] h k = not_below_empty d t k
not_gt_trans (c ∷ s) (d ∷ t) (e ∷ u) h k = rw (compare.cons-cons c e s u) (
    then_trans (code c) (code d) (code e) (compare s t) (compare t u) (compare s u)
      (not_gt_trans s t u) (rw (compare.cons-cons c d s t) at h)
      (rw (compare.cons-cons d e t u) at k))

pub str_leb_trans : (s t u : String) → str_leb s t ≡ true → str_leb t u ≡ true → str_leb s u ≡ true
unfolding str_leb
str_leb_trans s t u h k = not_gt_trans s t u h k
