-- ===== src/Valuation/Terminating.antt =====
-- valuation_engine.py: `decimal_if_terminating` accepts the denominators that divide a power of ten.
use Prim.Native.Nat.{◌^◌}
use native.Mathlib.Nat.{
  pow-zero, pow-succ', one-le-pow, mul-pos, mul_assoc, mul-mod_right, mul-div_right,
  mul-div_cancel', dvd_of_mod-eq-zero,
}
use zion_terminal.Base.{
  ℕ, zero, suc, ◌*◌, ◌/◌, ◌%◌, ◌≤◌, ◌<◌, true, ◌≡◌, ◌≢◌, refl, sym, ap, ◌∙◌, inl, inr, ◌↔◌,
  Bool-cases, ◌==◌, arith,
}
use zion_terminal.Valuation.Numbers.{strip_factor, is_terminating}

eq_zero_lem : (n : ℕ) → n == 0 ≡ true → n ≡ 0
eq_zero_lem n h = ground arith

-- One round takes one factor out.
strip_factor_step : (p n x : ℕ) → 0 < p → strip_factor p (suc n) (p * x) ≡ strip_factor p n x
unfolding strip_factor
strip_factor_step p n x h =
    rw (mul-mod_right p x, strip_factor) (ap (strip_factor p n) (mul-div_right x h))

-- A number that the prime does not divide is left.
strip_factor_stop : (p n x : ℕ) → x % p ≢ 0 → strip_factor p n x ≡ x
unfolding strip_factor
strip_factor_stop p zero x h = refl
strip_factor_stop p (suc n) x h = ground arith

regroup : (p a s r w : ℕ) → w ≡ a * s → p * w ≡ r → r ≡ p * a * s
regroup p a s r w h k = grind arith

-- The loop ends at a factor of what it started from, the rest being a power of the prime.
strip_factor-pow : (p n rest : ℕ) → (k : ℕ) × (rest ≡ p ^ k * strip_factor p n rest)
unfolding strip_factor
strip_factor-pow p zero rest = (0, rw (pow-zero p) (omega arith))
strip_factor-pow p (suc n) rest = elim (Bool-cases (rest % p == 0)) [
  | inl e ↦
      let (k, h) = strip_factor-pow p n (rest / p) in
      let whole = mul-div_cancel' p (dvd_of_mod-eq-zero p (eq_zero_lem (rest % p) e)) in
      (suc k, rw (e, strip_factor) (rw (pow-succ' p k) (regroup p (p ^ k) _ rest _ h whole)))
  | inr e ↦ (0, rw (e, strip_factor) (rw (pow-zero p) (omega arith)))
]

zero_mod : (p m : ℕ) → 2 ≤ p → m % p ≢ 0 → 0 < m
zero_mod p zero h o = absurd (o (grind arith))
zero_mod p (suc m) h o = omega arith

-- A multiple by two or more exceeds the number.
multiple_lem : (p x n : ℕ) → 2 ≤ p → 0 < x → p * x ≤ n → x < n
multiple_lem p x n h k l = grind arith

-- Enough rounds take the whole power of the prime out.
strip_factor_whole :
    (p a m n : ℕ) → 2 ≤ p → m % p ≢ 0 → p ^ a * m ≤ n → strip_factor p n (p ^ a * m) ≡ m
strip_factor_whole p zero m n h o l = rw (pow-zero p) (rw one_times (strip_factor_stop p n m o))
  where
    one_times : 1 * m ≡ m
    one_times = omega arith
strip_factor_whole p (suc a) m n h o l =
    rw (pow-succ' p a, mul_assoc p (p ^ a) m)
      (go (λ k. strip_factor_whole p a m k h o) n
        (multiple_lem p (p ^ a * m) n h (mul-pos (one-le-pow a p (omega arith)) (zero_mod p m h o))
          (rw (← mul_assoc p (p ^ a) m, ← pow-succ' p a) l)))
  where
    go :
        ((k : ℕ) → p ^ a * m ≤ k → strip_factor p k (p ^ a * m) ≡ m)
        → (k : ℕ) → p ^ a * m < k
        → strip_factor p k (p * (p ^ a * m)) ≡ m
    go next zero l = absurd (omega arith)
    go next (suc k) l = strip_factor_step p k (p ^ a * m) (omega arith) ∙ next k (omega arith)

five_odd : (b : ℕ) → 5 ^ b % 2 ≡ 1
five_odd zero = rw (pow-zero 5) refl
five_odd (suc b) = rw (pow-succ' 5 b) (omega (arith, five_odd b))

terminating_value : (d : ℕ) → is_terminating d ≡ true → (a : ℕ) × (b : ℕ) × (d ≡ 2 ^ a * 5 ^ b)
unfolding is_terminating
terminating_value d h =
    let halved = strip_factor 2 d d in
    let (a, e) = strip_factor-pow 2 d d in
    let (b, k) = strip_factor-pow 5 halved halved in
    (a, b, e ∙ ap (λ x. 2 ^ a * x) (k ∙ last (5 ^ b) _ h))
  where
    last : (x y : ℕ) → y == 1 ≡ true → x * y ≡ x
    last x y e = grind arith

power_terminating : (a b : ℕ) → is_terminating (2 ^ a * 5 ^ b) ≡ true
unfolding is_terminating
power_terminating a b =
    rw
      (strip_factor_whole 2 a (5 ^ b) (2 ^ a * 5 ^ b) (omega arith) (odd (five_odd b))
        (omega arith))
      (rw five (refl))
  where
    odd : {x : ℕ} → x ≡ 1 → x ≢ 0
    odd e z = omega arith

    one_times : (x : ℕ) → x * 1 ≡ x
    one_times x = omega arith

    five : strip_factor 5 (5 ^ b) (5 ^ b) ≡ 1
    five =
        ap (strip_factor 5 (5 ^ b)) (sym (one_times (5 ^ b)))
        ∙ strip_factor_whole 5 b 1 (5 ^ b) (omega arith) (λ e. omega arith) (omega arith)

-- A fraction whose denominator is `d` is printed as a decimal exactly when `d` is a power of two times a
-- power of five.
pub is_terminating_iff :
    (d : ℕ) → (is_terminating d ≡ true) ↔ ((a : ℕ) × (b : ℕ) × (d ≡ 2 ^ a * 5 ^ b))
is_terminating_iff d = (terminating_value d, back)
  where
    back : (a : ℕ) × (b : ℕ) × (d ≡ 2 ^ a * 5 ^ b) → is_terminating d ≡ true
    back (a, b, e) = rw e (power_terminating a b)
