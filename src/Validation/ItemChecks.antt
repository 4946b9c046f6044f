-- ===== src/Validation/ItemChecks.antt =====
-- agents/validation/agent.py: what it takes for one check on an item not to fail.
use zion_terminal.Base.{
  ℕ, ◌*◌, ◌&&◌, ltb, ◌≡◌, ◌≢◌, refl, ◌↔◌, inl, inr, Bool, true, false, Option, none, some, List, [],
  ◌∷◌, arith, Bool-cases, if◌then◌else◌,
}
use mathlib.Core.Path.{subst}
use zion_terminal.Base.Result.{ok, err, ◌>>=◌, ok_injective}
use zion_terminal.Base.Int.{ℤ, pos, ◌≤ℤ◌, ◌<ℤ◌, abs, ltb_ℤ, leb_ℤ}
use zion_terminal.Base.Json.{
  Json, Fields, end, get, truthy, or_else, is_set, number?, one, arr, cons,
}
use zion_terminal.Models.Responses.{failed, passed, warning, ValidationCheck}
use zion_terminal.Validation.Checks.{
  check_volume_number, Checked, compare_income, income_check, compare_balance, balance_check,
  check_scale, in_bounds,
}
use zion_terminal.Validation.Agent.{check_order, order_check, when}
use zion_terminal.Validation.Summary.{NoneFailed}

-- A price that is present is a number above 0 and below one million.
abbrev pub PriceSound : Json → Type 0
PriceSound price =
    (is_set price ≡ true)
    → (z : ℤ) × (number? price ≡ some z) × (pos 0 <ℤ z) × (z <ℤ pos (1000000 * one))

in_bounds_of :
    (z y : ℤ)
    → ◌≡◌ {A = Option ℤ} (some z) (some y)
    → pos 0 <ℤ y
    → y <ℤ pos (1000000 * one)
    → in_bounds (some z) ≡ true
in_bounds_of z y e low high = rw (option_injective e) (ground arith)
  where
    option_injective : ◌≡◌ {A = Option ℤ} (some z) (some y) → z ≡ y
    option_injective f = cc

pub in_bounds_iff :
    (o : Option ℤ)
    → (in_bounds o ≡ true) ↔ ((z : ℤ) × (o ≡ some z) × (pos 0 <ℤ z) × (z <ℤ pos (1000000 * one)))
in_bounds_iff none = (λ h. cc, λ h. cc)
in_bounds_iff (some z) = (
  λ h. (z, refl, ground arith, ground arith),
  λ h. let (y, e, low, high) = h in in_bounds_of z y e low high,
)

-- A volume that is a number is not negative.
abbrev pub VolumeSound : Json → Type 0
VolumeSound volume = (z : ℤ) → number? volume ≡ some z → pos 0 ≤ℤ z

-- What an item needs: some field, a source, a volume that is not negative, and a tested price in bounds,
-- where the close is tested in place of a price that is falsy.
abbrev pub Sound : Fields → Type 0
Sound item =
    (item ≢ end)
    × (truthy (get "source" item) ≡ true)
    × PriceSound (or_else (get "price" item) (get "close" item))
    × VolumeSound (get "volume" item)

pub volume_number_iff :
    (i : ℕ) (v : Json) (o : Option ℤ)
    → NoneFailed (check_volume_number i v o) ↔ ((z : ℤ) → o ≡ some z → pos 0 ≤ℤ z)
unfolding check_volume_number
volume_number_iff i v none = (λ h z e. cc, λ h. tt)
volume_number_iff i v (some z) = elim (Bool-cases (leb_ℤ (pos 0) z)) [
  | inl b ↦ rw b (λ h y e. ground arith, λ h. ((λ f. cc), tt))
  | inr b ↦ rw b (λ h. absurd (h.0 refl), λ h. let n = h z refl in absurd (ground arith))
]

-- A call that may raise, and that returns only checks that did not fail.
pub record Safe (m : Checked (List ValidationCheck)) : Type 0 where
  pub returned : (cs : List ValidationCheck) → m ≡ ok cs → NoneFailed cs

pub Safe-ok : (cs : List ValidationCheck) → NoneFailed cs → Safe (ok cs)
Safe-ok cs h = record { returned = λ ds e. subst NoneFailed (ok_injective e) h }

pub Safe-bind :
    {A : Type 0} (m : Checked A) (f : A → Checked (List ValidationCheck))
    → ((a : A) → Safe (f a))
    → Safe (m >>= f)
Safe-bind (ok a) f h = h a
Safe-bind (err e) f h = record { returned = λ cs q. cc }

pub Safe-if :
    (b : Bool) (m n : Checked (List ValidationCheck)) → Safe m → Safe n → Safe (if b then m else n)
Safe-if true m n hm hn = hm
Safe-if false m n hm hn = hn

pub Safe-when : (b : Bool) (m : Checked (List ValidationCheck)) → Safe m → Safe (when b m)
Safe-when true m h = h
Safe-when false m h = Safe-ok [] tt

pub passed_ne : passed ≢ failed
passed_ne f = cc

warning_ne : warning ≢ failed
warning_ne f = cc

-- A list with one check, whichever of two it is.
one_of :
    (b : Bool) (c d : ValidationCheck)
    → c.status ≢ failed
    → d.status ≢ failed
    → NoneFailed (if b then c ∷ [] else d ∷ [])
one_of true c d hc hd = (hc, tt)
one_of false c d hc hd = (hd, tt)

pub income_check_lem : (i : ℕ) (gp : Json) (x r g : ℤ) → NoneFailed (income_check i gp x r g)
unfolding income_check
income_check_lem i gp x r g = one_of _ _ _ (λ f. cc) (λ f. cc)

pub balance_check_lem : (i : ℕ) (a l e : Json) (x y : ℤ) → NoneFailed (balance_check i a l e x y)
unfolding balance_check
balance_check_lem i a l e x y = one_of _ _ _ (λ f. cc) (λ f. cc)

pub order_check_lem : (i n : ℕ) (b : Bool) → NoneFailed (order_check i n b)
unfolding order_check
order_check_lem i n b = one_of b _ _ (λ f. cc) (λ f. cc)

pub ruleset safe_rules =
    (Safe-ok, Safe-bind, Safe-if, income_check_lem, balance_check_lem, order_check_lem)

pub compare_income-Safe : (i : ℕ) (r c g : Json) → Safe (compare_income i r c g)
unfolding compare_income
compare_income-Safe i r c g = search safe_rules depth 8

pub compare_balance-Safe : (i : ℕ) (a l e : Json) → Safe (compare_balance i a l e)
unfolding compare_balance
compare_balance-Safe i a l e = search safe_rules depth 8

pub check_order-Safe : (i : ℕ) (x : Json) → Safe (check_order i x)
unfolding check_order
check_order-Safe i (arr (cons p (cons q ps))) = search safe_rules
check_order-Safe i _ = search safe_rules

-- At most one check, which did not fail.
pub optional :
    (b : Bool) (c : ValidationCheck) → c.status ≢ failed → NoneFailed (if b then c ∷ [] else [])
optional true c h = (h, tt)
optional false c h = tt

pub scale-NoneFailed : (i : ℕ) (x : Json) (o : Option ℤ) → NoneFailed (check_scale i x o)
unfolding check_scale
scale-NoneFailed i x none = tt
scale-NoneFailed i x (some r) = elim (Bool-cases (ltb 0 (abs r) && ltb (abs r) (1000 * one))) [
  | inl a ↦ rw a (elim (Bool-cases (ltb_ℤ r (pos 0))) [
    | inl b ↦ rw b (warning_ne, (warning_ne, tt))
    | inr b ↦ rw b (warning_ne, tt)
  ])
  | inr a ↦ rw a (elim (Bool-cases (ltb_ℤ r (pos 0))) [
    | inl b ↦ rw b (passed_ne, (warning_ne, tt))
    | inr b ↦ rw b (passed_ne, tt)
  ])
]
