-- ===== src/Base/Result.antt =====
-- Python's exceptions: a call that may raise returns a `Result` over the errors of its module.
use mathlib.Core.Path.{◌≡◌, refl, subst}
use mathlib.Core.Bool.{Bool, true, false}
use zion_terminal.Base.Tests.{if◌then◌else◌}

pub data Result {ℓ κ} (E : Type κ) (A : Type ℓ) : Type (ℓ ⊔ κ) where
  ok : A → Result E A
  err : E → Result E A

module _ {ℓ κ μ} {E : Type μ} {A : Type ℓ} {B : Type κ} where
  infixl 5 ◌>>=◌ ◌>>◌
  -- The first error ends a chain of calls.
  abbrev pub ◌>>=◌ : (first : Result E A) (next : A → Result E B) → Result E B
  err problem >>= next = err problem
  ok value >>= next = next value

  abbrev pub ◌>>◌ : (first : Result E A) (next : Result E B) → Result E B
  err problem >> next = err problem
  ok value >> next = next

  -- A bind that returns has a first part that returns.
  pub >>=-eq-ok :
      (first : Result E A) (next : A → Result E B) {answer : B}
      → (first >>= next) ≡ ok answer
      → (value : A) × (first ≡ ok value) × (next value ≡ ok answer)
  >>=-eq-ok (err problem) next returned = cc
  >>=-eq-ok (ok value) next returned = (value, refl, returned)

-- A check that is passed, before a call that returns.
pub >>-eq-ok {ℓ κ μ} :
    {E : Type μ} {A : Type ℓ} {B : Type κ} (first : Result E A) (next : Result E B) {answer : B}
    → (first >> next) ≡ ok answer
    → (value : A) × (first ≡ ok value) × (next ≡ ok answer)
>>-eq-ok (err problem) next returned = cc
>>-eq-ok (ok value) next returned = (value, refl, returned)

-- Three calls whose results are put together: where the whole returns, each of them does.
pub bind_three-eq-ok {ℓ μ} :
    {E : Type μ} {A B C D : Type ℓ} (k : Result E A) (m : Result E B) (n : Result E C)
    (f : A → B → C → D) {d : D}
    → (k >>= λ a. m >>= λ b. n >>= λ c. ok (f a b c)) ≡ ok d
    → (a : A) × (b : B) × (c : C) × (k ≡ ok a) × (m ≡ ok b) × (n ≡ ok c) × (f a b c ≡ d)
bind_three-eq-ok (ok a) (ok b) (ok c) f h = (a, b, c, refl, refl, refl, cc)
bind_three-eq-ok (ok a) (ok b) (err e) f h = cc
bind_three-eq-ok (ok a) (err e) n f h = cc
bind_three-eq-ok (err e) m n f h = cc

pub ok_injective {ℓ μ} :
    {E : Type μ} {A : Type ℓ} {x y : A} → ◌≡◌ {A = Result E A} (ok x) (ok y) → x ≡ y
ok_injective e = cc

-- What a call ensures of the value that it returns, if it returns one.
pub record Ensures {ℓ κ μ} {E : Type μ} {A : Type ℓ} (P : A → Type κ) (m : Result E A)
    : Type (ℓ ⊔ κ ⊔ μ) where
  pub returned : (a : A) → m ≡ ok a → P a

module _ {ℓ κ μ} {E : Type μ} {B : Type ℓ} {P : B → Type κ} where
  pub Ensures-ok : (b : B) → P b → Ensures {E = E} P (ok b)
  Ensures-ok b h = record { returned = λ c e. subst P (ok_injective e) h }

  pub Ensures-err : (e : E) → Ensures P (err e)
  Ensures-err e = record { returned = λ b h. cc }

  pub Ensures-if :
      (b : Bool) (m n : Result E B)
      → (b ≡ true → Ensures P m)
      → (b ≡ false → Ensures P n)
      → Ensures P (if b then m else n)
  Ensures-if true m n hm hn = hm refl
  Ensures-if false m n hm hn = hn refl

module _ {ℓ κ μ} {E : Type μ} {A B : Type ℓ} {P : B → Type κ} where
  -- The rest of a chain may use that its first call returned.
  pub Ensures-bind :
      (m : Result E A) (f : A → Result E B)
      → ((a : A) → m ≡ ok a → Ensures P (f a))
      → Ensures P (m >>= f)
  Ensures-bind (ok a) f h = h a refl
  Ensures-bind (err e) f h = record { returned = λ b k. cc }

-- What is left of a test that raises.
pub otherwise {ℓ μ} :
    {E : Type μ} {A : Type ℓ} (b : Bool) (e : E) (m : Result E A) {a : A}
    → (if b then err e else m) ≡ ok a
    → (b ≡ false) × (m ≡ ok a)
otherwise true e m h = cc
otherwise false e m h = (refl, h)
