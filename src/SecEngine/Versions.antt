-- ===== src/SecEngine/Versions.antt =====
-- sec_engine.py: what the choice of the latest row and of the least id keep of the rows.
use zion_terminal.Base.{
  ℕ, Option, none, some, arith, ap, Bool, true, false, List, [], ◌∷◌, String, ◌≡◌, refl, All, keep,
  is_empty, ◌⊎◌, inl, inr, Bool-cases, if_both, if◌then◌else◌,
}
use zion_terminal.Base.Texts.{str_leb, str_leb_total, str_leb_trans}
use zion_terminal.SecEngine.Derivation.{latest_text}
use zion_terminal.SecEngine.Sources.{Row, same_start}
use zion_terminal.SecEngine.Selection.{least_row}

module _ (P : Row → Type 0) where
  pub least_row_keeps : (a : Row) (rows : List Row) → P a → All P rows → P (least_row a rows)
  unfolding least_row
  least_row_keeps a [] h hs = h
  least_row_keeps a (b ∷ rows) h hs =
      least_row_keeps (if str_leb a.source_observation_id b.source_observation_id then a else b)
        rows (if_both P (str_leb a.source_observation_id b.source_observation_id) a b h hs.0) hs.1

str_leb_self : (s : String) → str_leb s s ≡ true
str_leb_self s = elim (Bool-cases (str_leb s s)) [ inl e ↦ e | inr e ↦ str_leb_total s s e ]

-- The greatest of the texts is at least each of them.
abbrev pub Bounds : String → String → List String → Type 0
Bounds top s ts = (str_leb s top ≡ true) × All (λ t. str_leb t top ≡ true) ts

pub latest_text-Bounds : (s : String) (ts : List String) → Bounds (latest_text s ts) s ts
unfolding latest_text
latest_text-Bounds s [] = (str_leb_self s, tt)
latest_text-Bounds s (t ∷ ts) = split (λ x. latest_text-Bounds x ts) (str_leb t s) refl
  where
    split :
        ((x : String) → Bounds (latest_text x ts) x ts)
        → (b : Bool) → str_leb t s ≡ b
        → Bounds (latest_text (if b then s else t) ts) s (t ∷ ts)
    split next true e =
        let (first, rest) = next s in (first, (str_leb_trans t s (latest_text s ts) e first, rest))
    split next false e =
        let (first, rest) = next t in
        (str_leb_trans s t (latest_text t ts) (str_leb_total t s e) first, (first, rest))

-- Nothing is kept where no element passes.
pub is_empty-keep {ℓ} :
    {A : Type ℓ} (p : A → Bool) (xs : List A)
    → is_empty (keep p xs) ≡ true
    → All (λ x. p x ≡ false) xs
is_empty-keep p [] h = tt
is_empty-keep p (x ∷ xs) h = elim (Bool-cases (p x)) [
  | inl e ↦ refused (rw e at h)
  | inr e ↦ (e, is_empty-keep p xs (rw e at h))
]
  where
    refused : {B : Type 0} → false ≡ true → B
    refused k = cc

-- What holds of the kept elements, of all of them.
pub All-keep_split {ℓ κ} :
    {A : Type ℓ} (P : A → Type κ) (p : A → Bool) (xs : List A)
    → All P (keep p xs)
    → All (λ x. (p x ≡ false) ⊎ P x) xs
All-keep_split P p [] h = tt
All-keep_split P p (x ∷ xs) h = elim (Bool-cases (p x)) [
  | inl e ↦ let both = rw e at h in (inr both.0, All-keep_split P p xs both.1)
  | inr e ↦ (inl e, All-keep_split P p xs (rw e at h))
]

pub same_start-eq : (a b : Option ℕ) → same_start a b ≡ true → a ≡ b
same_start-eq none none h = refl
same_start-eq none (some b) h = cc
same_start-eq (some a) none h = cc
same_start-eq (some a) (some b) h = ap some (ground arith)
