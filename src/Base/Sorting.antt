-- ===== src/Base/Sorting.antt =====
-- Python's `sorted`, as a stable insertion sort, and `xs == sorted(xs)`.
use mathlib.Core.Path.{◌≡◌, refl, subst}
use mathlib.Core.Logic.{◌↔◌, inl, inr}
use mathlib.Core.Bool.{Bool, true, false, ◌&&◌}
use mathlib.Core.List.{List, [], ◌∷◌}
use native.Mathlib.Omega.{arith}
use zion_terminal.Base.Tests.{if◌then◌else◌, Bool-cases, if_both}
use zion_terminal.Base.Lists.{All, In}

module _ {ℓ} {A : Type ℓ} (le : A → A → Bool) where
  unfoldable pub insert_sorted : A → List A → List A
  insert_sorted x [] = x ∷ []
  insert_sorted x (y ∷ ys) = if le x y then x ∷ y ∷ ys else y ∷ insert_sorted x ys

  -- `sorted(xs)`
  unfoldable pub sorted : List A → List A
  unfolding insert_sorted
  sorted [] = []
  sorted (x ∷ xs) = insert_sorted x (sorted xs)

  -- Sorting keeps what holds of every element.
  All-insert_sorted {κ} :
      (P : A → Type κ) (x : A) (ys : List A) → P x → All P ys → All P (insert_sorted x ys)
  unfolding insert_sorted
  All-insert_sorted P x [] h hs = (h, tt)
  All-insert_sorted P x (y ∷ ys) h hs =
      if_both (All P) (le x y) (x ∷ y ∷ ys) (y ∷ insert_sorted x ys) (h, hs)
        (hs.0, All-insert_sorted P x ys h hs.1)

  pub All-sorted {κ} : (P : A → Type κ) (xs : List A) → All P xs → All P (sorted xs)
  unfolding sorted
  All-sorted P [] h = tt
  All-sorted P (x ∷ xs) h = All-insert_sorted P x (sorted xs) h.0 (All-sorted P xs h.1)

  -- Every element is at most the next one.
  abbrev pub IsSorted : List A → Type 0
  IsSorted [] = Unit
  IsSorted (x ∷ []) = Unit
  IsSorted (x ∷ y ∷ ys) = (le x y ≡ true) × IsSorted (y ∷ ys)

  module _ (total : (x y : A) → le x y ≡ false → le y x ≡ true) where
    insert_after :
        (x y : A) (ys : List A)
        → le y x ≡ true
        → IsSorted (y ∷ ys)
        → IsSorted (insert_sorted x ys)
        → IsSorted (y ∷ insert_sorted x ys)
    unfolding insert_sorted
    insert_after x y [] h s t = (h, tt)
    insert_after x y (z ∷ zs) h s t = elim (Bool-cases (le x z)) [
      | inl e ↦ rw e (h, (e, s.1))
      | inr e ↦ rw e (s.0, rw e at t)
    ]

    insert_sorted-IsSorted : (x : A) (ys : List A) → IsSorted ys → IsSorted (insert_sorted x ys)
    unfolding insert_sorted
    insert_sorted-IsSorted x [] s = tt
    insert_sorted-IsSorted x (y ∷ []) s = elim (Bool-cases (le x y)) [
      | inl e ↦ rw e (e, tt)
      | inr e ↦ rw e (total x y e, tt)
    ]
    insert_sorted-IsSorted x (y ∷ z ∷ zs) s =
        let rest = insert_sorted-IsSorted x (z ∷ zs) s.1 in
        elim (Bool-cases (le x y)) [
          | inl e ↦ rw e (e, s)
          | inr e ↦ rw e (insert_after x y (z ∷ zs) (total x y e) s rest)
        ]

    pub sorted-IsSorted : (xs : List A) → IsSorted (sorted xs)
    unfolding sorted
    sorted-IsSorted [] = tt
    sorted-IsSorted (x ∷ xs) = insert_sorted-IsSorted x (sorted xs) (sorted-IsSorted xs)

  insert_sorted_first : (x : A) (xs : List A) → IsSorted (x ∷ xs) → insert_sorted x xs ≡ x ∷ xs
  unfolding insert_sorted
  insert_sorted_first x [] s = refl
  insert_sorted_first x (y ∷ ys) s = rw s.0

  IsSorted-tail : (x : A) (xs : List A) → IsSorted (x ∷ xs) → IsSorted xs
  IsSorted-tail x [] s = tt
  IsSorted-tail x (y ∷ ys) s = s.1

  pub sorted-eq_self : (xs : List A) → IsSorted xs → sorted xs ≡ xs
  unfolding sorted
  sorted-eq_self [] s = refl
  sorted-eq_self (x ∷ xs) s =
      rw (sorted-eq_self xs (IsSorted-tail x xs s)) (insert_sorted_first x xs s)

-- `xs == ys`, by a test on the elements
module _ {ℓ} {A : Type ℓ} (eq : A → A → Bool) where
  unfoldable pub list_eq : List A → List A → Bool
  list_eq [] [] = true
  list_eq (x ∷ xs) (y ∷ ys) = eq x y && list_eq xs ys
  list_eq _ _ = false

  module _ (eq_iff : (x y : A) → (eq x y ≡ true) ↔ (x ≡ y)) where
    pub list_eq_iff : (xs ys : List A) → (list_eq xs ys ≡ true) ↔ (xs ≡ ys)
    unfolding list_eq
    list_eq_iff [] [] = (λ h. refl, λ h. refl)
    list_eq_iff [] (y ∷ ys) = (λ h. cc, λ h. cc)
    list_eq_iff (x ∷ xs) [] = (λ h. cc, λ h. cc)
    list_eq_iff (x ∷ xs) (y ∷ ys) = (
      λ h. ground (arith, eq_iff x y, list_eq_iff xs ys),
      λ h. ground (arith, eq_iff x y, list_eq_iff xs ys),
    )

-- `xs == sorted(xs)` says that `xs` is in order.
module _ {ℓ} {A : Type ℓ} (le eq : A → A → Bool) where
  unfoldable pub in_order : List A → Bool
  unfolding sorted list_eq
  in_order xs = list_eq eq xs (sorted le xs)

  module _ (total : (x y : A) → le x y ≡ false → le y x ≡ true)
      (eq_iff : (x y : A) → (eq x y ≡ true) ↔ (x ≡ y)) where
    pub in_order_iff : (xs : List A) → (in_order xs ≡ true) ↔ IsSorted le xs
    in_order_iff xs = (
      λ h. rw (same h) (sorted-IsSorted le total xs),
      λ s. unfold in_order in rw (sorted-eq_self le xs s) ((list_eq_iff eq eq_iff xs xs).1 refl),
    )
      where
        same : in_order xs ≡ true → xs ≡ sorted le xs
        same h = (list_eq_iff eq eq_iff xs (sorted le xs)).0 (unfold in_order in h)

module _ {A : Type 0} (le : A → A → Bool) where
  -- Sorting keeps every element.
  In-insert_sorted_new : (x : A) (ys : List A) → In x (insert_sorted le x ys)
  unfolding insert_sorted
  In-insert_sorted_new x [] = inl refl
  In-insert_sorted_new x (y ∷ ys) =
      if_both (In x) (le x y) (x ∷ y ∷ ys) (y ∷ insert_sorted le x ys) (inl refl)
        (inr (In-insert_sorted_new x ys))

  In-insert_sorted : (z x : A) (ys : List A) → In z ys → In z (insert_sorted le x ys)
  unfolding insert_sorted
  In-insert_sorted z x [] h = elim h [ ]
  In-insert_sorted z x (y ∷ ys) (inl e) =
      if_both (In z) (le x y) (x ∷ y ∷ ys) (y ∷ insert_sorted le x ys) (inr (inl e)) (inl e)
  In-insert_sorted z x (y ∷ ys) (inr h) =
      if_both (In z) (le x y) (x ∷ y ∷ ys) (y ∷ insert_sorted le x ys) (inr (inr h))
        (inr (In-insert_sorted z x ys h))

  pub In-sorted : (z : A) (xs : List A) → In z xs → In z (sorted le xs)
  unfolding sorted
  In-sorted z [] h = elim h [ ]
  In-sorted z (x ∷ xs) (inl e) =
      subst (λ y. In y (sorted le (x ∷ xs))) e (In-insert_sorted_new x (sorted le xs))
  In-sorted z (x ∷ xs) (inr h) = In-insert_sorted z x (sorted le xs) (In-sorted z xs h)

-- Every element is related to each later one.
module _ {A : Type 0} (R : A → A → Type 0) where
  abbrev pub Pairwise : List A → Type 0
  Pairwise [] = Unit
  Pairwise (x ∷ xs) = All (R x) xs × Pairwise xs

  -- Sorting keeps a symmetric relation between all elements.
  module _ (flip : (x y : A) → R x y → R y x) (le : A → A → Bool) where
    insert_sorted-Pairwise :
        (x : A) (ys : List A) → All (R x) ys → Pairwise ys → Pairwise (insert_sorted le x ys)
    unfolding insert_sorted
    insert_sorted-Pairwise x [] h p = (tt, tt)
    insert_sorted-Pairwise x (y ∷ ys) h p =
        if_both Pairwise (le x y) (x ∷ y ∷ ys) (y ∷ insert_sorted le x ys) (h, p)
          (All-insert_sorted le (R y) x ys (flip x y h.0) p.0, insert_sorted-Pairwise x ys h.1 p.1)

    pub sorted-Pairwise : (xs : List A) → Pairwise xs → Pairwise (sorted le xs)
    unfolding sorted
    sorted-Pairwise [] p = tt
    sorted-Pairwise (x ∷ xs) p =
        insert_sorted-Pairwise x (sorted le xs) (All-sorted le (R x) xs p.0)
          (sorted-Pairwise xs p.1)

-- Elements with a property that are related in one way are related in another.
pub Pairwise-map :
    {A : Type 0} (P : A → Type 0) (R S : A → A → Type 0) (xs : List A)
    → ((x y : A) → P x → P y → R x y → S x y)
    → All P xs
    → Pairwise R xs
    → Pairwise S xs
Pairwise-map P R S [] f h p = tt
Pairwise-map P R S (x ∷ xs) f h p = (along xs h.1 p.0, Pairwise-map P R S xs f h.1 p.1)
  where
    along : (ys : List _) → All P ys → All (R x) ys → All (S x) ys
    along [] h' p' = tt
    along (y ∷ ys) h' p' = (f x y h.0 h'.0 p'.0, along ys h'.1 p'.1)
