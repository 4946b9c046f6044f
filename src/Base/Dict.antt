-- ===== src/Base/Dict.antt =====
-- Python's dicts with texts for keys, in insertion order: a key that is set again keeps its place.
use Prim.Native.String.{String}
use text.Mathlib.Text.{◌==◌ as str_eq}
use text.Mathlib.TextEquality.{eq_iff as str_eq_iff}
use mathlib.Core.Path.{◌≡◌, refl, ◌∙◌}
use mathlib.Core.Logic.{◌⊎◌, inl, inr}
use mathlib.Core.Option.{Option, none, some}
use mathlib.Core.List.{List, [], ◌∷◌, map}
use native.Mathlib.Omega.{arith}
use zion_terminal.Base.Tests.{if◌then◌else◌, Bool-cases}
use zion_terminal.Base.Lists.{All, In}

abbrev pub Dict {ℓ} : Type ℓ → Type ℓ
Dict V = List (String × V)

module _ {ℓ} {V : Type ℓ} where
  abbrev pub keys : Dict V → List String
  keys = map (λ e. e.0)

  -- `d.get(k)`
  unfoldable pub lookup : String → Dict V → Option V
  lookup k [] = none
  lookup k ((j, v) ∷ d) = let rest = lookup k d in if str_eq k j then some v else rest

  -- `d[k] = v`
  unfoldable pub put : String → V → Dict V → Dict V
  put k v [] = (k, v) ∷ []
  put k v ((j, w) ∷ d) = let rest = put k v d in if str_eq k j then (j, v) ∷ d else (j, w) ∷ rest

  pub lookup-put :
      (j k : String) (v : V) (d : Dict V)
      → lookup j (put k v d) ≡ (if str_eq j k then some v else lookup j d)
  unfolding lookup put
  lookup-put j k v [] = refl
  lookup-put j k v ((i, w) ∷ d) =
      ground (arith, lookup-put j k v d, str_eq_iff k i, str_eq_iff j i, str_eq_iff j k)

  -- The entry of the key that was set, or an entry that was there before.
  pub lookup-put_cases :
      (j k : String) (v : V) (d : Dict V) {x : V}
      → lookup j (put k v d) ≡ some x
      → ((j ≡ k) × (v ≡ x)) ⊎ (lookup j d ≡ some x)
  lookup-put_cases j k v d h = elim (Bool-cases (str_eq j k)) [
    | inl e ↦ inl ((str_eq_iff j k).0 e, ground (arith, lookup-put j k v d))
    | inr e ↦ inr (ground (arith, lookup-put j k v d))
  ]

  pub lookup-put_same : (k : String) (v : V) (d : Dict V) → lookup k (put k v d) ≡ some v
  lookup-put_same k v d = lookup-put k k v d ∙ rw ((str_eq_iff k k).1 refl) refl

  -- Setting a key keeps what holds of every entry.
  pub All-put {κ} :
      (P : String × V → Type κ) (k : String) (v : V) (d : Dict V)
      → ((j : String) → k ≡ j → P (j, v))
      → All P d
      → All P (put k v d)
  unfolding put
  All-put P k v [] new h = (new k refl, tt)
  All-put P k v ((j, w) ∷ d) new h = elim (Bool-cases (str_eq k j)) [
    | inl e ↦ rw e (new j ((str_eq_iff k j).0 e), h.1)
    | inr e ↦ rw e (h.0, All-put P k v d new h.1)
  ]

pub lookup→In : {V : Type 0} (k : String) (d : Dict V) {v : V} → lookup k d ≡ some v → In (k, v) d
unfolding lookup
lookup→In k [] h = cc
lookup→In k ((j, w) ∷ d) {v} h = elim (Bool-cases (str_eq k j)) [
  | inl e ↦ inl (ground (arith, str_eq_iff k j))
  | inr e ↦ inr (lookup→In k d (rw e at h))
]
