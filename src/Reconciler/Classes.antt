-- ===== src/Reconciler/Classes.antt =====
-- What the status of a comparison says of the two amounts.
use zion_terminal.Base.{
  ℕ, suc, zero, ◌*◌, ◌≤◌, ◌<◌, ◌≡◌, ◌⊎◌, inl, inr, refl, Bool, true, false, ◌&&◌, Option, none,
  some, arith, ltb, leb, Bool-cases, if◌then◌else◌,
}
use zion_terminal.Base.Int.{ℤ, pos, negsuc, ◌-ℤ◌, ◌<ℤ◌, abs}
use zion_terminal.Base.Json.{one}
use zion_terminal.Models.Responses.{Text}
use zion_terminal.Reconciler.Compare.{
  CanonicalFact, ExtractedValue, MatchStatus, matched, scale_mismatch, sign_mismatch,
  label_mismatch, denominator, scale_note, scales, signs_differ, choose, classify, compare,
  fact_amount, markdown_amount,
}

-- The amounts differ by at most the tolerance, as a share of the larger one and of 1.
abbrev pub Within : ℕ → ℤ → ℤ → Type 0
Within tol x m = abs (x -ℤ m) * one ≤ tol * denominator x m

-- One of the amounts is positive and the other negative.
abbrev pub Opposite : ℤ → ℤ → Type 0
Opposite x m = ((pos 0 <ℤ x) × (m <ℤ pos 0)) ⊎ ((x <ℤ pos 0) × (pos 0 <ℤ m))

signs_differ-Opposite : (x m : ℤ) → signs_differ x m ≡ true → Opposite x m
unfolding signs_differ
signs_differ-Opposite (pos (suc x)) (negsuc m) h = inl (omega arith, omega arith)
signs_differ-Opposite (negsuc x) (pos (suc m)) h = inr (omega arith, omega arith)
signs_differ-Opposite (pos zero) m h = cc
signs_differ-Opposite (pos (suc x)) (pos zero) h = absurd (ground arith)
signs_differ-Opposite (pos (suc x)) (pos (suc m)) h = ground arith
signs_differ-Opposite (negsuc x) (pos zero) h = absurd (ground arith)
signs_differ-Opposite (negsuc x) (negsuc m) h = ground arith

-- A scale is tried only beyond the tolerance.
scale_tried :
    (allowed delta : ℕ) (message : Option Text)
    → ((if ltb allowed delta then message else none) ≡ none) ⊎ (allowed < delta)
scale_tried allowed delta message = elim (Bool-cases (ltb allowed delta)) [
  | inl b ↦ inr (ground arith)
  | inr b ↦ rw b (inl refl)
]

-- What each status of a comparison says.
abbrev pub Says : ℕ → ℤ → ℤ → MatchStatus → Type 0
Says tol x m matched = Within tol x m
Says tol x m sign_mismatch = Opposite x m
Says tol x m scale_mismatch = tol * denominator x m < abs (x -ℤ m) * one
Says tol x m label_mismatch = tol * denominator x m < abs (x -ℤ m) * one
Says tol x m _ = ⊥

module _ (tol : ℕ) (x m : ℤ) where
  choose-Says :
      (message : Option Text) (small : Bool) (differ : Text)
      → (message ≡ none) ⊎ (tol * denominator x m < abs (x -ℤ m) * one)
      → Says tol x m
          (choose message
            (signs_differ x m && small)
            (leb (abs (x -ℤ m) * one) (tol * denominator x m))
            differ).0
  unfolding choose
  choose-Says (some message) small differ (inl none_tried) = cc
  choose-Says (some message) small differ (inr beyond) = beyond
  choose-Says none small differ tried = elim (Bool-cases (signs_differ x m && small)) [
    | inl opposite ↦ rw opposite (signs_differ-Opposite x m (ground arith))
    | inr same ↦ rw same (elim (Bool-cases (leb (abs (x -ℤ m) * one) (tol * denominator x m))) [
      | inl within ↦ rw within (ground arith)
      | inr beyond ↦ rw beyond (ground arith)
    ])
  ]

-- The status of a comparison is true of the amounts that it compares: `matched` says that they
-- differ by at most the tolerance (as a share of the larger amount, and of 1 at least),
-- `sign_mismatch` that one is positive and the other negative, `scale_mismatch` and
-- `label_mismatch` that they differ by more than the tolerance; and the status is one of these.
pub compare-Says :
    (tol : ℕ) (fact : CanonicalFact) (mv : ExtractedValue)
    → Says tol (fact_amount fact) (markdown_amount mv) (compare tol fact mv).status
unfolding compare classify
compare-Says tol fact mv =
    let x = fact_amount fact in
    let m = markdown_amount mv in
    choose-Says tol x m _ _ _
      (scale_tried (tol * denominator x m) (abs (x -ℤ m) * one) (scale_note tol x m scales))

self_distance : (x : ℤ) → abs (x -ℤ x) ≡ 0
unfolding ◌-ℤ◌
self_distance x = ground arith

not_beyond :
    (allowed delta : ℕ) (message : Option Text)
    → delta ≡ 0
    → (if ltb allowed (delta * one) then message else none) ≡ none
not_beyond allowed delta message h = ground arith

same_sign : (x : ℤ) (small : Bool) → (signs_differ x x && small) ≡ false
unfolding signs_differ
same_sign (pos n) small = ground arith
same_sign (negsuc n) small = ground arith

choose-matched :
    (message : Option Text) (opposite within : Bool) (differ : Text)
    → message ≡ none
    → opposite ≡ false
    → within ≡ true
    → (choose message opposite within differ).0 ≡ matched
unfolding choose
choose-matched message opposite within differ h k l = rw (h, k, l) refl

classify_self : (tol : ℕ) (x : ℤ) → (classify tol x x).0 ≡ matched
unfolding classify
classify_self tol x =
    let zero_apart = self_distance x in
    choose-matched _ _ _ _ (not_beyond (tol * denominator x x) _ _ zero_apart) (same_sign x _)
      (ground arith)

-- Equal amounts match, whatever the tolerance is.
pub compare_self :
    (tol : ℕ) (fact : CanonicalFact) (mv : ExtractedValue)
    → fact_amount fact ≡ markdown_amount mv
    → (compare tol fact mv).status ≡ matched
unfolding compare
compare_self tol fact mv h = rw h (classify_self tol (markdown_amount mv))
