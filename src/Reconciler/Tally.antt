-- ===== src/Reconciler/Tally.antt =====
-- What the counts of a report are.
use zion_terminal.Base.{
  ℕ, ◌+◌, ◌≡◌, ◌≢◌, refl, Bool, true, false, Option, none, some, List, [], ◌∷◌, ◌++◌, arith, length,
  count_if, length-append, count_if-append, if◌then◌else◌, Bool-cases, inl, inr,
}
use mathlib.Core.Path.{subst}
use zion_terminal.Reconciler.Compare.{
  CanonicalFact, ExtractedValue, ReconciliationMatch, MatchStatus, matched, scale_mismatch,
  sign_mismatch, label_mismatch, missing, unknown, fact_amount, markdown_amount,
}
use zion_terminal.Reconciler.Report.{
  ReconciliationReport, is_matched, is_scale_mismatch, is_sign_mismatch, is_missing, bump,
  add_match, find_match, first_value, candidate_labels, missing_match, match_with, is_numeric,
  reconcile_from, empty_report, reconcile,
}
use zion_terminal.Reconciler.Classes.{Says, compare-Says}

abbrev pub number_with : (MatchStatus → Bool) → List ReconciliationMatch → ℕ
number_with p ms = count_if (λ (m : ReconciliationMatch). p m.status) ms

abbrev pub is_label_mismatch : MatchStatus → Bool
is_label_mismatch label_mismatch = true
is_label_mismatch _ = false

-- A report that counts its matches.
pub record Tallied (r : ReconciliationReport) : Type 0 where
  pub compared : r.facts_compared ≡ length r.matches
  pub matched_count : r.facts_matched ≡ number_with is_matched r.matches
  pub scale_count : r.facts_scale_mismatch ≡ number_with is_scale_mismatch r.matches
  pub sign_count : r.facts_sign_mismatch ≡ number_with is_sign_mismatch r.matches
  pub missing_count : r.facts_missing ≡ number_with is_missing r.matches
  -- Every compared fact is in one of the four counts, or is a label mismatch.
  pub all_counted :
      r.facts_matched
        + r.facts_scale_mismatch
        + r.facts_sign_mismatch
        + r.facts_missing
        + number_with is_label_mismatch r.matches
      ≡ r.facts_compared

bump_lem :
    (p : MatchStatus → Bool) (m : ReconciliationMatch) (ms : List ReconciliationMatch) (n : ℕ)
    → n ≡ number_with p ms
    → bump (p m.status) n ≡ number_with p (ms ++ m ∷ [])
bump_lem p m ms n h =
    let e = count_if-append (λ (k : ReconciliationMatch). p k.status) ms (m ∷ []) in ground arith

empty-Tallied : Tallied empty_report
empty-Tallied = record {
  compared = refl;
  matched_count = refl;
  scale_count = refl;
  sign_count = refl;
  missing_count = refl;
  all_counted = refl;
}

once :
    (s : MatchStatus)
    → s ≢ unknown
    → bump (is_matched s) 0
        + bump (is_scale_mismatch s) 0
        + bump (is_sign_mismatch s) 0
        + bump (is_missing s) 0
        + bump (is_label_mismatch s) 0
      ≡ 1
once unknown h = absurd (h refl)
once matched h = refl
once scale_mismatch h = refl
once sign_mismatch h = refl
once label_mismatch h = refl
once missing h = refl

add_match-Tallied :
    (r : ReconciliationReport) (m : ReconciliationMatch)
    → m.status ≢ unknown
    → Tallied r
    → Tallied (add_match r m)
unfolding add_match
add_match-Tallied r m known t = record {
  compared = let e = length-append r.matches (m ∷ []) in let h = t.compared in omega arith;
  matched_count = bump_lem is_matched m r.matches r.facts_matched t.matched_count;
  scale_count = bump_lem is_scale_mismatch m r.matches r.facts_scale_mismatch t.scale_count;
  sign_count = bump_lem is_sign_mismatch m r.matches r.facts_sign_mismatch t.sign_count;
  missing_count = bump_lem is_missing m r.matches r.facts_missing t.missing_count;
  all_counted =
      let e = once m.status known in
      let l =
        bump_lem is_label_mismatch m r.matches (number_with is_label_mismatch r.matches) refl in
      let h = t.all_counted in ground arith;
}

module _ (tol : ℕ) (mvs : List ExtractedValue) where
  match_with-known :
      (fact : CanonicalFact) (o : Option ExtractedValue) → (match_with tol fact o).status ≢ unknown
  unfolding match_with missing_match
  match_with-known fact (some mv) e =
      subst (Says tol (fact_amount fact) (markdown_amount mv)) e (compare-Says tol fact mv)
  match_with-known fact none e = cc

  reconcile_from-Tallied :
      (r : ReconciliationReport) (facts : List CanonicalFact)
      → Tallied r
      → Tallied (reconcile_from tol mvs r facts)
  unfolding reconcile_from find_match
  reconcile_from-Tallied r [] t = t
  reconcile_from-Tallied r (fact ∷ facts) t = elim (Bool-cases (is_numeric fact)) [
    | inl numeric ↦ rw numeric (
        reconcile_from-Tallied (add_match r (find_match tol mvs fact)) facts (
          add_match-Tallied r (find_match tol mvs fact)
            (match_with-known fact (first_value (candidate_labels fact) mvs)) t))
    | inr other ↦ rw other (reconcile_from-Tallied r facts t)
  ]

  one_round :
      (r : ReconciliationReport) (m : ReconciliationMatch) (b : Bool)
      → length (if b then add_match r m else r).matches ≡ length r.matches + (if b then 1 else 0)
  unfolding add_match
  one_round r m true = length-append r.matches (m ∷ [])
  one_round r m false = omega arith

  one_each :
      (r : ReconciliationReport) (facts : List CanonicalFact)
      → length (reconcile_from tol mvs r facts).matches
        ≡ length r.matches + count_if is_numeric facts
  unfolding reconcile_from
  one_each r [] = omega arith
  one_each r (fact ∷ facts) =
      let m = find_match tol mvs fact in
      let e = one_each (if is_numeric fact then add_match r m else r) facts in
      let l = one_round r m (is_numeric fact) in omega arith

  -- The report has one match for each fact with a number, each count is the number of matches with
  -- that status, and every compared fact is in one of the four counts or is a label mismatch.
  pub reconcile_lem :
      (facts : List CanonicalFact)
      → Tallied (reconcile tol facts mvs)
        × (length (reconcile tol facts mvs).matches ≡ count_if is_numeric facts)
  unfolding reconcile
  reconcile_lem facts =
      let e = one_each empty_report facts in
      (reconcile_from-Tallied empty_report facts empty-Tallied, omega arith)
