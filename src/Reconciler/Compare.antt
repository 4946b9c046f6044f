-- ===== src/Reconciler/Compare.antt =====
-- verification/reconciler.py: the comparison of one fact with one extracted value. Amounts and the
-- tolerance count in units of 1 / 10000, as JSON numbers do.
use zion_terminal.Base.{
  ℕ, ◌*◌, Bool, not, ◌&&◌, Option, none, some, List, [], ◌∷◌, String, ltb, leb, if◌then◌else◌,
}
use zion_terminal.Base.Int.{ℤ, pos, ◌-ℤ◌, scale_by, ltb_ℤ, eq_ℤ, abs}
use zion_terminal.Base.Json.{Json, num, int, one, number?}
use zion_terminal.Models.Responses.{Text, plain, filled}

-- fact_mapping.py: `CanonicalFact`, with the fields that the reconciler reads
pub record CanonicalFact : Type 0 where
  pub concept : String
  pub local_name : String
  pub value : Json

-- markdown_extractor.py: `ExtractedValue`, with the fields that the reconciler reads
pub record ExtractedValue : Type 0 where
  pub label : String
  pub value : Option ℤ
  pub scaled_value : Option ℤ

pub data MatchStatus : Type 0 where
  unknown matched scale_mismatch sign_mismatch label_mismatch missing : MatchStatus

-- `delta_pct` is a fraction: its numerator and its denominator.
pub record ReconciliationMatch : Type 0 where
  pub concept : String
  pub xbrl_value : Json
  pub markdown_value : Option ℤ
  pub markdown_label : String
  pub status : MatchStatus
  pub delta : Option ℕ
  pub delta_pct : Option (ℕ × ℕ)
  pub notes : Text

abbrev pub max : ℕ → ℕ → ℕ
max a b = if leb a b then b else a

-- `denom`
unfoldable pub denominator : ℤ → ℤ → ℕ
denominator x m = max (max (abs x) (abs m)) one

-- The scales that the loop tries, and its first one that brings the values together.
abbrev pub scales : List ℕ
scales = 1000 ∷ 1000000 ∷ 1000000000 ∷ []

unfoldable pub scale_note : ℕ → ℤ → ℤ → List ℕ → Option Text
scale_note tol x m [] = none
scale_note tol x m (s ∷ ss) =
    let rest = scale_note tol x m ss in
    if ltb (abs (x -ℤ scale_by s m) * one) (tol * max (abs x) one)
    then some (filled "Markdown appears to be in units of {scale}x" (int s ∷ []))
    else if ltb (abs (scale_by s x -ℤ m) * one) (tol * max (abs m) one)
    then some (filled "XBRL appears to be in units of {scale}x" (int s ∷ []))
    else rest

-- `xv != 0 and mdv != 0 and (xv > 0) != (mdv > 0)`
unfoldable pub signs_differ : ℤ → ℤ → Bool
signs_differ x m =
    not (eq_ℤ x (pos 0))
    && (not (eq_ℤ m (pos 0))
        && (if ltb_ℤ (pos 0) x then not (ltb_ℤ (pos 0) m) else ltb_ℤ (pos 0) m))

-- The order of the returns: a scale that fits, opposite signs, the tolerance, and the rest.
unfoldable pub choose : Option Text → Bool → Bool → Text → MatchStatus × Text
choose (some note) opposite within differ = (scale_mismatch, note)
choose none opposite within differ =
    if opposite
    then (sign_mismatch, plain "")
    else if within
    then (matched, plain "")
    else (label_mismatch, differ)

-- The status and the notes of a comparison.
unfoldable pub classify : ℕ → ℤ → ℤ → MatchStatus × Text
unfolding denominator scale_note signs_differ choose
classify tol x m =
    let delta = abs (x -ℤ m) in
    let allowed = tol * denominator x m in
    choose (if ltb allowed (delta * one) then scale_note tol x m scales else none)
      (signs_differ x m && ltb (abs (pos (abs x) -ℤ pos (abs m)) * one) allowed)
      (leb (delta * one) allowed)
      (filled "Values differ by {delta}/{denom}"
        (num (pos delta) ∷ num (pos (denominator x m)) ∷ []))

-- The value to compare with: the scaled one if there is one.
unfoldable pub markdown_amount : ExtractedValue → ℤ
markdown_amount mv = elim mv.scaled_value [
  | some z ↦ z
  | none ↦ elim mv.value [ none ↦ pos 0 | some z ↦ z ]
]

-- The number of a fact, and 0 where it has none.
unfoldable pub fact_amount : CanonicalFact → ℤ
fact_amount fact = elim (number? fact.value) [ none ↦ pos 0 | some z ↦ z ]

-- `_compare`
unfoldable pub compare : ℕ → CanonicalFact → ExtractedValue → ReconciliationMatch
unfolding classify markdown_amount fact_amount
compare tol fact mv =
    let x = fact_amount fact in
    let m = markdown_amount mv in
    record {
      concept = fact.concept;
      xbrl_value = num x;
      markdown_value = some m;
      markdown_label = mv.label;
      status = (classify tol x m).0;
      delta = some (abs (x -ℤ m));
      delta_pct = some (abs (x -ℤ m), denominator x m);
      notes = (classify tol x m).1;
    }
