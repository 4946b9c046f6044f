-- ===== src/Validation/Summary.antt =====
-- `_build_result` of agents/validation/agent.py: the counts, the success flag and the status.
use zion_terminal.Base.{
  ℕ, suc, ◌+◌, ◌*◌, ◌≤◌, ◌<◌, ◌≡◌, ◌≢◌, refl, ◌↔◌, true, ◌⊎◌, inl, inr, List, [], ◌∷◌, arith,
  length, count_if, All, if◌then◌else◌,
}
use zion_terminal.Models.Responses.{ValidationStatus, passed, failed, warning, ValidationCheck}
use zion_terminal.Validation.Agent.{has_status, build_result}

abbrev number_of : ValidationStatus → List ValidationCheck → ℕ
number_of s = count_if (has_status s)

-- Every check has one of three statuses.
split_one :
    (s : ValidationStatus) (p w f n : ℕ) (c : ValidationCheck)
    → c.status ≡ s
    → p + w + f ≡ n
    → ((if has_status passed c then 1 else 0) + p)
        + ((if has_status warning c then 1 else 0) + w)
        + ((if has_status failed c then 1 else 0) + f)
      ≡ suc n
split_one passed p w f n c e h = ground arith
split_one failed p w f n c e h = ground arith
split_one warning p w f n c e h = ground arith

pub number_of-partition :
    (cs : List ValidationCheck)
    → number_of passed cs + number_of warning cs + number_of failed cs ≡ length cs
number_of-partition [] = omega arith
number_of-partition (c ∷ cs) =
    split_one c.status (number_of passed cs) (number_of warning cs) (number_of failed cs)
      (length cs) c refl (number_of-partition cs)

-- No check failed, as a predicate on the list of checks.
abbrev pub NoneFailed : List ValidationCheck → Type 0
NoneFailed = All (λ c. c.status ≢ failed)

NoneFailed-step :
    (s : ValidationStatus) (c : ValidationCheck) (cs : List ValidationCheck)
    → c.status ≡ s
    → (number_of failed cs ≡ 0) ↔ NoneFailed cs
    → (number_of failed (c ∷ cs) ≡ 0) ↔ NoneFailed (c ∷ cs)
NoneFailed-step passed c cs e ih =
    (λ h. (λ f. cc, ih.0 (ground arith)), λ h. let r = ih.1 h.1 in ground arith)
NoneFailed-step failed c cs e ih = (λ h. absurd (ground arith), λ h. absurd (h.0 e))
NoneFailed-step warning c cs e ih =
    (λ h. (λ f. cc, ih.0 (ground arith)), λ h. let r = ih.1 h.1 in ground arith)

pub NoneFailed-iff : (cs : List ValidationCheck) → (number_of failed cs ≡ 0) ↔ NoneFailed cs
NoneFailed-iff [] = (λ h. tt, λ h. refl)
NoneFailed-iff (c ∷ cs) = NoneFailed-step c.status c cs refl (NoneFailed-iff cs)

-- How many checks have a status, each under its own.
abbrev pub Counts : List ValidationCheck → ℕ → ℕ → ℕ → Type 0
Counts [] p f w = (p ≡ 0) × (f ≡ 0) × (w ≡ 0)
Counts (c ∷ cs) p f w =
    (x : ℕ) × (y : ℕ) × (z : ℕ) × Counts cs x y z
    × (((c.status ≡ passed) × (p ≡ suc x) × (f ≡ y) × (w ≡ z))
        ⊎ (((c.status ≡ failed) × (p ≡ x) × (f ≡ suc y) × (w ≡ z))
            ⊎ ((c.status ≡ warning) × (p ≡ x) × (f ≡ y) × (w ≡ suc z))))

count_one :
    (s : ValidationStatus) (p f w : ℕ) (c : ValidationCheck) (cs : List ValidationCheck)
    → c.status ≡ s
    → Counts cs p f w
    → Counts
        (c ∷ cs)
        ((if has_status passed c then 1 else 0) + p)
        ((if has_status failed c then 1 else 0) + f)
        ((if has_status warning c then 1 else 0) + w)
count_one passed p f w c cs e h = (p, f, w, h, inl (e, ground arith, ground arith, ground arith))
count_one failed p f w c cs e h =
    (p, f, w, h, inr (inl (e, ground arith, ground arith, ground arith)))
count_one warning p f w c cs e h =
    (p, f, w, h, inr (inr (e, ground arith, ground arith, ground arith)))

number_of-Counts :
    (cs : List ValidationCheck)
    → Counts cs (number_of passed cs) (number_of failed cs) (number_of warning cs)
number_of-Counts [] = (refl, refl, refl)
number_of-Counts (c ∷ cs) =
    count_one c.status (number_of passed cs) (number_of failed cs) (number_of warning cs) c cs refl
      (number_of-Counts cs)

-- The summary of a list of checks: the number of checks is that of the list, the passed, the failed
-- and the warning checks are each counted once, under the status that they have, and the checks are
-- kept in the details in order; the result is a success exactly when no check failed; the status is `failed`
-- exactly when at least one check failed and the failures are at least half of the checks; the
-- status is `passed` exactly when all checks passed.
pub build_result_lem :
    (cs : List ValidationCheck)
    → let r = build_result cs in
      (r.details ≡ cs)
      × (r.checks_run ≡ length cs)
      × Counts cs r.checks_passed r.checks_failed r.checks_warned
      × (r.checks_passed + r.checks_warned + r.checks_failed ≡ r.checks_run)
      × ((r.success ≡ true) ↔ NoneFailed cs)
      × ((r.status ≡ failed) ↔ ((0 < r.checks_failed) × (r.checks_run ≤ 2 * r.checks_failed)))
      × ((r.status ≡ passed) ↔ (r.checks_passed ≡ r.checks_run))
unfolding build_result
build_result_lem cs = (
  refl,
  refl,
  number_of-Counts cs,
  part,
  (λ h. (NoneFailed-iff cs).0 (ground arith), λ h. let z = (NoneFailed-iff cs).1 h in ground arith),
  (λ h. ground arith, λ h. ground arith),
  (λ h. ground (arith, part), λ h. ground (arith, part)),
)
  where
    part : number_of passed cs + number_of warning cs + number_of failed cs ≡ length cs
    part = number_of-partition cs
