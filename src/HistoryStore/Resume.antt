-- ===== src/HistoryStore/Resume.antt =====
-- history_store.py: a second call of `acquire` over the files that a first one left, both with one
-- worker.
use zion_terminal.Base.{Bool, true, false, str_eq_iff, ap, arith, ◌≡◌, refl, List, [], ◌∷◌, All}
use zion_terminal.Base.Result.{ok}
use zion_terminal.HistoryStore.Files.{
  Task, SourceRecord, Library, IsLawful, Files, Observation, checkpoint_name,
}
use zion_terminal.HistoryStore.Acquire.{
  Adapters, Fetcher, Outcome, failed, acquired, one, attempt, attempt_from, use_cached, receipt,
  run, written, observations_of,
}
use zion_terminal.HistoryStore.Held.{Held, Held→reuse}
use zion_terminal.HistoryStore.Attempts.{
  IsSeen, IsKnown, IsOther, IsDistinct, IsHeld, one-IsKnown, one-IsHeld, one-Held_other,
}

-- A task that was acquired once is acquired again, from its checkpoint.
abbrev pub IsKept : Outcome → Outcome → Type 0
IsKept (failed f) o = Unit
IsKept (acquired rows r cached) o = o ≡ acquired rows r true

abbrev pub AreKept : List Outcome → List Outcome → Type 0
AreKept [] os = os ≡ []
AreKept (o ∷ os) ps =
    (p : Outcome) × (rest : List Outcome) × (ps ≡ p ∷ rest) × IsKept o p × AreKept os rest

module _ (L : Library) (lawful : IsLawful L) (adapters : Adapters L) (Seen : L.Bytes → Type 0)
    (separated : (a b : L.Bytes) → Seen a → Seen b → L.digest a ≡ L.digest b → a ≡ b) where
  -- A held task is served without the network, and writes nothing.
  one-Held :
      (fetcher : Fetcher L) (d : Files L) (t : Task) (raw : L.Bytes) (r : SourceRecord)
      (rows : List Observation)
      → Held L d t raw r
      → observations_of L adapters raw t ≡ ok rows
      → one L adapters fetcher false d t ≡ (acquired rows r true, [])
  unfolding one attempt attempt_from use_cached receipt
  one-Held fetcher d t raw r rows held e = rw (Held→reuse L d t raw r held, e) refl

  IsOther-sym :
      (t u : Task)
      → IsOther L lawful adapters Seen separated t u
      → IsOther L lawful adapters Seen separated u t
  IsOther-sym t u h = ground (
    arith,
    str_eq_iff (checkpoint_name L t) (checkpoint_name L u),
    str_eq_iff (checkpoint_name L u) (checkpoint_name L t),
  )

  abbrev Others : Task → List Task → Type 0
  Others t ts = All (IsOther L lawful adapters Seen separated t) ts

  abbrev Known : Files L → Type 0
  Known = IsKnown L lawful adapters Seen separated

  abbrev HeldBy : Files L → Task → Outcome → Type 0
  HeldBy = IsHeld L lawful adapters Seen separated

  -- The tasks left their outcomes behind.
  abbrev AllHeld : Files L → List Task → List Outcome → Type 0
  AllHeld d [] os = os ≡ []
  AllHeld d (t ∷ ts) os =
      (o : Outcome) × (rest : List Outcome) × (os ≡ o ∷ rest) × HeldBy d t o × AllHeld d ts rest

  module _ (fetcher : Fetcher L) (seen : IsSeen L lawful adapters Seen separated fetcher) where
    abbrev after : Bool → Files L → Task → Files L
    after refresh d t = written L adapters fetcher (one L adapters fetcher refresh d t).1 d

    after-Known : (refresh : Bool) (d : Files L) (t : Task) → Known d → Known (after refresh d t)
    after-Known refresh d t known =
        one-IsKnown L lawful adapters Seen separated fetcher seen d known refresh t

    after-HeldBy :
        (refresh : Bool) (d : Files L) (t u : Task) (o : Outcome)
        → Known d
        → IsOther L lawful adapters Seen separated u t
        → HeldBy d u o
        → HeldBy (after refresh d t) u o
    after-HeldBy refresh d t u (failed f) known other h = tt
    after-HeldBy refresh d t u (acquired rows r c) known other (raw, held, e) = (
      raw,
      one-Held_other L lawful adapters Seen separated fetcher seen d known refresh t u raw r other
          held,
      e,
    )

    run-HeldBy :
        (refresh : Bool) (d : Files L) (ts : List Task) (u : Task) (o : Outcome)
        → Known d
        → Others u ts
        → HeldBy d u o
        → HeldBy (run L adapters fetcher refresh d ts).1 u o
    unfolding run
    run-HeldBy refresh d [] u o known others h = h
    run-HeldBy refresh d (t ∷ ts) u o known (other, others) h =
        run-HeldBy refresh (after refresh d t) ts u o (after-Known refresh d t known) others
          (after-HeldBy refresh d t u o known other h)

    run-Known :
        (refresh : Bool) (d : Files L) (ts : List Task)
        → Known d
        → Known (run L adapters fetcher refresh d ts).1
    unfolding run
    run-Known refresh d [] known = known
    run-Known refresh d (t ∷ ts) known =
        run-Known refresh (after refresh d t) ts (after-Known refresh d t known)

    -- After a run every task's outcome is on disk.
    run-AllHeld :
        (refresh : Bool) (d : Files L) (ts : List Task)
        → Known d
        → IsDistinct L lawful adapters Seen separated ts
        → AllHeld (run L adapters fetcher refresh d ts).1 ts (run L adapters fetcher refresh d ts).0
    unfolding run
    run-AllHeld refresh d [] known distinct = refl
    run-AllHeld refresh d (t ∷ ts) known (others, distinct) =
        let o = (one L adapters fetcher refresh d t).0 in
        let next = after-Known refresh d t known in
        let first = one-IsHeld L lawful adapters Seen separated fetcher seen d known refresh t in
        (
          o,
          (run L adapters fetcher refresh (after refresh d t) ts).0,
          refl,
          run-HeldBy refresh (after refresh d t) ts t o next others first,
          run-AllHeld refresh (after refresh d t) ts next distinct,
        )

    after-AllHeld :
        (refresh : Bool) (d : Files L) (t : Task) (ts : List Task) (os : List Outcome)
        → Known d
        → Others t ts
        → AllHeld d ts os
        → AllHeld (after refresh d t) ts os
    after-AllHeld refresh d t [] os known others h = h
    after-AllHeld refresh d t (u ∷ ts) os known (other, others) (o, rest, e, held, h) = (
      o,
      rest,
      e,
      after-HeldBy refresh d t u o known (IsOther-sym t u other) held,
      after-AllHeld refresh d t ts rest known others h,
    )

    one-IsKept :
        (d : Files L) (t : Task) (o : Outcome)
        → HeldBy d t o
        → IsKept o (one L adapters fetcher false d t).0
    one-IsKept d t (failed f) h = tt
    one-IsKept d t (acquired rows r c) (raw, held, e) =
        ap (λ a. a.0) (one-Held fetcher d t raw r rows held e)

    run-AreKept :
        (d : Files L) (ts : List Task) (os : List Outcome)
        → Known d
        → IsDistinct L lawful adapters Seen separated ts
        → AllHeld d ts os
        → AreKept os (run L adapters fetcher false d ts).0
    unfolding run
    run-AreKept d [] os known distinct h = rw h refl
    run-AreKept d (t ∷ ts) os known (others, distinct) (o, rest, e, held, h) = rw e (
      (one L adapters fetcher false d t).0,
      (run L adapters fetcher false (after false d t) ts).0,
      refl,
      one-IsKept d t o held,
      run-AreKept (after false d t) ts rest (after-Known false d t known) distinct
          (after-AllHeld false d t ts rest known others h),
    )

  -- With one worker, a later run without refresh acquires every task that a first run acquired, from
  -- its checkpoint and with the same rows, whatever the network answers it. Conditions: in both runs
  -- the tasks run one after another, as they do on a pool of one worker; the tasks have
  -- checkpoint names of their own, the stored bytes stand under their digests, and no two contents
  -- among them and the responses of both runs share a digest.
  pub run-run :
      (first second : Fetcher L) (refresh : Bool) (d : Files L) (ts : List Task)
      → IsSeen L lawful adapters Seen separated first
      → IsSeen L lawful adapters Seen separated second
      → Known d
      → IsDistinct L lawful adapters Seen separated ts
      → AreKept
          (run L adapters first refresh d ts).0
          (run L adapters second false (run L adapters first refresh d ts).1 ts).0
  run-run first second refresh d ts seen_first seen_second known distinct =
      run-AreKept second seen_second (run L adapters first refresh d ts).1 ts
        (run L adapters first refresh d ts).0 (run-Known first seen_first refresh d ts known)
        distinct (run-AllHeld first seen_first refresh d ts known distinct)
