-- ===== src/HistoryStore/Threads.antt =====
-- history_store.py: `acquire` on threads. A thread decides its calls of `atomic` when it begins, from
-- the files that it reads then, and makes each in three steps: it creates the temporary file of the
-- target empty, writes the bytes, and replaces the target by what the temporary file holds. The steps
-- of the threads come in any order, and the process may be killed between two.
use zion_terminal.Base.{
  Bool, true, false, Option, none, some, List, [], ◌∷◌, ◌++◌, String, str_eq, str_eq_iff, ◌≡◌, ◌≢◌,
  ◌↔◌, refl, ap, if◌then◌else◌, Bool-cases, inl, inr,
}
use zion_terminal.Base.Sorting.{Pairwise}
use zion_terminal.HistoryStore.Files.{
  Task, Library, Files, Write, Target, raw_file, checkpoint_file, target, content, replace, atomic,
}
use zion_terminal.HistoryStore.Acquire.{Adapters, Fetcher, one}

-- Where a thread stands in its next call: before it, with the temporary file created, or with the
-- bytes in it.
pub data Stage : Type 0 where
  outside opened filled : Stage

module _ (L : Library) where
  unfoldable pub same_target : Target L → Target L → Bool
  same_target (raw_file a) (raw_file b) = str_eq a b
  same_target (checkpoint_file a) (checkpoint_file b) = str_eq a b
  same_target _ _ = false

  -- The temporary file of each target, where there is one.
  abbrev pub Parts : Type 0
  Parts = Target L → Option L.Bytes

  unfoldable pub set_part : Target L → Option L.Bytes → Parts → Parts
  unfolding same_target
  set_part t b parts x = if same_target t x then b else parts x

  abbrev name_of : Target L → String
  name_of (raw_file a) = a
  name_of (checkpoint_file a) = a

  same_target_iff : (a b : Target L) → (same_target a b ≡ true) ↔ (a ≡ b)
  unfolding same_target
  same_target_iff (raw_file a) (raw_file b) =
      (λ e. ap raw_file ((str_eq_iff a b).0 e), λ e. (str_eq_iff a b).1 (ap name_of e))
  same_target_iff (checkpoint_file a) (checkpoint_file b) =
      (λ e. ap checkpoint_file ((str_eq_iff a b).0 e), λ e. (str_eq_iff a b).1 (ap name_of e))
  same_target_iff (raw_file a) (checkpoint_file b) = (λ e. cc, λ e. cc)
  same_target_iff (checkpoint_file a) (raw_file b) = (λ e. cc, λ e. cc)

  pub set_part_same : (t : Target L) (b : Option L.Bytes) (p : Parts) → set_part t b p t ≡ b
  unfolding set_part
  set_part_same t b p = rw ((same_target_iff t t).1 refl) refl

  pub set_part_other :
      (t x : Target L) (b : Option L.Bytes) (p : Parts) → t ≢ x → set_part t b p x ≡ p x
  unfolding set_part
  set_part_other t x b p differs = elim (Bool-cases (same_target t x)) [
    | inl e ↦ absurd (differs ((same_target_iff t x).0 e))
    | inr e ↦ rw e refl
  ]

  pub record Thread : Type 0 where
    pub stage : Stage
    pub writes : List (Write L)

  pub record System : Type 0 where
    pub files : Files L
    pub parts : Parts
    pub pending : List Thread

  abbrev pub started : System
  started = record {
    files = record { raws = []; checkpoints = [] };
    parts = λ x. none;
    pending = [];
  }

  -- The replacement: where the temporary file is gone, its error ends the writes of the thread.
  unfoldable pub renamed :
      Option L.Bytes → Write L → List (Write L) → Parts → Files L → Files L × Parts × Thread
  unfolding replace set_part
  renamed none w ws p d = (d, p, record { stage = outside; writes = [] })
  renamed (some b) w ws p d = (
    replace L (target L w) b d,
    set_part (target L w) none p,
    record { stage = outside; writes = ws },
  )

  -- The next step of a thread.
  unfoldable pub advance :
      Stage → Write L → List (Write L) → Parts → Files L → Files L × Parts × Thread
  unfolding renamed set_part
  advance outside w ws p d =
      (d, set_part (target L w) (some L.empty) p, record { stage = opened; writes = w ∷ ws })
  advance opened w ws p d =
      (d, set_part (target L w) (some (content L w)) p, record { stage = filled; writes = w ∷ ws })
  advance filled w ws p d = renamed (p (target L w)) w ws p d

  abbrev pub moved : List Thread → List Thread → Files L × Parts × Thread → System
  moved before after (d, p, t) = record { files = d; parts = p; pending = before ++ t ∷ after }

  module _ (adapters : Adapters L) where
    -- A thread begins a task, or makes its next step, or the process is killed.
    pub data Move (s u : System) : Type 0 where
      begin :
          (fetcher : Fetcher L) (refresh : Bool) (t : Task)
          → u ≡ record {
            files = s.files;
            parts = s.parts;
            pending =
                record { stage = outside; writes = (one L adapters fetcher refresh s.files t).1 }
                ∷ s.pending;
          }
          → Move s u
      make :
          (before after : List Thread) (stage : Stage) (w : Write L) (ws : List (Write L))
          → s.pending ≡ before ++ record { stage = stage; writes = w ∷ ws } ∷ after
          → u ≡ moved before after (advance stage w ws s.parts s.files)
          → Move s u
      kill : u ≡ record s { pending = [] } → Move s u

    pub data Reach (s : System) : System → Type 0 where
      here : Reach s s
      next : {t u : System} → Reach s t → Move t u → Reach s u

  -- The file that a thread is writing.
  unfoldable pub busy_in : Stage → List (Write L) → Option (Target L)
  busy_in outside ws = none
  busy_in opened [] = none
  busy_in opened (w ∷ ws) = some (target L w)
  busy_in filled [] = none
  busy_in filled (w ∷ ws) = some (target L w)

  abbrev pub busy : Thread → Option (Target L)
  busy t = busy_in t.stage t.writes

  -- Two threads are not at the same file at once.
  abbrev pub Apart : Thread → Thread → Type 0
  Apart a b = (x : Target L) → busy a ≡ some x → busy b ≢ some x

  -- In no state of the run two threads are at the same file at once.
  abbrev pub IsExclusive : {adapters : Adapters L} {s u : System} → Reach adapters s u → Type 0
  IsExclusive here = Unit
  IsExclusive (next {u = u} r m) = Pairwise Apart u.pending × IsExclusive r

  -- The three steps of a call, with nothing between them, leave what `atomic` says.
  pub advance-atomic :
      (w : Write L) (ws : List (Write L)) (p : Parts) (d : Files L)
      → let (d1, p1, t1) = advance outside w ws p d in
        let (d2, p2, t2) = advance opened w ws p1 d1 in (advance filled w ws p2 d2).0 ≡ atomic L w d
  unfolding advance atomic
  advance-atomic w ws p d = rw (set_part_same (target L w) (some (content L w)) _) refl
