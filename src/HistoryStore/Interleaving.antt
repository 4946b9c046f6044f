-- ===== src/HistoryStore/Interleaving.antt =====
-- history_store.py: what the threads of `acquire` keep of the two folders, step by step.
use zion_terminal.Base.{
  some, List, [], ◌∷◌, ◌++◌, String, ◌≡◌, refl, sym, All, All-append, All-append_split, All_map,
  inl, inr, ◌∙◌, ◌⊎◌, ◌≢◌, ap,
}
use zion_terminal.Base.Dict.{lookup}
use zion_terminal.HistoryStore.Files.{Library, Files, Write, atomic, Target, target, content}
use zion_terminal.Base.Sorting.{Pairwise}
use zion_terminal.HistoryStore.Threads.{
  Stage, outside, opened, filled, Parts, Thread, System, started, advance, renamed, Move, begin,
  make, kill, Reach, here, next, busy, busy_in, Apart, IsExclusive, set_part_same, set_part_other,
}
use zion_terminal.HistoryStore.Acquire.{Adapters}
use zion_terminal.HistoryStore.Pending.{
  IsAddressed, Stored, IsReady, one-IsReady, IsReady-atomic, make-IsAddressed, make-Stored,
  make-IsReady,
}

module _ (L : Library) where
  -- What holds of every element of two lists in turn.
  All_both :
      {A : Type 0} {P Q R : A → Type 0} (xs : List A)
      → ((x : A) → P x → Q x → R x)
      → All P xs
      → All Q xs
      → All R xs
  All_both [] f h k = tt
  All_both (x ∷ xs) f h k = (f x h.0 k.0, All_both xs f h.1 k.1)

  -- The other threads are not at the file where one is.
  free_of :
      (before after : List (Thread L)) (t : Thread L) (x : Target L)
      → busy L t ≡ some x
      → Pairwise (Apart L) (before ++ t ∷ after)
      → All (λ u. busy L u ≢ some x) before × All (λ u. busy L u ≢ some x) after
  free_of [] after t x e h = (tt, All_map (Apart L t) _ after (λ u apart. apart x e) h.0)
  free_of (u ∷ before) after t x e h =
      let (left, right) = free_of before after t x e h.1 in
      let (_, (apart, _)) = All-append_split (Apart L u) before (t ∷ after) h.0 in
      (((λ k. apart x k e), left), right)

  module _ (adapters : Adapters L) where
    -- A thread that has written its temporary file finds its bytes in it.
    abbrev IsFilled : Parts L → Stage → List (Write L) → Type 0
    IsFilled p filled (w ∷ ws) = p (target L w) ≡ some (content L w)
    IsFilled p _ _ = Unit

    abbrev CanGoOn : Files L → Parts L → Thread L → Type 0
    CanGoOn d p t = IsReady L d t.writes × IsFilled p t.stage t.writes

    pub record IsWhole (s : System L) : Type 0 where
      pub addressed :
          (pin : String) (raw : L.Bytes)
          → lookup pin s.files.raws ≡ some raw
          → IsAddressed L pin raw
      pub stored :
          (name : String) (body : L.Bytes)
          → lookup name s.files.checkpoints ≡ some body
          → Stored L s.files name body
      pub ready : All (CanGoOn s.files s.parts) s.pending

    -- What a step of a thread does: it leaves the files or makes the whole write, it can go on, and
    -- only the temporary file of its target changes.
    record Advanced (w : Write L) (d : Files L) (p : Parts L) (r : Files L × Parts L × Thread L)
        : Type 0 where
      files : (r.0 ≡ d) ⊎ (r.0 ≡ atomic L w d)
      own : CanGoOn r.0 r.1 r.2
      others : (x : Target L) → target L w ≢ x → r.1 x ≡ p x

    advance-Advanced :
        (stage : Stage) (w : Write L) (ws : List (Write L)) (d : Files L) (p : Parts L)
        → CanGoOn d p (record { stage = stage; writes = w ∷ ws })
        → Advanced w d p (advance L stage w ws p d)
    unfolding advance renamed atomic
    advance-Advanced outside w ws d p h = record {
      files = inl refl;
      own = (h.0, tt);
      others = λ x differs. set_part_other L (target L w) x _ p differs;
    }
    advance-Advanced opened w ws d p h = record {
      files = inl refl;
      own = (h.0, set_part_same L (target L w) _ p);
      others = λ x differs. set_part_other L (target L w) x _ p differs;
    }
    advance-Advanced filled w ws d p h = rw h.1 (record {
      files = inr refl;
      own = (make-IsReady L d w ws h.0, tt);
      others = λ x differs. set_part_other L (target L w) x _ p differs;
    })

    advanced-files :
        (w : Write L) (ws : List (Write L)) (d e : Files L)
        → (e ≡ d) ⊎ (e ≡ atomic L w d)
        → IsReady L d (w ∷ ws)
        → ((pin : String) (raw : L.Bytes) → lookup pin d.raws ≡ some raw → IsAddressed L pin raw)
        → ((name : String) (body : L.Bytes)
            → lookup name d.checkpoints ≡ some body
            → Stored L d name body)
        → ((pin : String) (raw : L.Bytes) → lookup pin e.raws ≡ some raw → IsAddressed L pin raw)
          × ((name : String) (body : L.Bytes)
              → lookup name e.checkpoints ≡ some body
              → Stored L e name body)
          × ((vs : List (Write L)) → IsReady L d vs → IsReady L e vs)
    advanced-files w ws d e (inl same) ready addressed stored =
        rw same (addressed, stored, λ vs h. h)
    advanced-files w ws d e (inr written) ready addressed stored = rw written (
      make-IsAddressed L d w ws addressed ready,
      make-Stored L d w ws stored ready,
      λ vs h. IsReady-atomic L d w vs h,
    )

    -- Another thread, which is not at the same file, keeps its temporary file.
    IsFilled-other :
        (w : Write L) (p q : Parts L) (stage : Stage) (vs : List (Write L))
        → ((x : Target L) → target L w ≢ x → q x ≡ p x)
        → busy_in L stage vs ≢ some (target L w)
        → IsFilled p stage vs
        → IsFilled q stage vs
    unfolding busy_in
    IsFilled-other w p q filled (v ∷ vs) same free h =
        same (target L v) (λ e. free (ap some (sym e))) ∙ h
    IsFilled-other w p q filled [] same free h = tt
    IsFilled-other w p q outside vs same free h = tt
    IsFilled-other w p q opened vs same free h = tt

    -- The thread that makes a step is alone at its file, before the step or after it.
    alone :
        (before after : List (Thread L)) (stage : Stage) (w : Write L) (ws : List (Write L))
        (d : Files L) (p : Parts L)
        → Pairwise (Apart L) (before ++ record { stage = stage; writes = w ∷ ws } ∷ after)
        → Pairwise (Apart L) (before ++ (advance L stage w ws p d).2 ∷ after)
        → All (λ t. busy L t ≢ some (target L w)) before
          × All (λ t. busy L t ≢ some (target L w)) after
    unfolding advance busy_in
    alone before after outside w ws d p h k = free_of before after _ (target L w) refl k
    alone before after opened w ws d p h k = free_of before after _ (target L w) refl h
    alone before after filled w ws d p h k = free_of before after _ (target L w) refl h

    Move-IsWhole :
        (s u : System L)
        → Move L adapters s u
        → Pairwise (Apart L) s.pending
        → Pairwise (Apart L) u.pending
        → IsWhole s
        → IsWhole u
    Move-IsWhole s u (kill e) x y w =
        rw e (record { addressed = w.addressed; stored = w.stored; ready = tt })
    Move-IsWhole s u (begin fetcher refresh t e) x y w = rw e (record {
      addressed = w.addressed;
      stored = w.stored;
      ready = ((one-IsReady L adapters fetcher refresh s.files t, tt), w.ready);
    })
    Move-IsWhole s u (make before after stage w ws p e) x y whole =
        let turn : Thread L = record { stage = stage; writes = w ∷ ws } in
        let r = advance L stage w ws s.parts s.files in
        let (first, (ready, last)) =
          All-append_split (CanGoOn s.files s.parts) before (turn ∷ after) (rw p at whole.ready) in
        let step = advance-Advanced stage w ws s.files s.parts ready in
        let (addressed, stored, keeps) =
          advanced-files w ws s.files r.0 step.files ready.0 whole.addressed whole.stored in
        let (left, right) = alone before after stage w ws s.files s.parts (rw p at x) (rw e at y) in
        let goes : (t : Thread L)
            → CanGoOn s.files s.parts t
            → busy L t ≢ some (target L w)
            → CanGoOn r.0 r.1 t =
          λ t h free. (
            keeps t.writes h.0,
            IsFilled-other w s.parts r.1 t.stage t.writes step.others free h.1,
          ) in
        rw e (record {
          addressed = addressed;
          stored = stored;
          ready =
              All-append (CanGoOn r.0 r.1) before (r.2 ∷ after) (All_both before goes first left)
                (step.own, All_both after goes last right);
        })

    pub Reach-IsWhole :
        {s : System L} (r : Reach L adapters (started L) s)
        → IsExclusive L r
        → IsWhole s × Pairwise (Apart L) s.pending
    unfolding lookup
    Reach-IsWhole here x =
        (record { addressed = λ pin raw h. cc; stored = λ name body h. cc; ready = tt }, tt)
    Reach-IsWhole (next r m) (now, x) =
        let (whole, before) = Reach-IsWhole r x in (Move-IsWhole _ _ m before now whole, now)
