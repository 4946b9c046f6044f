-- ===== src/HistoryStore/Pending.antt =====
-- history_store.py: the calls of `atomic` that a thread of `acquire` has still to make.
use zion_terminal.Base.{
  Bool, true, some, List, [], ◌∷◌, String, str_eq, leb, ◌≡◌, refl, sym, Bool-cases, inl, inr, ◌∙◌,
}
use zion_terminal.Base.Dict.{lookup, lookup-put, lookup-put_cases, lookup-put_same}
use zion_terminal.HistoryStore.Files.{
  Task, SourceRecord, Library, Files, Write, write_raw, write_checkpoint, atomic, checkpoint_name,
  max_raw,
}
use zion_terminal.HistoryStore.Acquire.{Adapters, Fetcher, one, record_of, Attempt}
use zion_terminal.HistoryStore.Outcomes.{
  HasAttempt, gave_up, from_cache, from_source, is_cached, is_fetched, one-HasAttempt,
}

module _ (L : Library) where
  -- The bytes are stored under their digest, and are not too many.
  abbrev pub IsAddressed : String → L.Bytes → Type 0
  IsAddressed pin raw = (L.digest raw ≡ pin) × (leb (L.size raw) max_raw ≡ true)

  -- The body is a record's, under the name of its task.
  abbrev pub IsRecord : String → L.Bytes → SourceRecord → Type 0
  IsRecord name body r = (body ≡ L.encoded_record r) × (name ≡ checkpoint_name L r.task)

  abbrev pub Stored : Files L → String → L.Bytes → Type 0
  Stored d name body =
      (r : SourceRecord) × IsRecord name body r
      × (raw : L.Bytes) × (lookup r.source_sha256 d.raws ≡ some raw)

  -- A thread's writes: the bytes first, then the checkpoint that names them.
  abbrev pub IsReady : Files L → List (Write L) → Type 0
  IsReady d [] = Unit
  IsReady d (write_checkpoint name body ∷ ws) = (ws ≡ []) × Stored d name body
  IsReady d (write_raw pin raw ∷ ws) =
      (name : String) × (body : L.Bytes) × (r : SourceRecord) × (ws
        ≡ write_checkpoint name body ∷ [])
      × (pin ≡ r.source_sha256)
      × IsRecord name body r
      × IsAddressed pin raw

  module _ (adapters : Adapters L) where
    pub one-IsReady :
        (fetcher : Fetcher L) (refresh : Bool) (d : Files L) (t : Task)
        → IsReady d (one L adapters fetcher refresh d t).1
    unfolding record_of
    one-IsReady fetcher refresh d t = of_attempt (one-HasAttempt L adapters fetcher refresh d t)
      where
        of_attempt :
            {a : Attempt L adapters} → HasAttempt L adapters fetcher refresh d t a → IsReady d a.1
        of_attempt (gave_up e) = tt
        of_attempt (from_cache raw r h (is_cached rows e k)) = rw k tt
        of_attempt (from_source f h (is_fetched rows e small k)) = rw k (
          checkpoint_name L t,
          L.encoded_record (record_of L t f),
          record_of L t f,
          refl,
          refl,
          (refl, refl),
          (refl, small),
        )

  -- Bytes that are stored once stay stored, under a digest that may get other bytes.
  Stored-atomic :
      (d : Files L) (w : Write L) (name : String) (body : L.Bytes)
      → Stored d name body
      → Stored (atomic L w d) name body
  unfolding atomic
  Stored-atomic d (write_checkpoint n b) name body h = h
  Stored-atomic d (write_raw pin raw) name body (r, is, old, found) =
      elim (Bool-cases (str_eq r.source_sha256 pin)) [
        | inl e ↦ (r, is, raw, lookup-put r.source_sha256 pin raw d.raws ∙ rw e refl)
        | inr e ↦ (r, is, old, lookup-put r.source_sha256 pin raw d.raws ∙ rw e found)
      ]

  pub IsReady-atomic :
      (d : Files L) (w : Write L) (ws : List (Write L)) → IsReady d ws → IsReady (atomic L w d) ws
  IsReady-atomic d w [] h = tt
  IsReady-atomic d w (write_checkpoint name body ∷ ws) (e, h) = (e, Stored-atomic d w name body h)
  IsReady-atomic d w (write_raw pin raw ∷ ws) h = h

  -- The next write of a thread that is ready leaves the thread ready, and the files whole.
  module _ (d : Files L) where
    pub make-IsAddressed :
        (w : Write L) (ws : List (Write L))
        → ((pin : String) (raw : L.Bytes) → lookup pin d.raws ≡ some raw → IsAddressed pin raw)
        → IsReady d (w ∷ ws)
        → (pin : String) (raw : L.Bytes) → lookup pin (atomic L w d).raws ≡ some raw
        → IsAddressed pin raw
    unfolding atomic
    make-IsAddressed (write_checkpoint n b) ws addressed ready pin raw h = addressed pin raw h
    make-IsAddressed (write_raw p new) ws addressed (n, b, r, e, q, is, addr) pin raw h =
        elim (lookup-put_cases pin p new d.raws h) [
          | inl s ↦ rw (s.0, sym s.1) addr
          | inr found ↦ addressed pin raw found
        ]

    pub make-Stored :
        (w : Write L) (ws : List (Write L))
        → ((name : String) (body : L.Bytes)
            → lookup name d.checkpoints ≡ some body
            → Stored d name body)
        → IsReady d (w ∷ ws)
        → (name : String) (body : L.Bytes) → lookup name (atomic L w d).checkpoints ≡ some body
        → Stored (atomic L w d) name body
    unfolding atomic
    make-Stored (write_raw p new) ws stored ready name body h =
        Stored-atomic d (write_raw p new) name body (stored name body h)
    make-Stored (write_checkpoint n b) ws stored (_, new) name body h =
        elim (lookup-put_cases name n b d.checkpoints h) [
          | inl s ↦ rw (s.0, sym s.1) new
          | inr found ↦ stored name body found
        ]

    pub make-IsReady :
        (w : Write L) (ws : List (Write L)) → IsReady d (w ∷ ws) → IsReady (atomic L w d) ws
    unfolding atomic
    make-IsReady (write_checkpoint n b) ws (e, h) = rw e tt
    make-IsReady (write_raw p new) ws (n, b, r, e, q, is, addr) =
        rw (e, q) (refl, (r, is, new, lookup-put_same r.source_sha256 new d.raws))
