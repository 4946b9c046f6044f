-- ===== src/HistoryStore/Reuse.antt =====
-- history_store.py: when a later run uses a checkpoint again.
use zion_terminal.Base.{
  true, false, none, some, str_eq, leb, ◌≡◌, refl, sym, if◌then◌else◌, str_eq_iff,
}
use zion_terminal.Base.Dict.{lookup}
use zion_terminal.Base.Result.{ok}
use zion_terminal.HistoryStore.Files.{
  Task, same_task, SourceRecord, Library, IsLawful, Files, checkpoint_name, is_pin, max_raw,
}
use zion_terminal.HistoryStore.Acquire.{
  Adapters, reuse, read_checkpoint, candidate, pinned, verified,
}
use zion_terminal.HistoryStore.Threads.{Reach, started, System, IsExclusive}
use zion_terminal.HistoryStore.Interleaving.{Reach-IsWhole}

module _ (L : Library) (lawful : IsLawful L) where
  -- A record that is written whole is used again by its task alone.
  pub reuse-stored :
      (d : Files L) (t : Task) (r : SourceRecord) (raw : L.Bytes)
      → lookup (checkpoint_name L t) d.checkpoints ≡ some (L.encoded_record r)
      → lookup r.source_sha256 d.raws ≡ some raw
      → L.digest raw ≡ r.source_sha256
      → leb (L.size raw) max_raw ≡ true
      → reuse L false d t ≡ ok (if same_task r.task t then some (raw, r) else none)
  unfolding reuse read_checkpoint candidate pinned verified
  reuse-stored d t r raw h found addressed small =
      rw (h, lawful.loads-encoded_record r, pin, found, small, same) refl
    where
      pin : is_pin r.source_sha256 ≡ true
      pin = rw (sym addressed) (lawful.digest_pin raw)

      same : str_eq (L.digest raw) r.source_sha256 ≡ true
      same = (str_eq_iff (L.digest raw) r.source_sha256).1 addressed

  -- After any interleaving of the steps of any number of threads, each of which creates, fills and
  -- renames its temporary files one by one, and after a kill between any two of the steps, a
  -- checkpoint under a task's name is a whole record, the bytes that it pins are stored and hash to
  -- its pin, and a run without refresh uses them again exactly if the record is of that task.
  -- Conditions: at no time two threads are writing the same file, since they would share its
  -- temporary file; a written record is read back, and a digest is 64 hexadecimal digits.
  pub reuse-Reach :
      (adapters : Adapters L) {s : System L} (t : Task) (body : L.Bytes)
      → (reach : Reach L adapters (started L) s) → IsExclusive L reach
      → lookup (checkpoint_name L t) s.files.checkpoints ≡ some body
      → (r : SourceRecord) × (raw : L.Bytes) × (body ≡ L.encoded_record r)
        × (L.digest raw ≡ r.source_sha256)
        × (reuse L false s.files t ≡ ok (if same_task r.task t then some (raw, r) else none))
  reuse-Reach adapters {s} t body reach exclusive h =
      let (whole, _) = Reach-IsWhole L adapters reach exclusive in
      let (r, (written, _), raw, found) = whole.stored (checkpoint_name L t) body h in
      let (addressed, small) = whole.addressed r.source_sha256 raw found in
      (
        r,
        raw,
        written,
        addressed,
        reuse-stored s.files t r raw (rw (sym written) h) found addressed small,
      )
