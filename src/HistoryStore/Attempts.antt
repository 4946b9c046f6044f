-- ===== src/HistoryStore/Attempts.antt =====
-- history_store.py: what one attempt at a task does to the files that other tasks use.
use zion_terminal.Base.{
  Bool, true, false, some, String, str_eq, leb, ◌≡◌, refl, sym, ◌∙◌, inl, inr, str_eq_iff, List, [],
  ◌∷◌, All,
}
use zion_terminal.Base.Dict.{lookup, lookup-put_cases, lookup-put_same}
use zion_terminal.Base.Result.{ok}
use zion_terminal.HistoryStore.Files.{
  Task, same_task, SourceRecord, Library, IsLawful, Files, checkpoint_name, max_raw, write_raw,
  write_checkpoint, atomic, Observation,
}
use zion_terminal.HistoryStore.Acquire.{
  Adapters, Attempt, Fetcher, Fetched, Outcome, failed, acquired, reuse, verified, record_of,
  observations_of, one, written,
}
use zion_terminal.HistoryStore.Outcomes.{
  HasAttempt, gave_up, from_cache, from_source, is_cached, is_fetched, one-HasAttempt,
}
use zion_terminal.HistoryStore.Held.{Held, reuse→Held, Held-write_checkpoint, Held-write_raw}

-- `Seen` holds of the bytes that the network gives; no two of them share a digest.
module _ (L : Library) (lawful : IsLawful L) (adapters : Adapters L) (Seen : L.Bytes → Type 0)
    (separated : (a b : L.Bytes) → Seen a → Seen b → L.digest a ≡ L.digest b → a ≡ b) where
  abbrev pub IsSeen : Fetcher L → Type 0
  IsSeen f = (url : String) (x : Fetched L) → f url ≡ ok x → Seen x.raw

  -- The stored bytes are seen ones, under their digests.
  abbrev pub IsKnown : Files L → Type 0
  IsKnown d =
      (pin : String) (raw : L.Bytes)
      → lookup pin d.raws ≡ some raw
      → Seen raw × (L.digest raw ≡ pin)

  abbrev pub IsOther : Task → Task → Type 0
  IsOther t u = str_eq (checkpoint_name L t) (checkpoint_name L u) ≡ false

  -- The tasks have checkpoints of their own.
  abbrev pub IsDistinct : List Task → Type 0
  IsDistinct [] = Unit
  IsDistinct (t ∷ ts) = All (IsOther t) ts × IsDistinct ts

  -- What a task left behind: its bytes and record, and the rows that they parse to.
  abbrev pub IsHeld : Files L → Task → Outcome → Type 0
  IsHeld e t (failed f) = Unit
  IsHeld e t (acquired rows r cached) =
      (raw : L.Bytes) × Held L e t raw r × (observations_of L adapters raw t ≡ ok rows)

  module _ (fetcher : Fetcher L) (seen : IsSeen fetcher) (d : Files L) (known : IsKnown d) where
    after_fetch : (t : Task) (f : Fetched L) → Files L
    after_fetch t f =
        atomic L (write_checkpoint (checkpoint_name L t) (L.encoded_record (record_of L t f)))
          (atomic L (write_raw (L.digest f.raw) f.raw) d)

    after_fetch-IsKnown : (t : Task) (f : Fetched L) → Seen f.raw → IsKnown (after_fetch t f)
    unfolding after_fetch atomic
    after_fetch-IsKnown t f new pin raw h =
        elim (lookup-put_cases pin (L.digest f.raw) f.raw d.raws h) [
          | inl s ↦ rw (sym s.1) (new, sym s.0)
          | inr found ↦ known pin raw found
        ]

    after_fetch-Held_other :
        (t u : Task) (f : Fetched L) (raw : L.Bytes) (r : SourceRecord)
        → IsOther t u
        → Seen f.raw
        → Held L d t raw r
        → Held L (after_fetch u f) t raw r
    unfolding after_fetch
    after_fetch-Held_other t u f raw r other new held =
        Held-write_checkpoint L _ t raw r _ _ other
          (Held-write_raw L d t raw r (L.digest f.raw) f.raw same held)
      where
        same : r.source_sha256 ≡ L.digest f.raw → f.raw ≡ raw
        same e =
            let (old, addressed) = known r.source_sha256 raw held.kept in
            separated f.raw raw new old (sym (addressed ∙ e))

    after_fetch-Held :
        (t : Task) (f : Fetched L)
        → leb (L.size f.raw) max_raw ≡ true
        → Held L (after_fetch t f) t f.raw (record_of L t f)
    unfolding after_fetch atomic record_of verified same_task
    after_fetch-Held t f small = record {
      body = L.encoded_record (record_of L t f);
      named = lookup-put_same (checkpoint_name L t) _ d.checkpoints;
      loaded = lawful.loads-encoded_record (record_of L t f);
      pin = lawful.digest_pin f.raw;
      kept = lookup-put_same (L.digest f.raw) f.raw d.raws;
      checked = rw (small, self (L.digest f.raw), self t.id, self t.url, self t.dataset) refl;
    }
      where
        self : (s : String) → str_eq s s ≡ true
        self s = (str_eq_iff s s).1 refl

    of_reuse :
        (refresh : Bool) (t : Task) (raw : L.Bytes) (r : SourceRecord)
        → reuse L refresh d t ≡ ok (some (raw, r))
        → Held L d t raw r
    unfolding reuse
    of_reuse true t raw r h = cc
    of_reuse false t raw r h = reuse→Held L d t raw r h

    -- Each attempt keeps the stored bytes known, holds its own task, and loses no other.
    module _ (refresh : Bool) (t : Task) where
      of_attempt :
          (P : Files L → Outcome → Type 0) {a : Attempt L adapters}
          → HasAttempt L adapters fetcher refresh d t a
          → ((e : String)
              → P d (failed (record { task_id = t.id; dataset = t.dataset; error = e })))
          → ((raw : L.Bytes) (r : SourceRecord) (rows : List Observation)
              → Held L d t raw r
              → observations_of L adapters raw t ≡ ok rows
              → P d (acquired rows r true))
          → ((f : Fetched L) (rows : List Observation)
              → Seen f.raw
              → leb (L.size f.raw) max_raw ≡ true
              → observations_of L adapters f.raw t ≡ ok rows
              → P (after_fetch t f) (acquired rows (record_of L t f) false))
          → P (written L adapters fetcher a.1 d) a.0
      unfolding written after_fetch
      of_attempt P (gave_up e) g c s = g e
      of_attempt P (from_cache raw r h (is_cached rows e k)) g c s =
          rw k (c raw r rows (of_reuse refresh t raw r h) e)
      of_attempt P (from_source f h (is_fetched rows e small k)) g c s =
          rw k (s f rows (seen t.url f h) small e)

      abbrev step : Attempt L adapters
      step = one L adapters fetcher refresh d t

      has : HasAttempt L adapters fetcher refresh d t step
      has = one-HasAttempt L adapters fetcher refresh d t

      pub one-IsKnown : IsKnown (written L adapters fetcher step.1 d)
      one-IsKnown =
          of_attempt (λ e o. IsKnown e) has (λ e. known) (λ raw r rows h e. known)
            (λ f rows new small e. after_fetch-IsKnown t f new)

      pub one-IsHeld : IsHeld (written L adapters fetcher step.1 d) t step.0
      one-IsHeld =
          of_attempt (λ e o. IsHeld e t o) has (λ e. tt) (λ raw r rows h e. (raw, h, e))
            (λ f rows new small e. (f.raw, after_fetch-Held t f small, e))

      pub one-Held_other :
          (u : Task) (raw : L.Bytes) (r : SourceRecord)
          → IsOther u t
          → Held L d u raw r
          → Held L (written L adapters fetcher step.1 d) u raw r
      one-Held_other u raw r other held =
          of_attempt (λ e o. Held L e u raw r) has (λ e. held) (λ raw r rows h e. held)
            (λ f rows new small e. after_fetch-Held_other u t f raw r other new held)
