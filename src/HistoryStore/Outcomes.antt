-- ===== src/HistoryStore/Outcomes.antt =====
-- history_store.py: how an attempt at a task ends, by the way that its bytes came.
use zion_terminal.Base.{
  Bool, true, false, Option, none, some, List, [], ◌∷◌, ◌≡◌, refl, sym, String, leb, ltb, ◌||◌,
  ◌==◌, arith,
}
use zion_terminal.Base.Result.{Result, ok, err, ◌>>=◌, >>=-eq-ok, ok_injective, otherwise}
use zion_terminal.HistoryStore.Files.{
  Task, SourceRecord, Library, Files, write_raw, write_checkpoint, checkpoint_name, max_raw,
  Observation,
}
use zion_terminal.HistoryStore.Acquire.{
  failed, acquired, Adapters, Fetcher, Fetched, Attempt, one, reuse, record_of, attempt,
  attempt_from, use_cached, use_fetched, observations_of, receipt,
}

module _ (L : Library) (adapters : Adapters L) where
  abbrev pub fetched_attempt : Task → Fetched L → List Observation → Attempt L adapters
  fetched_attempt t f rows = (
    acquired rows (record_of L t f) false,
    write_raw (L.digest f.raw) f.raw
        ∷ write_checkpoint (checkpoint_name L t) (L.encoded_record (record_of L t f))
        ∷ [],
  )

  pub data IsFetched (t : Task) (f : Fetched L) (a : Attempt L adapters) : Type 0 where
    is_fetched :
        (rows : List Observation)
        → observations_of L adapters f.raw t ≡ ok rows
        → leb (L.size f.raw) max_raw ≡ true
        → a ≡ fetched_attempt t f rows
        → IsFetched t f a

  pub data IsCached (t : Task) (raw : L.Bytes) (r : SourceRecord) (a : Attempt L adapters)
      : Type 0 where
    is_cached :
        (rows : List Observation)
        → observations_of L adapters raw t ≡ ok rows
        → a ≡ (acquired rows r true, [])
        → IsCached t raw r a

  use_cached-IsCached :
      (t : Task) (raw : L.Bytes) (r : SourceRecord) (a : Attempt L adapters)
      → use_cached L adapters t (raw, r) ≡ ok a
      → IsCached t raw r a
  unfolding use_cached
  use_cached-IsCached t raw r a h =
      let (rows, e, k) = >>=-eq-ok (observations_of L adapters raw t) _ h in
      is_cached rows e (sym (ok_injective k))

  use_fetched-IsFetched :
      (t : Task) (f : Fetched L) (a : Attempt L adapters)
      → use_fetched L adapters t f ≡ ok a
      → IsFetched t f a
  unfolding use_fetched record_of checkpoint_name
  use_fetched-IsFetched t f a h =
      let (small, k) =
        otherwise (L.size f.raw == 0 || ltb max_raw (L.size f.raw)) "ValueError" _ h in
      let (rows, e, l) = >>=-eq-ok (observations_of L adapters f.raw t) _ k in
      is_fetched rows e (ground arith) (sym (ok_injective l))

  pub data HasAttempt (fetcher : Fetcher L) (refresh : Bool) (d : Files L) (t : Task)
      : Attempt L adapters → Type 0 where
    gave_up :
        (e : String)
        → HasAttempt fetcher refresh d t
            (failed (record { task_id = t.id; dataset = t.dataset; error = e }), [])
    from_cache :
        {a : Attempt L adapters} (raw : L.Bytes) (r : SourceRecord)
        → reuse L refresh d t ≡ ok (some (raw, r))
        → IsCached t raw r a
        → HasAttempt fetcher refresh d t a
    from_source :
        {a : Attempt L adapters} (f : Fetched L)
        → fetcher t.url ≡ ok f
        → IsFetched t f a
        → HasAttempt fetcher refresh d t a

  -- A task is given up without a write, read from the cache, or fetched.
  module _ (fetcher : Fetcher L) (refresh : Bool) (d : Files L) (t : Task) where
    ended :
        (found : Option (L.Bytes × SourceRecord)) (m : Result String (Attempt L adapters))
        → reuse L refresh d t ≡ ok found
        → attempt_from L adapters fetcher t found ≡ m
        → HasAttempt fetcher refresh d t (receipt L adapters fetcher t m)
    unfolding attempt_from receipt
    ended found (err e) _ _ = gave_up e
    ended none (ok a) _ h =
        let (f, e, k) = >>=-eq-ok (fetcher t.url) _ h in
        from_source f e (use_fetched-IsFetched t f a k)
    ended (some (raw, r)) (ok a) found h = from_cache raw r found (use_cached-IsCached t raw r a h)

    after :
        (m : Result String (Option (L.Bytes × SourceRecord)))
        → reuse L refresh d t ≡ m
        → HasAttempt fetcher refresh d t
            (receipt L adapters fetcher t (m >>= attempt_from L adapters fetcher t))
    unfolding receipt
    after (err e) _ = gave_up e
    after (ok found) h = ended found (attempt_from L adapters fetcher t found) h refl

    pub one-HasAttempt : HasAttempt fetcher refresh d t (one L adapters fetcher refresh d t)
    unfolding one attempt
    one-HasAttempt = after (reuse L refresh d t) refl
