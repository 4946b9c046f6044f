-- ===== src/HistoryStore/Acquire.antt =====
-- history_store.py: `acquire`. `download` is the parameter `fetcher`, the adapters are a parameter,
-- an exception is its name, and the clock's reading comes with the response. `run` and `acquire` are
-- the calls with one worker, whose tasks run one after another; Threads has several workers.
use zion_terminal.Base.{
  ℕ, ◌+◌, Bool, true, false, not, ◌&&◌, ◌||◌, Option, none, some, List, [], ◌∷◌, ◌++◌, String,
  str_eq, leb, ltb, ◌==◌, length, if◌then◌else◌,
}
use zion_terminal.Base.Dict.{Dict, lookup, put}
use zion_terminal.Base.Result.{Result, ok, err, ◌>>=◌}
use zion_terminal.HistoryStore.Files.{
  Task, same_task, Parsed, Observation, SourceRecord, Library, Files, Write, write_raw,
  write_checkpoint, atomic, checkpoint_name, is_pin, max_raw,
}

-- The receipt of a failed task.
pub record Failure : Type 0 where
  pub task_id : String
  pub dataset : String
  pub error : String

pub data Outcome : Type 0 where
  failed : Failure → Outcome
  acquired : (observations : List Observation) (source : SourceRecord) (cached : Bool) → Outcome

pub data AcquireError : Type 0 where
  budget_exceeded duplicate_task : AcquireError

pub record SourceEntry : Type 0 where
  pub source : SourceRecord
  pub url : String
  pub dataset : String

pub record Acquired : Type 0 where
  pub observations : List Observation
  pub sources : Dict SourceEntry
  pub failures : List Failure
  pub fetched_tasks : ℕ
  pub cached_tasks : ℕ

-- `row["source_id"] = task["id"]`
unfoldable pub with_source : Task → List Parsed → List Observation
with_source t [] = []
with_source t (r ∷ rows) = record { row = r; source_id = t.id } ∷ with_source t rows

unfoldable pub add_outcome : Outcome → Acquired → Acquired
unfolding put
add_outcome (failed f) a = record a { failures = a.failures ++ f ∷ [] }
add_outcome (acquired rows r cached) a = record {
  observations = a.observations ++ rows;
  sources =
      put r.task.id (record { source = r; url = r.task.url; dataset = r.task.dataset }) a.sources;
  failures = a.failures;
  fetched_tasks = if cached then a.fetched_tasks else a.fetched_tasks + 1;
  cached_tasks = if cached then a.cached_tasks + 1 else a.cached_tasks;
}

unfoldable pub collected : List Outcome → Acquired → Acquired
unfolding add_outcome
collected [] a = a
collected (o ∷ os) a = collected os (add_outcome o a)

abbrev pub nothing : Acquired
nothing = record {
  observations = [];
  sources = [];
  failures = [];
  fetched_tasks = 0;
  cached_tasks = 0;
}

unfoldable pub is_among : String → List Task → Bool
is_among id [] = false
is_among id (t ∷ ts) = str_eq id t.id || is_among id ts

-- `len({task["id"] for task in tasks}) != len(tasks)`
unfoldable pub has_duplicate : List Task → Bool
unfolding is_among
has_duplicate [] = false
has_duplicate (t ∷ ts) = is_among t.id ts || has_duplicate ts

module _ (L : Library) where
  pub record Fetched : Type 0 where
    pub raw : L.Bytes
    pub etag : Option String
    pub last_modified : Option String
    pub retrieved_at : String

  abbrev pub Fetcher : Type 0
  Fetcher = String → Result String Fetched

  -- `adapters[name].parse`
  abbrev pub Adapters : Type 0
  Adapters = String → Option (L.Bytes → Task → Result String (List Parsed))

  -- The bytes are the ones that the record pins, and the record is of this task.
  unfoldable pub verified : Task → SourceRecord → L.Bytes → Bool
  unfolding same_task
  verified t r raw =
      leb (L.size raw) max_raw && str_eq (L.digest raw) r.source_sha256 && same_task r.task t

  unfoldable pub pinned :
      Files L → Task → SourceRecord → Option L.Bytes → Option (L.Bytes × SourceRecord)
  unfolding verified
  pinned d t r none = none
  pinned d t r (some raw) = if verified t r raw then some (raw, r) else none

  unfoldable pub candidate : Files L → Task → Option SourceRecord → Option (L.Bytes × SourceRecord)
  unfolding pinned is_pin lookup
  candidate d t none = none
  candidate d t (some r) =
      if is_pin r.source_sha256 then pinned d t r (lookup r.source_sha256 d.raws) else none

  unfoldable pub read_checkpoint :
      Files L → Task → Option L.Bytes → Result String (Option (L.Bytes × SourceRecord))
  unfolding candidate
  read_checkpoint d t none = ok none
  read_checkpoint d t (some body) = do r ← L.loads body; ok (candidate d t r)

  -- The checkpoint's record and its bytes, when they can be used again.
  unfoldable pub reuse : Bool → Files L → Task → Result String (Option (L.Bytes × SourceRecord))
  unfolding read_checkpoint checkpoint_name lookup
  reuse refresh d t =
      if refresh then ok none else read_checkpoint d t (lookup (checkpoint_name L t) d.checkpoints)

  unfoldable pub record_of : Task → Fetched → SourceRecord
  record_of t f = record {
    task = t;
    source_sha256 = L.digest f.raw;
    bytes = L.size f.raw;
    retrieved_at = f.retrieved_at;
    etag = f.etag;
    last_modified = f.last_modified;
  }

  module _ (adapters : Adapters) where
    unfoldable pub parse_with :
        Option (L.Bytes → Task → Result String (List Parsed))
        → L.Bytes
        → Task
        → Result String (List Observation)
    unfolding with_source
    parse_with none raw t = err "KeyError"
    parse_with (some parse) raw t = do
      rows ← parse raw t
      if length rows == 0 then err "ValueError" else ok (with_source t rows)

    unfoldable pub observations_of : L.Bytes → Task → Result String (List Observation)
    unfolding parse_with
    observations_of raw t = parse_with (adapters t.dataset) raw t

    -- The outcome of a task, with the files that it writes, in order.
    abbrev pub Attempt : Type 0
    Attempt = Outcome × List (Write L)

    unfoldable pub use_cached : Task → L.Bytes × SourceRecord → Result String Attempt
    unfolding observations_of
    use_cached t (raw, r) = do rows ← observations_of raw t; ok (acquired rows r true, [])

    unfoldable pub use_fetched : Task → Fetched → Result String Attempt
    unfolding observations_of record_of checkpoint_name
    use_fetched t f =
        if L.size f.raw == 0 || ltb max_raw (L.size f.raw) then err "ValueError" else do
          rows ← observations_of f.raw t
          ok (
            acquired rows (record_of t f) false,
            write_raw (L.digest f.raw) f.raw
                ∷ write_checkpoint (checkpoint_name L t) (L.encoded_record (record_of t f))
                ∷ [],
          )

    module _ (fetcher : Fetcher) where
      unfoldable pub attempt_from : Task → Option (L.Bytes × SourceRecord) → Result String Attempt
      unfolding use_cached use_fetched
      attempt_from t (some found) = use_cached t found
      attempt_from t none = do f ← fetcher t.url; use_fetched t f

      unfoldable pub attempt : Bool → Files L → Task → Result String Attempt
      unfolding reuse attempt_from
      attempt refresh d t = do found ← reuse refresh d t; attempt_from t found

      unfoldable pub receipt : Task → Result String Attempt → Attempt
      receipt t (ok a) = a
      receipt t (err e) = (failed (record { task_id = t.id; dataset = t.dataset; error = e }), [])

      -- `one`
      unfoldable pub one : Bool → Files L → Task → Attempt
      unfolding attempt receipt
      one refresh d t = receipt t (attempt refresh d t)

      unfoldable pub written : List (Write L) → Files L → Files L
      unfolding atomic
      written [] d = d
      written (w ∷ ws) d = written ws (atomic L w d)

      -- `pool.map(one, tasks)` on a pool of one worker, which takes the tasks in their order
      unfoldable pub run : Bool → Files L → List Task → List Outcome × Files L
      unfolding one written
      run refresh d [] = ([], d)
      run refresh d (t ∷ ts) =
          let a = one refresh d t in
          let rest = run refresh (written a.1 d) ts in (a.0 ∷ rest.0, rest.1)

  -- `acquire` with one worker: the number of workers is tested, and the outcomes are those of `run`.
  unfoldable pub acquire :
      Adapters → Fetcher → ℕ → Bool → Files L → List Task → Result AcquireError (Acquired × Files L)
  unfolding has_duplicate run collected
  acquire adapters fetcher workers refresh d tasks =
      if not (leb 1 workers && leb workers 4) || ltb 160 (length tasks)
      then err budget_exceeded
      else if has_duplicate tasks
      then err duplicate_task
      else let (outcomes, files) = run adapters fetcher refresh d tasks in
        ok (collected outcomes nothing, files)
