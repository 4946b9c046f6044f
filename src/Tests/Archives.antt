-- ===== src/Tests/Archives.antt =====
-- history_store.py: two tasks, of which one fails at first, and a release of two series.
use zion_terminal.Base.{
  Bool, true, false, Option, none, some, List, [], ◌∷◌, String, str_eq, ◌≡◌, ◌≢◌, refl, ◌⊎◌, inl,
  inr, if◌then◌else◌, if_both, sym, ◌∙◌, arith, Bool-cases, All, In, str_eq_iff,
}
use zion_terminal.Base.Texts.{str_leb}
use Prim.Native.String.{◌++◌ as ◌<>◌}
use zion_terminal.Base.Dict.{lookup, put}
use zion_terminal.Base.Result.{Result, ok, err}
use zion_terminal.Base.Json.{Json, Fields, end, field, null, nil}
use zion_terminal.HistoryStore.Files.{
  Task, Parsed, Observation, SourceRecord, Library, IsLawful, checkpoint_name, is_pin, Files, Write,
  write_raw, write_checkpoint, raw_file, Target, replace, same_task,
}
use zion_terminal.HistoryStore.Acquire.{Adapters, Fetcher, Fetched, run, one, reuse, record_of}
use zion_terminal.HistoryStore.Threads.{
  Stage, outside, opened, filled, Thread, System, moved, advance, renamed, begin, make, Reach, here,
  next, started, set_part, same_target, busy_in, IsExclusive,
}
use zion_terminal.HistoryStore.Reuse.{reuse-Reach}
use zion_terminal.HistoryStore.Resume.{AreKept, run-run}
use zion_terminal.HistoryStore.Release.{Objects, file_of, build_release}
use zion_terminal.HistoryStore.Manifest.{Writer, Release}
use zion_terminal.HistoryStore.Complete.{
  IsPublished, IsRelease, Separate, build_release-IsPublished,
}

data Content : Type 0 where
  raw_bytes : String → Content
  task_bytes : Task → Content
  record_bytes : SourceRecord → Content

abbrev a_digest : String
a_digest = "aaaaaaaaaaaaaaaaaaaaaaaaaaaaaaaaaaaaaaaaaaaaaaaaaaaaaaaaaaaaaaaa"

abbrev b_digest : String
b_digest = "bbbbbbbbbbbbbbbbbbbbbbbbbbbbbbbbbbbbbbbbbbbbbbbbbbbbbbbbbbbbbbbb"

abbrev digest_of : Content → String
digest_of (raw_bytes s) = if str_eq s "rates" then a_digest else b_digest
digest_of (task_bytes t) = if str_eq t.id "t1" then a_digest else b_digest
digest_of (record_bytes r) = a_digest

abbrev loads_of : Content → Result String (Option SourceRecord)
loads_of (record_bytes r) = ok (some r)
loads_of _ = ok none

abbrev library : Library
library = record {
  Bytes = Content;
  empty = raw_bytes "";
  size = λ c. 5;
  digest = digest_of;
  encoded_task = task_bytes;
  encoded_record = record_bytes;
  loads = loads_of;
}

digest_of_pin : (c : Content) → is_pin (digest_of c) ≡ true
unfolding is_pin
digest_of_pin (raw_bytes s) =
    if_both (λ d. is_pin d ≡ true) (str_eq s "rates") a_digest b_digest refl refl
digest_of_pin (task_bytes t) =
    if_both (λ d. is_pin d ≡ true) (str_eq t.id "t1") a_digest b_digest refl refl
digest_of_pin (record_bytes r) = refl

library-IsLawful : IsLawful library
library-IsLawful = record { loads-encoded_record = λ r. refl; digest_pin = digest_of_pin }

abbrev first_task : Task
first_task = record { id = "t1"; url = "u1"; dataset = "rates" }

abbrev second_task : Task
second_task = record { id = "t2"; url = "u2"; dataset = "rates" }

abbrev row : String → Option String → Parsed
row day value = record {
  series_id = "us:10y";
  observation_date = day;
  value_decimal = value;
  missing_reason = some "SOURCE_NA";
  unit = "percent";
  asset_class = "rates";
  label = "10 Yr";
  frequency = none;
}

abbrev adapters : Adapters library
adapters name = some (λ raw t. ok (row "2024-01-02" (some "4.1") ∷ []))

abbrev response : String → Fetched library
response s = record { raw = raw_bytes s; etag = none; last_modified = none; retrieved_at = "now" }

-- The second address answers only later.
abbrev early : Fetcher library
early url = if str_eq url "u1" then ok (response "rates") else err "ConnectionError"

abbrev late : Fetcher library
late url = if str_eq url "u2" then ok (response "yields") else err "ConnectionError"

abbrev empty_files : Files library
empty_files = record { raws = []; checkpoints = [] }

abbrev both_tasks : List Task
both_tasks = first_task ∷ second_task ∷ []

abbrev Seen : Content → Type 0
Seen c = (c ≡ raw_bytes "rates") ⊎ (c ≡ raw_bytes "yields")

never : {A : Type 0} → false ≡ true → A
never h = cc

apart : {A : Type 0} → a_digest ≡ b_digest → A
apart h = never ((str_eq_iff a_digest b_digest).1 h)

digest_of-separated : (a b : Content) → Seen a → Seen b → digest_of a ≡ digest_of b → a ≡ b
digest_of-separated a b (inl p) (inl q) h = p ∙ sym q
digest_of-separated a b (inl p) (inr q) h = apart (rw (p, q) at h)
digest_of-separated a b (inr p) (inl q) h = apart (sym (rw (p, q) at h))
digest_of-separated a b (inr p) (inr q) h = p ∙ sym q

early-IsSeen : (url : String) (x : Fetched library) → early url ≡ ok x → Seen x.raw
early-IsSeen url x h = elim (Bool-cases (str_eq url "u1")) [
  | inl e ↦ inl (ground arith)
  | inr e ↦ ground arith
]

late-IsSeen : (url : String) (x : Fetched library) → late url ≡ ok x → Seen x.raw
late-IsSeen url x h = elim (Bool-cases (str_eq url "u2")) [
  | inl e ↦ inr (ground arith)
  | inr e ↦ ground arith
]

nothing_known :
    (pin : String) (raw : Content)
    → lookup pin empty_files.raws ≡ some raw
    → Seen raw × (digest_of raw ≡ pin)
unfolding lookup
nothing_known pin raw h = cc

run-run_example :
    AreKept
      (run library adapters early true empty_files both_tasks).0
      (run library adapters late false
        (run library adapters early true empty_files both_tasks).1
        both_tasks).0
unfolding checkpoint_name
run-run_example =
    run-run library library-IsLawful adapters Seen digest_of-separated early late true empty_files
      both_tasks early-IsSeen late-IsSeen nothing_known ((refl, tt), (tt, tt))

abbrev pending_record : SourceRecord
pending_record = record_of library first_task (response "rates")

abbrev first_writes : List (Write library)
first_writes =
    write_raw a_digest (raw_bytes "rates")
    ∷ write_checkpoint a_digest (record_bytes pending_record)
    ∷ []

abbrev other_record : SourceRecord
other_record = record_of library second_task (response "yields")

abbrev other_writes : List (Write library)
other_writes =
    write_raw b_digest (raw_bytes "yields")
    ∷ write_checkpoint b_digest (record_bytes other_record)
    ∷ []

abbrev checkpoint_call : Write library
checkpoint_call = write_checkpoint a_digest (record_bytes pending_record)

abbrev one_at : Stage → List (Write library) → Thread library
one_at stage ws = record { stage = stage; writes = ws }

-- Two threads begin; the second creates its first temporary file while the first works.
abbrev both_begun : System library
both_begun = record {
  files = empty_files;
  parts = λ x. none;
  pending = one_at outside other_writes ∷ one_at outside first_writes ∷ [];
}

abbrev first_opened : System library
first_opened = moved library (one_at outside other_writes ∷ []) [] (
    advance library outside (write_raw a_digest (raw_bytes "rates")) (checkpoint_call ∷ [])
      both_begun.parts both_begun.files)

abbrev other_opened : System library
other_opened = moved library [] (one_at opened first_writes ∷ []) (
    advance library outside (write_raw b_digest (raw_bytes "yields"))
      (write_checkpoint b_digest (record_bytes other_record) ∷ []) first_opened.parts
      first_opened.files)

abbrev raw_filled : System library
raw_filled = moved library (one_at opened other_writes ∷ []) [] (
    advance library opened (write_raw a_digest (raw_bytes "rates")) (checkpoint_call ∷ [])
      other_opened.parts other_opened.files)

abbrev raw_renamed : System library
raw_renamed = moved library (one_at opened other_writes ∷ []) [] (
    advance library filled (write_raw a_digest (raw_bytes "rates")) (checkpoint_call ∷ [])
      raw_filled.parts raw_filled.files)

abbrev checkpoint_opened : System library
checkpoint_opened =
    moved library (one_at opened other_writes ∷ []) []
      (advance library outside checkpoint_call [] raw_renamed.parts raw_renamed.files)

abbrev checkpoint_filled : System library
checkpoint_filled =
    moved library (one_at opened other_writes ∷ []) []
      (advance library opened checkpoint_call [] checkpoint_opened.parts checkpoint_opened.files)

abbrev checkpoint_renamed : System library
checkpoint_renamed =
    moved library (one_at opened other_writes ∷ []) []
      (advance library filled checkpoint_call [] checkpoint_filled.parts checkpoint_filled.files)

begun : Reach library adapters (started library) both_begun
unfolding one record_of checkpoint_name
begun = next (next here (begin early false first_task refl)) (begin late false second_task refl)

reached : Reach library adapters (started library) checkpoint_renamed
unfolding one record_of checkpoint_name advance renamed set_part same_target replace put
reached =
    next
      (next
        (next
          (next
            (next
              (next (next begun (make (one_at outside other_writes ∷ []) [] outside _ _ refl refl))
                (make [] (one_at opened first_writes ∷ []) outside _ _ refl refl))
              (make (one_at opened other_writes ∷ []) [] opened _ _ refl refl))
            (make (one_at opened other_writes ∷ []) [] filled _ _ refl refl))
          (make (one_at opened other_writes ∷ []) [] outside _ _ refl refl))
        (make (one_at opened other_writes ∷ []) [] opened _ _ refl refl))
      (make (one_at opened other_writes ∷ []) [] filled _ _ refl refl)

raws_apart :
    (x : Target library) → some (raw_file b_digest) ≡ some x → some (raw_file a_digest) ≢ some x
raws_apart x e f = apart (raw_names (f ∙ sym e))
  where
    raw_names :
        ◌≡◌ {A = Option (Target library)} (some (raw_file a_digest)) (some (raw_file b_digest))
        → a_digest ≡ b_digest
    raw_names h = cc

reached-IsExclusive : IsExclusive library reached
unfolding reached begun busy_in advance renamed set_part same_target replace put
reached-IsExclusive = (
  (((λ x e f. cc), tt), (tt, tt)),
  (
    (((λ x e f. cc), tt), (tt, tt)),
    (
      (((λ x e f. cc), tt), (tt, tt)),
      (
        (((λ x e f. cc), tt), (tt, tt)),
        (
          (((λ x e f. raws_apart x e f), tt), (tt, tt)),
          (
            (((λ x e f. raws_apart x e f), tt), (tt, tt)),
            ((((λ x e f. cc), tt), (tt, tt)), ((((λ x e f. cc), tt), (tt, tt)), ((tt, tt), tt))),
          ),
        ),
      ),
    ),
  ),
)

reuse-Reach_example :
    (r : SourceRecord) × (raw : Content) × (record_bytes pending_record ≡ record_bytes r)
    × (digest_of raw ≡ r.source_sha256)
    × (reuse library false checkpoint_renamed.files first_task
        ≡ ok (if same_task r.task first_task then some (raw, r) else none))
unfolding checkpoint_name record_of lookup advance renamed set_part same_target replace put
reuse-Reach_example =
    reuse-Reach library library-IsLawful adapters first_task (record_bytes pending_record) reached
      reached-IsExclusive refl

data Text : Type 0 where
  json_bytes : Json → Text
  utf8_bytes : String → Text

abbrev text_digest : Text → String
text_digest (json_bytes j) = a_digest
text_digest (utf8_bytes s) = s

abbrev writer : Writer
writer = record {
  Bytes = Text;
  size = λ t. 100;
  digest = text_digest;
  encoded = json_bytes;
  utf8 = utf8_bytes;
}

abbrev observations : List Observation
observations =
    record { row = row "2024-01-03" none; source_id = "t1" }
    ∷ record { row = row "2024-01-02" (some "4.1"); source_id = "t1" }
    ∷ record {
      row = record (row "2024-01-02" (some "4.3")) { series_id = "us:2y" };
      source_id = "t1";
    }
    ∷ []

abbrev sources : Fields
sources = field "t1" null end

abbrev finite : String → Result String Bool
finite s = ok true

abbrev built_release : Release
built_release = record {
  release_id = a_digest;
  key = "gold/historical-series/releases/" <> a_digest <> "/manifest.json";
  sha256 = a_digest;
  relative_manifest = "releases/" <> a_digest <> "/manifest.json";
  series_count = 2;
  observations = 2;
  missing = 1;
}

two_days : (build_release writer finite observations sources nil).1 ≡ ok built_release
unfolding build_release str_leb
two_days = refl

two_names :
    (o : Observation)
    → In o observations
    → (o.row.series_id ≡ "us:10y") ⊎ (o.row.series_id ≡ "us:2y")
two_names o (inl p) = inl (rw (sym p) refl)
two_names o (inr (inl p)) = inl (rw (sym p) refl)
two_names o (inr (inr (inl p))) = inr (rw (sym p) refl)
two_names o (inr (inr (inr i))) = elim i [ ]

files_apart : {A : Type 0} → file_of writer "us:10y" ≡ file_of writer "us:2y" → A
unfolding file_of
files_apart h = never ((str_eq_iff (file_of writer "us:10y") (file_of writer "us:2y")).1 h)

separate : Separate writer observations
separate a b i j same = named (two_names a i) (two_names b j)
  where
    named :
        (a.row.series_id ≡ "us:10y") ⊎ (a.row.series_id ≡ "us:2y")
        → (b.row.series_id ≡ "us:10y") ⊎ (b.row.series_id ≡ "us:2y")
        → a.row.series_id ≡ b.row.series_id
    named (inl p) (inl q) = p ∙ sym q
    named (inr p) (inr q) = p ∙ sym q
    named (inl p) (inr q) = files_apart (rw (p, q) at same)
    named (inr p) (inl q) = files_apart (sym (rw (p, q) at same))

build_release-IsPublished_example :
    (objects : Objects writer) × IsRelease writer
      (build_release writer finite observations sources nil)
      built_release
      objects
      sources
      nil
    × All (IsPublished writer objects) observations
build_release-IsPublished_example =
    build_release-IsPublished writer finite observations sources nil separate two_days
