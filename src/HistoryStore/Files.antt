-- ===== src/HistoryStore/Files.antt =====
-- history_store.py: tasks, rows of the adapters, source records, and the two folders of files. A
-- task has the three keys that every adapter's `tasks` writes. The JSON writer and reader, SHA-256
-- and the bytes themselves are a library's, and stand in the record `Library`.
use zion_terminal.Base.{
  ℕ, Bool, true, ◌&&◌, ◌||◌, Option, some, String, str_eq, leb, ◌==◌, ◌+◌, ◌≡◌,
}
use Prim.Native.Char.{Char, code}
use Prim.Native.String.{[], ◌∷◌}
use zion_terminal.Base.Dict.{Dict, put}
use zion_terminal.Base.Result.{Result, ok}

pub record Task : Type 0 where
  pub id : String
  pub url : String
  pub dataset : String

-- `candidate["task"] == task`
unfoldable pub same_task : Task → Task → Bool
same_task t u = str_eq t.id u.id && str_eq t.url u.url && str_eq t.dataset u.dataset

-- A row that an adapter's `parse` returns.
pub record Parsed : Type 0 where
  pub series_id : String
  pub observation_date : String
  pub value_decimal : Option String
  pub missing_reason : Option String
  pub unit : String
  pub asset_class : String
  pub label : String
  pub frequency : Option String

-- The row after `row["source_id"] = task["id"]`.
pub record Observation : Type 0 where
  pub row : Parsed
  pub source_id : String

-- The record that a checkpoint holds.
pub record SourceRecord : Type 0 where
  pub task : Task
  pub source_sha256 : String
  pub bytes : ℕ
  pub retrieved_at : String
  pub etag : Option String
  pub last_modified : Option String

-- What the code takes from `json` and `hashlib`. `loads` and the keys read from its answer: `none`
-- stands for a ValueError or KeyError, `err` for the name of another exception.
pub record Library : Type 1 where
  pub Bytes : Type 0
  pub empty : Bytes
  pub size : Bytes → ℕ
  pub digest : Bytes → String
  pub encoded_task : Task → Bytes
  pub encoded_record : SourceRecord → Bytes
  pub loads : Bytes → Result String (Option SourceRecord)

-- [a-f0-9]
unfoldable pub is_hex : Char → Bool
is_hex c = (leb 97 (code c) && leb (code c) 102) || (leb 48 (code c) && leb (code c) 57)

unfoldable pub hex_digits : ℕ → String → Bool
unfolding is_hex
hex_digits n [] = n == 64
hex_digits n (c ∷ s) = is_hex c && hex_digits (n + 1) s

-- `re.fullmatch(r"[a-f0-9]{64}", pin)`
unfoldable pub is_pin : String → Bool
unfolding hex_digits
is_pin pin = hex_digits 0 pin

-- MAX_RAW and MAX_OBJECT
abbrev pub max_raw : ℕ
max_raw = 33554432

abbrev pub max_object : ℕ
max_object = 1048576

-- What documentation says of them: a written record is read back, and a digest is 64 hexadecimal
-- digits.
pub record IsLawful (L : Library) : Type 0 where
  pub loads-encoded_record : (r : SourceRecord) → L.loads (L.encoded_record r) ≡ ok (some r)
  pub digest_pin : (raw : L.Bytes) → is_pin (L.digest raw) ≡ true

module _ (L : Library) where
  -- directory/raw/<pin>.bin and directory/checkpoints/<name>.json
  pub record Files : Type 0 where
    pub raws : Dict L.Bytes
    pub checkpoints : Dict L.Bytes

  -- The arguments of a call of `atomic`.
  pub data Write : Type 0 where
    write_raw : (pin : String) (raw : L.Bytes) → Write
    write_checkpoint : (name : String) (body : L.Bytes) → Write

  -- The file that a call replaces, and what it is to hold.
  pub data Target : Type 0 where
    raw_file checkpoint_file : String → Target

  abbrev pub target : Write → Target
  target (write_raw pin raw) = raw_file pin
  target (write_checkpoint name body) = checkpoint_file name

  abbrev pub content : Write → L.Bytes
  content (write_raw pin raw) = raw
  content (write_checkpoint name body) = body

  -- `temporary.replace(path)`, with what the temporary file holds
  unfoldable pub replace : Target → L.Bytes → Files → Files
  unfolding put
  replace (raw_file pin) b d = record d { raws = put pin b d.raws }
  replace (checkpoint_file name) b d = record d { checkpoints = put name b d.checkpoints }

  -- What a whole call leaves where no other thread is at the same file: the temporary file is created
  -- empty, it gets the bytes, and it replaces the target. Threads has these three steps one by one.
  unfoldable pub atomic : Write → Files → Files
  unfolding replace
  atomic w d = replace (target w) (content w) d

  -- The name of a task's checkpoint.
  unfoldable pub checkpoint_name : Task → String
  checkpoint_name t = L.digest (L.encoded_task t)
