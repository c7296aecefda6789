-- ===== src/Server.antt =====
-- The server of crates/proxygit-server/src/lib.rs: its state, the functions it calls that are not
-- modelled, and the replies that its handlers share.
pub mod Read
pub mod Write
pub mod Session
pub mod Backup
pub mod Files
use proxygit.Prelude.{
  ℕ, ◌*◌, ◌%◌, ◌^◌, Bool, true, false, List, [], ◌∷◌, ◌++◌, length, replicate, ◌==◌, if◌then◌else◌,
  Option, none, some,
}
use proxygit.Bytes.{Bytes, bytes_eq}
use proxygit.Bytes.Utf8.{text}
use proxygit.Result.{Result, ok, err, Error}
use proxygit.Protocol.Message.{msg_error, msg_write_ack}
use proxygit.Protocol.Frame.{Frame}
use proxygit.Protocol.Sparse.{Zstd}
use proxygit.BlockStore.{Disk}
use proxygit.Indexer.{FileEntry, Tables}

-- The values that the handlers give to `serde_json::to_vec`.
mutual
  pub data Json : Type 0 where
    null : Json
    string : Bytes → Json
    number : ℕ → Json
    array : Values → Json
    object : Fields → Json

  pub data Values : Type 0 where
    no_values : Values
    value : Json → Values → Values

  pub data Fields : Type 0 where
    no_fields : Fields
    field : Bytes → Json → Fields → Fields

-- `EmbeddingIndex`: a vector of f32, as bit patterns, for each path.
abbrev pub Embeddings : Type 0
Embeddings = List (Bytes × List ℕ)

-- The functions of other crates (blake3, hex, zstd, serde_json, the `Display` of errors), and the
-- floating-point functions of embeddings.rs.
pub record Env : Type 0 where
  pub blake3 : Bytes → Bytes
  pub hex_encode : Bytes → Bytes
  pub zstd : Zstd
  pub to_vec : Json → Bytes
  pub display : Error → Bytes
  pub compute_embedding : Bytes → List ℕ
  pub search : Embeddings → List ℕ → ℕ → List Bytes

-- What the disk and the database do for one file that is restored from a backup.
pub record FileIo : Type 0 where
  pub open_fault : Option Error
  pub store_fault : Option ℕ
  pub ingest_fault : Option Error
  pub now : ℕ

-- What the file system does during a backup or a restore: errors before the archive is written
-- or read, while it is moved into place and after that, and the clock in nanoseconds.
pub record BackupIo : Type 0 where
  pub setup_fault : Option Error
  pub finish_fault : Option Error
  pub late_fault : Option Error
  pub nanos : ℕ
  pub file_io : ℕ → FileIo

abbrev pub calm_file : ℕ → FileIo
calm_file now = record { open_fault = none; store_fault = none; ingest_fault = none; now = now }

abbrev pub calm_backup : ℕ → BackupIo
calm_backup now = record {
  setup_fault = none;
  finish_fault = none;
  late_fault = none;
  nanos = now * 10 ^ 9;
  file_io = λ i. calm_file now;
}

-- What the disk and the database do while a request is served: an error for a call that fails,
-- the number of steps after which a batch stops, and the clock in seconds.
pub record Io : Type 0 where
  pub list_fault : Option Error
  pub stat_fault : Option Error
  pub blocks_fault : Option Error
  pub read_fault : Option Error
  pub unreadable : Bytes → Bool
  pub ingest_fault : Option Error
  pub store_fault : Option ℕ
  pub now : ℕ
  pub backup : BackupIo

abbrev pub calm : ℕ → Io
calm now = record {
  list_fault = none;
  stat_fault = none;
  blocks_fault = none;
  read_fault = none;
  unreadable = λ n. false;
  ingest_fault = none;
  store_fault = none;
  now = now;
  backup = calm_backup now;
}

pub data WriteConflictPolicy : Type 0 where
  last_writer_wins reject_stale : WriteConflictPolicy

-- The tables are those of the database of each project id; `backups` are the files, by name, of
-- the directory `backups/<project id>`.
pub record AppState : Type 0 where
  pub disk : Disk
  pub tables : ℕ → Tables
  pub embeddings : Embeddings
  pub auth_token : Option Bytes
  pub write_conflict : WriteConflictPolicy
  pub backups : ℕ → List (Bytes × Bytes)

-- `PROXYGIT_WRITE_CONFLICT`, in lower case.
unfoldable pub from_env : Bytes → WriteConflictPolicy
from_env name =
    if bytes_eq name (text "reject_stale")
    then reject_stale
    else if bytes_eq name (text "reject")
    then reject_stale
    else if bytes_eq name (text "strict")
    then reject_stale
    else last_writer_wins

unfoldable pub query {ℓ} : {A : Type ℓ} → Option Error → A → Result A
query none a = ok a
query (some e) a = err e

unfoldable pub set_tables : ℕ → Tables → (ℕ → Tables) → ℕ → Tables
set_tables p t tables q = if q == p then t else tables q

-- `EmbeddingIndex::set`: an insertion into the map.
unfoldable pub set : Bytes → List ℕ → Embeddings → Embeddings
set p v [] = (p, v) ∷ []
set p v ((q, w) ∷ rest) = if bytes_eq q p then (p, v) ∷ rest else (q, w) ∷ set p v rest

abbrev pub zero_hash : Bytes
zero_hash = replicate 32 0

-- The frame that `send_frame` writes.
abbrev pub reply : ℕ → ℕ → Bytes → Bytes → Frame
reply msg_type project_id hash payload = record {
  msg_type = msg_type;
  project_id = project_id;
  payload_len = length payload % 2 ^ 32;
  hash = hash;
  payload = payload;
}

-- A MSG_ERROR with a message.
abbrev pub refuse : Frame → Bytes → Frame
refuse frame message = reply msg_error frame.project_id zero_hash message

module _ (env : Env) where
  -- A frame whose hash is the one of its payload.
  abbrev pub hashed : ℕ → Frame → Bytes → Frame
  hashed msg_type frame payload = reply msg_type frame.project_id (env.blake3 payload) payload

  -- `{ "path": path, "tree_hash": … }`
  abbrev pub write_ack : Frame → Bytes → Bytes → Frame
  write_ack frame path content = hashed msg_write_ack frame (
      env.to_vec (
        object (
          field (text "path") (string path)
            (field (text "tree_hash") (string (env.hex_encode (env.blake3 content))) no_fields))))

-- `FileEntry` as serde derives it, and lists of entries and of strings.
abbrev pub entry_json : FileEntry → Json
entry_json e = object (
    field (text "path") (string e.path) (
      field (text "size") (number e.size) (
        field (text "mode") (number e.mode) (
          field (text "mtime") (number e.mtime)
            (field (text "tree_hash") (string e.tree_hash) no_fields)))))

abbrev pub entry_values : List FileEntry → Values
entry_values [] = no_values
entry_values (e ∷ es) = value (entry_json e) (entry_values es)

abbrev pub string_values : List Bytes → Values
string_values [] = no_values
string_values (s ∷ ss) = value (string s) (string_values ss)
