-- ===== src/Wal/Flush.antt =====
-- The flush of the write-ahead log, `start_wal_flush_worker` of
-- crates/proxygit-client/src/wal/mod.rs: the stage files are sent to the server, oldest first. The
-- read cache, from which a flushed file is removed, is left out.
use proxygit.Prelude.{
  ℕ, suc, Bool, true, false, ◌&&◌, ◌||◌, List, [], ◌∷◌, ◌++◌, if◌then◌else◌, Option, none, some,
}
use proxygit.Bytes.{Bytes, bytes_eq}
use proxygit.Bytes.Ascii.{contains, starts_with, ends_with}
use proxygit.Bytes.Utf8.{text}
use proxygit.Result.{Result, ok, err, Error}
use proxygit.Protocol.Message.{msg_write_blocks_sparse}
use proxygit.Protocol.Frame.{Frame}
use proxygit.Protocol.Sparse.{encode_sparse_write}
use proxygit.Indexer.{bytes_le}
use proxygit.Client.{ClientEnv, Exchange, is_acked, request, mcp_read_raw_bytes}
use proxygit.Wal.{WalRecord, write_staged_records, read_staged_records}
use proxygit.Wal.Diff.{apply_patches, build_sparse_diff}

-- The records of each path, in their order; `path_map`.
abbrev pub Group : Type 0
Group = Bytes × List WalRecord

unfoldable pub add_record : WalRecord → List Group → List Group
add_record r [] = (r.path, r ∷ []) ∷ []
add_record r ((path, patches) ∷ groups) =
    if bytes_eq path r.path
    then (path, patches ++ r ∷ []) ∷ groups
    else (path, patches) ∷ add_record r groups

unfoldable pub group_from : List Group → List WalRecord → List Group
unfolding add_record
group_from groups [] = groups
group_from groups (r ∷ rs) = group_from (add_record r groups) rs

abbrev pub path_map : List WalRecord → List Group
path_map records = group_from [] records

abbrev pub is_stage : Bytes → Bool
is_stage name = starts_with (text "stage_") name && ends_with (text ".wal") name

unfoldable pub insert_name : Bytes → List Bytes → List Bytes
unfolding bytes_le
insert_name n [] = n ∷ []
insert_name n (m ∷ names) =
    let later = insert_name n names in if bytes_le n m then n ∷ m ∷ names else m ∷ later

-- The stage files of the directory, sorted by name.
unfoldable pub get_pending_stages : List Bytes → List Bytes
unfolding insert_name starts_with ends_with
get_pending_stages [] = []
get_pending_stages (n ∷ names) =
    let rest = get_pending_stages names in if is_stage n then insert_name n rest else rest

-- What becomes of a stage file.
pub data Stage : Type 0 where
  removed corrupt : Stage
  kept : Bytes → Stage

module _ (cenv : ClientEnv) (crc32 : Bytes → ℕ) {S : Type 0}
    (exchange : Frame → S → S × Exchange) where
  -- The content to patch: the server's, or nothing for a file that is not there; `none` defers.
  abbrev pub base_of : Result Bytes → Option Bytes
  base_of (ok b) = some b
  base_of (err e) =
      if contains (text "File not found") (cenv.display e)
        || contains (text "not found") (cenv.display e)
      then some []
      else none

  abbrev pub remaining : List WalRecord → S × Exchange → S × List WalRecord
  remaining patches (s, x) = (s, if is_acked x then [] else patches)

  abbrev pub flush_payload : Bytes → List WalRecord → Bytes → Bytes
  flush_payload path patches base =
      encode_sparse_write cenv.zstd cenv.zstd_enabled path
        (build_sparse_diff cenv.blake3 base (apply_patches patches base) 65536) none

  abbrev pub flush_on : ℕ → Bytes → List WalRecord → S → Option Bytes → S × List WalRecord
  flush_on project_id path patches s none = (s, patches)
  flush_on project_id path patches s (some base) = remaining patches (
      exchange (request cenv msg_write_blocks_sparse project_id (flush_payload path patches base))
        s)

  -- One path: the server's content is fetched and patched, and the changed blocks are sent. The
  -- records that must be tried again are left.
  unfoldable pub flush_path : ℕ → Bytes → List WalRecord → S → S × List WalRecord
  unfolding mcp_read_raw_bytes contains apply_patches build_sparse_diff encode_sparse_write
  flush_path project_id path patches s =
      let (s', base) = mcp_read_raw_bytes cenv exchange project_id path s in
      flush_on project_id path patches s' (base_of base)

  unfoldable pub flush_paths : ℕ → List Group → S → S × List WalRecord
  unfolding flush_path
  flush_paths project_id [] s = (s, [])
  flush_paths project_id ((path, patches) ∷ groups) s =
      let (s', left) = flush_path project_id path patches s in
      let (last, more) = flush_paths project_id groups s' in (last, left ++ more)

  -- A stage with nothing left is removed; otherwise the records that are left replace it. If that
  -- fails the old file stays.
  abbrev rewritten : Bytes → Option Error → List WalRecord → Stage
  rewritten old fault [] = removed
  rewritten old fault (r ∷ rs) = elim fault [
    | some e ↦ kept old
    | none ↦ elim (write_staged_records crc32 (r ∷ rs)) [ none ↦ removed | some bytes ↦ kept bytes ]
  ]

  -- `order` is the order in which the map of the paths is walked.
  abbrev flush_records :
      (List Group → List Group) → Option Error → ℕ → Bytes → Option (List WalRecord) → S → S × Stage
  flush_records order fault project_id old none s = (s, corrupt)
  flush_records order fault project_id old (some records) s =
      let (s', left) = flush_paths project_id (order (path_map records)) s in
      (s', rewritten old fault left)

  -- One stage file: one that cannot be read is put aside, an empty one is removed. The scan never
  -- runs out of fuel.
  unfoldable pub flush_stage :
      (List Group → List Group) → Option Error → ℕ → Result Bytes → S → S × Stage
  unfolding read_staged_records flush_paths group_from write_staged_records
  flush_stage order fault project_id (err e) s = (s, corrupt)
  flush_stage order fault project_id (ok bytes) s =
      flush_records order fault project_id bytes (read_staged_records crc32 bytes) s

  abbrev is_kept : Stage → Bool
  is_kept removed = false
  is_kept corrupt = false
  is_kept (kept bytes) = true

  -- The stages in order: after one that must be tried again no newer one is sent.
  unfoldable pub flush_stages :
      (List Group → List Group) → (ℕ → Option Error) → ℕ → List (Result Bytes) → S → S × List Stage
  unfolding flush_stage
  flush_stages order faults project_id [] s = (s, [])
  flush_stages order faults project_id (stage_bytes ∷ stages) s =
      let (s', stage) = flush_stage order (faults 0) project_id stage_bytes s in
      let (last, more) = flush_stages order (λ i. faults (suc i)) project_id stages s' in
      if is_kept stage then (s', stage ∷ []) else (last, stage ∷ more)
