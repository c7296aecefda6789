-- ===== src/Server/Backup.antt =====
-- Backups of a project, the backup functions of crates/proxygit-server/src/lib.rs. A tar.gz file
-- is its bytes; packing and unpacking it are parameters.
use proxygit.Prelude.{ℕ, suc, List, [], ◌∷◌, ◌++◌, length, if◌then◌else◌, Option, none, some, ◌==◌}
use proxygit.Bytes.{Bytes, bytes_eq}
use proxygit.Bytes.Ascii.{decimal, ends_with, trim_end_matches}
use proxygit.Bytes.Utf8.{text, from_utf8_lossy}
use proxygit.Result.{Result, ok, err, Error, out_of_fuel, no_backup, ◌>>=◌}
use proxygit.Protocol.Message.{msg_create_backup, msg_list_backups}
use proxygit.Protocol.Frame.{Frame}
use proxygit.Cdc.{ChunkResult, default_config, process_buffer}
use proxygit.BlockStore.{Disk, store_file, read_blocks}
use proxygit.Indexer.{FileEntry, Tables, bytes_le, list_files, get_file_blocks, ingest_chunks}
use proxygit.Server.{
  Env, Io, BackupIo, FileIo, AppState, Json, Values, no_values, value, array, object, field,
  no_fields, string, number, query, set_tables, refuse, hashed,
}

-- A member of the archive: its path, mode, time and content.
pub record TarEntry : Type 0 where
  pub path : Bytes
  pub mode : ℕ
  pub mtime : ℕ
  pub content : Bytes

-- The crates tar, flate2 and walkdir: the file of an archive, and the regular files that unpacking
-- one into an empty directory gives, in the order in which the directory is walked.
pub record Archive : Type 0 where
  pub pack : List TarEntry → Result Bytes
  pub unpack : Bytes → Result (List (Bytes × Bytes))

abbrev pub Files : Type 0
Files = List (Bytes × Bytes)

-- A rename onto a name replaces its file.
unfoldable pub put_file : Bytes → Bytes → Files → Files
put_file name data_bytes [] = (name, data_bytes) ∷ []
put_file name data_bytes ((n, d) ∷ files) =
    if bytes_eq n name then (name, data_bytes) ∷ files else (n, d) ∷ put_file name data_bytes files

unfoldable pub find_file : Bytes → Files → Option Bytes
find_file name [] = none
find_file name ((n, d) ∷ files) =
    let rest = find_file name files in if bytes_eq n name then some d else rest

abbrev pub set_backups : ℕ → Files → AppState → AppState
set_backups p files st = record st { backups = λ q. if q == p then files else st.backups q }

abbrev pub content_of : Io → Disk → List Bytes → Result Bytes
content_of io disk [] = ok []
content_of io disk (b ∷ bs) = query io.read_fault (b ∷ bs) >>= read_blocks disk

-- The loop over the entries: what goes into the archive.
unfoldable pub collect : Io → AppState → ℕ → List FileEntry → Result (List TarEntry)
unfolding query get_file_blocks read_blocks
collect io st project_id [] = ok []
collect io st project_id (e ∷ es) =
    query io.blocks_fault (get_file_blocks e.path (st.tables project_id).file_blocks) >>= λ blocks.
    content_of io st.disk blocks >>= λ content. collect io st project_id es >>= λ rest.
    ok (record { path = e.path; mode = e.mode; mtime = e.mtime; content = content } ∷ rest)

abbrev pub backup_name : ℕ → Bytes
backup_name nanos = decimal nanos ++ text ".tar.gz"

module _ (env : Env) (archive : Archive) where
  abbrev pub backup_bytes : Io → AppState → ℕ → Result Bytes
  backup_bytes io st project_id = query io.backup.setup_fault st.tables >>= λ tables.
      query io.list_fault (list_files (tables project_id).files) >>= λ files.
      collect io st project_id files >>= λ entries.
      archive.pack entries >>= query io.backup.finish_fault

  abbrev pub backed_up : Io → AppState → ℕ → Result Bytes → AppState × Result (Bytes × ℕ)
  backed_up io st project_id (err e) = (st, err e)
  backed_up io st project_id (ok bytes) = (
    set_backups project_id (put_file (backup_name io.backup.nanos) bytes (st.backups project_id))
        st,
    query io.backup.late_fault (backup_name io.backup.nanos, length bytes),
  )

  unfoldable pub create_project_backup : Io → ℕ → AppState → AppState × Result (Bytes × ℕ)
  unfolding list_files collect query put_file decimal
  create_project_backup io project_id st =
      backed_up io st project_id (backup_bytes io st project_id)

  abbrev pub backup_json : Bytes × ℕ → Json
  backup_json (name, size) =
      object (field (text "name") (string name) (field (text "size") (number size) no_fields))

  abbrev pub created : Frame → AppState × Result (Bytes × ℕ) → AppState × Frame
  created frame (st, ok b) = (st, hashed env msg_create_backup frame (env.to_vec (backup_json b)))
  created frame (st, err e) = (st, refuse frame (text "Backup failed: " ++ env.display e))

  unfoldable pub handle_create_backup : Io → Frame → AppState → AppState × Frame
  unfolding create_project_backup
  handle_create_backup io frame st = created frame (create_project_backup io frame.project_id st)

  -- The chunks of one extracted file are stored and indexed; the first failure ends the restore,
  -- with the files before it restored.
  abbrev pub file_indexed : ℕ → AppState → Result Tables → AppState × Result (Unit {0})
  file_indexed project_id st (err e) = (st, err e)
  file_indexed project_id st (ok t) =
      (record st { tables = set_tables project_id t st.tables }, ok tt)

  abbrev pub file_stored :
      FileIo
      → ℕ
      → Bytes
      → List ChunkResult
      → AppState
      → Disk × Result (Unit {0})
      → AppState × Result (Unit {0})
  file_stored io project_id path chunks st (disk, err e) = (record st { disk = disk }, err e)
  file_stored io project_id path chunks st (disk, ok u) =
      file_indexed project_id (record st { disk = disk })
        (ingest_chunks env.blake3 env.hex_encode io.ingest_fault io.now path chunks
          (st.tables project_id))

  abbrev pub file_chunked :
      FileIo → ℕ → Bytes → AppState → Option (List ChunkResult) → AppState × Result (Unit {0})
  file_chunked io project_id path st none = (st, err out_of_fuel)
  file_chunked io project_id path st (some chunks) =
      file_stored io project_id path chunks st
        (store_file env.hex_encode io.store_fault chunks st.disk)

  unfoldable pub restore_file : FileIo → ℕ → Bytes → Bytes → AppState → AppState × Result (Unit {0})
  unfolding process_buffer store_file ingest_chunks set_tables
  restore_file io project_id path content st = elim io.open_fault [
    | some e ↦ (st, err e)
    | none ↦ file_chunked io project_id path st (process_buffer env.blake3 default_config content)
  ]

  unfoldable pub restore_files : BackupIo → ℕ → ℕ → Files → AppState → AppState × Result (Unit {0})
  unfolding restore_file
  restore_files bio project_id i [] st = (st, ok tt)
  restore_files bio project_id i ((path, content) ∷ files) st =
      let (st', outcome) = restore_file (bio.file_io i) project_id path content st in
      elim outcome [ err e ↦ (st', err e) | ok u ↦ restore_files bio project_id (suc i) files st' ]

  abbrev pub extracted : Io → Option Bytes → Result Files
  extracted io none = err no_backup
  extracted io (some bytes) = query io.backup.setup_fault bytes >>= archive.unpack

  abbrev pub restored : Io → ℕ → AppState → Result Files → AppState × Result (Unit {0})
  restored io project_id st (err e) = (st, err e)
  restored io project_id st (ok files) = restore_files io.backup project_id 0 files st

  unfoldable pub restore_project_backup : Io → ℕ → Bytes → AppState → AppState × Result (Unit {0})
  unfolding find_file query restore_files
  restore_project_backup io project_id name st =
      restored io project_id st (extracted io (find_file name (st.backups project_id)))

  abbrev restore_reply : Frame → Bytes → AppState × Result (Unit {0}) → AppState × Frame
  restore_reply frame name (st, ok u) =
      (st, hashed env msg_create_backup frame (text "Restored from " ++ name))
  restore_reply frame name (st, err e) =
      (st, refuse frame (text "Restore failed: " ++ env.display e))

  unfoldable pub handle_restore_backup : Io → Frame → AppState → AppState × Frame
  unfolding restore_project_backup from_utf8_lossy
  handle_restore_backup io frame st =
      restore_reply frame (from_utf8_lossy frame.payload)
        (restore_project_backup io frame.project_id (from_utf8_lossy frame.payload) st)

-- One entry of the list: the file's name, its timestamp and its size.
pub record Backup : Type 0 where
  pub name : Bytes
  pub timestamp : Bytes
  pub size : ℕ

-- The files with the extension gz whose stem ends in `.tar`.
unfoldable pub backups_in : Files → List Backup
unfolding ends_with trim_end_matches
backups_in [] = []
backups_in ((n, d) ∷ files) =
    let rest = backups_in files in
    if ends_with (text ".tar.gz") n
    then record { name = n; timestamp = trim_end_matches (text ".tar.gz") n; size = length d }
      ∷ rest
    else rest

unfoldable pub insert_backup : Backup → List Backup → List Backup
unfolding bytes_le
insert_backup b [] = b ∷ []
insert_backup b (c ∷ cs) =
    let rest = insert_backup b cs in
    if bytes_le b.timestamp c.timestamp then b ∷ c ∷ cs else c ∷ rest

-- `sort_by` on the text of the timestamps, which is stable.
unfoldable pub sort_backups : List Backup → List Backup
unfolding insert_backup
sort_backups [] = []
sort_backups (b ∷ bs) = insert_backup b (sort_backups bs)

-- `fault` is an error of reading the directory.
unfoldable pub list_project_backups : Option Error → ℕ → AppState → Result (List Backup)
unfolding backups_in sort_backups query
list_project_backups fault project_id st =
    query fault (sort_backups (backups_in (st.backups project_id)))

abbrev pub backup_values : List Backup → Values
backup_values [] = no_values
backup_values (b ∷ bs) =
    value
      (object (
        field (text "name") (string b.name) (
          field (text "timestamp") (string b.timestamp)
            (field (text "size") (number b.size) no_fields))))
      (backup_values bs)

module _ (env : Env) where
  abbrev listed : Frame → Result (List Backup) → Frame
  listed frame (ok backups) =
      hashed env msg_list_backups frame (env.to_vec (array (backup_values backups)))
  listed frame (err e) = refuse frame (text "List backups failed: " ++ env.display e)

  unfoldable pub handle_list_backups : Io → Frame → AppState → Frame
  unfolding list_project_backups
  handle_list_backups io frame st =
      listed frame (list_project_backups io.backup.setup_fault frame.project_id st)
