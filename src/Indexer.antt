-- ===== src/Indexer.antt =====
-- The per-project SQLite index, crates/proxygit-server/src/indexer/mod.rs: the tables `files` and
-- `file_blocks` of one project, and the statements that the code runs on them.
pub mod Laws
use proxygit.Prelude.{
  ℕ, ◌+◌, ◌%◌, ◌^◌, Bool, true, false, ◌&&◌, List, [], ◌∷◌, ◌++◌, map, ltb, leb, ◌==◌,
  if◌then◌else◌, Option, none, some,
}
use proxygit.Bytes.{Bytes, bytes_eq}
use proxygit.Result.{Result, ok, err, Error, duplicate_row, ◌>>=◌}
use proxygit.BlockStore.{mem_bytes}
use proxygit.Cdc.{ChunkResult, reconstruct}

-- `FileEntry` of crates/proxygit-common/src/types.rs, and a row of `files`.
pub record FileEntry : Type 0 where
  pub path : Bytes
  pub size : ℕ
  pub mode : ℕ
  pub mtime : ℕ
  pub tree_hash : Bytes

pub record BlockRow : Type 0 where
  pub path : Bytes
  pub block_offset : ℕ
  pub block_size : ℕ
  pub block_hash : Bytes

-- The database of a project; a project with no database yet has empty tables.
pub record Tables : Type 0 where
  pub files : List FileEntry
  pub file_blocks : List BlockRow

abbrev pub no_tables : Tables
no_tables = record { files = []; file_blocks = [] }

-- BINARY collation: the order of the bytes.
unfoldable pub bytes_le : Bytes → Bytes → Bool
bytes_le [] ys = true
bytes_le (x ∷ xs) [] = false
bytes_le (x ∷ xs) (y ∷ ys) = if ltb x y then true else x == y && bytes_le xs ys

unfoldable pub insert_by_path : FileEntry → List FileEntry → List FileEntry
insert_by_path e [] = e ∷ []
insert_by_path e (f ∷ fs) = if bytes_le e.path f.path then e ∷ f ∷ fs else f ∷ insert_by_path e fs

-- SELECT … FROM files ORDER BY path
unfoldable pub list_files : List FileEntry → List FileEntry
unfolding bytes_le insert_by_path
list_files [] = []
list_files (f ∷ fs) = insert_by_path f (list_files fs)

-- INSERT … ON CONFLICT(path) DO UPDATE
unfoldable pub upsert_file : FileEntry → List FileEntry → List FileEntry
upsert_file e [] = e ∷ []
upsert_file e (f ∷ fs) = if bytes_eq f.path e.path then e ∷ fs else f ∷ upsert_file e fs

-- SELECT … FROM files WHERE path = ?1
unfoldable pub stat_file : Bytes → List FileEntry → Option FileEntry
stat_file p [] = none
stat_file p (f ∷ fs) = if bytes_eq f.path p then some f else stat_file p fs

-- DELETE FROM files WHERE path = ?1
unfoldable pub delete_entry : Bytes → List FileEntry → List FileEntry
delete_entry p [] = []
delete_entry p (f ∷ fs) =
    let rest = delete_entry p fs in if bytes_eq f.path p then rest else f ∷ rest

-- DELETE FROM file_blocks WHERE path = ?1
unfoldable pub delete_rows : Bytes → List BlockRow → List BlockRow
delete_rows p [] = []
delete_rows p (r ∷ rs) = let rest = delete_rows p rs in if bytes_eq r.path p then rest else r ∷ rest

unfoldable pub rows_of : Bytes → List BlockRow → List BlockRow
rows_of p [] = []
rows_of p (r ∷ rs) = let rest = rows_of p rs in if bytes_eq r.path p then r ∷ rest else rest

abbrev pub has_row : Bytes → ℕ → List BlockRow → Bool
has_row p o [] = false
has_row p o (r ∷ rs) = if bytes_eq r.path p && r.block_offset == o then true else has_row p o rs

unfoldable pub insert_by_offset : BlockRow → List BlockRow → List BlockRow
insert_by_offset r [] = r ∷ []
insert_by_offset r (s ∷ rs) =
    if leb r.block_offset s.block_offset then r ∷ s ∷ rs else s ∷ insert_by_offset r rs

unfoldable pub order_by_offset : List BlockRow → List BlockRow
unfolding insert_by_offset
order_by_offset [] = []
order_by_offset (r ∷ rs) = insert_by_offset r (order_by_offset rs)

-- SELECT block_hash FROM file_blocks WHERE path = ?1 ORDER BY block_offset ASC
unfoldable pub get_file_blocks : Bytes → List BlockRow → List Bytes
unfolding order_by_offset rows_of
get_file_blocks p rows = map (λ r. r.block_hash) (order_by_offset (rows_of p rows))

-- SELECT DISTINCT block_hash FROM file_blocks
unfoldable pub get_all_block_hashes : List BlockRow → List Bytes → List Bytes
get_all_block_hashes [] seen = []
get_all_block_hashes (r ∷ rs) seen =
    let fresh = r.block_hash ∷ get_all_block_hashes rs (r.block_hash ∷ seen) in
    if mem_bytes r.block_hash seen then get_all_block_hashes rs seen else fresh

abbrev pub total_size : List ChunkResult → ℕ
total_size [] = 0
total_size (c ∷ cs) = c.size + total_size cs

module _ (blake3 : Bytes → Bytes) (hex_encode : Bytes → Bytes) where
  abbrev pub row_at : Bytes → ChunkResult → BlockRow
  row_at p c = record {
    path = p;
    block_offset = c.offset;
    block_size = c.size;
    block_hash = hex_encode c.hash;
  }

  -- INSERT INTO file_blocks for each chunk: (path, block_offset) is the primary key, so a second
  -- row for the same offset fails.
  unfoldable pub insert_rows : Bytes → List ChunkResult → List BlockRow → Result (List BlockRow)
  insert_rows p [] rows = ok rows
  insert_rows p (c ∷ cs) rows =
      let later = insert_rows p cs (rows ++ row_at p c ∷ []) in
      if has_row p c.offset rows then err (duplicate_row p c.offset) else later

  abbrev pub entry_for : ℕ → Bytes → List ChunkResult → FileEntry
  entry_for now p chunks = record {
    path = p;
    size = total_size chunks;
    mode = 0o644;
    mtime = now;
    tree_hash = hex_encode (blake3 (reconstruct chunks));
  }

  -- One transaction: a failure leaves the tables as they were. `fault` is an error of the
  -- database itself, `now` the seconds since 1970.
  unfoldable pub ingest_chunks :
      Option Error → ℕ → Bytes → List ChunkResult → Tables → Result Tables
  unfolding insert_rows upsert_file delete_rows reconstruct
  ingest_chunks (some e) now p chunks t = err e
  ingest_chunks none now p chunks t = insert_rows p chunks (delete_rows p t.file_blocks) >>= λ rows.
      ok (record { files = upsert_file (entry_for now p chunks) t.files; file_blocks = rows })

-- One transaction as well.
unfoldable pub delete_file : Option Error → Bytes → Tables → Result Tables
unfolding delete_entry delete_rows
delete_file (some e) p t = err e
delete_file none p t =
    ok (record { files = delete_entry p t.files; file_blocks = delete_rows p t.file_blocks })
