-- ===== src/Server/Write.antt =====
-- The two write handlers of crates/proxygit-server/src/lib.rs: the state they leave, and the reply
-- or the error that ends the stream without one.
pub mod Atomic
pub mod Readable
pub mod ReadBack
pub mod Conflict
pub mod Resolve
use proxygit.Prelude.{
  ℕ, ◌+◌, List, [], ◌∷◌, ◌++◌, length, map, is_empty, if◌then◌else◌, Option, none, some,
}
use proxygit.Bytes.{Bytes, bytes_eq}
use proxygit.Bytes.Utf8.{text}
use proxygit.Result.{Result, ok, err, Error, out_of_fuel, block_missing, ◌>>=◌}
use proxygit.Protocol.Message.{msg_error}
use proxygit.Protocol.Frame.{Frame}
use proxygit.Protocol.Payload.{decode_write_payload}
use proxygit.Protocol.Sparse.{SparseChunk, decode_sparse_write}
use proxygit.Cdc.{ChunkResult, default_config, process_buffer, reconstruct}
use proxygit.BlockStore.{readable_disk, Disk, Block, get_block, store_blocks, store_file}
use proxygit.Indexer.{FileEntry, Tables, stat_file, ingest_chunks}
use proxygit.Paths.{sanitize_path}
use proxygit.Server.{
  Env, Io, AppState, Json, null, string, object, no_fields, field, WriteConflictPolicy,
  last_writer_wins, reject_stale, query, set_tables, set, zero_hash, refuse, hashed, write_ack,
}

-- The blocks of a sparse write that come with data.
unfoldable pub new_blocks : List SparseChunk → List Block
new_blocks [] = []
new_blocks (c ∷ cs) =
    let rest = new_blocks cs in if is_empty c.content then rest else (c.hash, c.content) ∷ rest

module _ (env : Env) where
  -- The end of a write whose blocks are stored: the index, the embedding and the reply.
  abbrev pub indexed : Frame → AppState → Bytes → Bytes → Result Tables → AppState × Result Frame
  indexed frame st path full_data (err e) = (st, err e)
  indexed frame st path full_data (ok t) = (
    record st {
      tables = set_tables frame.project_id t st.tables;
      embeddings = set path (env.compute_embedding full_data) st.embeddings;
    },
    ok (write_ack env frame path full_data),
  )

  unfoldable pub index_write :
      Io → Frame → AppState → Bytes → Bytes → List ChunkResult → AppState × Result Frame
  unfolding ingest_chunks set_tables set
  index_write io frame st path full_data chunks = indexed frame st path full_data (
      ingest_chunks env.blake3 env.hex_encode io.ingest_fault io.now path chunks
        (st.tables frame.project_id))

  abbrev pub write_stored :
      Io
      → Frame
      → AppState
      → Bytes
      → Bytes
      → List ChunkResult
      → Disk × Result (Unit {0})
      → AppState × Result Frame
  write_stored io frame st path full_data chunks (disk, err e) = (record st { disk = disk }, err e)
  write_stored io frame st path full_data chunks (disk, ok u) =
      index_write io frame (record st { disk = disk }) path full_data chunks

  abbrev write_chunks :
      Io → Frame → AppState → Bytes → Bytes → Option (List ChunkResult) → AppState × Result Frame
  write_chunks io frame st path full_data none = (st, err out_of_fuel)
  write_chunks io frame st path full_data (some chunks) =
      write_stored io frame st path full_data chunks
        (store_file env.hex_encode io.store_fault chunks st.disk)

  abbrev pub write_path : Io → Frame → AppState → Bytes → Result Bytes → AppState × Result Frame
  write_path io frame st full_data (err e) = (st, ok (refuse frame (env.display e)))
  write_path io frame st full_data (ok path) =
      write_chunks io frame st path full_data (process_buffer env.blake3 default_config full_data)

  abbrev pub write_decoded :
      Io → Frame → AppState → Result (Bytes × Bytes) → AppState × Result Frame
  write_decoded io frame st (err e) =
      (st, ok (refuse frame (text "Invalid payload: " ++ env.display e)))
  write_decoded io frame st (ok (raw_path, full_data)) =
      write_path io frame st full_data (sanitize_path raw_path)

  unfoldable pub handle_write_blocks : Io → Frame → AppState → AppState × Result Frame
  unfolding decode_write_payload sanitize_path process_buffer store_file index_write
  handle_write_blocks io frame st = write_decoded io frame st (decode_write_payload frame.payload)

  -- The JSON of a conflict: the entry has another hash, or there is none and the expected hash is
  -- not the zero one.
  unfoldable pub conflict_with : Bytes → Bytes → Option FileEntry → Option Json
  conflict_with path expected (some entry) =
      if bytes_eq entry.tree_hash (env.hex_encode expected)
      then none
      else some (
          object (
            field (text "error") (string (text "conflict")) (
              field (text "path") (string path) (
                field (text "base_hash") (string (env.hex_encode expected))
                  (field (text "server_hash") (string entry.tree_hash) no_fields)))))
  conflict_with path expected none =
      if bytes_eq expected zero_hash
      then none
      else some (
          object (
            field (text "error") (string (text "conflict")) (
              field (text "path") (string path) (
                field (text "base_hash") (string (env.hex_encode expected)) (
                  field (text "server_hash") null (
                    field (text "message") (string (text "file does not exist on server"))
                      no_fields))))))

  abbrev conflict_under :
      WriteConflictPolicy → Bytes → Option Bytes → Result (Option FileEntry) → Result (Option Json)
  conflict_under last_writer_wins path expected found = ok none
  conflict_under reject_stale path none found = ok none
  conflict_under reject_stale path (some expected) found =
      found >>= λ entry. ok (conflict_with path expected entry)

  unfoldable pub conflict : Io → Frame → AppState → Bytes → Option Bytes → Result (Option Json)
  unfolding conflict_with query stat_file
  conflict io frame st path expected =
      conflict_under st.write_conflict path expected
        (query io.stat_fault (stat_file path (st.tables frame.project_id).files))

  abbrev pub chunk_content : Disk → SparseChunk → Option Bytes
  chunk_content disk c =
      if is_empty c.content then get_block env.hex_encode disk c.hash else some c.content

  -- The chunks with their offsets; a reference is read from the store.
  unfoldable pub resolve : Disk → ℕ → List SparseChunk → Result (List ChunkResult)
  unfolding get_block
  resolve disk offset [] = ok []
  resolve disk offset (c ∷ cs) = elim (chunk_content disk c) [
    | none ↦ err (block_missing (env.hex_encode c.hash))
    | some d ↦ resolve disk (offset + length d) cs >>= λ chunks.
        ok (record { offset = offset; size = length d; hash = c.hash; content = d } ∷ chunks)
  ]

  abbrev pub sparse_resolved :
      Io → Frame → AppState → Bytes → Result (List ChunkResult) → AppState × Result Frame
  sparse_resolved io frame st path (err e) = (st, err e)
  sparse_resolved io frame st path (ok chunks) =
      index_write io frame st path (reconstruct chunks) chunks

  abbrev pub sparse_stored :
      Io
      → Frame
      → AppState
      → Bytes
      → List SparseChunk
      → Disk × Result (Unit {0})
      → AppState × Result Frame
  sparse_stored io frame st path chunks (disk, err e) = (record st { disk = disk }, err e)
  sparse_stored io frame st path chunks (disk, ok u) =
      sparse_resolved io frame (record st { disk = disk }) path
        (resolve (readable_disk io.unreadable disk) 0 chunks)

  abbrev pub sparse_checked :
      Io
      → Frame
      → AppState
      → Bytes
      → List SparseChunk
      → Result (Option Json)
      → AppState × Result Frame
  sparse_checked io frame st path chunks (err e) = (st, err e)
  sparse_checked io frame st path chunks (ok (some json)) =
      (st, ok (hashed env msg_error frame (env.to_vec json)))
  sparse_checked io frame st path chunks (ok none) =
      sparse_stored io frame st path chunks
        (store_blocks env.hex_encode io.store_fault (new_blocks chunks) st.disk)

  abbrev pub sparse_path :
      Io
      → Frame
      → AppState
      → Option Bytes
      → List SparseChunk
      → Result Bytes
      → AppState × Result Frame
  sparse_path io frame st expected chunks (err e) = (st, ok (refuse frame (env.display e)))
  sparse_path io frame st expected chunks (ok path) =
      sparse_checked io frame st path chunks (conflict io frame st path expected)

  abbrev pub sparse_decoded :
      Io
      → Frame
      → AppState
      → Result (Bytes × Option Bytes × List SparseChunk)
      → AppState × Result Frame
  sparse_decoded io frame st (err e) =
      (st, ok (refuse frame (text "Invalid sparse payload: " ++ env.display e)))
  sparse_decoded io frame st (ok (raw_path, expected, chunks)) =
      sparse_path io frame st expected chunks (sanitize_path raw_path)

  unfoldable pub handle_write_blocks_sparse : Io → Frame → AppState → AppState × Result Frame
  unfolding decode_sparse_write sanitize_path conflict store_blocks new_blocks resolve index_write
      reconstruct
  handle_write_blocks_sparse io frame st =
      sparse_decoded io frame st (decode_sparse_write env.zstd frame.payload)
