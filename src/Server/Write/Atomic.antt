-- ===== src/Server/Write/Atomic.antt =====
-- A write is indexed and acknowledged, or neither.
use proxygit.Prelude.{ℕ, ◌≡◌, ◌≢◌, refl, ap, ◌∙◌, ◌⊎◌, inl, inr, List, Option, none, some, arith}
use proxygit.Bytes.{Bytes}
use proxygit.Result.{Result, ok, err}
use proxygit.Protocol.Message.{msg_error}
use proxygit.Protocol.Frame.{Frame}
use proxygit.Protocol.Sparse.{SparseChunk, decode_sparse_write}
use proxygit.Cdc.{ChunkResult, reconstruct}
use proxygit.BlockStore.{readable_disk, Disk, store_blocks}
use proxygit.Indexer.{Tables, ingest_chunks}
use proxygit.Paths.{sanitize_path}
use proxygit.Server.{Env, Io, AppState, Json, set_tables, set, write_ack}
use proxygit.Server.Write.{
  indexed, index_write, conflict, resolve, sparse_resolved, sparse_stored, sparse_checked,
  sparse_path, sparse_decoded, handle_write_blocks_sparse, new_blocks,
}

-- No reply, or a MSG_ERROR.
abbrev pub IsErrorReply : Result Frame → Type 0
IsErrorReply (ok answer) = answer.msg_type ≡ msg_error
IsErrorReply (err e) = Unit

module _ (env : Env) (io : Io) (frame : Frame) (st : AppState) where
  -- The write of the joined `chunks` under `path` was indexed in the project's tables.
  pub record IsIndexed (path : Bytes) (chunks : List ChunkResult) (result : AppState × Result Frame)
      : Type 0 where
    pub tables_after : Tables
    pub ingested :
        ingest_chunks env.blake3 env.hex_encode io.ingest_fault io.now path chunks
          (st.tables frame.project_id)
        ≡ ok tables_after
    pub tables : result.0.tables ≡ set_tables frame.project_id tables_after st.tables
    pub embeddings :
        result.0.embeddings ≡ set path (env.compute_embedding (reconstruct chunks)) st.embeddings
    pub answer : result.1 ≡ ok (write_ack env frame path (reconstruct chunks))

  -- Nothing but the blocks changed, and a reply, if there is one, is a MSG_ERROR.
  abbrev pub IsUnindexed : AppState × Result Frame → Type 0
  IsUnindexed result =
      (result.0.tables ≡ st.tables) × (result.0.embeddings ≡ st.embeddings) × IsErrorReply result.1

  abbrev pub IsAllOrNothing : AppState × Result Frame → Type 0
  IsAllOrNothing result =
      ((path : Bytes) × (chunks : List ChunkResult) × IsIndexed path chunks result)
      ⊎ IsUnindexed result

  module _ (disk : Disk) where
    indexed-IsAllOrNothing :
        (path : Bytes) (chunks : List ChunkResult) (r : Result Tables)
        → ingest_chunks env.blake3 env.hex_encode io.ingest_fault io.now path chunks
            (st.tables frame.project_id)
          ≡ r
        → IsAllOrNothing (indexed env frame (record st { disk = disk }) path (reconstruct chunks) r)
    indexed-IsAllOrNothing path chunks (err e) h = inr (refl, refl, tt)
    indexed-IsAllOrNothing path chunks (ok t) h = inl (
      path,
      chunks,
      record { tables_after = t; ingested = h; tables = refl; embeddings = refl; answer = refl },
    )

    index_write-IsAllOrNothing :
        (path : Bytes) (chunks : List ChunkResult)
        → IsAllOrNothing
            (index_write env io frame (record st { disk = disk }) path (reconstruct chunks) chunks)
    unfolding index_write
    index_write-IsAllOrNothing path chunks =
        indexed-IsAllOrNothing path chunks
          (ingest_chunks env.blake3 env.hex_encode io.ingest_fault io.now path chunks
            (st.tables frame.project_id))
          refl

    resolved-IsAllOrNothing :
        (path : Bytes) (r : Result (List ChunkResult))
        → IsAllOrNothing (sparse_resolved env io frame (record st { disk = disk }) path r)
    resolved-IsAllOrNothing path (err e) = inr (refl, refl, tt)
    resolved-IsAllOrNothing path (ok chunks) = index_write-IsAllOrNothing path chunks

  sparse_stored-IsAllOrNothing :
      (path : Bytes) (chunks : List SparseChunk) (r : Disk × Result (Unit {0}))
      → IsAllOrNothing (sparse_stored env io frame st path chunks r)
  sparse_stored-IsAllOrNothing path chunks (disk, err e) = inr (refl, refl, tt)
  sparse_stored-IsAllOrNothing path chunks (disk, ok u) =
      resolved-IsAllOrNothing disk path (resolve env (readable_disk io.unreadable disk) 0 chunks)

  checked-IsAllOrNothing :
      (path : Bytes) (chunks : List SparseChunk) (r : Result (Option Json))
      → IsAllOrNothing (sparse_checked env io frame st path chunks r)
  checked-IsAllOrNothing path chunks (err e) = inr (refl, refl, tt)
  checked-IsAllOrNothing path chunks (ok (some json)) = inr (refl, refl, refl)
  checked-IsAllOrNothing path chunks (ok none) =
      sparse_stored-IsAllOrNothing path chunks
        (store_blocks env.hex_encode io.store_fault (new_blocks chunks) st.disk)

  sparse_path-IsAllOrNothing :
      (expected : Option Bytes) (chunks : List SparseChunk) (r : Result Bytes)
      → IsAllOrNothing (sparse_path env io frame st expected chunks r)
  sparse_path-IsAllOrNothing expected chunks (err e) = inr (refl, refl, refl)
  sparse_path-IsAllOrNothing expected chunks (ok path) =
      checked-IsAllOrNothing path chunks (conflict env io frame st path expected)

  sparse_decoded-IsAllOrNothing :
      (r : Result (Bytes × Option Bytes × List SparseChunk))
      → IsAllOrNothing (sparse_decoded env io frame st r)
  sparse_decoded-IsAllOrNothing (err e) = inr (refl, refl, refl)
  sparse_decoded-IsAllOrNothing (ok (raw, expected, chunks)) =
      sparse_path-IsAllOrNothing expected chunks (sanitize_path raw)

  -- A sparse write changes the tables by one ingest or not at all.
  handle_write_blocks_sparse-IsAllOrNothing :
      IsAllOrNothing (handle_write_blocks_sparse env io frame st)
  unfolding handle_write_blocks_sparse
  handle_write_blocks_sparse-IsAllOrNothing =
      sparse_decoded-IsAllOrNothing (decode_sparse_write env.zstd frame.payload)

  -- Whatever fails, a sparse write leaves the tables of every other project as they were.
  pub handle_write_blocks_sparse-isolated :
      (q : ℕ)
      → q ≢ frame.project_id
      → (handle_write_blocks_sparse env io frame st).0.tables q ≡ st.tables q
  unfolding set_tables
  handle_write_blocks_sparse-isolated q ne = elim handle_write_blocks_sparse-IsAllOrNothing [
    | inl (path, chunks, w) ↦ ap (λ t. t q) w.tables ∙ ground arith
    | inr (same, kept, refused) ↦ ap (λ t. t q) same
  ]
