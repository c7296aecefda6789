-- ===== src/Server/Write/Conflict.antt =====
-- Under the policy `RejectStale`, a stale sparse write is refused.
use proxygit.Prelude.{◌≡◌, refl, ap, ◌⊎◌, inl, inr, List, Option, none, some, Bool-cases}
use proxygit.Bytes.{Bytes, bytes_eq}
use proxygit.Bytes.Laws.{bytes_eq→eq}
use proxygit.Result.{Result, ok, Error}
use proxygit.Protocol.Frame.{Frame}
use proxygit.Protocol.Sparse.{SparseChunk, decode_sparse_write}
use proxygit.Indexer.{FileEntry, stat_file}
use proxygit.Paths.{sanitize_path}
use proxygit.Server.{Env, Io, AppState, Json, reject_stale, query, zero_hash}
use proxygit.Server.Write.Atomic.{IsErrorReply}
use proxygit.Server.Write.{
  conflict_with, conflict_under, sparse_checked, handle_write_blocks_sparse,
}

module _ (env : Env) (io : Io) (frame : Frame) (st : AppState) (path expected : Bytes) where
  -- The hash that the client expects is the one of the entry, or the zero one if there is none.
  abbrev pub IsCurrent : Option FileEntry → Type 0
  IsCurrent none = expected ≡ zero_hash
  IsCurrent (some entry) = entry.tree_hash ≡ env.hex_encode expected

  abbrev pub IsRejected : AppState × Result Frame → Type 0
  IsRejected result = (result.0 ≡ st) × IsErrorReply result.1

  conflict_with-none :
      (found : Option FileEntry) → conflict_with env path expected found ≡ none → IsCurrent found
  unfolding conflict_with
  conflict_with-none none h = elim (Bool-cases (bytes_eq expected zero_hash)) [
    | inl e ↦ bytes_eq→eq expected zero_hash e
    | inr e ↦ cc (rw e at h)
  ]
  conflict_with-none (some entry) h =
      elim (Bool-cases (bytes_eq entry.tree_hash (env.hex_encode expected))) [
        | inl e ↦ bytes_eq→eq entry.tree_hash (env.hex_encode expected) e
        | inr e ↦ cc (rw e at h)
      ]

  checked-IsRejected :
      (chunks : List SparseChunk) (found : Option FileEntry) (c : Option Json)
      → conflict_with env path expected found ≡ c
      → IsCurrent found ⊎ IsRejected (sparse_checked env io frame st path chunks (ok c))
  checked-IsRejected chunks found none e = inl (conflict_with-none found e)
  checked-IsRejected chunks found (some json) e = inr (refl, refl)

  queried-IsRejected :
      (fault : Option Error) (chunks : List SparseChunk) (found : Option FileEntry)
      → IsCurrent found
        ⊎ IsRejected (
            sparse_checked env io frame st path chunks
              (conflict_under env reject_stale path (some expected) (query fault found)))
  unfolding query
  queried-IsRejected none chunks found =
      checked-IsRejected chunks found (conflict_with env path expected found) refl
  queried-IsRejected (some e) chunks found = inr (refl, tt)

  -- Under `RejectStale`, a sparse write with an expected hash that is not the one of the indexed
  -- file, or not zero where no file is indexed, leaves the whole state as it was, and its reply, if
  -- any, is a MSG_ERROR.
  pub handle_write_blocks_sparse-IsRejected :
      (raw : Bytes) (chunks : List SparseChunk)
      → st.write_conflict ≡ reject_stale
      → decode_sparse_write env.zstd frame.payload ≡ ok (raw, some expected, chunks)
      → sanitize_path raw ≡ ok path
      → IsCurrent (stat_file path (st.tables frame.project_id).files)
        ⊎ IsRejected (handle_write_blocks_sparse env io frame st)
  unfolding handle_write_blocks_sparse
  handle_write_blocks_sparse-IsRejected raw chunks policy decoded clean =
      let found = stat_file path (st.tables frame.project_id).files in
      let c = conflict_under-policy policy found in
      elim (queried-IsRejected io.stat_fault chunks found) [
        | inl current ↦ inl current
        | inr rejected ↦ inr (rw (decoded, clean, c) rejected)
      ]
    where
      conflict_under-policy :
          st.write_conflict ≡ reject_stale
          → (found : Option FileEntry)
          → conflict_under env st.write_conflict path (some expected) (query io.stat_fault found)
            ≡ conflict_under env reject_stale path (some expected) (query io.stat_fault found)
      conflict_under-policy policy found =
          ap (λ p. conflict_under env p path (some expected) (query io.stat_fault found)) policy
