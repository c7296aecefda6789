-- ===== src/Server/Files/Sparse.antt =====
-- The sparse write of crates/proxygit-server/src/lib.rs as a replacement of one file.
use proxygit.Prelude.{
  ℕ, ◌+◌, ◌≤◌, ◌≡◌, refl, sym, ap, ◌∙◌, subst, inl, inr, List, [], ◌∷◌, ◌++◌, All, length, is_empty,
  if◌then◌else◌, Option, none, some, arith, Bool-cases, Option-cases,
}
use proxygit.Bytes.{Bytes}
use proxygit.Result.{Result, ok, err, ok-injective, ◌>>=◌, >>=-eq-ok}
use proxygit.Protocol.Frame.{Frame}
use proxygit.Protocol.Sparse.{SparseChunk, decode_sparse_write}
use proxygit.Cdc.{ChunkResult, reconstruct}
use proxygit.BlockStore.{readable_disk, Disk, Block, store_blocks}
use proxygit.BlockStore.Crash.{IsContentAddressed, IsNamed}
use proxygit.BlockStore.Grow.{get_block-named}
use proxygit.BlockStore.Durable.{store_blocks-get_block}
use proxygit.Paths.{sanitize_path}
use proxygit.Server.{Env, Io, AppState, Json}
use proxygit.Server.Write.{
  new_blocks, chunk_content, conflict, resolve, sparse_resolved, sparse_stored, sparse_checked,
  sparse_path, sparse_decoded, handle_write_blocks_sparse,
}
use proxygit.Server.Write.Resolve.{resolve-readable, HasBlock, resolve-IsHeld}
use proxygit.Server.Files.{FileMap, Refines}
use proxygit.Server.Files.Steps.{store_blocks-Refines, ingest_chunks-TableOutcome}
use proxygit.Server.Files.Writes.{IsAnswered, index_write-IsAnswered}

module _ (env : Env) (block_of : Bytes → Bytes) where
  -- The content of a chunk: its data, or what the name of the block it refers to stands for.
  abbrev pub piece : SparseChunk → Bytes
  piece c = if is_empty c.content then block_of (env.hex_encode c.hash) else c.content

  unfoldable pub pieces : List SparseChunk → Bytes
  pieces [] = []
  pieces (c ∷ cs) = piece c ++ pieces cs

  -- The path and the content that the frame of a sparse write asks for, if it asks for any.
  abbrev sparse_written_at : List SparseChunk → Result Bytes → Option (Bytes × Bytes)
  sparse_written_at cs (err e) = none
  sparse_written_at cs (ok path) = some (path, pieces cs)

  abbrev sparse_written_in :
      Result (Bytes × Option Bytes × List SparseChunk) → Option (Bytes × Bytes)
  sparse_written_in (err e) = none
  sparse_written_in (ok (raw, expected, cs)) = sparse_written_at cs (sanitize_path raw)

  abbrev pub sparse_written : Frame → Option (Bytes × Bytes)
  sparse_written frame = sparse_written_in (decode_sparse_write env.zstd frame.payload)

  -- The new blocks have the data that their hashes' names stand for, hashes are 32 bytes long,
  -- and no chunk is empty.
  abbrev pub HasNamedPieces : List SparseChunk → Type 0
  HasNamedPieces cs =
      All (IsNamed block_of env.hex_encode) (new_blocks cs)
      × All (λ (c : SparseChunk). length c.hash ≡ 32) cs
      × All (λ (c : SparseChunk). 1 ≤ length (piece c)) cs

  abbrev AsksNamedIn : Result (Bytes × Option Bytes × List SparseChunk) → Type 0
  AsksNamedIn (err e) = Unit
  AsksNamedIn (ok (raw, expected, cs)) = HasNamedPieces cs

  abbrev pub AsksNamedPieces : Frame → Type 0
  AsksNamedPieces frame = AsksNamedIn (decode_sparse_write env.zstd frame.payload)

  chunk_content-piece :
      (disk : Disk) (c : SparseChunk) (d : Bytes)
      → IsContentAddressed block_of disk
      → chunk_content env disk c ≡ some d
      → d ≡ piece c
  chunk_content-piece disk c d good e = elim (Bool-cases (is_empty c.content)) [
    | inl t ↦ rw t (get_block-named env.hex_encode block_of disk c.hash d good (rw t at e))
    | inr t ↦ let e' : some c.content ≡ some d = rw t at e in rw t (cc)
  ]

  resolve-pieces :
      (disk : Disk) (off : ℕ) (cs : List SparseChunk) (ks : List ChunkResult)
      → IsContentAddressed block_of disk
      → All (λ (c : SparseChunk). 1 ≤ length (piece c)) cs
      → resolve env disk off cs ≡ ok ks
      → (reconstruct ks ≡ pieces cs) × All (λ (k : ChunkResult). 1 ≤ k.size) ks
  unfolding resolve reconstruct pieces
  resolve-pieces disk off [] ks good full e =
      subst (λ l. (reconstruct l ≡ []) × All (λ (k : ChunkResult). 1 ≤ k.size) l) (ok-injective e)
        (refl, tt)
  resolve-pieces disk off (c ∷ cs) ks good (f, full) e =
      elim (Option-cases (chunk_content env disk c)) [
        | inl n ↦ cc (rw (n, resolve) at e)
        | inr (d, found) ↦
            let e' : (resolve env disk (off + length d) cs >>= λ chunks.
            ok (record { offset = off; size = length d; hash = c.hash; content = d } ∷ chunks))
                ≡ ok ks =
              rw (found, resolve) at e in
            let (rest, r, last) = >>=-eq-ok (resolve env disk (off + length d) cs) _ e' in
            let same = chunk_content-piece disk c d good found in
            let (joined, sizes) = resolve-pieces disk (off + length d) cs rest good full r in
            subst
              (λ l.
                (reconstruct l ≡ piece c ++ pieces cs) × All (λ (k : ChunkResult). 1 ≤ k.size) l)
              (ok-injective last)
              (
                ap (λ z. z ++ reconstruct rest) same ∙ ap (λ z. piece c ++ z) joined,
                (subst (λ z. 1 ≤ length z) (sym same) f, sizes),
              )
      ]

  -- What storing the new blocks left: the files as before, and the blocks if it did not fail.
  abbrev BlocksOutcome : AppState → FileMap → List Block → Disk × Result (Unit {0}) → Type 0
  BlocksOutcome st files blocks (disk, err e) =
      Refines env block_of (record st { disk = disk }) files
  BlocksOutcome st files blocks (disk, ok u) =
      Refines env block_of (record st { disk = disk }) files × All (HasBlock env disk) blocks

  store_blocks-BlocksOutcome :
      (fault : Option ℕ) (blocks : List Block) (st : AppState) (files : FileMap)
      → All (IsNamed block_of env.hex_encode) blocks
      → Refines env block_of st files
      → BlocksOutcome st files blocks (store_blocks env.hex_encode fault blocks st.disk)
  store_blocks-BlocksOutcome fault blocks st files named r =
      outcome (store_blocks env.hex_encode fault blocks st.disk)
        (store_blocks-Refines env block_of fault blocks st files named r)
        (store_blocks-get_block env.hex_encode block_of fault blocks st.disk named r.addressed)
    where
      outcome :
          (s : Disk × Result (Unit {0}))
          → Refines env block_of (record st { disk = s.0 }) files
          → (s.1 ≡ ok tt → All (HasBlock env s.0) blocks)
          → BlocksOutcome st files blocks s
      outcome (disk, err e) kept there = kept
      outcome (disk, ok u) kept there = (kept, there refl)

  module _ (io : Io) (frame : Frame) (files : FileMap) where
    resolved-IsAnswered :
        (st : AppState) (path : Bytes) (cs : List SparseChunk) (ks : Result (List ChunkResult))
        → resolve env (readable_disk io.unreadable st.disk) 0 cs ≡ ks
        → HasNamedPieces cs
        → Refines env block_of st files
        → All (HasBlock env st.disk) (new_blocks cs)
        → IsAnswered env block_of frame.project_id files frame
            (some (path, pieces cs))
            (sparse_resolved env io frame st path ks)
    resolved-IsAnswered st path cs (err e) done named r there = inr (tt, r)
    resolved-IsAnswered st path cs (ok ks) seen (named, wide, full) r there =
        let done = resolve-readable env io.unreadable st.disk 0 cs ks seen in
        let (joined, sizes) = resolve-pieces st.disk 0 cs ks r.addressed full done in
        let (held, up) = resolve-IsHeld env st.disk 0 cs ks there wide sizes done in
        subst
          (λ d.
            IsAnswered env block_of frame.project_id files frame (some (path, d))
              (sparse_resolved env io frame st path (ok ks)))
          joined
          (index_write-IsAnswered env block_of io frame files st path (reconstruct ks) ks r (
            ingest_chunks-TableOutcome env block_of io.ingest_fault io.now frame.project_id path ks
              st files held (up 0 (omega arith)) r))

    module _ (st : AppState) (r : Refines env block_of st files) where
      stored-IsAnswered :
          (path : Bytes) (cs : List SparseChunk) (s : Disk × Result (Unit {0}))
          → HasNamedPieces cs
          → BlocksOutcome st files (new_blocks cs) s
          → IsAnswered env block_of frame.project_id files frame
              (some (path, pieces cs))
              (sparse_stored env io frame st path cs s)
      stored-IsAnswered path cs (disk, err e) named o = inr (tt, o)
      stored-IsAnswered path cs (disk, ok u) named (kept, there) =
          resolved-IsAnswered (record st { disk = disk }) path cs _ refl named kept there

      checked-IsAnswered :
          (path : Bytes) (cs : List SparseChunk) (c : Result (Option Json))
          → HasNamedPieces cs
          → IsAnswered env block_of frame.project_id files frame
              (some (path, pieces cs))
              (sparse_checked env io frame st path cs c)
      checked-IsAnswered path cs (err e) named = inr (tt, r)
      checked-IsAnswered path cs (ok (some json)) named = inr (refl, r)
      checked-IsAnswered path cs (ok none) named =
          stored-IsAnswered path cs _ named
            (store_blocks-BlocksOutcome io.store_fault (new_blocks cs) st files named.0 r)

      path-IsAnswered :
          (expected : Option Bytes) (cs : List SparseChunk) (path : Result Bytes)
          → HasNamedPieces cs
          → IsAnswered env block_of frame.project_id files frame
              (sparse_written_at cs path)
              (sparse_path env io frame st expected cs path)
      path-IsAnswered expected cs (err e) named = (refl, r)
      path-IsAnswered expected cs (ok path) named =
          checked-IsAnswered path cs (conflict env io frame st path expected) named

      decoded-IsAnswered :
          (payload : Result (Bytes × Option Bytes × List SparseChunk))
          → AsksNamedIn payload
          → IsAnswered env block_of frame.project_id files frame
              (sparse_written_in payload)
              (sparse_decoded env io frame st payload)
      decoded-IsAnswered (err e) named = (refl, r)
      decoded-IsAnswered (ok (raw, expected, cs)) named =
          path-IsAnswered expected cs (sanitize_path raw) named

      -- On a server that holds a map of files, and whatever fails, a sparse write whose new blocks
      -- have the data that their hashes' names stand for, with hashes of 32 bytes and no empty
      -- chunk, either is acknowledged with the hash of the content that its chunks and references
      -- stand for, and the server holds the map with the file replaced by it, or it is not
      -- acknowledged and the server holds the map as it was. A frame that asks for no write is
      -- not acknowledged.
      pub handle_write_blocks_sparse-IsAnswered :
          AsksNamedPieces frame
          → IsAnswered env block_of frame.project_id files frame
              (sparse_written frame)
              (handle_write_blocks_sparse env io frame st)
      unfolding handle_write_blocks_sparse
      handle_write_blocks_sparse-IsAnswered named =
          decoded-IsAnswered (decode_sparse_write env.zstd frame.payload) named
