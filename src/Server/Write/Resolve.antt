-- ===== src/Server/Write/Resolve.antt =====
-- Reading a file after a sparse write, whose chunks come with data or refer to stored blocks.
use proxygit.Prelude.{
  ℕ, ◌+◌, ◌≤◌, ◌≡◌, refl, sym, ap, ◌∙◌, subst, inl, inr, List, [], ◌∷◌, All, length, is_empty,
  Option, none, some, arith, Bool-cases, Option-cases, Bool,
}
use proxygit.Bytes.{Bytes}
use proxygit.Bytes.Utf8.{from_utf8_lossy}
use proxygit.Result.{ok, ok-injective, ◌>>=◌, >>=-eq-ok}
use proxygit.Protocol.Message.{msg_read_file_resp}
use proxygit.Protocol.Frame.{Frame}
use proxygit.Protocol.Sparse.{SparseChunk, decode_sparse_write}
use proxygit.Cdc.{ChunkResult, reconstruct}
use proxygit.BlockStore.Unreadable.{get_block-readable, readable_disk_none}
use proxygit.BlockStore.{readable_disk, Disk, Block, get_block, store_blocks}
use proxygit.BlockStore.Crash.{IsContentAddressed, IsNamed}
use proxygit.BlockStore.Durable.{store_blocks-get_block}
use proxygit.Indexer.Laws.{Ascends}
use proxygit.Paths.{sanitize_path}
use proxygit.Server.{Env, AppState, calm, hashed, write_ack}
use proxygit.Server.Read.{handle_read_file}
use proxygit.Server.Write.{new_blocks, chunk_content, conflict, resolve, handle_write_blocks_sparse}
use proxygit.Server.Write.Readable.{HexLaw, IsHeld}
use proxygit.Server.Write.ReadBack.{index_write-IsReadBack, store_blocks-ok}

module _ (env : Env) (disk : Disk) where
  abbrev pub HasBlock : Block → Type 0
  HasBlock b = get_block env.hex_encode disk b.0 ≡ some b.1

  chunk_content-held :
      (c : SparseChunk) (cs : List SparseChunk) (d : Bytes)
      → All HasBlock (new_blocks (c ∷ cs))
      → chunk_content env disk c ≡ some d
      → (get_block env.hex_encode disk c.hash ≡ some d) × All HasBlock (new_blocks cs)
  unfolding new_blocks
  chunk_content-held c cs d h e = elim (Bool-cases (is_empty c.content)) [
    | inl t ↦ (rw t at e, rw t at h)
    | inr t ↦
        let h' : All HasBlock ((c.hash, c.content) ∷ new_blocks cs) = rw t at h in
        let e' : some c.content ≡ some d = rw t at e in (h'.0 ∙ e', h'.1)
  ]

  pub resolve-IsHeld :
      (off : ℕ) (cs : List SparseChunk) (ks : List ChunkResult)
      → All HasBlock (new_blocks cs)
      → All (λ (c : SparseChunk). length c.hash ≡ 32) cs
      → All (λ (k : ChunkResult). 1 ≤ k.size) ks
      → resolve env disk off cs ≡ ok ks
      → All (IsHeld env disk) ks × ((lo : ℕ) → lo ≤ off → Ascends lo ks)
  unfolding resolve
  resolve-IsHeld off [] ks h wide full e =
      subst (λ l. All (IsHeld env disk) l × ((lo : ℕ) → lo ≤ off → Ascends lo l)) (ok-injective e)
        (tt, λ lo le. tt)
  resolve-IsHeld off (c ∷ cs) ks h (w, wide) full e =
      elim (Option-cases (chunk_content env disk c)) [
        | inl n ↦ cc (rw (n, resolve) at e)
        | inr (d, found) ↦
            let e' : (resolve env disk (off + length d) cs >>= λ chunks.
            ok (record { offset = off; size = length d; hash = c.hash; content = d } ∷ chunks))
                ≡ ok ks =
              rw (found, resolve) at e in
            let (rest, r, last) = >>=-eq-ok (resolve env disk (off + length d) cs) _ e' in
            let (here, later) = chunk_content-held c cs d h found in
            let whole = ok-injective last in
            let (pos, full') =
              subst (λ l. All (λ (k : ChunkResult). 1 ≤ k.size) l) (sym whole) full in
            let (held, up) = resolve-IsHeld (off + length d) cs rest later wide full' r in
            subst (λ l. All (IsHeld env disk) l × ((lo : ℕ) → lo ≤ off → Ascends lo l)) whole
              (((here, refl, omega arith), held), λ lo le. (le, up (off + 1) (omega arith)))
      ]

-- Chunks that are resolved while some files cannot be read are those of the disk.
pub resolve-readable :
    (env : Env) (unreadable : Bytes → Bool) (disk : Disk) (off : ℕ) (cs : List SparseChunk)
    (ks : List ChunkResult)
    → resolve env (readable_disk unreadable disk) off cs ≡ ok ks
    → resolve env disk off cs ≡ ok ks
unfolding resolve
resolve-readable env unreadable disk off [] ks e = e
resolve-readable env unreadable disk off (c ∷ cs) ks e =
    elim (Option-cases (chunk_content env (readable_disk unreadable disk) c)) [
      | inl n ↦ cc (rw (n, resolve) at e)
      | inr (d, found) ↦
          let e' : (resolve env (readable_disk unreadable disk) (off + length d) cs >>= λ chunks.
          ok (record { offset = off; size = length d; hash = c.hash; content = d } ∷ chunks))
              ≡ ok ks =
            rw (found, resolve) at e in
          let (rest, r, last) =
            >>=-eq-ok (resolve env (readable_disk unreadable disk) (off + length d) cs) _ e' in
          let later = resolve-readable env unreadable disk (off + length d) cs rest r in
          rw (chunk_content-readable env unreadable disk c d found, resolve, later) last
    ]
  where
    chunk_content-readable :
        (env : Env) (unreadable : Bytes → Bool) (disk : Disk) (c : SparseChunk) (d : Bytes)
        → chunk_content env (readable_disk unreadable disk) c ≡ some d
        → chunk_content env disk c ≡ some d
    chunk_content-readable env unreadable disk c d e = elim (Bool-cases (is_empty c.content)) [
      | inl t ↦ rw t (get_block-readable env.hex_encode unreadable disk c.hash d (rw t at e))
      | inr t ↦ rw t (rw t at e)
    ]

-- On a disk whose blocks have the content that their names stand for, and if the new blocks of a
-- sparse write do too, a write that is no conflict, whose references all resolve and whose chunks
-- are not empty, is acknowledged with the hash of the joined chunks when no fault is met, and a
-- read of the same path then returns exactly the joined chunks. Hashes have 32 bytes, and hex
-- encoding gives two digits for each byte.
pub handle_read_file-handle_write_blocks_sparse :
    (env : Env) (block_of : Bytes → Bytes) (now now' : ℕ) (frame frame' : Frame) (st : AppState)
    (raw path : Bytes) (expected : Option Bytes) (cs : List SparseChunk) (ks : List ChunkResult)
    → HexLaw env
    → decode_sparse_write env.zstd frame.payload ≡ ok (raw, expected, cs)
    → sanitize_path raw ≡ ok path
    → sanitize_path (from_utf8_lossy frame'.payload) ≡ ok path
    → frame'.project_id ≡ frame.project_id
    → conflict env (calm now) frame st path expected ≡ ok none
    → IsContentAddressed block_of st.disk
    → All (IsNamed block_of env.hex_encode) (new_blocks cs)
    → All (λ (c : SparseChunk). length c.hash ≡ 32) cs
    → resolve env (store_blocks env.hex_encode none (new_blocks cs) st.disk).0 0 cs ≡ ok ks
    → All (λ (k : ChunkResult). 1 ≤ k.size) ks
    → ((handle_write_blocks_sparse env (calm now) frame st).1
        ≡ ok (write_ack env frame path (reconstruct ks)))
      × (handle_read_file env
            (calm now')
            frame'
            (handle_write_blocks_sparse env (calm now) frame st).0
          ≡ hashed env msg_read_file_resp frame' (reconstruct ks))
unfolding handle_write_blocks_sparse
handle_read_file-handle_write_blocks_sparse env block_of now now' frame frame' st raw path expected
      cs ks hex decoded clean clean' same_project current good named wide resolved full =
    let fine = store_blocks-ok env block_of (new_blocks cs) st.disk in
    let stored = (store_blocks env.hex_encode none (new_blocks cs) st.disk).0 in
    let pair : store_blocks env.hex_encode none (new_blocks cs) st.disk ≡ (stored, ok tt) =
      ap (λ r. (stored, r)) fine in
    let there =
      store_blocks-get_block env.hex_encode block_of none (new_blocks cs) st.disk named good fine in
    let (held, up) = resolve-IsHeld env stored 0 cs ks there wide full resolved in
    rw (decoded, clean, current, pair, readable_disk_none stored, resolved)
      (index_write-IsReadBack env hex now now' frame frame' path clean' same_project
        (record st { disk = stored }) ks held (up 0 (omega arith)))
