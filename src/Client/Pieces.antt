-- ===== src/Client/Pieces.antt =====
-- The chunks that the client of crates/proxygit-client/src/lib.rs and the flush of its write-ahead
-- log, crates/proxygit-client/src/wal/mod.rs, send for the blocks of a content.
use proxygit.Prelude.{
  zero, length-take, drop, ℕ, suc, ◌≤◌, ◌≡◌, sym, ap, ◌∙◌, subst, false, List, [], ◌∷◌, ◌++◌, All,
  length, is_empty, arith,
}
use proxygit.Bytes.{Bytes}
use proxygit.Protocol.Sparse.{SparseChunk, max_chunk_plain}
use proxygit.Protocol.Sparse.RoundTrip.{IsChunk}
use proxygit.Server.{Env}
use proxygit.Server.Write.{new_blocks}
use proxygit.Server.Files.Sparse.{pieces, HasNamedPieces}
use proxygit.Client.{ClientEnv}
use proxygit.Wal.Diff.{chunks, chunks_from, concat, chunks_from-concat}

pub chunks_from-length :
    (fuel n : ℕ) (bs : Bytes)
    → All (λ c. length c ≤ n) (chunks_from fuel n bs) × (length (chunks_from fuel n bs) ≤ fuel)
unfolding chunks_from
chunks_from-length fuel n [] = (tt, omega arith)
chunks_from-length zero n (b ∷ bs) = (tt, omega arith)
chunks_from-length (suc fuel) n (b ∷ bs) =
    let (small, few) = chunks_from-length fuel n (drop n (b ∷ bs)) in
    ((omega (arith, length-take n (b ∷ bs)), small), omega (arith, few))

-- The blocks of 64 KiB join to the content, and none is empty, too large or one of too many.
pub chunks-known :
    (content : Bytes)
    → (concat (chunks 65536 content) ≡ content)
      × All (λ c. is_empty c ≡ false) (chunks 65536 content)
      × All (λ c. length c ≤ max_chunk_plain) (chunks 65536 content)
      × (length (chunks 65536 content) ≤ length content)
unfolding chunks
chunks-known content =
    let (whole, full) =
      chunks_from-concat (length content) 65536 content (omega arith) (omega arith) in
    let (small, count) = chunks_from-length (length content) 65536 content in
    (whole, full, wider (chunks 65536 content) small, count)
  where
    wider :
        (cs : List Bytes)
        → All (λ c. length c ≤ 65536) cs
        → All (λ c. length c ≤ max_chunk_plain) cs
    wider [] h = tt
    wider (c ∷ cs) (h, hs) = (omega arith, wider cs hs)

module _ (env : Env) (cenv : ClientEnv) (block_of : Bytes → Bytes)
    (same_hash : cenv.blake3 ≡ env.blake3) (wide : (d : Bytes) → length (env.blake3 d) ≡ 32) where
  pub hash_wide : (c : Bytes) → length (cenv.blake3 c) ≡ 32
  hash_wide c = ap (λ (f : Bytes → Bytes). length (f c)) same_hash ∙ wide c

  -- The name of the block's hash stands for it.
  abbrev pub IsNamedBlock : Bytes → Type 0
  IsNamedBlock c = c ≡ block_of (env.hex_encode (cenv.blake3 c))

  full_piece : (c : Bytes) → is_empty c ≡ false → 1 ≤ length c
  full_piece [] h = cc
  full_piece (b ∷ c) h = omega arith

  abbrev pub IsFine : List Bytes → List SparseChunk → Type 0
  IsFine cs chunks =
      HasNamedPieces env block_of chunks
      × (pieces env block_of chunks ≡ concat cs)
      × All IsChunk chunks
      × (length chunks ≡ length cs)

  pub reference-IsFine :
      (c : Bytes) (cs : List Bytes) (chunks : List SparseChunk)
      → IsNamedBlock c
      → is_empty c ≡ false
      → IsFine cs chunks
      → IsFine (c ∷ cs) (record { hash = cenv.blake3 c; content = [] } ∷ chunks)
  unfolding pieces new_blocks
  reference-IsFine c cs chunks n f ((blocks, hashes, sizes), joined, fit, count) = (
    (blocks, (hash_wide c, hashes), (subst (λ z. 1 ≤ length z) n (full_piece c f), sizes)),
    ap (λ z. z ++ pieces env block_of chunks) (sym n) ∙ ap (λ z. c ++ z) joined,
    ((hash_wide c, omega arith), fit),
    ap suc count,
  )

  pub plain-IsFine :
      (c : Bytes) (cs : List Bytes) (chunks : List SparseChunk)
      → IsNamedBlock c
      → is_empty c ≡ false
      → length c ≤ max_chunk_plain
      → IsFine cs chunks
      → IsFine (c ∷ cs) (record { hash = cenv.blake3 c; content = c } ∷ chunks)
  unfolding pieces new_blocks
  plain-IsFine c cs chunks n f s ((blocks, hashes, sizes), joined, fit, count) = rw f (
    ((n, blocks), (hash_wide c, hashes), (full_piece c f, sizes)),
    ap (λ z. c ++ z) joined,
    ((hash_wide c, s), fit),
    ap suc count,
  )
