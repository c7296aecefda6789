-- ===== src/Wal/Diff.antt =====
-- What the flush of crates/proxygit-client/src/wal/mod.rs sends for a file: the patches over the
-- server's content, and the blocks of a fixed size that changed.
use proxygit.Prelude.{
  ℕ, zero, suc, ◌+◌, ◌-◌, ◌<◌, ◌≤◌, ◌≡◌, refl, sym, ap, ◌∙◌, inl, inr, false, List, [], ◌∷◌, ◌++◌,
  map, All, length, replicate, take, drop, is_empty, if◌then◌else◌, some, arith, Bool-cases,
  take-append-drop, length-drop,
}
use proxygit.Bytes.{Bytes, bytes_eq}
use proxygit.Bytes.Laws.{bytes_eq→eq}
use proxygit.Result.{ok}
use proxygit.Protocol.Sparse.{SparseChunk}
use proxygit.Cdc.{ChunkResult, reconstruct}
use proxygit.BlockStore.{Disk, get_block}
use proxygit.Server.{Env}
use proxygit.Server.Write.{chunk_content, resolve}
use proxygit.Wal.{WalRecord}

-- `content.resize(end, 0)` where the patch ends behind the content, then the copy.
unfoldable pub apply_patch : WalRecord → Bytes → Bytes
apply_patch p content =
    let end = p.offset + length p.content in
    let room = content ++ replicate (end - length content) 0 in
    take p.offset room ++ (p.content ++ drop end room)

unfoldable pub apply_patches : List WalRecord → Bytes → Bytes
unfolding apply_patch
apply_patches [] content = content
apply_patches (p ∷ ps) content = apply_patches ps (apply_patch p content)

-- `slice::chunks`, on fuel.
unfoldable pub chunks_from : ℕ → ℕ → Bytes → List Bytes
chunks_from fuel n [] = []
chunks_from zero n (b ∷ bs) = []
chunks_from (suc fuel) n (b ∷ bs) = take n (b ∷ bs) ∷ chunks_from fuel n (drop n (b ∷ bs))

-- A chunk takes a byte at least, so the length is fuel enough.
unfoldable pub chunks : ℕ → Bytes → List Bytes
unfolding chunks_from
chunks n input = chunks_from (length input) n input

abbrev pub concat : List Bytes → Bytes
concat [] = []
concat (c ∷ cs) = c ++ concat cs

-- The new blocks beside the hashes of the old ones: data only where the hash differs.
unfoldable pub diff : (Bytes → Bytes) → List Bytes → List Bytes → List SparseChunk
diff blake3 olds [] = []
diff blake3 [] (c ∷ cs) = record { hash = blake3 c; content = c } ∷ diff blake3 [] cs
diff blake3 (h ∷ hs) (c ∷ cs) =
    record { hash = blake3 c; content = if bytes_eq h (blake3 c) then [] else c }
    ∷ diff blake3 hs cs

unfoldable pub build_sparse_diff : (Bytes → Bytes) → Bytes → Bytes → ℕ → List SparseChunk
unfolding diff chunks
build_sparse_diff blake3 old new block_size =
    diff blake3 (map blake3 (chunks block_size old)) (chunks block_size new)

pub chunks_from-concat :
    (fuel n : ℕ) (bs : Bytes)
    → 0 < n
    → length bs ≤ fuel
    → (concat (chunks_from fuel n bs) ≡ bs) × All (λ c. is_empty c ≡ false) (chunks_from fuel n bs)
unfolding chunks_from
chunks_from-concat fuel n [] pos le = (refl, tt)
chunks_from-concat zero n (b ∷ bs) pos le = absurd (omega arith)
chunks_from-concat (suc fuel) zero (b ∷ bs) pos le = absurd (omega arith)
chunks_from-concat (suc fuel) (suc n) (b ∷ bs) pos le =
    let (joined, full) =
      chunks_from-concat fuel (suc n) (drop (suc n) (b ∷ bs)) pos
        (omega (arith, length-drop (suc n) (b ∷ bs))) in
    (ap (λ t. take (suc n) (b ∷ bs) ++ t) joined ∙ take-append-drop (suc n) (b ∷ bs), (refl, full))

module _ (env : Env) (block_of : Bytes → Bytes) (disk : Disk) where
  -- The disk has the block under the hash of its content.
  abbrev pub IsStored : Bytes → Type 0
  IsStored c = get_block env.hex_encode disk (env.blake3 c) ≡ some c

  -- No other content shares the hash.
  abbrev pub IsUnique : Bytes → Type 0
  IsUnique c = block_of (env.blake3 c) ≡ c

  resolve-cons :
      (off : ℕ) (sc : SparseChunk) (c : Bytes) (cs : List SparseChunk) (ks : List ChunkResult)
      → chunk_content env disk sc ≡ some c
      → resolve env disk (off + length c) cs ≡ ok ks
      → resolve env disk off (sc ∷ cs)
        ≡ ok (record { offset = off; size = length c; hash = sc.hash; content = c } ∷ ks)
  unfolding resolve
  resolve-cons off sc c cs ks here later = rw (here, resolve, later) refl

  -- A block that comes with its data, and one whose old version has the same hash.
  new-content :
      (c : Bytes)
      → is_empty c ≡ false
      → chunk_content env disk (record { hash = env.blake3 c; content = c }) ≡ some c
  new-content c full = rw full refl

  changed-content :
      (o c : Bytes)
      → IsStored o
      → IsUnique o
      → IsUnique c
      → is_empty c ≡ false
      → chunk_content env disk (record {
        hash = env.blake3 c;
        content = if bytes_eq (env.blake3 o) (env.blake3 c) then [] else c;
      })
        ≡ some c
  changed-content o c stored uo uc full =
      elim (Bool-cases (bytes_eq (env.blake3 o) (env.blake3 c))) [
        | inl e ↦
            let same : env.blake3 o ≡ env.blake3 c = bytes_eq→eq (env.blake3 o) (env.blake3 c) e in
            let alike : o ≡ c = sym uo ∙ ap block_of same ∙ uc in
            rw e (sym (ap (get_block env.hex_encode disk) same) ∙ stored ∙ ap some alike)
        | inr e ↦ rw (e, full) refl
      ]

  diff-resolves :
      (off : ℕ) (olds news : List Bytes)
      → All IsStored olds
      → All IsUnique olds
      → All IsUnique news
      → All (λ c. is_empty c ≡ false) news
      → (ks : List ChunkResult) × (resolve env disk off (diff env.blake3 (map env.blake3 olds) news)
          ≡ ok ks)
        × (reconstruct ks ≡ concat news)
  unfolding diff reconstruct resolve
  diff-resolves off [] [] s uo un full = ([], refl, refl)
  diff-resolves off (o ∷ olds) [] s uo un full = ([], refl, refl)
  diff-resolves off [] (c ∷ news) s uo (u, un) (f, full) =
      let (ks, e, joined) = diff-resolves (off + length c) [] news s uo un full in
      (
        record { offset = off; size = length c; hash = env.blake3 c; content = c } ∷ ks,
        resolve-cons off (record { hash = env.blake3 c; content = c }) c (diff env.blake3 [] news)
            ks (new-content c f) e,
        ap (λ t. c ++ t) joined,
      )
  diff-resolves off (o ∷ olds) (c ∷ news) (so, s) (uo, us) (u, un) (f, full) =
      let (ks, e, joined) = diff-resolves (off + length c) olds news s us un full in
      (
        record { offset = off; size = length c; hash = env.blake3 c; content = c } ∷ ks,
        resolve-cons off
            (record {
              hash = env.blake3 c;
              content = if bytes_eq (env.blake3 o) (env.blake3 c) then [] else c;
            })
            c (diff env.blake3 (map env.blake3 olds) news) ks (changed-content o c so uo u f) e,
        ap (λ t. c ++ t) joined,
      )

  -- Where the store has each block of the old content under its hash, and no two blocks of the old
  -- and new content share a hash, the server resolves the diff to chunks that join to exactly the
  -- new content.
  pub build_sparse_diff-resolves :
      (old new : Bytes) (block_size : ℕ)
      → 0 < block_size
      → All IsStored (chunks block_size old)
      → All IsUnique (chunks block_size old)
      → All IsUnique (chunks block_size new)
      → (ks : List ChunkResult) × (resolve env disk 0
            (build_sparse_diff env.blake3 old new block_size)
          ≡ ok ks)
        × (reconstruct ks ≡ new)
  unfolding build_sparse_diff chunks
  build_sparse_diff-resolves old new block_size pos stored uo un =
      let (whole, full) = chunks_from-concat (length new) block_size new pos (omega arith) in
      let (ks, e, joined) =
        diff-resolves 0 (chunks block_size old) (chunks block_size new) stored uo un full in
      (ks, e, joined ∙ whole)
