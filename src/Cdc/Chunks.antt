-- ===== src/Cdc/Chunks.antt =====
-- The chunks of a buffer: the loop ends, the chunks join to the buffer, and their sizes keep the
-- configured bounds.
use proxygit.Prelude.{
  ℕ, zero, suc, ◌+◌, ◌-◌, ◌<◌, ◌≤◌, ◌≡◌, refl, ap, ◌∙◌, min, bit_and, List, [], ◌∷◌, ◌++◌, length,
  take, drop, ltb, is_empty, ◌||◌, true, some, arith, take-append-drop, length-take, length-drop,
  drop_seam, length-append, Option-cases, inl, inr,
}
use proxygit.Bytes.{Bytes}
use proxygit.Cdc.{
  CdcChunker, ChunkResult, boundary, chunk_len, process_loop, process_buffer, reconstruct,
}

-- A boundary is found in the window that is scanned.
boundary_range : (i n k : ℕ) (rest : Bytes) → boundary i n rest ≡ some k → (i ≤ k) × (k < i + n)
unfolding boundary
boundary_range i zero k rest e = cc
boundary_range i (suc n) k [] e = cc
boundary_range i (suc n) k (b ∷ rest) e = ground (arith, boundary_range (i + 1) n k rest)

last_or_long :
    (ks : List ChunkResult) (m t : ℕ) → (0 < length ks → m < t) → (is_empty ks || ltb m t) ≡ true
last_or_long [] m t h = refl
last_or_long (k ∷ ks) m t h = let more : m < t = h (omega arith) in ground arith

module _ (c : CdcChunker) (ordered : c.min_size < c.max_size) where
  -- A chunk is not empty and lies in the data, it is at most `max_size` long, and more than
  -- `min_size` long unless it ends the data.
  chunk_len_range :
      (rest : Bytes)
      → 0 < length rest
      → (0 < chunk_len c rest)
        × (chunk_len c rest ≤ length rest)
        × (chunk_len c rest ≤ c.max_size)
        × (chunk_len c rest < length rest → c.min_size < chunk_len c rest)
  unfolding chunk_len
  chunk_len_range rest h =
      let limit = min (length rest) c.max_size in
      let window = drop c.min_size rest in
      elim (Option-cases (boundary c.min_size (limit - c.min_size) window)) [
        | inl e ↦ rw e (ground arith, ground arith, ground arith, λ q. ground arith)
        | inr (k, e) ↦
            let r = boundary_range c.min_size (limit - c.min_size) k window e in
            rw e (ground arith, ground arith, ground arith, λ q. ground arith)
      ]

  module _ (blake3 : Bytes → Bytes) where
    -- What every consumer of the chunks relies on, from the offset `off` on.
    abbrev pub Chunked : ℕ → List ChunkResult → Type 0
    Chunked off [] = Unit
    Chunked off (k ∷ ks) =
        (k.offset ≡ off)
        × (k.size ≡ length k.content)
        × (k.hash ≡ blake3 k.content)
        × (0 < k.size)
        × (k.size ≤ c.max_size)
        × ((is_empty ks || ltb c.min_size k.size) ≡ true)
        × Chunked (off + k.size) ks

    more_left :
        (fuel off : ℕ) (rest : Bytes) (ks : List ChunkResult)
        → process_loop blake3 fuel c off rest ≡ some ks
        → 0 < length ks
        → 0 < length rest
    unfolding process_loop
    more_left fuel off [] [] e h = absurd (omega arith)
    more_left fuel off [] (k ∷ ks) e h = cc
    more_left fuel off (b ∷ rest) ks e h = omega arith

    process_loop-Chunked :
        (fuel off : ℕ) (rest : Bytes)
        → length rest ≤ fuel
        → (ks : List ChunkResult) × (process_loop blake3 fuel c off rest ≡ some ks)
          × (reconstruct ks ≡ rest)
          × Chunked off ks
    unfolding process_loop reconstruct
    process_loop-Chunked fuel off [] h = ([], refl, refl, tt)
    process_loop-Chunked zero off (b ∷ rest) h = absurd (omega arith)
    process_loop-Chunked (suc fuel) off (b ∷ rest) h =
        let len = chunk_len c (b ∷ rest) in
        let (pos, inside, upper, lower) = chunk_len_range (b ∷ rest) (omega arith) in
        let left = length-drop len (b ∷ rest) in
        let (ks, e, joined, chunked) =
          process_loop-Chunked fuel (off + len) (drop len (b ∷ rest)) (omega arith) in
        (
          record {
            offset = off;
            size = len;
            hash = blake3 (take len (b ∷ rest));
            content = take len (b ∷ rest);
          }
              ∷ ks,
          rw (e, process_loop),
          ap (λ t. take len (b ∷ rest) ++ t) joined ∙ take-append-drop len (b ∷ rest),
          (
            refl,
            omega (arith, length-take len (b ∷ rest)),
            refl,
            pos,
            upper,
            last_or_long ks c.min_size len
                λ q. lower (omega (arith, more_left fuel (off + len) (drop len (b ∷ rest)) ks e q)),
            chunked,
          ),
        )

    -- If `min_size` is less than `max_size`, `process_buffer` ends, its chunks join to the buffer,
    -- and they lie end to end from offset 0, each with its length, its BLAKE3 hash, and a size
    -- above 0, at most `max_size`, and above `min_size` except for the last.
    pub process_buffer-Chunked :
        (input : Bytes)
        → (ks : List ChunkResult) × (process_buffer blake3 c input ≡ some ks)
          × (reconstruct ks ≡ input)
          × Chunked 0 ks
    unfolding process_buffer
    process_buffer-Chunked input = process_loop-Chunked (length input) 0 input (omega arith)

boundary_here :
    (i n b : ℕ) (rest : Bytes) → 0 < n → bit_and b 0x0f ≡ 0 → boundary i n (b ∷ rest) ≡ some i
unfolding boundary
boundary_here i zero b rest h e = absurd (omega arith)
boundary_here i (suc n) b rest h e = rw (e, boundary)

-- A byte with a zero low nibble at exactly `min_size` ends no chunk: the chunk is as long as the
-- window allows, whatever other boundaries the window has.
pub boundary_at_min_size :
    (c : CdcChunker) (front back : Bytes) (b : ℕ)
    → length front ≡ c.min_size
    → bit_and b 0x0f ≡ 0
    → c.min_size < c.max_size
    → chunk_len c (front ++ b ∷ back) ≡ min (length (front ++ b ∷ back)) c.max_size
unfolding chunk_len
boundary_at_min_size c front back b at nibble room =
    let window = min (length (front ++ b ∷ back)) c.max_size - c.min_size in
    rw (drop_seam c.min_size front (b ∷ back) at) (
      rw
        (boundary_here c.min_size window b back (omega (arith, length-append front (b ∷ back)))
          nibble)
        (ground (arith, length-append front (b ∷ back))))
