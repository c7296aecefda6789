-- ===== src/Cdc.antt =====
-- Content-defined chunking, crates/proxygit-common/src/cdc.rs. BLAKE3 is a third-party function
-- and a parameter.
pub mod Chunks
use proxygit.Prelude.{
  ℕ, zero, suc, ◌+◌, ◌-◌, ◌<◌, ◌≡◌, min, bit_and, List, [], ◌∷◌, ◌++◌, length, take, drop, map, leb,
  ◌==◌, if◌then◌else◌, Bool, true, false, Option, none, some,
}
use proxygit.Bytes.{Bytes}

pub record ChunkResult : Type 0 where
  pub offset : ℕ
  pub size : ℕ
  pub hash : Bytes
  pub content : Bytes

pub record CdcChunker : Type 0 where
  pub min_size : ℕ
  pub avg_size : ℕ
  pub max_size : ℕ

abbrev pub default_config : CdcChunker
default_config = record { min_size = 4096; avg_size = 16384; max_size = 65536 }

-- The scan of the rounds `i .. i + n`: the first byte with a zero low nibble. `rest` is the data
-- from `offset + i` on.
unfoldable pub boundary : ℕ → ℕ → Bytes → Option ℕ
boundary i zero rest = none
boundary i (suc n) [] = none
boundary i (suc n) (b ∷ rest) = elim (bit_and b 0x0f == 0) [
  | true ↦ some i
  | false ↦ boundary (i + 1) n rest
]

abbrev or_else : Option ℕ → ℕ → ℕ
or_else none d = d
or_else (some i) d = i

-- `chunk_len`, for the data from `offset` on.
unfoldable pub chunk_len : CdcChunker → Bytes → ℕ
unfolding boundary
chunk_len c rest =
    let remaining = length rest in
    let limit = min remaining c.max_size in
    let cut =
      or_else (boundary c.min_size (limit - c.min_size) (drop c.min_size rest)) c.min_size in
    if leb remaining c.min_size then remaining else if cut == c.min_size then limit else cut

module _ (blake3 : Bytes → Bytes) where
  abbrev pub chunk_at : ℕ → ℕ → Bytes → ChunkResult
  chunk_at offset len rest = record {
    offset = offset;
    size = len;
    hash = blake3 (take len rest);
    content = take len rest;
  }

  -- The loop from `offset` on; `none` means that the fuel ran out.
  unfoldable pub process_loop : ℕ → CdcChunker → ℕ → Bytes → Option (List ChunkResult)
  process_loop fuel c offset [] = some []
  process_loop zero c offset (b ∷ rest) = none
  process_loop (suc fuel) c offset (b ∷ rest) =
      let len = chunk_len c (b ∷ rest) in
      elim (process_loop fuel c (offset + len) (drop len (b ∷ rest))) [
        | none ↦ none
        | some chunks ↦ some (chunk_at offset len (b ∷ rest) ∷ chunks)
      ]

  -- A round takes a byte at least (Cdc/Chunks), so `length` rounds are enough.
  unfoldable pub process_buffer : CdcChunker → Bytes → Option (List ChunkResult)
  unfolding process_loop chunk_len
  process_buffer c input = process_loop (length input) c 0 input

  unfoldable pub fingerprint : CdcChunker → Bytes → Option (List (ℕ × ℕ × Bytes))
  unfolding process_buffer
  fingerprint c input = elim (process_buffer c input) [
    | none ↦ none
    | some chunks ↦ some (map (λ k. (k.offset, k.size, k.hash)) chunks)
  ]

unfoldable pub reconstruct : List ChunkResult → Bytes
reconstruct [] = []
reconstruct (c ∷ cs) = c.content ++ reconstruct cs
