-- ===== src/Protocol/Sparse.antt =====
-- The sparse write payload of protocol.rs. zstd is a third-party library: its two calls are the
-- fields of `Zstd`, and what the code relies on is `ZstdLaws`.
pub mod RoundTrip
use proxygit.Prelude.{
  ℕ, zero, suc, ◌+◌, ◌*◌, ◌/◌, ◌%◌, ◌^◌, ◌<◌, ◌≤◌, ◌≡◌, Bool, true, false, not, ◌&&◌, ◌||◌, bit_and,
  bit_or, List, [], ◌∷◌, ◌++◌, map, length, is_empty, take, drop, get_or, ltb, ◌==◌, if◌then◌else◌,
  Option, none, some,
}
use proxygit.Bytes.{Bytes, le_bytes, from_le, slice}
use proxygit.Result.{
  Result, ok, err, sparse_too_short, sparse_no_header, sparse_no_expected, sparse_no_count,
  sparse_truncated, chunk_too_large, zstd_failed, ◌>>=◌,
}
use proxygit.Protocol.Message.{max_payload_size, sparse_flag_expected_hash, sparse_flag_zstd}
use proxygit.Protocol.Payload.{utf8_or_fail}

-- `zstd::bulk::compress(data, 3)` and `zstd::bulk::decompress(data, capacity)`.
pub record Zstd : Type 0 where
  pub compress : Bytes → Option Bytes
  pub decompress : Bytes → ℕ → Option Bytes

-- A frame decompresses to its content if the capacity has room for it, is never empty, and is at
-- most as long as ZSTD_compressBound says.
pub record ZstdLaws (z : Zstd) : Type 0 where
  pub round :
      (d c : Bytes) (room : ℕ)
      → z.compress d ≡ some c
      → length d ≤ room
      → z.decompress c room ≡ some d
  pub framed : (d c : Bytes) → z.compress d ≡ some c → 0 < length c
  pub bounded : (d c : Bytes) → z.compress d ≡ some c → length c ≤ length d + length d / 256 + 64

-- An empty `content` is a reference to a block that the server is expected to have.
pub record SparseChunk : Type 0 where
  pub hash : Bytes
  pub content : Bytes

abbrev pub max_chunk_plain : ℕ
max_chunk_plain = 128 * 1024

abbrev pub total : List Bytes → ℕ
total [] = 0
total (d ∷ ds) = length d + total ds

abbrev any_data : List SparseChunk → Bool
any_data [] = false
any_data (c ∷ cs) = not (is_empty c.content) || any_data cs

abbrev contents : List SparseChunk → List Bytes
contents = map (λ c. c.content)

abbrev pub flags_of : Option Bytes → Bool → ℕ
flags_of none used = bit_or 0 (if used then sparse_flag_zstd else 0)
flags_of (some h) used = bit_or sparse_flag_expected_hash (if used then sparse_flag_zstd else 0)

abbrev pub expected_bytes : Option Bytes → Bytes
expected_bytes none = []
expected_bytes (some h) = h

unfoldable pub encode_entries : List SparseChunk → List Bytes → Bytes
encode_entries (c ∷ cs) (e ∷ es) =
    c.hash ++ (le_bytes 4 (length e % 2 ^ 32) ++ (e ++ encode_entries cs es))
encode_entries _ _ = []

-- The optional hash behind the flags, and the bytes that follow.
unfoldable pub decode_expected : ℕ → Bytes → Result (Option Bytes × Bytes)
decode_expected flags rest =
    if bit_and flags sparse_flag_expected_hash == 0
    then ok (none, rest)
    else if ltb (length rest) 32
    then err sparse_no_expected
    else ok (some (take 32 rest), drop 32 rest)

module _ (z : Zstd) where
  -- The blob of one chunk: an empty one for a reference.
  unfoldable pub compress_chunk : Bytes → Option Bytes
  compress_chunk data_bytes = if is_empty data_bytes then some [] else z.compress data_bytes

  -- One blob for each chunk; a compression that fails stops the loop.
  unfoldable pub compress_chunks : List SparseChunk → Option (List Bytes)
  unfolding compress_chunk
  compress_chunks [] = some []
  compress_chunks (c ∷ cs) = elim (compress_chunk c.content) [
    | none ↦ none
    | some e ↦ elim (compress_chunks cs) [ none ↦ none | some es ↦ some (e ∷ es) ]
  ]

  -- Whether zstd is used, and the blobs: only if they are smaller in all than the plain data.
  unfoldable pub encoded_data : Bool → List SparseChunk → Bool × List Bytes
  unfolding compress_chunks
  encoded_data enabled chunks =
      if enabled && any_data chunks
      then elim (compress_chunks chunks) [
        | none ↦ (false, contents chunks)
        | some es ↦
            if ltb (total es) (total (contents chunks))
            then (true, es)
            else (false, contents chunks)
      ]
      else (false, contents chunks)

  -- `enabled` is `sparse_zstd_enabled()`.
  unfoldable pub encode_sparse_write : Bool → Bytes → List SparseChunk → Option Bytes → Bytes
  unfolding encoded_data encode_entries
  encode_sparse_write enabled path chunks expected =
      let (used, blobs) = encoded_data enabled chunks in
      le_bytes 2 (length path % 2 ^ 16)
      ++ (path
          ++ (flags_of expected used
              ∷ (expected_bytes expected
                  ++ (le_bytes 4 (length chunks % 2 ^ 32) ++ encode_entries chunks blobs))))

  unfoldable pub chunk_data : Bool → Bytes → Result Bytes
  chunk_data zstd [] = ok []
  chunk_data false (b ∷ raw) = ok (b ∷ raw)
  chunk_data true (b ∷ raw) = elim (z.decompress (b ∷ raw) max_chunk_plain) [
    | none ↦ err (zstd_failed (b ∷ raw))
    | some d ↦ ok d
  ]

  -- The loop over the chunks: `done` are read and `n` are due. `rest` is the payload from `offset`.
  unfoldable pub decode_chunks : Bool → ℕ → ℕ → Bytes → Result (List SparseChunk)
  unfolding chunk_data
  decode_chunks zstd done zero rest = ok []
  decode_chunks zstd done (suc n) rest =
      let data_len = from_le (slice rest 32 36) in
      let later = decode_chunks zstd (done + 1) n (drop data_len (drop 36 rest)) in
      if ltb (length rest) 36
      then err (sparse_truncated done)
      else if ltb max_payload_size data_len
      then err (chunk_too_large data_len)
      else if ltb (length (drop 36 rest)) data_len
      then err (sparse_truncated done)
      else (chunk_data zstd (take data_len (drop 36 rest)) >>= λ content.
          later >>= λ chunks. ok (record { hash = take 32 rest; content = content } ∷ chunks))

  unfoldable pub decode_sparse_write : Bytes → Result (Bytes × Option Bytes × List SparseChunk)
  unfolding decode_chunks decode_expected utf8_or_fail
  decode_sparse_write payload =
      let path_len = from_le (slice payload 0 2) in
      if ltb (length payload) 2
      then err sparse_too_short
      else if ltb (length payload) (2 + path_len + 1 + 4)
      then err sparse_no_header
      else do
        path ← utf8_or_fail (slice payload 2 (2 + path_len))
        let behind = drop (2 + path_len) payload
        let flags = get_or behind 0 0
        (expected, rest) ← decode_expected flags (drop 1 behind)
        if ltb (length rest) 4 then err sparse_no_count else do
          chunks ←
              decode_chunks (not (bit_and flags sparse_flag_zstd == 0)) 0 (from_le (take 4 rest))
                (drop 4 rest)
          ok (path, expected, chunks)
