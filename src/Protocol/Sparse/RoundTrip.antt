-- ===== src/Protocol/Sparse/RoundTrip.antt =====
-- A sparse write decodes to the path, the expected hash and the chunks that were encoded.
use proxygit.Prelude.{
  ℕ, ◌+◌, ◌-◌, ◌%◌, ◌^◌, ◌<◌, ◌≤◌, ◌≡◌, refl, sym, ap, ◌∙◌, inl, inr, Bool, true, false, not, ◌&&◌,
  bit_and, List, [], ◌∷◌, ◌++◌, length, length-append, drop, All, ltb, ltb-false, ◌==◌, Option,
  none, some, take_seam, drop_seam, append_assoc, arith, Bool-cases, Option-cases,
}
use proxygit.Bytes.{Bytes, le_bytes, from_le}
use proxygit.Bytes.Laws.{length-le_bytes, from_le-le_bytes}
use proxygit.Bytes.Utf8.{utf8_from}
use proxygit.Result.{ok}
use proxygit.Protocol.Message.{max_payload_size, sparse_flag_zstd}
use proxygit.Protocol.Payload.{utf8_or_fail_valid}
use proxygit.Protocol.Sparse.{
  Zstd, ZstdLaws, SparseChunk, max_chunk_plain, total, any_data, contents, compress_chunk,
  compress_chunks, encoded_data, encode_entries, flags_of, expected_bytes, encode_sparse_write,
  chunk_data, decode_chunks, decode_expected, decode_sparse_write,
}

abbrev pub IsChunk : SparseChunk → Type 0
IsChunk c = (length c.hash ≡ 32) × (length c.content ≤ max_chunk_plain)

abbrev pub IsExpected : Option Bytes → Type 0
IsExpected none = Unit
IsExpected (some h) = length h ≡ 32

decode_expected-expected_bytes :
    (expected : Option Bytes) (used : Bool) (rest : Bytes)
    → IsExpected expected
    → decode_expected (flags_of expected used) (expected_bytes expected ++ rest)
      ≡ ok (expected, rest)
unfolding decode_expected
decode_expected-expected_bytes none true rest h = refl
decode_expected-expected_bytes none false rest h = refl
decode_expected-expected_bytes (some e) true rest h =
    rw (take_seam 32 e rest h, drop_seam 32 e rest h) (ground (arith, length-append e rest))
decode_expected-expected_bytes (some e) false rest h =
    rw (take_seam 32 e rest h, drop_seam 32 e rest h) (ground (arith, length-append e rest))

zstd_flag :
    (expected : Option Bytes) (used : Bool)
    → not (bit_and (flags_of expected used) sparse_flag_zstd == 0) ≡ used
zstd_flag none true = refl
zstd_flag none false = refl
zstd_flag (some e) true = refl
zstd_flag (some e) false = refl

module _ (z : Zstd) (laws : ZstdLaws z) where
  -- The blobs are what the decoder turns back into the chunks' data.
  abbrev Wire : Bool → List SparseChunk → List Bytes → Type 0
  Wire used [] [] = Unit
  Wire used (c ∷ cs) (e ∷ es) =
      (length c.hash ≡ 32)
      × (length e ≤ max_payload_size)
      × (chunk_data z used e ≡ ok c.content)
      × Wire used cs es
  Wire used _ _ = ⊥

  plain_data : (d : Bytes) → chunk_data z false d ≡ ok d
  unfolding chunk_data
  plain_data [] = refl
  plain_data (b ∷ d) = refl

  Wire-contents : (cs : List SparseChunk) → All IsChunk cs → Wire false cs (contents cs)
  Wire-contents [] h = tt
  Wire-contents (c ∷ cs) (h, hs) = (h.0, omega arith, plain_data c.content, Wire-contents cs hs)

  compressed_data :
      (d e : Bytes)
      → compress_chunk z d ≡ some e
      → length d ≤ max_chunk_plain
      → (length e ≤ max_payload_size) × (chunk_data z true e ≡ ok d)
  unfolding compress_chunk chunk_data
  compressed_data [] [] h fits = (omega arith, refl)
  compressed_data [] (b ∷ e) h fits = cc
  compressed_data (x ∷ d) [] h fits = absurd (omega (arith, laws.framed (x ∷ d) [] h))
  compressed_data (x ∷ d) (b ∷ e) h fits = (
    omega (arith, laws.bounded (x ∷ d) (b ∷ e) h),
    rw (laws.round (x ∷ d) (b ∷ e) max_chunk_plain h fits, chunk_data),
  )

  Wire-compress_chunks :
      (cs : List SparseChunk) (es : List Bytes)
      → All IsChunk cs
      → compress_chunks z cs ≡ some es
      → Wire true cs es
  unfolding compress_chunks
  Wire-compress_chunks [] [] h e = tt
  Wire-compress_chunks [] (x ∷ es) h e = cc
  Wire-compress_chunks (c ∷ cs) [] h e = ground (arith, e)
  Wire-compress_chunks (c ∷ cs) (x ∷ es) (h, hs) e =
      let (same, rest) = compress_cons c cs x es e in
      let (fits, back) = compressed_data c.content x same h.1 in
      (h.0, fits, back, Wire-compress_chunks cs es hs rest)
    where
      compress_cons :
          (c : SparseChunk) (cs : List SparseChunk) (x : Bytes) (es : List Bytes)
          → compress_chunks z (c ∷ cs) ≡ some (x ∷ es)
          → (compress_chunk z c.content ≡ some x) × (compress_chunks z cs ≡ some es)
      compress_cons c cs x es e = ground arith

  Wire-encoded_data :
      (enabled : Bool) (cs : List SparseChunk)
      → All IsChunk cs
      → Wire (encoded_data z enabled cs).0 cs (encoded_data z enabled cs).1
  unfolding encoded_data
  Wire-encoded_data enabled cs h = elim (Bool-cases (enabled && any_data cs)) [
    | inr off ↦ rw off (Wire-contents cs h)
    | inl on ↦ rw on (elim (Option-cases (compress_chunks z cs)) [
      | inl e ↦ rw (e, encoded_data) (Wire-contents cs h)
      | inr (es, e) ↦ elim (Bool-cases (ltb (total es) (total (contents cs)))) [
        | inl less ↦ rw (e, encoded_data) (rw less (Wire-compress_chunks cs es h e))
        | inr more ↦ rw (e, encoded_data) (rw more (Wire-contents cs h))
      ]
    ])
  ]

  decode_chunks-encode_entries :
      (used : Bool) (done : ℕ) (cs : List SparseChunk) (es : List Bytes)
      → Wire used cs es
      → decode_chunks z used done (length cs) (encode_entries cs es) ≡ ok cs
  unfolding decode_chunks encode_entries
  decode_chunks-encode_entries used done [] [] w = refl
  decode_chunks-encode_entries used done [] (e ∷ es) w = absurd w
  decode_chunks-encode_entries used done (c ∷ cs) [] w = absurd w
  decode_chunks-encode_entries used done (c ∷ cs) (e ∷ es) (hh, fits, data_ok, w) =
      let L = le_bytes 4 (length e % 2 ^ 32) in
      let more = encode_entries cs es in
      let ll : length L ≡ 4 = length-le_bytes 4 (length e % 2 ^ 32) in
      let small : length e % 2 ^ 32 ≡ length e = omega arith in
      let read : from_le L ≡ length e =
        ap (λ n. from_le (le_bytes 4 n)) small ∙ from_le-le_bytes 4 (length e) (omega arith) in
      let seam : drop 36 (c.hash ++ (L ++ (e ++ more))) ≡ e ++ more =
        ap (drop 36) (sym (append_assoc c.hash L (e ++ more)))
        ∙ drop_seam 36 (c.hash ++ L) (e ++ more) (omega (arith, length-append c.hash L)) in
      rw
        (
          seam,
          take_seam 32 c.hash (L ++ (e ++ more)) hh,
          drop_seam 32 c.hash (L ++ (e ++ more)) hh,
          take_seam 4 L (e ++ more) ll,
          read,
          take_seam (length e) e more refl,
          drop_seam (length e) e more refl,
          data_ok,
          decode_chunks-encode_entries used (done + 1) cs es w,
        )
        (ground (
          arith,
          length-append c.hash (L ++ (e ++ more)),
          length-append L (e ++ more),
          length-append e more,
        ))

  abbrev laid_out : Bytes → Option Bytes → Bool → List SparseChunk → List Bytes → Bytes
  laid_out path expected used cs es =
      le_bytes 2 (length path % 2 ^ 16)
      ++ (path
          ++ (flags_of expected used
              ∷ (expected_bytes expected
                  ++ (le_bytes 4 (length cs % 2 ^ 32) ++ encode_entries cs es))))

  decode_laid_out :
      (path : Bytes) (expected : Option Bytes) (used : Bool) (cs : List SparseChunk)
      (es : List Bytes)
      → utf8_from [] path ≡ true
      → length path < 2 ^ 16
      → IsExpected expected
      → length cs < 2 ^ 32
      → Wire used cs es
      → decode_sparse_write z (laid_out path expected used cs es) ≡ ok (path, expected, cs)
  unfolding decode_sparse_write
  decode_laid_out path expected used cs es valid short he few w =
      let L = le_bytes 2 (length path % 2 ^ 16) in
      let C = le_bytes 4 (length cs % 2 ^ 32) in
      let entries = encode_entries cs es in
      let counted = C ++ entries in
      let behind = flags_of expected used ∷ (expected_bytes expected ++ counted) in
      let ll : length L ≡ 2 = length-le_bytes 2 (length path % 2 ^ 16) in
      let lc : length C ≡ 4 = length-le_bytes 4 (length cs % 2 ^ 32) in
      let small : length path % 2 ^ 16 ≡ length path = omega arith in
      let small' : length cs % 2 ^ 32 ≡ length cs = omega arith in
      let read : from_le L ≡ length path =
        ap (λ n. from_le (le_bytes 2 n)) small ∙ from_le-le_bytes 2 (length path) (omega arith) in
      let read' : from_le C ≡ length cs =
        ap (λ n. from_le (le_bytes 4 n)) small' ∙ from_le-le_bytes 4 (length cs) (omega arith) in
      let seam : drop (2 + length path) (L ++ (path ++ behind)) ≡ behind =
        ap (drop (2 + length path)) (sym (append_assoc L path behind))
        ∙ drop_seam (2 + length path) (L ++ path) behind (omega (arith, length-append L path)) in
      rw
        (
          take_seam 2 L (path ++ behind) ll,
          read,
          drop_seam 2 L (path ++ behind) ll,
          take_seam (2 + length path - 2) path behind (omega arith),
          seam,
          utf8_or_fail_valid path valid,
          ltb-false (length (L ++ (path ++ behind))) 2
              (omega (arith, length-append L (path ++ behind))),
          ltb-false (length (L ++ (path ++ behind))) (2 + length path + 1 + 4) (
              omega (
                arith,
                length-append L (path ++ behind),
                length-append path behind,
                length-append (expected_bytes expected) counted,
                length-append C entries,
              )),
          decode_expected-expected_bytes expected used counted he,
          ltb-false (length counted) 4 (omega (arith, length-append C entries)),
          zstd_flag expected used,
          take_seam 4 C entries lc,
          drop_seam 4 C entries lc,
          read',
          decode_chunks-encode_entries used 0 cs es w,
        )
        refl

  -- A sparse write of fewer than 2^32 chunks, each with a hash of 32 bytes and at most 128 KiB of
  -- data, to a UTF-8 path of less than 2^16 bytes, decodes to the same path, expected hash and
  -- chunks, with zstd enabled or not, whether its frames are smaller, larger or cannot be made.
  pub decode-encode_sparse_write :
      (enabled : Bool) (path : Bytes) (chunks : List SparseChunk) (expected : Option Bytes)
      → utf8_from [] path ≡ true
      → length path < 2 ^ 16
      → IsExpected expected
      → length chunks < 2 ^ 32
      → All IsChunk chunks
      → decode_sparse_write z (encode_sparse_write z enabled path chunks expected)
        ≡ ok (path, expected, chunks)
  unfolding encode_sparse_write
  decode-encode_sparse_write enabled path chunks expected valid short he few hs =
      let (used, blobs) = encoded_data z enabled chunks in
      decode_laid_out path expected used chunks blobs valid short he few
        (Wire-encoded_data enabled chunks hs)
