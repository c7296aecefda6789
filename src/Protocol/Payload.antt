-- ===== src/Protocol/Payload.antt =====
-- The payloads of plain writes and of the HAS_BLOCKS handshake, protocol.rs.
use proxygit.Prelude.{
  ℕ, zero, suc, ◌+◌, ◌-◌, ◌*◌, ◌%◌, ◌^◌, ◌<◌, ◌≡◌, refl, sym, ap, ◌∙◌, List, [], ◌∷◌, ◌++◌, length,
  length-append, drop, take_seam, drop_seam, All, ltb, if◌then◌else◌, none, some, arith,
  append_assoc, append-nil, true,
}
use proxygit.Bytes.{Bytes, le_bytes, from_le, slice}
use proxygit.Bytes.Laws.{length-le_bytes, from_le-le_bytes}
use proxygit.Bytes.Utf8.{from_utf8, utf8_from}
use proxygit.Result.{
  Result, ok, err, write_too_short, write_truncated, not_utf8, hash_list_too_short,
  hash_list_truncated, ◌>>=◌,
}

-- `path_bytes.len() as u16` wraps.
unfoldable pub encode_write_payload : Bytes → Bytes → Bytes
encode_write_payload path content = le_bytes 2 (length path % 2 ^ 16) ++ (path ++ content)

-- `String::from_utf8(…)?`.
unfoldable pub utf8_or_fail : Bytes → Result Bytes
unfolding from_utf8
utf8_or_fail bs = elim (from_utf8 bs) [ none ↦ err (not_utf8 bs) | some s ↦ ok s ]

pub utf8_or_fail_valid : (bs : Bytes) → utf8_from [] bs ≡ true → utf8_or_fail bs ≡ ok bs
unfolding utf8_or_fail
utf8_or_fail_valid bs h = ground arith

unfoldable pub decode_write_payload : Bytes → Result (Bytes × Bytes)
unfolding utf8_or_fail
decode_write_payload payload =
    let path_len = from_le (slice payload 0 2) in
    if ltb (length payload) 2
    then err write_too_short
    else if ltb (length payload) (2 + path_len)
    then err (write_truncated path_len (length payload))
    else do
      path ← utf8_or_fail (slice payload 2 (2 + path_len))
      ok (path, drop (2 + path_len) payload)

abbrev concat_hashes : List Bytes → Bytes
concat_hashes [] = []
concat_hashes (h ∷ hs) = h ++ concat_hashes hs

unfoldable pub encode_hash_list : List Bytes → Bytes
encode_hash_list hashes = le_bytes 4 (length hashes % 2 ^ 32) ++ concat_hashes hashes

-- The rounds `i .. i + n` of the loop: the hash at `4 + i * 32`.
unfoldable pub hashes_at : Bytes → ℕ → ℕ → List Bytes
hashes_at input i zero = []
hashes_at input i (suc n) = slice input (4 + i * 32) (4 + i * 32 + 32) ∷ hashes_at input (i + 1) n

unfoldable pub decode_hash_list : Bytes → Result (ℕ × List Bytes)
unfolding hashes_at
decode_hash_list input =
    let count = from_le (slice input 0 4) in
    if ltb (length input) 4
    then err (hash_list_too_short (length input))
    else if ltb (length input) (4 + count * 32)
    then err (hash_list_truncated (4 + count * 32) (length input))
    else ok (count, hashes_at input 0 count)

-- A write payload whose path is UTF-8 of less than 2^16 bytes decodes to its path and content,
-- whatever bytes the content has.
pub decode-encode_write_payload :
    (path content : Bytes)
    → utf8_from [] path ≡ true
    → length path < 2 ^ 16
    → decode_write_payload (encode_write_payload path content) ≡ ok (path, content)
unfolding decode_write_payload encode_write_payload
decode-encode_write_payload path content valid short =
    let L = le_bytes 2 (length path % 2 ^ 16) in
    let ll : length L ≡ 2 = length-le_bytes 2 (length path % 2 ^ 16) in
    let small : length path % 2 ^ 16 ≡ length path = omega arith in
    let read : from_le L ≡ length path =
      ap (λ n. from_le (le_bytes 2 n)) small ∙ from_le-le_bytes 2 (length path) (omega arith) in
    let seam : drop (2 + length path) (L ++ (path ++ content)) ≡ content =
      ap (drop (2 + length path)) (sym (append_assoc L path content))
      ∙ drop_seam (2 + length path) (L ++ path) content (omega (arith, length-append L path)) in
    rw
      (
        take_seam 2 L (path ++ content) ll,
        read,
        drop_seam 2 L (path ++ content) ll,
        take_seam (2 + length path - 2) path content (omega arith),
        seam,
        utf8_or_fail_valid path valid,
      )
      (ground (arith, length-append L (path ++ content), length-append path content))

length-concat_hashes :
    (hs : List Bytes) → All (λ h. length h ≡ 32) hs → length (concat_hashes hs) ≡ length hs * 32
length-concat_hashes [] a = omega arith
length-concat_hashes (h ∷ hs) (l, a) =
    omega (arith, length-append h (concat_hashes hs), length-concat_hashes hs a)

-- The loop's round reads what stands behind `front`, whose length is known.
hashes_at-concat :
    (front : Bytes) (i : ℕ) (hs : List Bytes) (more : Bytes)
    → All (λ h. length h ≡ 32) hs
    → length front ≡ 4 + i * 32
    → hashes_at (front ++ (concat_hashes hs ++ more)) i (length hs) ≡ hs
unfolding hashes_at
hashes_at-concat front i [] more a e = refl
hashes_at-concat front i (h ∷ hs) more (l, a) e =
    let shift : front ++ ((h ++ concat_hashes hs) ++ more)
        ≡ (front ++ h) ++ (concat_hashes hs ++ more) =
      rw (append_assoc front h (concat_hashes hs ++ more))
        (ap (λ t. front ++ t) (append_assoc h (concat_hashes hs) more)) in
    let rest =
      ap (λ t. hashes_at t (i + 1) (length hs)) shift
      ∙ hashes_at-concat (front ++ h) (i + 1) hs more a (omega (arith, length-append front h)) in
    let first : slice (front ++ ((h ++ concat_hashes hs) ++ more)) (4 + i * 32) (4 + i * 32 + 32)
        ≡ h =
      rw (append_assoc h (concat_hashes hs) more) (
        rw (drop_seam (4 + i * 32) front (h ++ (concat_hashes hs ++ more)) e) (
          take_seam (4 + i * 32 + 32 - (4 + i * 32)) h (concat_hashes hs ++ more) (omega arith))) in
    rw (first, rest)

-- A list of fewer than 2^32 hashes of 32 bytes decodes to its length and itself.
pub decode-encode_hash_list :
    (hashes : List Bytes)
    → All (λ h. length h ≡ 32) hashes
    → length hashes < 2 ^ 32
    → decode_hash_list (encode_hash_list hashes) ≡ ok (length hashes, hashes)
unfolding decode_hash_list encode_hash_list
decode-encode_hash_list hashes a short =
    let L = le_bytes 4 (length hashes % 2 ^ 32) in
    let ll : length L ≡ 4 = length-le_bytes 4 (length hashes % 2 ^ 32) in
    let small : length hashes % 2 ^ 32 ≡ length hashes = omega arith in
    let read : from_le L ≡ length hashes =
      ap (λ n. from_le (le_bytes 4 n)) small ∙ from_le-le_bytes 4 (length hashes) (omega arith) in
    let loop : hashes_at (L ++ concat_hashes hashes) 0 (length hashes) ≡ hashes =
      ap (λ t. hashes_at (L ++ t) 0 (length hashes)) (sym (append-nil (concat_hashes hashes)))
      ∙ hashes_at-concat L 0 hashes [] a (omega arith) in
    rw (take_seam 4 L (concat_hashes hashes) ll, read, loop)
      (ground (arith, length-append L (concat_hashes hashes), length-concat_hashes hashes a))
