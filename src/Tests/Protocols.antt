-- ===== src/Tests/Protocols.antt =====
-- Runs of the wire formats, of paths and of tokens.
use proxygit.Prelude.{
  ℕ, zero, suc, ◌≤◌, ◌≡◌, ◌↔◌, refl, true, false, List, [], ◌∷◌, ◌++◌, All, length, replicate, drop,
  some, arith,
}
use proxygit.Bytes.{Bytes, IsByte, from_be, from_le}
use proxygit.Bytes.Utf8.{text, utf8_from, lead, from_utf8}
use proxygit.Result.{ok}
use proxygit.Protocol.Message.{max_payload_size}
use proxygit.Protocol.Frame.{Frame, encode_frame, decode_frame, recv_frame}
use proxygit.Protocol.Frame.RoundTrip.{recv_frame-send_frame}
use proxygit.Protocol.Frame.Sound.{decode_frame_sound}
use proxygit.Protocol.Payload.{
  utf8_or_fail, encode_write_payload, decode_write_payload, decode-encode_write_payload,
  encode_hash_list, decode_hash_list, decode-encode_hash_list,
}
use proxygit.Protocol.Sparse.{SparseChunk, encode_sparse_write, decode_sparse_write}
use proxygit.Protocol.Sparse.RoundTrip.{decode-encode_sparse_write}
use proxygit.Paths.{
  sanitize_path, percent_decode, decode_escapes, escaped, hex_nibble, trim_slashes, has_dotdot,
}
use proxygit.Paths.Safe.{sanitize_path-safe, IsRelative}
use proxygit.Auth.{tokens_equal}
use proxygit.Auth.Compare.{tokens_equal_iff}
use proxygit.Tests.{marking, marking_laws}

abbrev h0 : Bytes
h0 = replicate 32 7

recv_frame-send_frame_example :
    recv_frame (encode_frame 3 9 h0 (text "a.rs") ++ text "x")
    ≡ ok (
      record { msg_type = 3; project_id = 9; payload_len = 4; hash = h0; payload = text "a.rs" },
      text "x",
    )
recv_frame-send_frame_example =
    recv_frame-send_frame 3 9 h0 (text "a.rs") (text "x") (omega arith) refl (omega arith)

decode-encode_write_payload_example :
    decode_write_payload (encode_write_payload (text "a.rs") (0 ∷ 255 ∷ []))
    ≡ ok (text "a.rs", 0 ∷ 255 ∷ [])
unfolding utf8_from lead
decode-encode_write_payload_example =
    decode-encode_write_payload (text "a.rs") (0 ∷ 255 ∷ []) refl (omega arith)

decode-encode_hash_list_example :
    decode_hash_list (encode_hash_list (h0 ∷ h0 ∷ [])) ≡ ok (2, h0 ∷ h0 ∷ [])
decode-encode_hash_list_example =
    decode-encode_hash_list (h0 ∷ h0 ∷ []) (refl, (refl, tt)) (omega arith)

tokens_equal_iff_example :
    (tokens_equal (text "abc") (text "abc") ≡ true) ↔ (text "abc" ≡ text "abc")
tokens_equal_iff_example = tokens_equal_iff (text "abc") (text "abc")

sanitize_path-safe_example :
    (has_dotdot (text "a") ≡ false) × IsRelative (text "a") × (utf8_from [] (text "a") ≡ true)
unfolding sanitize_path percent_decode decode_escapes escaped hex_nibble utf8_or_fail from_utf8
    utf8_from lead trim_slashes has_dotdot
sanitize_path-safe_example = sanitize_path-safe (text "%2f%61") (text "a") refl

abbrev blank : Frame
blank = record {
  msg_type = 0;
  project_id = 0;
  payload_len = 0;
  hash = replicate 32 0;
  payload = [];
}

decode_frame_sound_example :
    (encode_frame blank.msg_type blank.project_id blank.hash blank.payload
        ++ drop 53 (replicate 54 0)
      ≡ replicate 54 0)
    × (length blank.payload ≡ blank.payload_len)
    × (blank.payload_len ≤ max_payload_size)
unfolding decode_frame from_be from_le
decode_frame_sound_example = decode_frame_sound (replicate 54 0) blank (all_bytes 54) refl
  where
    all_bytes : (n : ℕ) → All IsByte (replicate n 0)
    all_bytes zero = tt
    all_bytes (suc n) = (omega arith, all_bytes n)

abbrev sent : List SparseChunk
sent = record { hash = h0; content = text "data" } ∷ record { hash = h0; content = [] } ∷ []

decode-encode_sparse_write_example :
    decode_sparse_write marking (encode_sparse_write marking true (text "a") sent (some h0))
    ≡ ok (text "a", some h0, sent)
unfolding utf8_from lead
decode-encode_sparse_write_example =
    decode-encode_sparse_write marking marking_laws true (text "a") sent (some h0) refl
      (omega arith) refl (omega arith) ((refl, omega arith), ((refl, omega arith), tt))
