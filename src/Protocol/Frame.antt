-- ===== src/Protocol/Frame.antt =====
-- Frames of crates/proxygit-common/src/protocol.rs: a 53-byte header and a payload.
pub mod RoundTrip
pub mod Sound
use proxygit.Prelude.{
  ℕ, ◌+◌, ◌%◌, ◌^◌, List, [], ◌∷◌, ◌++◌, length, get_or, take, drop, ltb, if◌then◌else◌,
}
use proxygit.Bytes.{Bytes, be_bytes, from_be, slice}
use proxygit.Result.{
  Result, ok, err, frame_too_short, payload_too_large, payload_truncated, unexpected_eof, ◌>>=◌,
}
use proxygit.Protocol.Message.{max_payload_size}

pub record Frame : Type 0 where
  pub msg_type : ℕ
  pub project_id : ℕ
  pub payload_len : ℕ
  pub hash : Bytes
  pub payload : Bytes

-- `payload.len() as u32` wraps.
unfoldable pub encode_frame : ℕ → ℕ → Bytes → Bytes → Bytes
encode_frame msg_type project_id hash payload =
    msg_type
    ∷ (be_bytes 16 project_id ++ (be_bytes 4 (length payload % 2 ^ 32) ++ (hash ++ payload)))

unfoldable pub decode_frame : Bytes → Result Frame
decode_frame data_bytes =
    let payload_len = from_be (slice data_bytes 17 21) in
    if ltb (length data_bytes) 53
    then err (frame_too_short (length data_bytes))
    else if ltb max_payload_size payload_len
    then err (payload_too_large payload_len)
    else if ltb (length data_bytes) (53 + payload_len)
    then err (payload_truncated payload_len (length data_bytes))
    else ok (record {
      msg_type = get_or data_bytes 0 0;
      project_id = from_be (slice data_bytes 1 17);
      payload_len = payload_len;
      hash = slice data_bytes 21 53;
      payload = slice data_bytes 53 (53 + payload_len);
    })

-- `read_exact`: the first `n` bytes of the stream and what is left of it.
unfoldable pub read_exact : ℕ → Bytes → Result (Bytes × Bytes)
read_exact n stream =
    if ltb (length stream) n then err (unexpected_eof n) else ok (take n stream, drop n stream)

-- The stream is the list of bytes that it still delivers before it ends.
unfoldable pub recv_frame : Bytes → Result (Frame × Bytes)
unfolding read_exact
recv_frame stream = do
  (header, body) ← read_exact 53 stream
  let payload_len = from_be (slice header 17 21)
  if ltb max_payload_size payload_len then err (payload_too_large payload_len) else do
    (payload, rest) ← read_exact payload_len body
    ok (
      record {
        msg_type = get_or header 0 0;
        project_id = from_be (slice header 1 17);
        payload_len = payload_len;
        hash = slice header 21 53;
        payload = payload;
      },
      rest,
    )

-- The bytes that were written to the stream, after one more frame.
unfoldable pub send_frame : Bytes → ℕ → ℕ → Bytes → Bytes → Bytes
send_frame writer msg_type project_id hash payload =
    writer ++ encode_frame msg_type project_id hash payload
