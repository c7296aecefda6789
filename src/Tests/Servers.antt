-- ===== src/Tests/Servers.antt =====
-- Runs of the server's handlers.
use proxygit.Prelude.{
  ◌≡◌, ◌⊎◌, refl, ap, true, List, [], ◌∷◌, length, replicate, Option, none, some, arith,
}
use proxygit.Bytes.{Bytes, bytes_eq}
use proxygit.Bytes.Utf8.{text, utf8_from, lead, from_utf8, from_utf8_lossy, lossy_from}
use proxygit.Result.{ok}
use proxygit.Protocol.Message.{
  msg_read_file, msg_write_blocks, msg_write_blocks_sparse, msg_has_blocks, msg_auth,
  msg_read_file_resp,
}
use proxygit.Protocol.Frame.{Frame, encode_frame}
use proxygit.Protocol.Payload.{
  utf8_or_fail, encode_write_payload, decode_write_payload, encode_hash_list, decode_hash_list,
  decode-encode_write_payload,
}
use proxygit.Protocol.Sparse.{SparseChunk, encode_sparse_write, decode_sparse_write}
use proxygit.Protocol.Sparse.RoundTrip.{decode-encode_sparse_write}
use proxygit.Cdc.{ChunkResult, boundary, chunk_len, process_loop, process_buffer, reconstruct}
use proxygit.BlockStore.{
  has_block, find_stored, store_blocks, apply, run, mark_linked, find_staged, mark_synced,
  put_stored,
}
use proxygit.Indexer.{stat_file}
use proxygit.Paths.{
  sanitize_path, percent_decode, decode_escapes, escaped, hex_nibble, trim_slashes, has_dotdot,
}
use proxygit.Server.{AppState, calm, reply, hashed, write_ack, reject_stale, last_writer_wins}
use proxygit.Server.Read.{handle_read_file, handle_has_blocks}
use proxygit.Server.Read.Verified.{
  Vouched, handle_read_file-verified, present, handle_has_blocks-present,
}
use proxygit.Server.Write.{
  new_blocks, resolve, conflict, handle_write_blocks, handle_write_blocks_sparse,
}
use proxygit.Server.Write.Atomic.{handle_write_blocks_sparse-isolated}
use proxygit.Server.Write.Conflict.{IsCurrent, IsRejected, handle_write_blocks_sparse-IsRejected}
use proxygit.Server.Write.ReadBack.{handle_read_file-handle_write_blocks}
use proxygit.Server.Write.Resolve.{handle_read_file-handle_write_blocks_sparse}
use proxygit.Server.Session.{handle_connection}
use proxygit.Server.Session.Admission.{
  Presents, IsAdmitted, IsRefused, handle_connection-IsAdmitted,
}
use proxygit.Tests.{digest, digest-wide, hex, marking, marking_laws, env, env_hex, fresh, tar}

abbrev pub write : Frame
write = reply msg_write_blocks 7 (replicate 32 0) (encode_write_payload (text "a") (text "data"))

abbrev pub read : Frame
read = reply msg_read_file 7 (replicate 32 0) (text "/a")

abbrev pub block_of : Bytes → Bytes
block_of n = text "data"

abbrev pub whole : List ChunkResult
whole = record { offset = 0; size = 4; hash = digest (text "data"); content = text "data" } ∷ []

pub decoded_write : decode_write_payload write.payload ≡ ok (text "a", text "data")
unfolding utf8_from lead
decoded_write = decode-encode_write_payload (text "a") (text "data") refl (omega arith)

pub sanitized : sanitize_path (text "a") ≡ ok (text "a")
unfolding sanitize_path percent_decode decode_escapes escaped hex_nibble utf8_or_fail from_utf8
    utf8_from lead trim_slashes has_dotdot
sanitized = refl

pub sanitized_read : sanitize_path (from_utf8_lossy (text "/a")) ≡ ok (text "a")
unfolding from_utf8_lossy lossy_from sanitize_path percent_decode decode_escapes escaped hex_nibble
    utf8_or_fail from_utf8 utf8_from lead trim_slashes has_dotdot
sanitized_read = refl

-- The plain write is acknowledged.
pub write_acked :
    (handle_write_blocks env (calm 1) write (fresh none last_writer_wins)).1
    ≡ ok (write_ack env write (text "a") (text "data"))
unfolding process_buffer process_loop chunk_len boundary
write_acked =
    (handle_read_file-handle_write_blocks env block_of 1 2 write read (fresh none last_writer_wins)
      (text "a") (text "a") (text "data") whole env_hex digest-wide decoded_write sanitized
      sanitized_read refl tt refl (refl, tt)).0

handle_read_file-handle_write_blocks_example :
    ((handle_write_blocks env (calm 1) write (fresh none last_writer_wins)).1
      ≡ ok (write_ack env write (text "a") (text "data")))
    × (handle_read_file env
          (calm 2)
          read
          (handle_write_blocks env (calm 1) write (fresh none last_writer_wins)).0
        ≡ hashed env msg_read_file_resp read (text "data"))
unfolding process_buffer process_loop chunk_len boundary
handle_read_file-handle_write_blocks_example =
    handle_read_file-handle_write_blocks env block_of 1 2 write read (fresh none last_writer_wins)
      (text "a") (text "a") (text "data") whole env_hex digest-wide decoded_write sanitized
      sanitized_read refl tt refl (refl, tt)

abbrev pub pieces : List SparseChunk
pieces =
    record { hash = digest (text "data"); content = text "data" }
    ∷ record { hash = digest (text "data"); content = [] }
    ∷ []

abbrev twice : List ChunkResult
twice =
    record { offset = 0; size = 4; hash = digest (text "data"); content = text "data" }
    ∷ record { offset = 4; size = 4; hash = digest (text "data"); content = text "data" }
    ∷ []

abbrev stale : Option Bytes
stale = some (replicate 32 1)

abbrev pub sparse : Option Bytes → Frame
sparse expected =
    reply msg_write_blocks_sparse 7 (replicate 32 0)
      (encode_sparse_write marking true (text "a") pieces expected)

pub decoded_sparse : decode_sparse_write marking (sparse none).payload ≡ ok (text "a", none, pieces)
unfolding utf8_from lead
decoded_sparse =
    decode-encode_sparse_write marking marking_laws true (text "a") pieces none refl (omega arith)
      tt (omega arith) ((refl, omega arith), ((refl, omega arith), tt))

decoded_stale : decode_sparse_write marking (sparse stale).payload ≡ ok (text "a", stale, pieces)
unfolding utf8_from lead
decoded_stale =
    decode-encode_sparse_write marking marking_laws true (text "a") pieces stale refl (omega arith)
      refl (omega arith) ((refl, omega arith), ((refl, omega arith), tt))

handle_read_file-handle_write_blocks_sparse_example :
    ((handle_write_blocks_sparse env (calm 1) (sparse none) (fresh none last_writer_wins)).1
      ≡ ok (write_ack env (sparse none) (text "a") (reconstruct twice)))
    × (handle_read_file env
          (calm 2)
          read
          (handle_write_blocks_sparse env (calm 1) (sparse none) (fresh none last_writer_wins)).0
        ≡ hashed env msg_read_file_resp read (reconstruct twice))
unfolding conflict new_blocks resolve find_stored store_blocks has_block apply run mark_linked
    find_staged mark_synced bytes_eq put_stored
handle_read_file-handle_write_blocks_sparse_example =
    handle_read_file-handle_write_blocks_sparse env block_of 1 2 (sparse none) read
      (fresh none last_writer_wins) (text "a") (text "a") none pieces twice env_hex decoded_sparse
      sanitized sanitized_read refl refl tt (refl, tt) (refl, (refl, tt)) refl
      (omega arith, (omega arith, tt))

handle_write_blocks_sparse-IsRejected_example :
    IsCurrent env (calm 1) (sparse stale) (fresh none reject_stale) (text "a") (replicate 32 1) none
    ⊎ IsRejected env
        (calm 1)
        (sparse stale)
        (fresh none reject_stale)
        (text "a")
        (replicate 32 1)
        (handle_write_blocks_sparse env (calm 1) (sparse stale) (fresh none reject_stale))
unfolding stat_file
handle_write_blocks_sparse-IsRejected_example =
    handle_write_blocks_sparse-IsRejected env (calm 1) (sparse stale) (fresh none reject_stale)
      (text "a") (replicate 32 1) (text "a") pieces refl decoded_stale sanitized

handle_write_blocks_sparse-isolated_example :
    (handle_write_blocks_sparse env (calm 1) (sparse none) (fresh none last_writer_wins)).0.tables 8
    ≡ (fresh none last_writer_wins).tables 8
handle_write_blocks_sparse-isolated_example =
    handle_write_blocks_sparse-isolated env (calm 1) (sparse none) (fresh none last_writer_wins) 8
      (λ h. omega arith)

abbrev asked : Frame
asked = reply msg_has_blocks 7 (replicate 32 0) (encode_hash_list (replicate 32 1 ∷ []))

handle_has_blocks-present_example :
    decode_hash_list (handle_has_blocks env asked (fresh none last_writer_wins)).payload
    ≡ ok (
      length (present (has_block hex (fresh none last_writer_wins).disk) (replicate 32 1 ∷ [])),
      present (has_block hex (fresh none last_writer_wins).disk) (replicate 32 1 ∷ []),
    )
handle_has_blocks-present_example =
    handle_has_blocks-present env asked (fresh none last_writer_wins) (replicate 32 1 ∷ []) refl
      (refl, tt) (omega arith)

abbrev written : AppState
written = (handle_write_blocks env (calm 1) write (fresh none last_writer_wins)).0

handle_read_file-verified_example :
    Vouched env written read (handle_read_file env (calm 2) read written)
handle_read_file-verified_example = handle_read_file-verified env (calm 2) read written served
  where
    served : (handle_read_file env (calm 2) read written).msg_type ≡ msg_read_file_resp
    served = ap (λ (f : Frame). f.msg_type) handle_read_file-handle_write_blocks_example.1

abbrev hello : Bytes
hello = encode_frame msg_auth 0 (replicate 32 0) (text " secret")

handle_connection-IsAdmitted_example :
    (Presents (text "secret") hello
      → IsAdmitted env tar (fresh (some (text "secret")) last_writer_wins) [] (
          handle_connection env tar
            ((calm 1, hello) ∷ [])
            (fresh (some (text "secret")) last_writer_wins)))
    × (Presents (text "secret") hello
        ⊎ IsRefused (fresh (some (text "secret")) last_writer_wins) (
            handle_connection env tar
              ((calm 1, hello) ∷ [])
              (fresh (some (text "secret")) last_writer_wins)))
handle_connection-IsAdmitted_example =
    handle_connection-IsAdmitted env tar (fresh (some (text "secret")) last_writer_wins)
      (text "secret") (hello) (calm 1) [] refl
