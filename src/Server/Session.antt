-- ===== src/Server/Session.antt =====
-- Streams and connections, `handle_bi_stream` and `handle_connection` of
-- crates/proxygit-server/src/lib.rs. The streams of a connection are handled one after another, in
-- the order of the list; the tasks that the program spawns may also interleave.
pub mod Admission
use proxygit.Prelude.{
  ℕ, ◌+◌, ◌/◌, ◌%◌, Bool, true, false, List, [], ◌∷◌, ◌++◌, ltb, ◌==◌, if◌then◌else◌, Option, none,
  some,
}
use proxygit.Bytes.{Bytes}
use proxygit.Bytes.Utf8.{text, from_utf8_lossy}
use proxygit.Result.{Result, ok, err}
use proxygit.Protocol.Message.{
  msg_list_project, msg_read_file, msg_write_blocks, msg_stat_file, msg_block_request, msg_error,
  msg_get_project_map, msg_semantic_search, msg_create_backup, msg_list_backups,
  msg_write_blocks_sparse, msg_has_blocks, msg_auth, msg_auth_ok, msg_auth_fail,
}
use proxygit.Protocol.Frame.{Frame, recv_frame}
use proxygit.Auth.{trim, tokens_equal}
use proxygit.Server.{Env, Io, AppState, zero_hash, reply}
use proxygit.Server.Read.{
  handle_list_project, handle_get_project_map, handle_read_file, handle_stat_file,
  handle_block_request, handle_has_blocks, handle_semantic_search,
}
use proxygit.Server.Backup.{Archive, handle_create_backup, handle_list_backups}
use proxygit.BlockStore.{readable_disk}
use proxygit.Server.Write.{handle_write_blocks, handle_write_blocks_sparse}

abbrev pub hex_digit : ℕ → ℕ
hex_digit n = if ltb n 10 then b'0' + n else n + 87

-- `0x{:02x}` of a byte.
abbrev pub hex_byte : ℕ → Bytes
hex_byte n = text "0x" ++ hex_digit (n / 16) ∷ hex_digit (n % 16) ∷ []

unfoldable pub auth_required : AppState → Bool
auth_required st = elim st.auth_token [ none ↦ false | some t ↦ true ]

abbrev token_matches : Option Bytes → Bytes → Bool
token_matches none expected = false
token_matches (some p) expected = tokens_equal expected p

unfoldable pub check_token : AppState → Option Bytes → Bool
unfolding tokens_equal
check_token st presented = elim st.auth_token [
  | none ↦ true
  | some expected ↦ token_matches presented expected
]

module _ (env : Env) (archive : Archive) where
  -- The state as `get_block` finds it while some files cannot be read.
  abbrev pub seen : Io → AppState → AppState
  seen io st = record st { disk = readable_disk io.unreadable st.disk }

  -- A handler that always replies.
  abbrev pub replied : AppState × Frame → AppState × Result Frame
  replied (st, answer) = (st, ok answer)

  unfoldable pub dispatch : Io → Frame → AppState → AppState × Result Frame
  dispatch io frame st =
      if frame.msg_type == msg_list_project
      then (st, ok (handle_list_project env io frame st))
      else if frame.msg_type == msg_read_file
      then (st, ok (handle_read_file env io frame st))
      else if frame.msg_type == msg_write_blocks
      then handle_write_blocks env io frame st
      else if frame.msg_type == msg_stat_file
      then (st, ok (handle_stat_file env io frame st))
      else if frame.msg_type == msg_block_request
      then (st, ok (handle_block_request env frame (seen io st)))
      else if frame.msg_type == msg_get_project_map
      then (st, ok (handle_get_project_map env io frame st))
      else if frame.msg_type == msg_semantic_search
      then (st, ok (handle_semantic_search env frame st))
      else if frame.msg_type == msg_create_backup
      then replied (handle_create_backup env archive io frame st)
      else if frame.msg_type == msg_list_backups
      then (st, ok (handle_list_backups env io frame st))
      else if frame.msg_type == msg_has_blocks
      then (st, ok (handle_has_blocks env frame (seen io st)))
      else if frame.msg_type == msg_write_blocks_sparse
      then handle_write_blocks_sparse env io frame st
      else (
        st,
        ok (reply msg_error 0 zero_hash (text "Unknown message type: " ++ hex_byte frame.msg_type)),
      )

  abbrev pub received : Io → AppState → Result (Frame × Bytes) → AppState × Result Frame
  received io st (err e) = (st, err e)
  received io st (ok (frame, rest)) = dispatch io frame st

  -- One stream, with the bytes that the client sends on it.
  unfoldable pub handle_bi_stream : Io → Bytes → AppState → AppState × Result Frame
  unfolding dispatch recv_frame
  handle_bi_stream io stream st = received io st (recv_frame stream)

  -- The loop after the handshake: the final state, and what each stream ended with.
  unfoldable pub serve : List (Io × Bytes) → AppState → AppState × List (Result Frame)
  unfolding handle_bi_stream
  serve [] st = (st, [])
  serve ((io, stream) ∷ streams) st =
      let (st', answer) = handle_bi_stream io stream st in
      let (last, answers) = serve streams st' in (last, answer ∷ answers)

  abbrev admit : AppState → List (Io × Bytes) → Frame → AppState × List (Result Frame)
  admit st streams frame =
      let (last, answers) = serve streams st in
      if frame.msg_type == msg_auth
      then if check_token st (some (trim (from_utf8_lossy frame.payload)))
        then (last, ok (reply msg_auth_ok 0 (env.blake3 (text "ok")) (text "ok")) ∷ answers)
        else (
          st,
          ok (reply msg_auth_fail 0 (env.blake3 (text "unauthorized")) (text "unauthorized")) ∷ [],
        )
      else (
        st,
        ok (
              reply msg_error 0 zero_hash (
                text "auth required: first stream must be MSG_AUTH, got "
                ++ hex_byte frame.msg_type))
            ∷ [],
      )

  abbrev handshake :
      AppState → List (Io × Bytes) → Result (Frame × Bytes) → AppState × List (Result Frame)
  handshake st streams (err e) = (st, [])
  handshake st streams (ok (frame, rest)) = admit st streams frame

  abbrev guarded : AppState → List (Io × Bytes) → AppState × List (Result Frame)
  guarded st [] = (st, [])
  guarded st ((io, stream) ∷ streams) = handshake st streams (recv_frame stream)

  unfoldable pub handle_connection : List (Io × Bytes) → AppState → AppState × List (Result Frame)
  unfolding auth_required check_token serve recv_frame trim from_utf8_lossy
  handle_connection streams st = if auth_required st then guarded st streams else serve streams st
