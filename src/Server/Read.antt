-- ===== src/Server/Read.antt =====
-- The handlers of crates/proxygit-server/src/lib.rs that change nothing: each yields a reply.
pub mod Verified
use proxygit.Prelude.{
  ℕ, ◌+◌, ◌/◌, ◌%◌, List, [], ◌∷◌, ◌++◌, ltb, ◌==◌, if◌then◌else◌, Option, none, some, is_empty,
  Bool, true, false,
}
use proxygit.Bytes.{Bytes, bytes_eq}
use proxygit.Bytes.Utf8.{text, from_utf8_lossy}
use proxygit.Result.{Result, ok, err, Error}
use proxygit.Protocol.Message.{
  msg_list_project_resp, msg_read_file_resp, msg_stat_file_resp, msg_block_resp,
  msg_get_project_map_resp, msg_semantic_search_resp, msg_has_blocks_resp,
}
use proxygit.Protocol.Frame.{Frame}
use proxygit.Protocol.Payload.{decode_hash_list, encode_hash_list}
use proxygit.BlockStore.{Disk, get_block, read_blocks}
use proxygit.Indexer.{FileEntry, list_files, stat_file, get_file_blocks}
use proxygit.Paths.{sanitize_path}
use proxygit.Server.{
  Env, Io, AppState, Json, array, query, refuse, reply, hashed, entry_json, entry_values,
  string_values,
}

-- `Result::unwrap_or_default` of a list.
abbrev pub unwrap_or_default {ℓ} : {A : Type ℓ} → Result (List A) → List A
unwrap_or_default (ok xs) = xs
unwrap_or_default (err e) = []

-- The content of a file that is not empty, or the message of the error.
pub data Fetched : Type 0 where
  content : Bytes → Fetched
  failure : Bytes → Fetched

module _ (env : Env) where
  unfoldable pub handle_list_project : Io → Frame → AppState → Frame
  unfolding list_files query
  handle_list_project io frame st =
      let list =
        unwrap_or_default (query io.list_fault (list_files (st.tables frame.project_id).files)) in
      hashed env msg_list_project_resp frame (env.to_vec (array (entry_values list)))

  unfoldable pub handle_get_project_map : Io → Frame → AppState → Frame
  unfolding list_files query
  handle_get_project_map io frame st =
      let entries =
        unwrap_or_default (query io.list_fault (list_files (st.tables frame.project_id).files)) in
      hashed env msg_get_project_map_resp frame (env.to_vec (array (entry_values entries)))

  abbrev read_result : Result Bytes → Fetched
  read_result (ok d) = content d
  read_result (err e) = failure (text "Block read error: " ++ env.display e)

  abbrev pub fetch_blocks : Io → Disk → Result (List Bytes) → Fetched
  fetch_blocks io disk (err e) = failure (text "Index lookup error: " ++ env.display e)
  fetch_blocks io disk (ok []) = failure (text "Storage corruption: non-empty file has no blocks")
  fetch_blocks io disk (ok (b ∷ bs)) = elim io.read_fault [
    | none ↦ read_result (read_blocks disk (b ∷ bs))
    | some e ↦ read_result (err e)
  ]

  unfoldable pub fetch : Io → Frame → AppState → Bytes → FileEntry → Fetched
  unfolding get_file_blocks query read_blocks
  fetch io frame st path entry =
      if entry.size == 0
      then content []
      else fetch_blocks io st.disk
          (query io.blocks_fault (get_file_blocks path (st.tables frame.project_id).file_blocks))

  -- The check of the assembled content against the entry.
  unfoldable pub verify : Frame → FileEntry → Fetched → Frame
  verify frame entry (failure message) = refuse frame message
  verify frame entry (content data_bytes) =
      if bytes_eq (env.hex_encode (env.blake3 data_bytes)) entry.tree_hash
      then hashed env msg_read_file_resp frame data_bytes
      else refuse frame (text "Block content corruption detected")

  abbrev pub read_entry : Io → Frame → AppState → Bytes → Result (Option FileEntry) → Frame
  read_entry io frame st path (ok (some entry)) = verify frame entry (fetch io frame st path entry)
  read_entry io frame st path (ok none) = refuse frame (text "File not found: " ++ path)
  read_entry io frame st path (err e) = refuse frame (text "Database error: " ++ env.display e)

  abbrev pub read_path : Io → Frame → AppState → Result Bytes → Frame
  read_path io frame st (err e) = refuse frame (env.display e)
  read_path io frame st (ok path) =
      read_entry io frame st path
        (query io.stat_fault (stat_file path (st.tables frame.project_id).files))

  unfoldable pub handle_read_file : Io → Frame → AppState → Frame
  unfolding sanitize_path query stat_file verify fetch from_utf8_lossy
  handle_read_file io frame st =
      read_path io frame st (sanitize_path (from_utf8_lossy frame.payload))

  abbrev stat_entry : Frame → Bytes → Result (Option FileEntry) → Frame
  stat_entry frame path (ok (some entry)) =
      hashed env msg_stat_file_resp frame (env.to_vec (entry_json entry))
  stat_entry frame path (ok none) = refuse frame (text "File not found: " ++ path)
  stat_entry frame path (err e) = refuse frame (text "Server error: " ++ env.display e)

  abbrev stat_path : Io → Frame → AppState → Result Bytes → Frame
  stat_path io frame st (err e) = refuse frame (env.display e)
  stat_path io frame st (ok path) =
      stat_entry frame path
        (query io.stat_fault (stat_file path (st.tables frame.project_id).files))

  unfoldable pub handle_stat_file : Io → Frame → AppState → Frame
  unfolding sanitize_path query stat_file from_utf8_lossy
  handle_stat_file io frame st =
      stat_path io frame st (sanitize_path (from_utf8_lossy frame.payload))

  abbrev block_reply : Frame → Option Bytes → Frame
  block_reply frame (some data_bytes) = hashed env msg_block_resp frame data_bytes
  block_reply frame none = refuse frame (text "block not found")

  unfoldable pub handle_block_request : Frame → AppState → Frame
  unfolding get_block
  handle_block_request frame st = block_reply frame (get_block env.hex_encode st.disk frame.hash)

  unfoldable pub known_hashes : Disk → List Bytes → List Bytes
  unfolding get_block
  known_hashes disk [] = []
  known_hashes disk (h ∷ hs) = elim (get_block env.hex_encode disk h) [
    | none ↦ known_hashes disk hs
    | some d ↦ h ∷ known_hashes disk hs
  ]

  abbrev has_reply : Frame → Disk → Result (ℕ × List Bytes) → Frame
  has_reply frame disk (err e) = refuse frame (text "Invalid hash list: " ++ env.display e)
  has_reply frame disk (ok (count, hashes)) =
      hashed env msg_has_blocks_resp frame (encode_hash_list (known_hashes disk hashes))

  unfoldable pub handle_has_blocks : Frame → AppState → Frame
  unfolding decode_hash_list encode_hash_list known_hashes
  handle_has_blocks frame st = has_reply frame st.disk (decode_hash_list frame.payload)

  unfoldable pub handle_semantic_search : Frame → AppState → Frame
  unfolding from_utf8_lossy
  handle_semantic_search frame st =
      let query_embedding = env.compute_embedding (from_utf8_lossy frame.payload) in
      hashed env msg_semantic_search_resp frame
        (env.to_vec (array (string_values (env.search st.embeddings query_embedding 20))))
