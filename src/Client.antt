-- ===== src/Client.antt =====
-- The client of crates/proxygit-client/src/lib.rs: its requests to the server, and what its
-- functions make of the answers. How a request reaches the server is a parameter.
pub mod Tree
pub mod Pieces
pub mod Link
pub mod Sent
use proxygit.Prelude.{
  ℕ, zero, suc, ◌+◌, ◌*◌, ◌%◌, ◌^◌, Bool, true, false, ◌||◌, List, [], ◌∷◌, ◌++◌, map, length,
  replicate, ltb, ◌==◌, if◌then◌else◌, Option, none, some,
}
use proxygit.Bytes.{Bytes, bytes_eq, le_bytes}
use proxygit.Bytes.Utf8.{text, from_utf8_lossy}
use proxygit.Result.{Result, ok, err, Error, server_error, unexpected_type, malformed_json}
use proxygit.Protocol.Message.{
  msg_list_project, msg_list_project_resp, msg_read_file, msg_read_file_resp, msg_write_ack,
  msg_stat_file, msg_stat_file_resp, msg_error, msg_semantic_search, msg_semantic_search_resp,
  msg_has_blocks, msg_has_blocks_resp, msg_write_blocks_sparse,
}
use proxygit.Protocol.Frame.{Frame}
use proxygit.Protocol.Payload.{encode_hash_list, decode_hash_list}
use proxygit.Protocol.Sparse.{SparseChunk, encode_sparse_write, Zstd}
use proxygit.Auth.{trim}
use proxygit.Paths.{hex_nibble}
use proxygit.BlockStore.{mem_bytes}
use proxygit.Indexer.{FileEntry}
use proxygit.Server.{
  Json, string, object, array, Values, no_values, value, Fields, no_fields, field, entry_json,
  string_values, reply, zero_hash, from_env, WriteConflictPolicy, last_writer_wins, reject_stale,
}
use proxygit.Wal.Diff.{chunks}

-- `u8::from_str_radix(s, 16)` of two bytes: a sign may stand before one digit.
abbrev hex_pair : ℕ → ℕ → Option ℕ
hex_pair a b = if a == b'+' then hex_nibble b else elim (hex_nibble a) [
  | none ↦ none
  | some x ↦ elim (hex_nibble b) [ none ↦ none | some y ↦ some (x * 16 + y) ]
]

unfoldable pub parse_pairs : Bytes → Option Bytes
unfolding hex_nibble
parse_pairs [] = some []
parse_pairs (a ∷ []) = none
parse_pairs (a ∷ b ∷ rest) = elim (hex_pair a b) [
  | none ↦ none
  | some x ↦ elim (parse_pairs rest) [ none ↦ none | some xs ↦ some (x ∷ xs) ]
]

unfoldable pub parse_hex_tree_hash : Bytes → Option Bytes
unfolding trim parse_pairs
parse_hex_tree_hash s = if length (trim s) == 64 then parse_pairs (trim s) else none

-- The value of PROXYGIT_WRITE_CONFLICT in lower case names a policy that rejects.
unfoldable pub auto_base_hash_enabled : Bytes → Bool
unfolding from_env
auto_base_hash_enabled name = elim (from_env name) [
  | last_writer_wins ↦ false
  | reject_stale ↦ true
]

-- What became of one request on a borrowed stream.
pub data Exchange : Type 0 where
  answered : Frame → Exchange
  pool_error send_error recv_error : Error → Exchange

-- The server answered with MSG_WRITE_ACK.
abbrev pub is_acked : Exchange → Bool
is_acked (answered resp) = resp.msg_type == msg_write_ack
is_acked (pool_error e) = false
is_acked (send_error e) = false
is_acked (recv_error e) = false

-- The functions of blake3, zstd and serde_json that the client calls, the `Display` of errors, and
-- the values of its environment variables.
pub record ClientEnv : Type 0 where
  pub blake3 : Bytes → Bytes
  pub zstd : Zstd
  pub zstd_enabled : Bool
  pub write_conflict : Bytes
  pub entry_from_slice : Bytes → Option FileEntry
  pub entries_from_slice : Bytes → Option (List FileEntry)
  pub strings_from_slice : Bytes → Option (List Bytes)
  pub from_slice : Bytes → Option Json
  pub display : Error → Bytes

abbrev pub error_json : Bytes → Json
error_json message = object (field (text "error") (string message) no_fields)

-- `Value::get`.
unfoldable pub get_field : Bytes → Fields → Option Json
get_field name no_fields = none
get_field name (field n v more) =
    let later = get_field name more in if bytes_eq n name then some v else later

unfoldable pub get : Bytes → Json → Option Json
unfolding get_field
get name (object fields) = get_field name fields
get name _ = none

abbrev pub as_str : Option Json → Option Bytes
as_str (some (string s)) = some s
as_str _ = none

-- `insert` of a key that is not there.
abbrev pub with_status : Json → Json
with_status (object fields) = elim (get_field (text "status") fields) [
  | none ↦ object (field (text "status") (string (text "ok")) fields)
  | some v ↦ object fields
]
with_status v = v

module _ (cenv : ClientEnv) where
  -- The errors that a function which answers in JSON reports.
  abbrev pub channel_json : Bytes → Error → Json
  channel_json stage e = error_json (stage ++ cenv.display e)

  -- The JSON of an answer that is not of the wanted type.
  abbrev pub other_json : Frame → Json
  other_json resp =
      if resp.msg_type == msg_error
      then error_json (from_utf8_lossy resp.payload)
      else error_json (text "unexpected response")

  abbrev pub exchange_json : (Frame → Json) → Exchange → Json
  exchange_json answer (answered resp) = answer resp
  exchange_json answer (pool_error e) = channel_json (text "pool error: ") e
  exchange_json answer (send_error e) = channel_json (text "send error: ") e
  exchange_json answer (recv_error e) = channel_json (text "recv error: ") e

  -- A function that passes errors on with `?`.
  abbrev pub exchange_result {ℓ} : {A : Type ℓ} → ℕ → (Bytes → Result A) → Exchange → Result A
  exchange_result wanted parse (answered resp) =
      if resp.msg_type == wanted
      then parse resp.payload
      else if resp.msg_type == msg_error
      then err (server_error (from_utf8_lossy resp.payload))
      else err (unexpected_type resp.msg_type)
  exchange_result wanted parse (pool_error e) = err e
  exchange_result wanted parse (send_error e) = err e
  exchange_result wanted parse (recv_error e) = err e

  abbrev pub parsed {ℓ} : {A : Type ℓ} → (Bytes → Option A) → Bytes → Result A
  parsed parse bytes = elim (parse bytes) [ none ↦ err (malformed_json bytes) | some a ↦ ok a ]

  -- The 64 KiB blocks of a content, each with its hash.
  abbrev pub full_chunks : Bytes → List SparseChunk
  full_chunks content =
      map (λ c. record { hash = cenv.blake3 c; content = c }) (chunks 65536 content)

  -- The chunks without the data of those that the server has.
  unfoldable pub clear_known : List Bytes → List SparseChunk → List SparseChunk
  clear_known known [] = []
  clear_known known (c ∷ cs) =
      (if mem_bytes c.hash known then record c { content = [] } else c) ∷ clear_known known cs

  -- The answer to HAS_BLOCKS; whatever goes wrong, no block is taken to be known.
  abbrev pub known_of : Exchange → List Bytes
  known_of (answered resp) =
      if resp.msg_type == msg_has_blocks_resp
      then (elim (decode_hash_list resp.payload) [ err e ↦ [] | ok (n, hashes) ↦ hashes ])
      else []
  known_of (pool_error e) = []
  known_of (send_error e) = []
  known_of (recv_error e) = []

  abbrev parsed_or : (Json → Json) → Json → Bytes → Json
  parsed_or change otherwise payload = elim (cenv.from_slice payload) [
    | none ↦ otherwise
    | some v ↦ change v
  ]

  abbrev pub write_json : Frame → Json
  write_json resp =
      if resp.msg_type == msg_write_ack
      then parsed_or with_status
          (object (
            field (text "status") (string (text "ok"))
              (field (text "tree_hash") (string (from_utf8_lossy resp.payload)) no_fields)))
          resp.payload
      else if resp.msg_type == msg_error
      then parsed_or (λ v. v) (error_json (from_utf8_lossy resp.payload)) resp.payload
      else error_json (text "unexpected response")

  abbrev pub request : ℕ → ℕ → Bytes → Frame
  request msg_type project_id payload = reply msg_type project_id (cenv.blake3 payload) payload

  module _ {S : Type 0} (exchange : Frame → S → S × Exchange) where
    abbrev pub over {ℓ} : {A : Type ℓ} → (Exchange → A) → S × Exchange → S × A
    over f (s, x) = (s, f x)

    unfoldable pub list_project : ℕ → S → S × Result (List FileEntry)
    list_project project_id s =
        over (exchange_result msg_list_project_resp (parsed cenv.entries_from_slice))
          (exchange (reply msg_list_project project_id zero_hash []) s)

    abbrev pub content_json : Frame → Json
    content_json resp =
        if resp.msg_type == msg_read_file_resp
        then object (field (text "content") (string (from_utf8_lossy resp.payload)) no_fields)
        else other_json resp

    unfoldable pub mcp_read_file : ℕ → Bytes → S → S × Json
    unfolding from_utf8_lossy
    mcp_read_file project_id path s =
        over (exchange_json content_json) (exchange (request msg_read_file project_id path) s)

    unfoldable pub mcp_read_raw_bytes : ℕ → Bytes → S → S × Result Bytes
    unfolding from_utf8_lossy
    mcp_read_raw_bytes project_id path s =
        over (exchange_result msg_read_file_resp ok)
          (exchange (request msg_read_file project_id path) s)

    abbrev stat_json : Frame → Json
    stat_json resp =
        if resp.msg_type == msg_stat_file_resp
        then (elim (cenv.entry_from_slice resp.payload) [
          | none ↦ error_json (text "deserialization error")
          | some e ↦ entry_json e
        ])
        else other_json resp

    unfoldable pub mcp_stat : ℕ → Bytes → S → S × Json
    unfolding from_utf8_lossy
    mcp_stat project_id path s =
        over (exchange_json stat_json) (exchange (request msg_stat_file project_id path) s)

    abbrev base_of : Option Bytes → Bytes
    base_of none = zero_hash
    base_of (some s) = elim (parse_hex_tree_hash s) [ none ↦ zero_hash | some h ↦ h ]

    unfoldable pub fetch_base_tree_hash : ℕ → Bytes → S → S × Bytes
    unfolding mcp_stat get parse_hex_tree_hash
    fetch_base_tree_hash project_id path s =
        let (s', st) = mcp_stat project_id path s in
        (s', base_of (as_str (get (text "tree_hash") st)))

    -- The hash that the server is to expect: the one given, or that of the file now if the client
    -- is told to ask for it.
    abbrev pub expected_hash : ℕ → Bytes → Option Bytes → S → S × Option Bytes
    expected_hash project_id path (some h) s = (s, some h)
    expected_hash project_id path none s =
        let (s', h) = fetch_base_tree_hash project_id path s in
        if auto_base_hash_enabled cenv.write_conflict then (s', some h) else (s, none)

    -- The write itself: what the server has is asked for, and the rest is sent.
    unfoldable pub send_write : ℕ → Bytes → Bytes → Option Bytes → S → S × Json
    unfolding clear_known encode_hash_list decode_hash_list encode_sparse_write from_utf8_lossy get
        chunks
    send_write project_id path content expected s =
        let full = full_chunks content in
        let (s', x) =
          exchange
            (request msg_has_blocks project_id
              (encode_hash_list (map (λ (c : SparseChunk). c.hash) full)))
            s in
        let payload =
          encode_sparse_write cenv.zstd cenv.zstd_enabled path (clear_known (known_of x) full)
            expected in
        over (exchange_json write_json)
          (exchange (request msg_write_blocks_sparse project_id payload) s')

    unfoldable pub mcp_write_file_opts : ℕ → Bytes → Bytes → Option Bytes → S → S × Json
    unfolding fetch_base_tree_hash auto_base_hash_enabled send_write
    mcp_write_file_opts project_id path content expected_tree_hash s =
        let (s', expected) = expected_hash project_id path expected_tree_hash s in
        send_write project_id path content expected s'

    abbrev pub mcp_write_file : ℕ → Bytes → Bytes → S → S × Json
    mcp_write_file project_id path content s = mcp_write_file_opts project_id path content none s

    abbrev or_empty : Option (List FileEntry) → List FileEntry
    or_empty none = []
    or_empty (some es) = es

    abbrev listing_json : Frame → Json
    listing_json resp =
        if resp.msg_type == msg_list_project_resp
        then object (
            field (text "files")
              (array (
                string_values (
                  map (λ (e : FileEntry). e.path)
                    (or_empty (cenv.entries_from_slice resp.payload)))))
              no_fields)
        else other_json resp

    unfoldable pub mcp_list_directory : ℕ → Bytes → S → S × Json
    unfolding from_utf8_lossy
    mcp_list_directory project_id path s =
        over (exchange_json listing_json)
          (exchange (reply msg_list_project project_id zero_hash []) s)

    -- The query, a zero byte and the limit in eight bytes.
    unfoldable pub mcp_semantic_search : ℕ → Bytes → ℕ → S → S × Result (List Bytes)
    unfolding from_utf8_lossy
    mcp_semantic_search project_id query limit s =
        over (exchange_result msg_semantic_search_resp (parsed cenv.strings_from_slice)) (
          exchange
            (reply msg_semantic_search project_id zero_hash
              (query ++ 0 ∷ le_bytes 8 (limit % 2 ^ 64)))
            s)

    abbrev pub mcp_content_search : ℕ → Bytes → ℕ → S → S × Result (List Bytes)
    mcp_content_search project_id query limit s = mcp_semantic_search project_id query limit s
