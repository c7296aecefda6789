-- ===== src/Protocol/Message.antt =====
-- The message types of crates/proxygit-common/src/protocol.rs and their names in the logs.
use Prim.Native.String.{String}
use proxygit.Prelude.{ℕ, ◌*◌, ◌==◌, if◌then◌else◌}

abbrev pub msg_list_project : ℕ
msg_list_project = 0x01

abbrev pub msg_list_project_resp : ℕ
msg_list_project_resp = 0x02

abbrev pub msg_read_file : ℕ
msg_read_file = 0x03

abbrev pub msg_read_file_resp : ℕ
msg_read_file_resp = 0x04

abbrev pub msg_write_blocks : ℕ
msg_write_blocks = 0x05

abbrev pub msg_write_ack : ℕ
msg_write_ack = 0x06

abbrev pub msg_stat_file : ℕ
msg_stat_file = 0x07

abbrev pub msg_stat_file_resp : ℕ
msg_stat_file_resp = 0x08

abbrev pub msg_event_subscribe : ℕ
msg_event_subscribe = 0x09

abbrev pub msg_file_changed : ℕ
msg_file_changed = 0x0a

abbrev pub msg_block_request : ℕ
msg_block_request = 0x0b

abbrev pub msg_block_resp : ℕ
msg_block_resp = 0x0c

abbrev pub msg_error : ℕ
msg_error = 0x0d

abbrev pub msg_get_project_map : ℕ
msg_get_project_map = 0x0e

abbrev pub msg_get_project_map_resp : ℕ
msg_get_project_map_resp = 0x0f

abbrev pub msg_semantic_search : ℕ
msg_semantic_search = 0x10

abbrev pub msg_semantic_search_resp : ℕ
msg_semantic_search_resp = 0x11

abbrev pub msg_create_backup : ℕ
msg_create_backup = 0x12

abbrev pub msg_list_backups : ℕ
msg_list_backups = 0x13

abbrev pub msg_write_blocks_sparse : ℕ
msg_write_blocks_sparse = 0x14

abbrev pub msg_has_blocks : ℕ
msg_has_blocks = 0x15

abbrev pub msg_has_blocks_resp : ℕ
msg_has_blocks_resp = 0x16

abbrev pub msg_auth : ℕ
msg_auth = 0x17

abbrev pub msg_auth_ok : ℕ
msg_auth_ok = 0x18

abbrev pub msg_auth_fail : ℕ
msg_auth_fail = 0x19

-- The flag of a sparse write that carries an expected tree hash, and that of zstd data.
abbrev pub sparse_flag_expected_hash : ℕ
sparse_flag_expected_hash = 0x01

abbrev pub sparse_flag_zstd : ℕ
sparse_flag_zstd = 0x02

abbrev pub max_payload_size : ℕ
max_payload_size = 64 * 1024 * 1024

unfoldable pub msg_type_name : ℕ → String
msg_type_name msg_type =
    if msg_type == msg_list_project
    then "LIST_PROJECT"
    else if msg_type == msg_list_project_resp
    then "LIST_PROJECT_RESP"
    else if msg_type == msg_read_file
    then "READ_FILE"
    else if msg_type == msg_read_file_resp
    then "READ_FILE_RESP"
    else if msg_type == msg_write_blocks
    then "WRITE_BLOCKS"
    else if msg_type == msg_write_ack
    then "WRITE_ACK"
    else if msg_type == msg_stat_file
    then "STAT_FILE"
    else if msg_type == msg_stat_file_resp
    then "STAT_FILE_RESP"
    else if msg_type == msg_block_request
    then "BLOCK_REQUEST"
    else if msg_type == msg_block_resp
    then "BLOCK_RESP"
    else if msg_type == msg_error
    then "ERROR"
    else if msg_type == msg_get_project_map
    then "GET_PROJECT_MAP"
    else if msg_type == msg_get_project_map_resp
    then "GET_PROJECT_MAP_RESP"
    else if msg_type == msg_semantic_search
    then "SEMANTIC_SEARCH"
    else if msg_type == msg_semantic_search_resp
    then "SEMANTIC_SEARCH_RESP"
    else if msg_type == msg_create_backup
    then "CREATE_BACKUP"
    else if msg_type == msg_list_backups
    then "LIST_BACKUPS"
    else if msg_type == msg_write_blocks_sparse
    then "WRITE_BLOCKS_SPARSE"
    else if msg_type == msg_has_blocks
    then "HAS_BLOCKS"
    else if msg_type == msg_has_blocks_resp
    then "HAS_BLOCKS_RESP"
    else if msg_type == msg_auth
    then "AUTH"
    else if msg_type == msg_auth_ok
    then "AUTH_OK"
    else if msg_type == msg_auth_fail
    then "AUTH_FAIL"
    else "UNKNOWN"
