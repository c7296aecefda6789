-- ===== src/Lib.antt =====
-- ProxyGit: a file store over QUIC and WebDAV that keeps each file as content-addressed blocks.
--
-- A client sends frames (crates/proxygit-common/src/protocol.rs), one request on each stream. The
-- server (crates/proxygit-server/src/lib.rs) cuts a file into chunks (crates/proxygit-common/src/
-- cdc.rs), stores each chunk under its BLAKE3 hash (crates/proxygit-server/src/block_store/mod.rs)
-- and keeps the list of hashes of each path in a SQLite database of the project
-- (crates/proxygit-server/src/indexer/mod.rs). The same state is served over HTTP
-- (crates/proxygit-server/src/webdav.rs). The client (crates/proxygit-client/src/lib.rs) reads and
-- writes files and lists projects; its mount appends writes to a log
-- (crates/proxygit-client/src/wal/mod.rs), makes them durable by group commits and flushes them as
-- sparse writes, which carry only the blocks that changed.
--
-- The files:
--   Prelude, Bytes, Result: names, byte strings, UTF-8, the ASCII functions of std (Bytes/Ascii),
--     and errors as values. A String of the program is the list of its UTF-8 bytes.
--   Protocol: Message (the constants), Frame (encode_frame, decode_frame, recv_frame, send_frame),
--     Payload (plain writes, hash lists) and Sparse (sparse writes with optional zstd).
--   Cdc: CdcChunker, process_buffer, fingerprint, reconstruct.
--   BlockStore: the directory `blocks` as a Disk of staged and stored files, store_blocks as a list
--     of file-system steps, of which a fault may stop the batch at any; power_loss is what a crash
--     leaves: a name, of a file or of a prefix directory, that was not synced may be gone.
--   Indexer: the tables `files` and `file_blocks`, one function for each statement.
--   Paths, Auth: sanitize_path and percent_decode; the bearer tokens of
--     crates/proxygit-common/src/auth.rs.
--   Server: AppState, the handlers that read (Read) and write (Write), the backups (Backup), and the
--     dispatch and the handshake of a connection (Session). A handler that returns an error ends its
--     stream without a reply. Io says which calls of the disk and the database fail during a
--     request, and which block files cannot be read then. Server/Files is the abstract view: the
--     map of the files of each project, and Refines, which says that a state stands for a map.
--   Webdav: responses and methods, Request (the parser, process_webdav_request and the loop of a
--     connection) and Backups (the backup routes).
--   Client: the requests, mcp_write_file_opts, and the project tree (Tree). The exchange of a request
--     for an answer is a parameter; Client/Link fills it with the model of the server, on streams
--     that may fail before the request or before the answer.
--   Wal: the frames of the log, the scan of a stage file, the diff of a flush (Diff), group commits
--     and rotation as steps of concurrent tasks (Commit), of which two commit, and the flush of the
--     stages (Flush). The name of a new journal file is taken to be durable.
--   Tests: concrete runs.
--
-- Parameters: BLAKE3, hex::encode, zstd, CRC-32, serde_json, uuid, tar and gzip (Archive), case
-- mapping and dates (Http), Display of errors, and the floating-point functions of
-- crates/proxygit-server/src/embeddings.rs. What a theorem needs of them is among its hypotheses;
-- `block_of` names the content that a hash stands for, so that a hypothesis on it says that the
-- blocks at hand have no collision.
--
-- Fuel: process_buffer and slice::chunks run on the length of their input, as each round takes a
-- byte at least; read_staged_records, the header loop of a request and the loop of a WebDAV
-- connection on one round more than there are bytes.
--
-- Numbers and names that no caller is meant to give are not followed to their panics: the offset of
-- a patch and its length are added without the bound of usize, a tree hash is cut into pairs of bytes
-- also inside a character, and a backup is named by a file of the project's directory, as the WebDAV
-- route ensures.
--
-- Not modelled: TLS and certificates, the FUSE mount with its read cache, the command lines, the
-- client's stream pool and its JSON-RPC loop, the timers of the log's workers, what opening the log
-- does, and the interleaving of the server's streams, which are served one after another here.
pub mod Prelude
pub mod Bytes
pub mod Result
pub mod Protocol
pub mod Cdc
pub mod BlockStore
pub mod Indexer
pub mod Paths
pub mod Auth
pub mod Server
pub mod Webdav
pub mod Client
pub mod Wal
pub mod Tests
