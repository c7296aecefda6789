-- ===== src/Tests/Refinements.antt =====
-- Runs of the server on the map of files that it stands for.
use proxygit.Prelude.{
  ◌*◌, ◌^◌, ◌++◌, ◌∙◌, ◌≡◌, refl, sym, ap, inl, inr, List, [], ◌∷◌, length, replicate, none, some,
  arith,
}
use proxygit.Bytes.{Bytes, bytes_eq, le_bytes, from_le}
use proxygit.Bytes.Utf8.{text}
use proxygit.Result.{Result, ok, err, ok-injective}
use proxygit.Protocol.Message.{msg_write_blocks, msg_error}
use proxygit.Protocol.Frame.{Frame}
use proxygit.Protocol.Payload.{encode_write_payload}
use proxygit.Cdc.{process_buffer, process_loop, chunk_len, boundary}
use proxygit.BlockStore.{store_blocks, get_block}
use proxygit.BlockStore.Grow.{get_block-store_blocks}
use proxygit.Indexer.{stat_file}
use proxygit.Server.{AppState, Io, calm, last_writer_wins}
use proxygit.Server.Write.{handle_write_blocks, handle_write_blocks_sparse}
use proxygit.Server.Write.Atomic.{IsErrorReply}
use proxygit.Server.Files.{FileMap, Refines, HasNamedChunks, replaced}
use proxygit.Server.Files.Writes.{AsksNamed, IsAnswered, written, handle_write_blocks-IsAnswered}
use proxygit.Tests.{digest, digest-wide, hex, env, env_hex, fresh, tar, no_disk}
use proxygit.Tests.Servers.{
  write, read, sparse, decoded_sparse, write_acked, block_of, whole, decoded_write, sanitized,
}
use proxygit.Protocol.Frame.{recv_frame, encode_frame}
use proxygit.Protocol.Message.{msg_read_file}
use proxygit.Client.Link.{alone}
use proxygit.Server.Session.{serve}
use proxygit.Server.Files.History.{History, serve-History}
use proxygit.Server.Files.Sparse.{
  AsksNamedPieces, sparse_written, handle_write_blocks_sparse-IsAnswered,
}
use proxygit.Server.Files.RoundTrip.{Unpacks, merged, restore_project_backup-create_project_backup}
use proxygit.Server.Backup.{
  collect, backup_name, create_project_backup, restore_project_backup, TarEntry,
}
use proxygit.Indexer.{list_files}
use proxygit.BlockStore.{
  Block, has_block, apply, run, mark_linked, find_staged, mark_synced, put_stored, find_stored,
}
use proxygit.Server.Write.{new_blocks}

abbrev pub no_files : FileMap
no_files p path = none

pub fresh-Refines : Refines env block_of (fresh none last_writer_wins) no_files
unfolding stat_file
fresh-Refines = record { addressed = tt; holds = λ p path. refl }

pub data-HasNamedChunks : HasNamedChunks env block_of (text "data")
unfolding process_buffer process_loop chunk_len boundary
data-HasNamedChunks = (whole, refl, (refl, tt))

asks : AsksNamed env block_of (written write)
asks = rw (decoded_write, sanitized) data-HasNamedChunks

handle_write_blocks-IsAnswered_example :
    IsAnswered env block_of 7 no_files write
      (written write)
      (handle_write_blocks env (calm 1) write (fresh none last_writer_wins))
handle_write_blocks-IsAnswered_example =
    handle_write_blocks-IsAnswered env block_of (calm 1) write no_files digest-wide
      (fresh none last_writer_wins) fresh-Refines asks

asks_pieces : AsksNamedPieces env block_of (sparse none)
unfolding new_blocks
asks_pieces =
    rw (decoded_sparse) (((refl, tt), (refl, (refl, tt)), (omega arith, (omega arith, tt))))

handle_write_blocks_sparse-IsAnswered_example :
    IsAnswered env block_of 7 no_files
      (sparse none)
      (sparse_written env block_of (sparse none))
      (handle_write_blocks_sparse env (calm 1) (sparse none) (fresh none last_writer_wins))
handle_write_blocks_sparse-IsAnswered_example =
    handle_write_blocks_sparse-IsAnswered env block_of (calm 1) (sparse none) no_files
      (fresh none last_writer_wins) fresh-Refines asks_pieces

-- A write and then a read, each on its stream.
abbrev write_stream : Bytes
write_stream = encode_frame msg_write_blocks 7 (replicate 32 0) write.payload

abbrev read_stream : Bytes
read_stream = encode_frame msg_read_file 7 (replicate 32 0) read.payload

received_write : recv_frame write_stream ≡ ok (write, [])
unfolding encode_write_payload le_bytes
received_write =
    alone msg_write_blocks 7 (replicate 32 0) write.payload (omega arith) refl (omega arith)

received_read : recv_frame read_stream ≡ ok (read, [])
received_read = alone msg_read_file 7 (replicate 32 0) read.payload (omega arith) refl (omega arith)

abbrev two_streams : List (Io × Bytes)
two_streams = (calm 1, write_stream) ∷ (calm 2, read_stream) ∷ []

serve-History_example :
    (files' : FileMap) × History env block_of no_files
      (write_stream ∷ read_stream ∷ [])
      (serve env tar two_streams (fresh none last_writer_wins)).1
      files'
    × Refines env block_of (serve env tar two_streams (fresh none last_writer_wins)).0 files'
serve-History_example =
    serve-History env block_of tar env_hex digest-wide two_streams (fresh none last_writer_wins)
      no_files (rw received_write asks, (rw received_read tt, tt)) fresh-Refines

abbrev one : Block
one = (digest (text "data"), text "data")

get_block-store_blocks_example :
    get_block hex
      (store_blocks hex (some 1) (one ∷ []) (store_blocks hex none (one ∷ []) no_disk).0).0
      (digest (text "data"))
    ≡ some (text "data")
unfolding get_block find_stored store_blocks has_block apply run mark_linked find_staged mark_synced
    bytes_eq put_stored
get_block-store_blocks_example =
    get_block-store_blocks hex block_of (some 1) (one ∷ [])
      (store_blocks hex none (one ∷ []) no_disk).0 (digest (text "data")) (text "data") (refl, tt)
      ((refl, refl), tt) refl

abbrev one_file : FileMap
one_file = replaced 7 (text "a") (some (text "data")) no_files

abbrev written_state : AppState
written_state = (handle_write_blocks env (calm 1) write (fresh none last_writer_wins)).0

not_error : (r : Result Frame) (a : Frame) → r ≡ ok a → IsErrorReply r → a.msg_type ≡ msg_error
not_error (ok f) a e h = sym (ap (λ (g : Frame). g.msg_type) (ok-injective e)) ∙ h
not_error (err x) a e h = cc

written_state-Refines : Refines env block_of written_state one_file
written_state-Refines = elim answered [
  | inl (done, r) ↦ r
  | inr (e, r) ↦ absurd (omega (arith, not_error _ _ write_acked e))
]
  where
    answered :
        IsAnswered env block_of 7 no_files write
          (some (text "a", text "data"))
          (handle_write_blocks env (calm 1) write (fresh none last_writer_wins))
    answered =
        let all =
          handle_write_blocks-IsAnswered env block_of (calm 1) write no_files digest-wide
            (fresh none last_writer_wins) fresh-Refines asks in
        rw (decoded_write, sanitized) at all

abbrev member : TarEntry
member = record { path = text "a"; mode = 420; mtime = 1; content = text "data" }

abbrev archive_bytes : Bytes
archive_bytes = 1 ∷ text "a" ++ 4 ∷ text "data"

member-Unpacks : Unpacks tar (member ∷ []) archive_bytes ((text "a", text "data") ∷ [])
member-Unpacks = record { pack = refl; unpack = refl; same = λ path. refl }

-- A state to restore into: a server without files but with the backup.
abbrev emptied : AppState
emptied = record (fresh none last_writer_wins) {
  backups = (create_project_backup env tar (calm 2) 7 written_state).0.backups;
}

emptied-Refines : Refines env block_of emptied no_files
emptied-Refines = record { addressed = fresh-Refines.addressed; holds = fresh-Refines.holds }

collected :
    collect (calm 2) written_state 7 (list_files (written_state.tables 7).files) ≡ ok (member ∷ [])
unfolding collect list_files handle_write_blocks encode_write_payload le_bytes from_le has_block
    find_stored bytes_eq apply run mark_linked find_staged mark_synced put_stored
collected = refl

restore_project_backup-create_project_backup_example :
    ((create_project_backup env tar (calm 2) 7 written_state).1
      ≡ ok (backup_name (2 * 10 ^ 9), length archive_bytes))
    × ((restore_project_backup env tar (calm 3) 7 (backup_name (2 * 10 ^ 9)) emptied).1 ≡ ok tt)
    × Refines env block_of
        (restore_project_backup env tar (calm 3) 7 (backup_name (2 * 10 ^ 9)) emptied).0
        (merged 7 one_file no_files)
restore_project_backup-create_project_backup_example =
    restore_project_backup-create_project_backup env tar block_of env_hex digest-wide 7 2 3
      (member ∷ []) archive_bytes ((text "a", text "data") ∷ []) member-Unpacks written_state
      emptied one_file no_files written_state-Refines emptied-Refines collected refl
      (data-HasNamedChunks, tt)
