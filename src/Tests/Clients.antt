-- ===== src/Tests/Clients.antt =====
-- Runs of the client against the server.
use proxygit.Prelude.{
  ℕ, ◌≡◌, ◌≤◌, refl, inl, inr, true, false, List, [], ◌∷◌, ◌++◌, map, length, none, arith,
  Bool-cases,
}
use proxygit.Bytes.{Bytes, le_bytes, bytes_eq}
use proxygit.Bytes.Ascii.{split}
use proxygit.Bytes.Utf8.{text, utf8_from, lead}
use proxygit.Result.{Error, server_error}
use proxygit.Protocol.Message.{max_payload_size}
use proxygit.Protocol.Sparse.{encode_sparse_write}
use proxygit.Protocol.Payload.{encode_hash_list}
use proxygit.BlockStore.{mem_bytes}
use proxygit.Indexer.{FileEntry}
use proxygit.Server.{calm, last_writer_wins}
use proxygit.Client.{ClientEnv, full_chunks, clear_known, send_write}
use proxygit.Client.Link.{delivered, via}
use proxygit.Client.Sent.{IsSent, send_write-IsSent}
use proxygit.Client.Tree.{
  build_project_tree_from_entries, files_at, files_in, files_at-build_project_tree_from_entries,
}
use proxygit.Wal.{WalRecord}
use proxygit.Wal.Diff.{chunks, chunks_from, apply_patch, apply_patches, build_sparse_diff, diff}
use proxygit.Wal.Flush.{flush_path}
use proxygit.Wal.Flushed.{IsFlushed, flush_path-IsFlushed}
use proxygit.Wal.Patches.{apply_patches_idempotent}
use proxygit.Wal.Commit.{Commits, idle}
use proxygit.Tests.{digest, digest-wide, marking, marking_laws, env, env_hex, fresh, tar}
use proxygit.Tests.Servers.{block_of, sanitized}
use proxygit.Tests.Refinements.{no_files, fresh-Refines}

abbrev message_of : Error → Bytes
message_of (server_error m) = text "Server error: " ++ m
message_of e = []

abbrev cenv : ClientEnv
cenv = record {
  blake3 = digest;
  zstd = marking;
  zstd_enabled = false;
  write_conflict = [];
  entry_from_slice = λ bs. none;
  entries_from_slice = λ bs. none;
  strings_from_slice = λ bs. none;
  from_slice = λ bs. none;
  display = message_of;
}

plain_path : utf8_from [] (text "a") ≡ true
unfolding utf8_from lead
plain_path = refl

one_block : chunks 65536 (text "data") ≡ text "data" ∷ []
unfolding chunks chunks_from
one_block = refl

sent_fits :
    (known : List Bytes)
    → length (
        encode_sparse_write marking false
          (text "a")
          (clear_known cenv known (full_chunks cenv (text "data")))
          none)
      ≤ max_payload_size
unfolding clear_known encode_sparse_write le_bytes
sent_fits known = rw one_block (elim (Bool-cases (mem_bytes (digest (text "data")) known)) [
  | inl e ↦ rw e (omega arith)
  | inr e ↦ rw e (omega arith)
])

send_write-IsSent_example :
    IsSent env cenv block_of refl digest-wide tar
      (λ k. (calm k, delivered))
      marking_laws
      refl
      7
      (omega arith)
      (text "a")
      (text "a")
      (text "data")
      none
      plain_path
      (omega arith)
      sanitized
      tt
      (omega arith)
      (rw one_block (refl, tt))
      no_files
      (send_write cenv
        (via env tar (λ k. (calm k, delivered)))
        7
        (text "a")
        (text "data")
        none
        (fresh none last_writer_wins, 0))
unfolding encode_hash_list le_bytes
send_write-IsSent_example =
    send_write-IsSent env cenv block_of refl digest-wide tar (λ k. (calm k, delivered)) marking_laws
      refl 7 (omega arith) (text "a") (text "a") (text "data") none plain_path (omega arith)
      sanitized tt (omega arith) (rw one_block (refl, tt)) no_files (fresh none last_writer_wins) 0
      sent_fits (rw one_block (omega arith)) (omega arith) fresh-Refines

abbrev entries : List FileEntry
entries = map named (text "src/lib.rs" ∷ text "src/main.rs" ∷ text "README.md" ∷ [])
  where
    named : Bytes → FileEntry
    named path = record { path = path; size = 3; mtime = 1; mode = 420; tree_hash = [] }

files_at-build_project_tree_from_entries_example :
    files_at (text "src" ∷ []) (build_project_tree_from_entries entries)
    ≡ (text "lib.rs", 3) ∷ (text "main.rs", 3) ∷ []
unfolding files_in split bytes_eq
files_at-build_project_tree_from_entries_example =
    files_at-build_project_tree_from_entries entries (text "src" ∷ [])

abbrev checksum : Bytes → ℕ
checksum bs = 0

abbrev patch : WalRecord
patch = record { seq = 1; path = text "a"; offset = 0; content = text "data" }

apply_patches_idempotent_example :
    apply_patches (patch ∷ []) (apply_patches (patch ∷ []) (text "longer"))
    ≡ apply_patches (patch ∷ []) (text "longer")
apply_patches_idempotent_example = apply_patches_idempotent (patch ∷ []) (text "longer")

patched : apply_patches (patch ∷ []) [] ≡ text "data"
unfolding apply_patches apply_patch
patched = refl

flush_path-IsFlushed_example :
    IsFlushed env cenv block_of refl digest-wide checksum tar
      (λ k. (calm k, delivered))
      env_hex
      7
      (omega arith)
      (text "a")
      (text "a")
      plain_path
      (omega arith)
      sanitized
      no_files
      (fresh none last_writer_wins)
      fresh-Refines
      (λ m. refl)
      (omega arith)
      (omega arith)
      0
      0
      refl
      (patch ∷ [])
      (flush_path cenv checksum
        (via env tar (λ k. (calm k, delivered)))
        7
        (text "a")
        (patch ∷ [])
        (fresh none last_writer_wins, 0))
unfolding apply_patches apply_patch build_sparse_diff diff encode_sparse_write le_bytes
flush_path-IsFlushed_example =
    flush_path-IsFlushed env cenv block_of refl digest-wide checksum tar (λ k. (calm k, delivered))
      env_hex 7 (omega arith) (text "a") (text "a") plain_path (omega arith) sanitized no_files
      (fresh none last_writer_wins) fresh-Refines (λ m. refl) (omega arith) (omega arith) 0 0 refl
      (patch ∷ []) marking_laws refl (refl, tt) (omega arith) (omega arith) (omega arith)

-- An entry is appended, its writer waits, and a commit makes it durable.
abbrev committed : Commits
committed = record {
  appended = 1;
  synced = 1;
  needs_commit = false;
  committer = idle;
  flusher = idle;
  waiting = [];
  told = 1 ∷ [];
}
