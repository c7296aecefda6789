-- ===== src/Server/Files/Writes.antt =====
-- The write handlers of crates/proxygit-server/src/lib.rs as replacements of one file.
use proxygit.Prelude.{ℕ, ◌≡◌, refl, ◌⊎◌, inl, inr, List, length, Option, none, some}
use proxygit.Bytes.{Bytes}
use proxygit.Result.{Result, ok, err}
use proxygit.Protocol.Frame.{Frame}
use proxygit.Protocol.Payload.{decode_write_payload}
use proxygit.Cdc.{ChunkResult, default_config, process_buffer}
use proxygit.BlockStore.{Disk}
use proxygit.Indexer.{Tables, ingest_chunks}
use proxygit.Paths.{sanitize_path}
use proxygit.Server.{Env, Io, AppState, write_ack}
use proxygit.Server.Write.{
  indexed, index_write, write_stored, write_path, write_decoded, handle_write_blocks,
}
use proxygit.Server.Write.Atomic.{IsErrorReply}
use proxygit.Server.Files.{FileMap, replaced, Refines, HasNamedChunks}
use proxygit.Server.Files.Steps.{
  StoreOutcome, TableOutcome, store_file-StoreOutcome, ingest_content-TableOutcome,
}

abbrev written_at : Bytes → Result Bytes → Option (Bytes × Bytes)
written_at content (err e) = none
written_at content (ok path) = some (path, content)

abbrev written_in : Result (Bytes × Bytes) → Option (Bytes × Bytes)
written_in (err e) = none
written_in (ok (raw, content)) = written_at content (sanitize_path raw)

-- The path and the content that the frame of a plain write asks for, if it asks for any.
abbrev pub written : Frame → Option (Bytes × Bytes)
written frame = written_in (decode_write_payload frame.payload)

-- The content that is to be written has named chunks.
abbrev pub AsksNamed : Env → (Bytes → Bytes) → Option (Bytes × Bytes) → Type 0
AsksNamed env block_of none = Unit
AsksNamed env block_of (some (path, content)) = HasNamedChunks env block_of content

module _ (env : Env) (block_of : Bytes → Bytes) (p : ℕ) (files : FileMap) where
  -- The write was acknowledged and the file is replaced.
  abbrev pub IsWritten : Frame → Bytes → Bytes → AppState × Result Frame → Type 0
  IsWritten frame path content result =
      (result.1 ≡ ok (write_ack env frame path content))
      × Refines env block_of result.0 (replaced p path (some content) files)

  -- No reply or a MSG_ERROR, and the files are as before.
  abbrev pub IsUnwritten : AppState × Result Frame → Type 0
  IsUnwritten result = IsErrorReply result.1 × Refines env block_of result.0 files

  abbrev pub IsAnswered : Frame → Option (Bytes × Bytes) → AppState × Result Frame → Type 0
  IsAnswered frame none result = IsUnwritten result
  IsAnswered frame (some (path, content)) result =
      IsWritten frame path content result ⊎ IsUnwritten result

module _ (env : Env) (block_of : Bytes → Bytes) (io : Io) (frame : Frame) (files : FileMap) where
  -- The end of a write, from what its transaction left.
  indexed-IsAnswered :
      (st : AppState) (path content : Bytes) (t : Result Tables)
      → Refines env block_of st files
      → TableOutcome env block_of st files frame.project_id path (some content) t
      → IsAnswered env block_of frame.project_id files frame
          (some (path, content))
          (indexed env frame st path content t)
  indexed-IsAnswered st path content (err e) r o = inr (tt, r)
  indexed-IsAnswered st path content (ok t) r o =
      inl (refl, record { addressed = o.addressed; holds = o.holds })

  pub index_write-IsAnswered :
      (st : AppState) (path content : Bytes) (ks : List ChunkResult)
      → Refines env block_of st files
      → TableOutcome env block_of st files frame.project_id path (some content) (
          ingest_chunks env.blake3 env.hex_encode io.ingest_fault io.now path ks
            (st.tables frame.project_id))
      → IsAnswered env block_of frame.project_id files frame
          (some (path, content))
          (index_write env io frame st path content ks)
  unfolding index_write
  index_write-IsAnswered st path content ks r o = indexed-IsAnswered st path content _ r o

  module _ (wide : (d : Bytes) → length (env.blake3 d) ≡ 32) (st : AppState)
      (r : Refines env block_of st files) where
    stored-IsAnswered :
        (path content : Bytes) (ks : List ChunkResult) (s : Disk × Result (Unit {0}))
        → process_buffer env.blake3 default_config content ≡ some ks
        → StoreOutcome env block_of st files ks s
        → IsAnswered env block_of frame.project_id files frame
            (some (path, content))
            (write_stored env io frame st path content ks s)
    stored-IsAnswered path content ks (disk, err e) chunks o = inr (tt, o)
    stored-IsAnswered path content ks (disk, ok u) chunks (kept, held) =
        index_write-IsAnswered (record st { disk = disk }) path content ks kept
          (ingest_content-TableOutcome env block_of io.ingest_fault io.now frame.project_id path
            content ks (record st { disk = disk }) files chunks held kept)

    path-IsAnswered :
        (content : Bytes) (path : Result Bytes)
        → AsksNamed env block_of (written_at content path)
        → IsAnswered env block_of frame.project_id files frame
            (written_at content path)
            (write_path env io frame st content path)
    path-IsAnswered content (err e) named = (refl, r)
    path-IsAnswered content (ok path) (ks, chunks, named) = rw chunks (
        stored-IsAnswered path content ks _ chunks (
          store_file-StoreOutcome env block_of wide io.store_fault content ks st files chunks named
            r))

    decoded-IsAnswered :
        (payload : Result (Bytes × Bytes))
        → AsksNamed env block_of (written_in payload)
        → IsAnswered env block_of frame.project_id files frame
            (written_in payload)
            (write_decoded env io frame st payload)
    decoded-IsAnswered (err e) named = (refl, r)
    decoded-IsAnswered (ok (raw, content)) named = path-IsAnswered content (sanitize_path raw) named

    -- On a server that holds a map of files, and whatever fails, a plain write of content whose
    -- chunks are named either is acknowledged with the hash of the content, and the server holds
    -- the map with the file replaced, or it is not acknowledged and the server holds the map as it
    -- was. A frame that asks for no write is not acknowledged. BLAKE3 hashes have 32 bytes.
    pub handle_write_blocks-IsAnswered :
        AsksNamed env block_of (written frame)
        → IsAnswered env block_of frame.project_id files frame
            (written frame)
            (handle_write_blocks env io frame st)
    unfolding handle_write_blocks
    handle_write_blocks-IsAnswered named =
        decoded-IsAnswered (decode_write_payload frame.payload) named
