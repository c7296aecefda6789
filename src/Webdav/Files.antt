-- ===== src/Webdav/Files.antt =====
-- PUT, DELETE and GET of crates/proxygit-server/src/webdav.rs on the map of files that the server
-- stands for.
use proxygit.Prelude.{
  ℕ, ◌≡◌, refl, ap, ◌∙◌, ◌⊎◌, inl, inr, false, List, [], ◌∷◌, length, map, All, is_empty, Option,
  none, some,
}
use proxygit.Bytes.{Bytes}
use proxygit.Bytes.Utf8.{text}
use proxygit.Result.{Result, ok, err, Error}
use proxygit.Cdc.{ChunkResult, default_config, process_buffer, reconstruct}
use proxygit.BlockStore.{Disk}
use proxygit.Indexer.{Tables, stat_file}
use proxygit.Server.{Env, Io, AppState, calm, query}
use proxygit.Server.Write.Readable.{HexLaw, IsHeld, read_blocks-reconstruct}
use proxygit.Server.Files.{FileMap, HoldsFile, Refines, HasNamedChunks, replaced}
use proxygit.Server.Files.Steps.{
  StoreOutcome, TableOutcome, store_file-StoreOutcome, ingest_content-TableOutcome,
  delete_file-TableOutcome,
}
use proxygit.Webdav.{
  HttpRequest, Http, make_http_response, plain, line, failed, got_blocks, got_entry, handle_get,
  put_indexed, put_stored, handle_put, deleted, handle_delete,
}

module _ (env : Env) (http : Http) (block_of : Bytes → Bytes) (files : FileMap) where
  -- The response of success with the file replaced, or the 500 of some error with the files as
  -- before.
  abbrev pub IsDone : ℕ → Bytes → Option Bytes → Bytes → AppState × Bytes → Type 0
  IsDone p path content success result =
      ((result.1 ≡ success) × Refines env block_of result.0 (replaced p path content files))
      ⊎ ((e : Error) × (result.1 ≡ failed env http e) × Refines env block_of result.0 files)

  module _ (io : Io) (p : ℕ) (path : Bytes) where
    put_indexed-IsDone :
        (content : Bytes) (st : AppState) (t : Result Tables)
        → Refines env block_of st files
        → TableOutcome env block_of st files p path (some content) t
        → IsDone p path
            (some content)
            (plain 201 (line (text "Created")))
            (put_indexed env http p st t)
    put_indexed-IsDone content st (err e) r o = inr (e, refl, r)
    put_indexed-IsDone content st (ok t) r o = inl (refl, o)

    put_stored-IsDone :
        (content : Bytes) (st : AppState) (ks : List ChunkResult) (s : Disk × Result (Unit {0}))
        → process_buffer env.blake3 default_config content ≡ some ks
        → StoreOutcome env block_of st files ks s
        → IsDone p path
            (some content)
            (plain 201 (line (text "Created")))
            (put_stored env http io p path st ks s)
    put_stored-IsDone content st ks (disk, err e) chunks o = inr (e, refl, o)
    put_stored-IsDone content st ks (disk, ok u) chunks (kept, held) =
        put_indexed-IsDone content (record st { disk = disk }) _ kept
          (ingest_content-TableOutcome env block_of io.ingest_fault io.now p path content ks
            (record st { disk = disk }) files chunks held kept)

    -- On a server that holds a map of files, and whatever fails, a PUT of a body with named chunks
    -- at a path that is not empty either is answered with 201, and the server holds the map with
    -- the file replaced by the body, or it is answered with 500, and the server holds the map as
    -- it was. BLAKE3 hashes have 32 bytes.
    pub handle_put-IsDone :
        ((d : Bytes) → length (env.blake3 d) ≡ 32)
        → (req : HttpRequest) (st : AppState) → is_empty path ≡ false
        → HasNamedChunks env block_of req.body
        → Refines env block_of st files
        → IsDone p path
            (some req.body)
            (plain 201 (line (text "Created")))
            (handle_put env http io req p path st)
    unfolding handle_put
    handle_put-IsDone wide req st full (ks, chunks, named) r =
        rw (full, chunks)
          (put_stored-IsDone req.body st ks _ chunks (
            store_file-StoreOutcome env block_of wide io.store_fault req.body ks st files chunks
              named r))

    deleted-IsDone :
        (st : AppState) (t : Result Tables)
        → Refines env block_of st files
        → TableOutcome env block_of st files p path none t
        → IsDone p path none (plain 204 []) (deleted env http p st t)
    deleted-IsDone st (err e) r o = inr (e, refl, r)
    deleted-IsDone st (ok t) r o = inl (refl, o)

    -- On a server that holds a map of files, a DELETE of a path that is not empty either is
    -- answered with 204, and the server holds the map without the file, which may not have been
    -- there, or it is answered with 500, and the server holds the map as it was.
    pub handle_delete-IsDone :
        (st : AppState)
        → is_empty path ≡ false
        → Refines env block_of st files
        → IsDone p path none (plain 204 []) (handle_delete env http io p path st)
    unfolding handle_delete
    handle_delete-IsDone st full r = rw full (
        deleted-IsDone st _ r
          (delete_file-TableOutcome env block_of io.ingest_fault p path st files r))

  -- The response to a lookup.
  abbrev pub got : Option Bytes → Bytes
  got none = plain 404 (line (text "File Not Found"))
  got (some content) = make_http_response 200 (text "application/octet-stream") content

  got_blocks-held :
      (now : ℕ) (disk : Disk) (ks : List ChunkResult)
      → HexLaw env
      → All (IsHeld env disk) ks
      → got_blocks env http
          (calm now)
          disk
          (ok (map (λ (k : ChunkResult). env.hex_encode k.hash) ks))
        ≡ got (some (reconstruct ks))
  unfolding reconstruct
  got_blocks-held now disk [] hex held = refl
  got_blocks-held now disk (k ∷ ks) hex held =
      rw (read_blocks-reconstruct env disk (k ∷ ks) hex held) refl

  got_entry-held :
      (now p : ℕ) (path : Bytes) (st : AppState) (content : Option Bytes)
      → HexLaw env
      → HoldsFile env st.disk (st.tables p) path content
      → got_entry env http (calm now) p path st (ok (stat_file path (st.tables p).files))
        ≡ got content
  unfolding query
  got_entry-held now p path st none hex h = rw h refl
  got_entry-held now p path st (some d) hex (at, ks, stat, blocks, held, joined) =
      rw (stat, blocks) (got_blocks-held now st.disk ks hex held ∙ ap (λ z. got (some z)) joined)

  -- On a server that holds a map of files and where nothing fails, a GET of a path that is not
  -- empty is answered with 200 and the content that the map has there, or with 404 if there is
  -- none. Hex encoding gives two digits for each byte.
  pub handle_get-got :
      HexLaw env
      → (now p : ℕ) (path : Bytes) (st : AppState) → is_empty path ≡ false
      → Refines env block_of st files
      → handle_get env http (calm now) p path st ≡ got (files p path)
  unfolding handle_get query
  handle_get-got hex now p path st full r =
      rw full (got_entry-held now p path st (files p path) hex (r.holds p path))
