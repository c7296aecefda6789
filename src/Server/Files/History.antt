-- ===== src/Server/Files/History.antt =====
-- The streams of a connection, `serve` over crates/proxygit-server/src/lib.rs, as a history of the
-- map of files.
use proxygit.Prelude.{
  ℕ, ◌≡◌, refl, sym, ◌∙◌, subst, inl, inr, Bool, true, false, ◌||◌, List, [], ◌∷◌, ◌++◌, map, All,
  ◌==◌, length, if◌then◌else◌, Option, none, some, arith, Bool-cases,
}
use proxygit.Bytes.{Bytes}
use proxygit.Bytes.Utf8.{text, from_utf8_lossy}
use proxygit.Result.{Result, ok, err, Error}
use proxygit.Protocol.Message.{
  msg_list_project, msg_read_file, msg_write_blocks, msg_stat_file, msg_block_request,
  msg_get_project_map, msg_semantic_search, msg_create_backup, msg_list_backups, msg_has_blocks,
  msg_write_blocks_sparse, msg_error,
}
use proxygit.Protocol.Frame.{Frame, recv_frame}
use proxygit.Paths.{sanitize_path}
use proxygit.Server.{Env, Io, AppState, reply, zero_hash, write_ack}
use proxygit.Server.Read.{
  handle_get_project_map, handle_read_file, handle_stat_file, handle_block_request,
  handle_has_blocks, handle_semantic_search,
}
use proxygit.Server.Write.{handle_write_blocks, handle_write_blocks_sparse}
use proxygit.Server.Write.Atomic.{IsErrorReply}
use proxygit.Server.Write.Readable.{HexLaw}
use proxygit.Server.Backup.{
  Files, Archive, created, create_project_backup, backed_up, backup_bytes, handle_create_backup,
  handle_list_backups,
}
use proxygit.Server.Session.{seen, hex_byte, dispatch, replied, received, handle_bi_stream, serve}
use proxygit.Server.Files.{FileMap, Refines, replaced}
use proxygit.Server.Files.Writes.{AsksNamed, IsAnswered, written, handle_write_blocks-IsAnswered}
use proxygit.Server.Files.Sparse.{
  AsksNamedPieces, sparse_written, handle_write_blocks_sparse-IsAnswered,
}
use proxygit.Server.Files.Reads.{read_reply, handle_read_file-read_reply, handle_read_file-IsRead}

-- The request is a read or a write.
abbrev pub is_file_access : ℕ → Bool
is_file_access m = m == msg_read_file || (m == msg_write_blocks || m == msg_write_blocks_sparse)

module _ (env : Env) (block_of : Bytes → Bytes) where
  -- The file that a frame asks to write, if it is of one of the two kinds.
  abbrev pub asked : Frame → Option (Bytes × Bytes)
  asked frame =
      if frame.msg_type == msg_write_blocks
      then written frame
      else if frame.msg_type == msg_write_blocks_sparse
      then sparse_written env block_of frame
      else none

  abbrev pub IsNamedFrame : Frame → Type 0
  IsNamedFrame frame =
      if frame.msg_type == msg_write_blocks
      then AsksNamed env block_of (written frame)
      else if frame.msg_type == msg_write_blocks_sparse
      then AsksNamedPieces env block_of frame
      else Unit

  abbrev IsNamedRead : Result (Frame × Bytes) → Type 0
  IsNamedRead (err e) = Unit
  IsNamedRead (ok (frame, rest)) = IsNamedFrame frame

  -- A write that the stream asks for has named chunks.
  abbrev pub IsNamedStream : Bytes → Type 0
  IsNamedStream stream = IsNamedRead (recv_frame stream)

  -- How one frame, with its answer, changes the map of files.
  pub data Step (files : FileMap) (frame : Frame) : Result Frame → FileMap → Type 0 where
    wrote :
        {path content : Bytes}
        → asked frame ≡ some (path, content)
        → Step files frame
            (ok (write_ack env frame path content))
            (replaced frame.project_id path (some content) files)
    read :
        frame.msg_type ≡ msg_read_file
        → Step files frame
            (ok (read_reply env frame files (sanitize_path (from_utf8_lossy frame.payload))))
            files
    failed : {answer : Result Frame} → IsErrorReply answer → Step files frame answer files
    other :
        {answer : Result Frame}
        → is_file_access frame.msg_type ≡ false
        → Step files frame answer files

  -- The answers to the streams, in turn, and the map that is left.
  pub data History : FileMap → List Bytes → List (Result Frame) → FileMap → Type 0 where
    finished : {files : FileMap} → History files [] [] files
    broken :
        {files files' : FileMap} {stream : Bytes} {streams : List Bytes} {e : Error}
        {answers : List (Result Frame)}
        → recv_frame stream ≡ err e
        → History files streams answers files'
        → History files (stream ∷ streams) (err e ∷ answers) files'
    step :
        {files files' files'' : FileMap} {stream rest : Bytes} {streams : List Bytes}
        {frame : Frame} {answer : Result Frame} {answers : List (Result Frame)}
        → recv_frame stream ≡ ok (frame, rest)
        → Step files frame answer files'
        → History files' streams answers files''
        → History files (stream ∷ streams) (answer ∷ answers) files''

  -- The result of a step: it is explained, and the state holds the map after it.
  abbrev pub IsStep : FileMap → Frame → AppState × Result Frame → Type 0
  IsStep files frame result =
      (files' : FileMap) × Step files frame result.1 files' × Refines env block_of result.0 files'

  module _ (archive : Archive) (hex : HexLaw env)
      (wide : (d : Bytes) → length (env.blake3 d) ≡ 32) where
    answered-IsStep :
        (files : FileMap) (frame : Frame) (o : Option (Bytes × Bytes))
        (result : AppState × Result Frame)
        → asked frame ≡ o
        → IsAnswered env block_of frame.project_id files frame o result
        → IsStep files frame result
    answered-IsStep files frame none result a (e, r) = (files, failed e, r)
    answered-IsStep files frame (some (path, d)) result a (inl (done, r)) = (
      replaced frame.project_id path (some d) files,
      subst (λ z. Step files frame z (replaced frame.project_id path (some d) files)) (sym done)
          (wrote a),
      r,
    )
    answered-IsStep files frame (some (path, d)) result a (inr (e, r)) = (files, failed e, r)

    made-IsStep :
        (files : FileMap) (frame : Frame) (backups : ℕ → Files) (st : AppState)
        (size : Result (Bytes × ℕ))
        → is_file_access frame.msg_type ≡ false
        → Refines env block_of st files
        → IsStep files frame (
            replied env archive (created env archive frame (record st { backups = backups }, size)))
    made-IsStep files frame backups st (ok b) kind r =
        (files, other kind, record { addressed = r.addressed; holds = r.holds })
    made-IsStep files frame backups st (err e) kind r =
        (files, other kind, record { addressed = r.addressed; holds = r.holds })

    created-IsStep :
        (io : Io) (files : FileMap) (frame : Frame) (st : AppState)
        → is_file_access frame.msg_type ≡ false
        → Refines env block_of st files
        → IsStep files frame (replied env archive (handle_create_backup env archive io frame st))
    unfolding handle_create_backup create_project_backup
    created-IsStep io files frame st kind r =
        packed (backup_bytes env archive io st frame.project_id)
      where
        packed :
            (b : Result Bytes)
            → IsStep files frame (
                replied env archive
                  (created env archive frame (backed_up env archive io st frame.project_id b)))
        packed (err e) = (files, other kind, r)
        packed (ok bytes) = made-IsStep files frame _ st _ kind r

    read-IsStep :
        (io : Io) (files : FileMap) (frame : Frame) (st : AppState)
        → frame.msg_type ≡ msg_read_file
        → Refines env block_of st files
        → IsStep files frame (st, ok (handle_read_file env io frame st))
    read-IsStep io files frame st kind r =
        elim (handle_read_file-IsRead env frame files hex io.now st io) [
          | inl same ↦
              let reply =
                same ∙ handle_read_file-read_reply env frame files hex io.now st block_of r in
              (files, subst (λ z. Step files frame (ok z) files) (sym reply) (read kind), r)
          | inr e ↦ (files, failed e, r)
        ]

    unchanged-IsStep :
        (files : FileMap) (frame : Frame) (st : AppState) (answer : Result Frame)
        → is_file_access frame.msg_type ≡ false
        → Refines env block_of st files
        → IsStep files frame (st, answer)
    unchanged-IsStep files frame st answer kind r = (files, other kind, r)

    -- The write handlers, by the type of the frame.
    write-IsStep :
        (io : Io) (files : FileMap) (frame : Frame) (st : AppState)
        → (frame.msg_type == msg_write_blocks) ≡ true
        → IsNamedFrame frame
        → Refines env block_of st files
        → IsStep files frame (handle_write_blocks env io frame st)
    write-IsStep io files frame st kind named r =
        answered-IsStep files frame (written frame) _ (rw kind refl)
          (handle_write_blocks-IsAnswered env block_of io frame files wide st r (rw kind at named))

    sparse-IsStep :
        (io : Io) (files : FileMap) (frame : Frame) (st : AppState)
        → (frame.msg_type == msg_write_blocks) ≡ false
        → (frame.msg_type == msg_write_blocks_sparse) ≡ true
        → IsNamedFrame frame
        → Refines env block_of st files
        → IsStep files frame (handle_write_blocks_sparse env io frame st)
    sparse-IsStep io files frame st n kind named r =
        answered-IsStep files frame (sparse_written env block_of frame) _ (rw (n, kind) refl) (
          handle_write_blocks_sparse-IsAnswered env block_of io frame files st r
            (rw (n, kind) at named))

    either-IsStep :
        (files : FileMap) (frame : Frame) (c : Bool) (one two : AppState × Result Frame)
        → IsStep files frame one
        → IsStep files frame two
        → IsStep files frame (if c then one else two)
    either-IsStep files frame true one two a b = a
    either-IsStep files frame false one two a b = b

    differs :
        (m d : ℕ)
        → (m == msg_write_blocks_sparse) ≡ true
        → (msg_write_blocks_sparse == d) ≡ false
        → (m == d) ≡ false
    differs m d t h = ground (arith, t, h)

    dispatch-IsStep :
        (io : Io) (files : FileMap) (frame : Frame) (st : AppState)
        → IsNamedFrame frame
        → Refines env block_of st files
        → IsStep files frame (dispatch env archive io frame st)
    unfolding dispatch
    dispatch-IsStep io files frame st named r =
        elim (Bool-cases (frame.msg_type == msg_list_project)) [
          | inl t ↦ rw t (unchanged-IsStep files frame st _ (ground (arith, t)) r)
          | inr n1 ↦ rw n1 (elim (Bool-cases (frame.msg_type == msg_read_file)) [
            | inl t ↦ rw t (read-IsStep io files frame st (ground (arith, t)) r)
            | inr n2 ↦ rw n2 (elim (Bool-cases (frame.msg_type == msg_write_blocks)) [
              | inl t ↦ rw t (write-IsStep io files frame st t named r)
              | inr n3 ↦ rw n3 (elim (Bool-cases (frame.msg_type == msg_write_blocks_sparse)) [
                | inl t ↦
                    rw
                      (
                        differs frame.msg_type msg_stat_file t refl,
                        differs frame.msg_type msg_block_request t refl,
                        differs frame.msg_type msg_get_project_map t refl,
                        differs frame.msg_type msg_semantic_search t refl,
                        differs frame.msg_type msg_create_backup t refl,
                        differs frame.msg_type msg_list_backups t refl,
                        differs frame.msg_type msg_has_blocks t refl,
                        t,
                      )
                      (sparse-IsStep io files frame st n3 t named r)
                | inr n4 ↦
                    let kind : is_file_access frame.msg_type ≡ false = rw (n2, n3, n4) refl in
                    rw n4 (rest kind)
              ])
            ])
          ])
        ]
      where
        unchanged :
            (answer : Result Frame)
            → is_file_access frame.msg_type ≡ false
            → IsStep files frame (st, answer)
        unchanged answer kind = unchanged-IsStep files frame st answer kind r

        rest :
            is_file_access frame.msg_type ≡ false
            → IsStep files frame (
                if frame.msg_type == msg_stat_file
                then (st, ok (handle_stat_file env io frame st))
                else if frame.msg_type == msg_block_request
                then (st, ok (handle_block_request env frame (seen env archive io st)))
                else if frame.msg_type == msg_get_project_map
                then (st, ok (handle_get_project_map env io frame st))
                else if frame.msg_type == msg_semantic_search
                then (st, ok (handle_semantic_search env frame st))
                else if frame.msg_type == msg_create_backup
                then replied env archive (handle_create_backup env archive io frame st)
                else if frame.msg_type == msg_list_backups
                then (st, ok (handle_list_backups env io frame st))
                else if frame.msg_type == msg_has_blocks
                then (st, ok (handle_has_blocks env frame (seen env archive io st)))
                else (
                  st,
                  ok (
                      reply msg_error 0 zero_hash
                        (text "Unknown message type: " ++ hex_byte frame.msg_type)),
                ))
        rest kind =
            either-IsStep files frame (frame.msg_type == msg_stat_file) _ _ (unchanged _ kind) (
              either-IsStep files frame (frame.msg_type == msg_block_request) _ _ (unchanged _ kind)
                (either-IsStep files frame (frame.msg_type == msg_get_project_map) _ _
                  (unchanged _ kind)
                  (either-IsStep files frame (frame.msg_type == msg_semantic_search) _ _
                    (unchanged _ kind)
                    (either-IsStep files frame (frame.msg_type == msg_create_backup) _ _
                      (created-IsStep io files frame st kind r)
                      (either-IsStep files frame (frame.msg_type == msg_list_backups) _ _
                        (unchanged _ kind)
                        (either-IsStep files frame (frame.msg_type == msg_has_blocks) _ _
                          (unchanged _ kind) (unchanged _ kind)))))))

    -- On a server that holds a map of files, and whatever fails, the answers to any streams, one
    -- after another, are a history of the map: each acknowledged write replaces its file, each
    -- read that is not refused returns what the map has at that point, each request that fails
    -- and each of another kind leaves the map, and the server holds the map at the end of the
    -- history. The writes have named chunks; BLAKE3 hashes have 32 bytes and hex encoding gives
    -- two digits for each byte.
    pub serve-History :
        (streams : List (Io × Bytes)) (st : AppState) (files : FileMap)
        → All (λ (s : Io × Bytes). IsNamedStream s.1) streams
        → Refines env block_of st files
        → (files' : FileMap) × History files
            (map (λ (s : Io × Bytes). s.1) streams)
            (serve env archive streams st).1
            files'
          × Refines env block_of (serve env archive streams st).0 files'
    unfolding serve handle_bi_stream
    serve-History [] st files named r = (files, finished, r)
    serve-History ((io, stream) ∷ streams) st files (n, named) r =
        next (recv_frame stream) refl n (λ st' files' r'. serve-History streams st' files' named r')
      where
        Later : AppState → FileMap → Type 0
        Later st' f =
            (files' : FileMap) × History f (map (λ (s : Io × Bytes). s.1) streams)
              (serve env archive streams st').1 files'
            × Refines env block_of (serve env archive streams st').0 files'

        next :
            (read : Result (Frame × Bytes))
            → recv_frame stream ≡ read
            → IsNamedRead read
            → ((st' : AppState) (f : FileMap) → Refines env block_of st' f → Later st' f)
            → (files' : FileMap) × History files
                (stream ∷ map (λ (s : Io × Bytes). s.1) streams)
                ((received env archive io st read).1
                  ∷ (serve env archive streams (received env archive io st read).0).1)
                files'
              × Refines env block_of
                  (serve env archive streams (received env archive io st read).0).0
                  files'
        next (err e) seen nm later =
            let (files', h, r') = later st files r in (files', broken seen h, r')
        next (ok (frame, rest)) seen nm later =
            let (f, s, r1) = dispatch-IsStep io files frame st nm r in
            let (files', h, r') = later (dispatch env archive io frame st).0 f r1 in
            (files', step seen s h, r')
