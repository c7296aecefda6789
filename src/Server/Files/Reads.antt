-- ===== src/Server/Files/Reads.antt =====
-- Reads of crates/proxygit-server/src/lib.rs as lookups in the map of files.
use proxygit.Prelude.{
  ℕ, ◌≡◌, refl, ap, ◌∙◌, ◌⊎◌, inl, inr, List, [], ◌∷◌, ◌==◌, Bool-cases, Option-cases, Option, none,
  some, ◌++◌,
}
use proxygit.Bytes.{Bytes}
use proxygit.Bytes.Utf8.{text, from_utf8_lossy}
use proxygit.Result.{Result, ok, err}
use proxygit.Protocol.Message.{msg_read_file_resp, msg_error}
use proxygit.Protocol.Frame.{Frame}
use proxygit.Indexer.{FileEntry, stat_file, get_file_blocks}
use proxygit.Paths.{sanitize_path}
use proxygit.Server.{Env, Io, AppState, calm, refuse, hashed, query}
use proxygit.Server.Read.{fetch_blocks, fetch, verify, read_entry, read_path, handle_read_file}
use proxygit.Server.Write.Readable.{HexLaw, handle_read_file-entry}
use proxygit.Server.Files.{FileMap, HoldsFile, Refines}

module _ (env : Env) (frame : Frame) (files : FileMap) where
  -- The reply to a lookup.
  abbrev pub looked_up : Bytes → Option Bytes → Frame
  looked_up path none = refuse frame (text "File not found: " ++ path)
  looked_up path (some content) = hashed env msg_read_file_resp frame content

  abbrev pub read_reply : Result Bytes → Frame
  read_reply (err e) = refuse frame (env.display e)
  read_reply (ok path) = looked_up path (files frame.project_id path)

  module _ (hex : HexLaw env) (now : ℕ) (st : AppState) where
    held-reply :
        (path : Bytes) (content : Option Bytes)
        → sanitize_path (from_utf8_lossy frame.payload) ≡ ok path
        → HoldsFile env st.disk (st.tables frame.project_id) path content
        → handle_read_file env (calm now) frame st ≡ looked_up path content
    unfolding handle_read_file query
    held-reply path none clean h = rw (clean, h) refl
    held-reply path (some d) clean (at, ks, stat, blocks, held, joined) =
        handle_read_file-entry env frame st path at now ks hex held stat blocks clean
        ∙ ap (λ z. hashed env msg_read_file_resp frame z) joined

    -- On a server that holds a map of files and where nothing fails, the reply to a read is the
    -- content that the map has at the sanitized path, with its hash; a MSG_ERROR that there is no
    -- such file; or one that the path is refused. Hex encoding gives two digits for each byte.
    pub handle_read_file-read_reply :
        (block_of : Bytes → Bytes)
        → Refines env block_of st files
        → handle_read_file env (calm now) frame st
          ≡ read_reply (sanitize_path (from_utf8_lossy frame.payload))
    unfolding handle_read_file
    handle_read_file-read_reply block_of r =
        sanitized (sanitize_path (from_utf8_lossy frame.payload)) refl
      where
        sanitized :
            (path : Result Bytes)
            → sanitize_path (from_utf8_lossy frame.payload) ≡ path
            → handle_read_file env (calm now) frame st ≡ read_reply path
        sanitized (err e) clean = rw clean refl
        sanitized (ok path) clean =
            held-reply path (files frame.project_id path) clean (r.holds frame.project_id path)

    -- A read that meets a fault is answered as without it, or with a MSG_ERROR.
    abbrev pub IsRead : Frame → Frame → Type 0
    IsRead expected answer = (answer ≡ expected) ⊎ (answer.msg_type ≡ msg_error)

    verified_or_failed :
        (io : Io) (path : Bytes) (entry : FileEntry)
        → IsRead
            (verify env frame entry (fetch env (calm now) frame st path entry))
            (verify env frame entry (fetch env io frame st path entry))
    unfolding fetch verify query
    verified_or_failed io path entry = elim (Bool-cases (entry.size == 0)) [
      | inl t ↦ rw t (inl refl)
      | inr t ↦ rw t (elim (Option-cases io.blocks_fault) [
        | inr (e, b) ↦ rw b (inr refl)
        | inl b ↦ rw b (blocks (get_file_blocks path (st.tables frame.project_id).file_blocks))
      ])
    ]
      where
        blocks :
            (bs : List Bytes)
            → IsRead
                (verify env frame entry (fetch_blocks env (calm now) st.disk (ok bs)))
                (verify env frame entry (fetch_blocks env io st.disk (ok bs)))
        blocks [] = inl refl
        blocks (b ∷ bs) = elim (Option-cases io.read_fault) [
          | inr (e, f) ↦ rw (f, verify) (inr refl)
          | inl f ↦ rw f (inl refl)
        ]

    entry_or_failed :
        (io : Io) (path : Bytes) (found : Option FileEntry)
        → IsRead
            (read_entry env (calm now) frame st path (ok found))
            (read_entry env io frame st path (ok found))
    entry_or_failed io path none = inl refl
    entry_or_failed io path (some entry) = verified_or_failed io path entry

    pub handle_read_file-IsRead :
        (io : Io)
        → IsRead (handle_read_file env (calm now) frame st) (handle_read_file env io frame st)
    unfolding handle_read_file query
    handle_read_file-IsRead io = sanitized (sanitize_path (from_utf8_lossy frame.payload))
      where
        sanitized :
            (path : Result Bytes)
            → IsRead (read_path env (calm now) frame st path) (read_path env io frame st path)
        sanitized (err e) = inl refl
        sanitized (ok path) = elim (Option-cases io.stat_fault) [
          | inr (e, s) ↦ rw s (inr refl)
          | inl s ↦
              rw s (entry_or_failed io path (stat_file path (st.tables frame.project_id).files))
        ]
