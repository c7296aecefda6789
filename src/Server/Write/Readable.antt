-- ===== src/Server/Write/Readable.antt =====
-- What was indexed over stored chunks is what a read returns.
use proxygit.Prelude.{
  ℕ, ◌*◌, ◌≤◌, ◌≡◌, refl, sym, ap, subst, inl, inr, List, [], ◌∷◌, map, take, All, length,
  length-append, ◌==◌, some, arith, Bool-cases, Option-cases,
}
use proxygit.Bytes.{Bytes}
use proxygit.Bytes.Laws.{bytes_eq_refl}
use proxygit.Bytes.Utf8.{from_utf8_lossy}
use proxygit.Result.{ok}
use proxygit.Protocol.Message.{msg_read_file_resp}
use proxygit.Protocol.Frame.{Frame}
use proxygit.Cdc.{ChunkResult, reconstruct}
use proxygit.BlockStore.{
  Disk, Stored, find_stored, block_prefix, get_block, hex_prefix, read_blocks,
}
use proxygit.Indexer.{Tables, stat_file, get_file_blocks, total_size, entry_for}
use proxygit.Indexer.Laws.{IsIngested}
use proxygit.Paths.{sanitize_path}
use proxygit.Server.{Env, AppState, calm, query, hashed}
use proxygit.Server.Read.{content, fetch, verify, handle_read_file}

-- What the code relies on: `hex::encode` gives two digits for each byte.
abbrev pub HexLaw : Env → Type 0
HexLaw env = (bs : Bytes) → length (env.hex_encode bs) ≡ 2 * length bs

-- A chunk whose block the disk has under its hash, with its recorded size.
abbrev pub IsHeld : Env → Disk → ChunkResult → Type 0
IsHeld env disk k =
    (get_block env.hex_encode disk k.hash ≡ some k.content)
    × (k.size ≡ length k.content)
    × (1 ≤ length k.hash)

total_size-reconstruct :
    (env : Env) (disk : Disk) (ks : List ChunkResult)
    → All (IsHeld env disk) ks
    → total_size ks ≡ length (reconstruct ks)
unfolding reconstruct
total_size-reconstruct env disk [] h = refl
total_size-reconstruct env disk (k ∷ ks) ((g, s, l), hs) =
    omega (arith, length-append k.content (reconstruct ks), total_size-reconstruct env disk ks hs)

get_block-found :
    (env : Env) (disk : Disk) (h d : Bytes)
    → get_block env.hex_encode disk h ≡ some d
    → (f : Stored) × (find_stored (block_prefix env.hex_encode h) (env.hex_encode h) disk.stored
        ≡ some f)
      × (f.content ≡ d)
unfolding get_block
get_block-found env disk h d e =
    elim (Option-cases
      (find_stored (block_prefix env.hex_encode h) (env.hex_encode h) disk.stored)) [
        | inl n ↦ cc (rw (n, get_block) at e)
        | inr (f, found) ↦ (f, found, cc (rw (found, get_block) at e))
      ]

hex_prefix-long : (n : Bytes) → 2 ≤ length n → hex_prefix n ≡ take 2 n
hex_prefix-long n h = ground arith

pub read_blocks-reconstruct :
    (env : Env) (disk : Disk) (ks : List ChunkResult)
    → HexLaw env
    → All (IsHeld env disk) ks
    → read_blocks disk (map (λ (k : ChunkResult). env.hex_encode k.hash) ks) ≡ ok (reconstruct ks)
unfolding read_blocks reconstruct
read_blocks-reconstruct env disk [] hex h = refl
read_blocks-reconstruct env disk (k ∷ ks) hex ((g, s, l), hs) =
    let (f, found, same) = get_block-found env disk k.hash k.content g in
    let n = env.hex_encode k.hash in
    let long : 2 ≤ length n = omega (arith, hex k.hash) in
    let at_prefix =
      subst (λ p. find_stored p n disk.stored ≡ some f) (sym (hex_prefix-long n long)) found in
    rw (at_prefix, read_blocks, read_blocks-reconstruct env disk ks hex hs, same) refl

empty : (bs : Bytes) → length bs ≡ 0 → bs ≡ []
empty [] h = refl
empty (b ∷ bs) h = absurd (omega arith)

module _ (env : Env) (frame : Frame) (st : AppState) (path : Bytes) (now now' : ℕ) where
  fetch-held :
      (ks : List ChunkResult)
      → HexLaw env
      → All (IsHeld env st.disk) ks
      → get_file_blocks path (st.tables frame.project_id).file_blocks
        ≡ map (λ (k : ChunkResult). env.hex_encode k.hash) ks
      → fetch env (calm now') frame st path (entry_for env.blake3 env.hex_encode now path ks)
        ≡ content (reconstruct ks)
  unfolding fetch query reconstruct
  fetch-held [] hex held blocks = refl
  fetch-held (k ∷ ks) hex held blocks = elim (Bool-cases (total_size (k ∷ ks) == 0)) [
    | inl e ↦
        let none_left : length (reconstruct (k ∷ ks)) ≡ 0 =
          ground (arith, e, total_size-reconstruct env st.disk (k ∷ ks) held) in
        rw e (ap content (sym (empty (reconstruct (k ∷ ks)) none_left)))
    | inr e ↦ rw (e, blocks, read_blocks-reconstruct env st.disk (k ∷ ks) hex held) refl
  ]

  -- A file with an entry and rows for held chunks is read as their joined content.
  pub handle_read_file-entry :
      (ks : List ChunkResult)
      → HexLaw env
      → All (IsHeld env st.disk) ks
      → stat_file path (st.tables frame.project_id).files
        ≡ some (entry_for env.blake3 env.hex_encode now path ks)
      → get_file_blocks path (st.tables frame.project_id).file_blocks
        ≡ map (λ (k : ChunkResult). env.hex_encode k.hash) ks
      → sanitize_path (from_utf8_lossy frame.payload) ≡ ok path
      → handle_read_file env (calm now') frame st
        ≡ hashed env msg_read_file_resp frame (reconstruct ks)
  unfolding handle_read_file query verify
  handle_read_file-entry ks hex held stat blocks clean =
      rw
        (
          clean,
          stat,
          fetch-held ks hex held blocks,
          verify,
          bytes_eq_refl (env.hex_encode (env.blake3 (reconstruct ks))),
        )
        refl

  -- A file that is indexed with held chunks is read back as their joined content.
  pub handle_read_file-held :
      (ks : List ChunkResult) (before : Tables)
      → HexLaw env
      → All (IsHeld env st.disk) ks
      → IsIngested env.blake3 env.hex_encode path now ks before (st.tables frame.project_id)
      → sanitize_path (from_utf8_lossy frame.payload) ≡ ok path
      → handle_read_file env (calm now') frame st
        ≡ hashed env msg_read_file_resp frame (reconstruct ks)
  handle_read_file-held ks before hex held ingested clean =
      let stat = ingested.stat path in
      handle_read_file-entry ks hex held (rw (bytes_eq_refl path) at stat) ingested.blocks clean
