-- ===== src/Server/Write/ReadBack.antt =====
-- Reading a file that was just written.
use proxygit.Prelude.{
  ℕ, ◌+◌, ◌≤◌, ◌≡◌, refl, sym, ap, ◌∙◌, subst, inl, inr, List, [], ◌∷◌, map, All, length, is_empty,
  none, some, arith, Bool-cases,
}
use proxygit.Bytes.{Bytes}
use proxygit.Bytes.Utf8.{from_utf8_lossy}
use proxygit.Result.{Result, ok}
use proxygit.Protocol.Message.{msg_read_file_resp}
use proxygit.Protocol.Frame.{Frame}
use proxygit.Protocol.Payload.{decode_write_payload}
use proxygit.Cdc.{ChunkResult, default_config, process_buffer, reconstruct}
use proxygit.Cdc.Chunks.{Chunked, process_buffer-Chunked}
use proxygit.BlockStore.{
  Disk, Block, get_block, store_blocks, store_pending, pending_blocks, store_file,
}
use proxygit.BlockStore.Crash.{IsContentAddressed, IsNamed}
use proxygit.BlockStore.Durable.{store_blocks-get_block}
use proxygit.Indexer.{Tables}
use proxygit.Indexer.Laws.{Ascends, IsIngested, ingest_chunks-IsIngested}
use proxygit.Paths.{sanitize_path}
use proxygit.Server.{Env, AppState, calm, set_tables, hashed, write_ack}
use proxygit.Server.Read.{handle_read_file}
use proxygit.Server.Write.{indexed, index_write, handle_write_blocks}
use proxygit.Server.Write.Readable.{HexLaw, IsHeld, handle_read_file-held}

set_tables-same : (p : ℕ) (t : Tables) (tables : ℕ → Tables) → set_tables p t tables p ≡ t
unfolding set_tables
set_tables-same p t tables = ground arith

abbrev pub blocks_of : List ChunkResult → List Block
blocks_of ks = map (λ (k : ChunkResult). (k.hash, k.content)) ks

module _ (env : Env) (hex : HexLaw env) (now now' : ℕ) (frame frame' : Frame) (path : Bytes)
    (clean' : sanitize_path (from_utf8_lossy frame'.payload) ≡ ok path)
    (same_project : frame'.project_id ≡ frame.project_id) where
  -- The write acknowledged `full_data`, and a read gives `joined`.
  abbrev pub IsReadBack : Bytes → AppState × Result Frame → Type 0
  IsReadBack full_data result =
      (result.1 ≡ ok (write_ack env frame path full_data))
      × (handle_read_file env (calm now') frame' result.0
          ≡ hashed env msg_read_file_resp frame' full_data)

  pub index_write-IsReadBack :
      (st : AppState) (ks : List ChunkResult)
      → All (IsHeld env st.disk) ks
      → Ascends 0 ks
      → IsReadBack (reconstruct ks) (index_write env (calm now) frame st path (reconstruct ks) ks)
  unfolding index_write
  index_write-IsReadBack st ks held up =
      let before = st.tables frame.project_id in
      let (t, e, ingested) =
        ingest_chunks-IsIngested env.blake3 env.hex_encode path now 0 ks before up in
      let st' : AppState = (indexed env frame st path (reconstruct ks) (ok t)).0 in
      let here : st'.tables frame'.project_id ≡ t =
        ap (λ p. set_tables frame.project_id t st.tables p) same_project
        ∙ set_tables-same frame.project_id t st.tables in
      rw e (
        refl,
        handle_read_file-held env frame' st' path now now' ks before hex held
            (subst (λ a. IsIngested env.blake3 env.hex_encode path now ks before a) (sym here)
              ingested)
            clean',
      )

module _ (env : Env) (block_of : Bytes → Bytes) where
  pub store_blocks-ok :
      (blocks : List Block) (disk : Disk) → (store_blocks env.hex_encode none blocks disk).1 ≡ ok tt
  unfolding store_blocks store_pending
  store_blocks-ok blocks disk =
      elim (Bool-cases (is_empty (pending_blocks env.hex_encode disk [] blocks))) [
        | inl e ↦ rw e refl
        | inr e ↦ rw e refl
      ]

  pub store_file-ok :
      (ks : List ChunkResult) (disk : Disk)
      → store_file env.hex_encode none ks disk ≡ ((store_file env.hex_encode none ks disk).0, ok tt)
  unfolding store_file
  store_file-ok [] disk = refl
  store_file-ok (k ∷ ks) disk =
      ap (λ r. ((store_blocks env.hex_encode none (blocks_of (k ∷ ks)) disk).0, r))
        (store_blocks-ok (blocks_of (k ∷ ks)) disk)

  store_file-get_block :
      (ks : List ChunkResult) (disk : Disk)
      → All (IsNamed block_of env.hex_encode) (blocks_of ks)
      → IsContentAddressed block_of disk
      → All
          (λ (b : Block).
            get_block env.hex_encode (store_file env.hex_encode none ks disk).0 b.0 ≡ some b.1)
          (blocks_of ks)
  unfolding store_file
  store_file-get_block [] disk named good = tt
  store_file-get_block (k ∷ ks) disk named good =
      store_blocks-get_block env.hex_encode block_of none (blocks_of (k ∷ ks)) disk named good
        (store_blocks-ok (blocks_of (k ∷ ks)) disk)

pub Chunked-IsHeld :
    (env : Env) (disk : Disk) (off : ℕ) (ks : List ChunkResult)
    → ((d : Bytes) → length (env.blake3 d) ≡ 32)
    → Chunked default_config (omega arith) env.blake3 off ks
    → All (λ (b : Block). get_block env.hex_encode disk b.0 ≡ some b.1) (blocks_of ks)
    → All (IsHeld env disk) ks
Chunked-IsHeld env disk off [] wide c h = tt
Chunked-IsHeld env disk off (k ∷ ks) wide (at, size, hash, pos, upper, lower, c) (g, gs) = (
  (g, size, rw hash (omega (arith, wide k.content))),
  Chunked-IsHeld env disk (off + k.size) ks wide c gs,
)

pub Chunked-Ascends :
    (env : Env) (lo off : ℕ) (ks : List ChunkResult)
    → lo ≤ off
    → Chunked default_config (omega arith) env.blake3 off ks
    → Ascends lo ks
Chunked-Ascends env lo off [] le c = tt
Chunked-Ascends env lo off (k ∷ ks) le (at, size, hash, pos, upper, lower, c) =
    (omega arith, Chunked-Ascends env (k.offset + 1) (off + k.size) ks (omega arith) c)

pub process_buffer-known :
    (env : Env) (full_data : Bytes) (ks : List ChunkResult)
    → process_buffer env.blake3 default_config full_data ≡ some ks
    → (reconstruct ks ≡ full_data) × Chunked default_config (omega arith) env.blake3 0 ks
process_buffer-known env full_data ks e =
    let (ks', e', joined, c) =
      process_buffer-Chunked default_config (omega arith) env.blake3 full_data in
    let same : ks' ≡ ks = cc in
    subst (λ l. (reconstruct l ≡ full_data) × Chunked default_config (omega arith) env.blake3 0 l)
      same (joined, c)

-- On a disk whose blocks have the content that their names stand for, and if the chunks of the
-- content do too, a plain write that meets no fault is acknowledged with the hash of the content,
-- and a read of the same path then returns exactly the content with its hash. BLAKE3 hashes have
-- 32 bytes, and hex encoding gives two digits for each byte.
pub handle_read_file-handle_write_blocks :
    (env : Env) (block_of : Bytes → Bytes) (now now' : ℕ) (frame frame' : Frame) (st : AppState)
    (raw path full_data : Bytes) (ks : List ChunkResult)
    → HexLaw env
    → ((d : Bytes) → length (env.blake3 d) ≡ 32)
    → decode_write_payload frame.payload ≡ ok (raw, full_data)
    → sanitize_path raw ≡ ok path
    → sanitize_path (from_utf8_lossy frame'.payload) ≡ ok path
    → frame'.project_id ≡ frame.project_id
    → IsContentAddressed block_of st.disk
    → process_buffer env.blake3 default_config full_data ≡ some ks
    → All (IsNamed block_of env.hex_encode) (blocks_of ks)
    → ((handle_write_blocks env (calm now) frame st).1 ≡ ok (write_ack env frame path full_data))
      × (handle_read_file env (calm now') frame' (handle_write_blocks env (calm now) frame st).0
          ≡ hashed env msg_read_file_resp frame' full_data)
unfolding handle_write_blocks
handle_read_file-handle_write_blocks env block_of now now' frame frame' st raw path full_data ks hex
      wide decoded clean clean' same_project good chunks named =
    let (joined, c) = process_buffer-known env full_data ks chunks in
    let stored : Disk = (store_file env.hex_encode none ks st.disk).0 in
    let st' : AppState = record st { disk = stored } in
    let held =
      Chunked-IsHeld env stored 0 ks wide c
        (store_file-get_block env block_of ks st.disk named good) in
    let done =
      index_write-IsReadBack env hex now now' frame frame' path clean' same_project st' ks held
        (Chunked-Ascends env 0 0 ks (omega arith) c) in
    rw (decoded, clean, chunks, store_file-ok env block_of ks st.disk)
      (subst
        (λ d.
          IsReadBack env hex now now' frame frame' path clean' same_project d
            (index_write env (calm now) frame st' path d ks))
        joined done)
