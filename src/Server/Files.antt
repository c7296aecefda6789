-- ===== src/Server/Files.antt =====
-- The files that the server stands for, and what the store and the index of
-- crates/proxygit-server/src/lib.rs must hold for them.
pub mod Steps
pub mod Writes
pub mod Sparse
pub mod Reads
pub mod Restore
pub mod Backups
pub mod RoundTrip
pub mod History
use proxygit.Prelude.{
  ℕ, ◌≤◌, ◌≡◌, refl, sym, ap, ◌∙◌, subst, inl, inr, Bool, true, false, List, [], ◌∷◌, ◌==◌, All,
  map, length, if◌then◌else◌, Option, none, some, arith, Bool-cases,
}
use proxygit.Bytes.{Bytes, bytes_eq}
use proxygit.Bytes.Laws.{bytes_eq→eq, bytes_eq_refl}
use proxygit.Cdc.{ChunkResult, default_config, process_buffer, reconstruct}
use proxygit.BlockStore.{Disk, Block}
use proxygit.BlockStore.Crash.{IsContentAddressed, IsNamed}
use proxygit.Indexer.{Tables, stat_file, get_file_blocks, entry_for}
use proxygit.Server.{Env, AppState}
use proxygit.Server.Write.Readable.{IsHeld}
use proxygit.Server.Write.ReadBack.{blocks_of}

-- The content of each file of each project.
abbrev pub FileMap : Type 0
FileMap = ℕ → Bytes → Option Bytes

-- One file of one project is replaced, or removed by `none`.
unfoldable pub replaced : ℕ → Bytes → Option Bytes → FileMap → FileMap
replaced p path content files q r =
    if q == p then (if bytes_eq path r then content else files q r) else files q r

-- A file that is not there has no entry. One that is there has an entry over chunks whose blocks
-- the disk has, in the order of the rows, and that join to its content.
abbrev pub HoldsFile : Env → Disk → Tables → Bytes → Option Bytes → Type 0
HoldsFile env disk t path none = stat_file path t.files ≡ none
HoldsFile env disk t path (some content) =
    (now : ℕ) × (ks : List ChunkResult) × (stat_file path t.files
      ≡ some (entry_for env.blake3 env.hex_encode now path ks))
    × (get_file_blocks path t.file_blocks ≡ map (λ (k : ChunkResult). env.hex_encode k.hash) ks)
    × All (IsHeld env disk) ks
    × (reconstruct ks ≡ content)

-- The server's state holds exactly the files of the map; `block_of` is the content that the name
-- of a block stands for.
pub record Refines (env : Env) (block_of : Bytes → Bytes) (st : AppState) (files : FileMap)
    : Type 0 where
  pub addressed : IsContentAddressed block_of st.disk
  pub holds : (p : ℕ) (path : Bytes) → HoldsFile env st.disk (st.tables p) path (files p path)

-- The chunks of the content have hashes whose names stand for them: none collides with another
-- block's.
abbrev pub HasNamedChunks : Env → (Bytes → Bytes) → Bytes → Type 0
HasNamedChunks env block_of content =
    (ks : List ChunkResult) × (process_buffer env.blake3 default_config content ≡ some ks)
    × All (IsNamed block_of env.hex_encode) (blocks_of ks)

-- The files of a list put over those of the map, one after another.
unfoldable pub overlaid : ℕ → List (Bytes × Bytes) → FileMap → FileMap
overlaid p [] files = files
overlaid p ((path, content) ∷ more) files = overlaid p more (replaced p path (some content) files)
