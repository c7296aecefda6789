-- ===== src/Tests/Storage.antt =====
-- Runs of the chunker, the block store and the index.
use proxygit.Prelude.{◌≡◌, refl, true, false, List, [], ◌∷◌, All, none, some, arith}
use proxygit.Bytes.{Bytes, bytes_eq}
use proxygit.Bytes.Utf8.{text}
use proxygit.Result.{ok}
use proxygit.Cdc.{ChunkResult, CdcChunker, process_buffer, reconstruct}
use proxygit.Cdc.Chunks.{Chunked, process_buffer-Chunked}
use proxygit.BlockStore.Loss.{new_directory_may_be_lost, stopped, retried_block_may_be_lost}
use proxygit.BlockStore.Dirs.{IsIn}
use proxygit.BlockStore.{
  is_durable, Disk, Block, find_stored, has_block, get_block, pending_blocks, store_pending,
  store_blocks, power_loss,
}
use proxygit.BlockStore.Crash.{IsContentAddressed, store_blocks-IsContentAddressed}
use proxygit.BlockStore.Durable.{IsLinked, store_blocks-durable, IsSafe}
use proxygit.Indexer.{Tables, no_tables, ingest_chunks}
use proxygit.Indexer.Laws.{IsIngested, ingest_chunks-IsIngested}
use proxygit.Tests.{digest, hex, no_disk}

abbrev small : CdcChunker
small = record { min_size = 2; avg_size = 4; max_size = 8 }

process_buffer-Chunked_example :
    (ks : List ChunkResult) × (process_buffer digest small (text "hello world") ≡ some ks)
    × (reconstruct ks ≡ text "hello world")
    × Chunked small (omega arith) digest 0 ks
process_buffer-Chunked_example =
    process_buffer-Chunked small (omega arith) digest (text "hello world")

abbrev one : Block
one = (digest (text "data"), text "data")

abbrev data_of : Bytes → Bytes
data_of n = text "data"

-- The third step fails, and the power loss turns unsynced data to nothing.
store_blocks-IsContentAddressed_example :
    IsContentAddressed data_of (store_blocks hex (some 3) (one ∷ []) no_disk).0
    × IsContentAddressed data_of
        (power_loss (λ d. []) (λ n. true) (store_blocks hex (some 3) (one ∷ []) no_disk).0)
store_blocks-IsContentAddressed_example =
    store_blocks-IsContentAddressed data_of hex (some 3) (one ∷ []) no_disk (λ d. []) (λ n. true)
      (refl, tt) tt

-- The directory of the block is there from before.
abbrev ready_disk : Disk
ready_disk = record {
  staged = [];
  dirs = record { prefix = text "64"; durable = true } ∷ [];
  stored = [];
}

store_blocks-durable_example :
    All
      (λ (b : Block).
        get_block hex
          (power_loss (λ d. []) (λ n. false) (store_blocks hex none (one ∷ []) ready_disk).0)
          b.0
        ≡ some b.1)
      (one ∷ [])
    × All IsLinked (store_blocks hex none (one ∷ []) ready_disk).0.stored
    × All
        (IsIn (IsSafe (store_blocks hex none (one ∷ []) ready_disk).0.dirs))
        (store_blocks hex none (one ∷ []) ready_disk).0.stored
unfolding store_blocks pending_blocks store_pending has_block find_stored is_durable bytes_eq
store_blocks-durable_example =
    store_blocks-durable hex data_of none (one ∷ []) ready_disk (λ d. []) (λ n. false) (refl, tt) tt
      tt tt (refl, tt) refl

new_directory_may_be_lost_example :
    get_block hex
      (power_loss (λ d. d) (λ n. false) (store_blocks hex none (one ∷ []) no_disk).0)
      (digest (text "data"))
    ≡ none
unfolding is_durable
new_directory_may_be_lost_example =
    new_directory_may_be_lost hex none (one ∷ []) no_disk (λ d. d) (digest (text "data")) refl

retried_block_may_be_lost_example :
    (store_blocks hex none (one ∷ []) (stopped hex (digest (text "data")) (text "data") ready_disk)
      ≡ (stopped hex (digest (text "data")) (text "data") ready_disk, ok tt))
    × (get_block hex
          (power_loss
            (λ d. d)
            (λ n. false)
            (store_blocks hex none
              (one ∷ [])
              (stopped hex (digest (text "data")) (text "data") ready_disk)).0)
          (digest (text "data"))
        ≡ none)
unfolding has_block find_stored
retried_block_may_be_lost_example =
    retried_block_may_be_lost hex (digest (text "data")) (text "data") none ready_disk (λ d. d) refl

abbrev pieces : List ChunkResult
pieces =
    record { offset = 0; size = 2; hash = digest (text "ab"); content = text "ab" }
    ∷ record { offset = 2; size = 1; hash = digest (text "c"); content = text "c" }
    ∷ []

ingest_chunks-IsIngested_example :
    (t' : Tables) × (ingest_chunks digest hex none 7 (text "a.rs") pieces no_tables ≡ ok t')
    × IsIngested digest hex (text "a.rs") 7 pieces no_tables t'
ingest_chunks-IsIngested_example =
    ingest_chunks-IsIngested digest hex (text "a.rs") 7 0 pieces no_tables
      (omega arith, (omega arith, tt))
