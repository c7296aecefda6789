-- ===== src/Tests/Logs.antt =====
-- Runs of the write-ahead log.
use proxygit.Prelude.{
  ℕ, true, ◌%◌, ◌^◌, ◌<◌, ◌≡◌, refl, List, [], ◌∷◌, ◌++◌, take, length, some, arith,
}
use proxygit.Bytes.{Bytes, le_bytes, bytes_eq}
use proxygit.Bytes.Utf8.{text, utf8_from, lead}
use proxygit.Result.{ok}
use proxygit.Cdc.{ChunkResult, reconstruct}
use proxygit.BlockStore.{Disk, get_block, find_stored}
use proxygit.Server.Write.{resolve}
use proxygit.Wal.{WalRecord, encode_record, encode_records, read_staged_records}
use proxygit.Wal.Torn.{IsReadable, read_staged_records-torn}
use proxygit.Wal.Diff.{chunks, chunks_from, build_sparse_diff, build_sparse_diff-resolves}
use proxygit.Tests.{digest, hex, env}

abbrev checksum : Bytes → ℕ
checksum bs = length bs % 256

checksum_lt : (bs : Bytes) → checksum bs < 256 ^ 4
checksum_lt bs = omega arith

abbrev entry : ℕ → WalRecord
entry n = record { seq = n; path = text "a.rs"; offset = 2; content = text "data" }

entry-IsReadable : (n : ℕ) → n < 1000 → IsReadable (entry n)
unfolding utf8_from lead
entry-IsReadable n h = record {
  seq_small = omega arith;
  offset_small = omega arith;
  path_short = omega arith;
  path_text = refl;
  data_small = omega arith;
}

read_staged_records-torn_example :
    read_staged_records checksum (
      encode_records checksum (entry 0 ∷ entry 1 ∷ [])
      ++ take 37 (encode_record checksum (entry 2)))
    ≡ some (entry 0 ∷ entry 1 ∷ [])
unfolding encode_record le_bytes
read_staged_records-torn_example =
    read_staged_records-torn checksum checksum_lt 37 (entry 0 ∷ entry 1 ∷ []) (entry 2)
      (entry-IsReadable 0 (omega arith), (entry-IsReadable 1 (omega arith), tt))
      (entry-IsReadable 2 (omega arith)) (omega arith)

abbrev stored : Disk
stored = record {
  staged = [];
  dirs = [];
  stored =
      record {
        prefix = text "61";
        name = hex (digest (text "aa"));
        content = text "aa";
        synced = true;
        linked = true;
      }
      ∷ [];
}

-- The digest's inverse on the blocks of this run.
abbrev unpad : Bytes → Bytes
unpad h = take 2 h

build_sparse_diff-resolves_example :
    (ks : List ChunkResult) × (resolve env stored 0
        (build_sparse_diff digest (text "aaaa") (text "aabb") 2)
      ≡ ok ks)
    × (reconstruct ks ≡ text "aabb")
unfolding chunks chunks_from get_block find_stored bytes_eq
build_sparse_diff-resolves_example =
    build_sparse_diff-resolves env unpad stored (text "aaaa") (text "aabb") 2 (omega arith)
      (refl, (refl, tt)) (refl, (refl, tt)) (refl, (refl, tt))
