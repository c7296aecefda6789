-- ===== src/Tests.antt =====
-- Concrete runs of the model. The functions of other crates are stand-ins here: a digest that pads
-- or cuts to 32 bytes, a compressor that adds a byte, an archive of lengths and bytes, and a JSON
-- writer that writes nothing.
mod Protocols
mod Storage
mod Servers
mod Logs
mod Refinements
mod Webdavs
mod Clients
use proxygit.Prelude.{
  ℕ, suc, ◌+◌, ◌*◌, ◌/◌, ◌%◌, ◌≤◌, ◌≡◌, refl, Bool, true, false, List, [], ◌∷◌, ◌++◌, length,
  length-append, length-take, length-replicate, take, drop, zero, replicate, ltb, leb,
  if◌then◌else◌, Option, none, some, arith,
}
use proxygit.Bytes.{Bytes}
use proxygit.Protocol.Sparse.{Zstd, ZstdLaws}
use proxygit.BlockStore.{Disk, Stored}
use proxygit.Indexer.{no_tables}
use proxygit.Result.{Result, ok}
use proxygit.Server.Backup.{TarEntry, Archive, Files}
use proxygit.Server.{Env, AppState, WriteConflictPolicy}
use proxygit.Server.Write.Readable.{HexLaw}

abbrev pub digest : Bytes → Bytes
digest d = take 32 (d ++ replicate 32 0)

pub digest-wide : (d : Bytes) → length (digest d) ≡ 32
digest-wide d =
    omega (arith, length-take 32 (d ++ replicate 32 0), length-append d (replicate 32 0))

abbrev pub nibble : ℕ → ℕ
nibble n = if ltb n 10 then b'0' + n else n + 87

abbrev pub hex : Bytes → Bytes
hex [] = []
hex (b ∷ bs) = nibble (b / 16) ∷ nibble (b % 16) ∷ hex bs

abbrev pub marking : Zstd
marking = record { compress = λ d. some (1 ∷ d); decompress = λ c room. unmark c room }
  where
    unmark : Bytes → ℕ → Option Bytes
    unmark [] room = none
    unmark (b ∷ c) room = if leb (length c) room then some c else none

pub marking_laws : ZstdLaws marking
marking_laws = record {
  round = λ d c room e le. cc (opened d c room e le);
  framed = λ d c e. long d c e;
  bounded = λ d c e. bound d c e;
}
  where
    opened :
        (d c : Bytes) (room : ℕ)
        → some (1 ∷ d) ≡ some c
        → length d ≤ room
        → marking.decompress c room ≡ some d
    opened d [] room e le = cc
    opened d (b ∷ c) room e le = let same : d ≡ c = cc in rw (← same) (ground arith)

    long : (d c : Bytes) → some (1 ∷ d) ≡ some c → suc 0 ≤ length c
    long d [] e = cc
    long d (b ∷ c) e = omega arith

    bound : (d c : Bytes) → some (1 ∷ d) ≡ some c → length c ≤ length d + length d / 256 + 64
    bound d [] e = omega arith
    bound d (b ∷ c) e = let same : d ≡ c = cc in rw (← same) (omega arith)

abbrev pub env : Env
env = record {
  blake3 = digest;
  hex_encode = hex;
  zstd = marking;
  to_vec = λ json. [];
  display = λ e. [];
  compute_embedding = λ d. [];
  search = λ index v limit. [];
}

pub env_hex : HexLaw env
env_hex [] = refl
env_hex (b ∷ bs) = omega (arith, env_hex bs)

-- Each member of the archive as its path and its content, behind their lengths.
abbrev packed_bytes : List TarEntry → Bytes
packed_bytes [] = []
packed_bytes (e ∷ es) = length e.path ∷ e.path ++ length e.content ∷ e.content ++ packed_bytes es

abbrev second_part : Bytes → Bytes × Bytes
second_part [] = ([], [])
second_part (n ∷ bs) = (take n bs, drop n bs)

abbrev unpacked_files : ℕ → Bytes → Files
unpacked_files zero bs = []
unpacked_files (suc fuel) [] = []
unpacked_files (suc fuel) (n ∷ bs) =
    let (content, rest) = second_part (drop n bs) in (take n bs, content) ∷ unpacked_files fuel rest

abbrev pub tar : Archive
tar = record {
  pack = λ es. ok (packed_bytes es);
  unpack = λ bs. ok (unpacked_files (length bs) bs);
}

abbrev pub no_disk : Disk
no_disk = record { staged = []; dirs = []; stored = [] }

abbrev pub fresh : Option Bytes → WriteConflictPolicy → AppState
fresh token policy = record {
  disk = no_disk;
  tables = λ q. no_tables;
  embeddings = [];
  auth_token = token;
  write_conflict = policy;
  backups = λ q. [];
}
