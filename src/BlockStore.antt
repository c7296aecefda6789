-- ===== src/BlockStore.antt =====
-- The content-addressed block store, crates/proxygit-server/src/block_store/mod.rs, over a model
-- of the directory `blocks` that tells what a power loss may take. `hex::encode` is a parameter.
-- The name of a prefix directory that a batch creates is not durable: the code does not sync `blocks`.
pub mod Crash
pub mod Present
pub mod Dirs
pub mod Unreadable
pub mod Loss
pub mod Durable
pub mod Grow
use proxygit.Prelude.{
  ℕ, zero, suc, ◌+◌, ◌≡◌, Bool, true, false, not, ◌&&◌, ◌||◌, List, [], ◌∷◌, ◌++◌, length, take,
  map, is_empty, All, ltb, leb, ◌==◌, if◌then◌else◌, Option, none, some,
}
use proxygit.Bytes.{Bytes, bytes_eq}
use proxygit.Bytes.Utf8.{text}
use proxygit.Cdc.{ChunkResult}
use proxygit.Result.{Result, ok, err, Error, block_missing, io_failed, ◌>>=◌}

-- A file of the batch's own directory `staging/<uuid>`; `synced` says that its data was fsync'd.
pub record Staged : Type 0 where
  pub name : Bytes
  pub content : Bytes
  pub synced : Bool

-- A file `blocks/{prefix}/{name}`; `linked` says that its directory was fsync'd since the rename.
pub record Stored : Type 0 where
  pub prefix : Bytes
  pub name : Bytes
  pub content : Bytes
  pub synced : Bool
  pub linked : Bool

-- A directory `blocks/{prefix}`; `durable` says that `blocks` was synced since it was made.
pub record Dir : Type 0 where
  pub prefix : Bytes
  pub durable : Bool

pub record Disk : Type 0 where
  pub staged : List Staged
  pub dirs : List Dir
  pub stored : List Stored

pub data FsOp : Type 0 where
  create_staging : Bytes → Bytes → FsOp
  sync_staging : Bytes → FsOp
  create_dir : Bytes → FsOp
  rename : Bytes → Bytes → FsOp
  sync_dir : Bytes → FsOp
  remove_staging : FsOp

unfoldable pub without : Bytes → List Staged → List Staged
without n [] = []
without n (f ∷ fs) = let rest = without n fs in if bytes_eq f.name n then rest else f ∷ rest

unfoldable pub find_staged : Bytes → List Staged → Option Staged
find_staged n [] = none
find_staged n (f ∷ fs) = if bytes_eq f.name n then some f else find_staged n fs

unfoldable pub mark_synced : Bytes → List Staged → List Staged
mark_synced n [] = []
mark_synced n (f ∷ fs) =
    (if bytes_eq f.name n then record f { synced = true } else f) ∷ mark_synced n fs

unfoldable pub mark_linked : Bytes → List Stored → List Stored
mark_linked p [] = []
mark_linked p (f ∷ fs) =
    (if bytes_eq f.prefix p then record f { linked = true } else f) ∷ mark_linked p fs

abbrev pub is_file : Bytes → Bytes → Stored → Bool
is_file p n f = bytes_eq f.prefix p && bytes_eq f.name n

unfoldable pub find_stored : Bytes → Bytes → List Stored → Option Stored
find_stored p n [] = none
find_stored p n (f ∷ fs) = if is_file p n f then some f else find_stored p n fs

-- A rename replaces the target.
unfoldable pub put_stored : Stored → List Stored → List Stored
put_stored g [] = g ∷ []
put_stored g (f ∷ fs) = if is_file g.prefix g.name f then g ∷ fs else f ∷ put_stored g fs

unfoldable pub has_dir : Bytes → List Dir → Bool
has_dir p [] = false
has_dir p (e ∷ dirs) = bytes_eq e.prefix p || has_dir p dirs

unfoldable pub is_durable : Bytes → List Dir → Bool
is_durable p [] = false
is_durable p (e ∷ dirs) = (bytes_eq e.prefix p && e.durable) || is_durable p dirs

-- `create_dir_all` of a prefix directory.
unfoldable pub add_dir : Bytes → List Dir → List Dir
unfolding has_dir
add_dir p dirs = if has_dir p dirs then dirs else record { prefix = p; durable = false } ∷ dirs

-- The staging file is moved as it is, synced or not; the new name is not durable yet.
unfoldable pub move_staged : Bytes → Bytes → Disk → Option Staged → Disk
move_staged n p disk none = disk
move_staged n p disk (some f) = record {
  staged = without n disk.staged;
  dirs = disk.dirs;
  stored =
      put_stored
        (record { prefix = p; name = n; content = f.content; synced = f.synced; linked = false })
        disk.stored;
}

unfoldable pub apply : FsOp → Disk → Disk
unfolding move_staged add_dir
apply (create_staging n d) disk = record disk {
  staged = record { name = n; content = d; synced = false } ∷ without n disk.staged;
}
apply (sync_staging n) disk = record disk { staged = mark_synced n disk.staged }
apply (create_dir p) disk = record disk { dirs = add_dir p disk.dirs }
apply (rename n p) disk = move_staged n p disk (find_staged n disk.staged)
apply (sync_dir p) disk = record disk { stored = mark_linked p disk.stored }
apply remove_staging disk = record disk { staged = [] }

unfoldable pub run : List FsOp → Disk → Disk
run [] disk = disk
run (op ∷ ops) disk = run ops (apply op disk)

-- The files that can be read while reading those of some names fails, which `get_block` takes for
-- missing blocks.
unfoldable pub readable : (Bytes → Bool) → List Stored → List Stored
readable unreadable [] = []
readable unreadable (f ∷ fs) =
    let rest = readable unreadable fs in if unreadable f.name then rest else f ∷ rest

abbrev pub readable_disk : (Bytes → Bool) → Disk → Disk
readable_disk unreadable disk = record disk { stored = readable unreadable disk.stored }

abbrev pub mem_bytes : Bytes → List Bytes → Bool
mem_bytes h [] = false
mem_bytes h (k ∷ ks) = bytes_eq h k || mem_bytes h ks

unfoldable pub dirs_after_loss : (Bytes → Bool) → List Dir → List Dir
dirs_after_loss kept [] = []
dirs_after_loss kept (e ∷ dirs) =
    let rest = dirs_after_loss kept dirs in
    if e.durable || kept e.prefix then record e { durable = true } ∷ rest else rest

-- What a power loss leaves: data that was not synced is replaced by `lost` of it, a name that was
-- not linked is there only if `kept` says so, a directory that is not durable likewise, with all
-- that is in it, and the staging directory is of no account.
unfoldable pub after_loss : (Bytes → Bytes) → (Bytes → Bool) → List Dir → List Stored → List Stored
unfolding is_durable
after_loss lost kept dirs [] = []
after_loss lost kept dirs (f ∷ fs) =
    let rest = after_loss lost kept dirs fs in
    let g : Stored = record f { content = if f.synced then f.content else lost f.content } in
    if (f.linked || kept f.name) && (is_durable f.prefix dirs || kept f.prefix)
    then g ∷ rest
    else rest

abbrev pub power_loss : (Bytes → Bytes) → (Bytes → Bool) → Disk → Disk
power_loss lost kept disk = record {
  staged = [];
  dirs = dirs_after_loss kept disk.dirs;
  stored = after_loss lost kept disk.dirs disk.stored;
}

abbrev pub Block : Type 0
Block = Bytes × Bytes

-- Step 5: each directory that a rename touched is synced.
unfoldable pub sync_ops : List Bytes → List FsOp
sync_ops [] = []
sync_ops (p ∷ ps) = sync_dir p ∷ sync_ops ps

module _ (hex_encode : Bytes → Bytes) where
  -- `block_path`: the prefix directory and the file name.
  abbrev pub block_prefix : Bytes → Bytes
  block_prefix hash = take 2 (hex_encode hash)

  unfoldable pub has_block : Disk → Bytes → Bool
  has_block disk hash = elim (find_stored (block_prefix hash) (hex_encode hash) disk.stored) [
    | none ↦ false
    | some f ↦ true
  ]

  unfoldable pub get_block : Disk → Bytes → Option Bytes
  get_block disk hash = elim (find_stored (block_prefix hash) (hex_encode hash) disk.stored) [
    | none ↦ none
    | some f ↦ some f.content
  ]

  -- The blocks that are neither seen before in the batch nor stored.
  unfoldable pub pending_blocks : Disk → List Bytes → List Block → List Block
  pending_blocks disk seen [] = []
  pending_blocks disk seen ((h, d) ∷ blocks) =
      let fresh = pending_blocks disk (h ∷ seen) blocks in
      let rest = if mem_bytes h seen then pending_blocks disk seen blocks else fresh in
      if mem_bytes h seen || has_block disk h then rest else (h, d) ∷ rest

  -- Steps 2 and 3: each block is written to its staging file and synced.
  unfoldable pub stage_ops : List Block → List FsOp
  stage_ops [] = []
  stage_ops ((h, d) ∷ blocks) =
      create_staging (hex_encode h) d ∷ sync_staging (hex_encode h) ∷ stage_ops blocks

  -- Step 4: each staging file is renamed to its block path.
  unfoldable pub rename_ops : List Block → List FsOp
  rename_ops [] = []
  rename_ops ((h, d) ∷ blocks) =
      create_dir (block_prefix h) ∷ rename (hex_encode h) (block_prefix h) ∷ rename_ops blocks

  unfoldable pub parents : List Bytes → List Block → List Bytes
  parents seen [] = []
  parents seen ((h, d) ∷ blocks) =
      let fresh = parents (block_prefix h ∷ seen) blocks in
      if mem_bytes (block_prefix h) seen then parents seen blocks else block_prefix h ∷ fresh

  unfoldable pub store_ops : List Block → List FsOp
  unfolding stage_ops rename_ops parents sync_ops
  store_ops pending = stage_ops pending ++ (rename_ops pending ++ sync_ops (parents [] pending))

  -- The steps of a batch in a fresh staging directory, of which the first `k` succeed if the
  -- `fault` is `some k`. The removal of the staging directory may fail unseen.
  unfoldable pub store_pending : Option ℕ → List Block → Disk → Disk × Result (Unit {0})
  unfolding store_ops
  store_pending none pending disk =
      (apply remove_staging (run (store_ops pending) (record disk { staged = [] })), ok tt)
  store_pending (some k) pending disk =
      if ltb k (length (store_ops pending))
      then (run (take k (store_ops pending)) (record disk { staged = [] }), err (io_failed k))
      else (run (store_ops pending) (record disk { staged = [] }), ok tt)

  unfoldable pub store_blocks : Option ℕ → List Block → Disk → Disk × Result (Unit {0})
  unfolding pending_blocks store_pending
  store_blocks fault blocks disk =
      let pending = pending_blocks disk [] blocks in
      if is_empty pending then (disk, ok tt) else store_pending fault pending disk

  unfoldable pub store_block : Option ℕ → Bytes → Bytes → Disk → Disk × Result (Unit {0})
  unfolding store_blocks
  store_block fault hash content disk = store_blocks fault ((hash, content) ∷ []) disk

  -- The blocks of a file, each under the hash of its chunk.
  unfoldable pub store_file : Option ℕ → List ChunkResult → Disk → Disk × Result (Unit {0})
  unfolding store_blocks
  store_file fault chunks disk =
      if is_empty chunks
      then (disk, ok tt)
      else store_blocks fault (map (λ c. (c.hash, c.content)) chunks) disk

-- `hex_to_block_path`, which also takes names shorter than two characters.
abbrev pub hex_prefix : Bytes → Bytes
hex_prefix name = if leb 2 (length name) then take 2 name else text "00"

unfoldable pub read_blocks : Disk → List Bytes → Result Bytes
read_blocks disk [] = ok []
read_blocks disk (name ∷ names) = elim (find_stored (hex_prefix name) name disk.stored) [
  | none ↦ err (block_missing name)
  | some f ↦ read_blocks disk names >>= λ rest. ok (f.content ++ rest)
]

abbrev pub is_hexdigit : ℕ → Bool
is_hexdigit c =
    (leb b'0' c && leb c b'9') || (leb b'a' c && leb c b'f') || (leb b'A' c && leb c b'F')

abbrev pub all_hexdigits : Bytes → Bool
all_hexdigits [] = true
all_hexdigits (c ∷ cs) = is_hexdigit c && all_hexdigits cs

-- Whether the collector would delete the file.
unfoldable pub is_orphan : List Bytes → Stored → Bool
is_orphan referenced f =
    length f.prefix == 2
    && all_hexdigits f.prefix
    && length f.name == 64
    && not (mem_bytes f.name referenced)

-- The files that are left and the number deleted; `removable` says for which files
-- `remove_file` succeeds.
unfoldable pub gc_orphans : (Bytes → Bool) → List Bytes → List Stored → List Stored × ℕ
unfolding is_orphan
gc_orphans removable referenced [] = ([], 0)
gc_orphans removable referenced (f ∷ fs) =
    let (rest, deleted) = gc_orphans removable referenced fs in
    if is_orphan referenced f && removable f.name then (rest, deleted + 1) else (f ∷ rest, deleted)
