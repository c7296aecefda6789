-- ===== src/BlockStore/Loss.antt =====
-- Blocks that a power loss may take although `store_blocks` returned `Ok` for them.
use proxygit.Prelude.{
  ◌≡◌, refl, ◌∙◌, ℕ, inl, inr, false, true, ◌&&◌, ◌||◌, [], ◌∷◌, List, Option, none, some, arith,
  Bool-cases, Option-cases,
}
use proxygit.Bytes.{Bytes}
use proxygit.Bytes.Laws.{bytes_eq→eq, bytes_eq_refl}
use proxygit.Result.{ok}
use proxygit.BlockStore.{
  Stored, Dir, Disk, is_file, find_stored, find_staged, mark_synced, without, put_stored, apply,
  run, is_durable, move_staged, after_loss, power_loss, Block, block_prefix, has_block, get_block,
  pending_blocks, stage_ops, rename_ops, parents, sync_ops, store_ops, store_pending, store_blocks,
}
use proxygit.BlockStore.Present.{has_stored-find, has_stored-put_self}
use proxygit.BlockStore.Dirs.{is_durable-store_blocks}

-- Nothing that stood in a directory without a durable name is found.
find_stored-lost_dir :
    (lost : Bytes → Bytes) (p n : Bytes) (dirs : List Dir) (fs : List Stored)
    → is_durable p dirs ≡ false
    → find_stored p n (after_loss lost (λ m. false) dirs fs) ≡ none
unfolding find_stored after_loss
find_stored-lost_dir lost p n dirs [] h = refl
find_stored-lost_dir lost p n dirs (f ∷ fs) h =
    let rest = find_stored-lost_dir lost p n dirs fs h in
    elim (Bool-cases ((f.linked || false) && (is_durable f.prefix dirs || false))) [
      | inr e ↦ rw e rest
      | inl e ↦ elim (Bool-cases (is_file p n f)) [
        | inr other ↦ rw (e, find_stored, other) rest
        | inl same ↦ ground (arith, e, same, h, bytes_eq→eq f.prefix p)
      ]
    ]

module _ (hex_encode : Bytes → Bytes) where
  -- A power loss may take every block of a directory whose name is not durable, as none is that a
  -- batch has made: after any batch, also one that returned `Ok`, none of its blocks need be left.
  pub new_directory_may_be_lost :
      (fault : Option ℕ) (blocks : List Block) (disk : Disk) (lost : Bytes → Bytes) (h : Bytes)
      → is_durable (block_prefix hex_encode h) disk.dirs ≡ false
      → get_block hex_encode
          (power_loss lost (λ n. false) (store_blocks hex_encode fault blocks disk).0)
          h
        ≡ none
  unfolding get_block
  new_directory_may_be_lost fault blocks disk lost h d =
      let disk' = (store_blocks hex_encode fault blocks disk).0 in
      rw
        (
          find_stored-lost_dir lost (block_prefix hex_encode h) (hex_encode h) disk'.dirs
              disk'.stored
              (is_durable-store_blocks hex_encode (block_prefix hex_encode h) fault blocks disk
                ∙ d),
          get_block,
        )
        refl

-- A file that was put over no other, with a name that is not durable, is not found after a loss.
find_stored-lost_name :
    (lost : Bytes → Bytes) (g : Stored) (dirs : List Dir) (fs : List Stored)
    → g.linked ≡ false
    → find_stored g.prefix g.name fs ≡ none
    → find_stored g.prefix g.name (after_loss lost (λ m. false) dirs (put_stored g fs)) ≡ none
unfolding find_stored after_loss put_stored
find_stored-lost_name lost g dirs [] l h = rw l refl
find_stored-lost_name lost g dirs (f ∷ fs) l h = elim (Bool-cases (is_file g.prefix g.name f)) [
  | inl e ↦ cc (rw e at h)
  | inr e ↦
      let rest = find_stored-lost_name lost g dirs fs l (rw e at h) in
      elim (Bool-cases ((f.linked || false) && (is_durable f.prefix dirs || false))) [
        | inl there ↦ rw (e, after_loss, there, find_stored, e) rest
        | inr gone ↦ rw (e, after_loss, gone) rest
      ]
]

module _ (hex_encode : Bytes → Bytes) (h d : Bytes) where
  -- The file that a batch of this one block leaves when it stops after the rename.
  abbrev renamed : Stored
  renamed = record {
    prefix = block_prefix hex_encode h;
    name = hex_encode h;
    content = d;
    synced = true;
    linked = false;
  }

  abbrev pub stopped : Disk → Disk
  stopped disk = (store_blocks hex_encode (some 4) ((h, d) ∷ []) disk).0

  moved-stored :
      (disk : Disk)
      → (store_pending hex_encode (some 4) ((h, d) ∷ []) disk).0.stored
        ≡ put_stored renamed disk.stored
  unfolding store_pending store_ops stage_ops rename_ops parents sync_ops run apply move_staged
      find_staged mark_synced without
  moved-stored disk = rw (bytes_eq_refl (hex_encode h)) (rw (bytes_eq_refl (hex_encode h)) refl)

  pending_blocks-unknown :
      (disk : Disk)
      → has_block hex_encode disk h ≡ false
      → pending_blocks hex_encode disk [] ((h, d) ∷ []) ≡ (h, d) ∷ []
  unfolding pending_blocks
  pending_blocks-unknown disk unknown = rw unknown refl

  stopped-stored :
      (disk : Disk)
      → has_block hex_encode disk h ≡ false
      → (stopped disk).stored ≡ put_stored renamed disk.stored
  unfolding store_blocks
  stopped-stored disk unknown =
      rw (pending_blocks-unknown disk unknown, stopped, store_blocks) (moved-stored disk)

  has_block-found :
      (disk : Disk)
      → has_block hex_encode disk h ≡ false
      → find_stored (block_prefix hex_encode h) (hex_encode h) disk.stored ≡ none
  unfolding has_block
  has_block-found disk unknown =
      elim (Option-cases (find_stored (block_prefix hex_encode h) (hex_encode h) disk.stored)) [
        | inl e ↦ e
        | inr (f, e) ↦ cc (rw (e, has_block) at unknown)
      ]

  has_block-stopped :
      (disk : Disk)
      → has_block hex_encode disk h ≡ false
      → has_block hex_encode (stopped disk) h ≡ true
  unfolding has_block
  has_block-stopped disk unknown =
      let (f, found) = has_stored-find _ _ _ (has_stored-put_self renamed disk.stored) in
      rw (stopped-stored disk unknown, has_block, found) refl

  -- A block that the store has not is lost although a retry succeeded: the first batch stops
  -- between the rename and the fsync of the directory, the retry finds the file, returns `Ok` and
  -- syncs nothing, and a power loss may then take the file.
  pub retried_block_may_be_lost :
      (fault : Option ℕ) (disk : Disk) (lost : Bytes → Bytes)
      → has_block hex_encode disk h ≡ false
      → (store_blocks hex_encode fault ((h, d) ∷ []) (stopped disk) ≡ (stopped disk, ok tt))
        × (get_block hex_encode
              (power_loss lost
                (λ n. false)
                (store_blocks hex_encode fault ((h, d) ∷ []) (stopped disk)).0)
              h
            ≡ none)
  unfolding get_block
  retried_block_may_be_lost fault disk lost unknown = (
    skipped,
    rw
        (
          skipped,
          get_block,
          stopped-stored disk unknown,
          find_stored-lost_name lost renamed (stopped disk).dirs disk.stored refl
              (has_block-found disk unknown),
        )
        refl,
  )
    where
      skipped : store_blocks hex_encode fault ((h, d) ∷ []) (stopped disk) ≡ (stopped disk, ok tt)
      skipped = unfold store_blocks pending_blocks in rw (has_block-stopped disk unknown)
