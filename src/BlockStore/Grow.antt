-- ===== src/BlockStore/Grow.antt =====
-- A batch loses no block, wherever it stops.
use proxygit.Prelude.{
  ℕ, true, ◌≡◌, ◌∙◌, inl, inr, List, [], ◌∷◌, All, length, is_empty, take, ltb, Option, none, some,
  Bool-cases, Option-cases,
}
use proxygit.Bytes.{Bytes}
use proxygit.BlockStore.{
  Disk, FsOp, create_staging, sync_staging, create_dir, rename, sync_dir, remove_staging,
  find_staged, find_stored, apply, run, Block, block_prefix, get_block, pending_blocks, store_ops,
  store_pending, store_blocks,
}
use proxygit.BlockStore.Crash.{IsContentAddressed, IsNamed, store_blocks-IsContentAddressed}
use proxygit.BlockStore.Present.{
  has_stored, find-has_stored, has_stored-put, has_stored-mark_linked, IsPresent,
}
use proxygit.BlockStore.Durable.{find_stored-IsGood, IsPresent-get_block}

apply-keep :
    (op : FsOp) (p n : Bytes) (disk : Disk)
    → has_stored p n disk.stored ≡ true
    → has_stored p n (apply op disk).stored ≡ true
unfolding apply
apply-keep (create_staging m d) p n disk h = h
apply-keep (sync_staging m) p n disk h = h
apply-keep (create_dir q) p n disk h = h
apply-keep (rename m q) p n disk h = elim (Option-cases (find_staged m disk.staged)) [
  | inl e ↦ rw e h
  | inr (f, e) ↦ rw e (has_stored-put p n _ disk.stored h)
]
apply-keep (sync_dir q) p n disk h = has_stored-mark_linked p n q disk.stored ∙ h
apply-keep remove_staging p n disk h = h

run-keep :
    (ops : List FsOp) (p n : Bytes) (disk : Disk)
    → has_stored p n disk.stored ≡ true
    → has_stored p n (run ops disk).stored ≡ true
unfolding run
run-keep [] p n disk h = h
run-keep (op ∷ ops) p n disk h = run-keep ops p n (apply op disk) (apply-keep op p n disk h)

module _ (hex_encode : Bytes → Bytes) where
  store_pending-keep :
      (fault : Option ℕ) (pending : List Block) (disk : Disk) (b : Block)
      → IsPresent hex_encode disk b
      → IsPresent hex_encode (store_pending hex_encode fault pending disk).0 b
  unfolding store_pending apply
  store_pending-keep none pending disk b h =
      run-keep (store_ops hex_encode pending) _ _ (record disk { staged = [] }) h
  store_pending-keep (some k) pending disk b h =
      elim (Bool-cases (ltb k (length (store_ops hex_encode pending)))) [
        | inl e ↦
            rw e
              (run-keep (take k (store_ops hex_encode pending)) _ _ (record disk { staged = [] }) h)
        | inr e ↦ rw e (run-keep (store_ops hex_encode pending) _ _ (record disk { staged = [] }) h)
      ]

  store_blocks-keep :
      (fault : Option ℕ) (blocks : List Block) (disk : Disk) (b : Block)
      → IsPresent hex_encode disk b
      → IsPresent hex_encode (store_blocks hex_encode fault blocks disk).0 b
  unfolding store_blocks
  store_blocks-keep fault blocks disk b h =
      elim (Bool-cases (is_empty (pending_blocks hex_encode disk [] blocks))) [
        | inl e ↦ rw e h
        | inr e ↦
            rw e (store_pending-keep fault (pending_blocks hex_encode disk [] blocks) disk b h)
      ]

  get_block-IsPresent :
      (disk : Disk) (h d : Bytes)
      → get_block hex_encode disk h ≡ some d
      → IsPresent hex_encode disk (h, d)
  unfolding get_block
  get_block-IsPresent disk h d e =
      elim (Option-cases (find_stored (block_prefix hex_encode h) (hex_encode h) disk.stored)) [
        | inl n ↦ cc (rw (n, get_block) at e)
        | inr (f, found) ↦ find-has_stored _ _ disk.stored f found
      ]

  module _ (block_of : Bytes → Bytes) where
    pub get_block-named :
        (disk : Disk) (h d : Bytes)
        → IsContentAddressed block_of disk
        → get_block hex_encode disk h ≡ some d
        → d ≡ block_of (hex_encode h)
    unfolding get_block
    get_block-named disk h d good e =
        elim (Option-cases (find_stored (block_prefix hex_encode h) (hex_encode h) disk.stored)) [
          | inl n ↦ cc (rw (n, get_block) at e)
          | inr (f, found) ↦
              let same : some f.content ≡ some d = rw (found, get_block) at e in
              let named = find_stored-IsGood hex_encode block_of _ _ disk.stored f good found in cc
        ]

    -- On a disk whose blocks have the content that their names stand for, and for a batch whose
    -- blocks do too, every block that was there is read back unchanged after the batch, at
    -- whichever of its steps it stopped.
    pub get_block-store_blocks :
        (fault : Option ℕ) (blocks : List Block) (disk : Disk) (h d : Bytes)
        → All (IsNamed block_of hex_encode) blocks
        → IsContentAddressed block_of disk
        → get_block hex_encode disk h ≡ some d
        → get_block hex_encode (store_blocks hex_encode fault blocks disk).0 h ≡ some d
    get_block-store_blocks fault blocks disk h d named good e =
        let good' =
          store_blocks-IsContentAddressed block_of hex_encode fault blocks disk (λ x. x) (λ x. true)
            named good in
        IsPresent-get_block hex_encode block_of (store_blocks hex_encode fault blocks disk).0 (h, d)
          good'.0 (get_block-named disk h d good e)
          (store_blocks-keep fault blocks disk (h, d) (get_block-IsPresent disk h d e))
