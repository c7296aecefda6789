-- ===== src/BlockStore/Crash.antt =====
-- Whatever step of a batch fails, and wherever a power loss strikes, every block under its final
-- name is complete; and a batch that returned `Ok` is there after a power loss.
use proxygit.Prelude.{
  ℕ, zero, suc, ◌≡◌, refl, sym, ◌∙◌, inl, inr, Bool, true, false, ◌&&◌, ◌||◌, List, [], ◌∷◌, ◌++◌,
  length, take, is_empty, All, ltb, Option, none, some, arith, Bool-cases, Option-cases,
}
use proxygit.Bytes.{Bytes, bytes_eq}
use proxygit.Bytes.Laws.{bytes_eq→eq, bytes_eq_refl}
use proxygit.BlockStore.{
  Staged, Stored, Dir, is_durable, Disk, FsOp, create_dir, rename, without, find_staged,
  mark_synced, mark_linked, put_stored, apply, run, mem_bytes, after_loss, power_loss, Block,
  block_prefix, has_block, pending_blocks, stage_ops, rename_ops, parents, sync_ops, store_ops,
  store_pending, store_blocks,
}

-- A property of the disk before, between and after the operations.
abbrev Always : (Disk → Type 0) → List FsOp → Disk → Type 0
Always P [] disk = P disk
Always P (op ∷ ops) disk = P disk × Always P ops (apply op disk)

Always-take :
    (P : Disk → Type 0) (k : ℕ) (ops : List FsOp) (disk : Disk)
    → Always P ops disk
    → P (run (take k ops) disk)
unfolding run
Always-take P zero [] disk h = h
Always-take P zero (op ∷ ops) disk (h, hs) = h
Always-take P (suc k) [] disk h = h
Always-take P (suc k) (op ∷ ops) disk (h, hs) = Always-take P k ops (apply op disk) hs

Always-run :
    (P : Disk → Type 0) (ops : List FsOp) (disk : Disk) → Always P ops disk → P (run ops disk)
unfolding run
Always-run P [] disk h = h
Always-run P (op ∷ ops) disk (h, hs) = Always-run P ops (apply op disk) hs

Always-append :
    (P : Disk → Type 0) (ops more : List FsOp) (disk : Disk)
    → Always P ops disk
    → Always P more (run ops disk)
    → Always P (ops ++ more) disk
unfolding run
Always-append P [] more disk h later = later
Always-append P (op ∷ ops) more disk (h, hs) later =
    (h, Always-append P ops more (apply op disk) hs later)

-- What holds of the blocks of a batch holds of those that are pending.
pub pending_blocks-All :
    (hex_encode : Bytes → Bytes) (P : Block → Type 0) (disk : Disk) (seen : List Bytes)
    (blocks : List Block)
    → All P blocks
    → All P (pending_blocks hex_encode disk seen blocks)
unfolding pending_blocks
pending_blocks-All hex_encode P disk seen [] a = tt
pending_blocks-All hex_encode P disk seen ((h, d) ∷ blocks) (ha, a) =
    elim (Bool-cases (mem_bytes h seen)) [
      | inl e ↦ rw e (pending_blocks-All hex_encode P disk seen blocks a)
      | inr e ↦ rw e (elim (Bool-cases (has_block hex_encode disk h)) [
        | inl e' ↦ rw e' (pending_blocks-All hex_encode P disk (h ∷ seen) blocks a)
        | inr e' ↦ rw e' (ha, pending_blocks-All hex_encode P disk (h ∷ seen) blocks a)
      ])
    ]

-- `block_of` is the content that a name stands for: no two blocks in use share a name.
module _ (block_of : Bytes → Bytes) where
  abbrev pub IsGood : Stored → Type 0
  IsGood f = (f.content ≡ block_of f.name) × (f.synced ≡ true)

  abbrev IsReady : Staged → Type 0
  IsReady f = (f.content ≡ block_of f.name) × (f.synced ≡ true)

  abbrev IsOpen : Bytes → Staged → Type 0
  IsOpen n f = (f.content ≡ block_of f.name) × (bytes_eq f.name n ≡ false → f.synced ≡ true)

  -- Every file under a block path has the content that its name stands for, on the disk itself.
  abbrev pub IsContentAddressed : Disk → Type 0
  IsContentAddressed disk = All IsGood disk.stored

  abbrev IsSettled : Disk → Type 0
  IsSettled disk = All IsReady disk.staged × All IsGood disk.stored

  without-IsOpen : (n : Bytes) (fs : List Staged) → All IsReady fs → All (IsOpen n) (without n fs)
  unfolding without
  without-IsOpen n [] h = tt
  without-IsOpen n (f ∷ fs) (h, hs) = elim (Bool-cases (bytes_eq f.name n)) [
    | inl e ↦ rw e (without-IsOpen n fs hs)
    | inr e ↦ rw e ((h.0, λ _. h.1), without-IsOpen n fs hs)
  ]

  without-IsReady : (n : Bytes) (fs : List Staged) → All IsReady fs → All IsReady (without n fs)
  unfolding without
  without-IsReady n [] h = tt
  without-IsReady n (f ∷ fs) (h, hs) = elim (Bool-cases (bytes_eq f.name n)) [
    | inl e ↦ rw e (without-IsReady n fs hs)
    | inr e ↦ rw e (h, without-IsReady n fs hs)
  ]

  mark_synced-IsReady :
      (n : Bytes) (fs : List Staged) → All (IsOpen n) fs → All IsReady (mark_synced n fs)
  unfolding mark_synced
  mark_synced-IsReady n [] h = tt
  mark_synced-IsReady n (f ∷ fs) (h, hs) = elim (Bool-cases (bytes_eq f.name n)) [
    | inl e ↦ rw e ((h.0, refl), mark_synced-IsReady n fs hs)
    | inr e ↦ rw e ((h.0, h.1 e), mark_synced-IsReady n fs hs)
  ]

  mark_linked-IsGood :
      (p : Bytes) (fs : List Stored) → All IsGood fs → All IsGood (mark_linked p fs)
  unfolding mark_linked
  mark_linked-IsGood p [] h = tt
  mark_linked-IsGood p (f ∷ fs) (h, hs) = elim (Bool-cases (bytes_eq f.prefix p)) [
    | inl e ↦ rw e (h, mark_linked-IsGood p fs hs)
    | inr e ↦ rw e (h, mark_linked-IsGood p fs hs)
  ]

  put_stored-IsGood :
      (g : Stored) (fs : List Stored) → IsGood g → All IsGood fs → All IsGood (put_stored g fs)
  unfolding put_stored
  put_stored-IsGood g [] hg h = (hg, tt)
  put_stored-IsGood g (f ∷ fs) hg (h, hs) =
      elim (Bool-cases (bytes_eq f.prefix g.prefix && bytes_eq f.name g.name)) [
        | inl e ↦ rw e (hg, hs)
        | inr e ↦ rw e (h, put_stored-IsGood g fs hg hs)
      ]

  find_staged-IsReady :
      (n : Bytes) (fs : List Staged) (f : Staged)
      → All IsReady fs
      → find_staged n fs ≡ some f
      → (f.content ≡ block_of n) × (f.synced ≡ true)
  unfolding find_staged
  find_staged-IsReady n [] f h e = cc
  find_staged-IsReady n (g ∷ fs) f (h, hs) e = elim (Bool-cases (bytes_eq g.name n)) [
    | inl same ↦ ground (arith, same, bytes_eq→eq g.name n, h.0, h.1)
    | inr other ↦ find_staged-IsReady n fs f hs (rw other at e)
  ]

  move_staged-IsSettled :
      (n p : Bytes) (disk : Disk) → IsSettled disk → IsSettled (apply (rename n p) disk)
  unfolding apply
  move_staged-IsSettled n p disk (hr, hg) = elim (Option-cases (find_staged n disk.staged)) [
    | inl e ↦ rw e (hr, hg)
    | inr (f, e) ↦
        let g : Stored = record {
          prefix = p;
          name = n;
          content = f.content;
          synced = f.synced;
          linked = false;
        } in
        rw e (
          without-IsReady n disk.staged hr,
          put_stored-IsGood g disk.stored (find_staged-IsReady n disk.staged f hr e) hg,
        )
  ]

  sync_ops-Always :
      (ps : List Bytes) (disk : Disk) → IsSettled disk → Always IsSettled (sync_ops ps) disk
  unfolding sync_ops apply
  sync_ops-Always [] disk h = h
  sync_ops-Always (p ∷ ps) disk h =
      (h, sync_ops-Always ps _ (h.0, mark_linked-IsGood p disk.stored h.1))

  after_loss-IsGood :
      (lost : Bytes → Bytes) (kept : Bytes → Bool) (dirs : List Dir) (fs : List Stored)
      → All IsGood fs
      → All IsGood (after_loss lost kept dirs fs)
  unfolding after_loss
  after_loss-IsGood lost kept dirs [] h = tt
  after_loss-IsGood lost kept dirs (f ∷ fs) (h, hs) =
      elim (Bool-cases ((f.linked || kept f.name) && (is_durable f.prefix dirs || kept f.prefix))) [
        | inl e ↦ rw (e, h.1) ((h.0, refl), after_loss-IsGood lost kept dirs fs hs)
        | inr e ↦ rw e (after_loss-IsGood lost kept dirs fs hs)
      ]

  module _ (hex_encode : Bytes → Bytes) where
    -- The data of each block is what the name of its hash stands for.
    abbrev pub IsNamed : Block → Type 0
    IsNamed b = b.1 ≡ block_of (hex_encode b.0)

    stage_ops-Always :
        (blocks : List Block) (disk : Disk)
        → IsContentAddressed disk
        → Always IsContentAddressed (stage_ops hex_encode blocks) disk
    unfolding stage_ops apply
    stage_ops-Always [] disk h = h
    stage_ops-Always (b ∷ blocks) disk h = (h, (h, stage_ops-Always blocks _ h))

    absurd_open : (n : Bytes) → bytes_eq n n ≡ false → false ≡ true
    absurd_open n e = sym e ∙ bytes_eq_refl n

    stage_ops-IsSettled :
        (blocks : List Block) (disk : Disk)
        → All IsNamed blocks
        → IsSettled disk
        → IsSettled (run (stage_ops hex_encode blocks) disk)
    unfolding stage_ops apply run
    stage_ops-IsSettled [] disk a h = h
    stage_ops-IsSettled ((hash, d) ∷ blocks) disk (ha, a) (hr, hg) =
        let n = hex_encode hash in
        stage_ops-IsSettled blocks _ a (
          mark_synced-IsReady n _ ((ha, λ e. absurd_open n e), without-IsOpen n disk.staged hr),
          hg,
        )

    rename_ops-Always :
        (blocks : List Block) (disk : Disk)
        → IsSettled disk
        → Always IsSettled (rename_ops hex_encode blocks) disk
    unfolding rename_ops
    rename_ops-Always [] disk h = h
    rename_ops-Always ((hash, d) ∷ blocks) disk h =
        let n = hex_encode hash in
        let p = block_prefix hex_encode hash in
        let made : Disk = apply (create_dir p) disk in
        let h' : IsSettled made = unfold apply in h in
        (
          h,
          (
            h',
            rename_ops-Always blocks (apply (rename n p) made) (move_staged-IsSettled n p made h'),
          ),
        )

    Always-weaken :
        (ops : List FsOp) (disk : Disk)
        → Always IsSettled ops disk
        → Always IsContentAddressed ops disk
    Always-weaken [] disk h = h.1
    Always-weaken (op ∷ ops) disk (h, hs) = (h.1, Always-weaken ops (apply op disk) hs)

    store_ops-Always :
        (pending : List Block) (disk : Disk)
        → All IsNamed pending
        → IsContentAddressed disk
        → Always IsContentAddressed (store_ops hex_encode pending) (record disk { staged = [] })
    unfolding store_ops
    store_ops-Always pending disk a h =
        let fresh : Disk = record disk { staged = [] } in
        let staged = run (stage_ops hex_encode pending) fresh in
        let settled = stage_ops-IsSettled pending fresh a (tt, h) in
        let renames = rename_ops hex_encode pending in
        let renamed = rename_ops-Always pending staged settled in
        let syncs = sync_ops (parents hex_encode [] pending) in
        Always-append IsContentAddressed (stage_ops hex_encode pending) (renames ++ syncs) fresh
          (stage_ops-Always pending fresh h)
          (Always-weaken (renames ++ syncs) staged (
            Always-append IsSettled renames syncs staged renamed (
              sync_ops-Always (parents hex_encode [] pending) (run renames staged)
                (Always-run IsSettled renames staged renamed))))

    store_pending-IsContentAddressed :
        (fault : Option ℕ) (pending : List Block) (disk : Disk)
        → All IsNamed pending
        → IsContentAddressed disk
        → IsContentAddressed (store_pending hex_encode fault pending disk).0
    unfolding store_pending apply
    store_pending-IsContentAddressed none pending disk a h =
        Always-run IsContentAddressed (store_ops hex_encode pending) _
          (store_ops-Always pending disk a h)
    store_pending-IsContentAddressed (some k) pending disk a h =
        elim (Bool-cases (ltb k (length (store_ops hex_encode pending)))) [
          | inl e ↦ rw e (
              Always-take IsContentAddressed k (store_ops hex_encode pending) _
                (store_ops-Always pending disk a h))
          | inr e ↦ rw e (
              Always-run IsContentAddressed (store_ops hex_encode pending) _
                (store_ops-Always pending disk a h))
        ]

    -- Whichever step of a batch fails, and whatever a power loss then takes of unsynced data and
    -- unsynced names, every file under a block path still has the content that its name stands
    -- for, on the disk and after the loss.
    pub store_blocks-IsContentAddressed :
        (fault : Option ℕ) (blocks : List Block) (disk : Disk) (lost : Bytes → Bytes)
        (kept : Bytes → Bool)
        → All IsNamed blocks
        → IsContentAddressed disk
        → IsContentAddressed (store_blocks hex_encode fault blocks disk).0
          × IsContentAddressed (power_loss lost kept (store_blocks hex_encode fault blocks disk).0)
    unfolding store_blocks
    store_blocks-IsContentAddressed fault blocks disk lost kept a h =
        (kept_on_disk, after_loss-IsGood lost kept _ _ kept_on_disk)
      where
        kept_on_disk : IsContentAddressed (store_blocks hex_encode fault blocks disk).0
        kept_on_disk = elim (Bool-cases (is_empty (pending_blocks hex_encode disk [] blocks))) [
          | inl e ↦ rw e h
          | inr e ↦ rw e (
              store_pending-IsContentAddressed fault _ disk
                (pending_blocks-All hex_encode IsNamed disk [] blocks a) h)
        ]
