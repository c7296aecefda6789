-- ===== src/BlockStore/Dirs.antt =====
-- The prefix directories of the blocks: which of them the files stand in, and which names a batch
-- makes durable: none.
use proxygit.Prelude.{
  ℕ, ◌≡◌, refl, ◌∙◌, inl, inr, List, [], ◌∷◌, ◌++◌, length, take, is_empty, All, ltb, Option, none,
  some, arith, Bool-cases, Option-cases,
}
use proxygit.Bytes.{Bytes, bytes_eq}
use proxygit.BlockStore.{
  Stored, Dir, Disk, FsOp, create_staging, sync_staging, create_dir, rename, sync_dir,
  remove_staging, find_staged, mark_linked, is_file, put_stored, has_dir, is_durable, add_dir,
  apply, run, Block, block_prefix, pending_blocks, stage_ops, rename_ops, parents, sync_ops,
  store_ops, store_pending, store_blocks,
}

is_durable-add_dir :
    (q p : Bytes) (dirs : List Dir) → is_durable q (add_dir p dirs) ≡ is_durable q dirs
unfolding add_dir is_durable
is_durable-add_dir q p dirs = elim (Bool-cases (has_dir p dirs)) [
  | inl e ↦ rw e refl
  | inr e ↦ rw e (ground arith)
]

is_durable-apply :
    (q : Bytes) (op : FsOp) (disk : Disk)
    → is_durable q (apply op disk).dirs ≡ is_durable q disk.dirs
unfolding apply
is_durable-apply q (create_staging n d) disk = refl
is_durable-apply q (sync_staging n) disk = refl
is_durable-apply q (create_dir p) disk = is_durable-add_dir q p disk.dirs
is_durable-apply q (rename n p) disk = elim (Option-cases (find_staged n disk.staged)) [
  | inl e ↦ rw e refl
  | inr (f, e) ↦ rw e refl
]
is_durable-apply q (sync_dir p) disk = refl
is_durable-apply q remove_staging disk = refl

is_durable-run :
    (q : Bytes) (ops : List FsOp) (disk : Disk)
    → is_durable q (run ops disk).dirs ≡ is_durable q disk.dirs
unfolding run
is_durable-run q [] disk = refl
is_durable-run q (op ∷ ops) disk = is_durable-run q ops (apply op disk) ∙ is_durable-apply q op disk

module _ (hex_encode : Bytes → Bytes) where
  is_durable-store_pending :
      (q : Bytes) (fault : Option ℕ) (pending : List Block) (disk : Disk)
      → is_durable q (store_pending hex_encode fault pending disk).0.dirs ≡ is_durable q disk.dirs
  unfolding store_pending apply
  is_durable-store_pending q none pending disk = is_durable-run q (store_ops hex_encode pending) _
  is_durable-store_pending q (some k) pending disk =
      elim (Bool-cases (ltb k (length (store_ops hex_encode pending)))) [
        | inl e ↦ rw e (is_durable-run q (take k (store_ops hex_encode pending)) _)
        | inr e ↦ rw e (is_durable-run q (store_ops hex_encode pending) _)
      ]

  -- A batch makes no directory durable, at whichever step it stops.
  pub is_durable-store_blocks :
      (q : Bytes) (fault : Option ℕ) (blocks : List Block) (disk : Disk)
      → is_durable q (store_blocks hex_encode fault blocks disk).0.dirs ≡ is_durable q disk.dirs
  unfolding store_blocks
  is_durable-store_blocks q fault blocks disk =
      elim (Bool-cases (is_empty (pending_blocks hex_encode disk [] blocks))) [
        | inl e ↦ rw e refl
        | inr e ↦ rw e (is_durable-store_pending q fault _ disk)
      ]

module _ (Q : Bytes → Type 0) where
  abbrev pub IsIn : Stored → Type 0
  IsIn f = Q f.prefix

  put_stored-IsIn :
      (g : Stored) (fs : List Stored) → IsIn g → All IsIn fs → All IsIn (put_stored g fs)
  unfolding put_stored
  put_stored-IsIn g [] hg h = (hg, tt)
  put_stored-IsIn g (f ∷ fs) hg (h, hs) = elim (Bool-cases (is_file g.prefix g.name f)) [
    | inl e ↦ rw e (hg, hs)
    | inr e ↦ rw e (h, put_stored-IsIn g fs hg hs)
  ]

  mark_linked-IsIn : (p : Bytes) (fs : List Stored) → All IsIn fs → All IsIn (mark_linked p fs)
  unfolding mark_linked
  mark_linked-IsIn p [] h = tt
  mark_linked-IsIn p (f ∷ fs) (h, hs) = elim (Bool-cases (bytes_eq f.prefix p)) [
    | inl e ↦ rw e (h, mark_linked-IsIn p fs hs)
    | inr e ↦ rw e (h, mark_linked-IsIn p fs hs)
  ]

  -- The operation moves no file into another directory.
  abbrev IsInto : FsOp → Type 0
  IsInto (rename n p) = Q p
  IsInto _ = Unit

  apply-IsIn :
      (op : FsOp) (disk : Disk) → IsInto op → All IsIn disk.stored → All IsIn (apply op disk).stored
  unfolding apply
  apply-IsIn (create_staging n d) disk q h = h
  apply-IsIn (sync_staging n) disk q h = h
  apply-IsIn (create_dir p) disk q h = h
  apply-IsIn (rename n p) disk q h = elim (Option-cases (find_staged n disk.staged)) [
    | inl e ↦ rw e h
    | inr (f, e) ↦ rw e (put_stored-IsIn _ disk.stored q h)
  ]
  apply-IsIn (sync_dir p) disk q h = mark_linked-IsIn p disk.stored h
  apply-IsIn remove_staging disk q h = h

  run-IsIn :
      (ops : List FsOp) (disk : Disk)
      → All IsInto ops
      → All IsIn disk.stored
      → All IsIn (run ops disk).stored
  unfolding run
  run-IsIn [] disk q h = h
  run-IsIn (op ∷ ops) disk (q, qs) h = run-IsIn ops (apply op disk) qs (apply-IsIn op disk q h)

  append-IsInto :
      (ops more : List FsOp) → All IsInto ops → All IsInto more → All IsInto (ops ++ more)
  append-IsInto [] more q q' = q'
  append-IsInto (op ∷ ops) more (q, qs) q' = (q, append-IsInto ops more qs q')

  module _ (hex_encode : Bytes → Bytes) where
    stage_ops-IsInto : (blocks : List Block) → All IsInto (stage_ops hex_encode blocks)
    unfolding stage_ops
    stage_ops-IsInto [] = tt
    stage_ops-IsInto (b ∷ blocks) = (tt, (tt, stage_ops-IsInto blocks))

    rename_ops-IsInto :
        (blocks : List Block)
        → All (λ b. Q (block_prefix hex_encode b.0)) blocks
        → All IsInto (rename_ops hex_encode blocks)
    unfolding rename_ops
    rename_ops-IsInto [] q = tt
    rename_ops-IsInto (b ∷ blocks) (q, qs) = (tt, (q, rename_ops-IsInto blocks qs))

    sync_ops-IsInto : (ps : List Bytes) → All IsInto (sync_ops ps)
    unfolding sync_ops
    sync_ops-IsInto [] = tt
    sync_ops-IsInto (p ∷ ps) = (tt, sync_ops-IsInto ps)

    -- A batch whose blocks go to directories of a kind keeps all files in such directories.
    pub store_ops-IsIn :
        (pending : List Block) (disk : Disk)
        → All (λ b. Q (block_prefix hex_encode b.0)) pending
        → All IsIn disk.stored
        → All IsIn (run (store_ops hex_encode pending) disk).stored
    unfolding store_ops
    store_ops-IsIn pending disk q h =
        run-IsIn _ disk
          (append-IsInto (stage_ops hex_encode pending) _ (stage_ops-IsInto pending) (
            append-IsInto (rename_ops hex_encode pending) _ (rename_ops-IsInto pending q)
              (sync_ops-IsInto (parents hex_encode [] pending))))
          h
