-- ===== src/BlockStore/Durable.antt =====
-- A batch that returned `Ok` is readable, and is so after a power loss.
use proxygit.Prelude.{
  ℕ, ◌≡◌, refl, sym, ap, subst, ◌∙◌, inl, inr, Bool, true, false, ◌||◌, List, [], ◌∷◌, ◌++◌, All,
  length, is_empty, ltb, Option, none, some, arith, Bool-cases, Option-cases,
}
use proxygit.Bytes.{Bytes, bytes_eq}
use proxygit.Bytes.Laws.{bytes_eq→eq, bytes_eq_refl}
use proxygit.Result.{ok}
use proxygit.BlockStore.{
  Stored, Dir, is_durable, Disk, create_dir, rename, find_staged, mark_linked, is_file, find_stored,
  put_stored, apply, run, mem_bytes, after_loss, power_loss, Block, block_prefix, has_block,
  get_block, pending_blocks, stage_ops, rename_ops, parents, sync_ops, store_ops, store_pending,
  store_blocks,
}
use proxygit.BlockStore.Dirs.{IsIn, store_ops-IsIn, is_durable-store_blocks}
use proxygit.BlockStore.Crash.{
  IsGood, IsContentAddressed, IsNamed, pending_blocks-All, store_blocks-IsContentAddressed,
}
use proxygit.BlockStore.Present.{
  has_stored-find, find-has_stored, IsPresent, run-append, stage_ops-stored, store_ops-IsPresent,
  store_ops-keep,
}

abbrev pub IsLinked : Stored → Type 0
IsLinked f = f.linked ≡ true

-- The directory has a durable name.
abbrev pub IsSafe : List Dir → Bytes → Type 0
IsSafe dirs p = is_durable p dirs ≡ true

-- The name is durable, or its directory is among those that are still to be synced.
abbrev IsCovered : List Bytes → Stored → Type 0
IsCovered ps f = (f.linked || mem_bytes f.prefix ps) ≡ true

put_stored-IsCovered :
    (ps : List Bytes) (g : Stored) (fs : List Stored)
    → IsCovered ps g
    → All (IsCovered ps) fs
    → All (IsCovered ps) (put_stored g fs)
unfolding put_stored
put_stored-IsCovered ps g [] hg h = (hg, tt)
put_stored-IsCovered ps g (f ∷ fs) hg (h, hs) = elim (Bool-cases (is_file g.prefix g.name f)) [
  | inl e ↦ rw e (hg, hs)
  | inr e ↦ rw e (h, put_stored-IsCovered ps g fs hg hs)
]

mark_linked-IsCovered :
    (p : Bytes) (ps : List Bytes) (fs : List Stored)
    → All (IsCovered (p ∷ ps)) fs
    → All (IsCovered ps) (mark_linked p fs)
unfolding mark_linked
mark_linked-IsCovered p ps [] h = tt
mark_linked-IsCovered p ps (f ∷ fs) (h, hs) = elim (Bool-cases (bytes_eq f.prefix p)) [
  | inl e ↦ rw e (refl, mark_linked-IsCovered p ps fs hs)
  | inr e ↦ rw e (rw e at h, mark_linked-IsCovered p ps fs hs)
]

IsCovered-nil : (fs : List Stored) → All (IsCovered []) fs → All IsLinked fs
IsCovered-nil [] h = tt
IsCovered-nil (f ∷ fs) (h, hs) = (ground arith, IsCovered-nil fs hs)

IsLinked-IsCovered : (ps : List Bytes) (fs : List Stored) → All IsLinked fs → All (IsCovered ps) fs
IsLinked-IsCovered ps [] h = tt
IsLinked-IsCovered ps (f ∷ fs) (h, hs) = (rw h, IsLinked-IsCovered ps fs hs)

sync_ops-IsLinked :
    (ps : List Bytes) (disk : Disk)
    → All (IsCovered ps) disk.stored
    → All IsLinked (run (sync_ops ps) disk).stored
unfolding sync_ops run apply
sync_ops-IsLinked [] disk h = IsCovered-nil disk.stored h
sync_ops-IsLinked (p ∷ ps) disk h =
    sync_ops-IsLinked ps _ (mark_linked-IsCovered p ps disk.stored h)

rename-IsCovered :
    (ps : List Bytes) (n p : Bytes) (disk : Disk)
    → mem_bytes p ps ≡ true
    → All (IsCovered ps) disk.stored
    → All (IsCovered ps) (apply (rename n p) disk).stored
unfolding apply
rename-IsCovered ps n p disk m h = elim (Option-cases (find_staged n disk.staged)) [
  | inl e ↦ rw e h
  | inr (f, e) ↦
      let g : Stored = record {
        prefix = p;
        name = n;
        content = f.content;
        synced = f.synced;
        linked = false;
      } in
      rw e (put_stored-IsCovered ps g disk.stored m h)
]

module _ (hex_encode : Bytes → Bytes) where
  abbrev IsParent : List Bytes → Block → Type 0
  IsParent ps b = mem_bytes (block_prefix hex_encode b.0) ps ≡ true

  rename_ops-IsCovered :
      (ps : List Bytes) (blocks : List Block) (disk : Disk)
      → All (IsParent ps) blocks
      → All (IsCovered ps) disk.stored
      → All (IsCovered ps) (run (rename_ops hex_encode blocks) disk).stored
  unfolding rename_ops run
  rename_ops-IsCovered ps [] disk a h = h
  rename_ops-IsCovered ps ((hash, d) ∷ blocks) disk (m, a) h =
      let made : Disk = apply (create_dir (block_prefix hex_encode hash)) disk in
      let h' : All (IsCovered ps) made.stored = unfold apply in h in
      rename_ops-IsCovered ps blocks _ a
        (rename-IsCovered ps (hex_encode hash) (block_prefix hex_encode hash) made m h')

  -- `parents seen blocks` has, with `seen`, the directory of each block.
  abbrev IsSeen : List Bytes → List Bytes → Block → Type 0
  IsSeen seen ps b =
      (mem_bytes (block_prefix hex_encode b.0) seen || mem_bytes (block_prefix hex_encode b.0) ps)
      ≡ true

  parents-IsSeen :
      (seen : List Bytes) (blocks : List Block)
      → All (IsSeen seen (parents hex_encode seen blocks)) blocks
  unfolding parents
  parents-IsSeen seen [] = tt
  parents-IsSeen seen ((hash, d) ∷ blocks) =
      let p = block_prefix hex_encode hash in
      elim (Bool-cases (mem_bytes p seen)) [
        | inl e ↦
            let step : parents hex_encode seen ((hash, d) ∷ blocks)
                ≡ parents hex_encode seen blocks =
              rw e in
            subst (λ ps. All (IsSeen seen ps) ((hash, d) ∷ blocks)) (sym step)
              (rw e, parents-IsSeen seen blocks)
        | inr e ↦
            let step : parents hex_encode seen ((hash, d) ∷ blocks)
                ≡ p ∷ parents hex_encode (p ∷ seen) blocks =
              rw e in
            subst (λ ps. All (IsSeen seen ps) ((hash, d) ∷ blocks)) (sym step)
              (
                rw (e, bytes_eq_refl p),
                shift seen p blocks (parents hex_encode (p ∷ seen) blocks)
                    (parents-IsSeen (p ∷ seen) blocks),
              )
      ]
    where
      shift :
          (seen : List Bytes) (p : Bytes) (bs : List Block) (ps : List Bytes)
          → All (IsSeen (p ∷ seen) ps) bs
          → All (IsSeen seen (p ∷ ps)) bs
      shift seen p [] ps a = tt
      shift seen p (b ∷ bs) ps (h, a) = (ground (arith, h), shift seen p bs ps a)

  store_ops-IsLinked :
      (pending : List Block) (disk : Disk)
      → All IsLinked disk.stored
      → All IsLinked (run (store_ops hex_encode pending) (record disk { staged = [] })).stored
  unfolding store_ops
  store_ops-IsLinked pending disk h =
      let fresh : Disk = record disk { staged = [] } in
      let stages = stage_ops hex_encode pending in
      let renames = rename_ops hex_encode pending in
      let ps = parents hex_encode [] pending in
      let covered : All (IsCovered ps) (run stages fresh).stored =
        rw (stage_ops-stored hex_encode pending fresh) (IsLinked-IsCovered ps disk.stored h) in
      rw
        (
          run-append stages (renames ++ sync_ops ps) fresh,
          run-append renames (sync_ops ps) (run stages fresh),
        )
        (sync_ops-IsLinked ps (run renames (run stages fresh))
          (rename_ops-IsCovered ps pending (run stages fresh) (parents-IsSeen [] pending) covered))

  has_block-IsPresent :
      (disk : Disk) (h d : Bytes)
      → has_block hex_encode disk h ≡ true
      → IsPresent hex_encode disk (h, d)
  unfolding has_block
  has_block-IsPresent disk h d e =
      elim (Option-cases (find_stored (block_prefix hex_encode h) (hex_encode h) disk.stored)) [
        | inl none_found ↦ ground (arith, none_found, e)
        | inr (f, found) ↦ find-has_stored _ _ disk.stored f found
      ]

  -- A block is in the batch's pending list, was in it under the same hash, or was stored before.
  pending_blocks-cover :
      (Q : Bytes → Type 0) (disk : Disk) (seen : List Bytes) (blocks : List Block)
      → ((h : Bytes) → has_block hex_encode disk h ≡ true → Q h)
      → ((h : Bytes) → mem_bytes h seen ≡ true → Q h)
      → All (λ b. Q b.0) (pending_blocks hex_encode disk seen blocks)
      → All (λ b. Q b.0) blocks
  unfolding pending_blocks
  pending_blocks-cover Q disk seen [] old was a = tt
  pending_blocks-cover Q disk seen ((h, d) ∷ blocks) old was a =
      elim (Bool-cases (mem_bytes h seen)) [
        | inl e ↦ (was h e, pending_blocks-cover Q disk seen blocks old was (rw e at a))
        | inr e ↦ elim (Bool-cases (has_block hex_encode disk h)) [
          | inl e' ↦ (
            old h e',
            pending_blocks-cover Q disk (h ∷ seen) blocks old (extend h (old h e') seen was)
                (rw (e, e') at a),
          )
          | inr e' ↦
              let a' : All (λ (b : Block). Q b.0)
                  ((h, d) ∷ pending_blocks hex_encode disk (h ∷ seen) blocks) =
                rw (e, e') at a in
              (
                a'.0,
                pending_blocks-cover Q disk (h ∷ seen) blocks old (extend h a'.0 seen was) a'.1,
              )
        ]
      ]
    where
      extend :
          (h : Bytes)
          → Q h
          → (seen : List Bytes) → ((k : Bytes) → mem_bytes k seen ≡ true → Q k)
          → (k : Bytes) → mem_bytes k (h ∷ seen) ≡ true
          → Q k
      extend h q seen was k m = elim (Bool-cases (bytes_eq k h)) [
        | inl e ↦ subst Q (sym (bytes_eq→eq k h e)) q
        | inr e ↦ was k (rw e at m)
      ]

  -- The files after a batch that returned `Ok`.
  store_pending-ok :
      (fault : Option ℕ) (pending : List Block) (disk : Disk)
      → (store_pending hex_encode fault pending disk).1 ≡ ok tt
      → (store_pending hex_encode fault pending disk).0.stored
        ≡ (run (store_ops hex_encode pending) (record disk { staged = [] })).stored
  unfolding store_pending apply
  store_pending-ok none pending disk e = refl
  store_pending-ok (some k) pending disk e =
      elim (Bool-cases (ltb k (length (store_ops hex_encode pending)))) [
        | inl short ↦ cc (rw short at e)
        | inr full ↦ rw full
      ]

  -- What a batch that returned `Ok` leaves: the names of the batch and the earlier ones are there,
  -- if all earlier names were durable, all are, and if the earlier files and the blocks of the
  -- batch are for directories that were durable, all files stand in such.
  abbrev Complete : List Block → Disk → Disk → Type 0
  Complete blocks disk disk' =
      All (λ b. IsPresent hex_encode disk' b) blocks
      × (All IsLinked disk.stored → All IsLinked disk'.stored)
      × (All (λ b. IsSafe disk.dirs (block_prefix hex_encode b.0)) blocks
          → All (IsIn (IsSafe disk.dirs)) disk.stored
          → All (IsIn (IsSafe disk.dirs)) disk'.stored)

  store_blocks-Complete :
      (fault : Option ℕ) (blocks : List Block) (disk : Disk)
      → (store_blocks hex_encode fault blocks disk).1 ≡ ok tt
      → Complete blocks disk (store_blocks hex_encode fault blocks disk).0
  unfolding store_blocks
  store_blocks-Complete fault blocks disk e =
      let pending = pending_blocks hex_encode disk [] blocks in
      elim (Bool-cases (is_empty pending)) [
        | inl none_left ↦ rw none_left (
          pending_blocks-cover (λ h. IsPresent hex_encode disk (h, [])) disk [] blocks
              (λ h q. has_block-IsPresent disk h [] q) (λ h q. cc)
              (none_pending pending none_left disk),
          λ h. h,
          λ q h. h,
        )
        | inr some_left ↦
            let ran = store_pending-ok fault pending disk (rw some_left at e) in
            rw some_left (
              pending_blocks-cover
                  (λ h.
                    IsPresent hex_encode (store_pending hex_encode fault pending disk).0 (h, []))
                  disk [] blocks
                  (λ h q. rw ran (
                    store_ops-keep hex_encode pending disk (h, [])
                      (has_block-IsPresent disk h [] q)))
                  (λ h q. cc)
                  (rw ran (store_ops-IsPresent hex_encode pending (record disk { staged = [] }))),
              λ h. rw ran (store_ops-IsLinked pending disk h),
              λ q h. rw ran (
                  store_ops-IsIn (IsSafe disk.dirs) hex_encode pending (record disk { staged = [] })
                    (pending_blocks-All hex_encode
                      (λ b. IsSafe disk.dirs (block_prefix hex_encode b.0)) disk [] blocks q)
                    h),
            )
      ]
    where
      none_pending :
          (bs : List Block)
          → is_empty bs ≡ true
          → (k : Disk) → All (λ (b : Block). IsPresent hex_encode k (b.0, [])) bs
      none_pending [] e k = tt
      none_pending (b ∷ bs) e k = cc

  module _ (block_of : Bytes → Bytes) where
    pub find_stored-IsGood :
        (p n : Bytes) (fs : List Stored) (f : Stored)
        → All (IsGood block_of) fs
        → find_stored p n fs ≡ some f
        → f.content ≡ block_of n
    unfolding find_stored
    find_stored-IsGood p n [] f h e = cc
    find_stored-IsGood p n (g ∷ fs) f (h, hs) e = elim (Bool-cases (is_file p n g)) [
      | inl same ↦ ground (arith, same, e, h.0, bytes_eq→eq g.name n)
      | inr other ↦ find_stored-IsGood p n fs f hs (rw other at e)
    ]

    pub IsPresent-get_block :
        (disk : Disk) (b : Block)
        → IsContentAddressed block_of disk
        → IsNamed block_of hex_encode b
        → IsPresent hex_encode disk b
        → get_block hex_encode disk b.0 ≡ some b.1
    unfolding get_block
    IsPresent-get_block disk b good named h =
        let (f, found) = has_stored-find _ _ disk.stored h in
        rw (found, get_block)
          (ap some (find_stored-IsGood _ _ disk.stored f good found ∙ sym named))

    All-get_block :
        (disk : Disk) (bs : List Block)
        → IsContentAddressed block_of disk
        → All (IsNamed block_of hex_encode) bs
        → All (IsPresent hex_encode disk) bs
        → All (λ b. get_block hex_encode disk b.0 ≡ some b.1) bs
    All-get_block disk [] good named h = tt
    All-get_block disk (b ∷ bs) good (n, named) (h, hs) =
        (IsPresent-get_block disk b good n h, All-get_block disk bs good named hs)

    -- With every name and directory durable and all data synced, a power loss takes no file.
    after_loss-eq :
        (lost : Bytes → Bytes) (kept : Bytes → Bool) (dirs : List Dir) (fs : List Stored)
        → All (IsGood block_of) fs
        → All IsLinked fs
        → All (IsIn (IsSafe dirs)) fs
        → after_loss lost kept dirs fs ≡ fs
    unfolding after_loss
    after_loss-eq lost kept dirs [] g l d = refl
    after_loss-eq lost kept dirs (f ∷ fs) (g, gs) (l, ls) (d, ds) =
        rw (l, d, after_loss-eq lost kept dirs fs gs ls ds) (ground (arith, g.1))

    -- If the blocks of a batch have the content that the names of their hashes stand for, so have
    -- the stored files, and on the disk all names, their directories and those of the batch are
    -- durable, then after a `store_blocks` that returned `Ok` and a power loss every block of the
    -- batch is read back with its data, the blocks that were skipped as known included, and again
    -- all names and their directories are durable.
    pub store_blocks-durable :
        (fault : Option ℕ) (blocks : List Block) (disk : Disk) (lost : Bytes → Bytes)
        (kept : Bytes → Bool)
        → All (IsNamed block_of hex_encode) blocks
        → IsContentAddressed block_of disk
        → All IsLinked disk.stored
        → All (IsIn (IsSafe disk.dirs)) disk.stored
        → All (λ b. IsSafe disk.dirs (block_prefix hex_encode b.0)) blocks
        → (store_blocks hex_encode fault blocks disk).1 ≡ ok tt
        → All
            (λ b.
              get_block hex_encode
                (power_loss lost kept (store_blocks hex_encode fault blocks disk).0)
                b.0
              ≡ some b.1)
            blocks
          × All IsLinked (store_blocks hex_encode fault blocks disk).0.stored
          × All
              (IsIn (IsSafe (store_blocks hex_encode fault blocks disk).0.dirs))
              (store_blocks hex_encode fault blocks disk).0.stored
    store_blocks-durable fault blocks disk lost kept named good linked safe safe_blocks e =
        let disk' = (store_blocks hex_encode fault blocks disk).0 in
        let (present, links, stands) = store_blocks-Complete fault blocks disk e in
        let safe' : All (IsIn (IsSafe disk'.dirs)) disk'.stored =
          All-IsSafe disk.dirs disk'.dirs disk'.stored
            (λ q. is_durable-store_blocks hex_encode q fault blocks disk)
            (stands safe_blocks safe) in
        let good' =
          store_blocks-IsContentAddressed block_of hex_encode fault blocks disk lost kept named
            good in
        let same = after_loss-eq lost kept disk'.dirs disk'.stored good'.0 (links linked) safe' in
        let present' : All (IsPresent hex_encode (power_loss lost kept disk')) blocks =
          rw same present in
        (
          All-get_block (power_loss lost kept disk') blocks good'.1 named present',
          links linked,
          safe',
        )
      where
        All-IsSafe :
            (dirs dirs' : List Dir) (fs : List Stored)
            → ((q : Bytes) → is_durable q dirs' ≡ is_durable q dirs)
            → All (IsIn (IsSafe dirs)) fs
            → All (IsIn (IsSafe dirs')) fs
        All-IsSafe dirs dirs' [] same h = tt
        All-IsSafe dirs dirs' (f ∷ fs) same (h, hs) =
            (same f.prefix ∙ h, All-IsSafe dirs dirs' fs same hs)

    -- The same without a power loss, whatever the state of the earlier names.
    pub store_blocks-get_block :
        (fault : Option ℕ) (blocks : List Block) (disk : Disk)
        → All (IsNamed block_of hex_encode) blocks
        → IsContentAddressed block_of disk
        → (store_blocks hex_encode fault blocks disk).1 ≡ ok tt
        → All
            (λ b. get_block hex_encode (store_blocks hex_encode fault blocks disk).0 b.0 ≡ some b.1)
            blocks
    store_blocks-get_block fault blocks disk named good e =
        let disk' = (store_blocks hex_encode fault blocks disk).0 in
        let good' =
          store_blocks-IsContentAddressed block_of hex_encode fault blocks disk (λ d. d) (λ n. true)
            named good in
        All-get_block disk' blocks good'.0 named (store_blocks-Complete fault blocks disk e).0
