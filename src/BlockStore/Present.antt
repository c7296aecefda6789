-- ===== src/BlockStore/Present.antt =====
-- Which names are in the staging directory and under block paths while a batch runs.
use proxygit.Prelude.{
  ◌≡◌, refl, sym, ap, ◌∙◌, inl, inr, Bool, true, false, ◌||◌, List, [], ◌∷◌, ◌++◌, All, none, some,
  arith, Bool-cases, Option-cases,
}
use proxygit.Bytes.{Bytes, bytes_eq}
use proxygit.Bytes.Laws.{bytes_eq→eq, bytes_eq_refl}
use proxygit.BlockStore.{
  Staged, Stored, Disk, FsOp, create_dir, rename, without, find_staged, mark_synced, mark_linked,
  is_file, find_stored, put_stored, apply, run, Block, block_prefix, stage_ops, rename_ops, parents,
  sync_ops, store_ops,
}

abbrev has_staged : Bytes → List Staged → Bool
has_staged n [] = false
has_staged n (f ∷ fs) = bytes_eq f.name n || has_staged n fs

abbrev pub has_stored : Bytes → Bytes → List Stored → Bool
has_stored p n [] = false
has_stored p n (f ∷ fs) = is_file p n f || has_stored p n fs

pub has_stored-find :
    (p n : Bytes) (fs : List Stored)
    → has_stored p n fs ≡ true
    → (f : Stored) × (find_stored p n fs ≡ some f)
unfolding find_stored
has_stored-find p n [] h = cc
has_stored-find p n (f ∷ fs) h = elim (Bool-cases (is_file p n f)) [
  | inl e ↦ (f, rw e)
  | inr e ↦ let (g, found) = has_stored-find p n fs (rw e at h) in (g, rw e found)
]

pub find-has_stored :
    (p n : Bytes) (fs : List Stored) (f : Stored)
    → find_stored p n fs ≡ some f
    → has_stored p n fs ≡ true
unfolding find_stored
find-has_stored p n [] f h = cc
find-has_stored p n (g ∷ fs) f h = elim (Bool-cases (is_file p n g)) [
  | inl e ↦ rw e
  | inr e ↦ rw e (find-has_stored p n fs f (rw e at h))
]

pub run-append :
    (ops more : List FsOp) (disk : Disk) → run (ops ++ more) disk ≡ run more (run ops disk)
unfolding run
run-append [] more disk = refl
run-append (op ∷ ops) more disk = run-append ops more (apply op disk)

has_staged-without :
    (m n : Bytes) (fs : List Staged)
    → bytes_eq n m ≡ false
    → has_staged m (without n fs) ≡ has_staged m fs
unfolding without
has_staged-without m n [] h = refl
has_staged-without m n (f ∷ fs) h = elim (Bool-cases (bytes_eq f.name n)) [
  | inl e ↦ rw e (ground (arith, bytes_eq→eq f.name n e, has_staged-without m n fs h, h))
  | inr e ↦ rw e (ap (λ t. bytes_eq f.name m || t) (has_staged-without m n fs h))
]

has_staged-mark_synced :
    (m n : Bytes) (fs : List Staged) → has_staged m (mark_synced n fs) ≡ has_staged m fs
unfolding mark_synced
has_staged-mark_synced m n [] = refl
has_staged-mark_synced m n (f ∷ fs) = elim (Bool-cases (bytes_eq f.name n)) [
  | inl e ↦ rw e (ap (λ t. bytes_eq f.name m || t) (has_staged-mark_synced m n fs))
  | inr e ↦ rw e (ap (λ t. bytes_eq f.name m || t) (has_staged-mark_synced m n fs))
]

pub has_stored-mark_linked :
    (p n q : Bytes) (fs : List Stored) → has_stored p n (mark_linked q fs) ≡ has_stored p n fs
unfolding mark_linked
has_stored-mark_linked p n q [] = refl
has_stored-mark_linked p n q (f ∷ fs) = elim (Bool-cases (bytes_eq f.prefix q)) [
  | inl e ↦ rw e (ap (λ t. is_file p n f || t) (has_stored-mark_linked p n q fs))
  | inr e ↦ rw e (ap (λ t. is_file p n f || t) (has_stored-mark_linked p n q fs))
]

pub has_stored-put_self :
    (g : Stored) (fs : List Stored) → has_stored g.prefix g.name (put_stored g fs) ≡ true
unfolding put_stored
has_stored-put_self g [] = rw (bytes_eq_refl g.prefix, bytes_eq_refl g.name)
has_stored-put_self g (f ∷ fs) = elim (Bool-cases (is_file g.prefix g.name f)) [
  | inl e ↦ rw e (rw (bytes_eq_refl g.prefix, bytes_eq_refl g.name))
  | inr e ↦ rw e (rw e (has_stored-put_self g fs))
]

pub has_stored-put :
    (p n : Bytes) (g : Stored) (fs : List Stored)
    → has_stored p n fs ≡ true
    → has_stored p n (put_stored g fs) ≡ true
unfolding put_stored
has_stored-put p n g [] h = cc
has_stored-put p n g (f ∷ fs) h = elim (Bool-cases (is_file g.prefix g.name f)) [
  | inl e ↦ ground (arith, bytes_eq→eq f.prefix g.prefix, bytes_eq→eq f.name g.name, h, e)
  | inr e ↦ rw e (ground (arith, has_stored-put p n g fs, h))
]

find_staged-none :
    (n : Bytes) (fs : List Staged) → find_staged n fs ≡ none → has_staged n fs ≡ false
unfolding find_staged
find_staged-none n [] h = refl
find_staged-none n (f ∷ fs) h = elim (Bool-cases (bytes_eq f.name n)) [
  | inl e ↦ ground (arith, e, h)
  | inr e ↦ rw e (find_staged-none n fs (rw e at h))
]

or_true : (a b : Bool) → b ≡ true → (a || b) ≡ true
or_true a b h = ground arith

or_mono : (a b c : Bool) → (b ≡ true → c ≡ true) → (a || b) ≡ true → (a || c) ≡ true
or_mono true b c f h = refl
or_mono false b c f h = f h

module _ (hex_encode : Bytes → Bytes) where
  -- A block's name is staged or already under its block path.
  abbrev IsHeld : Disk → Block → Type 0
  IsHeld disk b =
      (has_staged (hex_encode b.0) disk.staged
        || has_stored (block_prefix hex_encode b.0) (hex_encode b.0) disk.stored)
      ≡ true

  abbrev pub IsPresent : Disk → Block → Type 0
  IsPresent disk b = has_stored (block_prefix hex_encode b.0) (hex_encode b.0) disk.stored ≡ true

  staged_step :
      (m n d : Bytes) (fs : List Staged)
      → (bytes_eq n m || has_staged m fs) ≡ true
      → has_staged m
          (mark_synced n (record { name = n; content = d; synced = false } ∷ without n fs))
        ≡ true
  staged_step m n d fs h = has_staged-mark_synced m n _ ∙ (elim (Bool-cases (bytes_eq n m)) [
    | inl e ↦ rw e
    | inr e ↦ rw e (has_staged-without m n fs e ∙ (rw e at h))
  ])

  -- Staging keeps what is held and adds the batch.
  stage_ops-held :
      (blocks : List Block) (disk : Disk) (m : Bytes)
      → has_staged m disk.staged ≡ true
      → has_staged m (run (stage_ops hex_encode blocks) disk).staged ≡ true
  unfolding stage_ops run apply
  stage_ops-held [] disk m h = h
  stage_ops-held ((hash, d) ∷ blocks) disk m h =
      stage_ops-held blocks _ m (staged_step m (hex_encode hash) d disk.staged (ground (arith, h)))

  stage_ops-staged :
      (blocks : List Block) (disk : Disk)
      → All
          (λ b. has_staged (hex_encode b.0) (run (stage_ops hex_encode blocks) disk).staged ≡ true)
          blocks
  unfolding stage_ops run apply
  stage_ops-staged [] disk = tt
  stage_ops-staged ((hash, d) ∷ blocks) disk =
      let n = hex_encode hash in
      (
        stage_ops-held blocks _ n (staged_step n n d disk.staged (rw (bytes_eq_refl n))),
        stage_ops-staged blocks _,
      )

  pub stage_ops-stored :
      (blocks : List Block) (disk : Disk)
      → (run (stage_ops hex_encode blocks) disk).stored ≡ disk.stored
  unfolding stage_ops run apply
  stage_ops-stored [] disk = refl
  stage_ops-stored (b ∷ blocks) disk = stage_ops-stored blocks _

  -- A rename of `n` keeps every other name held, and puts a held `n` under its path.
  rename-IsHeld :
      (hash : Bytes) (disk : Disk) (b : Block)
      → IsHeld disk b
      → IsHeld (apply (rename (hex_encode hash) (block_prefix hex_encode hash)) disk) b
  unfolding apply
  rename-IsHeld hash disk b h = elim (Option-cases (find_staged (hex_encode hash) disk.staged)) [
    | inl e ↦ rw e h
    | inr (f, e) ↦
        let n = hex_encode hash in
        let g : Stored = record {
          prefix = block_prefix hex_encode hash;
          name = n;
          content = f.content;
          synced = f.synced;
          linked = false;
        } in
        rw e (elim (Bool-cases (bytes_eq n (hex_encode b.0))) [
          | inl same ↦
              let e' = sym (bytes_eq→eq n (hex_encode b.0) same) in
              rw e' (or_true _ _ (has_stored-put_self g disk.stored))
          | inr other ↦
              rw (has_staged-without (hex_encode b.0) n disk.staged other)
                (or_mono _ _ _ (has_stored-put _ _ g disk.stored) h)
        ])
  ]

  rename-IsPresent :
      (hash : Bytes) (disk : Disk) (b : Block)
      → IsPresent disk b
      → IsPresent (apply (rename (hex_encode hash) (block_prefix hex_encode hash)) disk) b
  unfolding apply
  rename-IsPresent hash disk b h = elim (Option-cases (find_staged (hex_encode hash) disk.staged)) [
    | inl e ↦ rw e h
    | inr (f, e) ↦ rw e (has_stored-put _ _ _ disk.stored h)
  ]

  rename_self :
      (hash d : Bytes) (disk : Disk)
      → IsHeld disk (hash, d)
      → IsPresent (apply (rename (hex_encode hash) (block_prefix hex_encode hash)) disk) (hash, d)
  unfolding apply
  rename_self hash d disk h = elim (Option-cases (find_staged (hex_encode hash) disk.staged)) [
    | inl e ↦ rw e (rw (find_staged-none (hex_encode hash) disk.staged e) at h)
    | inr (f, e) ↦
        let g : Stored = record {
          prefix = block_prefix hex_encode hash;
          name = hex_encode hash;
          content = f.content;
          synced = f.synced;
          linked = false;
        } in
        rw e (has_stored-put_self g disk.stored)
  ]

  rename_ops-keep :
      (blocks : List Block) (disk : Disk) (b : Block)
      → IsPresent disk b
      → IsPresent (run (rename_ops hex_encode blocks) disk) b
  unfolding rename_ops run
  rename_ops-keep [] disk b h = h
  rename_ops-keep ((hash, d) ∷ blocks) disk b h =
      let made : Disk = apply (create_dir (block_prefix hex_encode hash)) disk in
      let h' : IsPresent made b = unfold apply in h in
      rename_ops-keep blocks _ b (rename-IsPresent hash made b h')

  rename_ops-IsPresent :
      (blocks : List Block) (disk : Disk)
      → All (IsHeld disk) blocks
      → All (IsPresent (run (rename_ops hex_encode blocks) disk)) blocks
  unfolding rename_ops run
  rename_ops-IsPresent [] disk a = tt
  rename_ops-IsPresent ((hash, d) ∷ blocks) disk (h, a) =
      let made : Disk = apply (create_dir (block_prefix hex_encode hash)) disk in
      let h' : IsHeld made (hash, d) = unfold apply in h in
      let a' : All (IsHeld made) blocks = unfold apply in a in
      let next : Disk = apply (rename (hex_encode hash) (block_prefix hex_encode hash)) made in
      (
        rename_ops-keep blocks next (hash, d) (rename_self hash d made h'),
        rename_ops-IsPresent blocks next (All-IsHeld blocks made a'),
      )
    where
      All-IsHeld :
          (bs : List Block) (k : Disk)
          → All (IsHeld k) bs
          → All (IsHeld (apply (rename (hex_encode hash) (block_prefix hex_encode hash)) k)) bs
      All-IsHeld [] k a = tt
      All-IsHeld (b ∷ bs) k (h, a) = (rename-IsHeld hash k b h, All-IsHeld bs k a)

  sync_ops-IsPresent :
      (ps : List Bytes) (disk : Disk) (b : Block)
      → IsPresent disk b
      → IsPresent (run (sync_ops ps) disk) b
  unfolding sync_ops run apply
  sync_ops-IsPresent [] disk b h = h
  sync_ops-IsPresent (p ∷ ps) disk b h =
      sync_ops-IsPresent ps _ b (has_stored-mark_linked _ _ p disk.stored ∙ h)

  All-IsPresent-sync :
      (ps : List Bytes) (disk : Disk) (bs : List Block)
      → All (IsPresent disk) bs
      → All (IsPresent (run (sync_ops ps) disk)) bs
  All-IsPresent-sync ps disk [] a = tt
  All-IsPresent-sync ps disk (b ∷ bs) (h, a) =
      (sync_ops-IsPresent ps disk b h, All-IsPresent-sync ps disk bs a)

  IsHeld-staged :
      (disk : Disk) (bs : List Block)
      → All (λ b. has_staged (hex_encode b.0) disk.staged ≡ true) bs
      → All (IsHeld disk) bs
  IsHeld-staged disk [] a = tt
  IsHeld-staged disk (b ∷ bs) (h, a) = (rw h, IsHeld-staged disk bs a)

  -- The whole list of operations puts every block of the batch under its block path.
  pub store_ops-IsPresent :
      (pending : List Block) (disk : Disk)
      → All (IsPresent (run (store_ops hex_encode pending) disk)) pending
  unfolding store_ops
  store_ops-IsPresent pending disk =
      let stages = stage_ops hex_encode pending in
      let renames = rename_ops hex_encode pending in
      let syncs = sync_ops (parents hex_encode [] pending) in
      rw (run-append stages (renames ++ syncs) disk, run-append renames syncs (run stages disk))
        (All-IsPresent-sync (parents hex_encode [] pending) (run renames (run stages disk)) pending
          (rename_ops-IsPresent pending (run stages disk)
            (IsHeld-staged (run stages disk) pending (stage_ops-staged pending disk))))

  -- What was stored before stays under its path.
  pub store_ops-keep :
      (pending : List Block) (disk : Disk) (b : Block)
      → IsPresent disk b
      → IsPresent (run (store_ops hex_encode pending) (record disk { staged = [] })) b
  unfolding store_ops
  store_ops-keep pending disk b h =
      let fresh : Disk = record disk { staged = [] } in
      let stages = stage_ops hex_encode pending in
      let renames = rename_ops hex_encode pending in
      let syncs = sync_ops (parents hex_encode [] pending) in
      let kept : IsPresent (run stages fresh) b = rw (stage_ops-stored pending fresh) h in
      rw (run-append stages (renames ++ syncs) fresh, run-append renames syncs (run stages fresh))
        (sync_ops-IsPresent (parents hex_encode [] pending) (run renames (run stages fresh)) b
          (rename_ops-keep pending (run stages fresh) b kept))
