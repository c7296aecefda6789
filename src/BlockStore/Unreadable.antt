-- ===== src/BlockStore/Unreadable.antt =====
-- What is still found while some files cannot be read.
use proxygit.Prelude.{
  ◌≡◌, refl, ap, ◌∙◌, inl, inr, false, true, List, [], ◌∷◌, none, some, arith, Bool-cases, Bool,
}
use proxygit.Bytes.{Bytes}
use proxygit.Bytes.Laws.{bytes_eq→eq}
use proxygit.BlockStore.{
  Stored, Disk, is_file, find_stored, readable, readable_disk, block_prefix, get_block,
}

is_file-name : (p n : Bytes) (g : Stored) → is_file p n g ≡ true → g.name ≡ n
is_file-name p n g same = bytes_eq→eq g.name n (ground (arith, same))

find_stored-unreadable :
    (unreadable : Bytes → Bool) (p n : Bytes) (fs : List Stored)
    → unreadable n ≡ true
    → find_stored p n (readable unreadable fs) ≡ none
unfolding find_stored readable
find_stored-unreadable unreadable p n [] h = refl
find_stored-unreadable unreadable p n (g ∷ fs) h = elim (Bool-cases (unreadable g.name)) [
  | inl bad ↦ rw bad (find_stored-unreadable unreadable p n fs h)
  | inr fine ↦ elim (Bool-cases (is_file p n g)) [
    | inl same ↦ cc (ap unreadable (is_file-name p n g same))
    | inr other ↦ rw (fine, find_stored, other) (find_stored-unreadable unreadable p n fs h)
  ]
]

find_stored-readable :
    (unreadable : Bytes → Bool) (p n : Bytes) (fs : List Stored)
    → unreadable n ≡ false
    → find_stored p n (readable unreadable fs) ≡ find_stored p n fs
unfolding find_stored readable
find_stored-readable unreadable p n [] h = refl
find_stored-readable unreadable p n (g ∷ fs) h = elim (Bool-cases (is_file p n g)) [
  | inl same ↦
      let fine : unreadable g.name ≡ false = ap unreadable (is_file-name p n g same) ∙ h in
      rw (fine, find_stored, same) refl
  | inr other ↦ elim (Bool-cases (unreadable g.name)) [
    | inl bad ↦ rw (bad, other) (find_stored-readable unreadable p n fs h)
    | inr fine ↦ rw (fine, find_stored, other) (find_stored-readable unreadable p n fs h)
  ]
]

-- What is read while some files cannot be is what is there.
pub get_block-readable :
    (hex_encode : Bytes → Bytes) (unreadable : Bytes → Bool) (disk : Disk) (h d : Bytes)
    → get_block hex_encode (readable_disk unreadable disk) h ≡ some d
    → get_block hex_encode disk h ≡ some d
unfolding get_block
get_block-readable hex_encode unreadable disk h d e =
    elim (Bool-cases (unreadable (hex_encode h))) [
      | inl bad ↦ cc (
          rw
            (
              find_stored-unreadable unreadable (block_prefix hex_encode h) (hex_encode h)
                  disk.stored bad,
              get_block,
            )
            at e)
      | inr fine ↦
          rw
            (
              find_stored-readable unreadable (block_prefix hex_encode h) (hex_encode h) disk.stored
                  fine,
              get_block,
            )
            at e
    ]

readable_none : (fs : List Stored) → readable (λ n. false) fs ≡ fs
unfolding readable
readable_none [] = refl
readable_none (f ∷ fs) = ap (λ l. f ∷ l) (readable_none fs)

-- With every file readable, all are found.
pub readable_disk_none : (disk : Disk) → readable_disk (λ n. false) disk ≡ disk
readable_disk_none disk = ap (λ l. record disk { stored = l }) (readable_none disk.stored)
