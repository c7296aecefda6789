-- ===== src/Indexer/Laws.antt =====
-- What a reader of the index finds after an ingest or a deletion.
use proxygit.Prelude.{
  ℕ, ◌+◌, ◌<◌, ◌≤◌, ◌≡◌, refl, sym, ap, ◌∙◌, inl, inr, true, false, List, [], ◌∷◌, ◌++◌, map, All,
  if◌then◌else◌, none, some, arith, Bool-cases, append-nil, append_assoc,
}
use proxygit.Bytes.{Bytes, bytes_eq}
use proxygit.Bytes.Laws.{bytes_eq→eq, bytes_eq_refl}
use proxygit.Result.{ok}
use proxygit.Cdc.{ChunkResult}
use proxygit.Indexer.{
  FileEntry, BlockRow, Tables, upsert_file, stat_file, delete_entry, delete_rows, rows_of, has_row,
  insert_by_offset, order_by_offset, get_file_blocks, row_at, insert_rows, entry_for, ingest_chunks,
}

stat_file-upsert_file :
    (q : Bytes) (e : FileEntry) (fs : List FileEntry)
    → stat_file q (upsert_file e fs) ≡ (if bytes_eq e.path q then some e else stat_file q fs)
unfolding stat_file upsert_file
stat_file-upsert_file q e [] = refl
stat_file-upsert_file q e (f ∷ fs) = ground (
  arith,
  stat_file-upsert_file q e fs,
  bytes_eq→eq f.path e.path,
  bytes_eq→eq f.path q,
  bytes_eq→eq e.path q,
  bytes_eq_refl q,
  bytes_eq_refl e.path,
)

pub stat_file-delete_entry :
    (p q : Bytes) (fs : List FileEntry)
    → stat_file q (delete_entry p fs) ≡ (if bytes_eq p q then none else stat_file q fs)
unfolding stat_file delete_entry
stat_file-delete_entry p q [] = ground arith
stat_file-delete_entry p q (f ∷ fs) = ground (
  arith,
  stat_file-delete_entry p q fs,
  bytes_eq→eq f.path p,
  bytes_eq→eq f.path q,
  bytes_eq→eq p q,
  bytes_eq_refl q,
)

pub rows_of-delete_rows :
    (p q : Bytes) (rs : List BlockRow)
    → rows_of q (delete_rows p rs) ≡ (if bytes_eq p q then [] else rows_of q rs)
unfolding rows_of delete_rows
rows_of-delete_rows p q [] = ground arith
rows_of-delete_rows p q (r ∷ rs) = ground (
  arith,
  rows_of-delete_rows p q rs,
  bytes_eq→eq r.path p,
  bytes_eq→eq r.path q,
  bytes_eq→eq p q,
  bytes_eq_refl q,
)

rows_of-append :
    (q : Bytes) (rs ss : List BlockRow) → rows_of q (rs ++ ss) ≡ rows_of q rs ++ rows_of q ss
unfolding rows_of
rows_of-append q [] ss = refl
rows_of-append q (r ∷ rs) ss = elim (Bool-cases (bytes_eq r.path q)) [
  | inl e ↦ rw e (ap (λ t. r ∷ t) (rows_of-append q rs ss))
  | inr e ↦ rw e (rows_of-append q rs ss)
]

-- The chunks' offsets grow, from `lo` on.
abbrev pub Ascends : ℕ → List ChunkResult → Type 0
Ascends lo [] = Unit
Ascends lo (c ∷ cs) = (lo ≤ c.offset) × Ascends (c.offset + 1) cs

module _ (blake3 hex_encode : Bytes → Bytes) (p : Bytes) where
  abbrev pub rows_for : List ChunkResult → List BlockRow
  rows_for cs = map (λ c. row_at blake3 hex_encode p c) cs

  abbrev IsBelow : ℕ → BlockRow → Type 0
  IsBelow lo r = bytes_eq r.path p ≡ true → r.block_offset < lo

  has_row_below : (o : ℕ) (rs : List BlockRow) → All (IsBelow o) rs → has_row p o rs ≡ false
  has_row_below o [] h = refl
  has_row_below o (r ∷ rs) (h, hs) = elim (Bool-cases (bytes_eq r.path p)) [
    | inl e ↦ let lt = h e in ground (arith, has_row_below o rs hs)
    | inr e ↦ rw e (has_row_below o rs hs)
  ]

  IsBelow-mono : (a b : ℕ) (rs : List BlockRow) → a ≤ b → All (IsBelow a) rs → All (IsBelow b) rs
  IsBelow-mono a b [] h all = tt
  IsBelow-mono a b (r ∷ rs) h (x, xs) = (λ e. omega (arith, x e), IsBelow-mono a b rs h xs)

  IsBelow-snoc :
      (lo : ℕ) (r : BlockRow) (rs : List BlockRow)
      → All (IsBelow lo) rs
      → r.block_offset < lo
      → All (IsBelow lo) (rs ++ r ∷ [])
  IsBelow-snoc lo r [] all h = (λ e. h, tt)
  IsBelow-snoc lo r (x ∷ rs) (y, ys) h = (y, IsBelow-snoc lo r rs ys h)

  insert_rows-append :
      (lo : ℕ) (cs : List ChunkResult) (rs : List BlockRow)
      → Ascends lo cs
      → All (IsBelow lo) rs
      → insert_rows blake3 hex_encode p cs rs ≡ ok (rs ++ rows_for cs)
  unfolding insert_rows
  insert_rows-append lo [] rs a b = ap ok (sym (append-nil rs))
  insert_rows-append lo (c ∷ cs) rs (h, a) b =
      let row = row_at blake3 hex_encode p c in
      let below = IsBelow-mono lo c.offset rs h b in
      rw (has_row_below c.offset rs below) (
        insert_rows-append (c.offset + 1) cs (rs ++ row ∷ []) a (
          IsBelow-snoc (c.offset + 1) row rs (IsBelow-mono lo (c.offset + 1) rs (omega arith) b)
            (omega arith))
        ∙ ap ok (append_assoc rs (row ∷ []) (rows_for cs)))

  delete_rows-IsBelow : (lo : ℕ) (rs : List BlockRow) → All (IsBelow lo) (delete_rows p rs)
  unfolding delete_rows
  delete_rows-IsBelow lo [] = tt
  delete_rows-IsBelow lo (r ∷ rs) = elim (Bool-cases (bytes_eq r.path p)) [
    | inl e ↦ rw e (delete_rows-IsBelow lo rs)
    | inr e ↦ rw e ((λ t. cc), delete_rows-IsBelow lo rs)
  ]

  rows_of-rows_for : (cs : List ChunkResult) → rows_of p (rows_for cs) ≡ rows_for cs
  unfolding rows_of
  rows_of-rows_for [] = refl
  rows_of-rows_for (c ∷ cs) =
      rw (bytes_eq_refl p) (ap (λ t. row_at blake3 hex_encode p c ∷ t) (rows_of-rows_for cs))

  rows_of_other :
      (q : Bytes) (cs : List ChunkResult) → bytes_eq p q ≡ false → rows_of q (rows_for cs) ≡ []
  unfolding rows_of
  rows_of_other q [] e = refl
  rows_of_other q (c ∷ cs) e = rw e (rows_of_other q cs e)

  insert_by_offset_first :
      (c : ChunkResult) (cs : List ChunkResult)
      → Ascends (c.offset + 1) cs
      → insert_by_offset (row_at blake3 hex_encode p c) (rows_for cs)
        ≡ row_at blake3 hex_encode p c ∷ rows_for cs
  unfolding insert_by_offset
  insert_by_offset_first c [] a = refl
  insert_by_offset_first c (d ∷ cs) (h, a) = ground (arith, h)

  order_by_offset-rows_for :
      (lo : ℕ) (cs : List ChunkResult) → Ascends lo cs → order_by_offset (rows_for cs) ≡ rows_for cs
  unfolding order_by_offset
  order_by_offset-rows_for lo [] a = refl
  order_by_offset-rows_for lo (c ∷ cs) (h, a) =
      rw (order_by_offset-rows_for (c.offset + 1) cs a) (insert_by_offset_first c cs a)

  hashes_of-rows_for :
      (cs : List ChunkResult)
      → map (λ (r : BlockRow). r.block_hash) (rows_for cs)
        ≡ map (λ (c : ChunkResult). hex_encode c.hash) cs
  hashes_of-rows_for [] = refl
  hashes_of-rows_for (c ∷ cs) = ap (λ t. hex_encode c.hash ∷ t) (hashes_of-rows_for cs)

  -- What readers find in the tables `t'`, where a file `p` of these chunks replaced what `t` had.
  pub record IsIngested (now : ℕ) (cs : List ChunkResult) (t t' : Tables) : Type 0 where
    pub stat :
        (q : Bytes)
        → stat_file q t'.files ≡ (
            if bytes_eq p q
            then some (entry_for blake3 hex_encode now p cs)
            else stat_file q t.files)
    pub blocks : get_file_blocks p t'.file_blocks ≡ map (λ (c : ChunkResult). hex_encode c.hash) cs
    pub others :
        (q : Bytes)
        → get_file_blocks q t'.file_blocks ≡ (
            if bytes_eq p q
            then map (λ (c : ChunkResult). hex_encode c.hash) cs
            else get_file_blocks q t.file_blocks)

  -- Where the database works and the chunks' offsets ascend, an ingest succeeds: the file has the
  -- entry with the total size and the hash of the joined content, its hashes come back in the
  -- order of the chunks, and the entries and hashes of every other path are as before.
  pub ingest_chunks-IsIngested :
      (now lo : ℕ) (cs : List ChunkResult) (t : Tables)
      → Ascends lo cs
      → (t' : Tables) × (ingest_chunks blake3 hex_encode none now p cs t ≡ ok t')
        × IsIngested now cs t t'
  unfolding ingest_chunks get_file_blocks
  ingest_chunks-IsIngested now lo cs t a =
      let kept = delete_rows p t.file_blocks in
      let e = insert_rows-append lo cs kept a (delete_rows-IsBelow lo t.file_blocks) in
      let own : get_file_blocks p (kept ++ rows_for cs)
          ≡ map (λ (c : ChunkResult). hex_encode c.hash) cs =
        rw
          (
            rows_of-append p kept (rows_for cs),
            rows_of-delete_rows p p t.file_blocks,
            bytes_eq_refl p,
            rows_of-rows_for cs,
            order_by_offset-rows_for lo cs a,
          )
          (hashes_of-rows_for cs) in
      (
        record {
          files = upsert_file (entry_for blake3 hex_encode now p cs) t.files;
          file_blocks = kept ++ rows_for cs;
        },
        rw e,
        record {
          stat = λ q. stat_file-upsert_file q (entry_for blake3 hex_encode now p cs) t.files;
          blocks = own;
          others = λ q. elim (Bool-cases (bytes_eq p q)) [
            | inl same ↦ rw (same, ← bytes_eq→eq p q same) own
            | inr ne ↦ rw (
              rows_of-append q kept (rows_for cs),
              rows_of-delete_rows p q t.file_blocks,
              ne,
              rows_of_other q cs ne,
              append-nil (rows_of q t.file_blocks),
            )
          ];
        },
      )
