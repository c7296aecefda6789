-- ===== src/Server/Files/Steps.antt =====
-- The two steps of every write: blocks are stored, and tables are replaced.
use proxygit.Prelude.{
  ℕ, ◌≡◌, refl, ◌∙◌, subst, inl, inr, true, false, List, [], ◌∷◌, ◌==◌, All, length, Option, none,
  some, arith, Bool-cases, ==_iff,
}
use proxygit.Bytes.{Bytes, bytes_eq}
use proxygit.Bytes.Laws.{bytes_eq→eq, bytes_eq_refl}
use proxygit.Result.{Result, ok, err, Error, ok-injective}
use proxygit.Cdc.{ChunkResult, default_config, process_buffer, reconstruct}
use proxygit.BlockStore.{Disk, Block, store_blocks, store_file, get_block}
use proxygit.BlockStore.Crash.{IsContentAddressed, IsNamed, store_blocks-IsContentAddressed}
use proxygit.BlockStore.Grow.{get_block-store_blocks}
use proxygit.Indexer.{Tables, stat_file, get_file_blocks, ingest_chunks, delete_file}
use proxygit.Indexer.Laws.{
  stat_file-delete_entry, rows_of-delete_rows, Ascends, IsIngested, ingest_chunks-IsIngested,
}
use proxygit.Server.{Env, AppState, set_tables}
use proxygit.Server.Write.Readable.{IsHeld}
use proxygit.BlockStore.Durable.{store_blocks-get_block}
use proxygit.Server.Write.ReadBack.{
  Chunked-IsHeld, Chunked-Ascends, process_buffer-known, blocks_of,
}
use proxygit.Server.Files.{FileMap, replaced, HoldsFile, Refines}

module _ (env : Env) (block_of : Bytes → Bytes) where
  All-IsHeld :
      (disk disk' : Disk)
      → ((k : ChunkResult) → IsHeld env disk k → IsHeld env disk' k)
      → (ks : List ChunkResult) → All (IsHeld env disk) ks
      → All (IsHeld env disk') ks
  All-IsHeld disk disk' f [] h = tt
  All-IsHeld disk disk' f (k ∷ ks) (h, hs) = (f k h, All-IsHeld disk disk' f ks hs)

  HoldsFile-mono :
      (disk disk' : Disk) (t : Tables) (path : Bytes) (content : Option Bytes)
      → ((k : ChunkResult) → IsHeld env disk k → IsHeld env disk' k)
      → HoldsFile env disk t path content
      → HoldsFile env disk' t path content
  HoldsFile-mono disk disk' t path none f h = h
  HoldsFile-mono disk disk' t path (some d) f (now, ks, stat, blocks, held, joined) =
      (now, ks, stat, blocks, All-IsHeld disk disk' f ks held, joined)

  -- Storing a batch, whether it fails or not, keeps the files.
  pub store_blocks-Refines :
      (fault : Option ℕ) (blocks : List Block) (st : AppState) (files : FileMap)
      → All (IsNamed block_of env.hex_encode) blocks
      → Refines env block_of st files
      → Refines env block_of
          (record st { disk = (store_blocks env.hex_encode fault blocks st.disk).0 })
          files
  store_blocks-Refines fault blocks st files named r =
      let disk' = (store_blocks env.hex_encode fault blocks st.disk).0 in
      record {
        addressed =
            (store_blocks-IsContentAddressed block_of env.hex_encode fault blocks st.disk (λ x. x)
              (λ x. true) named r.addressed).0;
        holds = λ p path.
            HoldsFile-mono st.disk disk' (st.tables p) path (files p path)
              (λ k h. (
                get_block-store_blocks env.hex_encode block_of fault blocks st.disk k.hash k.content
                    named r.addressed h.0,
                h.1,
                h.2,
              ))
              (r.holds p path);
      }

  store_file-Refines :
      (fault : Option ℕ) (ks : List ChunkResult) (st : AppState) (files : FileMap)
      → All (IsNamed block_of env.hex_encode) (blocks_of ks)
      → Refines env block_of st files
      → Refines env block_of
          (record st { disk = (store_file env.hex_encode fault ks st.disk).0 })
          files
  unfolding store_file
  store_file-Refines fault [] st files named r = r
  store_file-Refines fault (k ∷ ks) st files named r =
      store_blocks-Refines fault (blocks_of (k ∷ ks)) st files named r

  -- What readers find in tables that replaced `t` with another content of one file.
  abbrev Changes : Disk → Bytes → Option Bytes → Tables → Tables → Type 0
  Changes disk path content t t' =
      HoldsFile env disk t' path content
      × ((q : Bytes)
          → bytes_eq path q ≡ false
          → (stat_file q t'.files ≡ stat_file q t.files)
            × (get_file_blocks q t'.file_blocks ≡ get_file_blocks q t.file_blocks))

  HoldsFile-same :
      (disk : Disk) (t t' : Tables) (q : Bytes) (content : Option Bytes)
      → (stat_file q t'.files ≡ stat_file q t.files)
      → (get_file_blocks q t'.file_blocks ≡ get_file_blocks q t.file_blocks)
      → HoldsFile env disk t q content
      → HoldsFile env disk t' q content
  HoldsFile-same disk t t' q none s b h = s ∙ h
  HoldsFile-same disk t t' q (some d) s b (now, ks, stat, blocks, held, joined) =
      (now, ks, s ∙ stat, b ∙ blocks, held, joined)

  set_tables-Refines :
      (p : ℕ) (path : Bytes) (content : Option Bytes) (t' : Tables) (st : AppState)
      (files : FileMap)
      → Changes st.disk path content (st.tables p) t'
      → Refines env block_of st files
      → Refines env block_of
          (record st { tables = set_tables p t' st.tables })
          (replaced p path content files)
  unfolding set_tables replaced
  set_tables-Refines p path content t' st files (here, there) r = record {
    addressed = r.addressed;
    holds = λ q path'. elim (Bool-cases (q == p)) [
      | inr other ↦ rw other (r.holds q path')
      | inl same ↦
          let e : q ≡ p = (==_iff q p).0 same in
          rw same (elim (Bool-cases (bytes_eq path path')) [
            | inl it ↦
                rw it
                  (subst (λ z. HoldsFile env st.disk t' z content) (bytes_eq→eq path path' it) here)
            | inr another ↦
                let (s, b) = there path' another in
                rw another (
                  HoldsFile-same st.disk (st.tables p) t' path' (files q path') s b (
                    subst (λ z. HoldsFile env st.disk (st.tables z) path' (files q path')) e
                      (r.holds q path')))
          ])
    ];
  }

  -- Ingesting held chunks replaces the file by their joined content, or fails.
  ingest_chunks-Changes :
      (fault : Option Error) (now : ℕ) (path : Bytes) (ks : List ChunkResult) (disk : Disk)
      (t t' : Tables)
      → All (IsHeld env disk) ks
      → Ascends 0 ks
      → ingest_chunks env.blake3 env.hex_encode fault now path ks t ≡ ok t'
      → Changes disk path (some (reconstruct ks)) t t'
  unfolding ingest_chunks
  ingest_chunks-Changes (some e) now path ks disk t t' held up done = cc
  ingest_chunks-Changes none now path ks disk t t' held up done =
      let (t2, e, i) = ingest_chunks-IsIngested env.blake3 env.hex_encode path now 0 ks t up in
      let same : t2 ≡ t' = cc in
      let i' : IsIngested env.blake3 env.hex_encode path now ks t t' =
        subst (λ z. IsIngested env.blake3 env.hex_encode path now ks t z) same i in
      let stat = i'.stat path in
      (
        (now, ks, rw (bytes_eq_refl path) at stat, i'.blocks, held, refl),
        λ q other. (rw other at (i'.stat q), rw other at (i'.others q)),
      )

  -- Deleting removes the file, or fails.
  delete_file-Changes :
      (fault : Option Error) (path : Bytes) (disk : Disk) (t t' : Tables)
      → delete_file fault path t ≡ ok t'
      → Changes disk path none t t'
  unfolding delete_file get_file_blocks
  delete_file-Changes (some e) path disk t t' done = cc
  delete_file-Changes none path disk t t' done =
      subst (Changes disk path none t) (ok-injective done) (
        rw (stat_file-delete_entry path path t.files, bytes_eq_refl path) refl,
        λ q other. (
          rw (stat_file-delete_entry path q t.files, other) refl,
          rw (rows_of-delete_rows path q t.file_blocks, other) refl,
        ),
      )

  -- After the blocks of named chunks were stored the disk has every chunk.
  store_file-IsHeld :
      (wide : (d : Bytes) → length (env.blake3 d) ≡ 32) (fault : Option ℕ) (content : Bytes)
      (ks : List ChunkResult) (st : AppState)
      → process_buffer env.blake3 default_config content ≡ some ks
      → All (IsNamed block_of env.hex_encode) (blocks_of ks)
      → IsContentAddressed block_of st.disk
      → (store_file env.hex_encode fault ks st.disk).1 ≡ ok tt
      → All (IsHeld env (store_file env.hex_encode fault ks st.disk).0) ks
  unfolding store_file store_blocks
  store_file-IsHeld wide fault content ks st chunks named good done =
      let (joined, c) = process_buffer-known env content ks chunks in
      Chunked-IsHeld env _ 0 ks wide c (stored ks named done)
    where
      stored :
          (ks : List ChunkResult)
          → All (IsNamed block_of env.hex_encode) (blocks_of ks)
          → (store_file env.hex_encode fault ks st.disk).1 ≡ ok tt
          → All
              (λ (b : Block).
                get_block env.hex_encode (store_file env.hex_encode fault ks st.disk).0 b.0
                ≡ some b.1)
              (blocks_of ks)
      stored [] named done = tt
      stored (k ∷ ks) named done =
          store_blocks-get_block env.hex_encode block_of fault (blocks_of (k ∷ ks)) st.disk named
            good done

  -- What storing the blocks of chunks left: the files as before, and if it did not fail every
  -- chunk on the disk.
  abbrev pub StoreOutcome :
      AppState → FileMap → List ChunkResult → Disk × Result (Unit {0}) → Type 0
  StoreOutcome st files ks (disk, err e) = Refines env block_of (record st { disk = disk }) files
  StoreOutcome st files ks (disk, ok u) =
      Refines env block_of (record st { disk = disk }) files × All (IsHeld env disk) ks

  pub store_file-StoreOutcome :
      ((d : Bytes) → length (env.blake3 d) ≡ 32)
      → (fault : Option ℕ) (content : Bytes) (ks : List ChunkResult) (st : AppState)
        (files : FileMap)
      → process_buffer env.blake3 default_config content ≡ some ks
      → All (IsNamed block_of env.hex_encode) (blocks_of ks)
      → Refines env block_of st files
      → StoreOutcome st files ks (store_file env.hex_encode fault ks st.disk)
  store_file-StoreOutcome wide fault content ks st files chunks named r =
      outcome (store_file env.hex_encode fault ks st.disk)
        (store_file-Refines fault ks st files named r)
        (store_file-IsHeld wide fault content ks st chunks named r.addressed)
    where
      outcome :
          (s : Disk × Result (Unit {0}))
          → Refines env block_of (record st { disk = s.0 }) files
          → (s.1 ≡ ok tt → All (IsHeld env s.0) ks)
          → StoreOutcome st files ks s
      outcome (disk, err e) kept held = kept
      outcome (disk, ok u) kept held = (kept, held refl)

  -- What a transaction on one file left: nothing, or tables with the file replaced.
  abbrev pub TableOutcome : AppState → FileMap → ℕ → Bytes → Option Bytes → Result Tables → Type 0
  TableOutcome st files p path content (err e) = Unit
  TableOutcome st files p path content (ok t) =
      Refines env block_of (record st { tables = set_tables p t st.tables })
        (replaced p path content files)

  changed :
      (p : ℕ) (path : Bytes) (content : Option Bytes) (st : AppState) (files : FileMap)
      (r : Result Tables)
      → ((t : Tables) → r ≡ ok t → Changes st.disk path content (st.tables p) t)
      → Refines env block_of st files
      → TableOutcome st files p path content r
  changed p path content st files (err e) change r = tt
  changed p path content st files (ok t) change r =
      set_tables-Refines p path content t st files (change t refl) r

  pub ingest_chunks-TableOutcome :
      (fault : Option Error) (now p : ℕ) (path : Bytes) (ks : List ChunkResult) (st : AppState)
      (files : FileMap)
      → All (IsHeld env st.disk) ks
      → Ascends 0 ks
      → Refines env block_of st files
      → TableOutcome st files p path
          (some (reconstruct ks))
          (ingest_chunks env.blake3 env.hex_encode fault now path ks (st.tables p))
  ingest_chunks-TableOutcome fault now p path ks st files held up r =
      changed p path (some (reconstruct ks)) st files _
        (λ t done. ingest_chunks-Changes fault now path ks st.disk (st.tables p) t held up done) r

  -- The same for the chunks of a content.
  pub ingest_content-TableOutcome :
      (fault : Option Error) (now p : ℕ) (path content : Bytes) (ks : List ChunkResult)
      (st : AppState) (files : FileMap)
      → process_buffer env.blake3 default_config content ≡ some ks
      → All (IsHeld env st.disk) ks
      → Refines env block_of st files
      → TableOutcome st files p path
          (some content)
          (ingest_chunks env.blake3 env.hex_encode fault now path ks (st.tables p))
  ingest_content-TableOutcome fault now p path content ks st files chunks held r =
      let (joined, c) = process_buffer-known env content ks chunks in
      subst
        (λ d.
          TableOutcome st files p path (some d)
            (ingest_chunks env.blake3 env.hex_encode fault now path ks (st.tables p)))
        joined
        (ingest_chunks-TableOutcome fault now p path ks st files held
          (Chunked-Ascends env 0 0 ks (omega arith) c) r)

  pub delete_file-TableOutcome :
      (fault : Option Error) (p : ℕ) (path : Bytes) (st : AppState) (files : FileMap)
      → Refines env block_of st files
      → TableOutcome st files p path none (delete_file fault path (st.tables p))
  delete_file-TableOutcome fault p path st files r =
      changed p path none st files _
        (λ t done. delete_file-Changes fault path st.disk (st.tables p) t done) r
