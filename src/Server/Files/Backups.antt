-- ===== src/Server/Files/Backups.antt =====
-- A backup and its restore, `create_project_backup` and `restore_project_backup` of
-- crates/proxygit-server/src/lib.rs, on the map of files.
use proxygit.Prelude.{
  ℕ, ◌≡◌, refl, sym, ap, ◌∙◌, subst, inl, inr, Bool, true, false, ◌||◌, List, [], ◌∷◌, ◌==◌, map,
  All, if◌then◌else◌, Option, none, some, arith, Bool-cases,
}
use proxygit.Bytes.{Bytes, bytes_eq}
use proxygit.Bytes.Laws.{bytes_eq→eq, bytes_eq_refl}
use proxygit.Result.{ok}
use proxygit.Cdc.{ChunkResult, reconstruct}
use proxygit.Indexer.{FileEntry, insert_by_path, list_files, stat_file, get_file_blocks}
use proxygit.Server.{Env, AppState, calm, query}
use proxygit.Server.Write.Readable.{HexLaw, IsHeld, read_blocks-reconstruct}
use proxygit.Server.Backup.{TarEntry, content_of, collect}
use proxygit.Server.Files.{FileMap, HoldsFile, Refines, replaced, overlaid}

abbrev pub or_else {ℓ} : {A : Type ℓ} → Option A → Option A → Option A
or_else none b = b
or_else (some a) b = some a

-- The content of the last file of the list with the path.
unfoldable pub last_of : Bytes → List (Bytes × Bytes) → Option Bytes
last_of path [] = none
last_of path ((q, d) ∷ list) =
    or_else (last_of path list) (if bytes_eq q path then some d else none)

-- Two maps of files have the same content everywhere.
pub Refines-ext :
    (env : Env) (block_of : Bytes → Bytes) (st : AppState) (files files' : FileMap)
    → ((p : ℕ) (path : Bytes) → files p path ≡ files' p path)
    → Refines env block_of st files
    → Refines env block_of st files'
Refines-ext env block_of st files files' same r = record {
  addressed = r.addressed;
  holds = λ p path. subst (HoldsFile env st.disk (st.tables p) path) (same p path) (r.holds p path);
}

or_else-if :
    (o : Option Bytes) (c : Bool) (d : Bytes) (z : Option Bytes)
    → or_else o (if c then some d else z) ≡ or_else (or_else o (if c then some d else none)) z
or_else-if none true d z = refl
or_else-if none false d z = refl
or_else-if (some x) c d z = refl

-- Putting a list over the map gives its last content for a path, or else the map's.
pub overlaid-last_of :
    (p : ℕ) (list : List (Bytes × Bytes)) (files : FileMap) (q : ℕ) (path : Bytes)
    → overlaid p list files q path
      ≡ (if q == p then or_else (last_of path list) (files q path) else files q path)
unfolding overlaid last_of replaced
overlaid-last_of p [] files q path = ground arith
overlaid-last_of p ((r, d) ∷ list) files q path =
    overlaid-last_of p list (replaced p r (some d) files) q path ∙ (elim (Bool-cases (q == p)) [
      | inl e ↦ rw e (or_else-if (last_of path list) (bytes_eq r path) d (files q path))
      | inr e ↦ rw e refl
    ])

-- Whether an entry has the path.
abbrev has_path : Bytes → List FileEntry → Bool
has_path path [] = false
has_path path (f ∷ fs) = bytes_eq f.path path || has_path path fs

has_path-insert_by_path :
    (path : Bytes) (e : FileEntry) (fs : List FileEntry)
    → has_path path (insert_by_path e fs) ≡ (bytes_eq e.path path || has_path path fs)
unfolding insert_by_path
has_path-insert_by_path path e [] = refl
has_path-insert_by_path path e (f ∷ fs) = ground (arith, has_path-insert_by_path path e fs)

has_path-list_files :
    (path : Bytes) (fs : List FileEntry) → has_path path (list_files fs) ≡ has_path path fs
unfolding list_files
has_path-list_files path [] = refl
has_path-list_files path (f ∷ fs) =
    has_path-insert_by_path path f (list_files fs)
    ∙ ap (λ b. bytes_eq f.path path || b) (has_path-list_files path fs)

stat_file-absent :
    (path : Bytes) (fs : List FileEntry) → stat_file path fs ≡ none → has_path path fs ≡ false
unfolding stat_file
stat_file-absent path [] h = refl
stat_file-absent path (f ∷ fs) h = ground (arith, stat_file-absent path fs, h)

absent-stat_file :
    (path : Bytes) (fs : List FileEntry) → has_path path fs ≡ false → stat_file path fs ≡ none
unfolding stat_file
absent-stat_file path [] h = refl
absent-stat_file path (f ∷ fs) h = ground (arith, absent-stat_file path fs, h)

abbrev pub packed : List TarEntry → List (Bytes × Bytes)
packed entries = map (λ (e : TarEntry). (e.path, e.content)) entries

module _ (env : Env) (block_of : Bytes → Bytes) (hex : HexLaw env) (p now : ℕ) (st : AppState)
    (files : FileMap) (r : Refines env block_of st files) where
  IsThere : FileEntry → Type 0
  IsThere e = (d : Bytes) × (files p e.path ≡ some d)

  content_of-held :
      (ks : List ChunkResult)
      → All (IsHeld env st.disk) ks
      → content_of (calm now) st.disk (map (λ (k : ChunkResult). env.hex_encode k.hash) ks)
        ≡ ok (reconstruct ks)
  unfolding reconstruct query
  content_of-held [] held = refl
  content_of-held (k ∷ ks) held = read_blocks-reconstruct env st.disk (k ∷ ks) hex held

  content_of-file :
      (path d : Bytes)
      → HoldsFile env st.disk (st.tables p) path (some d)
      → content_of (calm now) st.disk (get_file_blocks path (st.tables p).file_blocks) ≡ ok d
  content_of-file path d (at, ks, stat, blocks, held, joined) =
      rw blocks (content_of-held ks held ∙ ap ok joined)

  -- What the archive is to have.
  abbrev IsCollected : List FileEntry → List TarEntry → Type 0
  IsCollected es entries =
      (path : Bytes)
      → last_of path (packed entries) ≡ (if has_path path es then files p path else none)

  collect-IsCollected :
      (es : List FileEntry)
      → All IsThere es
      → (entries : List TarEntry) × (collect (calm now) st p es ≡ ok entries)
        × IsCollected es entries
  unfolding collect query last_of IsThere
  collect-IsCollected [] there = ([], refl, λ path. refl)
  collect-IsCollected (e ∷ es) ((d, has), there) =
      let (entries, done, rest) = collect-IsCollected es there in
      let here : HoldsFile env st.disk (st.tables p) e.path (some d) =
        subst (HoldsFile env st.disk (st.tables p) e.path) has (r.holds p e.path) in
      (
        record { path = e.path; mode = e.mode; mtime = e.mtime; content = d } ∷ entries,
        rw (content_of-file e.path d here, done) refl,
        λ path. elim (Bool-cases (bytes_eq e.path path)) [
          | inl same ↦
              let at : files p path ≡ some d =
                subst (λ z. files p z ≡ some d) (bytes_eq→eq e.path path same) has in
              let before : last_of path (packed entries)
                  ≡ (if has_path path es then some d else none) =
                subst (λ z. last_of path (packed entries) ≡ (if has_path path es then z else none))
                  at (rest path) in
              rw (same, at, before) (twice (has_path path es) d)
          | inr other ↦
              rw (other, rest path) (nothing_more (if has_path path es then files p path else none))
        ],
      )
    where
      twice : (b : Bool) (d : Bytes) → or_else (if b then some d else none) (some d) ≡ some d
      twice true d = refl
      twice false d = refl

      nothing_more : (o : Option Bytes) → or_else o none ≡ o
      nothing_more none = refl
      nothing_more (some x) = refl

  entry-IsThere : (e : FileEntry) → has_path e.path (st.tables p).files ≡ true → IsThere e
  unfolding IsThere
  entry-IsThere e h = known (files p e.path) refl (r.holds p e.path)
    where
      known :
          (o : Option Bytes)
          → files p e.path ≡ o
          → HoldsFile env st.disk (st.tables p) e.path o
          → (d : Bytes) × (files p e.path ≡ some d)
      known none same held = let gone = stat_file-absent e.path (st.tables p).files held in cc
      known (some d) same held = (d, same)

  All-IsThere :
      (es : List FileEntry)
      → ((path : Bytes) → has_path path es ≡ true → has_path path (st.tables p).files ≡ true)
      → All IsThere es
  All-IsThere [] inside = tt
  All-IsThere (e ∷ es) inside = (
    entry-IsThere e (inside e.path (rw (bytes_eq_refl e.path) refl)),
    All-IsThere es (λ path h. inside path (either (bytes_eq e.path path) _ h)),
  )
    where
      either : (a b : Bool) → b ≡ true → (a || b) ≡ true
      either a b h = ground arith

  -- The entries of a backup are exactly the project's files.
  pub collect-files :
      (entries : List TarEntry) × (collect (calm now) st p (list_files (st.tables p).files)
        ≡ ok entries)
      × ((path : Bytes) → last_of path (packed entries) ≡ files p path)
  collect-files =
      let fs = (st.tables p).files in
      let (entries, done, all) =
        collect-IsCollected (list_files fs)
          (All-IsThere (list_files fs) (λ path h. sym (has_path-list_files path fs) ∙ h)) in
      (entries, done, λ path. all path ∙ exactly path (files p path) (r.holds p path))
    where
      exactly :
          (path : Bytes) (o : Option Bytes)
          → HoldsFile env st.disk (st.tables p) path o
          → (if has_path path (list_files (st.tables p).files) then o else none) ≡ o
      exactly path none held = ground arith
      exactly path (some d) (at, ks, stat, blocks, held, joined) =
          elim (Bool-cases (has_path path (st.tables p).files)) [
            | inl e ↦ rw (has_path-list_files path (st.tables p).files, e) refl
            | inr e ↦ let gone = absent-stat_file path (st.tables p).files e in cc
          ]
