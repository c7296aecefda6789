-- ===== src/Server/Files/RoundTrip.antt =====
-- Restoring the backup that `create_project_backup` of crates/proxygit-server/src/lib.rs made.
use proxygit.Prelude.{
  ℕ, ◌*◌, ◌^◌, ◌≡◌, refl, sym, ap, ◌∙◌, subst, inl, inr, List, [], ◌∷◌, ◌==◌, length, if◌then◌else◌,
  some, Bool-cases, ==_refl,
}
use proxygit.Bytes.{Bytes, bytes_eq}
use proxygit.Bytes.Laws.{bytes_eq_refl}
use proxygit.Result.{Result, ok, err, ok-injective}
use proxygit.Indexer.{list_files}
use proxygit.Server.{Env, AppState, calm, calm_backup, query}
use proxygit.Server.Write.Readable.{HexLaw}
use proxygit.Server.Backup.{
  Files, TarEntry, Archive, put_file, find_file, collect, backup_name, create_project_backup,
  restore_files, restore_project_backup,
}
use proxygit.Server.Files.{FileMap, Refines, overlaid}
use proxygit.Server.Files.Restore.{
  IsRestored, AreNamed, restore_files-IsRestored, restore_files-calm,
}
use proxygit.Server.Files.Backups.{
  or_else, last_of, packed, overlaid-last_of, Refines-ext, collect-files,
}

-- The entries are packed to the bytes, which unpack to the list, and each path has in the list
-- the content that its last entry has.
pub record Unpacks (archive : Archive) (entries : List TarEntry) (bytes : Bytes) (list : Files)
    : Type 0 where
  pub pack : archive.pack entries ≡ ok bytes
  pub unpack : archive.unpack bytes ≡ ok list
  pub same : (path : Bytes) → last_of path list ≡ last_of path (packed entries)

-- The files of the project `p` as the first map has them, where it has them, over the second map.
abbrev pub merged : ℕ → FileMap → FileMap → FileMap
merged p files files' q path =
    if q == p then or_else (files p path) (files' q path) else files' q path

find_file-put_file :
    (name d : Bytes) (list : Files) → find_file name (put_file name d list) ≡ some d
unfolding find_file put_file
find_file-put_file name d [] = rw (bytes_eq_refl name) refl
find_file-put_file name d ((n, x) ∷ list) = elim (Bool-cases (bytes_eq n name)) [
  | inl e ↦ rw e (rw (bytes_eq_refl name) refl)
  | inr e ↦ rw e (rw e (find_file-put_file name d list))
]

module _ (env : Env) (archive : Archive) (block_of : Bytes → Bytes) (hex : HexLaw env)
    (wide : (d : Bytes) → length (env.blake3 d) ≡ 32) (p now now' : ℕ) (entries : List TarEntry)
    (bytes : Bytes) (list : Files) (unpacks : Unpacks archive entries bytes list) where
  created-known :
      (st : AppState)
      → collect (calm now) st p (list_files (st.tables p).files) ≡ ok entries
      → ((create_project_backup env archive (calm now) p st).1
          ≡ ok (backup_name (now * 10 ^ 9), length bytes))
        × (find_file
              (backup_name (now * 10 ^ 9))
              ((create_project_backup env archive (calm now) p st).0.backups p)
            ≡ some bytes)
  unfolding create_project_backup query
  created-known st collected =
      rw (collected, unpacks.pack)
        (
          refl,
          rw (==_refl p) (find_file-put_file (backup_name (now * 10 ^ 9)) bytes (st.backups p)),
        )

  restored-known :
      (name : Bytes) (st : AppState)
      → find_file name (st.backups p) ≡ some bytes
      → restore_project_backup env archive (calm now') p name st
        ≡ restore_files env archive (calm_backup now') p 0 list st
  unfolding restore_project_backup query
  restored-known name st found = rw (found, unpacks.unpack) refl

  all_restored :
      (files : FileMap) (s : AppState × Result (Unit {0}))
      → s.1 ≡ ok tt
      → IsRestored env archive block_of p files list s
      → Refines env block_of s.0 (overlaid p list files)
  all_restored files (st, ok u) fine h = h
  all_restored files (st, err e) fine h = cc

  overlaid-merged :
      (files files' : FileMap)
      → ((path : Bytes) → last_of path (packed entries) ≡ files p path)
      → (q : ℕ) (path : Bytes) → overlaid p list files' q path ≡ merged p files files' q path
  overlaid-merged files files' whole q path =
      overlaid-last_of p list files' q path
      ∙ ap (λ o. if q == p then or_else o (files' q path) else files' q path)
          (unpacks.same path ∙ whole path)

  -- A backup is made where nothing fails, on a server that holds a map of files, and is restored
  -- where nothing fails, on a server that holds any other map and still has the backup. If the
  -- archive of the collected entries unpacks to them and their contents have named chunks, both
  -- succeed, and the server then holds the files of the project as they were when the backup was
  -- made; files that the project had then not and has now stay, as do those of other projects.
  -- BLAKE3 hashes have 32 bytes, and hex encoding gives two digits for each byte.
  pub restore_project_backup-create_project_backup :
      (st st' : AppState) (files files' : FileMap)
      → Refines env block_of st files
      → Refines env block_of st' files'
      → collect (calm now) st p (list_files (st.tables p).files) ≡ ok entries
      → st'.backups p ≡ (create_project_backup env archive (calm now) p st).0.backups p
      → AreNamed env archive block_of p list
      → ((create_project_backup env archive (calm now) p st).1
          ≡ ok (backup_name (now * 10 ^ 9), length bytes))
        × ((restore_project_backup env archive (calm now') p (backup_name (now * 10 ^ 9)) st').1
            ≡ ok tt)
        × Refines env block_of
            (restore_project_backup env archive (calm now') p (backup_name (now * 10 ^ 9)) st').0
            (merged p files files')
  restore_project_backup-create_project_backup st st' files files' r r' collected same named =
      let (entries', done, whole) = collect-files env block_of hex p now st files r in
      let it : entries' ≡ entries = ok-injective (sym done ∙ collected) in
      let whole' =
        subst (λ es. (path : Bytes) → last_of path (packed es) ≡ files p path) it whole in
      let (fine, found) = created-known st collected in
      let found' = ap (λ l. find_file (backup_name (now * 10 ^ 9)) l) same ∙ found in
      let ends = restore_files-calm env archive block_of p now' 0 list st' named in
      let kept =
        restore_files-IsRestored env archive block_of p wide (calm_backup now') 0 list st' files'
          named r' in
      let again = restored-known (backup_name (now * 10 ^ 9)) st' found' in
      (
        fine,
        rw again ends,
        rw again (
            Refines-ext env block_of _ (overlaid p list files') (merged p files files')
              (overlaid-merged files files' whole') (all_restored files' _ ends kept)),
      )
