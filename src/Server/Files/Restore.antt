-- ===== src/Server/Files/Restore.antt =====
-- A restore, `restore_project_backup` of crates/proxygit-server/src/lib.rs, as a replacement of
-- files one after another.
use proxygit.Prelude.{
  ℕ, suc, ◌≡◌, refl, ap, List, [], ◌∷◌, ◌++◌, length, All, Option, none, some, arith,
}
use proxygit.Bytes.{Bytes}
use proxygit.Result.{Result, ok, err, Error}
use proxygit.Cdc.{ChunkResult, default_config, process_buffer}
use proxygit.BlockStore.{Disk}
use proxygit.Indexer.{Tables}
use proxygit.Indexer.Laws.{ingest_chunks-IsIngested}
use proxygit.Server.{Env, BackupIo, FileIo, AppState, calm_file, calm_backup}
use proxygit.Server.Write.ReadBack.{Chunked-Ascends, process_buffer-known, store_file-ok}
use proxygit.Server.Backup.{
  Archive, file_indexed, file_stored, file_chunked, restore_file, restore_files,
}
use proxygit.Server.Files.{FileMap, Refines, HasNamedChunks, replaced, overlaid}
use proxygit.Server.Files.Steps.{
  StoreOutcome, TableOutcome, store_file-StoreOutcome, ingest_content-TableOutcome,
}

module _ (env : Env) (archive : Archive) (block_of : Bytes → Bytes) (p : ℕ) where
  -- One file is restored, or the files are as before.
  abbrev IsPut : FileMap → Bytes → Bytes → AppState × Result (Unit {0}) → Type 0
  IsPut files path content (st, ok u) =
      Refines env block_of st (replaced p path (some content) files)
  IsPut files path content (st, err e) = Refines env block_of st files

  -- All files of the list are restored, or those before the first that failed.
  abbrev pub IsRestored : FileMap → List (Bytes × Bytes) → AppState × Result (Unit {0}) → Type 0
  IsRestored files list (st, ok u) = Refines env block_of st (overlaid p list files)
  IsRestored files list (st, err e) =
      (done : List (Bytes × Bytes)) × (left : List (Bytes × Bytes)) × (done ++ left ≡ list)
      × Refines env block_of st (overlaid p done files)

  abbrev pub AreNamed : List (Bytes × Bytes) → Type 0
  AreNamed list = All (λ (f : Bytes × Bytes). HasNamedChunks env block_of f.1) list

  module _ (wide : (d : Bytes) → length (env.blake3 d) ≡ 32) where
    indexed-IsPut :
        (path content : Bytes) (st : AppState) (files : FileMap) (t : Result Tables)
        → Refines env block_of st files
        → TableOutcome env block_of st files p path (some content) t
        → IsPut files path content (file_indexed env archive p st t)
    indexed-IsPut path content st files (err e) r o = r
    indexed-IsPut path content st files (ok t) r o = o

    stored-IsPut :
        (io : FileIo) (path content : Bytes) (ks : List ChunkResult) (st : AppState)
        (files : FileMap) (s : Disk × Result (Unit {0}))
        → process_buffer env.blake3 default_config content ≡ some ks
        → StoreOutcome env block_of st files ks s
        → IsPut files path content (file_stored env archive io p path ks st s)
    stored-IsPut io path content ks st files (disk, err e) chunks o = o
    stored-IsPut io path content ks st files (disk, ok u) chunks (kept, held) =
        indexed-IsPut path content (record st { disk = disk }) files _ kept
          (ingest_content-TableOutcome env block_of io.ingest_fault io.now p path content ks
            (record st { disk = disk }) files chunks held kept)

    restore_file-IsPut :
        (io : FileIo) (path content : Bytes) (st : AppState) (files : FileMap)
        → HasNamedChunks env block_of content
        → Refines env block_of st files
        → IsPut files path content (restore_file env archive io p path content st)
    unfolding restore_file
    restore_file-IsPut io path content st files (ks, chunks, named) r = opened io.open_fault
      where
        opened :
            (fault : Option Error)
            → IsPut files path content (elim fault [
              | some e ↦ (st, err e)
              | none ↦
                  file_chunked env archive io p path st
                    (process_buffer env.blake3 default_config content)
            ])
        opened (some e) = r
        opened none = rw chunks (
            stored-IsPut io path content ks st files _ chunks (
              store_file-StoreOutcome env block_of wide io.store_fault content ks st files chunks
                named r))

    -- On a server that holds a map of files, restoring a list of files with named chunks leaves
    -- the map with all of them put over it in turn, or, if it fails, with those up to one that
    -- could not be restored. Files that are not in the list stay.
    pub restore_files-IsRestored :
        (bio : BackupIo) (i : ℕ) (list : List (Bytes × Bytes)) (st : AppState) (files : FileMap)
        → AreNamed list
        → Refines env block_of st files
        → IsRestored files list (restore_files env archive bio p i list st)
    unfolding restore_files overlaid
    restore_files-IsRestored bio i [] st files named r = r
    restore_files-IsRestored bio i ((path, content) ∷ list) st files (n, named) r =
        next (restore_file env archive (bio.file_io i) p path content st)
          (restore_file-IsPut (bio.file_io i) path content st files n r)
          (λ st' h.
            restore_files-IsRestored bio (suc i) list st' (replaced p path (some content) files)
              named h)
      where
        further :
            (s : AppState × Result (Unit {0}))
            → IsRestored (replaced p path (some content) files) list s
            → IsRestored files ((path, content) ∷ list) s
        further (st', ok u) h = h
        further (st', err e) (done, left, whole, h) =
            ((path, content) ∷ done, left, ap (λ l. (path, content) ∷ l) whole, h)

        next :
            (s : AppState × Result (Unit {0}))
            → IsPut files path content s
            → ((st' : AppState)
                → Refines env block_of st' (replaced p path (some content) files)
                → IsRestored
                    (replaced p path (some content) files)
                    list
                    (restore_files env archive bio p (suc i) list st'))
            → IsRestored files ((path, content) ∷ list) (elim s.1 [
              | err e ↦ (s.0, err e)
              | ok u ↦ restore_files env archive bio p (suc i) list s.0
            ])
        next (st', err e) h later = ([], (path, content) ∷ list, refl, h)
        next (st', ok u) h later = further _ (later st' h)

  restore_file-calm :
      (now : ℕ) (path content : Bytes) (st : AppState)
      → HasNamedChunks env block_of content
      → (restore_file env archive (calm_file now) p path content st).1 ≡ ok tt
  unfolding restore_file
  restore_file-calm now path content st (ks, chunks, named) =
      let (joined, c) = process_buffer-known env content ks chunks in
      let (t, e, i) =
        ingest_chunks-IsIngested env.blake3 env.hex_encode path now 0 ks (st.tables p)
          (Chunked-Ascends env 0 0 ks (omega arith) c) in
      rw (chunks, store_file-ok env block_of ks st.disk, e) refl

  -- Where nothing fails, a restore ends well.
  pub restore_files-calm :
      (now i : ℕ) (list : List (Bytes × Bytes)) (st : AppState)
      → AreNamed list
      → (restore_files env archive (calm_backup now) p i list st).1 ≡ ok tt
  unfolding restore_files
  restore_files-calm now i [] st named = refl
  restore_files-calm now i ((path, content) ∷ list) st (n, named) =
      next (restore_file env archive (calm_file now) p path content st)
        (restore_file-calm now path content st n)
        (λ st'. restore_files-calm now (suc i) list st' named)
    where
      next :
          (s : AppState × Result (Unit {0}))
          → s.1 ≡ ok tt
          → ((st' : AppState)
              → (restore_files env archive (calm_backup now) p (suc i) list st').1 ≡ ok tt)
          → (elim s.1 as (λ x. AppState × Result (Unit {0})) [
            | err e ↦ (s.0, err e)
            | ok u ↦ restore_files env archive (calm_backup now) p (suc i) list s.0
          ]).1
            ≡ ok tt
      next (st', err e) h later = cc
      next (st', ok u) h later = later st'
