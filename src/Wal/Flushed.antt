-- ===== src/Wal/Flushed.antt =====
-- The flush of one path, crates/proxygit-client/src/wal/mod.rs, through the server.
use proxygit.Prelude.{
  ℕ, suc, ◌^◌, ◌<◌, ◌≤◌, ◌≡◌, refl, ap, ◌∙◌, ◌⊎◌, inl, inr, true, false, List, [], ◌∷◌, ◌++◌, map,
  All, length, is_empty, Option, none, some, arith, Bool-cases,
}
use proxygit.Bytes.{Bytes, bytes_eq}
use proxygit.Bytes.Ascii.{contains, starts_with}
use proxygit.Bytes.Utf8.{text, utf8_from, from_utf8_lossy, from_utf8_lossy_valid, lossy_from, lead}
use proxygit.Result.{ok, server_error}
use proxygit.Protocol.Message.{max_payload_size}
use proxygit.Protocol.Sparse.{max_chunk_plain}
use proxygit.Server.{Env}
use proxygit.Server.Write.{new_blocks}
use proxygit.Server.Files.Sparse.{pieces}
use proxygit.Client.{ClientEnv}
use proxygit.Protocol.Message.{
  msg_read_file, msg_read_file_resp, msg_error, msg_write_blocks_sparse,
}
use proxygit.Protocol.Frame.{Frame}
use proxygit.Paths.{sanitize_path}
use proxygit.Server.{Io, AppState, calm, zero_hash, write_ack}
use proxygit.Server.Backup.{Archive}
use proxygit.Server.Write.Readable.{HexLaw}
use proxygit.Server.Files.{FileMap, Refines, replaced}
use proxygit.Server.Files.Reads.{looked_up, read_reply, handle_read_file-read_reply}
use proxygit.Client.{exchange_result, mcp_read_raw_bytes, request}
use proxygit.Server.Session.{dispatch, handle_bi_stream}
use proxygit.Server.Read.{handle_read_file}
use proxygit.Server.Write.{handle_write_blocks_sparse}
use proxygit.Server.Files.Writes.{IsAnswered}
use proxygit.Server.Files.Sparse.{handle_write_blocks_sparse-IsAnswered}
use proxygit.Protocol.Sparse.{ZstdLaws, encode_sparse_write, decode_sparse_write}
use proxygit.Protocol.Sparse.RoundTrip.{decode-encode_sparse_write}
use proxygit.Wal.{WalRecord}
use proxygit.Wal.Diff.{chunks, apply_patches, build_sparse_diff}
use proxygit.Client.{Exchange}
use proxygit.Client.Link.{Link, delivered, answer_of, via, alone, IsSettled, linked-IsSettled}
use proxygit.Wal.Flush.{base_of, remaining, flush_payload, flush_path}
use proxygit.Client.Pieces.{
  IsNamedBlock, IsFine, hash_wide, plain-IsFine, reference-IsFine, chunks-known,
}
use proxygit.Wal.Diff.{diff}

-- The client takes the server's message on a file that is not there for a new file.
missing_mentioned :
    (cenv : ClientEnv) (path : Bytes)
    → ((m : Bytes) → cenv.display (server_error m) ≡ text "Server error: " ++ m)
    → contains
        (text "File not found")
        (cenv.display (server_error (from_utf8_lossy (text "File not found: " ++ path))))
      ≡ true
unfolding contains starts_with from_utf8_lossy lossy_from lead
missing_mentioned cenv path shown =
    rw (shown (from_utf8_lossy (text "File not found: " ++ path))) refl

module _ (env : Env) (cenv : ClientEnv) (block_of : Bytes → Bytes)
    (same_hash : cenv.blake3 ≡ env.blake3) (wide : (d : Bytes) → length (env.blake3 d) ≡ 32) where
  -- The diff of any old blocks stands for the new blocks.
  pub diff-IsFine :
      (olds cs : List Bytes)
      → All (IsNamedBlock env cenv block_of same_hash wide) cs
      → All (λ c. is_empty c ≡ false) cs
      → All (λ c. length c ≤ max_chunk_plain) cs
      → IsFine env cenv block_of same_hash wide cs (diff cenv.blake3 olds cs)
  unfolding diff pieces new_blocks
  diff-IsFine [] [] named full small = ((tt, tt, tt), refl, tt, refl)
  diff-IsFine (h ∷ olds) [] named full small = ((tt, tt, tt), refl, tt, refl)
  diff-IsFine [] (c ∷ cs) (n, named) (f, full) (s, small) =
      plain-IsFine env cenv block_of same_hash wide c cs (diff cenv.blake3 [] cs) n f s
        (diff-IsFine [] cs named full small)
  diff-IsFine (h ∷ olds) (c ∷ cs) (n, named) (f, full) (s, small) =
      let rest = diff-IsFine olds cs named full small in
      elim (Bool-cases (bytes_eq h (cenv.blake3 c))) [
        | inl e ↦ rw e (
            reference-IsFine env cenv block_of same_hash wide c cs (diff cenv.blake3 olds cs) n f
              rest)
        | inr e ↦ rw e (
            plain-IsFine env cenv block_of same_hash wide c cs (diff cenv.blake3 olds cs) n f s
              rest)
      ]

  -- The content of a file, or nothing for one that is not there.
  abbrev pub or_nothing : Option Bytes → Bytes
  or_nothing none = []
  or_nothing (some d) = d

  module _ (crc32 : Bytes → ℕ) (archive : Archive) (turns : ℕ → Io × Link) (hex : HexLaw env)
      (p : ℕ) (hp : p < 2 ^ 128) (path clean : Bytes) (valid : utf8_from [] path ≡ true)
      (short : length path < 2 ^ 16) (sane : sanitize_path path ≡ ok clean) where
    abbrev read_frame : Frame
    read_frame = record {
      msg_type = msg_read_file;
      project_id = p;
      payload_len = length path;
      hash = cenv.blake3 path;
      payload = path;
    }

    -- What the client makes of the reply to its read.
    base_of-looked_up :
        (files : FileMap) (content : Option Bytes)
        → ((m : Bytes) → cenv.display (server_error m) ≡ text "Server error: " ++ m)
        → length (looked_up env read_frame files clean content).payload ≤ max_payload_size
        → base_of cenv crc32 (via env archive turns) (
            exchange_result cenv msg_read_file_resp ok
              (answer_of env archive turns (ok (looked_up env read_frame files clean content))))
          ≡ some (or_nothing content)
    base_of-looked_up files none shown fits =
        rw
          (
            alone msg_error p zero_hash (text "File not found: " ++ clean) hp refl fits,
            missing_mentioned cenv clean shown,
          )
          refl
    base_of-looked_up files (some d) shown fits =
        rw (alone msg_read_file_resp p (env.blake3 d) d hp (wide d) fits) refl

    module _ (files : FileMap) (st : AppState) (r : Refines env block_of st files)
        (shown : (m : Bytes) → cenv.display (server_error m) ≡ text "Server error: " ++ m)
        (reply_fits : length (looked_up env read_frame files clean (files p clean)).payload
          ≤ max_payload_size)
        (path_fits : length path ≤ max_payload_size) (now k : ℕ)
        (calm_turn : turns k ≡ (calm now, delivered)) where
      -- The file's content now, and after the patches.
      abbrev pub content_before : Bytes
      content_before = or_nothing (files p clean)

      reply-known :
          handle_read_file env (calm now) read_frame st
          ≡ looked_up env read_frame files clean (files p clean)
      reply-known =
          handle_read_file-read_reply env read_frame files hex now st block_of r
          ∙ ap (read_reply env read_frame files)
              (ap sanitize_path (from_utf8_lossy_valid path valid) ∙ sane)

      -- The base is fetched: nothing changes, and it is what the server has.
      fetched :
          ((mcp_read_raw_bytes cenv (via env archive turns) p path (st, k)).0 ≡ (st, suc k))
          × (base_of cenv crc32
                (via env archive turns)
                (mcp_read_raw_bytes cenv (via env archive turns) p path (st, k)).1
              ≡ some content_before)
      unfolding mcp_read_raw_bytes via handle_bi_stream dispatch
      fetched =
          rw
            (
              calm_turn,
              alone msg_read_file p (cenv.blake3 path) path hp
                  (hash_wide env cenv block_of same_hash wide path) path_fits,
              reply-known,
            )
            (refl, base_of-looked_up files (files p clean) shown reply_fits)

      module _ (patches : List WalRecord) where
        abbrev pub content_after : Bytes
        content_after = apply_patches patches content_before

        abbrev diff_payload : Bytes
        diff_payload = flush_payload cenv crc32 (via env archive turns) path patches content_before

        abbrev diff_frame : Frame
        diff_frame = record {
          msg_type = msg_write_blocks_sparse;
          project_id = p;
          payload_len = length diff_payload;
          hash = cenv.blake3 diff_payload;
          payload = diff_payload;
        }

        -- Nothing is left to try again and the file is replaced by the patched content; or all
        -- patches are left, and the file is as it was or replaced already.
        abbrev pub IsFlushed : (AppState × ℕ) × List WalRecord → Type 0
        IsFlushed result =
            ((result.1 ≡ [])
              × Refines env block_of result.0.0 (replaced p clean (some content_after) files))
            ⊎ ((result.1 ≡ patches)
                × (Refines env block_of result.0.0 files
                    ⊎ Refines env block_of result.0.0
                        (replaced p clean (some content_after) files)))

        module _ (zstd_laws : ZstdLaws env.zstd) (same_zstd : cenv.zstd ≡ env.zstd)
            (named : All
              (IsNamedBlock env cenv block_of same_hash wide)
              (chunks 65536 content_after))
            (few : length content_after < 2 ^ 32)
            (ack_fits : length (write_ack env diff_frame clean content_after).payload
              ≤ max_payload_size)
            (diff_fits : length diff_payload ≤ max_payload_size) where
          diff-IsAnswered :
              (io : Io)
              → IsAnswered env block_of p files diff_frame
                  (some (clean, content_after))
                  (handle_write_blocks_sparse env io diff_frame st)
          unfolding build_sparse_diff
          diff-IsAnswered io =
              let (whole, full, small, count) = chunks-known content_after in
              let olds = map cenv.blake3 (chunks 65536 content_before) in
              let (pieces_named, joined, fit, number) =
                diff-IsFine olds (chunks 65536 content_after) named full small in
              let decoded : decode_sparse_write env.zstd diff_payload
                  ≡ ok (path, none, diff cenv.blake3 olds (chunks 65536 content_after)) =
                ap
                  (λ z. decode_sparse_write env.zstd (
                    encode_sparse_write z cenv.zstd_enabled path
                      (diff cenv.blake3 olds (chunks 65536 content_after)) none))
                  same_zstd
                ∙ decode-encode_sparse_write env.zstd zstd_laws cenv.zstd_enabled path
                    (diff cenv.blake3 olds (chunks 65536 content_after)) none valid short tt
                    (omega (arith, number, count)) fit in
              let answered =
                handle_write_blocks_sparse-IsAnswered env block_of io diff_frame files st r
                  (rw decoded pieces_named) in
              rw (decoded, sane, joined ∙ whole) at answered

          settled-IsFlushed :
              (k' : ℕ) (result : AppState × Exchange)
              → IsSettled env block_of wide archive turns p hp files diff_frame clean content_after
                  refl ack_fits result
              → IsFlushed
                  (remaining cenv crc32 (via env archive turns) patches ((result.0, k'), result.1))
          settled-IsFlushed k' (s, x) (inl (r', e)) = inl (rw e refl, r')
          settled-IsFlushed k' (s, x) (inr (r', e)) = inr (rw e refl, r')

          diff-IsFlushed : IsFlushed (
              remaining cenv crc32 (via env archive turns) patches (
                via env archive turns
                  (request cenv msg_write_blocks_sparse p diff_payload)
                  (st, suc k)))
          unfolding via handle_bi_stream dispatch
          diff-IsFlushed =
              rw
                (alone msg_write_blocks_sparse p (cenv.blake3 diff_payload) diff_payload hp
                  (hash_wide env cenv block_of same_hash wide diff_payload) diff_fits)
                (settled-IsFlushed (suc (suc k)) _ (
                  linked-IsSettled env block_of wide archive turns p hp files diff_frame clean
                    content_after refl ack_fits (turns (suc k)).1 st _ r
                    (diff-IsAnswered (turns (suc k)).0)))

          -- The flush of one path sends the patches over the content that the server has, or over
          -- nothing for a file that is not there, if fetching it meets no fault. Then, whatever
          -- fails, either the server holds the map with the file replaced by the patched content,
          -- and nothing is left to try again; or all patches are left, in order, and the server
          -- holds the map as it was or with the file replaced. The messages are within the limit,
          -- the path is UTF-8 of less than 2^16 bytes and sanitizes, the content has less than
          -- 2^32 bytes, its blocks have hashes that no other block has, both sides use the same
          -- BLAKE3, of 32 bytes, and zstd, and hex encoding gives two digits for each byte.
          pub flush_path-IsFlushed :
              IsFlushed (flush_path cenv crc32 (via env archive turns) p path patches (st, k))
          unfolding flush_path
          flush_path-IsFlushed = rw (fetched.0, fetched.1) diff-IsFlushed
