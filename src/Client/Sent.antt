-- ===== src/Client/Sent.antt =====
-- What becomes of a write of the client, `mcp_write_file_opts` of crates/proxygit-client/src/lib.rs
-- after it has its expected hash.
use proxygit.Prelude.{
  is_empty, false, Bool-cases, ℕ, suc, ◌^◌, ◌<◌, ◌≤◌, ◌≡◌, refl, sym, ap, ◌∙◌, subst, ◌⊎◌, inl, inr,
  true, List, [], ◌∷◌, map, All, length, Option, some, arith,
}
use proxygit.Bytes.{Bytes}
use proxygit.Bytes.Utf8.{utf8_from}
use proxygit.Result.{Result, ok}
use proxygit.Protocol.Message.{max_payload_size, msg_has_blocks, msg_write_blocks_sparse}
use proxygit.Protocol.Frame.{Frame}
use proxygit.Protocol.Payload.{encode_hash_list}
use proxygit.Protocol.Sparse.{
  SparseChunk, ZstdLaws, max_chunk_plain, encode_sparse_write, decode_sparse_write,
}
use proxygit.Protocol.Sparse.RoundTrip.{IsExpected, decode-encode_sparse_write}
use proxygit.Paths.{sanitize_path}
use proxygit.Server.{Env, Io, AppState, Json, write_ack}
use proxygit.Server.Write.{new_blocks, handle_write_blocks_sparse}
use proxygit.Server.Backup.{Archive}
use proxygit.Server.Session.{dispatch, handle_bi_stream}
use proxygit.Server.Files.{FileMap, Refines, replaced}
use proxygit.Server.Files.Writes.{IsAnswered}
use proxygit.Server.Files.Sparse.{pieces, handle_write_blocks_sparse-IsAnswered}
use proxygit.Wal.Diff.{chunks}
use proxygit.Client.{
  ClientEnv, Exchange, is_acked, exchange_json, full_chunks, clear_known, known_of, write_json,
  request, send_write,
}
use proxygit.Client.Link.{
  Link, delivered, unsent, unanswered, linked, via, alone, IsSettled, linked-IsSettled,
}
use proxygit.Client.Pieces.{
  IsNamedBlock, IsFine, plain-IsFine, reference-IsFine, hash_wide, chunks-known,
}
use proxygit.BlockStore.{mem_bytes}

module _ (env : Env) (cenv : ClientEnv) (block_of : Bytes → Bytes)
    (same_hash : cenv.blake3 ≡ env.blake3) (wide : (d : Bytes) → length (env.blake3 d) ≡ 32) where
  abbrev chunk_of : Bytes → SparseChunk
  chunk_of c = record { hash = cenv.blake3 c; content = c }

  abbrev sent_chunks : List Bytes → List Bytes → List SparseChunk
  sent_chunks known cs = clear_known cenv known (map chunk_of cs)

  sent_chunks-IsFine :
      (known cs : List Bytes)
      → All (IsNamedBlock env cenv block_of same_hash wide) cs
      → All (λ c. is_empty c ≡ false) cs
      → All (λ c. length c ≤ max_chunk_plain) cs
      → IsFine env cenv block_of same_hash wide cs (sent_chunks known cs)
  unfolding clear_known pieces new_blocks
  sent_chunks-IsFine known [] named full small = ((tt, tt, tt), refl, tt, refl)
  sent_chunks-IsFine known (c ∷ cs) (n, named) (f, full) (s, small) =
      let rest = sent_chunks-IsFine known cs named full small in
      elim (Bool-cases (mem_bytes (cenv.blake3 c) known)) [
        | inl e ↦
            rw e (
              reference-IsFine env cenv block_of same_hash wide c cs (sent_chunks known cs) n f
                rest)
        | inr e ↦
            rw e
              (plain-IsFine env cenv block_of same_hash wide c cs (sent_chunks known cs) n f s rest)
      ]

  module _ (archive : Archive) (turns : ℕ → Io × Link) (zstd_laws : ZstdLaws env.zstd)
      (same_zstd : cenv.zstd ≡ env.zstd) (p : ℕ) (hp : p < 2 ^ 128) where
    -- Asking which blocks the server has changes nothing, whatever the connection does.
    asked-state :
        (payload : Bytes) (st : AppState) (k : ℕ)
        → length payload ≤ max_payload_size
        → (via env archive turns (request cenv msg_has_blocks p payload) (st, k)).0 ≡ (st, suc k)
    unfolding via handle_bi_stream dispatch
    asked-state payload st k fits =
        rw
          (alone msg_has_blocks p (cenv.blake3 payload) payload hp
            (hash_wide env cenv block_of same_hash wide payload) fits)
          (ap (λ (z : AppState). (z, suc k)) (link _ (turns k).1))
      where
        link : (a : Result Frame) (l : Link) → (linked env archive turns l st (st, a)).0 ≡ st
        link a delivered = refl
        link a (unsent e) = refl
        link a (unanswered e) = refl

    module _ (path clean content : Bytes) (expected : Option Bytes)
        (valid : utf8_from [] path ≡ true) (short : length path < 2 ^ 16)
        (sane : sanitize_path path ≡ ok clean) (known_expected : IsExpected expected)
        (few : length content < 2 ^ 32)
        (named : All (IsNamedBlock env cenv block_of same_hash wide) (chunks 65536 content)) where
      abbrev sent_payload : List Bytes → Bytes
      sent_payload known =
          encode_sparse_write cenv.zstd cenv.zstd_enabled path
            (clear_known cenv known (full_chunks cenv content)) expected

      abbrev sent_frame : List Bytes → Frame
      sent_frame known = record {
        msg_type = msg_write_blocks_sparse;
        project_id = p;
        payload_len = length (sent_payload known);
        hash = cenv.blake3 (sent_payload known);
        payload = sent_payload known;
      }

      sent-IsAnswered :
          (known : List Bytes) (io : Io) (st : AppState) (files : FileMap)
          → Refines env block_of st files
          → IsAnswered env block_of p files
              (sent_frame known)
              (some (clean, content))
              (handle_write_blocks_sparse env io (sent_frame known) st)
      sent-IsAnswered known io st files r =
          let (whole, full, small, count) = chunks-known content in
          let (pieces_named, joined, fit, number) =
            sent_chunks-IsFine known (chunks 65536 content) named full small in
          let decoded : decode_sparse_write env.zstd (sent_payload known)
              ≡ ok (path, expected, sent_chunks known (chunks 65536 content)) =
            ap
              (λ z. decode_sparse_write env.zstd (
                encode_sparse_write z cenv.zstd_enabled path
                  (sent_chunks known (chunks 65536 content)) expected))
              same_zstd
            ∙ decode-encode_sparse_write env.zstd zstd_laws cenv.zstd_enabled path
                (sent_chunks known (chunks 65536 content)) expected valid short known_expected
                (omega (arith, number, count)) fit in
          let answered =
            handle_write_blocks_sparse-IsAnswered env block_of io (sent_frame known) files st r
              (rw decoded pieces_named) in
          rw (decoded, sane, joined ∙ whole) at answered

      module _ (files : FileMap)
          (ack_fits : length (write_ack env (sent_frame []) clean content).payload
            ≤ max_payload_size) where
        -- What the write leaves, after which the client was told `known`.
        abbrev IsDelivered : (AppState × ℕ) × Exchange → Type 0
        IsDelivered result =
            IsSettled env block_of wide archive turns p hp files (sent_frame []) clean content refl
              ack_fits (result.0.0, result.1)

        last_request : List Bytes → AppState × ℕ → (AppState × ℕ) × Exchange
        last_request known s =
            via env archive turns (request cenv msg_write_blocks_sparse p (sent_payload known)) s

        last_request-IsDelivered :
            (known : List Bytes) (st : AppState) (k : ℕ)
            → length (sent_payload known) ≤ max_payload_size
            → Refines env block_of st files
            → IsDelivered (last_request known (st, k))
        unfolding last_request via handle_bi_stream dispatch
        last_request-IsDelivered known st k fits r =
            rw
              (alone msg_write_blocks_sparse p (cenv.blake3 (sent_payload known))
                (sent_payload known) hp
                (hash_wide env cenv block_of same_hash wide (sent_payload known)) fits)
              (linked-IsSettled env block_of wide archive turns p hp files (sent_frame known) clean
                content refl ack_fits (turns k).1 st _ r
                (sent-IsAnswered known (turns k).0 st files r))

      -- What the caller is told: the JSON of the acknowledgement, with the server's state after the
      -- write, or the JSON of an exchange without one, with the state as before or after it.
      abbrev pub IsSent : FileMap → (AppState × ℕ) × Json → Type 0
      IsSent files result =
          (Refines env block_of result.0.0 (replaced p clean (some content) files)
            × (result.1 ≡ write_json cenv (write_ack env (sent_frame []) clean content)))
          ⊎ ((Refines env block_of result.0.0 files
                ⊎ Refines env block_of result.0.0 (replaced p clean (some content) files))
              × ((x : Exchange) × (is_acked x ≡ false)
                  × (result.1 ≡ exchange_json cenv (write_json cenv) x)))

      told :
          (files : FileMap)
          (fits : length (write_ack env (sent_frame []) clean content).payload ≤ max_payload_size)
          (result : (AppState × ℕ) × Exchange)
          → IsDelivered files fits result
          → IsSent files (result.0, exchange_json cenv (write_json cenv) result.1)
      told files fits (s, x) (inl (r, e)) = inl (r, ap (exchange_json cenv (write_json cenv)) e)
      told files fits (s, x) (inr (r, e)) = inr (r, (x, e, refl))

      -- A client sends a write over any connection to a server that holds a map of files, and
      -- whatever fails there. Either the server holds the map with the file replaced by exactly the
      -- content, and the client is given the JSON of the server's acknowledgement; or the client is
      -- given the JSON of an exchange that was not acknowledged, and the server holds the map as it
      -- was or with the file replaced by the content, as when the answer is lost. Which blocks the
      -- server said it has makes no difference. The messages are within the limit, the path is
      -- UTF-8 of less than 2^16 bytes and sanitizes, the content has less than 2^32 bytes, its
      -- blocks have hashes that no other block has, and both sides use the same BLAKE3, of 32
      -- bytes, and zstd.
      pub send_write-IsSent :
          (files : FileMap) (st : AppState) (k : ℕ)
          → ((known : List Bytes) → length (sent_payload known) ≤ max_payload_size)
          → length (encode_hash_list (map (λ (c : SparseChunk). c.hash) (full_chunks cenv content)))
            ≤ max_payload_size
          → length (write_ack env (sent_frame []) clean content).payload ≤ max_payload_size
          → Refines env block_of st files
          → IsSent files (send_write cenv (via env archive turns) p path content expected (st, k))
      unfolding send_write last_request
      send_write-IsSent files st k payload_fits query_fits ack_fits r =
          let query =
            encode_hash_list (map (λ (c : SparseChunk). c.hash) (full_chunks cenv content)) in
          let known =
            known_of cenv (via env archive turns (request cenv msg_has_blocks p query) (st, k)).1 in
          let asked = (via env archive turns (request cenv msg_has_blocks p query) (st, k)).0 in
          told files ack_fits (last_request files ack_fits known asked) (
            subst (λ s. IsDelivered files ack_fits (last_request files ack_fits known s))
              (sym (asked-state query st k query_fits))
              (last_request-IsDelivered files ack_fits known st (suc k) (payload_fits known) r))
