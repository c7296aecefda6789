-- ===== src/Server/Read/Verified.antt =====
-- What the replies of the reading handlers vouch for.
use proxygit.Prelude.{
  ◌≡◌, refl, ap, inl, inr, Bool, List, [], ◌∷◌, All, length, ◌<◌, ◌≤◌, if◌then◌else◌, Option-cases,
  ◌^◌, Option, none, some, arith, Bool-cases,
}
use proxygit.Bytes.{Bytes, bytes_eq}
use proxygit.Bytes.Laws.{bytes_eq→eq}
use proxygit.Bytes.Utf8.{from_utf8_lossy}
use proxygit.Result.{Result, ok, err, Error, ok-injective}
use proxygit.Protocol.Message.{msg_error, msg_read_file_resp}
use proxygit.Protocol.Frame.{Frame}
use proxygit.Protocol.Payload.{encode_hash_list, decode_hash_list, decode-encode_hash_list}
use proxygit.BlockStore.{Disk, get_block, has_block, find_stored, block_prefix}
use proxygit.Indexer.{FileEntry, stat_file}
use proxygit.Paths.{sanitize_path}
use proxygit.Server.{Env, Io, AppState, query}
use proxygit.Server.Read.{
  Fetched, content, failure, fetch, verify, read_entry, read_path, handle_read_file, known_hashes,
  handle_has_blocks,
}

-- The file is indexed under the path, and its entry has the hash of the payload.
abbrev pub Vouched : Env → AppState → Frame → Frame → Type 0
Vouched env st frame answer =
    (path : Bytes) × (entry : FileEntry) × (sanitize_path (from_utf8_lossy frame.payload) ≡ ok path)
    × (stat_file path (st.tables frame.project_id).files ≡ some entry)
    × (env.hex_encode (env.blake3 answer.payload) ≡ entry.tree_hash)
    × (answer.hash ≡ env.blake3 answer.payload)
    × (answer.project_id ≡ frame.project_id)

query-eq-ok {ℓ} : {A : Type ℓ} (fault : Option Error) (a b : A) → query fault a ≡ ok b → a ≡ b
unfolding query
query-eq-ok none a b h = ok-injective h
query-eq-ok (some e) a b h = cc

module _ (env : Env) (io : Io) (frame : Frame) (st : AppState) where
  verify-read :
      (entry : FileEntry) (f : Fetched)
      → (verify env frame entry f).msg_type ≡ msg_read_file_resp
      → (env.hex_encode (env.blake3 (verify env frame entry f).payload) ≡ entry.tree_hash)
        × ((verify env frame entry f).hash ≡ env.blake3 (verify env frame entry f).payload)
        × ((verify env frame entry f).project_id ≡ frame.project_id)
  unfolding verify
  verify-read entry (failure message) h = absurd (omega arith)
  verify-read entry (content d) h =
      elim (Bool-cases (bytes_eq (env.hex_encode (env.blake3 d)) entry.tree_hash)) [
        | inl e ↦ rw e (bytes_eq→eq (env.hex_encode (env.blake3 d)) entry.tree_hash e, refl, refl)
        | inr e ↦ let bad : msg_error ≡ msg_read_file_resp = rw e at h in absurd (omega arith)
      ]

  -- A READ_FILE_RESP carries content whose hash is the one the index has for the requested path,
  -- and carries that hash, whatever the disk and the database do.
  pub handle_read_file-verified :
      (handle_read_file env io frame st).msg_type ≡ msg_read_file_resp
      → Vouched env st frame (handle_read_file env io frame st)
  unfolding handle_read_file
  handle_read_file-verified = at_path (sanitize_path (from_utf8_lossy frame.payload)) refl
    where
      found :
          (path : Bytes) (r : Result (Option FileEntry))
          → query io.stat_fault (stat_file path (st.tables frame.project_id).files) ≡ r
          → sanitize_path (from_utf8_lossy frame.payload) ≡ ok path
          → (read_entry env io frame st path r).msg_type ≡ msg_read_file_resp
          → Vouched env st frame (read_entry env io frame st path r)
      found path (err e) q clean h = absurd (omega arith)
      found path (ok none) q clean h = absurd (omega arith)
      found path (ok (some entry)) q clean h =
          let (hashes, own, same) = verify-read entry (fetch env io frame st path entry) h in
          (
            path,
            entry,
            clean,
            query-eq-ok io.stat_fault (stat_file path (st.tables frame.project_id).files)
                (some entry) q,
            hashes,
            own,
            same,
          )

      at_path :
          (r : Result Bytes)
          → sanitize_path (from_utf8_lossy frame.payload) ≡ r
          → (read_path env io frame st r).msg_type ≡ msg_read_file_resp
          → Vouched env st frame (read_path env io frame st r)
      at_path (err e) clean h = absurd (omega arith)
      at_path (ok path) clean h =
          found path (query io.stat_fault (stat_file path (st.tables frame.project_id).files)) refl
            clean h

-- The hashes for which the store has a block, in their order.
abbrev pub present : (Bytes → Bool) → List Bytes → List Bytes
present has [] = []
present has (h ∷ hs) = let rest = present has hs in if has h then h ∷ rest else rest

known_hashes-present :
    (env : Env) (disk : Disk) (hs : List Bytes)
    → known_hashes env disk hs ≡ present (has_block env.hex_encode disk) hs
unfolding known_hashes has_block get_block
known_hashes-present env disk [] = refl
known_hashes-present env disk (h ∷ hs) =
    elim (Option-cases
      (find_stored (block_prefix env.hex_encode h) (env.hex_encode h) disk.stored)) [
        | inl e ↦ rw (e, known_hashes, get_block, has_block) (known_hashes-present env disk hs)
        | inr (f, e) ↦
            rw (e, known_hashes, get_block, has_block)
              (ap (λ t. h ∷ t) (known_hashes-present env disk hs))
      ]

length-present : (has : Bytes → Bool) (hs : List Bytes) → length (present has hs) ≤ length hs
length-present has [] = omega arith
length-present has (h ∷ hs) = elim (Bool-cases (has h)) [
  | inl e ↦ rw e (omega (arith, length-present has hs))
  | inr e ↦ rw e (omega (arith, length-present has hs))
]

present-All :
    (has : Bytes → Bool) (hs : List Bytes)
    → All (λ h. length h ≡ 32) hs
    → All (λ h. length h ≡ 32) (present has hs)
present-All has [] a = a
present-All has (h ∷ hs) (p, a) = elim (Bool-cases (has h)) [
  | inl e ↦ rw e (p, present-All has hs a)
  | inr e ↦ rw e (present-All has hs a)
]

-- A HAS_BLOCKS request for fewer than 2^32 hashes of 32 bytes is answered with a list that decodes
-- to exactly those of them that the store has, in their order.
pub handle_has_blocks-present :
    (env : Env) (frame : Frame) (st : AppState) (hashes : List Bytes)
    → frame.payload ≡ encode_hash_list hashes
    → All (λ h. length h ≡ 32) hashes
    → length hashes < 2 ^ 32
    → decode_hash_list (handle_has_blocks env frame st).payload
      ≡ ok (
        length (present (has_block env.hex_encode st.disk) hashes),
        present (has_block env.hex_encode st.disk) hashes,
      )
unfolding handle_has_blocks
handle_has_blocks-present env frame st hashes asked sizes few =
    let has = has_block env.hex_encode st.disk in
    rw (asked, decode-encode_hash_list hashes sizes few, known_hashes-present env st.disk hashes)
      (decode-encode_hash_list (present has hashes) (present-All has hashes sizes)
        (omega (arith, length-present has hashes)))
