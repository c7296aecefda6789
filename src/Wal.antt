-- ===== src/Wal.antt =====
-- The records of the write-ahead log, crates/proxygit-client/src/wal/mod.rs: the frames that are
-- appended to the journal, and the scan that reads a stage file. The checksum of the crate
-- crc32fast is a parameter.
pub mod Torn
pub mod Patches
pub mod Commit
pub mod Diff
pub mod Flush
pub mod Flushed
use proxygit.Prelude.{
  ℕ, zero, suc, ◌+◌, ◌%◌, ◌^◌, Bool, true, false, not, List, [], ◌∷◌, ◌++◌, length, is_empty, take,
  drop, ltb, leb, ◌==◌, if◌then◌else◌, Option, none, some,
}
use proxygit.Bytes.{Bytes, le_bytes, from_le, bytes_eq}
use proxygit.Bytes.Utf8.{text, from_utf8}
use proxygit.Protocol.Message.{max_payload_size}

abbrev pub magic_start : Bytes
magic_start = text "PGWL"

abbrev pub magic_end : Bytes
magic_end = text "wEND"

abbrev pub min_frame_size : ℕ
min_frame_size = 34

pub record WalRecord : Type 0 where
  pub seq : ℕ
  pub path : Bytes
  pub offset : ℕ
  pub content : Bytes

-- What the checksum is of; the lengths are cast and wrap.
abbrev pub checked_fields : WalRecord → Bytes
checked_fields r =
    le_bytes 8 r.seq
    ++ (le_bytes 2 (length r.path % 2 ^ 16)
        ++ (r.path
            ++ (le_bytes 8 r.offset ++ (le_bytes 4 (length r.content % 2 ^ 32) ++ r.content))))

-- What the scan finds at a position: the end of what can be read, nothing, or a record and the
-- bytes behind it.
pub data Scanned : Type 0 where
  stopped : Scanned
  skipped : Scanned
  found : WalRecord → Bytes → Scanned

-- The next field of `n` bytes, or the `break` where the data ends before.
unfoldable pub field : ℕ → Bytes → (Bytes → Bytes → Scanned) → Scanned
field n rest k = if ltb (length rest) n then stopped else k (take n rest) (drop n rest)

module _ (crc32 : Bytes → ℕ) where
  unfoldable pub encode_record : WalRecord → Bytes
  encode_record r =
      magic_start
      ++ (le_bytes 8 r.seq
          ++ (le_bytes 2 (length r.path % 2 ^ 16)
              ++ (r.path
                  ++ (le_bytes 8 r.offset
                      ++ (le_bytes 4 (length r.content % 2 ^ 32)
                          ++ (r.content
                              ++ (le_bytes 4 (crc32 (checked_fields r)) ++ magic_end)))))))

  -- The journal after an `append_entry`, and the sequence number that is next (a u64).
  unfoldable pub append_entry : Bytes × ℕ → Bytes → ℕ → Bytes → Bytes × ℕ
  unfolding encode_record
  append_entry (journal, next_seq) path offset content = (
    journal
        ++ encode_record
            (record { seq = next_seq; path = path; offset = offset; content = content }),
    (next_seq + 1) % 2 ^ 64,
  )

  -- The bytes that `write_staged_records` writes; for no records it removes the file.
  unfoldable pub encode_records : List WalRecord → Bytes
  unfolding encode_record
  encode_records [] = []
  encode_records (r ∷ rs) = encode_record r ++ encode_records rs

  unfoldable pub write_staged_records : List WalRecord → Option Bytes
  unfolding encode_records
  write_staged_records records = if is_empty records then none else some (encode_records records)

  -- The checks on a whole frame: the end mark, the checksum, and the path's encoding.
  unfoldable pub accept_record : WalRecord → Bytes → Bytes → Bytes → Scanned
  accept_record r crc stop rest =
      if not (from_le stop == from_le magic_end)
      then skipped
      else if not (crc32 (checked_fields r) == from_le crc)
      then skipped
      else elim (from_utf8 r.path) [ none ↦ skipped | some p ↦ found r rest ]

  abbrev pub accept : Bytes → Bytes → Bytes → Bytes → Bytes → Bytes → Bytes → Scanned
  accept seq path offset content =
      accept_record
        (record { seq = from_le seq; path = path; offset = from_le offset; content = content })

  -- The fields behind the start mark, last to first.
  abbrev pub read_stop : Bytes → Bytes → Bytes → Bytes → Bytes → Bytes → Scanned
  read_stop seq path offset content crc rest = field 4 rest (accept seq path offset content crc)

  abbrev pub read_crc : Bytes → Bytes → Bytes → Bytes → Bytes → Scanned
  read_crc seq path offset content rest = field 4 rest (read_stop seq path offset content)

  abbrev pub read_content : Bytes → Bytes → Bytes → Bytes → Bytes → Scanned
  read_content seq path offset data_len rest =
      if ltb max_payload_size (from_le data_len)
      then skipped
      else field (from_le data_len) rest (read_crc seq path offset)

  abbrev pub read_data_len : Bytes → Bytes → Bytes → Bytes → Scanned
  read_data_len seq path offset rest = field 4 rest (read_content seq path offset)

  abbrev pub read_offset : Bytes → Bytes → Bytes → Scanned
  read_offset seq path rest = field 8 rest (read_data_len seq path)

  abbrev pub read_path : Bytes → Bytes → Bytes → Scanned
  read_path seq path_len rest =
      if ltb 4096 (from_le path_len)
      then skipped
      else field (from_le path_len) rest (read_offset seq)

  abbrev pub read_path_len : Bytes → Bytes → Scanned
  read_path_len seq rest = field 2 rest (read_path seq)

  unfoldable pub scan_fields : Bytes → Scanned
  unfolding accept_record field
  scan_fields rest = field 8 rest read_path_len

  -- A position at which at least `min_frame_size` bytes are left.
  unfoldable pub scan_frame : Bytes → Scanned
  unfolding scan_fields
  scan_frame rest =
      if bytes_eq (take 4 rest) magic_start then scan_fields (drop 4 rest) else skipped

  -- The loop, over the data from `pos` on; `none` means that the fuel ran out.
  unfoldable pub scan : ℕ → Bytes → Option (List WalRecord)
  unfolding scan_frame
  scan zero rest = if ltb (length rest) min_frame_size then some [] else none
  scan (suc fuel) rest =
      if ltb (length rest) min_frame_size then some [] else elim (scan_frame rest) [
        | stopped ↦ some []
        | skipped ↦ scan fuel (drop 1 rest)
        | found r behind ↦ elim (scan fuel behind) [ none ↦ none | some rs ↦ some (r ∷ rs) ]
      ]

  -- The records of a stage file with these bytes. Each round advances, so one
  -- round more than there are bytes is fuel enough.
  unfoldable pub read_staged_records : Bytes → Option (List WalRecord)
  unfolding scan
  read_staged_records input = scan (suc (length input)) input
