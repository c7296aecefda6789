-- ===== src/Wal/Torn.antt =====
-- Reading back a log whose last record a crash cut short.
use proxygit.Prelude.{
  ℕ, zero, suc, ◌-◌, ◌%◌, ◌^◌, ◌≤◌, ◌<◌, ◌≡◌, refl, sym, ap, ◌∙◌, inl, inr, Bool, true, false, List,
  [], ◌∷◌, ◌++◌, All, length, take, ltb, ==_refl, if◌then◌else◌, some, arith, Bool-cases,
  length-append, take_seam, drop_seam, append_assoc, append-nil, length-take, ltb_false→le,
}
use proxygit.Bytes.{Bytes, le_bytes, from_le}
use proxygit.Bytes.Laws.{length-le_bytes, from_le-le_bytes, bytes_eq_refl}
use proxygit.Bytes.Utf8.{utf8_from, from_utf8}
use proxygit.Protocol.Message.{max_payload_size}
use proxygit.Wal.{
  WalRecord, magic_start, magic_end, checked_fields, Scanned, stopped, skipped, found, field,
  encode_record, encode_records, accept, accept_record, read_stop, read_crc, read_content,
  read_data_len, read_offset, read_path, read_path_len, scan_fields, scan_frame, scan,
  read_staged_records,
}

-- A record that the scan accepts: its numbers fit, its path is short UTF-8 and its data no more
-- than a payload.
pub record IsReadable (r : WalRecord) : Type 0 where
  pub seq_small : r.seq < 256 ^ 8
  pub offset_small : r.offset < 256 ^ 8
  pub path_short : length r.path ≤ 4096
  pub path_text : utf8_from [] r.path ≡ true
  pub data_small : length r.content ≤ max_payload_size

pass : (t : Bool) (x y : Scanned) {r : Scanned} → t ≡ false → y ≡ r → (if t then x else y) ≡ r
pass true x y e h = cc
pass false x y e h = h

field-whole :
    (n : ℕ) (a b : Bytes) (k : Bytes → Bytes → Scanned) {r : Scanned}
    → length a ≡ n
    → k a b ≡ r
    → field n (a ++ b) k ≡ r
unfolding field
field-whole n a b k l h =
    let enough : ltb (length (a ++ b)) n ≡ false = ground (arith, length-append a b) in
    rw (enough, take_seam n a b l, drop_seam n a b l) h

-- Cut within the field, or behind it.
field-cut :
    (n j : ℕ) (a b : Bytes) (k : Bytes → Bytes → Scanned)
    → length a ≡ n
    → j < length (a ++ b)
    → ((i : ℕ) → i < length b → k a (take i b) ≡ stopped)
    → field n (take j (a ++ b)) k ≡ stopped
unfolding field
field-cut n j a b k l le h = elim (Bool-cases (ltb j n)) [
  | inl e ↦
      let short : ltb (length (take j (a ++ b))) n ≡ true =
        ground (arith, length-take j (a ++ b), e) in
      rw short refl
  | inr e ↦
      let le' : n ≤ j = ground (arith, e) in
      let split : take j (a ++ b) ≡ a ++ take (j - n) b = take-past n j a b l le' in
      rw split (field-whole n a (take (j - n) b) k l (h (j - n) (omega (arith, length-append a b))))
]
  where
    take-past :
        (n j : ℕ) (a b : Bytes) → length a ≡ n → n ≤ j → take j (a ++ b) ≡ a ++ take (j - n) b
    take-past n j [] b l le = ground arith
    take-past zero j (x ∷ a) b l le = absurd (omega arith)
    take-past (suc n) zero (x ∷ a) b l le = absurd (omega arith)
    take-past (suc n) (suc j) (x ∷ a) b l le =
        let less : suc j - suc n ≡ j - n = omega arith in
        rw less (ap (λ t. x ∷ t) (take-past n j a b (omega arith) (omega arith)))

scan_frame-marked :
    (crc32 : Bytes → ℕ) (rest : Bytes)
    → scan_frame crc32 (magic_start ++ rest) ≡ scan_fields crc32 rest
unfolding scan_frame
scan_frame-marked crc32 rest = rw (bytes_eq_refl magic_start) refl

scan_ends :
    (crc32 : Bytes → ℕ) (fuel : ℕ) (input : Bytes)
    → (ltb (length input) 34 ≡ false → scan_frame crc32 input ≡ stopped)
    → scan crc32 (suc fuel) input ≡ some []
unfolding scan
scan_ends crc32 fuel input h = elim (Bool-cases (ltb (length input) 34)) [
  | inl e ↦ rw e refl
  | inr e ↦ rw (e, h e) refl
]

scan_found :
    (crc32 : Bytes → ℕ) (fuel : ℕ) (input behind : Bytes) (r : WalRecord) (rs : List WalRecord)
    → ltb (length input) 34 ≡ false
    → scan_frame crc32 input ≡ found r behind
    → scan crc32 fuel behind ≡ some rs
    → scan crc32 (suc fuel) input ≡ some (r ∷ rs)
unfolding scan
scan_found crc32 fuel input behind r rs long here later = rw (long, here, later) refl

module _ (crc32 : Bytes → ℕ) (crc32_lt : (bs : Bytes) → crc32 bs < 256 ^ 4) (r : WalRecord)
    (fits : IsReadable r) where
  path_len_lem : from_le (le_bytes 2 (length r.path % 2 ^ 16)) ≡ length r.path
  path_len_lem =
      from_le-le_bytes 2 (length r.path % 2 ^ 16) (omega (arith, fits.path_short))
      ∙ omega (arith, fits.path_short)

  data_len_lem : from_le (le_bytes 4 (length r.content % 2 ^ 32)) ≡ length r.content
  data_len_lem =
      from_le-le_bytes 4 (length r.content % 2 ^ 32) (omega (arith, fits.data_small))
      ∙ omega (arith, fits.data_small)

  abbrev seq_bytes : Bytes
  seq_bytes = le_bytes 8 r.seq

  abbrev path_len_bytes : Bytes
  path_len_bytes = le_bytes 2 (length r.path % 2 ^ 16)

  abbrev offset_bytes : Bytes
  offset_bytes = le_bytes 8 r.offset

  abbrev data_len_bytes : Bytes
  data_len_bytes = le_bytes 4 (length r.content % 2 ^ 32)

  abbrev crc_bytes : Bytes
  crc_bytes = le_bytes 4 (crc32 (checked_fields r))

  parsed_lem : record r { seq = from_le seq_bytes; offset = from_le offset_bytes } ≡ r
  parsed_lem = λ i. record r {
    seq = from_le-le_bytes 8 r.seq fits.seq_small i;
    offset = from_le-le_bytes 8 r.offset fits.offset_small i;
  }

  accept_record-found :
      (more : Bytes) → accept_record crc32 r crc_bytes magic_end more ≡ found r more
  unfolding accept_record from_utf8
  accept_record-found more =
      let sum = from_le-le_bytes 4 (crc32 (checked_fields r)) (crc32_lt (checked_fields r)) in
      rw (sum, ==_refl (from_le magic_end), ==_refl (crc32 (checked_fields r)), fits.path_text) refl

  accept-found :
      (more : Bytes)
      → accept crc32 seq_bytes r.path offset_bytes r.content crc_bytes magic_end more ≡ found r more
  accept-found more =
      ap (λ q. accept_record crc32 q crc_bytes magic_end more) parsed_lem ∙ accept_record-found more

  path_guard : ltb 4096 (from_le path_len_bytes) ≡ false
  path_guard = rw path_len_lem (ground (arith, fits.path_short))

  data_guard : ltb max_payload_size (from_le data_len_bytes) ≡ false
  data_guard = rw data_len_lem (ground (arith, fits.data_small))

  -- What follows each field of the record, with `more` behind it.
  abbrev from_crc : Bytes → Bytes
  from_crc more = crc_bytes ++ (magic_end ++ more)

  abbrev from_data_len : Bytes → Bytes
  from_data_len more = data_len_bytes ++ (r.content ++ from_crc more)

  abbrev from_path : Bytes → Bytes
  from_path more = r.path ++ (offset_bytes ++ from_data_len more)

  abbrev fields : Bytes → Bytes
  fields more = seq_bytes ++ (path_len_bytes ++ from_path more)

  scan_fields-whole : (more : Bytes) → scan_fields crc32 (fields more) ≡ found r more
  unfolding scan_fields
  scan_fields-whole more =
      let s = seq_bytes in
      let o = offset_bytes in
      field-whole 8 s (path_len_bytes ++ from_path more) (read_path_len crc32)
        (length-le_bytes 8 r.seq)
        (field-whole 2 path_len_bytes (from_path more) (read_path crc32 s)
          (length-le_bytes 2 (length r.path % 2 ^ 16))
          (pass _ skipped (field (from_le path_len_bytes) (from_path more) (read_offset crc32 s))
            path_guard
            (field-whole (from_le path_len_bytes) r.path (o ++ from_data_len more)
              (read_offset crc32 s) (sym path_len_lem)
              (field-whole 8 o (from_data_len more) (read_data_len crc32 s r.path)
                (length-le_bytes 8 r.offset)
                (field-whole 4 data_len_bytes (r.content ++ from_crc more)
                  (read_content crc32 s r.path o) (length-le_bytes 4 (length r.content % 2 ^ 32))
                  (pass _ skipped
                    (field (from_le data_len_bytes) (r.content ++ from_crc more)
                      (read_crc crc32 s r.path o))
                    data_guard
                    (field-whole (from_le data_len_bytes) r.content (from_crc more)
                      (read_crc crc32 s r.path o) (sym data_len_lem)
                      (field-whole 4 crc_bytes (magic_end ++ more)
                        (read_stop crc32 s r.path o r.content)
                        (length-le_bytes 4 (crc32 (checked_fields r)))
                        (field-whole 4 magic_end more (accept crc32 s r.path o r.content crc_bytes)
                          refl (accept-found more))))))))))

  scan_fields-cut :
      (j : ℕ) → j < length (fields []) → scan_fields crc32 (take j (fields [])) ≡ stopped
  unfolding scan_fields
  scan_fields-cut j less =
      let s = seq_bytes in
      let o = offset_bytes in
      field-cut 8 j s (path_len_bytes ++ from_path []) (read_path_len crc32)
        (length-le_bytes 8 r.seq) less
        λ j less.
          field-cut 2 j path_len_bytes (from_path []) (read_path crc32 s)
            (length-le_bytes 2 (length r.path % 2 ^ 16)) less
            λ j less.
              pass _ skipped
                (field (from_le path_len_bytes) (take j (from_path [])) (read_offset crc32 s))
                path_guard
                (field-cut (from_le path_len_bytes) j r.path (o ++ from_data_len [])
                  (read_offset crc32 s) (sym path_len_lem) less
                  λ j less.
                    field-cut 8 j o (from_data_len []) (read_data_len crc32 s r.path)
                      (length-le_bytes 8 r.offset) less
                      λ j less.
                        field-cut 4 j data_len_bytes (r.content ++ from_crc [])
                          (read_content crc32 s r.path o)
                          (length-le_bytes 4 (length r.content % 2 ^ 32)) less
                          λ j less.
                            pass _ skipped
                              (field (from_le data_len_bytes) (take j (r.content ++ from_crc []))
                                (read_crc crc32 s r.path o))
                              data_guard
                              (field-cut (from_le data_len_bytes) j r.content (from_crc [])
                                (read_crc crc32 s r.path o) (sym data_len_lem) less
                                λ j less.
                                  field-cut 4 j crc_bytes (magic_end ++ [])
                                    (read_stop crc32 s r.path o r.content)
                                    (length-le_bytes 4 (crc32 (checked_fields r))) less
                                    λ j less.
                                      field-cut 4 j magic_end []
                                        (accept crc32 s r.path o r.content crc_bytes) refl less
                                        λ j less. absurd (omega arith)))

  encode_record-fields : (more : Bytes) → encode_record crc32 r ++ more ≡ magic_start ++ fields more
  unfolding encode_record
  encode_record-fields more = simp append_assoc

  length-fields : (more : Bytes) → 30 ≤ length (fields more)
  length-fields more = omega (
    arith,
    length-append seq_bytes (path_len_bytes ++ from_path more),
    length-le_bytes 8 r.seq,
    length-append path_len_bytes (from_path more),
    length-le_bytes 2 (length r.path % 2 ^ 16),
    length-append r.path (offset_bytes ++ from_data_len more),
    length-append offset_bytes (from_data_len more),
    length-le_bytes 8 r.offset,
    length-append data_len_bytes (r.content ++ from_crc more),
    length-le_bytes 4 (length r.content % 2 ^ 32),
    length-append r.content (from_crc more),
    length-append crc_bytes (magic_end ++ more),
    length-le_bytes 4 (crc32 (checked_fields r)),
  )

  scan_frame-whole :
      (more : Bytes) → scan_frame crc32 (encode_record crc32 r ++ more) ≡ found r more
  scan_frame-whole more =
      ap (scan_frame crc32) (encode_record-fields more)
      ∙ scan_frame-marked crc32 (fields more)
      ∙ scan_fields-whole more

  encode_record-long : (more : Bytes) → ltb (length (encode_record crc32 r ++ more)) 34 ≡ false
  encode_record-long more = rw (encode_record-fields more) (ground (arith, length-fields more))

  -- What is left of a record that was cut short ends the scan.
  scan-cut :
      (fuel j : ℕ)
      → j < length (encode_record crc32 r)
      → scan crc32 (suc fuel) (take j (encode_record crc32 r)) ≡ some []
  scan-cut fuel j less =
      ap (λ t. scan crc32 (suc fuel) (take j t)) whole
      ∙ scan_ends crc32 fuel (take j (magic_start ++ fields []))
          (λ e. at_mark j e (rw whole at less))
    where
      whole : encode_record crc32 r ≡ magic_start ++ fields []
      whole = sym (append-nil (encode_record crc32 r)) ∙ encode_record-fields []

      at_mark :
          (j : ℕ)
          → ltb (length (take j (magic_start ++ fields []))) 34 ≡ false
          → j < length (magic_start ++ fields [])
          → scan_frame crc32 (take j (magic_start ++ fields [])) ≡ stopped
      at_mark zero e less = cc
      at_mark (suc zero) e less = cc
      at_mark (suc (suc zero)) e less = cc
      at_mark (suc (suc (suc zero))) e less = cc
      at_mark (suc (suc (suc (suc i)))) e less =
          scan_frame-marked crc32 (take i (fields [])) ∙ scan_fields-cut i (omega (arith, less))

module _ (crc32 : Bytes → ℕ) (crc32_lt : (bs : Bytes) → crc32 bs < 256 ^ 4) where
  length-encode_records :
      (rs : List WalRecord) → All IsReadable rs → length rs ≤ length (encode_records crc32 rs)
  unfolding encode_records
  length-encode_records [] h = omega arith
  length-encode_records (r ∷ rs) (h, hs) = omega (
    arith,
    length-append (encode_record crc32 r) (encode_records crc32 rs),
    length-encode_records rs hs,
    length-append (encode_record crc32 r) [],
    (ltb_false→le _ _ (encode_record-long crc32 crc32_lt r h [])),
  )

  scan-torn :
      (fuel j : ℕ) (rs : List WalRecord) (torn : WalRecord)
      → All IsReadable rs
      → IsReadable torn
      → j < length (encode_record crc32 torn)
      → length rs < fuel
      → scan crc32 fuel (encode_records crc32 rs ++ take j (encode_record crc32 torn)) ≡ some rs
  unfolding scan encode_records
  scan-torn zero j rs torn hs h less room = absurd (omega arith)
  scan-torn (suc fuel) j [] torn hs h less room = scan-cut crc32 crc32_lt torn h fuel j less
  scan-torn (suc fuel) j (r ∷ rs) torn (hr, hs) h less room =
      let tail = encode_records crc32 rs ++ take j (encode_record crc32 torn) in
      ap (scan crc32 (suc fuel)) (
        append_assoc (encode_record crc32 r) (encode_records crc32 rs)
          (take j (encode_record crc32 torn)))
      ∙ scan_found crc32 fuel (encode_record crc32 r ++ tail) tail r rs
          (encode_record-long crc32 crc32_lt r hr tail) (scan_frame-whole crc32 crc32_lt r hr tail)
          (scan-torn fuel j rs torn hs h less (omega arith))

  -- A stage file of readable records, behind which a crash left any part of one more record but
  -- not all of it, is read back as exactly the whole records, in their order. The checksum is any
  -- function into 32 bits.
  pub read_staged_records-torn :
      (j : ℕ) (rs : List WalRecord) (torn : WalRecord)
      → All IsReadable rs
      → IsReadable torn
      → j < length (encode_record crc32 torn)
      → read_staged_records crc32 (encode_records crc32 rs ++ take j (encode_record crc32 torn))
        ≡ some rs
  unfolding read_staged_records
  read_staged_records-torn j rs torn hs h less =
      let part = take j (encode_record crc32 torn) in
      scan-torn (suc (length (encode_records crc32 rs ++ part))) j rs torn hs h less
        (omega (arith, length-encode_records rs hs, length-append (encode_records crc32 rs) part))
