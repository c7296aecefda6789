-- ===== src/Protocol/Frame/RoundTrip.antt =====
-- Frames come back as they were sent, and nothing else is taken for a frame.
use proxygit.Prelude.{
  ℕ, ◌+◌, ◌-◌, ◌%◌, ◌^◌, ◌≤◌, ◌<◌, ◌≡◌, refl, sym, ap, ◌∙◌, [], ◌∷◌, ◌++◌, arith, length,
  length-append, take, drop, ltb-false, take_seam, drop_seam, append_assoc, append-nil,
}
use proxygit.Bytes.{Bytes, be_bytes, from_be, slice}
use proxygit.Bytes.Laws.{length-be_bytes, from_be-be_bytes}
use proxygit.Result.{ok}
use proxygit.Protocol.Message.{max_payload_size}
use proxygit.Protocol.Frame.{Frame, encode_frame, decode_frame, recv_frame}

-- The part between two seams.
pub slice_mid :
    (a b c : Bytes) (i j : ℕ) → length a ≡ i → i + length b ≡ j → slice (a ++ (b ++ c)) i j ≡ b
slice_mid a b c i j ha hb = rw (drop_seam i a (b ++ c) ha) (take_seam (j - i) b c (omega arith))

-- The fields of a header of 53 bytes, whatever follows it.
module _ (m : ℕ) (p l h more : Bytes) (hp : length p ≡ 16) (hl : length l ≡ 4)
    (hh : length h ≡ 32) where
  abbrev laid_out : Bytes
  laid_out = m ∷ (p ++ (l ++ (h ++ more)))

  project_field : slice laid_out 1 17 ≡ p
  project_field = slice_mid (m ∷ []) p (l ++ (h ++ more)) 1 17 refl (omega arith)

  len_field : slice laid_out 17 21 ≡ l
  len_field = slice_mid (m ∷ p) l (h ++ more) 17 21 (omega arith) (omega arith)

  hash_field : slice laid_out 21 53 ≡ h
  hash_field =
      ap (λ t. slice (m ∷ t) 21 53) (sym (append_assoc p l (h ++ more)))
      ∙ slice_mid (m ∷ (p ++ l)) h more 21 53 (omega (arith, length-append p l)) (omega arith)

  header_bytes : m ∷ (p ++ (l ++ h)) ++ more ≡ laid_out
  header_bytes = simp append_assoc

  length-header : length (m ∷ (p ++ (l ++ h))) ≡ 53
  length-header = omega (arith, length-append p (l ++ h), length-append l h)

  take-header : take 53 laid_out ≡ m ∷ (p ++ (l ++ h))
  take-header =
      ap (take 53) (sym header_bytes) ∙ take_seam 53 (m ∷ (p ++ (l ++ h))) more length-header

  drop-header : drop 53 laid_out ≡ more
  drop-header =
      ap (drop 53) (sym header_bytes) ∙ (drop_seam 53 (m ∷ (p ++ (l ++ h))) more length-header)

  length-laid_out : length laid_out ≡ 53 + length more
  length-laid_out =
      omega (arith, ap length header_bytes, length-append (m ∷ (p ++ (l ++ h))) more, length-header)

-- The bytes of a frame and what follows them, in the form of `laid_out`.
encode_frame-append :
    (m p : ℕ) (h payload more : Bytes)
    → encode_frame m p h payload ++ more
      ≡ m ∷ (be_bytes 16 p ++ (be_bytes 4 (length payload % 2 ^ 32) ++ (h ++ (payload ++ more))))
unfolding encode_frame
encode_frame-append m p h payload more = simp append_assoc

module _ (m p : ℕ) (h payload more : Bytes) (hp : p < 2 ^ 128) (hh : length h ≡ 32)
    (fits : length payload ≤ max_payload_size) where
  len_read : from_be (be_bytes 4 (length payload % 2 ^ 32)) ≡ length payload
  len_read =
      let small : length payload % 2 ^ 32 ≡ length payload = omega arith in
      rw small (from_be-be_bytes 4 (length payload) (omega arith))

  abbrev sent : Frame
  sent = record {
    msg_type = m;
    project_id = p;
    payload_len = length payload;
    hash = h;
    payload = payload;
  }

  -- A frame with a project id below 2^128, a hash of 32 bytes and a payload within the limit decodes
  -- to the fields that were encoded, whatever follows it in the buffer.
  pub decode_frame-encode_frame : decode_frame (encode_frame m p h payload ++ more) ≡ ok sent
  unfolding decode_frame
  decode_frame-encode_frame =
      let P = be_bytes 16 p in
      let L = be_bytes 4 (length payload % 2 ^ 32) in
      let lp : length P ≡ 16 = length-be_bytes 16 p in
      let ll : length L ≡ 4 = length-be_bytes 4 (length payload % 2 ^ 32) in
      rw
        (
          encode_frame-append m p h payload more,
          len_field m P L h (payload ++ more) lp ll hh,
          project_field m P L h (payload ++ more) lp ll hh,
          hash_field m P L h (payload ++ more) lp ll hh,
          drop-header m P L h (payload ++ more) lp ll hh,
          length-laid_out m P L h (payload ++ more) lp ll hh,
          len_read,
          from_be-be_bytes 16 p (omega arith),
        )
        (ground (
          arith,
          length-append payload more,
          take_seam (53 + length payload - 53) payload more (omega arith),
        ))

  -- Reading a stream that begins with a frame with a project id below 2^128, a hash of 32 bytes and a
  -- payload within the limit returns the frame and leaves what follows it.
  pub recv_frame-send_frame : recv_frame (encode_frame m p h payload ++ more) ≡ ok (sent, more)
  unfolding recv_frame
  recv_frame-send_frame =
      let P = be_bytes 16 p in
      let L = be_bytes 4 (length payload % 2 ^ 32) in
      let lp : length P ≡ 16 = length-be_bytes 16 p in
      let ll : length L ≡ 4 = length-be_bytes 4 (length payload % 2 ^ 32) in
      let padded : m ∷ (P ++ (L ++ (h ++ []))) ≡ m ∷ (P ++ (L ++ h)) = simp append-nil in
      rw
        (
          encode_frame-append m p h payload more,
          take-header m P L h (payload ++ more) lp ll hh,
          drop-header m P L h (payload ++ more) lp ll hh,
          length-laid_out m P L h (payload ++ more) lp ll hh,
          ltb-false (53 + length (payload ++ more)) 53 (omega arith),
          ap (λ t. slice t 17 21) (sym padded) ∙ len_field m P L h [] lp ll hh,
          ap (λ t. slice t 1 17) (sym padded) ∙ project_field m P L h [] lp ll hh,
          ap (λ t. slice t 21 53) (sym padded) ∙ hash_field m P L h [] lp ll hh,
          len_read,
          from_be-be_bytes 16 p (omega arith),
        )
        (ground (
          arith,
          length-append payload more,
          take_seam (length payload) payload more refl,
          drop_seam (length payload) payload more refl,
        ))
