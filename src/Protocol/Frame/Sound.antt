-- ===== src/Protocol/Frame/Sound.antt =====
-- What `decode_frame` accepts is the encoding of the frame that it returns.
use proxygit.Prelude.{
  ℕ, zero, suc, ◌+◌, ◌-◌, ◌%◌, ◌^◌, ◌≤◌, ◌≡◌, refl, sym, ap, ◌∙◌, subst, [], ◌∷◌, ◌++◌, arith,
  length, drop, get_or, All, ltb_false→le, take-append-drop, length-take, length-drop, append_assoc,
}
use proxygit.Bytes.{Bytes, IsByte, be_bytes, from_be, slice}
use proxygit.Bytes.Laws.{be_bytes-from_be, All-take, All-drop}
use proxygit.Result.{ok, if_err-eq-ok, ok-injective}
use proxygit.Protocol.Message.{max_payload_size}
use proxygit.Protocol.Frame.{Frame, encode_frame, decode_frame}

drop-drop : (i k j : ℕ) (xs : Bytes) → i + k ≡ j → drop k (drop i xs) ≡ drop j xs
drop-drop zero k j xs h = let e : k ≡ j = omega arith in rw e
drop-drop (suc i) zero zero [] h = refl
drop-drop (suc i) (suc k) zero [] h = absurd (omega arith)
drop-drop (suc i) zero (suc j) [] h = refl
drop-drop (suc i) (suc k) (suc j) [] h = refl
drop-drop (suc i) k zero (x ∷ xs) h = absurd (omega arith)
drop-drop (suc i) k (suc j) (x ∷ xs) h = drop-drop i k j xs (omega arith)

slice-drop : (i j : ℕ) (xs : Bytes) → i ≤ j → slice xs i j ++ drop j xs ≡ drop i xs
slice-drop i j xs h =
    ap (λ t. slice xs i j ++ t) (sym (drop-drop i (j - i) j xs (omega arith)))
    ∙ take-append-drop (j - i) (drop i xs)

length-slice : (i j : ℕ) (xs : Bytes) → i ≤ j → j ≤ length xs → length (slice xs i j) ≡ j - i
length-slice i j xs h k = omega (arith, length-take (j - i) (drop i xs), length-drop i xs)

be_slice :
    (i j w : ℕ) (xs : Bytes)
    → All IsByte xs
    → i + w ≡ j
    → j ≤ length xs
    → be_bytes w (from_be (slice xs i j)) ≡ slice xs i j
be_slice i j w xs hx e h =
    let l : length (slice xs i j) ≡ w = omega (arith, length-slice i j xs) in
    subst (λ k. be_bytes k (from_be (slice xs i j)) ≡ slice xs i j) l
      (be_bytes-from_be (slice xs i j) (All-take (j - i) (drop i xs) (All-drop i xs hx)))

module _ (d : ℕ) (ds : Bytes) (bytes : All IsByte (d ∷ ds)) where
  abbrev buffer : Bytes
  buffer = d ∷ ds

  abbrev declared : ℕ
  declared = from_be (slice buffer 17 21)

  fields_rebuild :
      53 + declared ≤ length buffer
      → declared ≤ max_payload_size
      → encode_frame d
            (from_be (slice buffer 1 17))
            (slice buffer 21 53)
            (slice buffer 53 (53 + declared))
          ++ drop (53 + declared) buffer
        ≡ buffer
  unfolding encode_frame
  fields_rebuild h fits =
      let n : length (slice buffer 53 (53 + declared)) % 2 ^ 32 ≡ declared =
        omega (arith, length-slice 53 (53 + declared) buffer) in
      rw
        (
          n,
          be_slice 1 17 16 buffer bytes (omega arith) (omega arith),
          be_slice 17 21 4 buffer bytes (omega arith) (omega arith),
        )
        (simp append_assoc (ap (λ t. d ∷ t) rest))
    where
      rest :
          slice buffer 1 17
            ++ (slice buffer 17 21
                ++ (slice buffer 21 53
                    ++ (slice buffer 53 (53 + declared) ++ drop (53 + declared) buffer)))
          ≡ ds
      rest =
          rw
            (
              slice-drop 53 (53 + declared) buffer (omega arith),
              slice-drop 21 53 buffer (omega arith),
              slice-drop 17 21 buffer (omega arith),
            )
            (slice-drop 1 17 buffer (omega arith))

abbrev decoded : Bytes → Frame
decoded input = record {
  msg_type = get_or input 0 0;
  project_id = from_be (slice input 1 17);
  payload_len = from_be (slice input 17 21);
  hash = slice input 21 53;
  payload = slice input 53 (53 + from_be (slice input 17 21));
}

abbrev Sound : Bytes → Frame → Type 0
Sound input f =
    (encode_frame f.msg_type f.project_id f.hash f.payload ++ drop (53 + f.payload_len) input
      ≡ input)
    × (length f.payload ≡ f.payload_len)
    × (f.payload_len ≤ max_payload_size)

decode_frame-eq-ok :
    (input : Bytes) (f : Frame)
    → decode_frame input ≡ ok f
    → (53 + from_be (slice input 17 21) ≤ length input)
      × (from_be (slice input 17 21) ≤ max_payload_size)
      × (decoded input ≡ f)
unfolding decode_frame
decode_frame-eq-ok input f e =
    let (_, e1) = if_err-eq-ok _ _ _ e in
    let (fits, e2) = if_err-eq-ok _ _ _ e1 in
    let (whole, e3) = if_err-eq-ok _ _ _ e2 in
    (ltb_false→le _ _ whole, ltb_false→le _ _ fits, ok-injective e3)

decoded-Sound :
    (input : Bytes)
    → All IsByte input
    → 53 + from_be (slice input 17 21) ≤ length input
    → from_be (slice input 17 21) ≤ max_payload_size
    → Sound input (decoded input)
decoded-Sound [] hb h fits = absurd (omega arith)
decoded-Sound (d ∷ ds) hb h fits = (
  fields_rebuild d ds hb h fits,
  omega (arith, length-slice 53 (53 + from_be (slice (d ∷ ds) 17 21)) (d ∷ ds)),
  fits,
)

-- A buffer of bytes that decodes to a frame is the encoding of the frame's fields, with at most
-- the bytes behind the frame's payload left over, and the length field is the payload's length,
-- which is within the limit.
pub decode_frame_sound :
    (input : Bytes) (f : Frame)
    → All IsByte input
    → decode_frame input ≡ ok f
    → (encode_frame f.msg_type f.project_id f.hash f.payload ++ drop (53 + f.payload_len) input
        ≡ input)
      × (length f.payload ≡ f.payload_len)
      × (f.payload_len ≤ max_payload_size)
decode_frame_sound input f hb e =
    let (h, fits, same) = decode_frame-eq-ok input f e in
    subst (Sound input) same (decoded-Sound input hb h fits)
