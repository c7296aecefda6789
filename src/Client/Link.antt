-- ===== src/Client/Link.antt =====
-- A connection between the client of crates/proxygit-client/src/lib.rs and the server of
-- crates/proxygit-server/src/lib.rs, and what it makes of an answered write.
use proxygit.Prelude.{
  append-nil, ℕ, suc, ◌^◌, ◌<◌, ◌≤◌, ◌≡◌, refl, sym, ap, ◌∙◌, subst, ◌⊎◌, inl, inr, false, [], ◌∷◌,
  length, take, get_or, ltb, some, arith, Bool-cases,
}
use proxygit.Bytes.{Bytes, from_be, slice}
use proxygit.Result.{Result, ok, err, Error, ok-injective, >>=-eq-ok, if_err-eq-ok}
use proxygit.Protocol.Message.{max_payload_size}
use proxygit.Protocol.Frame.{Frame, encode_frame, recv_frame, read_exact}
use proxygit.Protocol.Frame.RoundTrip.{recv_frame-send_frame}
use proxygit.Server.{Env, Io, AppState, write_ack}
use proxygit.Server.Backup.{Archive}
use proxygit.Server.Session.{handle_bi_stream}
use proxygit.Server.Files.{FileMap, Refines, replaced}
use proxygit.Server.Files.Writes.{IsAnswered}
use proxygit.Client.{is_acked, Exchange, answered, send_error, recv_error}

-- What the connection does with a request: it is served and answered, not sent, or served with
-- the answer lost.
pub data Link : Type 0 where
  delivered : Link
  unsent unanswered : Error → Link

module _ (env : Env) (archive : Archive) (turns : ℕ → Io × Link) where
  abbrev pub arrived : Result (Frame × Bytes) → Exchange
  arrived (err e) = recv_error e
  arrived (ok (frame, rest)) = answered frame

  abbrev pub answer_of : Result Frame → Exchange
  answer_of (err e) = recv_error e
  answer_of (ok f) = arrived (recv_frame (encode_frame f.msg_type f.project_id f.hash f.payload))

  abbrev pub linked : Link → AppState → AppState × Result Frame → AppState × Exchange
  linked delivered st (st', answer) = (st', answer_of answer)
  linked (unsent e) st (st', answer) = (st, send_error e)
  linked (unanswered e) st (st', answer) = (st', recv_error e)

  -- The k-th request of a client, whose stream the server serves.
  unfoldable pub via : Frame → AppState × ℕ → (AppState × ℕ) × Exchange
  unfolding handle_bi_stream encode_frame recv_frame
  via frame (st, k) =
      let (st', x) = linked (turns k).1 st (
        handle_bi_stream env archive (turns k).0
          (encode_frame frame.msg_type frame.project_id frame.hash frame.payload) st) in
      ((st', suc k), x)

read_exact-take :
    (n : ℕ) (stream : Bytes) (cut : Bytes × Bytes)
    → read_exact n stream ≡ ok cut
    → cut.0 ≡ take n stream
unfolding read_exact
read_exact-take n stream cut e =
    let (short, same) = if_err-eq-ok (ltb (length stream) n) _ _ e in
    sym (ap (λ (c : Bytes × Bytes). c.0) (ok-injective same))

-- The type of a frame that was read is the first byte.
pub recv_frame-msg_type :
    (m : ℕ) (rest more : Bytes) (f : Frame) → recv_frame (m ∷ rest) ≡ ok (f, more) → f.msg_type ≡ m
unfolding recv_frame
recv_frame-msg_type m rest more f e =
    let (headed, cut, e1) = >>=-eq-ok (read_exact 53 (m ∷ rest)) _ e in
    let n = from_be (slice headed.0 17 21) in
    let first : headed.0 ≡ m ∷ take 52 rest = read_exact-take 53 (m ∷ rest) headed cut in
    let read : get_or headed.0 0 0 ≡ m = ap (λ t. get_or t 0 0) first in
    elim (Bool-cases (ltb max_payload_size n)) [
      | inl t ↦ cc (rw t at e1)
      | inr t ↦
          let (body, cut', e3) = >>=-eq-ok (read_exact n headed.1) _ (rw t at e1) in
          sym (ap (λ (x : Frame × Bytes). x.0.msg_type) (ok-injective e3)) ∙ read
    ]

-- A frame that is alone on its stream.
pub alone :
    (m p : ℕ) (h payload : Bytes)
    → p < 2 ^ 128
    → length h ≡ 32
    → length payload ≤ max_payload_size
    → recv_frame (encode_frame m p h payload)
      ≡ ok (
        record {
          msg_type = m;
          project_id = p;
          payload_len = length payload;
          hash = h;
          payload = payload;
        },
        [],
      )
alone m p h payload hp hh fits =
    ap recv_frame (sym (append-nil (encode_frame m p h payload)))
    ∙ recv_frame-send_frame m p h payload [] hp hh fits

encoded-msg_type :
    (m p : ℕ) (h payload more : Bytes) (g : Frame)
    → recv_frame (encode_frame m p h payload) ≡ ok (g, more)
    → g.msg_type ≡ m
unfolding encode_frame
encoded-msg_type m p h payload more g e = recv_frame-msg_type m _ more g e

module _ (env : Env) (block_of : Bytes → Bytes) (wide : (d : Bytes) → length (env.blake3 d) ≡ 32)
    (archive : Archive) (turns : ℕ → Io × Link) (p : ℕ) (hp : p < 2 ^ 128) (files : FileMap)
    (frame : Frame) (path content : Bytes) (same_project : frame.project_id ≡ p)
    (ack_fits : length (write_ack env frame path content).payload ≤ max_payload_size) where
  -- The frame as it is read back.
  abbrev pub as_read : Frame → Frame
  as_read f = record f { payload_len = length f.payload }

  -- The server holds the map with the file replaced and the client has the acknowledgement; or the
  -- client has none, and the server holds the map as it was or with the file replaced.
  abbrev pub IsSettled : AppState × Exchange → Type 0
  IsSettled result =
      (Refines env block_of result.0 (replaced p path (some content) files)
        × (result.1 ≡ answered (as_read (write_ack env frame path content))))
      ⊎ ((Refines env block_of result.0 files
            ⊎ Refines env block_of result.0 (replaced p path (some content) files))
          × (is_acked result.1 ≡ false))

  answer-IsSettled :
      (st : AppState) (a : Result Frame)
      → IsAnswered env block_of p files frame (some (path, content)) (st, a)
      → IsSettled (st, answer_of env archive turns a)
  answer-IsSettled st (err e) (inl (done, r)) = cc
  answer-IsSettled st (err e) (inr (t, r)) = inr (inl r, refl)
  answer-IsSettled st (ok f) (inl (done, r)) =
      let same : f ≡ write_ack env frame path content = ok-injective done in
      let ack = write_ack env frame path content in
      let hp' : frame.project_id < 2 ^ 128 = subst (λ q. q < 2 ^ 128) (sym same_project) hp in
      let read =
        alone ack.msg_type ack.project_id ack.hash ack.payload hp' (wide ack.payload) ack_fits in
      inl (
        r,
        ap (λ (g : Frame). answer_of env archive turns (ok g)) same
            ∙ ap (arrived env archive turns) read,
      )
  answer-IsSettled st (ok f) (inr (t, r)) =
      failed (recv_frame (encode_frame f.msg_type f.project_id f.hash f.payload)) refl
    where
      failed :
          (x : Result (Frame × Bytes))
          → recv_frame (encode_frame f.msg_type f.project_id f.hash f.payload) ≡ x
          → IsSettled (st, arrived env archive turns x)
      failed (err e) read = inr (inl r, refl)
      failed (ok (g, more)) read =
          let kind = encoded-msg_type f.msg_type f.project_id f.hash f.payload more g read ∙ t in
          inr (inl r, ground (arith, kind))

  -- What the connection makes of an answered write.
  pub linked-IsSettled :
      (l : Link) (st : AppState) (result : AppState × Result Frame)
      → Refines env block_of st files
      → IsAnswered env block_of p files frame (some (path, content)) result
      → IsSettled (linked env archive turns l st result)
  linked-IsSettled delivered st (st', a) r h = answer-IsSettled st' a h
  linked-IsSettled (unsent e) st (st', a) r h = inr (inl r, refl)
  linked-IsSettled (unanswered e) st (st', a) r (inl (done, r')) = inr (inr r', refl)
  linked-IsSettled (unanswered e) st (st', a) r (inr (t, r')) = inr (inl r', refl)
