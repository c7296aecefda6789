-- ===== src/Server/Session/Admission.antt =====
-- Streams are served exactly if the token was shown first.
use proxygit.Prelude.{
  ap, ◌∙◌, ◌≡◌, refl, ◌⊎◌, inl, inr, true, List, ◌∷◌, length, ◌≤◌, ◌==◌, some, arith, Bool-cases,
}
use proxygit.Bytes.{Bytes}
use proxygit.Bytes.Utf8.{text, from_utf8_lossy}
use proxygit.Result.{Result, ok, err}
use proxygit.Protocol.Message.{msg_auth, msg_auth_ok}
use proxygit.Protocol.Frame.{Frame, recv_frame}
use proxygit.Auth.{trim, tokens_equal}
use proxygit.Auth.Compare.{tokens_equal_iff}
use proxygit.Server.{Env, Io, AppState, reply}
use proxygit.Server.Backup.{Archive}
use proxygit.Server.Session.{auth_required, check_token, serve, admit, handshake, handle_connection}

-- The first stream is a MSG_AUTH frame with the token, up to white space around it.
abbrev pub Presents : Bytes → Bytes → Type 0
Presents token stream =
    (frame : Frame) × (rest : Bytes) × (recv_frame stream ≡ ok (frame, rest))
    × (frame.msg_type ≡ msg_auth)
    × (trim (from_utf8_lossy frame.payload) ≡ token)

-- What the connection may be when it was not admitted: the state is as before and at most one
-- reply was sent.
abbrev pub IsRefused : AppState → AppState × List (Result Frame) → Type 0
IsRefused st result = (result.0 ≡ st) × (length result.1 ≤ 1)

pub check_token-eq :
    (st : AppState) (token p : Bytes)
    → st.auth_token ≡ some token
    → check_token st (some p) ≡ true
    → p ≡ token
unfolding check_token
check_token-eq st token p a h =
    let same : tokens_equal token p ≡ true = rw a at h in
    let e : token ≡ p = (tokens_equal_iff token p).0 same in cc

check_token_refl :
    (st : AppState) (token : Bytes)
    → st.auth_token ≡ some token
    → check_token st (some token) ≡ true
unfolding check_token
check_token_refl st token a = rw a ((tokens_equal_iff token token).1 refl)

pub auth_required-some :
    (st : AppState) (token : Bytes) → st.auth_token ≡ some token → auth_required st ≡ true
unfolding auth_required
auth_required-some st token a = rw a refl

module _ (env : Env) (archive : Archive) where
  admit-cases :
      (st : AppState) (token : Bytes) (streams : List (Io × Bytes)) (frame : Frame)
      → st.auth_token ≡ some token
      → ((frame.msg_type ≡ msg_auth) × (trim (from_utf8_lossy frame.payload) ≡ token))
        ⊎ IsRefused st (admit env archive st streams frame)
  admit-cases st token streams frame a = elim (Bool-cases (frame.msg_type == msg_auth)) [
    | inl t ↦ elim (Bool-cases (check_token st (some (trim (from_utf8_lossy frame.payload))))) [
      | inl c ↦
          inl
            (ground (arith, t), check_token-eq st token (trim (from_utf8_lossy frame.payload)) a c)
      | inr c ↦ inr (rw (t, c) (refl, omega arith))
    ]
    | inr t ↦ inr (rw t (refl, omega arith))
  ]

  -- The answers to a connection that was admitted, and the state that it leaves.
  abbrev pub IsAdmitted : AppState → List (Io × Bytes) → AppState × List (Result Frame) → Type 0
  IsAdmitted st streams result =
      (result.0 ≡ (serve env archive streams st).0)
      × (result.1
          ≡ ok (reply msg_auth_ok 0 (env.blake3 (text "ok")) (text "ok"))
            ∷ (serve env archive streams st).1)

  admit-IsAdmitted :
      (st : AppState) (token : Bytes) (streams : List (Io × Bytes)) (frame : Frame)
      → st.auth_token ≡ some token
      → frame.msg_type ≡ msg_auth
      → trim (from_utf8_lossy frame.payload) ≡ token
      → IsAdmitted st streams (admit env archive st streams frame)
  admit-IsAdmitted st token streams frame a m p =
      let known : check_token st (some (trim (from_utf8_lossy frame.payload))) ≡ true =
        ap (λ t. check_token st (some t)) p ∙ check_token_refl st token a in
      let auth : (frame.msg_type == msg_auth) ≡ true = ground (arith, m) in
      rw (auth, known) (refl, refl)

  -- With a token set, a connection whose first stream is a MSG_AUTH frame with exactly that token,
  -- white space around it aside, is answered with MSG_AUTH_OK and the answers to the other streams
  -- in turn, and leaves the state that serving them leaves; a connection whose first stream is not
  -- leaves the state as it was and sends at most one reply.
  pub handle_connection-IsAdmitted :
      (st : AppState) (token first : Bytes) (io : Io) (streams : List (Io × Bytes))
      → st.auth_token ≡ some token
      → (Presents token first
          → IsAdmitted st streams (handle_connection env archive ((io, first) ∷ streams) st))
        × (Presents token first
            ⊎ IsRefused st (handle_connection env archive ((io, first) ∷ streams) st))
  unfolding handle_connection
  handle_connection-IsAdmitted st token first io streams a = rw (auth_required-some st token a) (
    λ presented.
        let (frame, rest, read, m, p) = presented in
        rw read (admit-IsAdmitted st token streams frame a m p),
    first_stream (recv_frame first) refl,
  )
    where
      first_stream :
          (r : Result (Frame × Bytes))
          → recv_frame first ≡ r
          → Presents token first ⊎ IsRefused st (handshake env archive st streams r)
      first_stream (err e) read = inr (refl, omega arith)
      first_stream (ok (frame, rest)) read = elim (admit-cases st token streams frame a) [
        | inl (t, p) ↦ inl (frame, rest, read, t, p)
        | inr refused ↦ inr refused
      ]
