-- ===== src/Webdav/Connection.antt =====
-- Connections of crates/proxygit-server/src/webdav.rs: they end, and serve nothing without the
-- token.
use proxygit.Prelude.{
  ℕ, zero, suc, ◌+◌, ◌<◌, ◌≤◌, ◌≡◌, refl, ap, ◌⊎◌, inl, inr, Bool, true, false, ◌||◌, List, [], ◌∷◌,
  ◌==◌, length, length-drop, drop, leb, is_empty, Option, none, some, arith, Bool-cases,
  Option-cases,
}
use proxygit.Bytes.{Bytes}
use proxygit.Bytes.Ascii.{read_line}
use proxygit.Bytes.Utf8.{text, from_utf8, utf8_from}
use proxygit.Auth.{trim}
use proxygit.Server.{Env, Io, AppState}
use proxygit.Server.Session.{check_token}
use proxygit.Server.Session.Admission.{check_token-eq, auth_required-some}
use proxygit.Server.Backup.{Archive}
use proxygit.Webdav.{HttpRequest, Http, header}
use proxygit.Webdav.Request.{
  Reading, got, ended, Headers, text_line, two_words, add_header, read_headers, read_body,
  request_line, read_request, presented, is_authorized, unauthorized, process_webdav_request,
  wants_close, sent, handle_webdav_connection,
}

length-read_line : (bs : Bytes) → length (read_line bs).0 + length (read_line bs).1 ≡ length bs
unfolding read_line
length-read_line [] = refl
length-read_line (b ∷ bs) = elim (Bool-cases (b == 10)) [
  | inl e ↦ rw e (omega arith)
  | inr e ↦ rw e (omega (arith, length-read_line bs))
]

-- A line and what follows it are the stream, in length.
text_line-length :
    (stream l rest : Bytes) → text_line stream ≡ got l rest → length l + length rest ≡ length stream
unfolding text_line from_utf8
text_line-length stream l rest e = elim (Bool-cases (utf8_from [] (read_line stream).0)) [
  | inl t ↦
      let e' : got (read_line stream).0 (read_line stream).1 ≡ got l rest =
        rw (t, text_line) at e in
      let at_l : (read_line stream).0 ≡ l = cc in
      let at_rest : (read_line stream).1 ≡ rest = cc in
      omega (arith, length-read_line stream, ap length at_l, ap length at_rest)
  | inr t ↦ cc (rw (t, text_line) at e)
]

Reading-cases {ℓ} :
    {A : Type ℓ} (r : Reading A) → (r ≡ ended) ⊎ ((a : A) × (rest : Bytes) × (r ≡ got a rest))
Reading-cases ended = inl refl
Reading-cases (got a rest) = inr (a, rest, refl)

blank_or_longer : (l : Bytes) → (is_empty l || is_empty (trim l)) ≡ false → 1 ≤ length l
blank_or_longer [] h = cc
blank_or_longer (b ∷ l) h = omega arith

read_headers-length :
    (fuel : ℕ) (seen seen' : ℕ × Headers) (stream rest : Bytes)
    → read_headers fuel seen stream ≡ got seen' rest
    → length rest ≤ length stream
unfolding read_headers
read_headers-length zero seen seen' stream rest e = cc
read_headers-length (suc fuel) seen seen' stream rest e = elim (Reading-cases (text_line stream)) [
  | inl n ↦ cc (rw (n, read_headers) at e)
  | inr (l, after, n) ↦
      let whole = text_line-length stream l after n in
      elim (Bool-cases (is_empty l || is_empty (trim l))) [
        | inl blank ↦
            let e' : got seen after ≡ got seen' rest = rw (n, read_headers, blank) at e in
            let same : after ≡ rest = cc in omega (arith, ap length same)
        | inr more ↦
            let e' : read_headers fuel (add_header (trim l) seen) after ≡ got seen' rest =
              rw (n, read_headers, more) at e in
            omega (arith, read_headers-length fuel (add_header (trim l) seen) seen' after rest e')
      ]
]

-- From a round more than the stream has bytes on, the fuel of the header loop does not matter.
pub read_headers-enough :
    (fuel more : ℕ) (seen : ℕ × Headers) (stream : Bytes)
    → length stream < fuel
    → length stream < more
    → read_headers fuel seen stream ≡ read_headers more seen stream
unfolding read_headers
read_headers-enough zero more seen stream h h' = absurd (omega arith)
read_headers-enough (suc fuel) zero seen stream h h' = absurd (omega arith)
read_headers-enough (suc fuel) (suc more) seen stream h h' =
    elim (Reading-cases (text_line stream)) [
      | inl n ↦ rw (n, read_headers) refl
      | inr (l, after, n) ↦
          let whole = text_line-length stream l after n in
          elim (Bool-cases (is_empty l || is_empty (trim l))) [
            | inl blank ↦ rw (n, read_headers, blank) refl
            | inr longer ↦
                let some_left = blank_or_longer l longer in
                rw (n, read_headers, longer)
                  (read_headers-enough fuel more (add_header (trim l) seen) after (omega arith)
                    (omega arith))
          ]
    ]

read_body-length :
    (method uri : Bytes) (seen : ℕ × Headers) (stream rest : Bytes) (req : HttpRequest)
    → read_body method uri seen stream ≡ got req rest
    → length rest ≤ length stream
unfolding read_body
read_body-length method uri (n, headers) stream rest req e =
    elim (Bool-cases (leb n (length stream))) [
      | inl t ↦
          let e' = rw t at e in
          let same : drop n stream ≡ rest = cc in
          omega (arith, length-drop n stream, ap length same)
      | inr t ↦ cc (rw t at e)
    ]

module _ (env : Env) (http : Http) where
  request_line-length :
      (l stream rest : Bytes) (req : HttpRequest)
      → request_line env http l stream ≡ got req rest
      → length rest ≤ length stream
  request_line-length l stream rest req e = elim (Option-cases (two_words l)) [
    | inl n ↦ cc (rw (n, request_line) at e)
    | inr ((method, uri), n) ↦
        elim (Reading-cases (read_headers (suc (length stream)) (0, []) stream)) [
          | inl m ↦ cc (rw (n, request_line, m) at e)
          | inr (seen, after, m) ↦
              let e' : read_body (http.to_uppercase method) uri seen after ≡ got req rest =
                rw (n, request_line, m) at e in
              omega (
                arith,
                read_headers-length (suc (length stream)) (0, []) seen stream after m,
                read_body-length (http.to_uppercase method) uri seen after rest req e',
              )
        ]
  ]

  -- A request takes a byte of the stream at least.
  read_request-length :
      (stream rest : Bytes) (req : HttpRequest)
      → read_request env http stream ≡ got req rest
      → length rest < length stream
  unfolding read_request
  read_request-length stream rest req e = elim (Reading-cases (text_line stream)) [
    | inl n ↦ cc (rw (n, read_request) at e)
    | inr ([], after, n) ↦ cc (rw (n, read_request) at e)
    | inr (b ∷ l, after, n) ↦
        let e' : request_line env http (b ∷ l) after ≡ got req rest = rw (n, read_request) at e in
        omega (
          arith,
          text_line-length stream (b ∷ l) after n,
          request_line-length (b ∷ l) after rest req e',
        )
  ]

  module _ (archive : Archive) where
    sent-some :
        (resp : Bytes) (later : Option (AppState × List Bytes))
        → (r : AppState × List Bytes) × (later ≡ some r)
        → (r : AppState × List Bytes) × (sent resp later ≡ some r)
    sent-some resp none (r, e) = cc
    sent-some resp (some (st, resps)) (r, e) = ((st, resp ∷ resps), refl)

    -- The loop of a connection ends on every stream: a round more than the stream has bytes is
    -- enough, whatever the disk, the database and the socket do.
    pub handle_webdav_connection-ends :
        (fuel : ℕ) (turns : ℕ → Io × Bool) (k : ℕ) (stream : Bytes) (st : AppState)
        → length stream < fuel
        → (r : AppState × List Bytes) × (handle_webdav_connection env http archive fuel turns k
              stream st
            ≡ some r)
    unfolding handle_webdav_connection
    handle_webdav_connection-ends zero turns k stream st h = absurd (omega arith)
    handle_webdav_connection-ends (suc fuel) turns k stream st h =
        elim (Reading-cases (read_request env http stream)) [
          | inl n ↦ ((st, []), rw (n, handle_webdav_connection) refl)
          | inr (req, rest, n) ↦
              let served = process_webdav_request env http archive (turns k).0 req st in
              let shorter = read_request-length stream rest req n in
              let later =
                handle_webdav_connection-ends fuel turns (suc k) rest served.0 (omega arith) in
              elim (Bool-cases (turns k).1) [
                | inr b ↦ ((served.0, []), rw (n, handle_webdav_connection, b) refl)
                | inl b ↦ elim (Bool-cases (wants_close env http archive req)) [
                  | inl c ↦ ((served.0, served.1 ∷ []), rw (n, handle_webdav_connection, b, c) refl)
                  | inr c ↦
                      let (r, e) = sent-some served.1 _ later in
                      (r, rw (n, handle_webdav_connection, b, c) e)
                ]
              ]
        ]

    presented-eq :
        (st : AppState) (token : Bytes) (p : Option Bytes)
        → st.auth_token ≡ some token
        → check_token st p ≡ true
        → p ≡ some token
    unfolding check_token
    presented-eq st token none a h = let h' : false ≡ true = rw a at h in cc
    presented-eq st token (some p) a h = ap some (check_token-eq st token p a h)

    -- With a token set, a request whose `Authorization` header does not carry exactly that token as
    -- a bearer is answered with 401, and the state, files and backups included, is as before.
    pub process_webdav_request-authorized :
        (io : Io) (req : HttpRequest) (st : AppState) (token : Bytes)
        → st.auth_token ≡ some token
        → (presented (header env http (text "authorization") req) ≡ some token)
          ⊎ (process_webdav_request env http archive io req st ≡ (st, unauthorized env http))
    unfolding process_webdav_request is_authorized
    process_webdav_request-authorized io req st token a =
        elim (Bool-cases
          (check_token st (presented (header env http (text "authorization") req)))) [
            | inl c ↦
                inl (
                  presented-eq st token (presented (header env http (text "authorization") req)) a
                    c)
            | inr c ↦ inr (rw (auth_required-some st token a, c) refl)
          ]
