-- ===== src/Webdav/Request.antt =====
-- The requests of crates/proxygit-server/src/webdav.rs: how a connection reads them, and which
-- handler `process_webdav_request` calls.
use proxygit.Prelude.{
  ℕ, zero, suc, Bool, true, false, ◌||◌, List, [], ◌∷◌, ◌++◌, length, take, drop, is_empty, leb,
  if◌then◌else◌, Option, none, some,
}
use proxygit.Bytes.{Bytes, bytes_eq}
use proxygit.Bytes.Ascii.{
  starts_with, strip_prefix, split_once, parse_usize, eq_ignore_ascii_case, read_line,
}
use proxygit.Bytes.Utf8.{text, from_utf8}
use proxygit.Result.{Result, ok, err}
use proxygit.Auth.{white1, white2, white3, trim, trim_start, bearer_from_authorization}
use proxygit.Paths.{trim_slashes, sanitize_path}
use proxygit.Server.{Env, Io, AppState}
use proxygit.Server.Session.{auth_required, check_token}
use proxygit.Webdav.{
  HttpRequest, Http, make_http_response_with_headers, plain, line, header, handle_get, handle_head,
  handle_put, handle_delete, handle_propfind,
}
use proxygit.Server.Backup.{Archive}
use proxygit.Webdav.Backups.{handle_backup_request}

-- The first word of a text that starts with none but words' bytes, and what follows it.
unfoldable pub next_word : Bytes → Bytes × Bytes
next_word [] = ([], [])
next_word (a ∷ []) = if white1 a then ([], []) else (a ∷ [], [])
next_word (a ∷ b ∷ []) =
    let (word, rest) = next_word (b ∷ []) in
    if white1 a || white2 a b then ([], a ∷ b ∷ []) else (a ∷ word, rest)
next_word (a ∷ b ∷ c ∷ bs) =
    let (word, rest) = next_word (b ∷ c ∷ bs) in
    if white1 a || white2 a b || white3 a b c then ([], a ∷ b ∷ c ∷ bs) else (a ∷ word, rest)

-- The first two of `str::split_whitespace`, if there are two.
unfoldable pub two_words : Bytes → Option (Bytes × Bytes)
unfolding trim_start next_word
two_words s =
    let (first, rest) = next_word (trim_start s) in
    let (second, more) = next_word (trim_start rest) in
    if is_empty first || is_empty second then none else some (first, second)

-- What reading from the socket gave: a value and the bytes that are left, or the end of the
-- connection, by an error or by `break`.
pub data Reading {ℓ} (A : Type ℓ) : Type ℓ where
  got : A → Bytes → Reading A
  ended : Reading A

-- A line of text; a line that is not UTF-8 is an error.
unfoldable pub text_line : Bytes → Reading Bytes
unfolding read_line from_utf8
text_line stream =
    let (l, rest) = read_line stream in elim (from_utf8 l) [ none ↦ ended | some s ↦ got s rest ]

abbrev pub Headers : Type 0
Headers = List (Bytes × Bytes)

abbrev or_zero : Option ℕ → ℕ
or_zero none = 0
or_zero (some n) = n

-- What a header line adds: `content_length` and the headers, the last one first.
unfoldable pub add_header : Bytes → ℕ × Headers → ℕ × Headers
unfolding split_once trim parse_usize eq_ignore_ascii_case
add_header trimmed (content_length, headers) = elim (split_once b':' trimmed) [
  | none ↦ (content_length, headers)
  | some (k, v) ↦ (
    (if eq_ignore_ascii_case (trim k) (text "content-length")
        then or_zero (parse_usize (trim v))
        else content_length),
    headers ++ (trim k, trim v) ∷ [],
  )
]

-- The loop over the header lines, on fuel; it ends at a blank line and at the end of the stream.
unfoldable pub read_headers : ℕ → ℕ × Headers → Bytes → Reading (ℕ × Headers)
unfolding text_line add_header trim
read_headers zero seen stream = ended
read_headers (suc fuel) seen stream = elim (text_line stream) [
  | ended ↦ ended
  | got l rest ↦
      if is_empty l || is_empty (trim l)
      then got seen rest
      else read_headers fuel (add_header (trim l) seen) rest
]

-- `vec![0u8; content_length]` and `read_exact`.
unfoldable pub read_body : Bytes → Bytes → ℕ × Headers → Bytes → Reading HttpRequest
read_body method uri (content_length, headers) stream =
    if leb content_length (length stream)
    then got
        (record {
          method = method;
          uri = uri;
          headers = headers;
          body = take content_length stream;
        })
        (drop content_length stream)
    else ended

abbrev pub presented : Option Bytes → Option Bytes
presented none = none
presented (some v) = bearer_from_authorization v

-- A response in front of those of the later requests.
abbrev pub sent : Bytes → Option (AppState × List Bytes) → Option (AppState × List Bytes)
sent resp none = none
sent resp (some (st, resps)) = some (st, resp ∷ resps)

module _ (env : Env) (http : Http) where
  abbrev pub request_line : Bytes → Bytes → Reading HttpRequest
  request_line l rest = elim (two_words l) [
    | none ↦ ended
    | some (method, uri) ↦ elim (read_headers (suc (length rest)) (0, []) rest) [
      | ended ↦ ended
      | got seen stream ↦ read_body (http.to_uppercase method) uri seen stream
    ]
  ]

  unfoldable pub read_request : Bytes → Reading HttpRequest
  unfolding text_line two_words read_headers read_body
  read_request stream = elim (text_line stream) [
    | ended ↦ ended
    | got l rest ↦ if is_empty l then ended else request_line l rest
  ]

  -- Whether the request may pass: no token is set, or it presents the token as a bearer.
  unfoldable pub is_authorized : HttpRequest → AppState → Bool
  unfolding auth_required header check_token bearer_from_authorization
  is_authorized req st =
      if auth_required st
      then check_token st (presented (header env http (text "authorization") req))
      else true

  abbrev pub unauthorized : Bytes
  unauthorized =
      make_http_response_with_headers 401 (text "text/plain") (line (text "Unauthorized"))
        ((text "WWW-Authenticate", text "Bearer realm=\"proxygit\"") ∷ [])

  abbrev pub clean_uri : Bytes → Bytes
  clean_uri uri = elim (strip_prefix (text "webdav/") (trim_slashes uri)) [
    | some rest ↦ rest
    | none ↦ trim_slashes uri
  ]

  abbrev pub project_and_path : Bytes → Bytes × Bytes
  project_and_path uri = elim (split_once b'/' uri) [ none ↦ (uri, []) | some (p, s) ↦ (p, s) ]

  -- A handler that leaves the state alone.
  abbrev answer : AppState → Bytes → AppState × Bytes
  answer st resp = (st, resp)

  unfoldable pub handle_method : Io → HttpRequest → ℕ → Bytes → AppState → AppState × Bytes
  unfolding handle_propfind handle_get handle_head handle_put handle_delete
  handle_method io req project_id subpath st =
      if bytes_eq req.method (text "OPTIONS")
      then answer st (
          make_http_response_with_headers 200 (text "text/plain") [] (
            (text "DAV", text "1, 2")
            ∷ (text "Allow", text "OPTIONS, GET, HEAD, POST, PUT, DELETE, PROPFIND, MKCOL")
            ∷ (text "MS-Author-Via", text "DAV")
            ∷ []))
      else if bytes_eq req.method (text "PROPFIND")
      then answer st (handle_propfind env http io req project_id subpath st)
      else if bytes_eq req.method (text "GET")
      then answer st (handle_get env http io project_id subpath st)
      else if bytes_eq req.method (text "HEAD")
      then answer st (handle_head env http io project_id subpath st)
      else if bytes_eq req.method (text "PUT")
      then handle_put env http io req project_id subpath st
      else if bytes_eq req.method (text "DELETE")
      then handle_delete env http io project_id subpath st
      else if bytes_eq req.method (text "MKCOL")
      then answer st (plain 201 (line (text "Created")))
      else answer st (plain 405 (line (text "Method Not Allowed")))

  module _ (archive : Archive) where
    abbrev at_path : Io → HttpRequest → AppState → ℕ → Result Bytes → AppState × Bytes
    at_path io req st project_id (err e) = (st, plain 403 (env.display e))
    at_path io req st project_id (ok subpath) =
        if bytes_eq subpath (text "__backup") || starts_with (text "__backup/") subpath
        then handle_backup_request env http archive io req project_id subpath st
        else handle_method io req project_id subpath st

    abbrev at_project : Io → HttpRequest → AppState → Bytes → Option ℕ → AppState × Bytes
    at_project io req st path_str none = (st, plain 400 (line (text "Invalid Project UUID")))
    at_project io req st path_str (some project_id) =
        at_path io req st project_id (sanitize_path path_str)

    abbrev at_uri : Io → HttpRequest → AppState → Bytes × Bytes → AppState × Bytes
    at_uri io req st (project_str, path_str) =
        if is_empty project_str
        then (st, plain 200 (line (text "ProxyGit WebDAV Server Ready")))
        else at_project io req st path_str (http.parse_uuid project_str)

    unfoldable pub process_webdav_request : Io → HttpRequest → AppState → AppState × Bytes
    unfolding is_authorized strip_prefix trim_slashes split_once sanitize_path starts_with
        handle_method handle_backup_request
    process_webdav_request io req st =
        if is_authorized req st
        then at_uri io req st (project_and_path (clean_uri req.uri))
        else (st, unauthorized)

    unfoldable pub wants_close : HttpRequest → Bool
    unfolding header eq_ignore_ascii_case
    wants_close req = elim (header env http (text "connection") req) [
      | none ↦ false
      | some c ↦ eq_ignore_ascii_case c (text "close")
    ]

    -- The requests of one connection: the state they leave, and the responses. `turns k` is what
    -- the disk and the database do for the k-th request, and whether its response can be sent.
    -- `none` is the end of the fuel.
    unfoldable pub handle_webdav_connection :
        ℕ → (ℕ → Io × Bool) → ℕ → Bytes → AppState → Option (AppState × List Bytes)
    unfolding read_request process_webdav_request wants_close
    handle_webdav_connection zero turns k stream st = none
    handle_webdav_connection (suc fuel) turns k stream st = elim (read_request stream) [
      | ended ↦ some (st, [])
      | got req rest ↦
          let (st', resp) = process_webdav_request (turns k).0 req st in
          let later = handle_webdav_connection fuel turns (suc k) rest st' in
          if (turns k).1
          then (if wants_close req then some (st', resp ∷ []) else sent resp later)
          else some (st', [])
    ]
