-- ===== src/Webdav.antt =====
-- The WebDAV server, crates/proxygit-server/src/webdav.rs: its responses, and the handlers of its
-- methods over the server's state.
pub mod Backups
pub mod Request
pub mod Files
pub mod Connection
use proxygit.Prelude.{
  ℕ, Bool, true, false, ◌||◌, List, [], ◌∷◌, ◌++◌, length, is_empty, ◌==◌, if◌then◌else◌, Option,
  none, some,
}
use proxygit.Bytes.{Bytes, bytes_eq}
use proxygit.Bytes.Ascii.{decimal, starts_with}
use proxygit.Bytes.Utf8.{text}
use proxygit.Result.{Result, ok, err, Error, out_of_fuel}
use proxygit.Cdc.{ChunkResult, default_config, process_buffer}
use proxygit.BlockStore.{Disk, read_blocks, store_file}
use proxygit.Indexer.{
  FileEntry, Tables, list_files, stat_file, get_file_blocks, ingest_chunks, delete_file,
}
use proxygit.Server.{Env, Io, AppState, Json, array, query, set_tables, entry_values}
use proxygit.Server.Read.{unwrap_or_default}

pub record HttpRequest : Type 0 where
  pub method : Bytes
  pub uri : Bytes
  pub headers : List (Bytes × Bytes)
  pub body : Bytes

-- The functions of std, uuid and serde_json that the WebDAV server uses beside the others'.
pub record Http : Type 0 where
  pub to_lowercase : Bytes → Bytes
  pub to_uppercase : Bytes → Bytes
  pub parse_uuid : Bytes → Option ℕ
  pub show_uuid : ℕ → Bytes
  pub to_vec_pretty : Json → Bytes
  pub format_http_date : ℕ → Bytes

abbrev pub status_text : ℕ → Bytes
status_text status =
    if status == 200
    then text "OK"
    else if status == 201
    then text "Created"
    else if status == 204
    then text "No Content"
    else if status == 207
    then text "Multi-Status"
    else if status == 400
    then text "Bad Request"
    else if status == 401
    then text "Unauthorized"
    else if status == 403
    then text "Forbidden"
    else if status == 404
    then text "Not Found"
    else if status == 405
    then text "Method Not Allowed"
    else if status == 409
    then text "Conflict"
    else if status == 500
    then text "Internal Server Error"
    else text "Unknown"

abbrev pub crlf : Bytes
crlf = 13 ∷ 10 ∷ []

abbrev pub header_lines : List (Bytes × Bytes) → Bytes
header_lines [] = []
header_lines ((k, v) ∷ headers) = k ++ (text ": " ++ (v ++ (crlf ++ header_lines headers)))

unfoldable pub make_http_response_with_headers : ℕ → Bytes → Bytes → List (Bytes × Bytes) → Bytes
unfolding decimal
make_http_response_with_headers status content_type body headers =
    text "HTTP/1.1 "
    ++ (decimal status
        ++ (text " "
            ++ (status_text status
                ++ (crlf
                    ++ (text "Server: ProxyGit-WebDAV/0.1.0"
                        ++ (crlf
                            ++ (text "Content-Type: "
                                ++ (content_type
                                    ++ (crlf
                                        ++ (text "Content-Length: "
                                            ++ (decimal (length body)
                                                ++ (crlf
                                                    ++ (header_lines headers
                                                        ++ (crlf ++ body))))))))))))))

abbrev pub make_http_response : ℕ → Bytes → Bytes → Bytes
make_http_response status content_type body =
    make_http_response_with_headers status content_type body []

abbrev pub plain : ℕ → Bytes → Bytes
plain status body = make_http_response status (text "text/plain") body

abbrev pub line : Bytes → Bytes
line s = s ++ 10 ∷ []

module _ (env : Env) (http : Http) where
  abbrev pub failed : Error → Bytes
  failed e = plain 500 (env.display e)

  abbrev pub got_content : Result Bytes → Bytes
  got_content (ok content) = make_http_response 200 (text "application/octet-stream") content
  got_content (err e) = failed e

  abbrev pub got_blocks : Io → Disk → Result (List Bytes) → Bytes
  got_blocks io disk (err e) = failed e
  got_blocks io disk (ok []) = make_http_response 200 (text "application/octet-stream") []
  got_blocks io disk (ok (b ∷ bs)) = elim io.read_fault [
    | none ↦ got_content (read_blocks disk (b ∷ bs))
    | some e ↦ failed e
  ]

  abbrev pub got_entry : Io → ℕ → Bytes → AppState → Result (Option FileEntry) → Bytes
  got_entry io project_id subpath st (err e) = failed e
  got_entry io project_id subpath st (ok none) = plain 404 (line (text "File Not Found"))
  got_entry io project_id subpath st (ok (some entry)) =
      got_blocks io st.disk
        (query io.blocks_fault (get_file_blocks subpath (st.tables project_id).file_blocks))

  unfoldable pub handle_get : Io → ℕ → Bytes → AppState → Bytes
  unfolding query stat_file list_files get_file_blocks read_blocks
  handle_get io project_id subpath st =
      let files =
        unwrap_or_default (query io.list_fault (list_files (st.tables project_id).files)) in
      if is_empty subpath
      then make_http_response 200 (text "application/json")
          (http.to_vec_pretty (array (entry_values files)))
      else got_entry io project_id subpath st
          (query io.stat_fault (stat_file subpath (st.tables project_id).files))

  abbrev pub head_entry : Result (Option FileEntry) → Bytes
  head_entry (err e) = plain 500 []
  head_entry (ok none) = plain 404 []
  head_entry (ok (some entry)) =
      make_http_response_with_headers 200 (text "application/octet-stream") [] (
        (text "Content-Length", decimal entry.size)
        ∷ (text "Last-Modified", http.format_http_date entry.mtime)
        ∷ [])

  unfoldable pub handle_head : Io → ℕ → Bytes → AppState → Bytes
  unfolding query stat_file
  handle_head io project_id subpath st =
      head_entry (query io.stat_fault (stat_file subpath (st.tables project_id).files))

  abbrev pub put_indexed : ℕ → AppState → Result Tables → AppState × Bytes
  put_indexed project_id st (err e) = (st, failed e)
  put_indexed project_id st (ok t) =
      (record st { tables = set_tables project_id t st.tables }, plain 201 (line (text "Created")))

  abbrev pub put_stored :
      Io → ℕ → Bytes → AppState → List ChunkResult → Disk × Result (Unit {0}) → AppState × Bytes
  put_stored io project_id subpath st chunks (disk, err e) = (record st { disk = disk }, failed e)
  put_stored io project_id subpath st chunks (disk, ok u) =
      put_indexed project_id (record st { disk = disk })
        (ingest_chunks env.blake3 env.hex_encode io.ingest_fault io.now subpath chunks
          (st.tables project_id))

  abbrev pub put_chunks : Io → ℕ → Bytes → AppState → Option (List ChunkResult) → AppState × Bytes
  put_chunks io project_id subpath st none = (st, failed out_of_fuel)
  put_chunks io project_id subpath st (some chunks) =
      put_stored io project_id subpath st chunks
        (store_file env.hex_encode io.store_fault chunks st.disk)

  unfoldable pub handle_put : Io → HttpRequest → ℕ → Bytes → AppState → AppState × Bytes
  unfolding process_buffer store_file ingest_chunks set_tables
  handle_put io req project_id subpath st =
      if is_empty subpath
      then (st, plain 400 (line (text "Cannot PUT to project root")))
      else put_chunks io project_id subpath st (process_buffer env.blake3 default_config req.body)

  abbrev pub deleted : ℕ → AppState → Result Tables → AppState × Bytes
  deleted project_id st (err e) = (st, failed e)
  deleted project_id st (ok t) =
      (record st { tables = set_tables project_id t st.tables }, plain 204 [])

  unfoldable pub handle_delete : Io → ℕ → Bytes → AppState → AppState × Bytes
  unfolding delete_file set_tables
  handle_delete io project_id subpath st =
      if is_empty subpath
      then (st, plain 400 (line (text "Cannot DELETE project root")))
      else deleted project_id st (delete_file io.ingest_fault subpath (st.tables project_id))

  -- `f.path.starts_with(&prefix)` of the entries.
  unfoldable pub matching : Bytes → List FileEntry → List FileEntry
  unfolding starts_with
  matching prefix [] = []
  matching prefix (f ∷ fs) =
      let rest = matching prefix fs in if starts_with prefix f.path then f ∷ rest else rest

  unfoldable pub render_xml_response : Bytes → Bytes → Bool → ℕ → ℕ → Bytes
  unfolding decimal
  render_xml_response href name is_dir size mtime =
      let resourcetype =
        if is_dir
        then text "<d:resourcetype><d:collection/></d:resourcetype>"
        else text "<d:resourcetype/>" in
      line (text "  <d:response>")
      ++ line (text "    <d:href>" ++ (href ++ text "</d:href>"))
      ++ line (text "    <d:propstat>")
      ++ line (text "      <d:prop>")
      ++ line (text "        <d:displayname>" ++ (name ++ text "</d:displayname>"))
      ++ line
          (text "        <d:getcontentlength>" ++ (decimal size ++ text "</d:getcontentlength>"))
      ++ line (
          text "        <d:getlastmodified>"
          ++ (http.format_http_date mtime ++ text "</d:getlastmodified>"))
      ++ line (text "        " ++ resourcetype)
      ++ line (text "      </d:prop>")
      ++ line (text "      <d:status>HTTP/1.1 200 OK</d:status>")
      ++ line (text "    </d:propstat>")
      ++ line (text "  </d:response>")

  unfoldable pub render_entries : Bytes → List FileEntry → Bytes
  unfolding render_xml_response
  render_entries root [] = []
  render_entries root (f ∷ fs) =
      render_xml_response (root ++ f.path) f.path false f.size f.mtime ++ render_entries root fs

  abbrev pub find_header : Bytes → List (Bytes × Bytes) → Option Bytes
  find_header name [] = none
  find_header name ((k, v) ∷ headers) =
      let later = find_header name headers in
      if bytes_eq (http.to_lowercase k) name then some v else later

  -- `HttpRequest::header`.
  unfoldable pub header : Bytes → HttpRequest → Option Bytes
  header name req = find_header (http.to_lowercase name) req.headers

  abbrev or_default : Option Bytes → Bytes → Bytes
  or_default none d = d
  or_default (some v) d = v

  unfoldable pub handle_propfind : Io → HttpRequest → ℕ → Bytes → AppState → Bytes
  unfolding header list_files query matching render_entries render_xml_response
      make_http_response_with_headers
  handle_propfind io req project_id subpath st =
      let depth = or_default (header (text "depth") req) (text "1") in
      let all_files =
        unwrap_or_default (query io.list_fault (list_files (st.tables project_id).files)) in
      let root = text "/webdav/" ++ (http.show_uuid project_id ++ text "/") in
      let prefix = subpath ++ text "/" in
      let shown = if is_empty subpath then all_files else matching prefix all_files in
      let listed = if bytes_eq depth (text "0") then [] else render_entries root shown in
      let xml =
        line (text "<?xml version=\"1.0\" encoding=\"utf-8\"?>")
        ++ (line (text "<d:multistatus xmlns:d=\"DAV:\">")
            ++ (render_xml_response (root ++ subpath) subpath true 0 0
                ++ (listed ++ line (text "</d:multistatus>")))) in
      make_http_response_with_headers 207 (text "application/xml; charset=\"utf-8\"") xml
        ((text "DAV", text "1, 2") ∷ [])
