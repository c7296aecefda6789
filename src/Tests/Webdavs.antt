-- ===== src/Tests/Webdavs.antt =====
-- Runs of the WebDAV server.
use proxygit.Prelude.{map, ◌≡◌, ◌⊎◌, true, ◌++◌, List, [], ◌∷◌, none, some, arith, refl}
use proxygit.Bytes.{Bytes}
use proxygit.Bytes.Utf8.{text}
use proxygit.Bytes.Ascii.{lower, parse_usize, decimal}
use proxygit.Server.{AppState, calm, last_writer_wins}
use proxygit.Webdav.{HttpRequest, Http, header, line, plain, handle_put, handle_delete, handle_get}
use proxygit.Webdav.Request.{
  presented, unauthorized, process_webdav_request, handle_webdav_connection,
}
use proxygit.Webdav.Files.{IsDone, handle_put-IsDone, handle_delete-IsDone, handle_get-got}
use proxygit.Webdav.Connection.{handle_webdav_connection-ends, process_webdav_request-authorized}
use proxygit.Tests.{env, env_hex, digest-wide, fresh, tar}
use proxygit.Tests.Servers.{block_of}
use proxygit.Tests.Refinements.{no_files, fresh-Refines, data-HasNamedChunks}

-- Upper case and pretty JSON are stand-ins; project ids are decimal here.
abbrev http : Http
http = record {
  to_lowercase = λ s. map lower s;
  to_uppercase = λ s. s;
  parse_uuid = parse_usize;
  show_uuid = decimal;
  to_vec_pretty = λ json. [];
  format_http_date = decimal;
}

abbrev put : HttpRequest
put = record {
  method = text "PUT";
  uri = text "/7/a";
  headers = (text "authorization", text "Bearer nonsense") ∷ [];
  body = text "data";
}

handle_put-IsDone_example :
    IsDone env http block_of no_files 7
      (text "a")
      (some (text "data"))
      (plain 201 (line (text "Created")))
      (handle_put env http (calm 1) put 7 (text "a") (fresh none last_writer_wins))
handle_put-IsDone_example =
    handle_put-IsDone env http block_of no_files (calm 1) 7 (text "a") digest-wide put
      (fresh none last_writer_wins) refl data-HasNamedChunks fresh-Refines

handle_delete-IsDone_example :
    IsDone env http block_of no_files 7
      (text "a")
      none
      (plain 204 [])
      (handle_delete env http (calm 1) 7 (text "a") (fresh none last_writer_wins))
handle_delete-IsDone_example =
    handle_delete-IsDone env http block_of no_files (calm 1) 7 (text "a")
      (fresh none last_writer_wins) refl fresh-Refines

handle_get-got_example :
    handle_get env http (calm 1) 7 (text "a") (fresh none last_writer_wins)
    ≡ plain 404 (line (text "File Not Found"))
handle_get-got_example =
    handle_get-got env http block_of no_files env_hex 1 7 (text "a") (fresh none last_writer_wins)
      refl fresh-Refines

abbrev get_stream : Bytes
get_stream = text "GET /7/a HTTP/1.1" ++ (10 ∷ 10 ∷ [])

handle_webdav_connection-ends_example :
    (r : AppState × List Bytes) × (handle_webdav_connection env http tar 40
        (λ k. (calm k, true))
        0
        get_stream
        (fresh none last_writer_wins)
      ≡ some r)
handle_webdav_connection-ends_example =
    handle_webdav_connection-ends env http tar 40 (λ k. (calm k, true)) 0 get_stream
      (fresh none last_writer_wins) (omega arith)

process_webdav_request-authorized_example :
    (presented (header env http (text "authorization") put) ≡ some (text "secret"))
    ⊎ (process_webdav_request env http tar
          (calm 1)
          put
          (fresh (some (text "secret")) last_writer_wins)
        ≡ (fresh (some (text "secret")) last_writer_wins, unauthorized env http))
process_webdav_request-authorized_example =
    process_webdav_request-authorized env http tar (calm 1) put
      (fresh (some (text "secret")) last_writer_wins) (text "secret") refl
