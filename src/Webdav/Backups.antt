-- ===== src/Webdav/Backups.antt =====
-- `handle_backup_request` of crates/proxygit-server/src/webdav.rs: backups over HTTP.
use proxygit.Prelude.{ℕ, not, ◌&&◌, ◌||◌, List, is_empty, if◌then◌else◌, none, some}
use proxygit.Bytes.{Bytes, bytes_eq}
use proxygit.Bytes.Ascii.{strip_prefix, has_byte}
use proxygit.Bytes.Utf8.{text}
use proxygit.Result.{Result, ok, err}
use proxygit.Paths.{has_dotdot}
use proxygit.Server.{Env, Io, AppState, array}
use proxygit.Server.Backup.{
  Archive, Backup, backup_json, backup_values, create_project_backup, list_project_backups,
  restore_project_backup,
}
use proxygit.Webdav.{HttpRequest, Http, failed, make_http_response, plain, line}

module _ (env : Env) (http : Http) (archive : Archive) where
  abbrev json_response : Bytes → Bytes
  json_response body = make_http_response 200 (text "application/json") body

  abbrev listed : Result (List Backup) → Bytes
  listed (ok backups) = json_response (http.to_vec_pretty (array (backup_values backups)))
  listed (err e) = failed env http e

  abbrev created : AppState × Result (Bytes × ℕ) → AppState × Bytes
  created (st, ok b) = (st, json_response (http.to_vec_pretty (backup_json env archive b)))
  created (st, err e) = (st, failed env http e)

  abbrev restored : AppState × Result (Unit {0}) → AppState × Bytes
  restored (st, ok u) = (st, plain 200 (line (text "Restored successfully")))
  restored (st, err e) = (st, failed env http e)

  abbrev restore_named : Io → ℕ → Bytes → AppState → AppState × Bytes
  restore_named io project_id name st =
      if is_empty name
      then (st, plain 400 (line (text "Missing backup name")))
      else if has_byte b'/' name || has_dotdot name
      then (st, plain 403 (line (text "Invalid backup name")))
      else restored (restore_project_backup env archive io project_id name st)

  abbrev action_of : Bytes → Bytes
  action_of subpath = elim (strip_prefix (text "__backup/") subpath) [ none ↦ text "" | some a ↦ a ]

  abbrev perform : Io → ℕ → Bytes → AppState → AppState × Bytes
  perform io project_id action st =
      if is_empty action || bytes_eq action (text "list")
      then (st, listed (list_project_backups io.backup.setup_fault project_id st))
      else if bytes_eq action (text "create")
      then created (create_project_backup env archive io project_id st)
      else elim (strip_prefix (text "restore/") action) [
        | some name ↦ restore_named io project_id name st
        | none ↦ (st, plain 404 (line (text "Unknown backup action")))
      ]

  unfoldable pub handle_backup_request : Io → HttpRequest → ℕ → Bytes → AppState → AppState × Bytes
  unfolding strip_prefix has_byte has_dotdot list_project_backups create_project_backup
      restore_project_backup
  handle_backup_request io req project_id subpath st =
      if not (bytes_eq req.method (text "GET")) && not (bytes_eq req.method (text "POST"))
      then (st, plain 405 (line (text "Method Not Allowed")))
      else perform io project_id (action_of subpath) st
