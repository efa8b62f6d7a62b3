-- ===== src/Admin/Routes.antt =====
-- Routes of internal/admin/api.go: which middleware stands before which handler, and listUsers.
pub mod Guarded
use cloud_file_server.Base.{
  ℕ, ◌<◌, ◌≡◌, refl, Bool, true, false, not, ◌&&◌, ◌||◌, List, [], ◌∷◌, ◌++◌, Option, none, some,
  Result, ok, err, take, drop, select, arith, Option-cases, Result-cases, inl, inr, ◌⊎◌, ltb,
  if◌then◌else◌,
}
use cloud_file_server.Base.Int.{ℤ, pos, negsuc}
use cloud_file_server.Base.Sorting.{sort_by}
use cloud_file_server.Base.Dict.{lookup}
use cloud_file_server.Text.{Text, ascii, text_beq, text_eq}
use cloud_file_server.Audit.Event.{Event}
use cloud_file_server.Auth.Password.{Unicode}
use cloud_file_server.Cos.{Cloud}
use cloud_file_server.Db.{FtpUser, DbError, failure, Db, Query, query, is_live}
use cloud_file_server.Admin.Sessions.{
  SessionEntry, SessionManager, Outcome, unauthorized, forbidden, served, authenticate,
  require_role,
}
use cloud_file_server.Admin.Sessions.Laws.{require_role-served}
use cloud_file_server.Admin.Limits.{limit_of, offset_of}
use cloud_file_server.Admin.Users.{Reply, http_error, Caller, Site}
use cloud_file_server.Admin.Users.Laws.{Request, handle, handle-reported, reported}

pub data Route : Type 0 where
  metrics : Route
  logout : Route
  oidc_authorize : Route
  oidc_callback : Route
  session : Route
  list_users : Route
  list_folders : Route
  query_audit : Route
  export_audit_csv : Route
  list_files : Route
  download_file : Route
  create_user : Route
  update_user : Route
  reset_user_password : Route
  set_user_sftp_key : Route
  delete_user : Route

-- The group that a route stands in: outside, behind Authenticate, or behind RequireRole as well.
pub data Access : Type 0 where
  open_to_all : Access
  signed_in : Access
  with_role : Text → Access

pub access_of : Route → Access
access_of metrics = open_to_all
access_of logout = open_to_all
access_of oidc_authorize = open_to_all
access_of oidc_callback = open_to_all
access_of session = signed_in
access_of list_users = signed_in
access_of list_folders = signed_in
access_of query_audit = signed_in
access_of export_audit_csv = signed_in
access_of list_files = signed_in
access_of download_file = signed_in
access_of create_user = with_role (ascii "admin")
access_of update_user = with_role (ascii "admin")
access_of reset_user_password = with_role (ascii "admin")
access_of set_user_sftp_key = with_role (ascii "admin")
access_of delete_user = with_role (ascii "admin")

-- What reaches the handler: nothing, or the session's entry, if a session is asked for.
pub data Admission : Type 0 where
  refused : Outcome → Admission
  admitted : Option SessionEntry → Admission

abbrev pub admission : Outcome → Admission
admission (served entry) = admitted (some entry)
admission unauthorized = refused unauthorized
admission forbidden = refused forbidden

pub guard : Access → Option Text → ℕ → SessionManager → Admission × SessionManager
unfolding authenticate require_role
guard open_to_all cookie now m = (admitted none, m)
guard signed_in cookie now m =
    let (outcome, m1) = authenticate cookie now m in (admission outcome, m1)
guard (with_role role) cookie now m =
    let (outcome, m1) = authenticate cookie now m in (admission (require_role role outcome), m1)

-- The route of a request that changes a user.
abbrev pub route_of : Request → Route
route_of (Request.creates body) = create_user
route_of (Request.updates username body) = update_user
route_of (Request.resets username body) = reset_user_password
route_of (Request.deletes username) = delete_user
route_of (Request.sets_key username body) = set_user_sftp_key

-- The user whom CurrentUser finds in the context.
abbrev pub current_user : Option SessionEntry → Text
current_user none = []
current_user (some entry) = entry.username

-- `username ILIKE '%' || $1 || '%'` is a parameter.
list_ftp_users : (Text → Text → Bool) → Text → ℕ → ℤ → Query (List FtpUser)
unfolding query sort_by
list_ftp_users ilike search limit (pos offset) = query (λ db.
    let shown =
      select (λ r. is_live r && (text_beq search [] || ilike r.username search)) db.rows in
    (ok (take limit (drop offset (sort_by (λ (a b : FtpUser). ltb a.id b.id) shown))), db))
list_ftp_users ilike search limit (negsuc _) =
    query (λ db. (err (failure (ascii "OFFSET must not be negative")), db))

-- `listUsers`, for the parameters `search`, `limit` and `offset`.
unfoldable list_users_of :
    (Text → Text → Bool) → Text → Text → Text → Db → Result Reply (List FtpUser) × Db
unfolding list_ftp_users limit_of offset_of
list_users_of ilike search limit offset db =
    let (answer, db1) = list_ftp_users ilike search (limit_of 200 50 limit) (offset_of offset) db in
    elim answer [
      | err _ ↦ (err (http_error 500 (ascii "internal")), db1)
      | ok users ↦ (ok users, db1)
    ]

module _ (C : Cloud) (hash_password : Text → Option Text) (parse_key : Text → Result Text Text)
    (u : Unicode) where
  -- A request that changes a user, through the middleware; the address is that of clientIP.
  pub serve :
      Request
      → Option Text
      → Option Text
      → ℕ
      → SessionManager
      → Site C
      → Result Outcome Reply × SessionManager × Site C
  unfolding guard access_of
  serve r cookie ip now m s =
      let (admission, m1) = guard (access_of (route_of r)) cookie now m in
      elim admission [
        | refused outcome ↦ (err outcome, m1, s)
        | admitted entry ↦
            let who : Caller = record { username = current_user entry; client_ip = ip } in
            let (reply, s1) = handle C hash_password parse_key u who r s in (ok reply, m1, s1)
      ]
