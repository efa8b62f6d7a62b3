-- ===== src/Admin/Users.antt =====
-- The handlers of internal/admin/users_api.go; createUser stands in a module of its own. A body
-- that is not JSON of the right shape is `none`; `hash_password` is bcrypt, and `parse_key` the parser
-- of SSH keys, with the text of its error.
pub mod Create
pub mod Laws
pub mod Access
use cloud_file_server.Base.{
  ℕ, Bool, true, false, not, ◌||◌, List, [], ◌∷◌, ◌++◌, Option, none, some, Result, ok, err,
  if◌then◌else◌, any,
}
use cloud_file_server.Text.{
  Text, ascii, text_beq, slash, is_slash, trim, trim_prefix, contains, to_lower,
}
use cloud_file_server.Text.Spaces.{trim_space}
use cloud_file_server.Auth.Password.{Unicode, validate_password}
use cloud_file_server.Audit.Event.{Event, zero_event}
use cloud_file_server.Db.{
  FtpUser, DbError, not_found, unique_violation, failure, Db, get_ftp_user_by_username,
  create_ftp_user, update_ftp_user, set_ftp_user_password, soft_delete_ftp_user,
  set_ftp_user_sftp_key,
}
use cloud_file_server.Cos.{Err, Cloud}
use cloud_file_server.Cos.Client.{Client, put}

unfoldable pub normalize_root_folder : Text → Text
normalize_root_folder s = slash ∷ trim is_slash s

-- The answer: a status with a text, a user as JSON, or 204.
pub data Reply : Type 0 where
  http_error : ℕ → Text → Reply
  shown : FtpUser → Reply
  no_content : Reply

-- The caller whom Authenticate put into the context, and its address.
pub record Caller : Type 0 where
  pub username : Text
  pub client_ip : Option Text

pub record UpdateBody : Type 0 where
  pub root_folder : Text
  pub enabled : Bool
  pub ftp_enabled : Option Bool
  pub sftp_enabled : Option Bool

abbrev pub or_else : Bool → Option Bool → Bool
or_else default none = default
or_else default (some b) = b

abbrev pub bad_request : Reply
bad_request = http_error 400 (ascii "bad request")

abbrev pub internal : Reply
internal = http_error 500 (ascii "internal")

abbrev missing_user : DbError → Reply
missing_user not_found = http_error 404 (ascii "not found")
missing_user unique_violation = internal
missing_user (failure message) = internal

abbrev pub admin_event : Caller → Text → Text → Event
admin_event who action path = record zero_event {
  username = who.username;
  client_ip = who.client_ip;
  action = action;
  path = path;
  success = true;
}

module _ (C : Cloud) where
  -- The state of the API: the client of the store, if there is one, the table, and the events logged.
  pub record Site : Type 0 where
    pub cos_bucket : Text
    pub cos_region : Text
    pub cos_client : Option (Client C)
    pub db : Db
    pub events : List Event

  abbrev pub Handler : Type 0
  Handler = Site → Reply × Site

  abbrev pub report : Caller → Text → Text → Site → Site
  report who action path s = record s { events = s.events ++ (admin_event who action path ∷ []) }

  -- A query on the site's table; an error ends the handler.
  abbrev pub on_table :
      {A : Type 0} → (Db → Result DbError A × Db) → (DbError → Reply) → (A → Handler) → Handler
  on_table q failed next s =
      let (answer, db) = q s.db in
      let s1 : Site = record s { db = db } in
      elim answer [ err e ↦ (failed e, s1) | ok a ↦ next a s1 ]

  abbrev pub answer_internal : DbError → Reply
  answer_internal e = internal

  module _ (hash_password : Text → Option Text) (parse_key : Text → Result Text Text)
      (u : Unicode) where
    abbrev pub updated : UpdateBody → Text → FtpUser → FtpUser
    updated b root existing = record existing {
      root_folder = root;
      enabled = b.enabled;
      ftp_enabled = or_else existing.ftp_enabled b.ftp_enabled;
      sftp_enabled = or_else existing.sftp_enabled b.sftp_enabled;
    }

    pub update_row : Caller → Text → UpdateBody → Text → Handler
    unfolding normalize_root_folder
    update_row who username b root s =
        if text_beq root []
        then (http_error 400 (ascii "root_folder is required"), s)
        else on_table (get_ftp_user_by_username username) missing_user
            (λ existing.
              on_table (update_ftp_user (updated b (normalize_root_folder root) existing))
                answer_internal
                (λ _.
                  on_table (get_ftp_user_by_username username) answer_internal
                    (λ row s3. (shown row, report who (ascii "ADMIN_UPDATE_USER") username s3))))
            s

    pub update_user : Caller → Text → Option UpdateBody → Handler
    unfolding update_row trim_space
    update_user who username none s = (bad_request, s)
    update_user who username (some b) s = update_row who username b (trim_space b.root_folder) s

    pub store_password : Caller → Text → Text → FtpUser → Handler
    store_password who username password existing s = elim (hash_password password) [
      | none ↦ (internal, s)
      | some hash ↦
          on_table (set_ftp_user_password existing.id hash) answer_internal
            (λ _ s2. (no_content, report who (ascii "ADMIN_RESET_PASSWORD") username s2)) s
    ]

    pub reset_user_password : Caller → Text → Option Text → Handler
    unfolding store_password
    reset_user_password who username none s = (bad_request, s)
    reset_user_password who username (some password) s = elim (validate_password u password) [
      | some message ↦ (http_error 400 message, s)
      | none ↦
          on_table (get_ftp_user_by_username username) missing_user
            (store_password who username password) s
    ]

    unfoldable pub delete_user : Caller → Text → Handler
    delete_user who username =
        on_table (get_ftp_user_by_username username) missing_user (λ existing.
          on_table (soft_delete_ftp_user existing.id) answer_internal
            (λ _ s2. (no_content, report who (ascii "ADMIN_DELETE_USER") username s2)))

    pub store_key : Caller → Text → Text → Handler
    store_key who username key =
        on_table (get_ftp_user_by_username username) missing_user (λ existing.
          on_table (set_ftp_user_sftp_key existing.id key) answer_internal
            (λ _ s2. (no_content, report who (ascii "ADMIN_SET_SFTP_KEY") username s2)))

    pub check_public_key : Caller → Text → Text → Handler
    unfolding store_key
    check_public_key who username key s =
        if text_beq key [] then store_key who username key s else elim (parse_key key) [
          | err message ↦ (http_error 400 (ascii "invalid public key: " ++ message), s)
          | ok _ ↦ store_key who username key s
        ]

    pub set_user_sftp_key : Caller → Text → Option Text → Handler
    unfolding check_public_key trim_space
    set_user_sftp_key who username none s = (bad_request, s)
    set_user_sftp_key who username (some key) s = check_public_key who username (trim_space key) s
