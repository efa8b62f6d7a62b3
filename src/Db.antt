-- ===== src/Db.antt =====
-- internal/db/queries.go: the table `ftp_users` and the queries on it. The SQL statements are read
-- as functions of the table's rows, under the constraints of db/migrations. Each query first takes
-- the next outcome of the connection: a fault fails it and changes nothing. A row in an answer keeps the
-- column of its key, which the SQL leaves out; no caller reads it, and JSON does not show it.
pub mod Laws
pub mod Table
pub mod Admins
use cloud_file_server.Base.{
  ℕ, ◌+◌, Bool, true, false, not, ◌&&◌, List, [], ◌∷◌, ◌++◌, Option, none, some, Result, ok, err,
  nat_beq, leb, if◌then◌else◌, any, length,
}
use cloud_file_server.Auth.Runes.{runes}
use cloud_file_server.Text.{Text, ascii, text_beq}

pub record FtpUser : Type 0 where
  pub id : ℕ
  pub username : Text
  pub password_hash : Text
  pub root_folder : Text
  pub cos_bucket : Text
  pub cos_region : Text
  pub enabled : Bool
  pub allow_active_mode : Bool
  pub refuse_overwrite : Bool
  pub max_sessions : ℕ
  pub ftp_enabled : Bool
  pub sftp_enabled : Bool
  pub sftp_public_key : Text
  pub created_at : ℕ
  pub updated_at : ℕ
  pub deleted_at : Option ℕ
  pub last_login : Option ℕ

-- `ErrNotFound`, the code 23505 of a `pgconn.PgError`, or any other error by its text.
pub data DbError : Type 0 where
  not_found : DbError
  unique_violation : DbError
  failure : Text → DbError

abbrev pub error_text : DbError → Text
error_text not_found = ascii "not found"
error_text unique_violation = ascii "23505"
error_text (failure message) = message

pub record Db : Type 0 where
  pub rows : List FtpUser
  pub next_id : ℕ
  pub now : ℕ
  pub faults : List (Option Text)

abbrev pub Query : Type 0 → Type 0
Query A = Db → Result DbError A × Db

pub attempt : Db → Option Text × Db
attempt db = elim db.faults [ [] ↦ (none, db) | f ∷ fs ↦ (f, record db { faults = fs }) ]

-- A statement that runs unless the connection fails.
unfoldable pub query : {A : Type 0} → (Db → Result DbError A × Db) → Query A
query statement db =
    let (fault, db') = attempt db in
    elim fault [ some message ↦ (err (failure message), db') | none ↦ statement db' ]

unfoldable pub find_where : (FtpUser → Bool) → List FtpUser → Option FtpUser
find_where p [] = none
find_where p (u ∷ rows) = if p u then some u else find_where p rows

pub update_where : (FtpUser → Bool) → (FtpUser → FtpUser) → List FtpUser → List FtpUser
update_where p f [] = []
update_where p f (u ∷ rows) = (if p u then f u else u) ∷ update_where p f rows

-- `deleted_at IS NULL`
abbrev pub is_live : FtpUser → Bool
is_live u = elim u.deleted_at [ none ↦ true | some t ↦ false ]

abbrev pub has_name : Text → FtpUser → Bool
has_name name u = text_beq u.username name && is_live u

abbrev pub has_id : ℕ → FtpUser → Bool
has_id id u = nat_beq u.id id

unfoldable pub found : Option FtpUser → Result DbError FtpUser
found none = err not_found
found (some u) = ok u

unfoldable pub get_ftp_user_by_username : Text → Query FtpUser
unfolding query find_where attempt found
get_ftp_user_by_username name = query (λ db. (found (find_where (has_name name) db.rows), db))

unfoldable pub get_ftp_user_by_id : ℕ → Query FtpUser
unfolding query find_where attempt found
get_ftp_user_by_id id =
    query (λ db. (found (find_where (λ u. has_id id u && is_live u) db.rows), db))

-- Only the columns that the public-key login needs; the others are the zero value.
unfoldable pub key_columns : FtpUser → FtpUser
key_columns u = record {
  id = u.id;
  username = u.username;
  password_hash = [];
  root_folder = u.root_folder;
  cos_bucket = [];
  cos_region = [];
  enabled = u.enabled;
  allow_active_mode = false;
  refuse_overwrite = false;
  max_sessions = 0;
  ftp_enabled = false;
  sftp_enabled = u.sftp_enabled;
  sftp_public_key = u.sftp_public_key;
  created_at = 0;
  updated_at = 0;
  deleted_at = none;
  last_login = none;
}

key_row : Option FtpUser → Result DbError FtpUser
unfolding key_columns
key_row none = err not_found
key_row (some u) = ok (key_columns u)

unfoldable pub get_ftp_user_public_key : Text → Query FtpUser
unfolding query find_where attempt key_row
get_ftp_user_public_key name = query (λ db. (key_row (find_where (has_name name) db.rows), db))

-- The characters that the VARCHAR columns hold. PostgreSQL would cut off spaces beyond them; texts that end
-- in such spaces are left out.
storage_fits : FtpUser → Bool
unfolding runes
storage_fits u =
    leb (length (runes u.root_folder)) 512
    && leb (length (runes u.cos_bucket)) 256
    && leb (length (runes u.cos_region)) 64

too_long : DbError
unfolding ascii
too_long = failure (ascii "value too long for type character varying")

fits : FtpUser → Bool
unfolding runes storage_fits
fits u =
    leb (length (runes u.username)) 64 && leb (length (runes u.password_hash)) 255 && storage_fits u

-- UNIQUE (username) counts the soft-deleted rows too.
insert_row : FtpUser → Db → Result DbError ℕ × Db
unfolding fits too_long
insert_row u db =
    if not (fits u)
    then (err too_long, db)
    else if any (λ r. text_beq r.username u.username) db.rows
    then (err unique_violation, record db { next_id = db.next_id + 1 })
    else let row = record u {
      id = db.next_id;
      sftp_public_key = [];
      created_at = db.now;
      updated_at = db.now;
      deleted_at = none;
      last_login = none;
    } in
      (ok db.next_id, record db { rows = db.rows ++ (row ∷ []); next_id = db.next_id + 1 })

unfoldable pub create_ftp_user : FtpUser → Query ℕ
unfolding query attempt insert_row
create_ftp_user u = query (insert_row u)

-- `UPDATE ftp_users SET … WHERE …`: no row that fits is no error.
unfoldable pub update_rows : (FtpUser → Bool) → (ℕ → FtpUser → FtpUser) → Query (Unit {0})
unfolding query attempt update_where
update_rows p f = query (λ db. (ok tt, record db { rows = update_where p (f db.now) db.rows }))

pub set_ftp_user_sftp_key : ℕ → Text → Query (Unit {0})
unfolding update_rows
set_ftp_user_sftp_key id key =
    update_rows (has_id id) (λ now r. record r { sftp_public_key = key; updated_at = now })

pub set_columns : FtpUser → ℕ → FtpUser → FtpUser
set_columns u now r = record r {
  root_folder = u.root_folder;
  cos_bucket = u.cos_bucket;
  cos_region = u.cos_region;
  enabled = u.enabled;
  allow_active_mode = u.allow_active_mode;
  refuse_overwrite = u.refuse_overwrite;
  max_sessions = u.max_sessions;
  ftp_enabled = u.ftp_enabled;
  sftp_enabled = u.sftp_enabled;
  updated_at = now;
}

-- A value that is too long is an error where there is a row to take it.
pub update_ftp_user : FtpUser → Query (Unit {0})
unfolding query attempt update_where storage_fits too_long set_columns
update_ftp_user u = query (λ db.
    let target : FtpUser → Bool = λ r. has_id u.id r && is_live r in
    if any target db.rows && not (storage_fits u)
    then (err too_long, db)
    else (ok tt, record db { rows = update_where target (set_columns u db.now) db.rows }))

unfoldable pub soft_delete_ftp_user : ℕ → Query (Unit {0})
unfolding update_rows
soft_delete_ftp_user id =
    update_rows (has_id id) (λ now r. record r { deleted_at = some now; enabled = false })

pub set_ftp_user_password : ℕ → Text → Query (Unit {0})
unfolding update_rows
set_ftp_user_password id hash =
    update_rows (has_id id) (λ now r. record r { password_hash = hash; updated_at = now })

pub set_ftp_user_last_login : ℕ → Query (Unit {0})
unfolding update_rows
set_ftp_user_last_login id = update_rows (has_id id) (λ now r. record r { last_login = some now })
