-- ===== src/Db/Table.antt =====
-- UNIQUE (username) of the table ftp_users, and the queries of internal/db/queries.go.
use cloud_file_server.Base.{
  ℕ, ◌≡◌, refl, ap, ◌∙◌, Bool, true, false, not, ◌&&◌, ◌||◌, List, [], ◌∷◌, ◌++◌, none, some,
  nat_beq_iff, any, arith, Bool-cases, inl, inr,
}
use cloud_file_server.Text.{Text, text_beq, text_beq_iff}
use cloud_file_server.Db.{
  Db, FtpUser, is_live, has_name, has_id, find_where, update_where, attempt, create_ftp_user,
  update_rows, set_columns, get_ftp_user_by_username, get_ftp_user_by_id, get_ftp_user_public_key,
  set_ftp_user_sftp_key, update_ftp_user, soft_delete_ftp_user, set_ftp_user_password,
  set_ftp_user_last_login,
}
use cloud_file_server.Db.Laws.{attempt-rows}

-- Some row has the name, deleted or not.
abbrev is_taken : Text → List FtpUser → Bool
is_taken name rows = any (λ (r : FtpUser). text_beq r.username name) rows

-- No two rows have one name.
unfoldable pub has_unique_names : List FtpUser → Bool
has_unique_names [] = true
has_unique_names (u ∷ rows) = not (is_taken u.username rows) && has_unique_names rows

-- A change of rows that keeps their names.
abbrev KeepsName : (FtpUser → FtpUser) → Type 0
KeepsName f = (u : FtpUser) → (f u).username ≡ u.username

is_taken-update_where :
    (name : Text) (p : FtpUser → Bool) (f : FtpUser → FtpUser) (rows : List FtpUser)
    → KeepsName f
    → is_taken name (update_where p f rows) ≡ is_taken name rows
unfolding update_where
is_taken-update_where name p f [] keeps = refl
is_taken-update_where name p f (u ∷ rows) keeps =
    ground (arith, is_taken-update_where name p f rows keeps, keeps u)

update_where-names :
    (p : FtpUser → Bool) (f : FtpUser → FtpUser) (rows : List FtpUser)
    → KeepsName f
    → has_unique_names (update_where p f rows) ≡ has_unique_names rows
unfolding update_where has_unique_names
update_where-names p f [] keeps = refl
update_where-names p f (u ∷ rows) keeps = ground (
  arith,
  update_where-names p f rows keeps,
  keeps u,
  is_taken-update_where u.username p f rows keeps,
)

is_taken-append :
    (name : Text) (rows : List FtpUser) (u : FtpUser)
    → is_taken name (rows ++ (u ∷ [])) ≡ is_taken name rows || text_beq u.username name
is_taken-append name [] u = ground arith
is_taken-append name (r ∷ rows) u = ground (arith, is_taken-append name rows u)

append-names :
    (rows : List FtpUser) (u : FtpUser)
    → is_taken u.username rows ≡ false
    → has_unique_names rows ≡ true
    → has_unique_names (rows ++ (u ∷ [])) ≡ true
unfolding has_unique_names
append-names [] u fresh h = refl
append-names (r ∷ rows) u fresh h = ground (
  arith,
  append-names rows u,
  is_taken-append r.username rows u,
  text_beq_iff r.username u.username,
  text_beq_iff u.username r.username,
)

find_where-untaken :
    (name : Text) (rows : List FtpUser)
    → is_taken name rows ≡ false
    → find_where (has_name name) rows ≡ none
unfolding find_where
find_where-untaken name [] h = refl
find_where-untaken name (r ∷ rows) h = ground (arith, find_where-untaken name rows)

-- A live row of a name, once it is marked as deleted by its id, leaves none of that name.
pub find_where-deleted :
    (name : Text) (rows : List FtpUser) (u : FtpUser) (f : FtpUser → FtpUser)
    → KeepsName f
    → ((r : FtpUser) → is_live (f r) ≡ false)
    → has_unique_names rows ≡ true
    → find_where (has_name name) rows ≡ some u
    → find_where (has_name name) (update_where (has_id u.id) f rows) ≡ none
unfolding has_unique_names find_where update_where
find_where-deleted name [] u f keeps dead distinct here = absurd (ground arith)
find_where-deleted name (r ∷ rows) u f keeps dead distinct here =
    elim (Bool-cases (has_name name r)) [
      | inl first ↦
          let same : r ≡ u = ground arith in
          let ids : r.id ≡ u.id = ap (λ (x : FtpUser). x.id) same in
          let untaken : is_taken name rows ≡ false = ground (arith, text_beq_iff r.username name) in
          ground (
            arith,
            nat_beq_iff r.id u.id,
            dead r,
            find_where-untaken name (update_where (has_id u.id) f rows),
            is_taken-update_where name (has_id u.id) f rows keeps,
          )
      | inr later ↦ ground (arith, find_where-deleted name rows u f keeps dead, keeps r, dead r)
    ]

-- The row that an insert makes of a user.
abbrev pub stored : FtpUser → Db → FtpUser
stored v db = record v {
  id = db.next_id;
  sftp_public_key = [];
  created_at = db.now;
  updated_at = db.now;
  deleted_at = none;
  last_login = none;
}

-- The statements of the program on the table.
pub data Statement : Type 0 where
  by_username : Text → Statement
  by_id : ℕ → Statement
  public_key : Text → Statement
  creates : FtpUser → Statement
  sets_key : ℕ → Text → Statement
  updates : FtpUser → Statement
  deletes : ℕ → Statement
  sets_password : ℕ → Text → Statement
  logs_in : ℕ → Statement

abbrev execute : Statement → Db → Db
execute (by_username name) db = (get_ftp_user_by_username name db).1
execute (by_id id) db = (get_ftp_user_by_id id db).1
execute (public_key name) db = (get_ftp_user_public_key name db).1
execute (creates u) db = (create_ftp_user u db).1
execute (sets_key id key) db = (set_ftp_user_sftp_key id key db).1
execute (updates u) db = (update_ftp_user u db).1
execute (deletes id) db = (soft_delete_ftp_user id db).1
execute (sets_password id hash) db = (set_ftp_user_password id hash db).1
execute (logs_in id) db = (set_ftp_user_last_login id db).1

abbrev pub execute_all : List Statement → Db → Db
execute_all [] db = db
execute_all (q ∷ qs) db = execute_all qs (execute q db)

update_rows-names :
    (p : FtpUser → Bool) (f : ℕ → FtpUser → FtpUser) (db : Db)
    → ((now : ℕ) → KeepsName (f now))
    → has_unique_names (update_rows p f db).1.rows ≡ has_unique_names db.rows
unfolding update_rows
update_rows-names p f db keeps = ground (
  arith,
  attempt-rows db,
  update_where-names p (f (attempt db).1.now) db.rows (keeps (attempt db).1.now),
)

execute-names :
    (q : Statement) (db : Db)
    → has_unique_names db.rows ≡ true
    → has_unique_names (execute q db).rows ≡ true
unfolding get_ftp_user_by_username get_ftp_user_by_id get_ftp_user_public_key create_ftp_user
    set_ftp_user_sftp_key update_ftp_user set_columns soft_delete_ftp_user set_ftp_user_password
    set_ftp_user_last_login
execute-names (by_username name) db h = ground (arith, attempt-rows db)
execute-names (by_id id) db h = ground (arith, attempt-rows db)
execute-names (public_key name) db h = ground (arith, attempt-rows db)
execute-names (creates u) db h =
    ground (arith, attempt-rows db, append-names (attempt db).1.rows (stored u (attempt db).1))
execute-names (sets_key id key) db h =
    update_rows-names (has_id id) (λ now r. record r { sftp_public_key = key; updated_at = now }) db
      (λ now r. refl)
    ∙ h
execute-names (updates u) db h =
    let d = (attempt db).1 in
    let p : FtpUser → Bool = λ r. has_id u.id r && is_live r in
    ground (arith, attempt-rows db, update_where-names p (set_columns u d.now) db.rows (λ r. refl))
execute-names (deletes id) db h =
    update_rows-names (has_id id) (λ now r. record r { deleted_at = some now; enabled = false }) db
      (λ now r. refl)
    ∙ h
execute-names (sets_password id hash) db h =
    update_rows-names (has_id id) (λ now r. record r { password_hash = hash; updated_at = now }) db
      (λ now r. refl)
    ∙ h
execute-names (logs_in id) db h =
    update_rows-names (has_id id) (λ now r. record r { last_login = some now }) db (λ now r. refl)
    ∙ h

-- UNIQUE (username) as an invariant: from a table in which no two rows have one name, deleted rows
-- counted, any statements lead to such a table, also where some of them fail.
pub execute_all-has_unique_names :
    (qs : List Statement) (db : Db)
    → has_unique_names db.rows ≡ true
    → has_unique_names (execute_all qs db).rows ≡ true
execute_all-has_unique_names [] db h = h
execute_all-has_unique_names (q ∷ qs) db h =
    execute_all-has_unique_names qs (execute q db) (execute-names q db h)
