-- ===== src/Db/Laws.antt =====
-- What the queries return, and what they leave of the table.
use cloud_file_server.Base.{◌≡◌, Bool, true, List, [], ◌∷◌, some, ok, arith}
use cloud_file_server.Text.{Text}
use cloud_file_server.Db.{
  Db, FtpUser, has_name, find_where, found, attempt, get_ftp_user_by_username,
}

find_where-holds :
    (p : FtpUser → Bool) (rows : List FtpUser) (u : FtpUser)
    → find_where p rows ≡ some u
    → p u ≡ true
unfolding find_where
find_where-holds p [] u h = ground arith
find_where-holds p (r ∷ rows) u h = ground (arith, find_where-holds p rows u)

pub attempt-rows : (db : Db) → (attempt db).1.rows ≡ db.rows
unfolding attempt
attempt-rows db = ground arith

pub get_by_username-rows :
    (name : Text) (db : Db) → (get_ftp_user_by_username name db).1.rows ≡ db.rows
unfolding get_ftp_user_by_username
get_by_username-rows name db = ground (arith, attempt-rows db)

pub get_by_username-ok :
    (name : Text) (db : Db) (u : FtpUser)
    → (get_ftp_user_by_username name db).0 ≡ ok u
    → find_where (has_name name) db.rows ≡ some u
unfolding get_ftp_user_by_username
get_by_username-ok name db u h = ground (arith, attempt-rows db)

-- With no fault pending, a query by name answers from the table and changes nothing.
pub get_by_username_lem :
    (name : Text) (db : Db)
    → db.faults ≡ []
    → get_ftp_user_by_username name db ≡ (found (find_where (has_name name) db.rows), db)
unfolding get_ftp_user_by_username
get_by_username_lem name db h = ground arith
