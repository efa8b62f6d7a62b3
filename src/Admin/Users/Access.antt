-- ===== src/Admin/Users/Access.antt =====
-- internal/admin/users_api.go and internal/core/authenticator.go together: from the API to a login.
use cloud_file_server.Base.{
  ◌≡◌, refl, ap, ◌∙◌, Bool, true, false, List, [], Option, none, some, Result, ok, err, arith,
  Result-cases, inl, inr,
}
use cloud_file_server.Text.{Text}
use cloud_file_server.Text.Spaces.{trim_space}
use cloud_file_server.Auth.Password.{Unicode}
use cloud_file_server.Auth.Lockout.{Lockout, allow}
use cloud_file_server.Audit.Event.{Event}
use cloud_file_server.Db.{
  FtpUser, Db, has_name, has_id, find_where, update_where, update_rows, attempt,
  get_ftp_user_by_username, soft_delete_ftp_user,
}
use cloud_file_server.Db.Laws.{attempt-rows, get_by_username-ok, get_by_username-rows}
use cloud_file_server.Db.Table.{has_unique_names, find_where-deleted}
use cloud_file_server.Core.Authenticator.{AuthState, Attempt, AuthError, login_failed, authenticate}
use cloud_file_server.Core.Authenticator.Logins.{authenticate_of_MayLogIn, authenticate-ok}
use cloud_file_server.Cos.{Cloud}
use cloud_file_server.Admin.Users.{Caller, Site, shown, no_content, delete_user}
use cloud_file_server.Admin.Users.Create.{CreateBody, create_user}
use cloud_file_server.Admin.Users.Laws.{create_user-shown}

-- `Verifies`: bcrypt accepts a password for the hash that it made of it.
abbrev pub Verifies : (Text → Option Text) → (Text → Text → Bool) → Type 0
Verifies hash_password verify_password =
    (plain hash : Text) → hash_password plain ≡ some hash → verify_password hash plain ≡ true

-- If a creation of an enabled user is answered with a row, then on the table that it leaves, while no
-- query fails and the lockout allows the name, a login with the trimmed name and the password of the
-- body is answered with that row.
pub create_user-authenticate :
    (C : Cloud) (hash_password : Text → Option Text) (parse_key : Text → Result Text Text)
    (u : Unicode) (who : Caller) (b : CreateBody) (s : Site C) (row : FtpUser)
    (verify_password : Text → Text → Bool) (a : Attempt) (l : Lockout) (events : List Event)
    → Verifies hash_password verify_password
    → (create_user C hash_password parse_key u who (some b) s).0 ≡ shown row
    → b.enabled ≡ true
    → (create_user C hash_password parse_key u who (some b) s).1.db.faults ≡ []
    → a.user ≡ trim_space b.username
    → a.pass ≡ b.password
    → (allow l a.user a.asked_at).0 ≡ true
    → (authenticate verify_password
        (record {
          lockout = l;
          db = (create_user C hash_password parse_key u who (some b) s).1.db;
          events = events;
        })
        a).0
      ≡ ok row
create_user-authenticate C hash_password parse_key u who b s row verify_password a l events verifies
      h on no_faults user pass allowed =
    let made = (create_user-shown C hash_password parse_key u who b s row h).1 in
    authenticate_of_MayLogIn verify_password _ a row no_faults (record {
      not_locked = allowed;
      known =
          ap
            (λ name.
              find_where (has_name name)
                (create_user C hash_password parse_key u who (some b) s).1.db.rows)
            user
          ∙ made.in_table;
      active = made.enabled ∙ on;
      password =
          ap (verify_password row.password_hash) pass
          ∙ verifies b.password row.password_hash made.hashed;
    })

-- The table after a deletion that is answered with 204 has no live row of the name.
deleted_rows :
    (C : Cloud) (hash_password : Text → Option Text) (parse_key : Text → Result Text Text)
    (u : Unicode) (who : Caller) (username : Text) (s : Site C)
    → has_unique_names s.db.rows ≡ true
    → (delete_user C hash_password parse_key u who username s).0 ≡ no_content
    → find_where
        (has_name username)
        (delete_user C hash_password parse_key u who username s).1.db.rows
      ≡ none
unfolding delete_user soft_delete_ftp_user update_rows
deleted_rows C hash_password parse_key u who username s distinct h =
    let db1 : Db = (get_ftp_user_by_username username s.db).1 in
    let mark : FtpUser → FtpUser =
      λ r. record r { deleted_at = some (attempt db1).1.now; enabled = false } in
    elim (Result-cases (get_ftp_user_by_username username s.db).0) [
      | inr (e, failed) ↦ absurd (ground arith)
      | inl (existing, got) ↦
          let here = get_by_username-ok username s.db existing got in
          let kept : db1.rows ≡ s.db.rows = get_by_username-rows username s.db in
          let none_left : find_where (has_name username)
                (update_where (has_id existing.id) mark s.db.rows)
              ≡ none =
            find_where-deleted username s.db.rows existing mark (λ r. refl) (λ r. refl) distinct
              here in
          let after : (delete_user C hash_password parse_key u who username s).1.db.rows
              ≡ update_where (has_id existing.id) mark (attempt db1).1.rows =
            ground arith in
          ap (find_where (has_name username)) after
          ∙ ap
              (λ rows. find_where (has_name username) (update_where (has_id existing.id) mark rows))
              (attempt-rows db1 ∙ kept)
          ∙ none_left
    ]

only_failure : (e : AuthError) → e ≡ login_failed
only_failure login_failed = refl

-- If no two rows of the table have one name and a deletion is answered with 204, then on the table
-- that it leaves every login under that name is refused, whatever its password, and whatever the
-- lockout and the connection to the table do.
pub delete_user-authenticate :
    (C : Cloud) (hash_password : Text → Option Text) (parse_key : Text → Result Text Text)
    (u : Unicode) (who : Caller) (username : Text) (s : Site C)
    (verify_password : Text → Text → Bool) (a : Attempt) (l : Lockout) (events : List Event)
    → has_unique_names s.db.rows ≡ true
    → (delete_user C hash_password parse_key u who username s).0 ≡ no_content
    → a.user ≡ username
    → (authenticate verify_password
        (record {
          lockout = l;
          db = (delete_user C hash_password parse_key u who username s).1.db;
          events = events;
        })
        a).0
      ≡ err login_failed
delete_user-authenticate C hash_password parse_key u who username s verify_password a l events
      distinct h same =
    let st : AuthState = record {
      lockout = l;
      db = (delete_user C hash_password parse_key u who username s).1.db;
      events = events;
    } in
    let nobody : find_where (has_name a.user) st.db.rows ≡ none =
      ap (λ name. find_where (has_name name) st.db.rows) same
      ∙ deleted_rows C hash_password parse_key u who username s distinct h in
    elim (Result-cases (authenticate verify_password st a).0) [
      | inr (e, refused) ↦ refused ∙ ap (λ e. err e) (only_failure e)
      | inl (row, let_in) ↦
          absurd (ground (arith, (authenticate-ok verify_password st a row let_in).0.known, nobody))
    ]
