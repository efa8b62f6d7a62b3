-- ===== src/Admin/Users/Laws.antt =====
-- What the handlers store, and what they report.
use cloud_file_server.Base.{
  ℕ, ◌≡◌, refl, sym, ap, ◌∙◌, true, false, ◌||◌, List, [], ◌∷◌, ◌++◌, Option, none, some, Result,
  ok, any, arith, Result-cases, Option-cases, Bool-cases, inl, inr,
}
use cloud_file_server.Text.{Text, ascii, text_beq, text_beq_iff}
use cloud_file_server.Text.Spaces.{trim_space}
use cloud_file_server.Auth.Password.{
  Unicode, validate_password, IsStrong, validate_password_iff_IsStrong,
}
use cloud_file_server.Audit.Event.{Event}
use cloud_file_server.Db.{
  FtpUser, Db, has_name, find_where, attempt, create_ftp_user, get_ftp_user_by_username,
}
use cloud_file_server.Db.Table.{stored}
use cloud_file_server.Db.Laws.{attempt-rows, get_by_username-ok, get_by_username-rows}
use cloud_file_server.Cos.{Cloud}
use cloud_file_server.Admin.Users.{
  Reply, http_error, shown, no_content, Caller, UpdateBody, or_else, admin_event,
  normalize_root_folder, Site, update_row, update_user, store_password, reset_user_password,
  delete_user, store_key, check_public_key, set_user_sftp_key,
}
use cloud_file_server.Admin.Users.Create.{
  CreateBody, put_root, store_user, make_root, check_new_user, create_user, new_user,
}

-- The requests that change a user; all but the first name the user in their path.
pub data Request : Type 0 where
  creates : Option CreateBody → Request
  updates : Text → Option UpdateBody → Request
  resets : Text → Option Text → Request
  deletes : Text → Request
  sets_key : Text → Option Text → Request

-- The event of a request that came out well; a creation names the user that it shows.
abbrev event_of : Caller → Request → Text → Event
event_of who (creates body) shown_name = admin_event who (ascii "ADMIN_CREATE_USER") shown_name
event_of who (updates username body) shown_name =
    admin_event who (ascii "ADMIN_UPDATE_USER") username
event_of who (resets username body) shown_name =
    admin_event who (ascii "ADMIN_RESET_PASSWORD") username
event_of who (deletes username) shown_name = admin_event who (ascii "ADMIN_DELETE_USER") username
event_of who (sets_key username body) shown_name =
    admin_event who (ascii "ADMIN_SET_SFTP_KEY") username

-- The events after a request, by its reply.
abbrev pub reported : Caller → Request → Reply → List Event → List Event
reported who r (http_error status text) before = before
reported who r (shown row) before = before ++ (event_of who r row.username ∷ [])
reported who r no_content before = before ++ (event_of who r [] ∷ [])

module _ (C : Cloud) (hash_password : Text → Option Text) (parse_key : Text → Result Text Text)
    (u : Unicode) (who : Caller) where
  abbrev pub handle : Request → Site C → Reply × Site C
  handle (creates body) = create_user C hash_password parse_key u who body
  handle (updates username body) = update_user C hash_password parse_key u who username body
  handle (resets username body) = reset_user_password C hash_password parse_key u who username body
  handle (deletes username) = delete_user C hash_password parse_key u who username
  handle (sets_key username body) = set_user_sftp_key C hash_password parse_key u who username body

  put_root-events : (root : Text) (s : Site C) → (put_root C root s).1.events ≡ s.events
  unfolding put_root
  put_root-events root s = ground arith

  store_user-events :
      (b : CreateBody) (username root : Text) (s : Site C)
      → (store_user C hash_password parse_key u who b username root s).1.events
        ≡ reported who
            (creates (some b))
            (store_user C hash_password parse_key u who b username root s).0
            s.events
  unfolding store_user
  store_user-events b username root s = ground arith

  make_root-events :
      (b : CreateBody) (username root : Text) (s : Site C)
      → (make_root C hash_password parse_key u who b username root s).1.events
        ≡ reported who
            (creates (some b))
            (make_root C hash_password parse_key u who b username root s).0
            s.events
  unfolding make_root
  make_root-events b username root s =
      ground
        (arith, store_user-events b username root (put_root C root s).1, put_root-events root s)

  handle-events :
      (r : Request) (s : Site C) → (handle r s).1.events ≡ reported who r (handle r s).0 s.events
  unfolding create_user check_new_user update_user update_row reset_user_password store_password
      delete_user set_user_sftp_key check_public_key store_key
  handle-events (creates none) s = refl
  handle-events (creates (some b)) s = ground (
    arith,
    make_root-events b (trim_space b.username) (normalize_root_folder (trim_space b.root_folder)) s,
  )
  handle-events (updates username none) s = refl
  handle-events (updates username (some b)) s = ground arith
  handle-events (resets username none) s = refl
  handle-events (resets username (some password)) s = ground arith
  handle-events (deletes username) s = ground arith
  handle-events (sets_key username none) s = refl
  handle-events (sets_key username (some key)) s = ground arith

-- Whatever the body, the table and the store answer: a request adds one event with the caller, its
-- action and its user if it is answered with a user or with 204, and none if it is answered with an
-- error.
pub handle-reported :
    (C : Cloud) (hash_password : Text → Option Text) (parse_key : Text → Result Text Text)
    (u : Unicode) (who : Caller) (r : Request) (s : Site C)
    → (handle C hash_password parse_key u who r s).1.events
      ≡ reported who r (handle C hash_password parse_key u who r s).0 s.events
handle-reported C hash_password parse_key u who r s =
    handle-events C hash_password parse_key u who r s

create_ftp_user-ok :
    (v : FtpUser) (db : Db) (id : ℕ)
    → (create_ftp_user v db).0 ≡ ok id
    → (any (λ r. text_beq r.username v.username) db.rows ≡ false)
      × ((create_ftp_user v db).1.rows ≡ db.rows ++ (stored v (attempt db).1 ∷ []))
unfolding create_ftp_user
create_ftp_user-ok v db id h = (ground (arith, attempt-rows db), ground (arith, attempt-rows db))

find_where-appended :
    (name : Text) (rows : List FtpUser) (row : FtpUser)
    → any (λ (r : FtpUser). text_beq r.username name) rows ≡ false
    → has_name name row ≡ true
    → find_where (has_name name) (rows ++ (row ∷ [])) ≡ some row
unfolding find_where
find_where-appended name [] row h k = ground arith
find_where-appended name (r ∷ rows) row h k = ground (arith, find_where-appended name rows row)

module _ (C : Cloud) (hash_password : Text → Option Text) (parse_key : Text → Result Text Text)
    (u : Unicode) (who : Caller) where
  -- A row as a creation asks for it, and the one that the table then finds by its name.
  pub record Created (b : CreateBody) (username root : Text) (s : Site C) (row : FtpUser)
      : Type 0 where
    pub name : row.username ≡ username
    pub folder : row.root_folder ≡ root
    pub hashed : hash_password b.password ≡ some row.password_hash
    pub enabled : row.enabled ≡ b.enabled
    pub ftp : row.ftp_enabled ≡ or_else true b.ftp_enabled
    pub sftp : row.sftp_enabled ≡ or_else false b.sftp_enabled
    pub in_table : find_where (has_name username) s.db.rows ≡ some row

  store_user-shown :
      (b : CreateBody) (username root : Text) (s : Site C) (row : FtpUser)
      → (store_user C hash_password parse_key u who b username root s).0 ≡ shown row
      → Created b username root (store_user C hash_password parse_key u who b username root s).1 row
  unfolding store_user
  store_user-shown b username root s row h = elim (Option-cases (hash_password b.password)) [
    | inl failed ↦ absurd (ground arith)
    | inr (hash, hashed) ↦
        let v = new_user C hash_password parse_key u s b username root hash in
        let db1 : Db = (create_ftp_user v s.db).1 in
        elim (Result-cases (create_ftp_user v s.db).0) [
          | inr (e, failed) ↦ absurd (ground arith)
          | inl (id, made) ↦ elim (Result-cases (get_ftp_user_by_username username db1).0) [
            | inr (e, failed) ↦ absurd (ground arith)
            | inl (got, found_it) ↦
                let (fresh, rows) = create_ftp_user-ok v s.db id made in
                let same : got ≡ row = ground arith in
                let after : (store_user C hash_password parse_key u who b username root s).1.db.rows
                    ≡ (get_ftp_user_by_username username db1).1.rows =
                  ground arith in
                let here : find_where (has_name username) db1.rows ≡ some got =
                  get_by_username-ok username db1 got found_it in
                let there : find_where (has_name username) db1.rows
                    ≡ some (stored v (attempt s.db).1) =
                  ap (find_where (has_name username)) rows
                  ∙ find_where-appended username s.db.rows (stored v (attempt s.db).1) fresh
                      (ground (arith, text_beq_iff username username)) in
                let e : stored v (attempt s.db).1 ≡ row = ground (arith, here, there, same) in
                record {
                  name = ap (λ (r : FtpUser). r.username) (sym e);
                  folder = ap (λ (r : FtpUser). r.root_folder) (sym e);
                  hashed = hashed ∙ ap (λ (r : FtpUser). some r.password_hash) e;
                  enabled = ap (λ (r : FtpUser). r.enabled) (sym e);
                  ftp = ap (λ (r : FtpUser). r.ftp_enabled) (sym e);
                  sftp = ap (λ (r : FtpUser). r.sftp_enabled) (sym e);
                  in_table =
                      ap (find_where (has_name username))
                        (after ∙ get_by_username-rows username db1)
                      ∙ (here ∙ ap (λ r. some r) same);
                }
          ]
        ]
  ]

-- A creation that is answered with a row has stored it: the password meets the rule and is hashed
-- into the row, the name and the folder are those of the body, trimmed, and the folder put into its
-- normal form, the switches are those of the body, or FTP on and SFTP off where it has none, and the
-- table finds this row by its name.
pub create_user-shown :
    (C : Cloud) (hash_password : Text → Option Text) (parse_key : Text → Result Text Text)
    (u : Unicode) (who : Caller) (b : CreateBody) (s : Site C) (row : FtpUser)
    → (create_user C hash_password parse_key u who (some b) s).0 ≡ shown row
    → IsStrong u b.password
      × Created C hash_password parse_key u who b
          (trim_space b.username)
          (normalize_root_folder (trim_space b.root_folder))
          (create_user C hash_password parse_key u who (some b) s).1
          row
unfolding create_user check_new_user make_root
create_user-shown C hash_password parse_key u who b s row h =
    let name = trim_space b.username in
    let root = trim_space b.root_folder in
    let s1 : Site C = (put_root C (normalize_root_folder root) s).1 in
    elim (Bool-cases (text_beq name [] || text_beq root [])) [
      | inl empty ↦ absurd (ground arith)
      | inr given ↦ elim (Option-cases (validate_password u b.password)) [
        | inr (message, weak) ↦ absurd (ground arith)
        | inl strong ↦ elim (Option-cases (put_root C (normalize_root_folder root) s).0) [
          | inr (e, failed) ↦ absurd (ground arith)
          | inl fine ↦ (
            (validate_password_iff_IsStrong u b.password).0.0 strong,
            rw (given, strong, fine, create_user, make_root)
                (store_user-shown C hash_password parse_key u who b name
                  (normalize_root_folder root) s1 row (ground arith)),
          )
        ]
      ]
    ]
