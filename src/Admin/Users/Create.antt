-- ===== src/Admin/Users/Create.antt =====
-- createUser of internal/admin/users_api.go, and friendlyCOSErr of internal/admin/cos_err.go.
use cloud_file_server.Base.{
  Bool, true, false, ◌||◌, List, [], ◌∷◌, ◌++◌, Option, none, some, Result, ok, err, if◌then◌else◌,
  any,
}
use cloud_file_server.Text.{Text, ascii, text_beq, slash, trim_prefix, contains, to_lower}
use cloud_file_server.Text.Spaces.{trim_space}
use cloud_file_server.Auth.Password.{Unicode, validate_password}
use cloud_file_server.Db.{
  FtpUser, DbError, not_found, unique_violation, failure, get_ftp_user_by_username, create_ftp_user,
}
use cloud_file_server.Cos.{Err, Cloud}
use cloud_file_server.Cos.Client.{put}
use cloud_file_server.Admin.Users.{
  Reply, http_error, shown, Caller, or_else, bad_request, internal, Site, Handler, report, on_table,
  answer_internal, normalize_root_folder,
}

-- What the text of an error of the store is searched for, in lower case and as it is.
auth_marks : List Text
unfolding ascii
auth_marks =
    ascii "unauthorized"
    ∷ ascii "accessdenied"
    ∷ ascii "forbidden"
    ∷ ascii "signaturedoesnotmatch"
    ∷ ascii "invalidaccesskeyid"
    ∷ ascii "nosuchbucket"
    ∷ []

-- The third byte string is a dash in UTF-8.
pub friendly_cos_err : Text → Err → Text
unfolding auth_marks contains to_lower ascii
friendly_cos_err op e =
    if any (contains (to_lower e.message)) auth_marks
      || contains e.message (ascii "403")
      || contains e.message (ascii "401")
    then ascii "COS auth/permission error during "
      ++ op
      ++ (b' ' ∷ 0xE2 ∷ 0x80 ∷ 0x94 ∷ [])
      ++ ascii
          " check COS_STATIC_SECRET_ID, COS_STATIC_SECRET_KEY, COS_BUCKET, COS_REGION. Detail: "
      ++ e.message
    else op ++ ascii ": " ++ e.message

pub record CreateBody : Type 0 where
  pub username : Text
  pub root_folder : Text
  pub password : Text
  pub enabled : Bool
  pub ftp_enabled : Option Bool
  pub sftp_enabled : Option Bool

abbrev create_failed : DbError → Reply
create_failed unique_violation = http_error 409 (ascii "username already exists")
create_failed not_found = internal
create_failed (failure message) = internal

module _ (C : Cloud) where
  -- The placeholder of the root folder, if there is a client.
  unfoldable pub put_root : Text → Site C → Option Err × Site C
  unfolding trim_prefix
  put_root root s = elim s.cos_client [
    | none ↦ (none, s)
    | some c ↦
        let (answer, c1) = put C (trim_prefix root (slash ∷ []) ++ (slash ∷ [])) [] c in
        let s1 : Site C = record s { cos_client = some c1 } in
        elim answer [ ok _ ↦ (none, s1) | err e ↦ (some e, s1) ]
  ]

  module _ (hash_password : Text → Option Text) (parse_key : Text → Result Text Text)
      (u : Unicode) where
    -- The row that createUser makes, with the fields that the table fills left zero.
    abbrev pub new_user : Site C → CreateBody → Text → Text → Text → FtpUser
    new_user s b username root hash = record {
      id = 0;
      username = username;
      password_hash = hash;
      root_folder = root;
      cos_bucket = s.cos_bucket;
      cos_region = s.cos_region;
      enabled = b.enabled;
      allow_active_mode = false;
      refuse_overwrite = false;
      max_sessions = 5;
      ftp_enabled = or_else true b.ftp_enabled;
      sftp_enabled = or_else false b.sftp_enabled;
      sftp_public_key = [];
      created_at = 0;
      updated_at = 0;
      deleted_at = none;
      last_login = none;
    }

    unfoldable pub store_user : Caller → CreateBody → Text → Text → Handler C
    store_user who b username root s = elim (hash_password b.password) [
      | none ↦ (internal, s)
      | some hash ↦
          on_table C (create_ftp_user (new_user s b username root hash)) create_failed
            (λ _. on_table C (get_ftp_user_by_username username) (answer_internal C) (λ created s2.
              (shown created, report C who (ascii "ADMIN_CREATE_USER") created.username s2)))
            s
    ]

    unfoldable pub make_root : Caller → CreateBody → Text → Text → Handler C
    unfolding put_root store_user friendly_cos_err
    make_root who b username root s =
        let (failed, s1) = put_root root s in
        elim failed [
          | some e ↦ (http_error 502 (friendly_cos_err (ascii "create root folder") e), s1)
          | none ↦ store_user who b username root s1
        ]

    unfoldable pub check_new_user : Caller → CreateBody → Text → Text → Handler C
    unfolding make_root
    check_new_user who b username root s =
        if text_beq username [] || text_beq root []
        then (http_error 400 (ascii "username and root_folder are required"), s)
        else elim (validate_password u b.password) [
          | some message ↦ (http_error 400 message, s)
          | none ↦ make_root who b username (normalize_root_folder root) s
        ]

    unfoldable pub create_user : Caller → Option CreateBody → Handler C
    unfolding check_new_user trim_space
    create_user who none s = (bad_request, s)
    create_user who (some b) s =
        check_new_user who b (trim_space b.username) (trim_space b.root_folder) s
