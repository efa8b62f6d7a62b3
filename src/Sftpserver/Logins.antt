-- ===== src/Sftpserver/Logins.antt =====
-- Who gets an SFTP session.
use cloud_file_server.Base.{
  ◌≡◌, Bool, true, [], Option, some, ok, Result-cases, Option-cases, arith, inl, inr,
}
use cloud_file_server.Text.{Text, text_beq_iff}
use cloud_file_server.Net.{Net}
use cloud_file_server.Db.{FtpUser, get_ftp_user_public_key, find_where, has_name, key_columns}
use cloud_file_server.Db.Laws.{attempt-rows}
use cloud_file_server.Core.Authenticator.{AuthState, authenticate}
use cloud_file_server.Core.Authenticator.Logins.{
  MayLogIn, authenticate-ok, last_event, last_event-append,
}
use cloud_file_server.Ftpserver.{Connection}
use cloud_file_server.Sftpserver.{
  sftp_attempt, password_callback, public_key_callback, granted_by_key,
}

-- A password opens an SFTP session only for a user whom the authenticator lets in and who has SFTP
-- access.
password_callback-ok :
    (net : Net) (verify_password : Text → Text → Bool) (has_authenticator : Bool) (c : Connection)
    (user pass : Text) (s : AuthState)
    → (password_callback net verify_password has_authenticator c user pass s).0 ≡ ok tt
    → (u : FtpUser) × MayLogIn verify_password s (sftp_attempt net c user pass) u
      × (u.sftp_enabled ≡ true)
unfolding password_callback
password_callback-ok net verify_password has_authenticator c user pass s h =
    elim (Result-cases (authenticate verify_password s (sftp_attempt net c user pass)).0) [
      | inl (u, e) ↦ (
        u,
        (authenticate-ok verify_password s (sftp_attempt net c user pass) u e).0,
        ground arith,
      )
      | inr (f, e) ↦ absurd (ground arith)
    ]

get_public_key-ok :
    (user : Text) (s : AuthState) (u : FtpUser)
    → (get_ftp_user_public_key user s.db).0 ≡ ok u
    → (row : FtpUser) × (find_where (has_name user) s.db.rows ≡ some row) × (key_columns row ≡ u)
unfolding get_ftp_user_public_key
get_public_key-ok user s u h = elim (Option-cases (find_where (has_name user) s.db.rows)) [
  | inl nobody ↦ absurd (ground (arith, attempt-rows s.db))
  | inr (row, e) ↦ (row, e, ground (arith, attempt-rows s.db))
]

-- A public key opens an SFTP session only for a live row of that name that is enabled, has SFTP
-- access, and stores a key that parses to the offered one. The lockout is neither asked nor
-- changed, and the last event is a successful LOGIN.
pub public_key_callback-ok :
    (parse_key : Text → Option Text) (net : Net) (has_lookup : Bool) (c : Connection)
    (user offered : Text) (s : AuthState)
    → (public_key_callback parse_key net has_lookup c user offered s).0 ≡ ok tt
    → (row : FtpUser) × (find_where (has_name user) s.db.rows ≡ some row)
      × (row.enabled ≡ true)
      × (row.sftp_enabled ≡ true)
      × (parse_key row.sftp_public_key ≡ some offered)
      × ((public_key_callback parse_key net has_lookup c user offered s).1.lockout ≡ s.lockout)
      × (last_event (public_key_callback parse_key net has_lookup c user offered s).1.events
          ≡ some (granted_by_key (sftp_attempt net c user [])))
unfolding public_key_callback key_columns
public_key_callback-ok parse_key net has_lookup c user offered s h =
    elim (Result-cases (get_ftp_user_public_key user s.db).0) [
      | inl (u, e) ↦
          let (row, found, cols) = get_public_key-ok user s u e in
          (
            row,
            found,
            ground arith,
            ground arith,
            elim (Option-cases (parse_key u.sftp_public_key)) [
              | inl broken ↦ absurd (ground arith)
              | inr (stored, p) ↦ ground (arith, text_beq_iff stored offered)
            ],
            ground arith,
            ground
                (arith, last_event-append s.events (granted_by_key (sftp_attempt net c user []))),
          )
      | inr (f, e) ↦ absurd (ground arith)
    ]
