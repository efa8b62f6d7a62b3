-- ===== src/Ftpserver/Logins.antt =====
-- Who gets an FTP driver, and for which folder.
use cloud_file_server.Base.{◌≡◌, Bool, true, some, ok, Result-cases, arith, inl, inr, Bool-cases}
use cloud_file_server.Text.{Text}
use cloud_file_server.Net.{Net, client_ip_from_addr}
use cloud_file_server.Db.{FtpUser}
use cloud_file_server.Core.Authenticator.{AuthState, Attempt, authenticate}
use cloud_file_server.Core.Authenticator.Logins.{MayLogIn, authenticate-ok}
use cloud_file_server.Ftpserver.{
  NewDriver, Connection, ftp_attempt, auth_user, admit, make_driver, ftp_access_denied,
}

module _ {D : Type 0} (net : Net) (verify_password : Text → Text → Bool)
    (new_driver : NewDriver D) where
  admit-ok :
      (a : Attempt) (u : FtpUser) (ip : Text) (s : AuthState) (d : D)
      → (admit (some new_driver) a u ip s).0 ≡ ok d
      → (u.ftp_enabled ≡ true)
        × ((new_driver u ip s).0 ≡ ok d)
        × ((admit (some new_driver) a u ip s).1
            ≡ some (record { username = u.username; root_folder = u.root_folder }))
  unfolding admit make_driver ftp_access_denied
  admit-ok a u ip s d h = ground arith

  -- A client gets a driver only as a user whom the authenticator lets in and who has FTP access;
  -- the driver is the one made for that user, and the connection remembers the user's name and
  -- folder.
  pub auth_user-ok :
      (has_authenticator : Bool) (c : Connection) (user pass : Text) (s : AuthState) (d : D)
      → (auth_user net verify_password has_authenticator (some new_driver) c user pass s).0 ≡ ok d
      → (u : FtpUser) × MayLogIn verify_password s (ftp_attempt net c user pass) u
        × (u.ftp_enabled ≡ true)
        × ((new_driver u
              (client_ip_from_addr net c.remote_addr)
              (authenticate verify_password s (ftp_attempt net c user pass)).1).0
            ≡ ok d)
        × ((auth_user net verify_password has_authenticator (some new_driver) c user pass s).1
            ≡ some (record { username = u.username; root_folder = u.root_folder }))
  unfolding auth_user
  auth_user-ok has_authenticator c user pass s d h =
      elim (Result-cases (authenticate verify_password s (ftp_attempt net c user pass)).0) [
        | inl (u, e) ↦ elim (Bool-cases has_authenticator) [
          | inl yes_auth ↦
              let a = ftp_attempt net c user pass in
              let (enabled, made, stashed) =
                admit-ok a u (client_ip_from_addr net c.remote_addr)
                  (authenticate verify_password s a).1 d (simp (yes_auth, e) at h) in
              (
                u,
                (authenticate-ok verify_password s a u e).0,
                enabled,
                made,
                simp (yes_auth, e) stashed,
              )
          | inr no_auth ↦ absurd (ground arith)
        ]
        | inr (f, e) ↦ absurd (ground arith)
      ]
