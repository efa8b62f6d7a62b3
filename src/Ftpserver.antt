-- ===== src/Ftpserver.antt =====
-- internal/ftpserver/server.go: what the FTP server does when a client logs in and leaves, and the
-- settings that it hands to the protocol library.
pub mod Sessions
pub mod Logins
pub mod CertChain
pub mod Settings
pub mod Drivers
use cloud_file_server.Base.{
  ℕ, Bool, true, false, not, List, [], ◌∷◌, ◌++◌, Option, none, some, Result, ok, err,
  if◌then◌else◌,
}
use cloud_file_server.Text.{Text, ascii, text_beq}
use cloud_file_server.Net.{Net, client_ip_from_addr}
use cloud_file_server.Audit.Event.{Event, Value, str, zero_event}
use cloud_file_server.Db.{FtpUser}
use cloud_file_server.Core.Authenticator.{AuthState, Attempt, AuthError, authenticate, log, denied}

-- `ConnType`
unfoldable pub conn_type : Text
unfolding ascii
conn_type = ascii "ftp"

-- `authedSession`, what AuthUser stashes in the connection's context.
pub record AuthedSession : Type 0 where
  pub username : Text
  pub root_folder : Text

-- The errors of AuthUser.
pub data FtpError : Type 0 where
  auth_failed : Text → FtpError
  no_driver_factory : FtpError
  driver_failed : Text → FtpError

-- `ftpAccessDenied`
pub ftp_access_denied : FtpUser → Bool
ftp_access_denied u = not u.ftp_enabled

-- `NewDriver`, which cmd/ftp-server/main.go sets: it mounts the user's storage, and a driver is
-- what the mount gives.
abbrev pub NewDriver : Type 0 → Type 0
NewDriver D = FtpUser → Text → AuthState → Result Text D × AuthState

-- One login: the client's address, and the readings of the clock.
pub record Connection : Type 0 where
  pub remote_addr : Text
  pub asked_at : ℕ
  pub failed_at : ℕ

-- The answer, the connection's context and the state.
abbrev pub Answer : Type 0 → Type 0
Answer D = Result FtpError D × Option AuthedSession × AuthState

abbrev pub ftp_attempt : Net → Connection → Text → Text → Attempt
ftp_attempt net c user pass = record {
  user = user;
  pass = pass;
  connection_type = conn_type;
  client_ip = some (client_ip_from_addr net c.remote_addr);
  asked_at = c.asked_at;
  failed_at = c.failed_at;
}

module _ {D : Type 0} where
  make_driver : Option (NewDriver D) → FtpUser → Text → AuthState → Answer D
  make_driver none u ip s = (err no_driver_factory, none, s)
  make_driver (some new_driver) u ip s =
      let (made, s1) = new_driver u ip s in
      let extra : Option AuthedSession =
        some (record { username = u.username; root_folder = u.root_folder }) in
      elim made [ ok d ↦ (ok d, extra, s1) | err e ↦ (err (driver_failed e), extra, s1) ]

  admit : Option (NewDriver D) → Attempt → FtpUser → Text → AuthState → Answer D
  admit factory a u ip s =
      if ftp_access_denied u
      then (err (auth_failed a.user), none, log s (denied a (ascii "ftp_disabled")))
      else make_driver factory u ip s

  -- `AuthUser`; the first argument says whether the server has an authenticator.
  unfoldable pub auth_user :
      Net
      → (Text → Text → Bool)
      → Bool
      → Option (NewDriver D)
      → Connection
      → Text
      → Text
      → AuthState
      → Answer D
  unfolding admit make_driver ftp_access_denied
  auth_user net verify_password has_authenticator factory c user pass s =
      if not has_authenticator
      then (err (auth_failed user), none, s)
      else let (result, s1) = authenticate verify_password s (ftp_attempt net c user pass) in
        elim result [
          | err e ↦ (err (auth_failed user), none, s1)
          | ok u ↦
              admit factory (ftp_attempt net c user pass) u (client_ip_from_addr net c.remote_addr)
                s1
        ]

-- `ClientDisconnected`
unfoldable client_disconnected : Net → Text → Text → Option AuthedSession → AuthState → AuthState
client_disconnected net backend addr extra s = elim extra [
  | none ↦ s
  | some session ↦
      if text_beq session.username []
      then s
      else log s (record zero_event {
        username = session.username;
        client_ip = some (client_ip_from_addr net addr);
        action = ascii "LOGOUT";
        success = true;
        connection_type = conn_type;
        backend_location = backend;
        root_folder = session.root_folder;
      })
]
