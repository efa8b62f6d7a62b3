-- ===== src/Sftpserver.antt =====
-- internal/sftpserver/server.go: the two login callbacks of the SFTP server. `ssh` parses and
-- marshals keys; both are parameters, a key being the bytes that it marshals to.
pub mod Logins
pub mod Session
use cloud_file_server.Base.{
  ℕ, Bool, true, false, not, ◌||◌, List, [], ◌∷◌, ◌++◌, Option, none, some, Result, ok, err,
  if◌then◌else◌,
}
use cloud_file_server.Text.{Text, ascii, text_beq}
use cloud_file_server.Net.{Net, client_ip_from_addr}
use cloud_file_server.Audit.Event.{Event, Value, str}
use cloud_file_server.Db.{FtpUser, get_ftp_user_public_key}
use cloud_file_server.Core.Authenticator.{
  AuthState, Attempt, AuthError, login_failed, authenticate, log, denied, granted,
}
use cloud_file_server.Ftpserver.{Connection}

-- `ConnType`
unfoldable pub conn_type : Text
unfolding ascii
conn_type = ascii "sftp"

-- `ssh.Permissions`, with nothing in them, or the one error of a refusal.
abbrev pub Answer : Type 0
Answer = Result AuthError (Unit {0}) × AuthState

abbrev pub sftp_attempt : Net → Connection → Text → Text → Attempt
sftp_attempt net c user pass = record {
  user = user;
  pass = pass;
  connection_type = conn_type;
  client_ip = some (client_ip_from_addr net c.remote_addr);
  asked_at = c.asked_at;
  failed_at = c.failed_at;
}

admit : Attempt → FtpUser → AuthState → Answer
admit a u s =
    if not u.sftp_enabled
    then (err login_failed, log s (denied a (ascii "sftp_disabled")))
    else (ok tt, s)

-- `passwordCallback`; the Boolean says whether the server has an authenticator.
pub password_callback :
    Net → (Text → Text → Bool) → Bool → Connection → Text → Text → AuthState → Answer
unfolding admit
password_callback net verify_password has_authenticator c user pass s =
    if not has_authenticator
    then (err login_failed, s)
    else let (result, s1) = authenticate verify_password s (sftp_attempt net c user pass) in
      elim result [
        | err e ↦ (err login_failed, s1)
        | ok u ↦ admit (sftp_attempt net c user pass) u s1
      ]

abbrev pub granted_by_key : Attempt → Event
granted_by_key a = record (granted a) { detail = (ascii "method", str (ascii "publickey")) ∷ [] }

module _ (parse_key : Text → Option Text) where
  check_key : Attempt → FtpUser → Text → AuthState → Answer
  check_key a u offered s = elim (parse_key u.sftp_public_key) [
    | none ↦ (err login_failed, s)
    | some stored ↦
        if not (text_beq stored offered)
        then (err login_failed, log s (denied a (ascii "pubkey_mismatch")))
        else (ok tt, log s (granted_by_key a))
  ]

  check_access : Attempt → FtpUser → Text → AuthState → Answer
  check_access a u offered s =
      if not u.enabled || not u.sftp_enabled || text_beq u.sftp_public_key []
      then (err login_failed, log s (denied a (ascii "sftp_pubkey_denied")))
      else check_key a u offered s

  -- `publicKeyCallback`, with `LookupUser` as main sets it; the Boolean says whether it is set.
  unfoldable pub public_key_callback : Net → Bool → Connection → Text → Text → AuthState → Answer
  unfolding check_access check_key
  public_key_callback net has_lookup c user offered s =
      if not has_lookup
      then (err login_failed, s)
      else let (found, db) = get_ftp_user_public_key user s.db in
        let s1 : AuthState = record s { db = db } in
        elim found [
          | err e ↦ (err login_failed, s1)
          | ok u ↦ check_access (sftp_attempt net c user []) u offered s1
        ]
