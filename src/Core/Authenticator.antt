-- ===== src/Core/Authenticator.antt =====
-- DBAuthenticator.Authenticate of internal/core/authenticator.go. `bcrypt` is the parameter
-- `verify_password`; the state holds the table, the lockout and the events handed to Audit.Log.

pub mod Logins
pub mod BruteForce
use cloud_file_server.Base.{
  ℕ, Bool, true, false, not, List, [], ◌∷◌, ◌++◌, Option, none, some, Result, ok, err,
  if◌then◌else◌,
}
use cloud_file_server.Text.{Text, ascii}
use cloud_file_server.Auth.Lockout.{Lockout, allow, record_failure, reset}
use cloud_file_server.Audit.Event.{Event, Value, str, zero_event}
use cloud_file_server.Db.{
  Db, DbError, FtpUser, error_text, get_ftp_user_by_username, set_ftp_user_last_login,
}

pub record AuthState : Type 0 where
  pub lockout : Lockout
  pub db : Db
  pub events : List Event

abbrev pub log : AuthState → Event → AuthState
log s e = record s { events = s.events ++ (e ∷ []) }

-- What one call is given. The clock is read by `Allow`, and again by `RecordFailure`.
pub record Attempt : Type 0 where
  pub user : Text
  pub pass : Text
  pub connection_type : Text
  pub client_ip : Option Text
  pub asked_at : ℕ
  pub failed_at : ℕ

-- `errAuthFailed`, the one error of every failure.
pub data AuthError : Type 0 where
  login_failed : AuthError

abbrev pub login_event : Attempt → Event
login_event a = record zero_event {
  username = a.user;
  client_ip = a.client_ip;
  action = ascii "LOGIN";
  connection_type = a.connection_type;
}

-- A failed LOGIN with its reason.
abbrev pub denied : Attempt → Text → Event
denied a why = record (login_event a) { detail = (ascii "reason", str why) ∷ [] }

abbrev pub denied_with : Attempt → Text → Text → Event
denied_with a why message = record (login_event a) {
  detail = (ascii "reason", str why) ∷ (ascii "err", str message) ∷ [];
}

abbrev pub granted : Attempt → Event
granted a = record (login_event a) { success = true }

abbrev blame : AuthState → Attempt → AuthState
blame s a = record s { lockout = record_failure s.lockout a.user a.failed_at }

-- From `a.Lockout.Reset(user)` on.
log_in : AuthState → Attempt → FtpUser → Result AuthError FtpUser × AuthState
log_in s a u =
    let (updated, db) = set_ftp_user_last_login u.id s.db in
    let s1 : AuthState = record s { lockout = reset s.lockout a.user; db = db } in
    let s2 : AuthState = elim updated [
      | ok _ ↦ s1
      | err e ↦ log s1 (denied_with a (ascii "last_login_update_failed") (error_text e))
    ] in
    (ok u, log s2 (granted a))

module _ (verify_password : Text → Text → Bool) where
  -- From the test of `u.Enabled` on.
  check_user : AuthState → Attempt → FtpUser → Result AuthError FtpUser × AuthState
  unfolding log_in
  check_user s a u =
      if not u.enabled
      then (err login_failed, log s (denied a (ascii "disabled")))
      else if not (verify_password u.password_hash a.pass)
      then (err login_failed, log (blame s a) (denied a (ascii "bad_password")))
      else log_in s a u

  look_up : AuthState → Attempt → Result AuthError FtpUser × AuthState
  unfolding check_user
  look_up s a =
      let (found, db) = get_ftp_user_by_username a.user s.db in
      let s1 : AuthState = record s { db = db } in
      elim found [
        | err e ↦
            (err login_failed, log (blame s1 a) (denied_with a (ascii "db_error") (error_text e)))
        | ok u ↦ check_user s1 a u
      ]

  unfoldable pub authenticate : AuthState → Attempt → Result AuthError FtpUser × AuthState
  unfolding look_up
  authenticate s a =
      let (allowed, lockout) = allow s.lockout a.user a.asked_at in
      let s1 : AuthState = record s { lockout = lockout } in
      if not allowed
      then (err login_failed, log s1 (denied a (ascii "locked_out")))
      else look_up s1 a
