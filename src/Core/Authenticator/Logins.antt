-- ===== src/Core/Authenticator/Logins.antt =====
-- When Authenticate lets a user in, what it leaves behind and what it hands to the audit log.
use cloud_file_server.Base.{
  ◌≡◌, refl, ◌≢◌, inl, inr, Bool, true, false, List, [], ◌∷◌, ◌++◌, Option, none, some, Result, ok,
  err, Result-cases, arith, Bool-cases,
}
use cloud_file_server.Text.{Text, ascii, text_beq_iff}
use cloud_file_server.Auth.Lockout.{allow, reset, failures_of}
use cloud_file_server.Auth.Lockout.Laws.{
  failures_of-allow, failures_of-record_failure, failures_of-reset,
}
use cloud_file_server.Audit.Event.{Event}
use cloud_file_server.Db.{
  FtpUser, has_name, find_where, found, get_ftp_user_by_username, set_ftp_user_last_login,
  error_text,
}
use cloud_file_server.Db.Laws.{get_by_username-ok, get_by_username_lem}
use cloud_file_server.Core.Authenticator.{
  AuthState, Attempt, AuthError, login_failed, authenticate, granted, log_in, denied_with,
  check_user, look_up,
}

abbrev pub last_event : List Event → Option Event
last_event [] = none
last_event (e ∷ []) = some e
last_event (e ∷ f ∷ es) = last_event (f ∷ es)

pub last_event-append : (es : List Event) (e : Event) → last_event (es ++ (e ∷ [])) ≡ some e
last_event-append [] e = refl
last_event-append (x ∷ []) e = refl
last_event-append (x ∷ y ∷ es) e = last_event-append (y ∷ es) e

abbrev pub is_ok : {A : Type 0} → Result AuthError A → Bool
is_ok (ok _) = true
is_ok (err _) = false

log_in-last_event :
    (s : AuthState) (a : Attempt) (u : FtpUser)
    → last_event (log_in s a u).1.events ≡ some (granted a)
unfolding log_in
log_in-last_event s a u = elim (Result-cases (set_ftp_user_last_login u.id s.db).0) [
  | inl (_, e) ↦ rw (e, log_in) (last_event-append s.events (granted a))
  | inr (e, failed) ↦
      rw (failed, log_in)
        (last_event-append
          (s.events ++ (denied_with a (ascii "last_login_update_failed") (error_text e) ∷ []))
          (granted a))
]

log_in-lockout :
    (s : AuthState) (a : Attempt) (u : FtpUser) → (log_in s a u).1.lockout ≡ reset s.lockout a.user
unfolding log_in
log_in-lockout s a u = ground arith

-- Exactly one event was added: a LOGIN of that user, with or without success.
pub record Reports (a : Attempt) (success : Bool) (before after : List Event) : Type 0 where
  pub event : Event
  pub added : after ≡ before ++ (event ∷ [])
  pub outcome : event.success ≡ success
  pub action : event.action ≡ ascii "LOGIN"
  pub username : event.username ≡ a.user
  pub connection_type : event.connection_type ≡ a.connection_type

reports :
    (a : Attempt) (success : Bool) (before : List Event) (e : Event)
    → e.success ≡ success
    → e.action ≡ ascii "LOGIN"
    → e.username ≡ a.user
    → e.connection_type ≡ a.connection_type
    → Reports a success before (before ++ (e ∷ []))
reports a success before e o p q r = record {
  event = e;
  added = refl;
  outcome = o;
  action = p;
  username = q;
  connection_type = r;
}

module _ (verify_password : Text → Text → Bool) where
  -- What a login needs.
  pub record MayLogIn (s : AuthState) (a : Attempt) (u : FtpUser) : Type 0 where
    pub not_locked : (allow s.lockout a.user a.asked_at).0 ≡ true
    pub known : find_where (has_name a.user) s.db.rows ≡ some u
    pub active : u.enabled ≡ true
    pub password : verify_password u.password_hash a.pass ≡ true

  authenticate-log_in :
      (s : AuthState) (a : Attempt) (u : FtpUser)
      → (authenticate verify_password s a).0 ≡ ok u
      → MayLogIn s a u
        × (authenticate verify_password s a
            ≡ log_in
                (record s {
                  lockout = (allow s.lockout a.user a.asked_at).1;
                  db = (get_ftp_user_by_username a.user s.db).1;
                })
                a
                u)
  unfolding authenticate
  authenticate-log_in s a u h = ground (arith, get_by_username-ok a.user s.db u)

  -- A user is let in only if the lockout allows it, and the live row of that name is enabled and
  -- holds the password. Then its failures are forgotten, and the last event is its successful LOGIN.
  pub authenticate-ok :
      (s : AuthState) (a : Attempt) (u : FtpUser)
      → (authenticate verify_password s a).0 ≡ ok u
      → MayLogIn s a u
        × (failures_of (authenticate verify_password s a).1.lockout a.user ≡ [])
        × (last_event (authenticate verify_password s a).1.events ≡ some (granted a))
  authenticate-ok s a u h =
      let (may, e) = authenticate-log_in s a u h in
      (
        may,
        rw (e, log_in-lockout)
            (ground (
              arith,
              failures_of-reset (allow s.lockout a.user a.asked_at).1 a.user a.user,
              text_beq_iff a.user a.user,
            )),
        rw e (log_in-last_event _ a u),
      )

  -- If no query fails, the lockout allows the name, and the live row of that name is enabled and
  -- holds the password, then the user of that row is let in.
  pub authenticate_of_MayLogIn :
      (s : AuthState) (a : Attempt) (u : FtpUser)
      → s.db.faults ≡ []
      → MayLogIn s a u
      → (authenticate verify_password s a).0 ≡ ok u
  unfolding authenticate found
  authenticate_of_MayLogIn s a u h may = ground (arith, get_by_username_lem a.user s.db h)

  -- What one login does to the failures of any user: a success forgets its own, a failure adds one
  -- at most, and those of other users stay.
  failures_of-authenticate :
      (s : AuthState) (a : Attempt) (other : Text)
      → a.user ≢ other
      → failures_of (authenticate verify_password s a).1.lockout other ≡ failures_of s.lockout other
  unfolding authenticate
  failures_of-authenticate s a other ne =
      let l = (allow s.lockout a.user a.asked_at).1 in
      ground (
        arith,
        failures_of-allow s.lockout a.user other a.asked_at,
        failures_of-record_failure l a.user other a.failed_at,
        failures_of-reset l a.user other,
        text_beq_iff a.user other,
      )

  check_user-Reports :
      (s : AuthState) (a : Attempt) (u : FtpUser)
      → (check_user verify_password s a u).0 ≡ err login_failed
      → Reports a false s.events (check_user verify_password s a u).1.events
  unfolding check_user
  check_user-Reports s a u h = elim (Bool-cases u.enabled) [
    | inl active ↦ elim (Bool-cases (verify_password u.password_hash a.pass)) [
      | inl right ↦ ground arith
      | inr wrong ↦ rw (active, wrong) (reports a false s.events _ refl refl refl refl)
    ]
    | inr disabled ↦ rw disabled (reports a false s.events _ refl refl refl refl)
  ]

  -- A refused login hands exactly one event to the audit log, a failed LOGIN under the name that
  -- was given.
  pub authenticate_refused-Reports :
      (s : AuthState) (a : Attempt)
      → (authenticate verify_password s a).0 ≡ err login_failed
      → Reports a false s.events (authenticate verify_password s a).1.events
  unfolding authenticate
  authenticate_refused-Reports s a h = elim (Bool-cases (allow s.lockout a.user a.asked_at).0) [
    | inl open_door ↦ elim (Result-cases (get_ftp_user_by_username a.user s.db).0) [
      | inl (u, e) ↦
          rw (open_door, e, look_up) (check_user-Reports _ a u (rw (open_door, e, look_up) at h))
      | inr (f, e) ↦ rw (open_door, e, look_up) (reports a false s.events _ refl refl refl refl)
    ]
    | inr locked ↦ rw locked (reports a false s.events _ refl refl refl refl)
  ]
