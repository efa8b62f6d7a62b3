-- ===== src/Tests/Logins.antt =====
-- Logins by FTP and SFTP, the lockout, and passwords.
use cloud_file_server.Base.{
  ℕ, ◌≡◌, refl, ap, sym, ◌∙◌, ◌↔◌, ◌⊎◌, ◌≢◌, ◌&&◌, Bool, true, false, List, [], ◌∷◌, ◌++◌, Option,
  none, some, Result, ok, err, length, All, select, ltb, arith,
}
use cloud_file_server.Text.{Text, ascii, text_beq}
use cloud_file_server.Net.{client_ip_from_addr}
use cloud_file_server.Auth.Password.{
  validate_password, validate_password_iff_IsStrong, IsStrong, err_weak_password,
}
use cloud_file_server.Auth.Lockout.{new_lockout, failures_of, allow, is_recent}
use cloud_file_server.Auth.Lockout.Laws.{asked, failed, run, since_success, allow_iff_few_failures}
use cloud_file_server.Db.{FtpUser, find_where, has_name}
use cloud_file_server.Core.Authenticator.{Attempt, login_failed, authenticate, granted}
use cloud_file_server.Core.Authenticator.Logins.{
  MayLogIn, Reports, last_event, authenticate-ok, authenticate_refused-Reports,
}
use cloud_file_server.Core.Authenticator.BruteForce.{
  attempts, HasWrongPassword, IsWrongGuess, authenticate-attempts_locked,
}
use cloud_file_server.Ftpserver.{Connection, NewDriver, ftp_attempt, auth_user}
use cloud_file_server.Ftpserver.Logins.{auth_user-ok}
use cloud_file_server.Sftpserver.{sftp_attempt, public_key_callback, granted_by_key}
use cloud_file_server.Sftpserver.Logins.{public_key_callback-ok}
use cloud_file_server.Tests.Data.{
  ascii_tables, alice, same_password, start, attempt_with, plain_net,
}

abbrev right : Attempt
right = attempt_with (ascii "pw")

abbrev wrong : Attempt
wrong = attempt_with (ascii "no")

authenticate-ok_example :
    MayLogIn same_password start right alice
    × (failures_of (authenticate same_password start right).1.lockout (ascii "al") ≡ [])
    × (last_event (authenticate same_password start right).1.events ≡ some (granted right))
unfolding authenticate allow cloud_file_server.Base.Dict.lookup new_lockout
    cloud_file_server.Db.get_ftp_user_by_username text_beq ascii
authenticate-ok_example = authenticate-ok same_password start right alice refl

authenticate_refused-Reports_example :
    Reports wrong false [] (authenticate same_password start wrong).1.events
unfolding authenticate allow cloud_file_server.Base.Dict.lookup new_lockout
    cloud_file_server.Db.get_ftp_user_by_username text_beq ascii
authenticate_refused-Reports_example = authenticate_refused-Reports same_password start wrong refl

alice_is_found : find_where (has_name (ascii "al")) (alice ∷ []) ≡ some alice
unfolding find_where text_beq ascii
alice_is_found = refl

wrong_differs : text_beq (ascii "pw") (ascii "no") ≡ false
unfolding text_beq ascii
wrong_differs = refl

wrong-HasWrongPassword : HasWrongPassword same_password (alice ∷ []) wrong
wrong-HasWrongPassword u found =
    let e : alice ≡ u = ground (arith, found, alice_is_found) in
    (
      ap (λ (v : FtpUser). v.enabled) (sym e),
      ap (λ (v : FtpUser). text_beq v.password_hash (ascii "no")) (sym e) ∙ wrong_differs,
    )

wrong-IsWrongGuess : IsWrongGuess same_password (alice ∷ []) (ascii "al") 100 10 wrong
wrong-IsWrongGuess = record {
  same_user = refl;
  asked_before = omega arith;
  in_window = omega arith;
  wrong = wrong-HasWrongPassword;
}

authenticate-attempts_locked_example :
    (authenticate same_password (attempts same_password start (wrong ∷ [])) right).0
    ≡ err login_failed
unfolding failures_of cloud_file_server.Base.Dict.lookup new_lockout
authenticate-attempts_locked_example =
    authenticate-attempts_locked same_password start (wrong ∷ []) right refl
      (wrong-IsWrongGuess, tt) (omega arith)

allow_iff_few_failures_example :
    (allow
      (run (new_lockout 1 100) (failed (ascii "al") 5 ∷ asked (ascii "al") 6 ∷ []))
      (ascii "al")
      50).0
    ≡ ltb
        (length (
          select
            (is_recent 100 50)
            (since_success (ascii "al") [] (failed (ascii "al") 5 ∷ asked (ascii "al") 6 ∷ []))))
        1
allow_iff_few_failures_example =
    allow_iff_few_failures 1 100 (failed (ascii "al") 5 ∷ asked (ascii "al") 6 ∷ []) (ascii "al") 50
      (tt, (omega arith, tt))

validate_password_iff_IsStrong_example :
    ((validate_password ascii_tables (ascii "Passw0rd") ≡ none)
      ↔ IsStrong ascii_tables (ascii "Passw0rd"))
    × ((validate_password ascii_tables (ascii "Passw0rd") ≡ none)
        ⊎ (validate_password ascii_tables (ascii "Passw0rd") ≡ some err_weak_password))
validate_password_iff_IsStrong_example =
    validate_password_iff_IsStrong ascii_tables (ascii "Passw0rd")

strong_password_test : validate_password ascii_tables (ascii "Passw0rd") ≡ none
unfolding validate_password ascii
strong_password_test = refl

weak_password_test : validate_password ascii_tables (ascii "password") ≡ some err_weak_password
unfolding validate_password ascii
weak_password_test = refl

abbrev connection : Connection
connection = record { remote_addr = ascii "h"; asked_at = 10; failed_at = 10 }

-- A driver that is the folder it was made for.
abbrev folder_driver : NewDriver Text
folder_driver u ip s = (ok u.root_folder, s)

auth_user-ok_example :
    (u : FtpUser) × MayLogIn same_password start
      (ftp_attempt plain_net connection (ascii "al") (ascii "pw"))
      u
    × (u.ftp_enabled ≡ true)
    × ((folder_driver u
          (client_ip_from_addr plain_net (ascii "h"))
          (authenticate same_password start
            (ftp_attempt plain_net connection (ascii "al") (ascii "pw"))).1).0
        ≡ ok (ascii "r"))
    × ((auth_user plain_net same_password true
          (some folder_driver)
          connection
          (ascii "al")
          (ascii "pw")
          start).1
        ≡ some (record { username = u.username; root_folder = u.root_folder }))
unfolding auth_user authenticate allow cloud_file_server.Base.Dict.lookup new_lockout
    cloud_file_server.Db.get_ftp_user_by_username text_beq ascii
auth_user-ok_example =
    auth_user-ok plain_net same_password folder_driver true connection (ascii "al") (ascii "pw")
      start (ascii "r") refl

abbrev as_key : Text → Option Text
as_key t = some t

public_key_callback-ok_example :
    (row : FtpUser) × (find_where (has_name (ascii "al")) start.db.rows ≡ some row)
    × (row.enabled ≡ true)
    × (row.sftp_enabled ≡ true)
    × (as_key row.sftp_public_key ≡ some (ascii "K"))
    × ((public_key_callback as_key plain_net true connection
          (ascii "al")
          (ascii "K")
          start).1.lockout
        ≡ start.lockout)
    × (last_event
          (public_key_callback as_key plain_net true connection
            (ascii "al")
            (ascii "K")
            start).1.events
        ≡ some (granted_by_key (sftp_attempt plain_net connection (ascii "al") [])))
unfolding public_key_callback cloud_file_server.Db.get_ftp_user_public_key text_beq ascii
public_key_callback-ok_example =
    public_key_callback-ok as_key plain_net true connection (ascii "al") (ascii "K") start refl
