-- ===== src/Ftpserver/Drivers.antt =====
-- The function NewDriver that cmd/ftp-server/main.go gives the FTP server.
use cloud_file_server.Base.{
  ℕ, ◌≡◌, ◌∙◌, ap, Bool, true, List, [], ◌∷◌, ◌++◌, Option, some, Result, ok, err, arith,
  Result-cases, Bool-cases, inl, inr, append_assoc,
}
use cloud_file_server.Net.{Net, client_ip_from_addr}
use cloud_file_server.Text.{Text, ascii}
use cloud_file_server.Audit.Event.{Event, zero_event, str}
use cloud_file_server.Db.{FtpUser}
use cloud_file_server.Core.Authenticator.Logins.{last_event, authenticate-ok}
use cloud_file_server.Core.Authenticator.{Attempt, AuthState, log, granted, authenticate}
use cloud_file_server.Fsdriver.AuditFs.{Mount}
use cloud_file_server.Ftpserver.{
  NewDriver, Connection, ftp_attempt, auth_user, admit, make_driver, ftp_access_denied,
}

-- A mounted driver, and what NewAuditFS keeps.
pub record UserDriver (Root : Type 0) : Type 0 where
  pub root : Root
  pub mount : Mount

module _ {Root : Type 0} (parse_ip : Text → Option Text) (mount : Text → Result Text Root)
    (backend : Text) (session : ℕ) where
  abbrev connected_event : FtpUser → Text → Event
  connected_event u ip = record zero_event {
    username = u.username;
    client_ip = parse_ip ip;
    action = ascii "LOGIN";
    success = true;
    connection_type = ascii "ftp";
    backend_location = backend;
    root_folder = u.root_folder;
    detail = (ascii "backend", str backend) ∷ (ascii "root_prefix", str u.root_folder) ∷ [];
  }

  abbrev user_driver : FtpUser → Text → Root → UserDriver Root
  user_driver u ip root = record {
    root = root;
    mount = record {
      username = u.username;
      client_ip = parse_ip ip;
      connection_type = ascii "ftp";
      backend_location = backend;
      root_folder = u.root_folder;
      session = session;
    };
  }

  -- `mount` is what the storage's Mount answers in this login.
  pub new_driver : NewDriver (UserDriver Root)
  new_driver u ip s = elim (mount u.root_folder) [
    | err message ↦ (err (ascii "mount: " ++ message), s)
    | ok root ↦ (ok (user_driver u ip root), log s (connected_event u ip))
  ]

last_event-split :
    (l : List Event) (e : Event)
    → last_event l ≡ some e
    → (before : List Event) × (l ≡ before ++ (e ∷ []))
last_event-split [] e h = absurd (ground arith)
last_event-split (x ∷ []) e h = ([], ground arith)
last_event-split (x ∷ y ∷ l) e h =
    let (before, same) = last_event-split (y ∷ l) e h in (x ∷ before, ap (λ r. x ∷ r) same)

module _ {Root : Type 0} (net : Net) (verify_password : Text → Text → Bool)
    (mount : Text → Result Text Root) (backend : Text) (session : ℕ) where
  admit-connected :
      (a : Attempt) (u : FtpUser) (ip : Text) (s : AuthState) (d : UserDriver Root)
      → (admit (some (new_driver net.parse_ip mount backend session)) a u ip s).0 ≡ ok d
      → (admit (some (new_driver net.parse_ip mount backend session)) a u ip s).2.events
        ≡ s.events ++ (connected_event net.parse_ip mount backend session u ip ∷ [])
  unfolding admit make_driver ftp_access_denied new_driver
  admit-connected a u ip s d h = elim (Result-cases (mount u.root_folder)) [
    | inl (root, fine) ↦ ground arith
    | inr (message, bad) ↦ absurd (ground arith)
  ]

  -- A login that gets a driver leaves two successful LOGIN events at the end of the trail: the one of
  -- Authenticate, and the one of NewDriver.
  auth_user-two_logins :
      (has_authenticator : Bool) (c : Connection) (user pass : Text) (s : AuthState)
      (d : UserDriver Root)
      → (auth_user net verify_password has_authenticator
          (some (new_driver net.parse_ip mount backend session))
          c
          user
          pass
          s).0
        ≡ ok d
      → (u : FtpUser) × (before : List Event) × ((auth_user net verify_password has_authenticator
            (some (new_driver net.parse_ip mount backend session))
            c
            user
            pass
            s).2.events
          ≡ before
            ++ (granted (ftp_attempt net c user pass)
                ∷ connected_event net.parse_ip mount backend session u
                    (client_ip_from_addr net c.remote_addr)
                ∷ []))
  unfolding auth_user
  auth_user-two_logins has_authenticator c user pass s d h =
      let a = ftp_attempt net c user pass in
      let ip = client_ip_from_addr net c.remote_addr in
      let s1 : AuthState = (authenticate verify_password s a).1 in
      let nd = new_driver net.parse_ip mount backend session in
      elim (Result-cases (authenticate verify_password s a).0) [
        | inr (f, bad) ↦ absurd (ground arith)
        | inl (u, good) ↦ elim (Bool-cases has_authenticator) [
          | inr no_auth ↦ absurd (ground arith)
          | inl has_auth ↦
              let (may, forgotten, last) = authenticate-ok verify_password s a u good in
              let (before, split) = last_event-split s1.events (granted a) last in
              let done = admit-connected a u ip s1 d (simp (has_auth, good) at h) in
              (
                u,
                before,
                simp (has_auth, good)
                    (done
                      ∙ ap
                          (λ l. l ++ (connected_event net.parse_ip mount backend session u ip ∷ []))
                          split
                      ∙ append_assoc before (granted a ∷ [])
                          (connected_event net.parse_ip mount backend session u ip ∷ [])),
              )
        ]
      ]
