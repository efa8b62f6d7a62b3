-- ===== src/Core/Authenticator/BruteForce.antt =====
-- Guessing passwords: lists of attempts on internal/core/authenticator.go.
use cloud_file_server.Base.{
  ℕ, ◌+◌, ◌≤◌, ◌<◌, ◌≡◌, refl, ◌∙◌, ◌⊎◌, inl, inr, Bool, true, false, List, [], ◌∷◌, ◌++◌, some,
  err, Result-cases, if◌then◌else◌, arith, length, length-append, ltb, All, All-append, select,
  subst,
}
use cloud_file_server.Text.{Text, text_beq_iff}
use cloud_file_server.Auth.Lockout.{
  Lockout, allow, record_failure, failures_of, recent_failures, is_recent,
}
use cloud_file_server.Auth.Lockout.Laws.{failures_of-allow, failures_of-record_failure}
use cloud_file_server.Db.{FtpUser, has_name, find_where, get_ftp_user_by_username}
use cloud_file_server.Db.Laws.{get_by_username-ok, get_by_username-rows}
use cloud_file_server.Core.Authenticator.{AuthState, Attempt, login_failed, authenticate}

module _ (verify_password : Text → Text → Bool) where
  -- The state after a list of attempts.
  abbrev pub attempts : AuthState → List Attempt → AuthState
  attempts s [] = s
  attempts s (a ∷ more) = attempts (authenticate verify_password s a).1 more

  -- The account, if there is one, is enabled and has another password.
  abbrev pub HasWrongPassword : List FtpUser → Attempt → Type 0
  HasWrongPassword rows a =
      (u : FtpUser)
      → find_where (has_name a.user) rows ≡ some u
      → (u.enabled ≡ true) × (verify_password u.password_hash a.pass ≡ false)

  -- A guess at an enabled account, or at a name that is no account, with a wrong password; at the
  -- moment `now` it still lies in the window.
  pub record IsWrongGuess (rows : List FtpUser) (user : Text) (window now : ℕ) (a : Attempt)
      : Type 0 where
    pub same_user : a.user ≡ user
    pub asked_before : a.asked_at ≤ now
    pub in_window : now < a.failed_at + window
    pub wrong : HasWrongPassword rows a

  module _ (s : AuthState) (a : Attempt) where
    let_in : Bool
    let_in = (allow s.lockout a.user a.asked_at).0

    asked_lockout : Lockout
    asked_lockout = (allow s.lockout a.user a.asked_at).1

    authenticate-rows :
        (authenticate verify_password s a).0 ≡ err login_failed
        → (authenticate verify_password s a).1.db.rows ≡ s.db.rows
    unfolding authenticate
    authenticate-rows h = ground (arith, get_by_username-rows a.user s.db)

    module _ (wrong : HasWrongPassword s.db.rows a) where
      -- A wrong guess is refused, and recorded if the lockout let it through.
      wrong_guess :
          ((authenticate verify_password s a).0 ≡ err login_failed)
          × ((authenticate verify_password s a).1.lockout
              ≡ (if let_in then record_failure asked_lockout a.user a.failed_at else asked_lockout))
      unfolding authenticate let_in asked_lockout
      wrong_guess = elim (Result-cases (get_ftp_user_by_username a.user s.db).0) [
        | inl (u, e) ↦
            let (active, bad) = wrong u (get_by_username-ok a.user s.db u e) in
            (ground arith, ground arith)
        | inr (f, e) ↦ (ground arith, ground arith)
      ]

      wrong_guess-failures : failures_of (authenticate verify_password s a).1.lockout a.user ≡ (
          if let_in
          then recent_failures s.lockout a.user a.asked_at ++ (a.failed_at ∷ [])
          else recent_failures s.lockout a.user a.asked_at)
      unfolding let_in asked_lockout
      wrong_guess-failures = rw (wrong_guess.1) (
          ground (
            arith,
            failures_of-allow s.lockout a.user a.user a.asked_at,
            failures_of-record_failure asked_lockout a.user a.user a.failed_at,
            text_beq_iff a.user a.user,
          ))

      wrong_guess-bounds :
          ((authenticate verify_password s a).1.lockout.limit ≡ s.lockout.limit)
          × ((authenticate verify_password s a).1.lockout.window ≡ s.lockout.window)
      unfolding let_in asked_lockout allow record_failure
      wrong_guess-bounds = rw wrong_guess.1 (ground arith)

select-is_recent-All :
    (window now earlier : ℕ) (ts : List ℕ)
    → earlier ≤ now
    → All (λ t. now < t + window) ts
    → select (is_recent window earlier) ts ≡ ts
select-is_recent-All window now earlier [] h k = refl
select-is_recent-All window now earlier (t ∷ ts) h k =
    ground (arith, select-is_recent-All window now earlier ts h k.1)

All-recent_if :
    (b : Bool) (ts : List ℕ) (window now t : ℕ)
    → All (λ x. now < x + window) ts
    → now < t + window
    → All (λ x. now < x + window) (if b then ts ++ (t ∷ []) else ts)
All-recent_if true ts window now t h k = All-append (λ x. now < x + window) ts (t ∷ []) h (k, tt)
All-recent_if false ts window now t h k = h

enough_if :
    (n limit : ℕ) (ts : List ℕ) (t : ℕ)
    → (n ≤ length ts) ⊎ (limit ≤ length ts)
    → (n + 1 ≤ length (if ltb (length ts) limit then ts ++ (t ∷ []) else ts))
      ⊎ (limit ≤ length (if ltb (length ts) limit then ts ++ (t ∷ []) else ts))
enough_if n limit ts t h = ground (arith, length-append ts (t ∷ []))

module _ (verify_password : Text → Text → Bool) (user : Text) (rows : List FtpUser) (now : ℕ) where
  -- After `n` wrong guesses.
  record Tried (s : AuthState) (limit window n : ℕ) : Type 0 where
    rows_kept : s.db.rows ≡ rows
    limit_kept : s.lockout.limit ≡ limit
    window_kept : s.lockout.window ≡ window
    all_recent : All (λ t. now < t + window) (failures_of s.lockout user)
    enough :
        (n ≤ length (failures_of s.lockout user)) ⊎ (limit ≤ length (failures_of s.lockout user))

  module _ (s : AuthState) (limit window n : ℕ) (a : Attempt)
      (guess : IsWrongGuess verify_password rows user window now a)
      (t : Tried s limit window n) where
    failures : List ℕ
    failures = failures_of s.lockout user

    still_wrong : HasWrongPassword verify_password s.db.rows a
    still_wrong = rw t.rows_kept guess.wrong

    none_expired : recent_failures s.lockout a.user a.asked_at ≡ failures
    unfolding failures recent_failures
    none_expired =
        rw (guess.same_user, t.window_kept)
          (select-is_recent-All window now a.asked_at (failures_of s.lockout user)
            guess.asked_before t.all_recent)

    failures_after :
        failures_of (authenticate verify_password s a).1.lockout user
        ≡ (if ltb (length failures) limit then failures ++ (a.failed_at ∷ []) else failures)
    unfolding allow let_in
    failures_after = ground (
      arith,
      wrong_guess-failures verify_password s a still_wrong,
      none_expired,
      guess.same_user,
      t.limit_kept,
    )

    Tried-guess : Tried (authenticate verify_password s a).1 limit window (n + 1)
    Tried-guess = record {
      rows_kept =
          authenticate-rows verify_password s a (wrong_guess verify_password s a still_wrong).0
          ∙ t.rows_kept;
      limit_kept = (wrong_guess-bounds verify_password s a still_wrong).0 ∙ t.limit_kept;
      window_kept = (wrong_guess-bounds verify_password s a still_wrong).1 ∙ t.window_kept;
      all_recent = rw failures_after (
          All-recent_if (ltb (length failures) limit) failures window now a.failed_at
            (unfold failures in t.all_recent) guess.in_window);
      enough =
          rw failures_after (enough_if n limit failures a.failed_at (unfold failures in t.enough));
    }

  Tried-attempts :
      (s : AuthState) (limit window n : ℕ) (guesses : List Attempt)
      → All (IsWrongGuess verify_password rows user window now) guesses
      → Tried s limit window n
      → Tried (attempts verify_password s guesses) limit window (length guesses + n)
  Tried-attempts s limit window n [] h t = subst (Tried s limit window) (omega arith) t
  Tried-attempts s limit window n (a ∷ guesses) (guess, h) t =
      subst (Tried (attempts verify_password s (a ∷ guesses)) limit window) (omega arith) (
        Tried-attempts (authenticate verify_password s a).1 limit window (n + 1) guesses h
          (Tried-guess s limit window n a guess t))

  Tried-locked :
      (s : AuthState) (limit window n : ℕ)
      → Tried s limit window n
      → limit ≤ n
      → s.lockout.limit ≤ length (recent_failures s.lockout user now)
  unfolding recent_failures
  Tried-locked s limit window n t h =
      rw
        (
          t.limit_kept,
          t.window_kept,
          select-is_recent-All window now now _ (omega arith) t.all_recent,
        )
        (elim t.enough [ inl e ↦ omega arith | inr e ↦ e ])

module _ (verify_password : Text → Text → Bool) where
  locked :
      (s : AuthState) (a : Attempt)
      → s.lockout.limit ≤ length (recent_failures s.lockout a.user a.asked_at)
      → (authenticate verify_password s a).0 ≡ err login_failed
  unfolding authenticate allow
  locked s a h = ground arith

  -- From a state in which a user has no failures on record, make `limit` or more attempts under its
  -- name, all with wrong passwords, all asked by `now` and still inside the window at `now`, while
  -- its account, if there is one, is enabled. Then any attempt at `now` is refused, whatever the
  -- password, also when the database failed some of the lookups.
  pub authenticate-attempts_locked :
      (s : AuthState) (guesses : List Attempt) (a : Attempt)
      → failures_of s.lockout a.user ≡ []
      → All (IsWrongGuess verify_password s.db.rows a.user s.lockout.window a.asked_at) guesses
      → s.lockout.limit ≤ length guesses
      → (authenticate verify_password (attempts verify_password s guesses) a).0 ≡ err login_failed
  authenticate-attempts_locked s guesses a fresh h enough =
      let l = s.lockout in
      let start : Tried verify_password a.user s.db.rows a.asked_at s l.limit l.window 0 = record {
        rows_kept = refl;
        limit_kept = refl;
        window_kept = refl;
        all_recent = rw fresh tt;
        enough = inl (omega arith);
      } in
      let t =
        Tried-attempts verify_password a.user s.db.rows a.asked_at s l.limit l.window 0 guesses h
          start in
      locked (attempts verify_password s guesses) a (
        Tried-locked verify_password a.user s.db.rows a.asked_at _ l.limit l.window (length guesses)
          (subst (Tried verify_password a.user s.db.rows a.asked_at _ l.limit l.window)
            (omega arith) t)
          enough)
