-- ===== src/Startup/Phases.antt =====
-- The order in which `run` of cmd/ftp-server/main.go may do what it does.
use cloud_file_server.Base.{
  ◌≡◌, refl, ◌∙◌, Bool, true, false, not, ◌&&◌, List, [], ◌∷◌, ◌++◌, Option, none, some, arith,
  Option-cases, sym, inl, inr, ◌⊎◌, if◌then◌else◌,
}
use cloud_file_server.Text.{Text}
use cloud_file_server.Startup.{
  Step, pool_opened, migrated, admin_user_created, seeded, logger_opened, storage_ready,
  ftp_started, sftp_started, admin_started, admin_shut_down, sftp_stopped, ftp_stopped,
  logger_closed, pool_closed, Failure, failed, Run, after, deferring, fails, check,
}

-- What is open, ready, or running.
pub record Phase : Type 0 where
  pub pool : Bool
  pub logger : Bool
  pub storage : Bool
  pub ftp : Bool
  pub sftp : Bool
  pub admin : Bool

abbrev pub idle : Phase
idle = record {
  pool = false;
  logger = false;
  storage = false;
  ftp = false;
  sftp = false;
  admin = false;
}

-- Whether everything that a server needs is there.
abbrev serves : Phase → Bool
serves p = p.pool && p.logger && p.storage

-- A step, where it is allowed: what it works on is open, and a server starts and stops only while everything
-- that it needs is there. The logger and the pool may be closed under a file server that runs, which is
-- what a run does that returns an error with a server up.
unfoldable pub advance : Step → Phase → Option Phase
advance pool_opened p = if p.pool then none else some (record p { pool = true })
advance migrated p = if p.pool then some p else none
advance (admin_user_created user hash) p = if p.pool then some p else none
advance seeded p = if p.pool then some p else none
advance logger_opened p = if p.pool && not p.logger then some (record p { logger = true }) else none
advance storage_ready p = if p.logger then some (record p { storage = true }) else none
advance ftp_started p = if serves p && not p.ftp then some (record p { ftp = true }) else none
advance sftp_started p = if serves p && not p.sftp then some (record p { sftp = true }) else none
advance admin_started p = if serves p && not p.admin then some (record p { admin = true }) else none
advance admin_shut_down p = if serves p && p.admin then some (record p { admin = false }) else none
advance sftp_stopped p =
    if serves p && p.sftp && not p.admin then some (record p { sftp = false }) else none
advance ftp_stopped p =
    if serves p && p.ftp && not p.sftp && not p.admin then some (record p { ftp = false }) else none
advance logger_closed p =
    if p.logger && not p.admin then some (record p { logger = false }) else none
advance pool_closed p = if p.pool && not p.logger then some (record p { pool = false }) else none

abbrev pub follow : List Step → Phase → Option Phase
follow [] p = some p
follow (s ∷ steps) p = elim (advance s p) [ none ↦ none | some q ↦ follow steps q ]

follow-cons :
    (s : Step) (steps : List Step) (p q : Phase)
    → advance s p ≡ some q
    → follow (s ∷ steps) p ≡ follow steps q
follow-cons s steps p q h = ground arith

follow-append :
    (xs ys : List Step) (p q : Phase) → follow xs p ≡ some q → follow (xs ++ ys) p ≡ follow ys q
follow-append [] ys p q h = ground arith
follow-append (s ∷ xs) ys p q h = elim (Option-cases (advance s p)) [
  | inl stuck ↦ absurd (ground arith)
  | inr (q1, e) ↦
      follow-cons s (xs ++ ys) p q1 e ∙ follow-append xs ys q1 q (sym (follow-cons s xs p q1 e) ∙ h)
]

-- A run from a phase takes allowed steps alone and ends with the pool and the logger as they were and the
-- API down; if it returns no error, both servers are down as well.
pub record Ends (p : Phase) (r : Run) : Type 0 where
  pub last : Phase
  pub followed : follow r.1 p ≡ some last
  pub pool : last.pool ≡ p.pool
  pub logger : last.logger ≡ p.logger
  pub admin : last.admin ≡ false
  pub quiet : ((e : Failure) × (r.0 ≡ some e)) ⊎ ((last.ftp ≡ false) × (last.sftp ≡ false))

-- A step that leaves the pool and the logger as they are.
pub Ends-after :
    (s : Step) (p q : Phase) (r : Run)
    → advance s p ≡ some q
    → q.pool ≡ p.pool
    → q.logger ≡ p.logger
    → Ends q r
    → Ends p (after s r)
Ends-after s p q r h pool logger E = record {
  last = E.last;
  followed = follow-cons s r.1 p q h ∙ E.followed;
  pool = E.pool ∙ pool;
  logger = E.logger ∙ logger;
  admin = E.admin;
  quiet = E.quiet;
}

pub Ends-fails : (what message : Text) (p : Phase) → p.admin ≡ false → Ends p (fails what message)
Ends-fails what message p h = record {
  last = p;
  followed = refl;
  pool = refl;
  logger = refl;
  admin = h;
  quiet = inl (failed (what ++ message), refl);
}

pub Ends-check :
    (e : Option Text) (what : Text) (r : Run) (p : Phase)
    → p.admin ≡ false
    → Ends p r
    → Ends p (check e what r)
Ends-check none what r p h E = E
Ends-check (some message) what r p h E = Ends-fails what message p h

pub Ends-if :
    (b : Bool) (p : Phase) (x y : Run)
    → (b ≡ true → Ends p x)
    → (b ≡ false → Ends p y)
    → Ends p (if b then x else y)
Ends-if true p x y h k = h refl
Ends-if false p x y h k = k refl

-- What is closed by `defer` was opened just before.
pub Ends-deferring :
    (opens closes : Step) (p q : Phase) (r : Run)
    → advance opens p ≡ some q
    → (E : Ends q r) → (z : Phase) → advance closes E.last ≡ some z
    → z.pool ≡ p.pool
    → z.logger ≡ p.logger
    → z.admin ≡ false
    → z.ftp ≡ E.last.ftp
    → z.sftp ≡ E.last.sftp
    → Ends p (after opens (deferring closes r))
Ends-deferring opens closes p q r h E z k pool logger admin ftp sftp = record {
  last = z;
  followed =
      follow-cons opens (r.1 ++ (closes ∷ [])) p q h
      ∙ follow-append r.1 (closes ∷ []) q E.last E.followed
      ∙ follow-cons closes [] E.last z k;
  pool = pool;
  logger = logger;
  admin = admin;
  quiet = elim E.quiet [ inl bad ↦ inl bad | inr (a, b) ↦ inr (ftp ∙ a, sftp ∙ b) ];
}

-- The pool is open, and the logger or not.
abbrev pub with : Bool → Phase
with logger = record idle { pool = true; logger = logger }

-- What runs while the servers do.
abbrev pub running : Bool → Bool → Bool → Phase
running ftp sftp admin = record {
  pool = true;
  logger = true;
  storage = true;
  ftp = ftp;
  sftp = sftp;
  admin = admin;
}
