-- ===== src/Auth/Lockout.antt =====
-- Lockout of internal/auth/auth.go. Instants are nanoseconds from a fixed origin; what
-- `time.Now()` reads is the argument `now`.
pub mod Laws
use cloud_file_server.Base.{
  ℕ, ◌+◌, Bool, List, [], ◌∷◌, ◌++◌, Option, none, some, ltb, if◌then◌else◌, length, select,
}
use cloud_file_server.Base.Dict.{Dict, lookup, insert, erase}
use cloud_file_server.Text.{Text, text_eq}

pub record Lockout : Type 0 where
  pub limit : ℕ
  pub window : ℕ
  pub failures : Dict Text (List ℕ)

-- `NewLockout`
unfoldable pub new_lockout : ℕ → ℕ → Lockout
new_lockout limit window = record { limit = limit; window = window; failures = [] }

-- `l.failures[user]`: a missing key reads as the nil slice.
unfoldable pub failures_of : Lockout → Text → List ℕ
failures_of l user = elim (lookup user l.failures) [ none ↦ [] | some times ↦ times ]

-- `t.After(now.Add(-window))`, without the subtraction.
abbrev pub is_recent : ℕ → ℕ → ℕ → Bool
is_recent window now t = ltb now (t + window)

unfoldable pub recent_failures : Lockout → Text → ℕ → List ℕ
unfolding failures_of
recent_failures l user now = select (is_recent l.window now) (failures_of l user)

-- `Allow` drops the failures that have left the window, and stores the rest.
unfoldable pub allow : Lockout → Text → ℕ → Bool × Lockout
unfolding recent_failures
allow l user now =
    let fs = recent_failures l user now in
    (ltb (length fs) l.limit, record l { failures = insert user fs l.failures })

unfoldable pub record_failure : Lockout → Text → ℕ → Lockout
unfolding failures_of
record_failure l user now = record l {
  failures = insert user (failures_of l user ++ (now ∷ [])) l.failures;
}

pub reset : Lockout → Text → Lockout
reset l user = record l { failures = erase user l.failures }
