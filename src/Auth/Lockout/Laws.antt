-- ===== src/Auth/Lockout/Laws.antt =====
-- What each operation does to the recent failures of every user.
use cloud_file_server.Base.{
  ℕ, ◌≤◌, ◌≡◌, refl, ◌∙◌, List, [], ◌∷◌, ◌++◌, ltb, if◌then◌else◌, length, select, select-append,
  arith, All, subst,
}
use cloud_file_server.Base.Dict.{lookup, lookup-insert, lookup-erase}
use cloud_file_server.Text.{Text, text_eq, text_beq, text_beq_iff}
use cloud_file_server.Auth.Lockout.{
  Lockout, failures_of, is_recent, recent_failures, allow, record_failure, reset, new_lockout,
}

pub failures_of-allow :
    (l : Lockout) (user other : Text) (now : ℕ)
    → failures_of (allow l user now).1 other
      ≡ (if text_beq user other then recent_failures l user now else failures_of l other)
unfolding allow failures_of
failures_of-allow l user other now =
    ground (arith, lookup-insert user other (recent_failures l user now) l.failures)

pub failures_of-record_failure :
    (l : Lockout) (user other : Text) (now : ℕ)
    → failures_of (record_failure l user now) other
      ≡ (if text_beq user other then failures_of l user ++ (now ∷ []) else failures_of l other)
unfolding record_failure failures_of
failures_of-record_failure l user other now =
    ground (arith, lookup-insert user other (failures_of l user ++ (now ∷ [])) l.failures)

pub failures_of-reset :
    (l : Lockout) (user other : Text)
    → failures_of (reset l user) other ≡ (if text_beq user other then [] else failures_of l other)
unfolding reset failures_of
failures_of-reset l user other = ground (arith, lookup-erase user other l.failures)

-- Filtering by a later instant after an earlier one is filtering by the later one.
select-is_recent :
    (window now later : ℕ) (ts : List ℕ)
    → now ≤ later
    → select (is_recent window later) (select (is_recent window now) ts)
      ≡ select (is_recent window later) ts
select-is_recent window now later [] h = refl
select-is_recent window now later (t ∷ ts) h =
    ground (arith, select-is_recent window now later ts h)

-- The calls that the server makes of a lockout: `Allow`, `RecordFailure` and `Reset`.
pub data Call : Type 0 where
  asked : Text → ℕ → Call
  failed : Text → ℕ → Call
  succeeded : Text → Call

abbrev apply : Lockout → Call → Lockout
apply l (asked user now) = (allow l user now).1
apply l (failed user now) = record_failure l user now
apply l (succeeded user) = reset l user

abbrev pub run : Lockout → List Call → Lockout
run l [] = l
run l (c ∷ calls) = run (apply l c) calls

-- The specification: the failures of a user since its last success, with none forgotten.
abbrev note : Text → List ℕ → Call → List ℕ
note user past (asked other now) = past
note user past (failed other now) = if text_beq other user then past ++ (now ∷ []) else past
note user past (succeeded other) = if text_beq other user then [] else past

abbrev pub since_success : Text → List ℕ → List Call → List ℕ
since_success user past [] = past
since_success user past (c ∷ calls) = since_success user (note user past c) calls

-- The clock did not run back: no `Allow` was asked later than `now`.
abbrev AskedBefore : ℕ → Call → Type 0
AskedBefore now (asked user t) = t ≤ now
AskedBefore now _ = Unit

-- The window and limit never change.
apply-limit : (l : Lockout) (c : Call) → (apply l c).limit ≡ l.limit
unfolding allow record_failure reset
apply-limit l (asked user now) = refl
apply-limit l (failed user now) = refl
apply-limit l (succeeded user) = refl

apply-window : (l : Lockout) (c : Call) → (apply l c).window ≡ l.window
unfolding allow record_failure reset
apply-window l (asked user now) = refl
apply-window l (failed user now) = refl
apply-window l (succeeded user) = refl

run-limit : (l : Lockout) (calls : List Call) → (run l calls).limit ≡ l.limit
run-limit l [] = refl
run-limit l (c ∷ calls) = run-limit (apply l c) calls ∙ apply-limit l c

module _ (user : Text) (now : ℕ) where
  abbrev Agree : ℕ → List ℕ → List ℕ → Type 0
  Agree window xs ys = select (is_recent window now) xs ≡ select (is_recent window now) ys

  Agree-note :
      (l : Lockout) (past : List ℕ) (c : Call)
      → AskedBefore now c
      → Agree l.window (failures_of l user) past
      → Agree l.window (failures_of (apply l c) user) (note user past c)
  unfolding recent_failures
  Agree-note l past (asked other t) h agree = ground (
    arith,
    failures_of-allow l other user t,
    select-is_recent l.window t now (failures_of l other) h,
    text_beq_iff other user,
  )
  Agree-note l past (failed other t) h agree = ground (
    arith,
    failures_of-record_failure l other user t,
    select-append (is_recent l.window now) (failures_of l user) (t ∷ []),
    select-append (is_recent l.window now) past (t ∷ []),
    text_beq_iff other user,
  )
  Agree-note l past (succeeded other) h agree = ground (arith, failures_of-reset l other user)

  Agree-run :
      (l : Lockout) (past : List ℕ) (calls : List Call)
      → All (AskedBefore now) calls
      → Agree l.window (failures_of l user) past
      → Agree l.window (failures_of (run l calls) user) (since_success user past calls)
  Agree-run l past [] h agree = agree
  Agree-run l past (c ∷ calls) (before, h) agree =
      subst
        (λ w.
          Agree w (failures_of (run (apply l c) calls) user)
            (since_success user (note user past c) calls))
        (apply-window l c)
        (Agree-run (apply l c) (note user past c) calls h
          (rw (apply-window l c) (Agree-note l past c before agree)))

run-window : (l : Lockout) (calls : List Call) → (run l calls).window ≡ l.window
run-window l [] = refl
run-window l (c ∷ calls) = run-window (apply l c) calls ∙ apply-window l c

-- Whatever calls were made of a new lockout, `Allow` at the present moment lets a user in exactly
-- if fewer than `limit` of its failures since its last success lie inside the window. So other
-- users' calls never matter, and what `Allow` drops is never missed.
pub allow_iff_few_failures :
    (limit window : ℕ) (calls : List Call) (user : Text) (now : ℕ)
    → All (AskedBefore now) calls
    → (allow (run (new_lockout limit window) calls) user now).0
      ≡ ltb (length (select (is_recent window now) (since_success user [] calls))) limit
unfolding allow recent_failures new_lockout failures_of lookup
allow_iff_few_failures limit window calls user now h =
    let l = new_lockout limit window in
    ground (arith, run-limit l calls, run-window l calls, Agree-run user now l [] calls h refl)
