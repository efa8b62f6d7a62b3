-- ===== src/Admin/Sessions/Laws.antt =====
-- Traces of a session manager, seen from one token.
use cloud_file_server.Base.{
  ℕ, ◌+◌, ◌≡◌, refl, ap, ◌∙◌, Bool, true, false, not, List, [], ◌∷◌, Option, none, some,
  if◌then◌else◌, ltb, arith, ◌<◌, Bool-cases, Option-cases, inl, inr,
}
use cloud_file_server.Base.Dict.{lookup, erase, lookup-insert, lookup-erase}
use cloud_file_server.Text.{text_beq_self, Text, text_beq, text_beq_iff, text_eq}
use cloud_file_server.Admin.Sessions.{
  SessionEntry, SessionManager, encode_to_string, issue, revoke, unauthorized, served, authenticate,
  require_role,
}

-- A sign-in, a sign-out, and a request with a cookie, each at its time.
pub data Call : Type 0 where
  issued : SessionEntry → List ℕ → ℕ → Call
  revoked : Text → Call
  asked : Text → ℕ → Call

abbrev pub call : Call → SessionManager → SessionManager
call (issued entry bytes now) m = (issue entry (some bytes) now m).1
call (revoked token) m = revoke token m
call (asked token now) m = (authenticate (some token) now m).1

abbrev pub calls : List Call → SessionManager → SessionManager
calls [] m = m
calls (k ∷ ks) m = calls ks (call k m)

-- The session of one token: a function of the calls that name the token.
abbrev pub follow : Text → ℕ → Call → Option SessionEntry → Option SessionEntry
follow token ttl (issued entry bytes now) held =
    if text_beq (encode_to_string bytes) token
    then some (record entry { expires = now + ttl })
    else held
follow token ttl (revoked other) held = if text_beq other token then none else held
follow token ttl (asked other now) held = if not (text_beq other token) then held else elim held [
  | none ↦ none
  | some entry ↦
      some (if ltb now entry.expires then record entry { expires = now + ttl } else entry)
]

abbrev follow_all : Text → ℕ → List Call → Option SessionEntry → Option SessionEntry
follow_all token ttl [] held = held
follow_all token ttl (k ∷ ks) held = follow_all token ttl ks (follow token ttl k held)

call-ttl : (k : Call) (m : SessionManager) → (call k m).ttl ≡ m.ttl
unfolding issue revoke authenticate
call-ttl (issued entry bytes now) m = refl
call-ttl (revoked token) m = refl
call-ttl (asked token now) m = ground arith

call-follow :
    (token : Text) (k : Call) (m : SessionManager)
    → lookup token (call k m).sessions ≡ follow token m.ttl k (lookup token m.sessions)
unfolding issue revoke authenticate
call-follow token (issued entry bytes now) m =
    lookup-insert (encode_to_string bytes) token (record entry { expires = now + m.ttl }) m.sessions
call-follow token (revoked other) m = lookup-erase other token m.sessions
call-follow token (asked other now) m = elim (Option-cases (lookup other m.sessions)) [
  | inl missing ↦ ground (arith, text_beq_iff other token)
  | inr (entry, here) ↦ ground (
    arith,
    text_beq_iff other token,
    lookup-insert other token (record entry { expires = now + m.ttl }) (erase other m.sessions),
    lookup-erase other token m.sessions,
  )
]

-- After any calls, the session of a token is what the calls on that token alone make of it: no
-- sign-in, sign-out or request under another token changes, prolongs or ends it.
calls-follow_all :
    (token : Text) (ks : List Call) (m : SessionManager)
    → lookup token (calls ks m).sessions ≡ follow_all token m.ttl ks (lookup token m.sessions)
calls-follow_all token [] m = refl
calls-follow_all token (k ∷ ks) m =
    calls-follow_all token ks (call k m)
    ∙ ap (λ t. follow_all token t ks (lookup token (call k m).sessions)) (call-ttl k m)
    ∙ ap (follow_all token m.ttl ks) (call-follow token k m)

-- No call of the list signs in with this token.
abbrev is_issued : Text → List Call → Bool
is_issued token [] = false
is_issued token (issued entry bytes now ∷ ks) =
    if text_beq (encode_to_string bytes) token then true else is_issued token ks
is_issued token (revoked other ∷ ks) = is_issued token ks
is_issued token (asked other now ∷ ks) = is_issued token ks

follow_all-none :
    (token : Text) (ttl : ℕ) (ks : List Call)
    → is_issued token ks ≡ false
    → follow_all token ttl ks none ≡ none
follow_all-none token ttl [] h = refl
follow_all-none token ttl (issued entry bytes now ∷ ks) h =
    elim (Bool-cases (text_beq (encode_to_string bytes) token)) [
      | inl same ↦ absurd (ground arith)
      | inr other ↦ rw (other) (follow_all-none token ttl ks (ground arith))
    ]
follow_all-none token ttl (revoked other ∷ ks) h = elim (Bool-cases (text_beq other token)) [
  | inl same ↦ rw (same) (follow_all-none token ttl ks h)
  | inr differs ↦ rw (differs) (follow_all-none token ttl ks h)
]
follow_all-none token ttl (asked other now ∷ ks) h = elim (Bool-cases (text_beq other token)) [
  | inl same ↦ rw (same) (follow_all-none token ttl ks h)
  | inr differs ↦ rw (differs) (follow_all-none token ttl ks h)
]

pub authenticate-lookup :
    (token : Text) (now : ℕ) (m : SessionManager)
    → (authenticate (some token) now m).0 ≡ elim (lookup token m.sessions) [
      | none ↦ unauthorized
      | some entry ↦
          if ltb now entry.expires
          then served (record entry { expires = now + m.ttl })
          else unauthorized
    ]
unfolding authenticate
authenticate-lookup token now m = ground arith

-- After a sign-out, a request with the token is refused at every later time, whatever other calls come
-- between, until a sign-in gives out the same token again.
pub authenticate-revoked :
    (token : Text) (ks : List Call) (now : ℕ) (m : SessionManager)
    → is_issued token ks ≡ false
    → (authenticate (some token) now (calls ks (revoke token m))).0 ≡ unauthorized
authenticate-revoked token ks now m h =
    let gone : lookup token (calls ks (revoke token m)).sessions ≡ none =
      calls-follow_all token (revoked token ∷ ks) m
      ∙ (rw (text_beq_self token) (follow_all-none token m.ttl ks h)) in
    authenticate-lookup token now (calls ks (revoke token m)) ∙ (simp gone)

-- Each of some times is less than `ttl` after the one before.
abbrev in_time : ℕ → ℕ → List ℕ → Bool
in_time ttl last [] = true
in_time ttl last (t ∷ ts) = if ltb t (last + ttl) then in_time ttl t ts else false

abbrev pub ask_all : Text → List ℕ → List Call
ask_all token [] = []
ask_all token (t ∷ ts) = asked token t ∷ ask_all token ts

abbrev last_of : ℕ → List ℕ → ℕ
last_of t [] = t
last_of t (u ∷ ts) = last_of u ts

follow_all-ask_all :
    (token : Text) (ttl last : ℕ) (entry : SessionEntry) (ts : List ℕ)
    → in_time ttl last ts ≡ true
    → follow_all token ttl (ask_all token ts) (some (record entry { expires = last + ttl }))
      ≡ some (record entry { expires = last_of last ts + ttl })
follow_all-ask_all token ttl last entry [] h = refl
follow_all-ask_all token ttl last entry (t ∷ ts) h = elim (Bool-cases (ltb t (last + ttl))) [
  | inr late ↦ absurd (ground arith)
  | inl early ↦
      let step : follow token ttl (asked token t) (some (record entry { expires = last + ttl }))
          ≡ some (record entry { expires = t + ttl }) =
        ground (arith, text_beq_self token) in
      ap (follow_all token ttl (ask_all token ts)) step
      ∙ follow_all-ask_all token ttl t entry ts (ground arith)
]

-- A session that is in use stays: after a sign-in at `t0` and requests with its token, each less
-- than `ttl` after the one before, one more such request is served with the entry of the sign-in and
-- an expiry `ttl` after it.
pub authenticate-in_use :
    (entry : SessionEntry) (bytes : List ℕ) (t0 : ℕ) (ts : List ℕ) (now : ℕ) (m : SessionManager)
    → in_time m.ttl t0 ts ≡ true
    → now < last_of t0 ts + m.ttl
    → (authenticate
        (some (encode_to_string bytes))
        now
        (calls (issued entry bytes t0 ∷ ask_all (encode_to_string bytes) ts) m)).0
      ≡ served (record entry { expires = now + m.ttl })
authenticate-in_use entry bytes t0 ts now m h soon =
    let token = encode_to_string bytes in
    let m1 : SessionManager = calls (issued entry bytes t0 ∷ ask_all token ts) m in
    let first : follow token m.ttl (issued entry bytes t0) (lookup token m.sessions)
        ≡ some (record entry { expires = t0 + m.ttl }) =
      ground (arith, text_beq_self token) in
    let held : lookup token m1.sessions ≡ some (record entry { expires = last_of t0 ts + m.ttl }) =
      calls-follow_all token (issued entry bytes t0 ∷ ask_all token ts) m
      ∙ ap (follow_all token m.ttl (ask_all token ts)) first
      ∙ follow_all-ask_all token m.ttl t0 entry ts h in
    let same : m1.ttl ≡ m.ttl = calls-ttl (issued entry bytes t0 ∷ ask_all token ts) m in
    authenticate-lookup token now m1 ∙ (simp (held, same) (ground arith))
  where
    calls-ttl : (ks : List Call) (m : SessionManager) → (calls ks m).ttl ≡ m.ttl
    calls-ttl [] m = refl
    calls-ttl (k ∷ ks) m = calls-ttl ks (call k m) ∙ call-ttl k m

-- What reaches a handler behind RequireRole is the entry of the request's own session, which has not
-- expired and has that role.
pub require_role-served :
    (role : Text) (token : Text) (now : ℕ) (m : SessionManager) (entry : SessionEntry)
    → require_role role (authenticate (some token) now m).0 ≡ served entry
    → (held : SessionEntry) × ((lookup token m.sessions ≡ some held)
        × (now < held.expires)
        × (entry.role ≡ role)
        × (entry ≡ record held { expires = now + m.ttl }))
unfolding require_role
require_role-served role token now m entry h = elim (Option-cases (lookup token m.sessions)) [
  | inl missing ↦ absurd (ground (arith, authenticate-lookup token now m))
  | inr (held, here) ↦ elim (Bool-cases (ltb now held.expires)) [
    | inr late ↦ absurd (ground (arith, authenticate-lookup token now m))
    | inl early ↦ (
      held,
      (
        here,
        ground arith,
        ground (arith, authenticate-lookup token now m, text_beq_iff held.role role),
        ground (arith, authenticate-lookup token now m),
      ),
    )
  ]
]
