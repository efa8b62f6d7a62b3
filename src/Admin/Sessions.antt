-- ===== src/Admin/Sessions.antt =====
-- SessionManager of internal/admin/middleware.go, and RequireRole. A time is an instant in
-- nanoseconds; the 32 bytes that `rand.Read` gives, or its failure, are an argument.
use cloud_file_server.Base.{
  ℕ, ◌+◌, ◌*◌, ◌/◌, ◌%◌, ◌≡◌, refl, ap, sym, ◌∙◌, Bool, true, false, not, List, [], ◌∷◌, ◌++◌,
  Option, none, some, if◌then◌else◌, ltb, arith, ◌<◌, ◌≤◌, Bool-cases, Option-cases, inl, inr,
}
use cloud_file_server.Base.Dict.{Dict, lookup, insert, erase}
use cloud_file_server.Text.{Text, text_beq, text_beq_iff, text_eq}
pub mod Laws

-- `sessionEntry`
pub record SessionEntry : Type 0 where
  pub username : Text
  pub role : Text
  pub auth_method : Text
  pub email : Text
  pub first_name : Text
  pub last_name : Text
  pub expires : ℕ

pub record SessionManager : Type 0 where
  pub ttl : ℕ
  pub cookie_secure : Bool
  pub sessions : Dict Text SessionEntry

-- What the manager sets of a cookie; its name, path, HttpOnly and SameSite never change.
pub record Cookie : Type 0 where
  pub value : Text
  pub secure : Bool
  pub deletes : Bool

-- `NewSessionManager`
unfoldable pub new_session_manager : ℕ → Bool → SessionManager
new_session_manager ttl cookie_secure = record {
  ttl = ttl;
  cookie_secure = cookie_secure;
  sessions = [];
}

hex_digit : ℕ → ℕ
hex_digit n = if ltb n 10 then 48 + n else 87 + n

-- `hex.EncodeToString`
unfoldable pub encode_to_string : List ℕ → Text
unfolding hex_digit
encode_to_string [] = []
encode_to_string (b ∷ bytes) = hex_digit (b / 16) ∷ hex_digit (b % 16) ∷ encode_to_string bytes

-- `Issue`, for an entry that has no expiry yet.
unfoldable pub issue :
    SessionEntry → Option (List ℕ) → ℕ → SessionManager → Option Cookie × SessionManager
unfolding insert encode_to_string
issue entry none now m = (none, m)
issue entry (some bytes) now m =
    let tok = encode_to_string bytes in
    (
      some (record { value = tok; secure = m.cookie_secure; deletes = false }),
      record m { sessions = insert tok (record entry { expires = now + m.ttl }) m.sessions },
    )

-- `Revoke`
unfoldable pub revoke : Text → SessionManager → SessionManager
unfolding erase
revoke token m = record m { sessions = erase token m.sessions }

-- `ClearCookie`
unfoldable pub clear_cookie : SessionManager → Cookie
clear_cookie m = record { value = []; secure = m.cookie_secure; deletes = true }

-- How a request comes out: 401, 403, or handled, with the entry that the context carries.
pub data Outcome : Type 0 where
  unauthorized : Outcome
  forbidden : Outcome
  served : SessionEntry → Outcome

-- `Authenticate`, for the request's cookie, if it has one.
unfoldable pub authenticate : Option Text → ℕ → SessionManager → Outcome × SessionManager
unfolding lookup insert erase
authenticate none now m = (unauthorized, m)
authenticate (some value) now m = elim (lookup value m.sessions) [
  | none ↦ (unauthorized, m)
  | some entry ↦
      if ltb now entry.expires
      then (let entry1 : SessionEntry = record entry { expires = now + m.ttl } in
          (served entry1, record m { sessions = insert value entry1 (erase value m.sessions) }))
      else (unauthorized, m)
]

-- `RequireRole`, around what Authenticate lets through.
unfoldable pub require_role : Text → Outcome → Outcome
require_role role (served entry) = if text_beq entry.role role then served entry else forbidden
require_role role unauthorized = unauthorized
require_role role forbidden = forbidden
