-- ===== src/Ftpserver/Sessions.antt =====
-- SessionRegistry of internal/ftpserver/sessions.go. The channels that it makes are numbered, and a
-- channel is closed or not; to close one twice is a panic, `none`. A UUID is a number, which the
-- caller of `register` gives.
pub mod Laws
use mathlib.Core.List.{map}
use cloud_file_server.Base.{
  ℕ, nat_eq, ◌+◌, Bool, true, false, not, ◌&&◌, List, [], ◌∷◌, Option, none, some, if◌then◌else◌,
  nat_beq, any, select, length,
}
use cloud_file_server.Base.Dict.{Dict, lookup, insert, erase}
use cloud_file_server.Text.{Text, text_beq}

pub record Session : Type 0 where
  pub username : Text
  pub client_ip : Text
  pub term_ch : ℕ

pub record Registry : Type 0 where
  pub sessions : Dict ℕ Session
  -- The number of channels made so far, and the closed ones among them.
  pub channels : ℕ
  pub closed : List ℕ

pub new_session_registry : Registry
new_session_registry = record { sessions = []; channels = 0; closed = [] }

abbrev pub is_closed : ℕ → Registry → Bool
is_closed ch r = any (nat_beq ch) r.closed

pub register : ℕ → Text → Text → Registry → Registry
unfolding insert
register id username client_ip r =
    let s : Session = record { username = username; client_ip = client_ip; term_ch = r.channels } in
    record r { sessions = insert id s r.sessions; channels = r.channels + 1 }

pub is_active : ℕ → Registry → Bool
unfolding lookup
is_active id r = elim (lookup id r.sessions) [ none ↦ false | some s ↦ true ]

pub terminate : ℕ → Registry → Option Registry
unfolding lookup erase
terminate id r = elim (lookup id r.sessions) [
  | none ↦ some r
  | some s ↦
      if is_closed s.term_ch r
      then none
      else some (record r { sessions = erase id r.sessions; closed = s.term_ch ∷ r.closed })
]

-- `TermChannel`, which makes a closed channel for an unknown session.
pub term_channel : ℕ → Registry → ℕ × Registry
unfolding lookup
term_channel id r = elim (lookup id r.sessions) [
  | some s ↦ (s.term_ch, r)
  | none ↦ (r.channels, record r { channels = r.channels + 1; closed = r.channels ∷ r.closed })
]

active_for : Text → Registry → List ℕ
active_for username r =
    map (λ (e : ℕ × Session). e.0)
      (select (λ (e : ℕ × Session). text_beq e.1.username username) r.sessions)

unfoldable active_count : Text → Registry → ℕ
unfolding active_for
active_count username r = length (active_for username r)
