-- ===== src/Ftpserver/Sessions/Laws.antt =====
-- Lists of calls of the registry (internal/ftpserver/sessions.go), and its invariant.
use cloud_file_server.Base.{
  ℕ, nat_eq, ◌≡◌, refl, ◌<◌, true, false, not, List, [], ◌∷◌, Option, none, some, nat_beq_iff,
  arith, Option-cases, inl, inr,
}
use cloud_file_server.Base.Dict.{lookup, erase, lookup-insert, lookup-erase}
use cloud_file_server.Text.{Text}
use cloud_file_server.Ftpserver.Sessions.{
  Session, Registry, new_session_registry, is_closed, register, is_active, terminate, term_channel,
}

pub data Call : Type 0 where
  registered : ℕ → Text → Text → Call
  terminated : ℕ → Call
  watched : ℕ → Call

abbrev pub call : Call → Registry → Option Registry
call (registered id username client_ip) r = some (register id username client_ip r)
call (terminated id) r = terminate id r
call (watched id) r = some (term_channel id r).1

abbrev pub calls : List Call → Registry → Option Registry
calls [] r = some r
calls (k ∷ ks) r = elim (call k r) [ none ↦ none | some r1 ↦ calls ks r1 ]

-- The channel of an active session exists, is open, and is no other session's; every closed channel
-- exists.
pub record IsValid (r : Registry) : Type 0 where
  pub made : (id : ℕ) (s : Session) → lookup id r.sessions ≡ some s → s.term_ch < r.channels
  pub opened :
      (id : ℕ) (s : Session) → lookup id r.sessions ≡ some s → is_closed s.term_ch r ≡ false
  pub own :
      (i j : ℕ) (s t : Session)
      → lookup i r.sessions ≡ some s
      → lookup j r.sessions ≡ some t
      → s.term_ch ≡ t.term_ch
      → i ≡ j
  pub closed_made : (ch : ℕ) → is_closed ch r ≡ true → ch < r.channels

new_session_registry-IsValid : IsValid new_session_registry
unfolding new_session_registry lookup
new_session_registry-IsValid = record {
  made = λ id s h. absurd (ground arith);
  opened = λ id s h. absurd (ground arith);
  own = λ i j s t h k e. absurd (ground arith);
  closed_made = λ ch h. absurd (ground arith);
}

register-IsValid :
    (id : ℕ) (username client_ip : Text) (r : Registry)
    → IsValid r
    → IsValid (register id username client_ip r)
unfolding register
register-IsValid id username client_ip r v =
    let new : Session = record {
      username = username;
      client_ip = client_ip;
      term_ch = r.channels;
    } in
    record {
      made = λ j s h. ground (arith, lookup-insert id j new r.sessions, v.made j s);
      opened = λ j s h.
          ground (arith, lookup-insert id j new r.sessions, v.opened j s, v.closed_made r.channels);
      own = λ i j s t h k e. ground (
        arith,
        lookup-insert id i new r.sessions,
        lookup-insert id j new r.sessions,
        nat_beq_iff id i,
        nat_beq_iff id j,
        v.own i j s t,
        v.made i s,
        v.made j t,
      );
      closed_made = λ ch h. ground (arith, v.closed_made ch);
    }

term_channel-IsValid : (id : ℕ) (r : Registry) → IsValid r → IsValid (term_channel id r).1
unfolding term_channel
term_channel-IsValid id r v = elim (Option-cases (lookup id r.sessions)) [
  | inr (s, here) ↦ rw (here, term_channel) v
  | inl missing ↦
      rw (missing, term_channel)
        (record {
          made = λ j s h. ground (arith, v.made j s);
          opened =
              λ j s h. ground (arith, v.opened j s, v.made j s, nat_beq_iff s.term_ch r.channels);
          own = λ i j s t h k e. v.own i j s t h k e;
          closed_made = λ ch h. ground (arith, v.closed_made ch, nat_beq_iff ch r.channels);
        })
]

-- Of a valid registry, terminate does not panic, and what it leaves is valid.
terminate-IsValid :
    (id : ℕ) (r : Registry) → IsValid r → (r1 : Registry) × (terminate id r ≡ some r1) × IsValid r1
unfolding terminate
terminate-IsValid id r v = elim (Option-cases (lookup id r.sessions)) [
  | inl missing ↦ (r, ground arith, v)
  | inr (s, here) ↦ (
    record r { sessions = erase id r.sessions; closed = s.term_ch ∷ r.closed },
    ground (arith, v.opened id s),
    record {
      made = λ j t h. ground (arith, lookup-erase id j r.sessions, v.made j t);
      opened = λ j t h. ground (
        arith,
        lookup-erase id j r.sessions,
        nat_beq_iff id j,
        nat_beq_iff t.term_ch s.term_ch,
        v.own j id t s,
        v.opened j t,
      );
      own = λ i j t u h k e.
          ground (arith, lookup-erase id i r.sessions, lookup-erase id j r.sessions, v.own i j t u);
      closed_made = λ ch h. ground (arith, nat_beq_iff ch s.term_ch, v.closed_made ch, v.made id s);
    },
  )
]

calls-IsValid :
    (ks : List Call) (r : Registry)
    → IsValid r
    → (r1 : Registry) × (calls ks r ≡ some r1) × IsValid r1
calls-IsValid [] r v = (r, refl, v)
calls-IsValid (registered id username client_ip ∷ ks) r v =
    calls-IsValid ks (register id username client_ip r) (register-IsValid id username client_ip r v)
calls-IsValid (watched id ∷ ks) r v =
    calls-IsValid ks (term_channel id r).1 (term_channel-IsValid id r v)
calls-IsValid (terminated id ∷ ks) r v =
    let (r1, e, v1) = terminate-IsValid id r v in
    let (r2, e2, v2) = calls-IsValid ks r1 v1 in (r2, ground arith, v2)

-- No list of calls of a new registry panics, and in the registry that it ends in, a session is active
-- exactly if the channel that TermChannel then hands out for it is open.
pub calls-term_channel :
    (ks : List Call)
    → (r : Registry) × (calls ks new_session_registry ≡ some r)
      × ((id : ℕ) → is_closed (term_channel id r).0 (term_channel id r).1 ≡ not (is_active id r))
unfolding term_channel is_active
calls-term_channel ks =
    let (r, e, v) = calls-IsValid ks new_session_registry new_session_registry-IsValid in
    (
      r,
      e,
      λ id. elim (Option-cases (lookup id r.sessions)) [
        | inl missing ↦ ground (arith, nat_beq_iff r.channels r.channels)
        | inr (s, here) ↦ ground (arith, v.opened id s)
      ],
    )
