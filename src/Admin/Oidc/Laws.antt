-- ===== src/Admin/Oidc/Laws.antt =====
-- Who is signed in by the callback of internal/admin/oidc_api.go, and with which role.
use cloud_file_server.Base.{
  ℕ, ◌+◌, ◌<◌, ◌≡◌, ◌∙◌, refl, ap, ◌≤◌, true, false, ◌||◌, List, [], ◌∷◌, ◌++◌, Option, none, some,
  ok, if◌then◌else◌, arith, Bool-cases, Option-cases, Result-cases, inl, inr, ◌⊎◌,
}
use cloud_file_server.Base.Dict.{lookup, insert, lookup-insert}
use cloud_file_server.Text.{text_beq_self, Text, ascii, text_beq, text_beq_iff, text_eq}
use cloud_file_server.Admin.Sessions.{
  SessionEntry, SessionManager, served, forbidden, issue, encode_to_string, authenticate,
  require_role,
}
use cloud_file_server.Admin.Sessions.Laws.{authenticate-lookup}
use cloud_file_server.Admin.Oidc.{
  OidcConfig, Claims, Provider, Callback, state_matches, role_of, username_of, OidcAuth, Site,
  verified_claims, entry_of, login_event, sign_in, admit, oidc_callback,
}
use cloud_file_server.Admin.Oidc.Roles.{
  has_group, role_by_groups, role_of-role_by_groups, role-admin,
}

module _ (P : Provider) where
  -- Why a callback was let in, and what it has done.
  pub record IsSignedIn (r : Callback) (random : Option (List ℕ)) (now : ℕ) (a a1 : Site P)
      : Type 0 where
    pub auth : OidcAuth P
    pub claims : Claims
    pub bytes : List ℕ
    pub configured : a.oidc ≡ some auth
    pub same_state : r.state_cookie ≡ some r.state
    pub has_state : text_beq r.state [] ≡ false
    pub verified : verified_claims P auth r.code ≡ ok claims
    pub has_name : text_beq (username_of claims) [] ≡ false
    pub has_role : text_beq (role_by_groups auth.cfg claims.groups) [] ≡ false
    pub drawn : random ≡ some bytes
    pub stored :
        a1.sessions
        ≡ (issue
            (entry_of P claims (role_by_groups auth.cfg claims.groups))
            (some bytes)
            now
            a.sessions).1
    pub logged :
        a1.events
        ≡ a.events
          ++ (login_event P (username_of claims) (role_by_groups auth.cfg claims.groups) r.client_ip
              ∷ [])

  state_matches-same :
      (r : Callback)
      → state_matches P r ≡ true
      → (r.state_cookie ≡ some r.state) × (text_beq r.state [] ≡ false)
  state_matches-same r h = elim (Option-cases r.state_cookie) [
    | inl missing ↦ absurd (ground arith)
    | inr (value, here) ↦ ground (arith, text_beq_iff value r.state)
  ]

  sign_in-outcome :
      (auth : OidcAuth P) (c : Claims) (role ip : Text) (random : Option (List ℕ)) (now : ℕ)
      (a : Site P)
      → ((bytes : List ℕ) × (random ≡ some bytes)
          × ((sign_in P auth c role ip random now a).0.status ≡ 302)
          × ((sign_in P auth c role ip random now a).1.sessions
              ≡ (issue (entry_of P c role) (some bytes) now a.sessions).1)
          × ((sign_in P auth c role ip random now a).1.events
              ≡ a.events ++ (login_event P (username_of c) role ip ∷ [])))
        ⊎ (((sign_in P auth c role ip random now a).1 ≡ a)
            × (400 ≤ (sign_in P auth c role ip random now a).0.status))
  unfolding sign_in issue
  sign_in-outcome auth c role ip none now a = inr (refl, omega arith)
  sign_in-outcome auth c role ip (some bytes) now a = inl (bytes, refl, refl, refl, refl)

  -- A callback either signs in the user of a verified ID token, with the role of its groups, the state
  -- of the request being that of the cookie, or answers an error and changes nothing.
  pub oidc_callback-IsSignedIn :
      (r : Callback) (random : Option (List ℕ)) (now : ℕ) (a : Site P)
      → (((oidc_callback P r random now a).0.status ≡ 302)
          × IsSignedIn r random now a (oidc_callback P r random now a).1)
        ⊎ (((oidc_callback P r random now a).1 ≡ a)
            × (400 ≤ (oidc_callback P r random now a).0.status))
  unfolding oidc_callback admit
  oidc_callback-IsSignedIn r random now a = elim (Option-cases a.oidc) [
    | inl off ↦ inr (ground arith)
    | inr (auth, on) ↦ elim (Bool-cases (state_matches P r)) [
      | inr differs ↦ inr (ground arith)
      | inl same ↦ elim (Result-cases (verified_claims P auth r.code)) [
        | inr (message, bad) ↦ inr (ground arith)
        | inl (c, good) ↦
            let role = role_of auth.cfg [] c.groups in
            let by = role_of-role_by_groups auth.cfg c.groups in
            elim (Bool-cases (text_beq (username_of c) [] || text_beq role [])) [
              | inl nobody ↦ inr (ground arith)
              | inr somebody ↦
                  let done : oidc_callback P r random now a
                      ≡ sign_in P auth c role r.client_ip random now a =
                    ground arith in
                  let (state, full) = state_matches-same r same in
                  elim (sign_in-outcome auth c (role_by_groups auth.cfg c.groups) r.client_ip random
                    now a) [
                      | inr (kept, failed) ↦ inr (rw (done, by) (kept, failed))
                      | inl (bytes, drawn, redirected, stored, logged) ↦ inl (
                          rw (done, by)
                            (
                              redirected,
                              record {
                                auth = auth;
                                claims = c;
                                bytes = bytes;
                                configured = on;
                                same_state = state;
                                has_state = full;
                                verified = good;
                                has_name = ground arith;
                                has_role = ground arith;
                                drawn = drawn;
                                stored = stored;
                                logged = logged;
                              },
                            ))
                    ]
            ]
      ]
    ]
  ]

  issued-require_role :
      (cfg : OidcConfig) (c : Claims) (bytes : List ℕ) (now t : ℕ) (m : SessionManager)
      → t < now + m.ttl
      → (require_role
          (ascii "admin")
          (authenticate
            (some (encode_to_string bytes))
            t
            (issue (entry_of P c (role_by_groups cfg c.groups)) (some bytes) now m).1).0)
        ≡ (if has_group cfg.admin_group c.groups
            then served (record (entry_of P c (ascii "admin")) { expires = t + m.ttl })
            else forbidden)
  unfolding issue require_role
  issued-require_role cfg c bytes now t m soon =
      let token = encode_to_string bytes in
      let entry : SessionEntry = record (entry_of P c (role_by_groups cfg c.groups)) {
        expires = now + m.ttl;
      } in
      let m1 : SessionManager = record m { sessions = insert token entry m.sessions } in
      let here : lookup token m1.sessions ≡ some entry =
        lookup-insert token token entry m.sessions ∙ (rw (text_beq_self token) refl) in
      let let_in : (authenticate (some token) t m1).0
          ≡ served (record entry { expires = t + m.ttl }) =
        authenticate-lookup token t m1 ∙ (rw (here) (ground arith)) in
      ap (require_role (ascii "admin")) let_in ∙ required (role-admin cfg c.groups)
    where
      required :
          text_beq (role_by_groups cfg c.groups) (ascii "admin")
            ≡ has_group cfg.admin_group c.groups
          → (if text_beq (role_by_groups cfg c.groups) (ascii "admin")
              then served
                  (record (entry_of P c (role_by_groups cfg c.groups)) { expires = t + m.ttl })
              else forbidden)
            ≡ (if has_group cfg.admin_group c.groups
                then served (record (entry_of P c (ascii "admin")) { expires = t + m.ttl })
                else forbidden)
      required e = elim (Bool-cases (has_group cfg.admin_group c.groups)) [
        | inl admin ↦ rw (e, admin) refl
        | inr other ↦ rw (e, other) refl
      ]

  -- After a callback that signed somebody in, a request with the new cookie before it expires is
  -- admitted to what asks for the role `admin` exactly if the groups of the ID token have the
  -- administrators'.
  pub oidc_callback-require_role :
      (r : Callback) (bytes : List ℕ) (now t : ℕ) (a : Site P) (auth : OidcAuth P) (c : Claims)
      → a.oidc ≡ some auth
      → verified_claims P auth r.code ≡ ok c
      → (oidc_callback P r (some bytes) now a).0.status ≡ 302
      → t < now + a.sessions.ttl
      → (require_role
          (ascii "admin")
          (authenticate
            (some (encode_to_string bytes))
            t
            (oidc_callback P r (some bytes) now a).1.sessions).0)
        ≡ (if has_group auth.cfg.admin_group c.groups
            then served (record (entry_of P c (ascii "admin")) { expires = t + a.sessions.ttl })
            else forbidden)
  oidc_callback-require_role r bytes now t a auth c on good done soon =
      elim (oidc_callback-IsSignedIn r (some bytes) now a) [
        | inr (kept, failed) ↦ absurd (omega (arith, done, failed))
        | inl (status, S) ↦
            let same_auth : S.auth ≡ auth = ground (arith, S.configured) in
            let same_claims : S.claims ≡ c = ground (arith, rw same_auth at S.verified) in
            let same_bytes : S.bytes ≡ bytes = ground (arith, S.drawn) in
            let stored = rw (same_auth, same_claims, same_bytes) at S.stored in
            rw (stored) (issued-require_role auth.cfg c bytes now t a.sessions soon)
      ]
