-- ===== src/Admin/Routes/Guarded.antt =====
-- Who may change a user through the routes of internal/admin/api.go.
use cloud_file_server.Base.{
  ℕ, ◌<◌, ◌≡◌, refl, sym, ap, ◌∙◌, Option, none, some, Result, ok, err, arith, inl, inr, ◌⊎◌,
}
use cloud_file_server.Base.Dict.{lookup}
use cloud_file_server.Text.{Text, ascii, text_eq}
use cloud_file_server.Auth.Password.{Unicode}
use cloud_file_server.Cos.{Cloud}
use cloud_file_server.Admin.Sessions.{
  SessionEntry, SessionManager, Outcome, unauthorized, forbidden, served, authenticate,
  require_role,
}
use cloud_file_server.Admin.Sessions.Laws.{require_role-served}
use cloud_file_server.Admin.Users.{Reply, Caller, Site}
use cloud_file_server.Admin.Users.Laws.{Request, handle, handle-reported, reported}
use cloud_file_server.Admin.Routes.{
  with_role, access_of, Admission, refused, admitted, admission, guard, route_of, current_user,
  serve,
}

module _ (C : Cloud) (hash_password : Text → Option Text) (parse_key : Text → Result Text Text)
    (u : Unicode) where
  -- The session on whose behalf a request was handled.
  pub record IsAuthorized (r : Request) (cookie ip : Option Text) (now : ℕ) (m : SessionManager)
      (s : Site C) (answer : Result Outcome Reply) (s1 : Site C) : Type 0 where
    pub token : Text
    pub held : SessionEntry
    pub reply : Reply
    pub presented : cookie ≡ some token
    pub known : lookup token m.sessions ≡ some held
    pub alive : now < held.expires
    pub is_admin : held.role ≡ ascii "admin"
    pub answered : answer ≡ ok reply
    pub logged :
        s1.events ≡ reported (record { username = held.username; client_ip = ip }) r reply s.events

  access-admin : (r : Request) → access_of (route_of r) ≡ with_role (ascii "admin")
  unfolding access_of
  access-admin (Request.creates body) = refl
  access-admin (Request.updates username body) = refl
  access-admin (Request.resets username body) = refl
  access-admin (Request.deletes username) = refl
  access-admin (Request.sets_key username body) = refl

  guard-admitted :
      (role : Text) (cookie : Option Text) (now : ℕ) (m : SessionManager)
      (found : Option SessionEntry)
      → (guard (with_role role) cookie now m).0 ≡ admitted found
      → (token : Text) × (entry : SessionEntry) × (cookie ≡ some token)
        × (found ≡ some entry)
        × (require_role role (authenticate (some token) now m).0 ≡ served entry)
  unfolding guard
  guard-admitted role none now m found h = absurd (unfold authenticate require_role in ground arith)
  guard-admitted role (some token) now m found h =
      by_outcome (require_role role (authenticate (some token) now m).0) refl h
    where
      by_outcome :
          (o : Outcome)
          → require_role role (authenticate (some token) now m).0 ≡ o
          → admission o ≡ admitted found
          → (t : Text) × (entry : SessionEntry) × (some token ≡ some t)
            × (found ≡ some entry)
            × (require_role role (authenticate (some t) now m).0 ≡ served entry)
      by_outcome (served entry) e k = (token, entry, refl, ground arith, e)
      by_outcome unauthorized e k = absurd (ground arith)
      by_outcome forbidden e k = absurd (ground arith)

  -- A request that would change a user either is refused, and then the table, the store and the events
  -- stay, or it has the token of a session that is known, alive and has the role `admin`, and the
  -- event that it adds if it comes out well names that session's user.
  pub serve-IsAuthorized :
      (r : Request) (cookie ip : Option Text) (now : ℕ) (m : SessionManager) (s : Site C)
      → ((o : Outcome) × ((serve C hash_password parse_key u r cookie ip now m s).0 ≡ err o)
          × ((serve C hash_password parse_key u r cookie ip now m s).2 ≡ s))
        ⊎ IsAuthorized r cookie ip now m s
            (serve C hash_password parse_key u r cookie ip now m s).0
            (serve C hash_password parse_key u r cookie ip now m s).2
  unfolding serve
  serve-IsAuthorized r cookie ip now m s =
      by_admission (guard (access_of (route_of r)) cookie now m).0 refl
    where
      by_admission :
          (a : Admission)
          → (guard (access_of (route_of r)) cookie now m).0 ≡ a
          → ((o : Outcome) × ((serve C hash_password parse_key u r cookie ip now m s).0 ≡ err o)
              × ((serve C hash_password parse_key u r cookie ip now m s).2 ≡ s))
            ⊎ IsAuthorized r cookie ip now m s
                (serve C hash_password parse_key u r cookie ip now m s).0
                (serve C hash_password parse_key u r cookie ip now m s).2
      by_admission (refused o) e = inl (o, rw (e, serve) refl, rw (e, serve) refl)
      by_admission (admitted found) e =
          let e1 = rw (access-admin r) at e in
          let (token, entry, presented, is_found, let_in) =
            guard-admitted (ascii "admin") cookie now m found e1 in
          let (held, (known, alive, role, same)) =
            require_role-served (ascii "admin") token now m entry let_in in
          let who : Caller = record { username = current_user found; client_ip = ip } in
          let name : current_user found ≡ held.username =
            ap current_user is_found ∙ ap (λ (x : SessionEntry). x.username) same in
          inr (record {
            token = token;
            held = held;
            reply = (handle C hash_password parse_key u who r s).0;
            presented = presented;
            known = known;
            alive = alive;
            is_admin = sym (ap (λ (x : SessionEntry). x.role) same) ∙ role;
            answered = rw (e, serve) refl;
            logged =
                rw (e, serve)
                  (handle-reported C hash_password parse_key u who r s
                    ∙ ap
                        (λ name.
                          reported (record { username = name; client_ip = ip }) r
                            (handle C hash_password parse_key u who r s).0 s.events)
                        name);
          })
