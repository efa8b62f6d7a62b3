-- ===== src/Admin/Oidc.antt =====
-- internal/admin/oidc_api.go: login by an OpenID Connect provider. The libraries go-oidc and oauth2
-- are the record Provider.
pub mod Roles
pub mod Laws
use cloud_file_server.Base.{
  ℕ, Bool, true, false, ◌||◌, not, List, [], ◌∷◌, ◌++◌, Option, none, some, Result, ok, err,
  if◌then◌else◌,
}
use cloud_file_server.Text.{Text, ascii, text_beq, slash, is_slash, trim_right}
use cloud_file_server.Audit.Event.{Event, zero_event, str}
use cloud_file_server.Admin.Sessions.{SessionEntry, SessionManager, Cookie, encode_to_string, issue}

pub record OidcConfig : Type 0 where
  pub issuer_url : Text
  pub client_id : Text
  pub client_secret : Text
  pub public_url : Text
  pub admin_group : Text
  pub readonly_group : Text
  pub frontend_redirect : Text

-- The claims of an ID token that the code reads.
pub record Claims : Type 0 where
  pub username : Text
  pub email : Text
  pub given_name : Text
  pub family_name : Text
  pub groups : List Text

-- `oauth2.Config`, less its scopes, which never change.
pub record Oauth2 (Endpoint : Type 0) : Type 0 where
  pub client_id : Text
  pub client_secret : Text
  pub redirect_url : Text
  pub endpoint : Endpoint

-- `oidc.NewProvider`, with the text of its error; `AuthCodeURL`; `Exchange`, whose token has an ID
-- token or not; `Verify` for a client; and `Claims`.
pub record Provider : Type 1 where
  pub Endpoint : Type 0
  pub IdToken : Type 0
  pub new_provider : Text → Result Text Endpoint
  pub auth_code_url : Oauth2 Endpoint → Text → Text
  pub exchange : Oauth2 Endpoint → Text → Option (Option Text)
  pub verify : Endpoint → Text → Text → Option IdToken
  pub claims : IdToken → Option Claims

abbrev oidc_callback_path : Text
oidc_callback_path = ascii "/api/v1/auth/oidc/callback"

-- The cookies that an answer sets: `oidc_state` with a value, `oidc_state` deleted, or the session's.
pub data SetCookie : Type 0 where
  state_cookie : (value : Text) (secure : Bool) → SetCookie
  state_deleted : SetCookie
  session_cookie : Cookie → SetCookie

-- The body of an error, or the location of a redirection.
pub record Response : Type 0 where
  pub status : ℕ
  pub body : Text
  pub location : Text
  pub cookies : List SetCookie

abbrev pub http_error : ℕ → Text → List SetCookie → Response
http_error status body cookies = record {
  status = status;
  body = body;
  location = [];
  cookies = cookies;
}

abbrev redirect : Text → List SetCookie → Response
redirect location cookies = record {
  status = 302;
  body = [];
  location = location;
  cookies = cookies;
}

-- What the callback finds in a request: the cookie `oidc_state`, the query, and clientIP.
pub record Callback : Type 0 where
  pub state_cookie : Option Text
  pub state : Text
  pub code : Text
  pub client_ip : Text

-- One group of the claims in the loop over them.
pub note_group : OidcConfig → Text → Text → Text
note_group cfg role g =
    if text_beq g cfg.admin_group
    then ascii "admin"
    else if text_beq g cfg.readonly_group
    then (if text_beq role [] then ascii "readonly" else role)
    else role

pub role_of : OidcConfig → Text → List Text → Text
role_of cfg role [] = role
role_of cfg role (g ∷ groups) = role_of cfg (note_group cfg role g) groups

abbrev pub username_of : Claims → Text
username_of c = if text_beq c.username [] then c.email else c.username

-- `randomToken`, from 24 random bytes or a failure.
random_token : Option (List ℕ) → Option Text
unfolding encode_to_string
random_token none = none
random_token (some bytes) = some (encode_to_string bytes)

module _ (P : Provider) where
  pub record OidcAuth : Type 0 where
    pub cfg : OidcConfig
    pub oauth2 : Oauth2 P.Endpoint

  pub record Site : Type 0 where
    pub oidc : Option OidcAuth
    pub sessions : SessionManager
    pub events : List Event

  unfoldable configure_oidc : OidcConfig → Site → Option Text × Site
  unfolding trim_right
  configure_oidc cfg a =
      if text_beq cfg.public_url []
      then (some (ascii "admin: OIDCConfig.PublicURL is required"), a)
      else elim (P.new_provider cfg.issuer_url) [
        | err message ↦ (some message, a)
        | ok endpoint ↦
            let oauth2 : Oauth2 P.Endpoint = record {
              client_id = cfg.client_id;
              client_secret = cfg.client_secret;
              redirect_url = trim_right is_slash cfg.public_url ++ oidc_callback_path;
              endpoint = endpoint;
            } in
            (none, record a { oidc = some (record { cfg = cfg; oauth2 = oauth2 }) })
      ]

  abbrev pub not_configured : Response
  not_configured = http_error 501 (ascii "sso is not configured") []

  unfoldable pub oidc_authorize : Option (List ℕ) → Site → Response
  unfolding random_token
  oidc_authorize random a = elim a.oidc [
    | none ↦ not_configured
    | some auth ↦ elim (random_token random) [
      | none ↦ http_error 500 (ascii "internal") []
      | some state ↦
          redirect (P.auth_code_url auth.oauth2 state)
            (state_cookie state a.sessions.cookie_secure ∷ [])
    ]
  ]

  -- The ID token's claims, or the answer 401 and its text.
  unfoldable pub verified_claims : OidcAuth → Text → Result Text Claims
  verified_claims auth code = elim (P.exchange auth.oauth2 code) [
    | none ↦ err (ascii "sso exchange failed")
    | some none ↦ err (ascii "sso response missing id_token")
    | some (some raw) ↦ elim (P.verify auth.oauth2.endpoint auth.cfg.client_id raw) [
      | none ↦ err (ascii "sso token invalid")
      | some token ↦ elim (P.claims token) [
        | none ↦ err (ascii "sso claims invalid")
        | some claims ↦ ok claims
      ]
    ]
  ]

  abbrev pub entry_of : Claims → Text → SessionEntry
  entry_of c role = record {
    username = username_of c;
    role = role;
    auth_method = ascii "oidc";
    email = c.email;
    first_name = c.given_name;
    last_name = c.family_name;
    expires = 0;
  }

  abbrev pub login_event : Text → Text → Text → Event
  login_event username role ip = record zero_event {
    username = username;
    client_ip = some ip;
    action = ascii "ADMIN_LOGIN";
    success = true;
    detail = (ascii "role", str role) ∷ (ascii "method", str (ascii "oidc")) ∷ [];
  }

  -- The end of the callback, from `Issue` on.
  pub sign_in : OidcAuth → Claims → Text → Text → Option (List ℕ) → ℕ → Site → Response × Site
  unfolding issue
  sign_in auth c role ip random now a =
      let (cookie, sessions) = issue (entry_of c role) random now a.sessions in
      elim cookie [
        | none ↦ (http_error 500 (ascii "internal") (state_deleted ∷ []), a)
        | some k ↦ (
          redirect auth.cfg.frontend_redirect (state_deleted ∷ session_cookie k ∷ []),
          record a {
            sessions = sessions;
            events = a.events ++ (login_event (username_of c) role ip ∷ []);
          },
        )
      ]

  unfoldable pub admit : OidcAuth → Callback → Option (List ℕ) → ℕ → Site → Response × Site
  unfolding verified_claims sign_in role_of note_group
  admit auth r random now a = elim (verified_claims auth r.code) [
    | err message ↦ (http_error 401 message (state_deleted ∷ []), a)
    | ok c ↦
        let role = role_of auth.cfg [] c.groups in
        if text_beq (username_of c) [] || text_beq role []
        then (
          http_error 403 (ascii "your account is not a member of an authorized group")
              (state_deleted ∷ []),
          a,
        )
        else sign_in auth c role r.client_ip random now a
  ]

  -- Whether the cookie of the state is that of the query.
  abbrev pub state_matches : Callback → Bool
  state_matches r = elim r.state_cookie [
    | none ↦ false
    | some value ↦ not (text_beq value [] || not (text_beq value r.state))
  ]

  unfoldable pub oidc_callback : Callback → Option (List ℕ) → ℕ → Site → Response × Site
  unfolding admit
  oidc_callback r random now a = elim a.oidc [
    | none ↦ (not_configured, a)
    | some auth ↦
        if state_matches r
        then admit auth r random now a
        else (http_error 400 (ascii "invalid state") [], a)
  ]
