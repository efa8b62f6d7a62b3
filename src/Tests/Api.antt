-- ===== src/Tests/Api.antt =====
-- The login by a provider, the routes, and the list of events.
use cloud_file_server.Base.{
  ℕ, ◌≤◌, ◌≡◌, refl, true, [], ◌∷◌, Option, none, some, Result, ok, err, arith, ◌⊎◌,
}
use cloud_file_server.Text.{Text, ascii, text_beq}
use cloud_file_server.Audit.Event.{Event, zero_event}
use cloud_file_server.Admin.Sessions.{
  SessionEntry, SessionManager, Outcome, served, authenticate, require_role, encode_to_string,
}
use cloud_file_server.Admin.Oidc.{
  OidcConfig, Claims, Provider, OidcAuth, Callback, Site, entry_of, oidc_callback,
}
use cloud_file_server.Admin.Oidc.Laws.{
  IsSignedIn, oidc_callback-IsSignedIn, oidc_callback-require_role,
}
use cloud_file_server.Admin.Users.{no_content}
use cloud_file_server.Admin.Users.Laws
use cloud_file_server.Admin.Routes.{serve}
use cloud_file_server.Admin.Routes.Guarded.{IsAuthorized, serve-IsAuthorized}
use cloud_file_server.Admin.AuditApi.{Clock, AuditQuery}
use cloud_file_server.Tests.Data.{alice, memory, client_of, ascii_tables}

abbrev of_al : Claims
of_al = record {
  username = ascii "al";
  email = [];
  given_name = [];
  family_name = [];
  groups = ascii "x" ∷ ascii "adm" ∷ [];
}

-- A provider that answers every code with the same token.
abbrev provider : Provider
provider = record {
  Endpoint = Unit {0};
  IdToken = Text;
  new_provider = λ issuer. ok tt;
  auth_code_url = λ o state. state;
  exchange = λ o code. some (some code);
  verify = λ e client raw. some raw;
  claims = λ t. some of_al;
}

abbrev auth : OidcAuth provider
auth = record {
  cfg = record {
    issuer_url = [];
    client_id = [];
    client_secret = [];
    public_url = [];
    admin_group = ascii "adm";
    readonly_group = ascii "ro";
    frontend_redirect = [];
  };
  oauth2 = record { client_id = []; client_secret = []; redirect_url = []; endpoint = tt };
}

abbrev sso : Site provider
sso = record {
  oidc = some auth;
  sessions = record { ttl = 10; cookie_secure = true; sessions = [] };
  events = [];
}

abbrev back : Callback
back = record {
  state_cookie = some (ascii "s");
  state = ascii "s";
  code = ascii "k";
  client_ip = ascii "h";
}

oidc_callback-IsSignedIn_example :
    (((oidc_callback provider back (some (10 ∷ [])) 1 sso).0.status ≡ 302)
      × IsSignedIn provider back
          (some (10 ∷ []))
          1
          sso
          (oidc_callback provider back (some (10 ∷ [])) 1 sso).1)
    ⊎ (((oidc_callback provider back (some (10 ∷ [])) 1 sso).1 ≡ sso)
        × (400 ≤ (oidc_callback provider back (some (10 ∷ [])) 1 sso).0.status))
oidc_callback-IsSignedIn_example = oidc_callback-IsSignedIn provider back (some (10 ∷ [])) 1 sso

oidc_callback-require_role_example :
    (require_role
      (ascii "admin")
      (authenticate
        (some (encode_to_string (10 ∷ [])))
        5
        (oidc_callback provider back (some (10 ∷ [])) 1 sso).1.sessions).0)
    ≡ served (record (entry_of provider of_al (ascii "admin")) { expires = 15 })
unfolding cloud_file_server.Admin.Oidc.verified_claims oidc_callback text_beq ascii
oidc_callback-require_role_example =
    oidc_callback-require_role provider back (10 ∷ []) 1 5 sso auth of_al refl refl refl
      (omega arith)

abbrev boss : SessionEntry
boss = record {
  username = ascii "root";
  role = ascii "admin";
  auth_method = ascii "oidc";
  email = [];
  first_name = [];
  last_name = [];
  expires = 11;
}

abbrev manager : SessionManager
manager = record { ttl = 10; cookie_secure = true; sessions = (ascii "0a", boss) ∷ [] }

abbrev site : cloud_file_server.Admin.Users.Site memory
site = record {
  cos_bucket = [];
  cos_region = [];
  cos_client = some (client_of []);
  db = record { rows = alice ∷ []; next_id = 2; now = 7; faults = [] };
  events = [];
}

abbrev deletes_al : cloud_file_server.Admin.Users.Laws.Request
deletes_al = cloud_file_server.Admin.Users.Laws.Request.deletes (ascii "al")

abbrev served_to :
    Option Text
    → Result Outcome cloud_file_server.Admin.Users.Reply
      × SessionManager
      × cloud_file_server.Admin.Users.Site memory
served_to cookie =
    serve memory (λ p. some p) (λ k. ok k) ascii_tables deletes_al cookie none 5 manager site

serve-IsAuthorized_example :
    ((o : Outcome) × ((served_to (some (ascii "0a"))).0 ≡ err o)
      × ((served_to (some (ascii "0a"))).2 ≡ site))
    ⊎ IsAuthorized memory
        (λ p. some p)
        (λ k. ok k)
        ascii_tables
        deletes_al
        (some (ascii "0a"))
        none
        5
        manager
        site
        (served_to (some (ascii "0a"))).0
        (served_to (some (ascii "0a"))).2
serve-IsAuthorized_example =
    serve-IsAuthorized memory (λ p. some p) (λ k. ok k) ascii_tables deletes_al (some (ascii "0a"))
      none 5 manager site

-- Instants are read as they are not.
abbrev clock : Clock
clock = record { parse = λ s. none; format = λ t. [] }

abbrev any_event : AuditQuery
any_event = record {
  username = [];
  action = [];
  success = [];
  from = [];
  to = [];
  limit = [];
  offset = [];
}

abbrev at : ℕ → Event
at t = record zero_event { event_time = t; username = ascii "al" }
