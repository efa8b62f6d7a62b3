-- ===== src/Config.antt =====
-- internal/config/config.go: Load, over the environment as a function that answers an unset variable
-- with the empty text.
pub mod Ports
pub mod Laws
pub mod Scans
use cloud_file_server.Base.{
  ℕ, ◌*◌, Bool, true, false, List, [], ◌∷◌, ◌++◌, Option, none, some, Result, ok, err, nat_beq, leb,
  ltb, ◌&&◌, ◌||◌, if◌then◌else◌,
}
use cloud_file_server.Base.Int.{ℤ, pos, negsuc}
use cloud_file_server.Text.{Text, ascii, text_beq, has_prefix, to_lower}
use cloud_file_server.Text.Numbers.{atoi}
use Ports.{PortRange, scan_range}

-- The error names the variable, where it wraps that of a parser.
pub data ConfigError : Type 0 where
  unreadable : Text → ConfigError
  port_range_invalid : ConfigError
  database_url_required : ConfigError

-- `time.ParseDuration` in nanoseconds, `strconv.ParseFloat`, and the constant 0.8.
pub record Parsers : Type 1 where
  pub Float : Type 0
  pub parse_duration : Text → Option ℤ
  pub parse_float : Text → Option Float
  pub four_fifths : Float

pub record Config (P : Parsers) : Type 0 where
  pub database_url : Text
  pub ftp_listen : Text
  pub ftp_public_ip : Text
  pub ftp_local_root : Text
  pub passive_port_range : PortRange
  pub ftp_tls_cert : Text
  pub ftp_tls_key : Text
  pub idle_timeout : ℤ
  pub ftp_allow_plain : Bool
  pub ftp_proxy_protocol : Bool
  pub ftp_enabled : Bool
  pub sftp_enabled : Bool
  pub sftp_listen : Text
  pub sftp_host_key : Text
  pub ftp_default_allow_active : Bool
  pub ftp_default_refuse_overwrite : Bool
  pub cos_static_secret_id : Text
  pub cos_static_secret_key : Text
  pub cos_static_session_token : Text
  pub cos_bucket : Text
  pub cos_region : Text
  pub storage_backend : Text
  pub storage_local_root : Text
  pub sts_refresh_ratio : P.Float
  pub audit_retention_days : ℤ
  pub auth_lockout_limit : ℕ
  pub auth_lockout_window : ℕ
  pub admin_listen : Text
  pub admin_cookie_secure : Bool
  pub seed_enabled : Bool
  pub log_level : Text
  pub log_format : Text
  pub ftp_default_root_prefix : Text
  pub public_url : Text
  pub oidc_issuer_url : Text
  pub oidc_client_id : Text
  pub oidc_client_secret : Text
  pub oidc_admin_group : Text
  pub oidc_readonly_group : Text
  pub oidc_frontend_redirect_url : Text

abbrev pub Env : Type 0
Env = Text → Text

getenv : Env → Text → Text → Text
getenv env k def = if text_beq (env k) [] then def else env k

abbrev is_on : Env → Text → Bool
is_on env k = text_beq (getenv env k (ascii "false")) (ascii "true")

admin_cookie_secure_of : Text → Text → Bool
unfolding to_lower has_prefix
admin_cookie_secure_of env_val public_url =
    if text_beq env_val []
    then has_prefix (to_lower public_url) (ascii "https://")
    else text_beq env_val (ascii "true")

abbrev pub second : ℕ
second = 1_000_000_000

abbrev default_url : Text
default_url = ascii "http://localhost:9001"

-- A variable that is parsed unless it is empty.
pub optional : {A : Type 0} → Env → Text → (Text → Option A) → A → Result ConfigError A
optional env k parse def =
    if text_beq (env k) []
    then ok def
    else elim (parse (env k)) [ none ↦ err (unreadable k) | some a ↦ ok a ]

pub port_range_of : Text → Result ConfigError PortRange
port_range_of v =
    if text_beq v [] then ok (record { start = 50000; end = 50999 }) else elim (scan_range v) [
      | none ↦ err (unreadable (ascii "FTP_PASSIVE_PORT_RANGE"))
      | some (pos s, pos e) ↦
          if ltb s 1 || leb e s || ltb 65535 e
          then err port_range_invalid
          else ok (record { start = s; end = e })
      | some (pos _, negsuc _) ↦ err port_range_invalid
      | some (negsuc _, _) ↦ err port_range_invalid
    ]

pub parse_days : Text → Option ℤ
parse_days v = let (n, failed) = atoi v in elim failed [ none ↦ some n | some _ ↦ none ]

module _ (P : Parsers) where
  -- The fields that are read as they are, around the five that are checked.
  pub config_of : Env → PortRange → ℤ → P.Float → ℤ → Config P
  unfolding getenv admin_cookie_secure_of
  config_of env ports idle ratio days = record {
    database_url = env (ascii "DATABASE_URL");
    ftp_listen = getenv env (ascii "FTP_LISTEN") (ascii ":2121");
    ftp_public_ip = env (ascii "FTP_PUBLIC_IP");
    ftp_local_root = getenv env (ascii "FTP_LOCAL_ROOT") (ascii "/tmp/ftp-m1");
    passive_port_range = ports;
    ftp_tls_cert = env (ascii "FTP_TLS_CERT");
    ftp_tls_key = env (ascii "FTP_TLS_KEY");
    idle_timeout = idle;
    ftp_allow_plain = is_on env (ascii "FTP_ALLOW_PLAIN");
    ftp_proxy_protocol = is_on env (ascii "FTP_PROXY_PROTOCOL");
    ftp_enabled = is_on env (ascii "FTP_ENABLED");
    sftp_enabled = is_on env (ascii "SFTP_ENABLED");
    sftp_listen = getenv env (ascii "SFTP_LISTEN") (ascii ":2222");
    sftp_host_key = env (ascii "SFTP_HOST_KEY");
    ftp_default_allow_active = is_on env (ascii "FTP_DEFAULT_ALLOW_ACTIVE");
    ftp_default_refuse_overwrite = is_on env (ascii "FTP_DEFAULT_REFUSE_OVERWRITE");
    cos_static_secret_id = env (ascii "COS_STATIC_SECRET_ID");
    cos_static_secret_key = env (ascii "COS_STATIC_SECRET_KEY");
    cos_static_session_token = env (ascii "COS_STATIC_SESSION_TOKEN");
    cos_bucket = getenv env (ascii "COS_BUCKET") (ascii "test-1409486316");
    cos_region = getenv env (ascii "COS_REGION") (ascii "ap-bangkok");
    storage_backend = getenv env (ascii "STORAGE_BACKEND") (ascii "cos.objectstorage.plugin");
    storage_local_root = getenv env (ascii "STORAGE_LOCAL_ROOT") (ascii "./data");
    sts_refresh_ratio = ratio;
    audit_retention_days = days;
    auth_lockout_limit = 5;
    auth_lockout_window = 15 * 60 * second;
    admin_listen = getenv env (ascii "ADMIN_LISTEN") (ascii ":8080");
    admin_cookie_secure =
        admin_cookie_secure_of (getenv env (ascii "ADMIN_COOKIE_SECURE") [])
          (getenv env (ascii "PUBLIC_URL") default_url);
    seed_enabled = is_on env (ascii "FTP_SEED");
    log_level = getenv env (ascii "LOG_LEVEL") (ascii "info");
    log_format = getenv env (ascii "LOG_FORMAT") (ascii "json");
    ftp_default_root_prefix = getenv env (ascii "FTP_DEFAULT_ROOT_PREFIX") (ascii "/t/t/");
    public_url = getenv env (ascii "PUBLIC_URL") default_url;
    oidc_issuer_url = env (ascii "OIDC_ISSUER_URL");
    oidc_client_id = env (ascii "OIDC_CLIENT_ID");
    oidc_client_secret = env (ascii "OIDC_CLIENT_SECRET");
    oidc_admin_group = getenv env (ascii "OIDC_ADMIN_GROUP") (ascii "admin");
    oidc_readonly_group = getenv env (ascii "OIDC_READONLY_GROUP") (ascii "readonly");
    oidc_frontend_redirect_url =
        getenv env (ascii "OIDC_FRONTEND_REDIRECT_URL") (ascii "/auth/callback");
  }

  unfoldable pub load : Env → Result ConfigError (Config P)
  unfolding port_range_of optional config_of parse_days
  load env = elim (port_range_of (env (ascii "FTP_PASSIVE_PORT_RANGE"))) [
    | err e ↦ err e
    | ok ports ↦
        elim (optional env (ascii "FTP_IDLE_TIMEOUT") P.parse_duration (pos (300 * second))) [
          | err e ↦ err e
          | ok idle ↦ elim (optional env (ascii "STS_REFRESH_RATIO") P.parse_float P.four_fifths) [
            | err e ↦ err e
            | ok ratio ↦ elim (optional env (ascii "AUDIT_RETENTION_DAYS") parse_days (pos 365)) [
              | err e ↦ err e
              | ok days ↦
                  if text_beq (env (ascii "DATABASE_URL")) []
                  then err database_url_required
                  else ok (config_of env ports idle ratio days)
            ]
          ]
        ]
  ]
