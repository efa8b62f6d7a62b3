-- ===== src/Startup.antt =====
-- `run` of cmd/ftp-server/main.go: what it starts, in which order, and what it closes, for every way in
-- which the calls that may fail come out; and how it fills in the servers. Logs are left out, and so is
-- the failure of ConfigureOIDC, which is only logged.
pub mod Phases
pub mod Order
pub mod Wiring
use cloud_file_server.Base.{
  ℕ, Bool, true, false, not, ◌&&◌, ◌||◌, List, [], ◌∷◌, ◌++◌, Option, none, some, Result, ok, err,
  if◌then◌else◌,
}
use cloud_file_server.Text.{Text, ascii, text_beq}
use cloud_file_server.Config.{ConfigError, Parsers, Config, Env, load}
use cloud_file_server.Ftpserver.Settings.{TlsFiles, Server}
use cloud_file_server.Fsdriver.Plugins.{new_object_storage}
use cloud_file_server.Admin.Oidc.{OidcConfig}
use cloud_file_server.Admin.Account.{Addresses}

-- The error of each call in one run, by its text, or `none`; `admin_failure` is what ListenAndServe has
-- reported by the time of the signal.
pub record Outcomes : Type 0 where
  pub db_new : Option Text
  pub migrate : Option Text
  pub hash_password : Text → Result Text Text
  pub seed : Option Text
  pub storage_init : Option Text
  pub ftp_start : Option Text
  pub host_key : Option Text
  pub sftp_start : Option Text
  pub admin_failure : Option Text
  pub ftp_stop : Option Text

-- What `run` has done. The creation of the administrator may fail, which is only logged.
pub data Step : Type 0 where
  pool_opened : Step
  migrated : Step
  admin_user_created : (user hash : Text) → Step
  seeded : Step
  logger_opened : Step
  storage_ready : Step
  ftp_started : Step
  sftp_started : Step
  admin_started : Step
  admin_shut_down : Step
  sftp_stopped : Step
  ftp_stopped : Step
  logger_closed : Step
  pool_closed : Step

-- The error that `run` returns; an unknown backend is quoted in its text.
pub data Failure : Type 0 where
  not_configured : ConfigError → Failure
  unknown_backend : Text → Failure
  failed : Text → Failure

abbrev pub Run : Type 0
Run = Option Failure × List Step

abbrev pub after : Step → Run → Run
after s (e, steps) = (e, s ∷ steps)

-- `defer`
abbrev pub deferring : Step → Run → Run
deferring s (e, steps) = (e, steps ++ (s ∷ []))

abbrev pub fails : Text → Text → Run
fails what message = (some (failed (what ++ message)), [])

-- A call that ends the run if it fails.
abbrev pub check : Option Text → Text → Run → Run
check none what rest = rest
check (some message) what rest = fails what message

abbrev wrap : Option Text → Option Failure
wrap none = none
wrap (some message) = some (failed message)

module _ (P : Parsers) (o : Outcomes) (cfg : Config P) where
  -- `Stop` of a server that was not started does nothing.
  pub stop_ftp : Run
  stop_ftp = if cfg.ftp_enabled then (wrap o.ftp_stop, ftp_stopped ∷ []) else (none, [])

  pub stop_all : Run
  unfolding stop_ftp
  stop_all = if cfg.sftp_enabled then after sftp_stopped stop_ftp else stop_ftp

  -- From the signal on.
  pub shut_down : Run
  unfolding stop_all
  shut_down = after admin_shut_down (check o.admin_failure (ascii "admin: ") stop_all)

  pub serve_admin : Run
  unfolding shut_down
  serve_admin = after admin_started shut_down

  pub start_sftp : Run
  unfolding serve_admin
  start_sftp =
      if cfg.sftp_enabled
      then check o.host_key (ascii "sftp: host key: ")
          (check o.sftp_start (ascii "sftp: ") (after sftp_started serve_admin))
      else serve_admin

  pub start_ftp : Run
  unfolding start_sftp
  start_ftp =
      if cfg.ftp_enabled then check o.ftp_start [] (after ftp_started start_sftp) else start_sftp

  pub open_storage : Run
  unfolding start_ftp new_object_storage
  open_storage = elim (new_object_storage P cfg.storage_backend cfg) [
    | err id ↦ (some (unknown_backend id), [])
    | ok _ ↦ check o.storage_init (ascii "storage: ") (after storage_ready start_ftp)
  ]

  pub with_logger : Run
  unfolding open_storage
  with_logger = after logger_opened (deferring logger_closed open_storage)

  pub seed_files : Run
  unfolding with_logger
  seed_files = check o.seed (ascii "seed: ") (after seeded with_logger)

  -- The environment has the administrator's name and password.
  pub seed_all : Env → Run
  unfolding seed_files
  seed_all env =
      let user = env (ascii "FTP_SEED_USER") in
      let pass = env (ascii "FTP_SEED_PASS") in
      if text_beq user [] || text_beq pass [] then seed_files else elim (o.hash_password pass) [
        | err message ↦ fails (ascii "seed: hash password: ") message
        | ok hash ↦ after (admin_user_created user hash) seed_files
      ]

  pub with_pool : Env → Run
  unfolding seed_all
  with_pool env = after pool_opened (
      deferring pool_closed (
        check o.migrate (ascii "migrate: ")
          (after migrated (if cfg.seed_enabled then seed_all env else with_logger))))

unfoldable pub run : (P : Parsers) → Outcomes → Env → Run
unfolding with_pool load
run P o env = elim (load P env) [
  | err e ↦ (some (not_configured e), [])
  | ok cfg ↦ check o.db_new (ascii "db: ") (with_pool P o cfg env)
]

module _ {P : Parsers} (cfg : Config P) where
  -- The FTP server, less what is not of the configuration.
  unfoldable pub ftp_server_of : Server
  ftp_server_of = record {
    addr = cfg.ftp_listen;
    port = 0;
    public_host = cfg.ftp_public_ip;
    passive_port_range = cfg.passive_port_range;
    idle_timeout = cfg.idle_timeout;
    proxy_protocol = cfg.ftp_proxy_protocol;
    tls =
        if text_beq cfg.ftp_tls_cert [] || text_beq cfg.ftp_tls_key []
        then none
        else some (record { cert_file = cfg.ftp_tls_cert; key_file = cfg.ftp_tls_key });
  }

  abbrev address_at : Option Text → Text → Text
  address_at none listen = []
  address_at (some host) listen = host ++ listen

  abbrev public_ip : Option Text
  public_ip = if text_beq cfg.ftp_public_ip [] then none else some cfg.ftp_public_ip

  -- The addresses that the API shows; `hostname` is that of the URL, unless it is empty or no URL.
  unfoldable addresses_of : (Text → Option Text) → Addresses
  addresses_of hostname = record {
    ftp_enabled = cfg.ftp_enabled;
    ftp_address = address_at public_ip cfg.ftp_listen;
    ftp_public_address = address_at (hostname cfg.public_url) cfg.ftp_listen;
    sftp_enabled = cfg.sftp_enabled;
    sftp_address = address_at public_ip cfg.sftp_listen;
    sftp_public_address = address_at (hostname cfg.public_url) cfg.sftp_listen;
    cos_bucket = cfg.cos_bucket;
    cos_region = cfg.cos_region;
  }

  -- What ConfigureOIDC is called with, if it is.
  unfoldable oidc_config_of : Option OidcConfig
  oidc_config_of =
      if text_beq cfg.oidc_issuer_url []
      then none
      else some (record {
        issuer_url = cfg.oidc_issuer_url;
        client_id = cfg.oidc_client_id;
        client_secret = cfg.oidc_client_secret;
        public_url = cfg.public_url;
        admin_group = cfg.oidc_admin_group;
        readonly_group = cfg.oidc_readonly_group;
        frontend_redirect = cfg.oidc_frontend_redirect_url;
      })
