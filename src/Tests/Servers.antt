-- ===== src/Tests/Servers.antt =====
-- The configuration, the start of the program, certificate chains, and an SFTP session.
use mathlib.Core.List.{map}
use cloud_file_server.Base.{
  ℕ, ◌*◌, ◌≡◌, ◌≢◌, refl, Bool, true, false, any, ◌||◌, List, [], ◌∷◌, ◌++◌, none, some, Result, ok,
  err, All, arith, if◌then◌else◌,
}
use cloud_file_server.Base.Int.{pos}
use cloud_file_server.Text.{Text, ascii, text_beq}
use cloud_file_server.Text.Numbers.Decimal.{itoa}
use cloud_file_server.Audit.Event.{Event}
use cloud_file_server.Config.{Parsers, Config, Env, second, config_of, load, port_range_of}
use cloud_file_server.Config.Laws.{IsPortRange}
use cloud_file_server.Config.Scans.{port_range_of-itoa}
use cloud_file_server.Ftpserver.CertChain.{Certificate, chained, order_parsed}
use cloud_file_server.Ftpserver.CertChain.Laws.{
  is_missing, IsChain, order_parsed-IsChain, order_parsed-missing,
}
use cloud_file_server.Ftpserver.Settings.{Settings, settings_with}
use cloud_file_server.Startup.{
  Outcomes, pool_opened, migrated, logger_opened, storage_ready, ftp_started, logger_closed,
  pool_closed, ftp_server_of, run,
}
use cloud_file_server.Startup.Wiring.{get_settings-IsPortRange}
use cloud_file_server.Fsdriver.AuditFs.{AferoFs}
use cloud_file_server.Fsdriver.ObjectFs.Mounted.{cos_mount}
use cloud_file_server.Fsdriver.SftpHandlers.{Request}
use cloud_file_server.Sftpserver.Session.{SftpCall, logout_event, mount_for, serve_sftp}
use cloud_file_server.Sftpserver.Session.Trail.{
  IsOwnOrRefresh, cos_hook, cos_hook-IsRefresh, serve_sftp-trail,
}
use cloud_file_server.Fsdriver.Plugins.{CosPlugin}
use cloud_file_server.Cos.Client.{Client}
use cloud_file_server.Tests.Data.{alice, plain_net, memory, client_of}

-- Nothing is parsed where no variable is set.
abbrev parsers : Parsers
parsers = record {
  Float = Bool;
  parse_duration = λ v. none;
  parse_float = λ v. none;
  four_fifths = true;
}

abbrev env : Env
env k = if text_beq k (ascii "DATABASE_URL") then ascii "db" else []

abbrev config : Config parsers
config =
    config_of parsers env (record { start = 50000; end = 50999 }) (pos (300 * second)) true
      (pos 365)

abbrev no_listener : Text → Result Text (Unit {0})
no_listener addr = err addr

abbrev settings : Settings (Unit {0})
settings = settings_with (ftp_server_of config) none

get_settings-IsPortRange_example :
    (settings.listen_addr ≡ config.ftp_listen)
    × (settings.passive_transfer_port_range ≡ some config.passive_port_range)
    × IsPortRange config.passive_port_range
unfolding load text_beq ascii cloud_file_server.Ftpserver.Settings.get_settings ftp_server_of
get_settings-IsPortRange_example =
    get_settings-IsPortRange parsers env config no_listener settings refl refl

-- Both protocols are on, and SFTP cannot listen.
abbrev both_on : Env
both_on k =
    if text_beq k (ascii "FTP_ENABLED") || text_beq k (ascii "SFTP_ENABLED")
    then ascii "true"
    else env k

abbrev port_taken : Outcomes
port_taken = record {
  db_new = none;
  migrate = none;
  hash_password = λ p. ok p;
  seed = none;
  storage_init = none;
  ftp_start = none;
  host_key = none;
  sftp_start = some (ascii "in use");
  admin_failure = none;
  ftp_stop = none;
}

-- Nothing stops the FTP server then.
run_test :
    (run parsers port_taken both_on).1
    ≡ pool_opened ∷ migrated ∷ logger_opened ∷ storage_ready ∷ ftp_started ∷ logger_closed
      ∷ pool_closed ∷ []
unfolding run text_beq ascii
run_test = refl

port_range_of-itoa_example :
    port_range_of (itoa 2000 ++ (b'-' ∷ itoa 3000)) ≡ ok (record { start = 2000; end = 3000 })
port_range_of-itoa_example = port_range_of-itoa 2000 3000 (omega arith) (omega arith) (omega arith)

abbrev certificate : Text → Text → Certificate
certificate subject issuer = record { raw = subject; subject = subject; issuer = issuer }

-- Two intermediates below a root that is there as well, in the wrong order.
abbrev with_root : List Certificate
with_root =
    certificate (ascii "B") (ascii "A")
    ∷ certificate (ascii "C") (ascii "B")
    ∷ certificate (ascii "A") (ascii "A")
    ∷ []

-- The same two without the root.
abbrev without_root : List Certificate
without_root = certificate (ascii "C") (ascii "B") ∷ certificate (ascii "B") (ascii "A") ∷ []

with_root-≢ : with_root ≢ []
with_root-≢ h = ground arith

order_parsed-IsChain_example :
    (cs : List Certificate) × (order_parsed with_root
      ≡ some (chained (map (λ (c : Certificate). c.raw) cs)))
    × IsChain with_root cs
order_parsed-IsChain_example = order_parsed-IsChain with_root with_root-≢

order_parsed-missing_example :
    (before : List Certificate) × (c : Certificate) × (after : List Certificate) × (without_root
      ≡ before ++ (c ∷ after))
    × (any (is_missing without_root) before ≡ false)
    × (is_missing without_root c ≡ true)
    × (order_parsed without_root ≡ some (chained (c.raw ∷ [])))
unfolding text_beq ascii
order_parsed-missing_example = order_parsed-missing without_root refl

-- C, which B certifies, is lost.
order_parsed_test : order_parsed without_root ≡ some (chained (ascii "B" ∷ []))
unfolding order_parsed text_beq ascii
order_parsed_test = refl

abbrev disk : AferoFs
disk = cos_mount memory (ascii "r")

abbrev makes_folder : Request
makes_folder = record { method = ascii "Mkdir"; filepath = ascii "/d"; target = [] }

abbrev plugin : CosPlugin ℕ
plugin = record {
  bucket = ascii "b";
  region = ascii "s";
  static_secret_id = ascii "i";
  static_secret_key = ascii "k";
  static_session_token = [];
  sts_refresh_ratio = 0;
}

abbrev hook : Client memory → Client memory → List Event
hook = cos_hook plugin

serve_sftp-trail_example :
    (es : List Event) × ((serve_sftp plain_net disk
        (ascii "cos")
        (ascii "h")
        3
        hook
        true
        (ok (some alice))
        (ok tt)
        (λ v. SftpCall.commands makes_folder ∷ [])
        (client_of [], [])).1
      ≡ []
        ++ (es
            ++ (logout_event (mount_for plain_net disk (ascii "cos") (ascii "h") 3 hook alice)
                ∷ [])))
    × All (IsOwnOrRefresh (mount_for plain_net disk (ascii "cos") (ascii "h") 3 hook alice)) es
serve_sftp-trail_example =
    serve_sftp-trail plain_net disk (ascii "cos") (ascii "h") 3 hook (cos_hook-IsRefresh plugin)
      alice (λ v. SftpCall.commands makes_folder ∷ []) (client_of [], [])
