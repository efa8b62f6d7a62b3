-- ===== src/Startup/Wiring.antt =====
-- The servers that `run` of cmd/ftp-server/main.go makes of a configuration.
use cloud_file_server.Base.{
  ◌≡◌, true, none, some, Result, ok, ltb, arith, Bool-cases, if◌then◌else◌, Result-cases, inl, inr,
}
use cloud_file_server.Text.{Text}
use cloud_file_server.Config.{Parsers, Config, Env, load}
use cloud_file_server.Config.Laws.{IsPortRange, load-IsLoaded}
use cloud_file_server.Ftpserver.Settings.{Server, Settings, get_settings, listen_addr_of}
use cloud_file_server.Startup.{ftp_server_of}

module _ {L : Type 0} (listen : Text → Result Text L) (s : Server) (out : Settings L) where
  -- What GetSettings hands on as it is, or not at all.
  get_settings-fields :
      get_settings listen s ≡ ok out
      → (out.listen_addr ≡ listen_addr_of s)
        × (out.passive_transfer_port_range
            ≡ (if ltb 0 s.passive_port_range.end then some s.passive_port_range else none))
  unfolding get_settings
  get_settings-fields h = elim (Bool-cases s.proxy_protocol) [
    | inr plain ↦ ground arith
    | inl proxied ↦ elim (Result-cases (listen (listen_addr_of s))) [
      | inl (ln, fine) ↦ ground arith
      | inr (message, bad) ↦ absurd (ground arith)
    ]
  ]

-- The settings that the FTP server of a configuration that Load returned hands to its library listen where
-- the configuration says, and have its passive ports, of which 1 ≤ start < end ≤ 65535, never the
-- library's own choice.
pub get_settings-IsPortRange :
    {L : Type 0} (P : Parsers) (env : Env) (cfg : Config P) (listen : Text → Result Text L)
    (out : Settings L)
    → load P env ≡ ok cfg
    → get_settings listen (ftp_server_of cfg) ≡ ok out
    → (out.listen_addr ≡ cfg.ftp_listen)
      × (out.passive_transfer_port_range ≡ some cfg.passive_port_range)
      × IsPortRange cfg.passive_port_range
unfolding ftp_server_of listen_addr_of
get_settings-IsPortRange P env cfg listen out loaded h =
    let ports = (load-IsLoaded P env cfg loaded).ports in
    let positive : ltb 0 cfg.passive_port_range.end ≡ true = ground (arith, ports.ascending) in
    let (addr, range) = get_settings-fields listen (ftp_server_of cfg) out h in
    (ground (arith, addr), ground (arith, range), ports)
