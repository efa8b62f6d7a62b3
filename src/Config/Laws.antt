-- ===== src/Config/Laws.antt =====
-- What Load of internal/config/config.go promises of a configuration that it returns.
use cloud_file_server.Base.{
  ◌≤◌, ◌<◌, ◌≡◌, ◌≢◌, refl, sym, ◌*◌, [], ok, arith, Bool-cases, Result-cases, Option-cases, inl,
  inr,
}
use cloud_file_server.Base.Int.{pos, negsuc}
use cloud_file_server.Text.{Text, ascii, text_beq, text_beq_iff}
use cloud_file_server.Config.{
  Parsers, Config, Env, second, optional, port_range_of, parse_days, config_of, load,
}
use cloud_file_server.Config.Ports.{PortRange, scan_range}

-- The two ports are ports, in order.
pub record IsPortRange (r : PortRange) : Type 0 where
  pub positive : 1 ≤ r.start
  pub ascending : r.start < r.end
  pub fits : r.end ≤ 65535

port_range_of-IsPortRange : (v : Text) (r : PortRange) → port_range_of v ≡ ok r → IsPortRange r
unfolding port_range_of
port_range_of-IsPortRange v r h = elim (Bool-cases (text_beq v [])) [
  | inl unset ↦ record { positive = ground arith; ascending = ground arith; fits = ground arith }
  | inr given ↦ elim (Option-cases (scan_range v)) [
    | inl bad ↦ absurd (ground arith)
    | inr ((negsuc _, _), e) ↦ absurd (ground arith)
    | inr ((pos _, negsuc _), e) ↦ absurd (ground arith)
    | inr ((pos s, pos t), e) ↦ record {
      positive = ground arith;
      ascending = ground arith;
      fits = ground arith;
    }
  ]
]

module _ (P : Parsers) where
  -- Where the fields of a configuration come from that Load returns.
  pub record IsLoaded (env : Env) (c : Config P) : Type 0 where
    pub ports : IsPortRange c.passive_port_range
    pub same_ports : port_range_of (env (ascii "FTP_PASSIVE_PORT_RANGE")) ≡ ok c.passive_port_range
    pub database : c.database_url ≡ env (ascii "DATABASE_URL")
    pub has_database : c.database_url ≢ []

  -- A configuration that Load returns has a passive port range of 1 ≤ start < end ≤ 65535, the one that
  -- the environment asks for, and the database's address, which is not empty.
  pub load-IsLoaded : (env : Env) (c : Config P) → load P env ≡ ok c → IsLoaded env c
  unfolding load config_of
  load-IsLoaded env c h =
      let ratio = optional env (ascii "STS_REFRESH_RATIO") P.parse_float P.four_fifths in
      elim (Result-cases (port_range_of (env (ascii "FTP_PASSIVE_PORT_RANGE")))) [
        | inr (e, bad) ↦ absurd (ground arith)
        | inl (ports, fine) ↦
            elim (Result-cases
              (optional env (ascii "FTP_IDLE_TIMEOUT") P.parse_duration (pos (300 * second)))) [
                | inr (e, bad) ↦ absurd (ground arith)
                | inl (idle, fine2) ↦ elim (Result-cases ratio) [
                  | inr (e, bad) ↦ absurd (ground arith)
                  | inl (f, fine3) ↦
                      elim (Result-cases
                        (optional env (ascii "AUDIT_RETENTION_DAYS") parse_days (pos 365))) [
                          | inr (e, bad) ↦ absurd (ground arith)
                          | inl (days, fine4) ↦
                              elim (Bool-cases (text_beq (env (ascii "DATABASE_URL")) [])) [
                                | inl unset ↦ absurd (ground arith)
                                | inr set ↦
                                    let same : config_of P env ports idle f days ≡ c =
                                      ground arith in
                                    rw (sym same) (record {
                                      ports = port_range_of-IsPortRange _ ports fine;
                                      same_ports = fine;
                                      database = refl;
                                      has_database =
                                          ground
                                            (arith, text_beq_iff (env (ascii "DATABASE_URL")) []);
                                    })
                              ]
                        ]
                ]
              ]
      ]
