-- ===== src/Ftpserver/Settings.antt =====
-- GetSettings, WrapPassiveListener, GetTLSConfig and logTLSState of internal/ftpserver/server.go.
use cloud_file_server.Base.{
  ◌≡◌, ◌∙◌, refl, ap, ℕ, ◌-◌, ◌*◌, ◌/◌, Bool, ◌&&◌, List, [], ◌∷◌, ◌++◌, Option, none, some, Result,
  ok, err, ltb, leb, if◌then◌else◌,
}
use cloud_file_server.Base.Int.{ℤ, pos, negsuc}
use cloud_file_server.Text.{Text, ascii, text_beq}
use cloud_file_server.Text.Numbers.Decimal.{itoa}
use cloud_file_server.Config.Ports.{PortRange}
use cloud_file_server.Ftpserver.CertChain.{Loaded, load_panic, load_error, loaded}

-- `TLSConfig`
pub record TlsFiles : Type 0 where
  pub cert_file : Text
  pub key_file : Text

-- The fields of Server that are set before it starts; durations are in nanoseconds.
pub record Server : Type 0 where
  pub addr : Text
  pub port : ℕ
  pub public_host : Text
  pub passive_port_range : PortRange
  pub idle_timeout : ℤ
  pub proxy_protocol : Bool
  pub tls : Option TlsFiles

-- A listener, behind the one that unwraps the PROXY protocol or not.
pub data Listener (L : Type 0) : Type 0 where
  plain : L → Listener L
  proxied : L → Listener L

-- `ftpserver.Settings`, less the three switches that never change: neither data connection is checked
-- against the address of the control connection, and active ones do not leave from port 20.
pub record Settings (L : Type 0) : Type 0 where
  pub listen_addr : Text
  pub public_host : Text
  pub passive_transfer_port_range : Option PortRange
  pub idle_timeout : ℕ
  pub listener : Option (Listener L)

unfoldable pub listen_addr_of : Server → Text
unfolding itoa
listen_addr_of s = if text_beq s.addr [] && ltb 0 s.port then b':' ∷ itoa s.port else s.addr

-- Whole seconds of a positive time; 0 leaves the library's default.
abbrev idle_seconds : ℤ → ℕ
idle_seconds (pos n) = n / 1_000_000_000
idle_seconds (negsuc _) = 0

abbrev pub settings_with : {L : Type 0} → Server → Option (Listener L) → Settings L
settings_with s listener = record {
  listen_addr = listen_addr_of s;
  public_host = s.public_host;
  passive_transfer_port_range =
      if ltb 0 s.passive_port_range.end then some s.passive_port_range else none;
  idle_timeout = idle_seconds s.idle_timeout;
  listener = listener;
}

-- `listen` is net.Listen, with the text of its error.
unfoldable pub get_settings :
    {L : Type 0} → (Text → Result Text L) → Server → Result Text (Settings L)
unfolding listen_addr_of
get_settings listen s =
    if s.proxy_protocol
    then elim (listen (listen_addr_of s)) [
      | err message ↦ err (ascii "ftpserver: proxy-protocol listen: " ++ message)
      | ok ln ↦ ok (settings_with s (some (proxied ln)))
    ]
    else ok (settings_with s none)

unfoldable wrap_passive_listener : {L : Type 0} → Server → L → Listener L
wrap_passive_listener s l = if s.proxy_protocol then proxied l else plain l

-- What GetTLSConfig answers: a panic, an error, the configuration, by the chain that it serves, or
-- `(nil, nil)`.
pub data TlsAnswer : Type 0 where
  tls_panic : TlsAnswer
  tls_error : Text → TlsAnswer
  tls_config : List Text → TlsAnswer
  nil_config : TlsAnswer

-- The fields `tlsConfig` and `tlsConfigErr`, once `tlsConfigOnce` has run.
pub data Kept : Type 0 where
  kept_nothing : Kept
  kept_error : Text → Kept
  kept_chain : List Text → Kept

abbrev answer_kept : Kept → TlsAnswer
answer_kept kept_nothing = nil_config
answer_kept (kept_error message) = tls_error message
answer_kept (kept_chain chain) = tls_config chain

-- The first call; a panic leaves the fields nil, and Once counts it as done.
first_call : Loaded → TlsAnswer × Kept
first_call load_panic = (tls_panic, kept_nothing)
first_call (load_error message) =
    let full = ascii "ftpserver: tls: " ++ message in (tls_error full, kept_error full)
first_call (loaded chain) = (tls_config chain, kept_chain chain)

-- `GetTLSConfig`, with what is kept from the calls before; `load` is loadCertChain on the files as they
-- are now.
get_tls_config : (TlsFiles → Loaded) → Server → Option Kept → TlsAnswer × Option Kept
unfolding first_call
get_tls_config load s kept = elim s.tls [
  | none ↦ (tls_error (ascii "ftpserver: TLS not configured"), kept)
  | some files ↦ elim kept [
    | some k ↦ (answer_kept k, some k)
    | none ↦ let (answer, k) = first_call (load files) in (answer, some k)
  ]
]

-- What logTLSState writes, without its fields: the level and the number of days.
pub data TlsState : Type 0 where
  disabled : TlsState
  load_failed : Text → TlsState
  no_leaf : TlsState
  parse_failed : TlsState
  expired : (days_left : ℤ) → TlsState
  expiring_soon : (days_left : ℕ) → TlsState
  valid : (days_left : ℕ) → TlsState

-- Whole days, towards zero, from an instant to another one.
days_until : ℕ → ℕ → ℤ
days_until now then_at =
    let day = 24 * 3600 * 1_000_000_000 in
    let late = (now - then_at) / day in
    if leb now then_at
    then pos ((then_at - now) / day)
    else if ltb 0 late
    then negsuc (late - 1)
    else pos 0

classify_days : ℤ → TlsState
classify_days (negsuc n) = expired (negsuc n)
classify_days (pos n) = if ltb n 30 then expiring_soon n else valid n

-- `load_key_pair` is tls.LoadX509KeyPair, the certificates of the pair or an error, and `not_after` the
-- end of the leaf's validity, if it parses.
unfoldable log_tls_state :
    (TlsFiles → Result Text (List Text)) → (Text → Option ℕ) → ℕ → Server → TlsState
unfolding days_until classify_days
log_tls_state load_key_pair not_after now s = elim s.tls [
  | none ↦ disabled
  | some files ↦ elim (load_key_pair files) [
    | err message ↦ load_failed message
    | ok [] ↦ no_leaf
    | ok (leaf ∷ _) ↦ elim (not_after leaf) [
      | none ↦ parse_failed
      | some t ↦ classify_days (days_until now t)
    ]
  ]
]

-- GetTLSConfig asked again and again, with the files as they are each time.
abbrev asked_again : List (TlsFiles → Loaded) → Server → Option Kept → Option Kept
asked_again [] s kept = kept
asked_again (load ∷ loads) s kept = asked_again loads s (get_tls_config load s kept).1

get_tls_config-some :
    (load : TlsFiles → Loaded) (s : Server) (f : TlsFiles) (k : Kept)
    → s.tls ≡ some f
    → get_tls_config load s (some k) ≡ (answer_kept k, some k)
unfolding get_tls_config
get_tls_config-some load s f k h = rw (h, get_tls_config) refl

asked_again-some :
    (loads : List (TlsFiles → Loaded)) (s : Server) (f : TlsFiles) (k : Kept)
    → s.tls ≡ some f
    → asked_again loads s (some k) ≡ some k
asked_again-some [] s f k h = refl
asked_again-some (load ∷ loads) s f k h =
    ap (λ (r : TlsAnswer × Option Kept). asked_again loads s r.1) (get_tls_config-some load s f k h)
    ∙ asked_again-some loads s f k h

get_tls_config-first :
    (load : TlsFiles → Loaded) (s : Server) (f : TlsFiles)
    → s.tls ≡ some f
    → (get_tls_config load s none).1 ≡ some (first_call (load f)).1
unfolding get_tls_config
get_tls_config-first load s f h = rw (h, get_tls_config) refl

-- What the first call came to decides every later one: the same configuration, or the same error, or
-- `(nil, nil)` after a panic, whatever the files hold by then.
get_tls_config-kept :
    (first later : TlsFiles → Loaded) (between : List (TlsFiles → Loaded)) (s : Server)
    (f : TlsFiles)
    → s.tls ≡ some f
    → (get_tls_config later s (asked_again between s (get_tls_config first s none).1)).0
      ≡ answer_kept (first_call (first f)).1
get_tls_config-kept first later between s f h =
    let k = (first_call (first f)).1 in
    ap (λ o. (get_tls_config later s (asked_again between s o)).0)
      (get_tls_config-first first s f h)
    ∙ ap (λ o. (get_tls_config later s o).0) (asked_again-some between s f k h)
    ∙ ap (λ (r : TlsAnswer × Option Kept). r.0) (get_tls_config-some later s f k h)
