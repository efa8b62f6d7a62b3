-- ===== src/Cos/Chain.antt =====
-- Chain of internal/cos/creds.go: STS first, the static pair second, and a cache in front.
pub mod Laws
use cloud_file_server.Base.{
  ℕ, ◌+◌, Bool, true, false, not, ◌&&◌, ◌||◌, List, [], ◌∷◌, ◌++◌, Option, none, some, Result, ok,
  err, ltb, if◌then◌else◌,
}
use cloud_file_server.Text.{Text, ascii, text_beq}
use cloud_file_server.Cos.{Err, plain_error, Creds, zero_creds, Cloud}

-- `envStatic`
pub record EnvStatic : Type 0 where
  pub id : Text
  pub key : Text
  pub tok : Text

-- `stsClient` as the chain holds it for STS: none, `noopSTS`, or the real client.
pub data Sts : Type 0 where
  no_sts : Sts
  noop_sts : Err → Sts
  oidc_sts : Sts

-- `margin` is `time.Hour * (1 - refreshRatio)` in nanoseconds, the product of floats taken as a
-- whole number; it stands for a ratio of at most 1.
pub record Chain : Type 0 where
  pub sts : Sts
  pub static : Option EnvStatic
  pub use_pod_identity : Bool
  pub margin : ℕ
  pub curr : Creds
  pub src : Text
  pub exp : ℕ

-- One call of `OnRefresh`.
pub record Notice : Type 0 where
  pub source : Text
  pub success : Bool
  pub error : Option Err

abbrev pub hour : ℕ
hour = 3_600_000_000_000

pub static_get : EnvStatic → ℕ → Result Err Creds
static_get e now =
    if text_beq e.id [] || text_beq e.key []
    then err (plain_error (ascii "no static creds configured"))
    else ok (record { id = e.id; key = e.key; token = e.tok; expiry = now + hour })

no_pod_identity : Text
unfolding ascii
no_pod_identity =
    ascii
      "pod identity expected (TKE_WEB_IDENTITY_TOKEN_FILE set) but unavailable and COS_STATIC_SECRET_ID/KEY is unset: "

no_source : Text
unfolding ascii
no_source =
    ascii
      "no credential source configured: set COS_STATIC_SECRET_ID + COS_STATIC_SECRET_KEY, or run with TKE pod identity (TKE_WEB_IDENTITY_TOKEN_FILE mounted)"

-- `NewChainFromEnv`; `pod_identity` is `HasTKEPodIdentity`, and `sts_error` the error of `newOIDCSTS`,
-- which a `%w` wraps: `errors.Is` and `errors.As` still see it.
unfoldable pub new_chain_from_env : Text → Text → Text → ℕ → Bool → Option Err → Result Err Chain
unfolding no_pod_identity no_source
new_chain_from_env id key token margin pod_identity sts_error =
    let static_available = not (text_beq id []) && not (text_beq key []) in
    let chain : Sts → Chain = λ sts. record {
      sts = sts;
      static = some (record { id = id; key = key; tok = token });
      use_pod_identity = pod_identity;
      margin = margin;
      curr = zero_creds;
      src = [];
      exp = 0;
    } in
    if pod_identity
    then elim sts_error [
      | none ↦ ok (chain oidc_sts)
      | some e ↦
          if not static_available
          then err (record e { message = no_pod_identity ++ e.message })
          else ok (chain (noop_sts e))
    ]
    else if not static_available
    then err (plain_error no_source)
    else ok (chain no_sts)

-- `HasStatic`
pub has_static : Chain → Bool
has_static c = elim c.static [
  | none ↦ false
  | some e ↦ elim (static_get e 0) [ ok _ ↦ true | err _ ↦ false ]
]

pub invalidate : Chain → Chain
invalidate c = record c { curr = zero_creds; src = []; exp = 0 }

-- The cache answers while more than `margin` of the lifetime is left.
unfoldable pub cache_holds : Chain → ℕ → Bool
cache_holds c now = not (text_beq c.curr.id []) && ltb (now + c.margin) c.exp

module _ (C : Cloud) where
  -- What `c.sts.Get` answers, where the chain asks it at all.
  unfoldable pub ask_client : Sts → C.State → Option (Result Err Creds) × C.State
  ask_client no_sts s = (none, s)
  ask_client (noop_sts e) s = (some (err e), s)
  ask_client oidc_sts s = let (answer, s') = C.sts_get s in (some answer, s')

  unfoldable pub ask_sts : Chain → C.State → Option (Result Err Creds) × C.State
  unfolding ask_client
  ask_sts c s = if c.use_pod_identity then ask_client c.sts s else (none, s)

  abbrev keep : Chain → Creds → Text → Chain
  keep c got src = record c { curr = got; src = src; exp = got.expiry }

  -- What `Get` returns and calls `OnRefresh` with.
  abbrev Resolved : Type 0
  Resolved = Result Err (Creds × Text) × Chain × List Notice

  abbrev resolved : Chain → Creds → Text → Resolved
  resolved c got src =
      (ok (got, src), keep c got src, record { source = src; success = true; error = none } ∷ [])

  abbrev unresolved : Chain → Err → Resolved
  unresolved c e = (err e, c, record { source = []; success = false; error = some e } ∷ [])

  -- The error that counts where no source gave credentials.
  abbrev last_error : Option Err → Err
  last_error none = plain_error (ascii "cos: no credential source available")
  last_error (some e) = e

  ask_static : Chain → Option Err → ℕ → Resolved
  unfolding static_get
  ask_static c sts_error now = elim c.static [
    | none ↦ unresolved c (last_error sts_error)
    | some e ↦ elim (static_get e now) [
      | ok got ↦ resolved c got (ascii "AKSK")
      | err _ ↦ unresolved c (last_error sts_error)
    ]
  ]

  choose : Chain → Option (Result Err Creds) → ℕ → Resolved
  unfolding ask_static
  choose c none now = ask_static c none now
  choose c (some (ok got)) now = resolved c got (ascii "STS")
  choose c (some (err e)) now = ask_static c (some e) now

  -- `Get`
  unfoldable pub chain_get : Chain → C.State → Resolved × C.State
  unfolding choose
  chain_get c s =
      if cache_holds c (C.now s)
      then ((ok (c.curr, c.src), c, []), s)
      else let (answer, s') = ask_sts c s in (choose c answer (C.now s'), s')
