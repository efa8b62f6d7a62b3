-- ===== src/Cos/Sts.antt =====
-- newOIDCSTS and oidcSTS.Get of internal/cos/creds.go, HasTKEPodIdentity, and NewChainFromEnv over the
-- environment. The file of the token, HTTP, JSON and the clock are the record Wire.
pub mod Laws
use cloud_file_server.Base.{
  ℕ, ◌+◌, ◌*◌, ◌/◌, ◌≡◌, ◌<◌, refl, Bool, true, false, not, ◌&&◌, ◌||◌, [], ◌∷◌, ◌++◌, Option, none,
  some, Result, ok, err, ltb, nat_beq, nat_beq_iff, succeeds, if◌then◌else◌, arith, Bool-cases,
  Result-cases, inl, inr, ◌⊎◌,
}
use cloud_file_server.Text.{Text, ascii, text_beq}
use cloud_file_server.Text.Spaces.{trim_space}
use cloud_file_server.Text.Numbers.Decimal.{itoa}
use cloud_file_server.Config.{Env}
use cloud_file_server.Cos.{Err, plain_error, Creds}
use cloud_file_server.Cos.Chain.{Chain, Sts, no_sts, noop_sts, oidc_sts, new_chain_from_env}

pub record OidcSts : Type 0 where
  pub role_arn : Text
  pub token_file : Text
  pub provider_id : Text
  pub region : Text

pub has_tke_pod_identity : Env → Bool
has_tke_pod_identity env =
    not (text_beq (env (ascii "TKE_ROLE_ARN")) [])
    && not (text_beq (env (ascii "TKE_WEB_IDENTITY_TOKEN_FILE")) [])

pub new_oidc_sts : Env → Result Err OidcSts
new_oidc_sts env =
    if text_beq (env (ascii "TKE_ROLE_ARN")) []
      || text_beq (env (ascii "TKE_WEB_IDENTITY_TOKEN_FILE")) []
    then err (
        plain_error
          (ascii "tke pod identity env not set (need TKE_ROLE_ARN + TKE_WEB_IDENTITY_TOKEN_FILE)"))
    else ok (record {
      role_arn = env (ascii "TKE_ROLE_ARN");
      token_file = env (ascii "TKE_WEB_IDENTITY_TOKEN_FILE");
      provider_id = env (ascii "TKE_PROVIDER_ID");
      region = env (ascii "TKE_REGION");
    })

abbrev pub error_of : {A : Type 0} → Result Err A → Option Err
error_of (err e) = some e
error_of (ok _) = none

-- `NewChainFromEnv`, which asks for the client of the token service only under pod identity.
pub chain_from_env : Env → (id key token : Text) → ℕ → Result Err Chain
unfolding has_tke_pod_identity new_oidc_sts new_chain_from_env
chain_from_env env id key token margin =
    new_chain_from_env id key token margin (has_tke_pod_identity env) (error_of (new_oidc_sts env))

-- What the request carries that is not the same in all; the time is in seconds.
pub record StsRequest : Type 0 where
  pub role_arn : Text
  pub web_identity_token : Text
  pub provider_id : Text
  pub timestamp : ℕ
  pub region : Option Text

-- The fields of the answer that the code reads; the time is in seconds, and 0 if there is none.
pub record StsResponse : Type 0 where
  pub token : Text
  pub tmp_secret_id : Text
  pub tmp_secret_key : Text
  pub expired_time : ℕ

-- `os.ReadFile`, `http.Client.Do` with the status and the body of its answer, `json.Unmarshal`, and
-- `time.Now`.
pub record Wire : Type 1 where
  pub State : Type 0
  pub now : State → ℕ
  pub read_file : Text → State → Result Err Text
  pub post : StsRequest → State → Result Err (ℕ × Text) × State
  pub unmarshal : Text → Result Err StsResponse

-- `%w` with a text in front.
abbrev wrapped : Text → Err → Err
wrapped what e = record e { message = what ++ e.message }

abbrev pub one_second : ℕ
one_second = 1_000_000_000

-- The credentials of an answer that came at some time.
pub creds_of : ℕ → StsResponse → Result Err Creds
creds_of now out =
    if text_beq out.tmp_secret_id [] || text_beq out.tmp_secret_key []
    then err (plain_error (ascii "sts returned empty credentials"))
    else ok (record {
      id = out.tmp_secret_id;
      key = out.tmp_secret_key;
      token = out.token;
      expiry =
          if ltb 0 out.expired_time then out.expired_time * one_second else now + 3600 * one_second;
    })

module _ (W : Wire) where
  pub read_answer : ℕ → ℕ → Text → Result Err Creds
  unfolding creds_of itoa
  read_answer now status raw =
      if not (nat_beq status 200)
      then err (plain_error (ascii "sts status " ++ itoa status ++ ascii ": " ++ raw))
      else elim (W.unmarshal raw) [
        | err e ↦ err (wrapped (ascii "decode sts response: ") e)
        | ok out ↦ creds_of now out
      ]

  abbrev pub request_of : OidcSts → Text → ℕ → StsRequest
  request_of o tok now = record {
    role_arn = o.role_arn;
    web_identity_token = trim_space tok;
    provider_id = o.provider_id;
    timestamp = now / one_second;
    region = if text_beq o.region [] then none else some o.region;
  }

  pub sts_get : OidcSts → W.State → Result Err Creds × W.State
  unfolding read_answer trim_space
  sts_get o s = elim (W.read_file o.token_file s) [
    | err e ↦ (err (wrapped (ascii "read web-identity token: ") e), s)
    | ok tok ↦
        let (answer, s1) = W.post (request_of o tok (W.now s)) s in
        elim answer [
          | err e ↦ (err (wrapped (ascii "sts request: ") e), s1)
          | ok (status, raw) ↦ (read_answer (W.now s1) status raw, s1)
        ]
  ]
