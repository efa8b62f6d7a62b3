-- ===== src/Cos/Sts/Laws.antt =====
-- Where the credentials of internal/cos/creds.go come from, and when a chain can be built.
use cloud_file_server.Base.{
  ℕ, ◌+◌, ◌*◌, ◌≡◌, ◌∙◌, ◌<◌, refl, Bool, true, false, not, ◌&&◌, ◌||◌, [], Option, none, ok, err,
  ltb, nat_beq, nat_beq_iff, if◌then◌else◌, arith, Bool-cases, Result-cases, inl, inr, ◌⊎◌,
}
use cloud_file_server.Text.{Text, text_beq}
use cloud_file_server.Config.{Env}
use cloud_file_server.Cos.{Err, Creds}
use cloud_file_server.Cos.Chain.{Chain, Sts, no_sts, oidc_sts, new_chain_from_env}
use cloud_file_server.Cos.Sts.{
  OidcSts, has_tke_pod_identity, new_oidc_sts, error_of, chain_from_env, StsResponse, Wire,
  one_second, creds_of, read_answer, request_of, sts_get,
}

creds_of-ok :
    (now : ℕ) (out : StsResponse) (c : Creds)
    → creds_of now out ≡ ok c
    → (c.id ≡ out.tmp_secret_id)
      × (c.key ≡ out.tmp_secret_key)
      × (c.token ≡ out.token)
      × (text_beq c.id [] ≡ false)
      × (text_beq c.key [] ≡ false)
      × (((0 < out.expired_time) × (c.expiry ≡ out.expired_time * one_second))
          ⊎ (c.expiry ≡ now + 3600 * one_second))
unfolding creds_of
creds_of-ok now out c h =
    elim (Bool-cases (text_beq out.tmp_secret_id [] || text_beq out.tmp_secret_key [])) [
      | inl missing ↦ absurd (ground arith)
      | inr complete ↦ elim (Bool-cases (ltb 0 out.expired_time)) [
        | inl given ↦ ground arith
        | inr not_given ↦ ground arith
      ]
    ]

module _ (W : Wire) where
  -- What stands behind credentials of the token service: an answer with status 200 to a request with the
  -- token of the file, both halves of the pair, and an end of their life.
  pub record IsGranted (o : OidcSts) (s : W.State) (c : Creds) : Type 0 where
    pub tok : Text
    pub raw : Text
    pub out : StsResponse
    pub read : W.read_file o.token_file s ≡ ok tok
    pub answered : (W.post (request_of W o tok (W.now s)) s).0 ≡ ok (200, raw)
    pub decoded : W.unmarshal raw ≡ ok out
    pub same_id : c.id ≡ out.tmp_secret_id
    pub same_key : c.key ≡ out.tmp_secret_key
    pub same_token : c.token ≡ out.token
    pub has_id : text_beq c.id [] ≡ false
    pub has_key : text_beq c.key [] ≡ false
    pub expires :
        ((0 < out.expired_time) × (c.expiry ≡ out.expired_time * one_second))
        ⊎ (c.expiry ≡ W.now (W.post (request_of W o tok (W.now s)) s).1 + 3600 * one_second)

  -- Credentials of the token service are those of an answer with status 200 to a request with the token of
  -- the file; neither half of the pair is empty, and they last as the answer says, or for an hour.
  sts_get-IsGranted :
      (o : OidcSts) (s : W.State) (c : Creds) → (sts_get W o s).0 ≡ ok c → IsGranted o s c
  unfolding sts_get read_answer
  sts_get-IsGranted o s c h = elim (Result-cases (W.read_file o.token_file s)) [
    | inr (e, bad) ↦ absurd (ground arith)
    | inl (tok, fine) ↦
        let s1 : W.State = (W.post (request_of W o tok (W.now s)) s).1 in
        elim (Result-cases (W.post (request_of W o tok (W.now s)) s).0) [
          | inr (e, bad) ↦ absurd (ground arith)
          | inl ((status, raw), answered) ↦ elim (Bool-cases (nat_beq status 200)) [
            | inr other ↦ absurd (ground arith)
            | inl is_ok ↦ elim (Result-cases (W.unmarshal raw)) [
              | inr (e, bad) ↦ absurd (ground arith)
              | inl (out, decoded) ↦
                  let k : creds_of (W.now s1) out ≡ ok c = ground arith in
                  let status_ok : status ≡ 200 = ground (arith, nat_beq_iff status 200) in
                  let (id, key, token, has_id, has_key, expires) = creds_of-ok (W.now s1) out c k in
                  record {
                    tok = tok;
                    raw = raw;
                    out = out;
                    read = fine;
                    answered = ground (arith, answered, status_ok);
                    decoded = decoded;
                    same_id = id;
                    same_key = key;
                    same_token = token;
                    has_id = has_id;
                    has_key = has_key;
                    expires = expires;
                  }
            ]
          ]
        ]
  ]

-- The client that a chain asks under pod identity.
abbrev sts_of : Bool → Sts
sts_of pod_identity = if pod_identity then oidc_sts else no_sts

-- Whether a chain has a source: pod identity, or a complete static pair.
abbrev has_source : Env → (id key : Text) → Bool
has_source env id key = has_tke_pod_identity env || (not (text_beq id []) && not (text_beq key []))

-- Pod identity is just what the client of the token service needs.
new_oidc_sts-error :
    (env : Env) → has_tke_pod_identity env ≡ true → error_of (new_oidc_sts env) ≡ none
unfolding has_tke_pod_identity new_oidc_sts
new_oidc_sts-error env h = ground arith

new_chain-pod :
    (id key token : Text) (margin : ℕ)
    → (c : Chain) × (new_chain_from_env id key token margin true none ≡ ok c) × (c.sts ≡ oidc_sts)
unfolding new_chain_from_env
new_chain-pod id key token margin = (_, refl, refl)

new_chain-static :
    (id key token : Text) (margin : ℕ) (e : Option Err) (static_available : Bool)
    → (not (text_beq id []) && not (text_beq key [])) ≡ static_available
    → ((c : Chain) × (new_chain_from_env id key token margin false e ≡ ok c)
        × (c.sts ≡ no_sts)
        × (static_available ≡ true))
      ⊎ ((x : Err) × (new_chain_from_env id key token margin false e ≡ err x)
          × (static_available ≡ false))
unfolding new_chain_from_env
new_chain-static id key token margin e static_available h =
    elim (Result-cases (new_chain_from_env id key token margin false e)) [
      | inl (c, built) ↦ inl (c, built, ground arith, ground arith)
      | inr (x, refused) ↦ inr (x, refused, ground arith)
    ]

chain_from_env-built :
    (env : Env) (id key token : Text) (margin : ℕ)
    → chain_from_env env id key token margin
      ≡ new_chain_from_env id key token margin
          (has_tke_pod_identity env)
          (error_of (new_oidc_sts env))
unfolding chain_from_env
chain_from_env-built env id key token margin = refl

-- A chain is built from the environment exactly if there is pod identity or a complete static pair, and
-- under pod identity it asks the token service, never the client that always fails.
chain_from_env-sources :
    (env : Env) (id key token : Text) (margin : ℕ)
    → ((c : Chain) × (chain_from_env env id key token margin ≡ ok c)
        × (c.sts ≡ sts_of (has_tke_pod_identity env))
        × (has_source env id key ≡ true))
      ⊎ ((e : Err) × (chain_from_env env id key token margin ≡ err e)
          × (has_source env id key ≡ false))
chain_from_env-sources env id key token margin =
    let same = chain_from_env-built env id key token margin in
    let static_available = not (text_beq id []) && not (text_beq key []) in
    elim (Bool-cases (has_tke_pod_identity env)) [
      | inl pod ↦
          let (c, built, asks) = new_chain-pod id key token margin in
          inl (c, same ∙ (rw (pod, new_oidc_sts-error env pod) built), rw (pod) asks, rw (pod) refl)
      | inr no_pod ↦
          elim (new_chain-static id key token margin (error_of (new_oidc_sts env)) static_available
            refl) [
              | inl (c, built, asks, static) ↦
                  inl (c, same ∙ (rw (no_pod) built), rw (no_pod) asks, rw (no_pod) static)
              | inr (x, refused, static) ↦ inr (x, same ∙ (rw (no_pod) refused), rw (no_pod) static)
            ]
    ]
