-- ===== src/Cos/Client/Laws.antt =====
-- How an operation of the client uses the cloud.
use cloud_file_server.Base.{
  ◌≡◌, sym, some, Result-cases, Option-cases, Bool-cases, inl, inr, arith, subst,
}
use cloud_file_server.Cos.{Err, is_auth_err, Creds, Cloud}
use cloud_file_server.Cos.Chain.{
  Chain, Sts, no_sts, noop_sts, oidc_sts, chain_get, ask_sts, ask_client, cache_holds, invalidate,
}
use cloud_file_server.Cos.Client.{Client, Op, refresh, refresh_from, request, retry, do_op, perform}

refresh_from-cloud :
    (C : Cloud) (chain : Chain) (c : Client C)
    → (refresh_from C chain c).1.cloud ≡ (chain_get C chain c.cloud).1
unfolding refresh_from
refresh_from-cloud C chain c = ground arith

module _ (C : Cloud) where
  -- What every call of the token service keeps.
  abbrev pub StsKeeps : (C.State → Type 0) → Type 0
  StsKeeps I = (s : C.State) → I s → I (C.sts_get s).1

  module _ (I : C.State → Type 0) (sts : StsKeeps I) where
    ask_client-keeps : (t : Sts) (s : C.State) → I s → I (ask_client C t s).1
    unfolding ask_client
    ask_client-keeps no_sts s h = h
    ask_client-keeps (noop_sts e) s h = h
    ask_client-keeps oidc_sts s h = sts s h

    ask_sts-keeps : (c : Chain) (s : C.State) → I s → I (ask_sts C c s).1
    unfolding ask_sts
    ask_sts-keeps c s h = elim (Bool-cases c.use_pod_identity) [
      | inl pod ↦ simp pod (ask_client-keeps c.sts s h)
      | inr bare ↦ simp bare h
    ]

    chain_get-keeps : (c : Chain) (s : C.State) → I s → I (chain_get C c s).1
    unfolding chain_get
    chain_get-keeps c s h = elim (Bool-cases (cache_holds c (C.now s))) [
      | inl hit ↦ simp hit h
      | inr miss ↦ simp miss (ask_sts-keeps c s h)
    ]

    refresh_from-keeps :
        (chain : Chain) (c : Client C) → I c.cloud → I (refresh_from C chain c).1.cloud
    refresh_from-keeps chain c h =
        subst I (sym (refresh_from-cloud C chain c)) (chain_get-keeps chain c.cloud h)

    pub refresh-keeps : (c : Client C) → I c.cloud → I (refresh C c).1.cloud
    unfolding refresh
    refresh-keeps c h = elim (Option-cases c.chain) [
      | inl bare ↦ rw (bare, refresh) h
      | inr (chain, e) ↦ rw (e, refresh) (refresh_from-keeps chain c h)
    ]

    module _ {R A : Type 0} (op : Op C R A)
        (keeps : (creds : Creds) (r : R) (s : C.State) → I s → I (op creds r s).1) where
      request-keeps : (r : R) (c : Client C) → I c.cloud → I (request C op r c).1.cloud
      unfolding request
      request-keeps r c h = keeps c.curr r c.cloud h

      retry-keeps :
          (e : Err) (r : R) (chain : Chain) (c : Client C)
          → I c.cloud
          → I (retry C op e r chain c).1.cloud
      unfolding retry
      retry-keeps e r chain c h =
          let c0 : Client C = record c { chain = some (invalidate chain) } in
          elim (Result-cases (refresh C c0).0) [
            | inl (_, fine) ↦
                rw (fine, retry) (request-keeps r (refresh C c0).1 (refresh-keeps c0 h))
            | inr (_, failed) ↦ rw (failed, retry) (refresh-keeps c0 h)
          ]

      do_op-keeps : (r : R) (c : Client C) → I c.cloud → I (do_op C op r c).1.cloud
      unfolding do_op
      do_op-keeps r c h =
          let c1 : Client C = (request C op r c).1 in
          let h1 : I c1.cloud = request-keeps r c h in
          elim (Result-cases (request C op r c).0.0) [
            | inl (_, fine) ↦ rw (fine, do_op) h1
            | inr (e, failed) ↦ elim (Bool-cases (is_auth_err e)) [
              | inr other ↦ rw (failed, do_op) (rw other h1)
              | inl auth ↦ elim (Option-cases c1.chain) [
                | inl bare ↦ rw (failed, do_op) (rw (auth, bare) h1)
                | inr (chain, here) ↦
                    rw (failed, do_op)
                      (rw (auth, here) (retry-keeps e (request C op r c).0.1 chain c1 h1))
              ]
            ]
          ]

      -- An operation keeps what each request and each call of the token service keeps, whether it
      -- succeeds, fails, or is sent twice.
      pub perform-keeps : (r : R) (c : Client C) → I c.cloud → I (perform C op r c).1.cloud
      unfolding perform
      perform-keeps r c h = elim (Result-cases (refresh C c).0) [
        | inl (_, fine) ↦ rw (fine, perform) (do_op-keeps r (refresh C c).1 (refresh-keeps c h))
        | inr (_, failed) ↦ rw (failed, perform) (refresh-keeps c h)
      ]
