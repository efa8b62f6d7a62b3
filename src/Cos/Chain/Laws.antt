-- ===== src/Cos/Chain/Laws.antt =====
-- Which credentials the chain hands out.
use mathlib.Core.List.{map}
use cloud_file_server.Base.{
  ℕ, ◌+◌, ◌<◌, ◌≡◌, refl, sym, ap, succeeds, ◌≢◌, inl, inr, Bool, true, false, not, ◌&&◌, ◌||◌, [],
  ◌∷◌, Option, none, some, Result, ok, err, if◌then◌else◌, arith, Result-cases, Bool-cases,
  Option-cases,
}
use cloud_file_server.Text.{Text, ascii, text_beq, text_beq_iff}
use cloud_file_server.Cos.{Err, Creds, Cloud}
use cloud_file_server.Cos.Chain.{
  EnvStatic, Chain, Notice, new_chain_from_env, has_static, invalidate, cache_holds, ask_sts,
  chain_get, static_get, hour, choose, ask_static,
}

abbrev is_none : Option Err → Bool
is_none none = true
is_none (some _) = false

-- STS was asked and gave credentials.
abbrev pub is_answered : Option (Result Err Creds) → Bool
is_answered none = false
is_answered (some answer) = succeeds answer

-- Credentials that a source gave when it was asked.
pub data FromSource (C : Cloud) (c : Chain) (s : C.State) (got : Creds) (src : Text) : Type 0 where
  from_sts :
      c.use_pod_identity ≡ true
      → (C.sts_get s).0 ≡ ok got
      → src ≡ ascii "STS"
      → FromSource C c s got src
  from_static :
      (e : EnvStatic)
      → c.static ≡ some e
      → e.id ≢ []
      → e.key ≢ []
      → is_answered (ask_sts C c s).0 ≡ false
      → got
        ≡ record { id = e.id; key = e.key; token = e.tok; expiry = C.now (ask_sts C c s).1 + hour }
      → src ≡ ascii "AKSK"
      → FromSource C c s got src

-- Where handed-out credentials come from.
pub data Origin (C : Cloud) (c : Chain) (s : C.State) (got : Creds) (src : Text) : Type 0 where
  cached :
      c.curr ≡ got → c.src ≡ src → got.id ≢ [] → C.now s + c.margin < c.exp → Origin C c s got src
  sourced : cache_holds c (C.now s) ≡ false → FromSource C c s got src → Origin C c s got src

static_get-ok :
    (e : EnvStatic) (now : ℕ) (got : Creds)
    → static_get e now ≡ ok got
    → (e.id ≢ [])
      × (e.key ≢ [])
      × (got ≡ record { id = e.id; key = e.key; token = e.tok; expiry = now + hour })
unfolding static_get
static_get-ok e now got h = ground (arith, text_beq_iff e.id [], text_beq_iff e.key [])

module _ (C : Cloud) (c : Chain) (s : C.State) (got : Creds) (src : Text) where
  ask_static-ok :
      (sts_error : Option Err)
      → is_answered (ask_sts C c s).0 ≡ false
      → (ask_static C c sts_error (C.now (ask_sts C c s).1)).0 ≡ ok (got, src)
      → FromSource C c s got src
  unfolding ask_static
  ask_static-ok sts_error unanswered h = elim (Option-cases c.static) [
    | inl missing ↦ absurd (ground arith)
    | inr (e, here) ↦ elim (Result-cases (static_get e (C.now (ask_sts C c s).1))) [
      | inl (g, answered) ↦
          let (i, k, shape) = static_get-ok e (C.now (ask_sts C c s).1) g answered in
          from_static e here i k unanswered (ground arith) (ground arith)
      | inr (f, failed) ↦ absurd (ground arith)
    ]
  ]

  ask_sts-ok :
      (g : Creds)
      → (ask_sts C c s).0 ≡ some (ok g)
      → (c.use_pod_identity ≡ true) × ((C.sts_get s).0 ≡ ok g)
  unfolding ask_sts
  ask_sts-ok g h = ground arith

  choose-ok :
      (answer : Option (Result Err Creds))
      → (ask_sts C c s).0 ≡ answer
      → (choose C c answer (C.now (ask_sts C c s).1)).0 ≡ ok (got, src)
      → FromSource C c s got src
  unfolding choose
  choose-ok none a h = ask_static-ok none (ap is_answered a) h
  choose-ok (some (ok g)) a h =
      let (pod, answered) = ask_sts-ok g a in from_sts pod (ground arith) (ground arith)
  choose-ok (some (err e)) a h = ask_static-ok (some e) (ap is_answered a) h

  pub chain_get-ok : (chain_get C c s).0.0 ≡ ok (got, src) → Origin C c s got src
  unfolding chain_get
  chain_get-ok h = elim (Bool-cases (cache_holds c (C.now s))) [
    | inl hit ↦
        cached (ground arith) (ground arith)
          (unfold cache_holds in ground (arith, text_beq_iff c.curr.id []))
          (unfold cache_holds in ground arith)
    | inr miss ↦ sourced miss (choose-ok (ask_sts C c s).0 refl (simp miss at h))
  ]

-- The same credentials come from the same source if the cache is dropped.
FromSource-invalidate :
    (C : Cloud) (c : Chain) (s : C.State) {got : Creds} {src : Text}
    → FromSource C (invalidate c) s got src
    → FromSource C c s got src
unfolding invalidate ask_sts
FromSource-invalidate C c s (from_sts pod answered named) = from_sts pod answered named
FromSource-invalidate C c s (from_static e here i k unanswered shape named) =
    from_static e here i k unanswered shape named

-- Get after Invalidate never answers from the cache: what it hands out a source gave just then.
chain_get-invalidate :
    (C : Cloud) (c : Chain) (s : C.State) (got : Creds) (src : Text)
    → (chain_get C (invalidate c) s).0.0 ≡ ok (got, src)
    → FromSource C c s got src
chain_get-invalidate C c s got src h =
    FromSource-invalidate C c s (from_origin (chain_get-ok C (invalidate c) s got src h))
  where
    from_origin : Origin C (invalidate c) s got src → FromSource C (invalidate c) s got src
    from_origin (cached e f named alive) =
        absurd (named (sym (unfold invalidate in ap (λ (g : Creds). g.id) e)))
    from_origin (sourced miss f) = f

-- OnRefresh is called exactly when the cache did not answer, once, and told the outcome.
pub chain_get_notices :
    (C : Cloud) (c : Chain) (s : C.State)
    → map (λ (n : Notice). n.success) (chain_get C c s).0.2
      ≡ (if cache_holds c (C.now s) then [] else succeeds (chain_get C c s).0.0 ∷ [])
unfolding chain_get choose ask_static
chain_get_notices C c s = ground arith

abbrev falls_back : Result Err Chain → Bool
falls_back (ok c) = has_static c
falls_back (err _) = false

-- The server boots with a chain exactly if the static pair is set, or pod identity is there and its
-- client could be made; the chain has a static fallback exactly if the pair is set.
new_chain_boots :
    (id key token : Text) (margin : ℕ) (pod : Bool) (sts_error : Option Err)
    → let available = not (text_beq id []) && not (text_beq key []) in
      (succeeds (new_chain_from_env id key token margin pod sts_error)
        ≡ available || (pod && is_none sts_error))
      × (falls_back (new_chain_from_env id key token margin pod sts_error) ≡ available)
unfolding new_chain_from_env has_static static_get
new_chain_boots id key token margin pod sts_error = (ground arith, ground arith)
