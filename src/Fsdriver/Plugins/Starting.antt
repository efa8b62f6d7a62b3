-- ===== src/Fsdriver/Plugins/Starting.antt =====
-- What Init of the COS plug-in of internal/fsdriver/plugin.go reports.
use mathlib.Core.List.{map, map-append}
use cloud_file_server.Base.{
  ℕ, ◌≡◌, refl, sym, ap, ◌∙◌, Bool, true, false, List, [], ◌∷◌, ◌++◌, Option, ok, err, arith,
  Result-cases, inl, inr, ◌⊎◌, succeeds,
}
use cloud_file_server.Text.{Text, ascii, text_beq}
use cloud_file_server.Audit.Event.{Event}
use cloud_file_server.Cos.{Err, Cloud}
use cloud_file_server.Cos.Chain.{Chain, Notice, new_chain_from_env, chain_get, cache_holds}
use cloud_file_server.Cos.Chain.Laws.{chain_get_notices}
use cloud_file_server.Cos.Client.{Client, new_client_with_chain}
use cloud_file_server.Fsdriver.Plugins.{CosPlugin, refresh_event, connect, init_cos}

-- A chain with nothing in its cache.
fresh-cache :
    (id key token : Text) (margin : ℕ) (pod : Bool) (e : Option Err) (c : Chain)
    → new_chain_from_env id key token margin pod e ≡ ok c
    → c.curr.id ≡ []
unfolding new_chain_from_env
fresh-cache id key token margin pod e c h = ground arith

cache_holds-empty : (c : Chain) (now : ℕ) → c.curr.id ≡ [] → cache_holds c now ≡ false
unfolding cache_holds text_beq
cache_holds-empty c now h = ground arith

-- Whether the events of a start are successes.
abbrev outcomes : List Event → List Bool
outcomes = map (λ (e : Event). e.success)

module _ {F : Type 0} (p : CosPlugin F) (C : Cloud) where
  outcomes-refresh_event :
      (ns : List Notice) → outcomes (map (refresh_event p) ns) ≡ map (λ (n : Notice). n.success) ns
  unfolding refresh_event
  outcomes-refresh_event [] = refl
  outcomes-refresh_event (n ∷ ns) = ap (λ l. n.success ∷ l) (outcomes-refresh_event ns)

  outcomes-chain_get :
      (c : Chain) (s : C.State)
      → c.curr.id ≡ []
      → outcomes (map (refresh_event p) (chain_get C c s).0.2) ≡ succeeds (chain_get C c s).0.0 ∷ []
  outcomes-chain_get c s h =
      outcomes-refresh_event (chain_get C c s).0.2
      ∙ chain_get_notices C c s
      ∙ (rw (cache_holds-empty c (C.now s) h) refl)

  connect-client :
      (c : Chain) (ns : List Notice) (s : C.State)
      → (k : Client C) × ((connect p C c ns s).client ≡ ok k)
  unfolding connect
  connect-client c ns s = (_, refl)

  connect-outcomes :
      (c : Chain) (ns : List Notice) (s : C.State)
      → (rest : List Bool) × (outcomes (connect p C c ns s).events
          ≡ outcomes (map (refresh_event p) ns) ++ rest)
  unfolding connect
  connect-outcomes c ns s =
      let more = (new_client_with_chain C c s).notices in
      (
        map (λ (n : Notice). n.success) more,
        outcomes-refresh_event (ns ++ more)
            ∙ map-append (λ (n : Notice). n.success) ns more
            ∙ ap (λ l. l ++ map (λ (n : Notice). n.success) more) (sym (outcomes-refresh_event ns)),
      )

  -- A start that gives a client first reports a credential refresh that succeeded; one that fails reports
  -- nothing, or a single refresh that failed.
  init_cos-outcomes :
      (margin : ℕ) (pod : Bool) (e : Option Err) (s : C.State)
      → ((k : Client C) × ((init_cos p C margin pod e s).client ≡ ok k)
          × (rest : List Bool) × (outcomes (init_cos p C margin pod e s).events ≡ true ∷ rest))
        ⊎ ((message : Text) × ((init_cos p C margin pod e s).client ≡ err message)
            × ((outcomes (init_cos p C margin pod e s).events ≡ [])
                ⊎ (outcomes (init_cos p C margin pod e s).events ≡ false ∷ [])))
  unfolding init_cos
  init_cos-outcomes margin pod e s =
      elim (Result-cases (
        new_chain_from_env p.static_secret_id p.static_secret_key p.static_session_token margin pod
          e)) [
            | inr (failed, bad) ↦
                inr (failed.message, rw (bad, init_cos) refl, inl (rw (bad, init_cos) refl))
            | inl (chain, built) ↦
                let empty = fresh-cache _ _ _ margin pod e chain built in
                let once = outcomes-chain_get chain s empty in
                let r = chain_get C chain s in
                elim (Result-cases r.0.0) [
                  | inr (failed, bad) ↦ inr (
                    ascii "cos: credential validation failed at startup: " ++ failed.message,
                    rw (built, init_cos) (rw (bad) refl),
                    inr (rw (built, init_cos) (rw (bad) (once ∙ (rw (bad) refl)))),
                  )
                  | inl (got, fine) ↦
                      let (k, made) = connect-client r.0.1 r.0.2 r.1 in
                      let (rest, all) = connect-outcomes r.0.1 r.0.2 r.1 in
                      let first : outcomes (map (refresh_event p) r.0.2) ≡ true ∷ [] =
                        once ∙ (rw (fine) refl) in
                      inl (
                        k,
                        rw (built, init_cos) (rw (fine) made),
                        rest,
                        rw (built, init_cos) (rw (fine) (all ∙ ap (λ l. l ++ rest) first)),
                      )
                ]
          ]
