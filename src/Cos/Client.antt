-- ===== src/Cos/Client.antt =====
-- Client of internal/cos/client.go and its operations in internal/cos/fs.go. An operation takes the
-- client and returns it changed; `notices` are the calls of OnRefresh.
pub mod Laws
pub mod Ensures
use cloud_file_server.Base.{
  ℕ, ◌+◌, ◌-◌, Bool, true, false, not, ◌&&◌, ◌||◌, List, [], ◌∷◌, ◌++◌, Option, none, some, Result,
  ok, err, ltb, if◌then◌else◌,
}
use cloud_file_server.Text.{Text, text_beq}
use cloud_file_server.Cos.{
  Err, is_auth_err, Creds, zero_creds, Cloud, BucketListing, Head, Range, whole, from, between,
}
use cloud_file_server.Cos.Chain.{Chain, Notice, chain_get, has_static, invalidate}

-- `curr` are the credentials that the SDK's client was last made with.
pub record Client (C : Cloud) : Type 0 where
  pub chain : Option Chain
  pub curr : Creds
  pub cloud : C.State
  pub notices : List Notice

same_creds : Creds → Creds → Bool
same_creds a b = text_beq a.id b.id && text_beq a.key b.key && text_beq a.token b.token

unfoldable pub range_of : ℕ → ℕ → Range
range_of offset len =
    if ltb 0 len
    then between offset (offset + len - 1)
    else if ltb 0 offset
    then from offset
    else whole

module _ (C : Cloud) where
  abbrev pub M : Type 0 → Type 0
  M A = Client C → Result Err A × Client C

  refresh_from : Chain → M (Unit {0})
  unfolding same_creds
  refresh_from chain c =
      let ((got, chain', notices), cloud) = chain_get C chain c.cloud in
      let c1 : Client C = record c {
        chain = some chain';
        cloud = cloud;
        notices = c.notices ++ notices;
      } in
      elim got [
        | err e ↦ (err e, c1)
        | ok (creds, _) ↦
            (ok tt, if same_creds creds c1.curr then c1 else record c1 { curr = creds })
      ]

  -- `refresh`
  unfoldable pub refresh : M (Unit {0})
  unfolding refresh_from
  refresh c = elim c.chain [ none ↦ (ok tt, c) | some chain ↦ refresh_from chain c ]

  -- A request under some credentials, over what its closure keeps from one call to the next.
  abbrev pub Op : Type 0 → Type 0 → Type 0
  Op R A = Creds → R → C.State → (Result Err A × R) × C.State

  module _ {R A : Type 0} (op : Op R A) where
    -- One call of it under the credentials in use.
    unfoldable pub request : R → Client C → (Result Err A × R) × Client C
    request r c = let (answer, cloud) = op c.curr r c.cloud in (answer, record c { cloud = cloud })

    -- What follows a request that failed for its credentials.
    pub retry : Err → R → Chain → M A
    retry e r chain c =
        let (refreshed, c1) = refresh (record c { chain = some (invalidate chain) }) in
        elim refreshed [
          | err _ ↦ (err e, c1)
          | ok _ ↦ let ((answer, _), c2) = request r c1 in (answer, c2)
        ]

    -- `do`
    unfoldable pub do_op : R → M A
    do_op r c =
        let ((answer, r1), c1) = request r c in
        elim answer [
          | ok a ↦ (ok a, c1)
          | err e ↦
              if not (is_auth_err e)
              then (err e, c1)
              else elim c1.chain [ none ↦ (err e, c1) | some chain ↦ retry e r1 chain c1 ]
        ]

    -- Every operation: `refresh`, then `do`.
    unfoldable pub perform : R → M A
    perform r c =
        let (refreshed, c1) = refresh c in
        elim refreshed [ err e ↦ (err e, c1) | ok _ ↦ do_op r c1 ]

  -- A request that keeps nothing.
  abbrev pub stateless : {A : Type 0} → (Creds → C.State → Result Err A × C.State) → Op (Unit {0}) A
  stateless op creds r s = let (answer, s') = op creds s in ((answer, r), s')

  unfoldable pub head_object : Text → M Head
  head_object key = perform (stateless (λ creds. C.object_head creds key)) tt

  unfoldable pub get_object : Text → ℕ → ℕ → M Text
  unfolding range_of
  get_object key offset len =
      perform (stateless (λ creds. C.object_get creds key (range_of offset len))) tt

  -- The reader of the body is made once, outside the closure that `do` may call twice.
  unfoldable pub put : Text → Text → M (Unit {0})
  put key body = perform (λ creds. C.object_put creds key) body

  unfoldable pub delete : Text → M (Unit {0})
  delete key = perform (stateless (λ creds. C.object_delete creds key)) tt

  -- The SDK takes the destination first, and then a source URL, for which it is given a key.
  unfoldable pub copy : Text → Text → M (Unit {0})
  copy src dst = perform (stateless (λ creds. C.object_copy creds dst src)) tt

  unfoldable pub bucket_get : Text → M BucketListing
  bucket_get prefix = perform (stateless (λ creds. C.bucket_get creds prefix)) tt

-- `NewClientWithChain`
unfoldable pub new_client_with_chain : (C : Cloud) → Chain → C.State → Client C
new_client_with_chain C chain s =
    let bare : Client C = record {
      chain = some chain;
      curr = zero_creds;
      cloud = s;
      notices = [];
    } in
    if not (has_static chain)
    then bare
    else let ((got, chain', notices), cloud) = chain_get C chain s in
      let c1 : Client C = record bare { chain = some chain'; cloud = cloud; notices = notices } in
      elim got [ ok (creds, _) ↦ record c1 { curr = creds } | err _ ↦ c1 ]
