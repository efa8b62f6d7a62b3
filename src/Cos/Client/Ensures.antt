-- ===== src/Cos/Client/Ensures.antt =====
-- What an operation that succeeded has done, also where it was sent twice.
use cloud_file_server.Base.{
  ◌≡◌, refl, ◌∙◌, ap, true, ◌⊎◌, some, ok, err, Result-cases, Option-cases, Bool-cases, inl, inr,
  arith,
}
use cloud_file_server.Cos.{Err, is_auth_err, Creds, Cloud}
use cloud_file_server.Cos.Chain.{Chain, invalidate}
use cloud_file_server.Cos.Client.{Client, Op, refresh, request, retry, do_op, perform}
use cloud_file_server.Cos.Client.Laws.{refresh-keeps}

-- `P` holds before a request, and a request that fails keeps it; `Q` is what one that succeeds
-- establishes.
module _ (C : Cloud) {R A : Type 0} (op : Op C R A) (P : R → C.State → Type 0)
    (Q : A → C.State → Type 0) (sts : (r : R) (s : C.State) → P r s → P r (C.sts_get s).1)
    (done : (creds : Creds) (r : R) (s : C.State) (a : A)
      → P r s
      → (op creds r s).0.0 ≡ ok a
      → Q a (op creds r s).1)
    (failed : (creds : Creds) (r : R) (s : C.State) (e : Err)
      → P r s
      → (op creds r s).0.0 ≡ err e
      → P (op creds r s).0.1 (op creds r s).1) where
  request-ensures :
      (r : R) (c : Client C) (a : A)
      → P r c.cloud
      → (request C op r c).0.0 ≡ ok a
      → Q a (request C op r c).1.cloud
  unfolding request
  request-ensures r c a p h = done c.curr r c.cloud a p h

  request-failed :
      (r : R) (c : Client C) (e : Err)
      → P r c.cloud
      → (request C op r c).0.0 ≡ err e
      → P (request C op r c).0.1 (request C op r c).1.cloud
  unfolding request
  request-failed r c e p h = failed c.curr r c.cloud e p h

  retry-ensures :
      (e : Err) (r : R) (chain : Chain) (c : Client C) (a : A)
      → P r c.cloud
      → (retry C op e r chain c).0 ≡ ok a
      → Q a (retry C op e r chain c).1.cloud
  unfolding retry
  retry-ensures e r chain c a p h =
      let c0 : Client C = record c { chain = some (invalidate chain) } in
      let p1 : P r (refresh C c0).1.cloud = refresh-keeps C (P r) (sts r) c0 p in
      elim (Result-cases (refresh C c0).0) [
        | inl (_, fine) ↦
            rw (fine, retry) (request-ensures r (refresh C c0).1 a p1 (rw (fine, retry) at h))
        | inr (_, bad) ↦ absurd (ground arith)
      ]

  do_op-ensures :
      (r : R) (c : Client C) (a : A)
      → P r c.cloud
      → (do_op C op r c).0 ≡ ok a
      → Q a (do_op C op r c).1.cloud
  unfolding do_op
  do_op-ensures r c a p h =
      let c1 : Client C = (request C op r c).1 in
      elim (Result-cases (request C op r c).0.0) [
        | inl (b, fine) ↦
            let e : b ≡ a = ground arith in
            rw (fine, do_op) (request-ensures r c a p (fine ∙ ap (λ x. ok x) e))
        | inr (e, bad) ↦ elim (Bool-cases (is_auth_err e)) [
          | inr other ↦ absurd (ground arith)
          | inl auth ↦ elim (Option-cases c1.chain) [
            | inl bare ↦ absurd (ground arith)
            | inr (chain, here) ↦
                let h1 : (retry C op e (request C op r c).0.1 chain c1).0 ≡ ok a = ground arith in
                rw (bad, do_op)
                  (rw (auth, here)
                    (retry-ensures e (request C op r c).0.1 chain c1 a (request-failed r c e p bad)
                      h1))
          ]
        ]
      ]

  pub perform-ensures :
      (r : R) (c : Client C) (a : A)
      → P r c.cloud
      → (perform C op r c).0 ≡ ok a
      → Q a (perform C op r c).1.cloud
  unfolding perform
  perform-ensures r c a p h = elim (Result-cases (refresh C c).0) [
    | inl (_, fine) ↦
        rw (fine, perform)
          (do_op-ensures r (refresh C c).1 a (refresh-keeps C (P r) (sts r) c p) (ground arith))
    | inr (_, bad) ↦ absurd (ground arith)
  ]

-- What the request was whose success an operation answers: the first, or a second one over what the first,
-- refused for its credentials, kept. `P` holds before the first, after it if it fails, and after the token
-- service was asked.
module _ (C : Cloud) {R A : Type 0} (op : Op C R A) (P : C.State → Type 0)
    (sts : (s : C.State) → P s → P (C.sts_get s).1)
    (failed : (creds : Creds) (r : R) (s : C.State) (e : Err)
      → P s
      → (op creds r s).0.0 ≡ err e
      → P (op creds r s).1) where
  -- A request from where `P` holds.
  pub record Sent (r : R) (a : A) (out : C.State) : Type 0 where
    pub creds : Creds
    pub before : C.State
    pub held : P before
    pub fine : (op creds r before).0.0 ≡ ok a
    pub after : out ≡ (op creds r before).1

  -- Whether the first request succeeded.
  abbrev pub WentThrough : R → Client C → A → C.State → Type 0
  WentThrough r c a out =
      (((op c.curr r c.cloud).0.0 ≡ ok a) × Sent r a out)
      ⊎ ((e : Err) × ((op c.curr r c.cloud).0.0 ≡ err e)
          × (is_auth_err e ≡ true)
          × Sent (op c.curr r c.cloud).0.1 a out)

  request-Sent :
      (r : R) (c : Client C) (a : A)
      → P c.cloud
      → (request C op r c).0.0 ≡ ok a
      → Sent r a (request C op r c).1.cloud
  unfolding request
  request-Sent r c a p h = record {
    creds = c.curr;
    before = c.cloud;
    held = p;
    fine = h;
    after = refl;
  }

  retry-Sent :
      (e : Err) (r : R) (chain : Chain) (c : Client C) (a : A)
      → P c.cloud
      → (retry C op e r chain c).0 ≡ ok a
      → Sent r a (retry C op e r chain c).1.cloud
  unfolding retry
  retry-Sent e r chain c a p h =
      let c0 : Client C = record c { chain = some (invalidate chain) } in
      let p1 : P (refresh C c0).1.cloud = refresh-keeps C P sts c0 p in
      elim (Result-cases (refresh C c0).0) [
        | inl (_, fine) ↦
            rw (fine, retry) (request-Sent r (refresh C c0).1 a p1 (rw (fine, retry) at h))
        | inr (_, bad) ↦ absurd (ground arith)
      ]

  do_op-WentThrough :
      (r : R) (c : Client C) (a : A)
      → P c.cloud
      → (do_op C op r c).0 ≡ ok a
      → WentThrough r c a (do_op C op r c).1.cloud
  unfolding do_op
  do_op-WentThrough r c a p h =
      let c1 : Client C = (request C op r c).1 in
      elim (Result-cases (request C op r c).0.0) [
        | inl (b, fine) ↦
            let e : b ≡ a = ground arith in
            let fine_a : (request C op r c).0.0 ≡ ok a = fine ∙ ap (λ x. ok x) e in
            rw (fine, do_op) (inl (unfold request in fine_a, request-Sent r c a p fine_a))
        | inr (e, bad) ↦ elim (Bool-cases (is_auth_err e)) [
          | inr other ↦ absurd (ground arith)
          | inl auth ↦ elim (Option-cases c1.chain) [
            | inl bare ↦ absurd (ground arith)
            | inr (chain, here) ↦
                let h1 : (retry C op e (request C op r c).0.1 chain c1).0 ≡ ok a = ground arith in
                let p1 : P c1.cloud = unfold request in failed c.curr r c.cloud e p bad in
                rw (bad, do_op)
                  (rw (auth, here)
                    (inr (
                      e,
                      unfold request in bad,
                      auth,
                      unfold request in retry-Sent e (request C op r c).0.1 chain c1 a p1 h1,
                    )))
          ]
        ]
      ]

  pub perform-WentThrough :
      (r : R) (c : Client C) (a : A)
      → P c.cloud
      → (perform C op r c).0 ≡ ok a
      → WentThrough r (refresh C c).1 a (perform C op r c).1.cloud
  unfolding perform
  perform-WentThrough r c a p h = elim (Result-cases (refresh C c).0) [
    | inl (_, fine) ↦
        rw (fine, perform)
          (do_op-WentThrough r (refresh C c).1 a (refresh-keeps C P sts c p) (ground arith))
    | inr (_, bad) ↦ absurd (ground arith)
  ]
