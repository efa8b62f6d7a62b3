-- ===== src/Ftpserver/CertChain/Walks.antt =====
-- The walk of orderChain of internal/ftpserver/server.go, from one certificate on.
use mathlib.Core.List.{map}
use cloud_file_server.Base.{
  ℕ, zero, suc, ◌+◌, ◌≤◌, ◌<◌, ◌≡◌, refl, ◌∙◌, sym, ap, Bool, true, not, ◌&&◌, false, ◌||◌, List,
  none, length-append, append-nil, subst, [], ◌∷◌, ◌++◌, some, nat_beq_iff, length, if◌then◌else◌,
  arith, Bool-cases, Option-cases, inl, inr, ◌⊎◌, append_assoc,
}
use cloud_file_server.Text.{Text, text_beq, text_beq_iff}
use cloud_file_server.Ftpserver.CertChain.{Certificate, is_self_signed, is_used, find_next, walk}

-- How many indices below a bound are not used.
abbrev unused : List ℕ → ℕ → ℕ
unused used zero = 0
unused used (suc n) = unused used n + (if is_used n used then 0 else 1)

unused-cons_le : (i : ℕ) (used : List ℕ) (n : ℕ) → unused (i ∷ used) n ≤ unused used n
unused-cons_le i used zero = omega arith
unused-cons_le i used (suc n) = ground (arith, unused-cons_le i used n)

unused-cons_lt :
    (i : ℕ) (used : List ℕ) (n : ℕ)
    → i < n
    → is_used i used ≡ false
    → unused (i ∷ used) n < unused used n
unused-cons_lt i used zero h k = elim h [ ]
unused-cons_lt i used (suc n) h k =
    ground (arith, unused-cons_le i used n, unused-cons_lt i used n, nat_beq_iff i n)

pub unused-le : (used : List ℕ) (n : ℕ) → unused used n ≤ n
unused-le used zero = omega arith
unused-le used (suc n) = ground (arith, unused-le used n)

-- A certificate of the list and its index in it.
abbrev pub Stands : List Certificate → ℕ → Certificate → Type 0
Stands parsed i c =
    (before after : List Certificate) × (parsed ≡ before ++ (c ∷ after)) × (i ≡ length before)

pub Stands-low :
    (parsed : List Certificate) (i : ℕ) (c : Certificate) → Stands parsed i c → i < length parsed
Stands-low parsed i c (before, after, split, place) =
    let long = ap length split ∙ length-append before (c ∷ after) in omega arith

-- Whether a certificate of a subject is not used yet; the list is a suffix that begins at an index.
abbrev pub is_left : ℕ → List Certificate → Text → List ℕ → Bool
is_left i [] issuer used = false
is_left i (c ∷ rest) issuer used =
    (text_beq c.subject issuer && not (is_used i used)) || is_left (suc i) rest issuer used

-- What find_next finds: it stands at its index, its subject is the one asked for, and it is not used.
find_next-some :
    (i : ℕ) (rest : List Certificate) (issuer : Text) (used : List ℕ) (j : ℕ) (c : Certificate)
    → find_next i rest issuer used ≡ some (j, c)
    → ((before after : List Certificate) × (rest ≡ before ++ (c ∷ after)) × (j ≡ i + length before))
      × (c.subject ≡ issuer)
      × (is_used j used ≡ false)
unfolding find_next
find_next-some i [] issuer used j c h = absurd (ground arith)
find_next-some i (d ∷ rest) issuer used j c h =
    elim (Bool-cases (text_beq d.subject issuer && not (is_used i used))) [
      | inl here ↦
          let e : i ≡ j = ground arith in
          let f : d ≡ c = ground arith in
          (
            ([], rest, ap (λ x. x ∷ rest) f, omega arith),
            ground (arith, text_beq_iff d.subject issuer),
            ground arith,
          )
      | inr not_here ↦
          let ((before, after, split, place), signs, fresh) =
            find_next-some (suc i) rest issuer used j c (ground arith) in
          ((d ∷ before, after, ap (λ x. d ∷ x) split, omega arith), signs, fresh)
    ]

pub find_next-none :
    (i : ℕ) (rest : List Certificate) (issuer : Text) (used : List ℕ)
    → find_next i rest issuer used ≡ none
    → is_left i rest issuer used ≡ false
unfolding find_next
find_next-none i [] issuer used h = refl
find_next-none i (c ∷ rest) issuer used h = ground (arith, find_next-none (suc i) rest issuer used)

-- Where a chain ends: of the certificates of its issuer every one is used, or one is a root.
abbrev pub IsTop : List Certificate → List ℕ → Certificate → Type 0
IsTop parsed used c =
    (is_left 0 parsed c.issuer used ≡ false)
    ⊎ ((j : ℕ) × (r : Certificate) × Stands parsed j r
        × (r.subject ≡ c.issuer)
        × (is_self_signed r ≡ true))

-- What follows a certificate in a chain: each stands in the list, at an index that is not used, is
-- not self-signed and is the issuer of the one before; and the last of them is a top.
abbrev pub Climbs : List Certificate → List ℕ → Certificate → List Certificate → Type 0
Climbs parsed used c [] = IsTop parsed used c
Climbs parsed used c (d ∷ ds) =
    (j : ℕ) × Stands parsed j d
    × (is_used j used ≡ false)
    × (d.subject ≡ c.issuer)
    × (is_self_signed d ≡ false)
    × Climbs parsed (j ∷ used) d ds

-- The chain that begins at a certificate with its index: nothing if that is self-signed.
abbrev pub IsChainOf : List Certificate → List ℕ → ℕ → Certificate → List Certificate → Type 0
IsChainOf parsed used i cur cs =
    ((is_self_signed cur ≡ true) × (cs ≡ []))
    ⊎ ((is_self_signed cur ≡ false)
        × (ds : List Certificate) × (cs ≡ cur ∷ ds)
        × Climbs parsed (i ∷ used) cur ds)

abbrev pub raws : List Certificate → List Text
raws = map (λ (c : Certificate). c.raw)

extended :
    (parsed : List Certificate) (used : List ℕ) (cur : Certificate) (j : ℕ) (c : Certificate)
    (cs : List Certificate)
    → Stands parsed j c
    → is_used j used ≡ false
    → c.subject ≡ cur.issuer
    → IsChainOf parsed used j c cs
    → Climbs parsed used cur cs
extended parsed used cur j c cs stands fresh signs (inl (root, empty)) =
    subst (λ t. Climbs parsed used cur t) (sym empty) (inr (j, c, stands, signs, root))
extended parsed used cur j c cs stands fresh signs (inr (fine, ds, same, up)) =
    subst (λ t. Climbs parsed used cur t) (sym same) (j, stands, fresh, signs, fine, up)

-- From a certificate that is not used, a walk with more rounds than indices are left adds its chain.
pub walk-IsChainOf :
    (fuel : ℕ) (parsed : List Certificate) (used : List ℕ) (i : ℕ) (cur : Certificate)
    (ordered : List Text)
    → unused used (length parsed) < fuel
    → i < length parsed
    → is_used i used ≡ false
    → (cs : List Certificate) × (walk fuel parsed used i cur ordered ≡ some (ordered ++ raws cs))
      × IsChainOf parsed used i cur cs
unfolding walk
walk-IsChainOf zero parsed used i cur ordered h k fresh = elim h [ ]
walk-IsChainOf (suc fuel) parsed used i cur ordered h k fresh =
    elim (Bool-cases (is_self_signed cur)) [
      | inl root ↦ ([], rw (root, walk) (ap some (sym (append-nil ordered))), inl (root, refl))
      | inr other ↦ elim (Option-cases (find_next 0 parsed cur.issuer (i ∷ used))) [
        | inl last ↦ (
          cur ∷ [],
          rw (other, fresh, walk) (rw (last) refl),
          inr (other, [], refl, inl (find_next-none 0 parsed cur.issuer (i ∷ used) last)),
        )
        | inr ((j, c), next) ↦
            let ((before, after, split, place), signs, new) =
              find_next-some 0 parsed cur.issuer (i ∷ used) j c next in
            let stands : Stands parsed j c = (before, after, split, omega arith) in
            let fewer = unused-cons_lt i used (length parsed) k fresh in
            let (cs, ends, shape) =
              walk-IsChainOf fuel parsed (i ∷ used) j c (ordered ++ (cur.raw ∷ [])) (omega arith)
                (Stands-low parsed j c stands) new in
            (
              cur ∷ cs,
              rw (other, fresh, walk)
                  (rw (next) (ends ∙ ap some (append_assoc ordered (cur.raw ∷ []) (raws cs)))),
              inr (other, cs, refl, extended parsed (i ∷ used) cur j c cs stands new signs shape),
            )
      ]
    ]
