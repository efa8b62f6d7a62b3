-- ===== src/Ftpserver/CertChain/Laws.antt =====
-- What orderChain of internal/ftpserver/server.go makes of a list of certificates.
use mathlib.Core.List.{map}
use cloud_file_server.Base.{
  ℕ, suc, ◌+◌, ◌≡◌, ◌≢◌, refl, ap, subst, ◌∙◌, Bool, true, false, not, List, [], ◌∷◌, ◌++◌, ◌⊎◌,
  Option, none, some, any, length, arith, Bool-cases, inl, inr,
}
use cloud_file_server.Text.{Text, text_beq}
use cloud_file_server.Ftpserver.CertChain.{
  Certificate, is_self_signed, has_subject, find_start, find_next, walk, chained, done, or_first,
  order_parsed,
}
use cloud_file_server.Ftpserver.CertChain.Walks.{
  unused-le, raws, Stands-low, IsChainOf, walk-IsChainOf,
}

-- The issuer of a certificate is no subject of the list.
abbrev pub is_missing : List Certificate → Certificate → Bool
is_missing parsed c = not (has_subject c.issuer parsed)

find_start-none :
    (i : ℕ) (rest parsed : List Certificate)
    → any (is_missing parsed) rest ≡ false
    → find_start i rest parsed ≡ none
unfolding find_start
find_start-none i [] parsed h = refl
find_start-none i (c ∷ rest) parsed h = ground (arith, find_start-none (suc i) rest parsed)

abbrev at_index : Certificate → ℕ → Option (ℕ × Certificate)
at_index c i = some (i, c)

-- What find_start finds: the first certificate whose issuer is missing.
record Beginning (i : ℕ) (rest parsed : List Certificate) : Type 0 where
  before : List Certificate
  cert : Certificate
  after : List Certificate
  split : rest ≡ before ++ (cert ∷ after)
  found : find_start i rest parsed ≡ some (i + length before, cert)
  missing : has_subject cert.issuer parsed ≡ false
  first : any (is_missing parsed) before ≡ false
  stands : (name : Text) → text_beq cert.subject name ≡ true → has_subject name rest ≡ true

find_start-some :
    (i : ℕ) (rest parsed : List Certificate)
    → any (is_missing parsed) rest ≡ true
    → Beginning i rest parsed
unfolding find_start
find_start-some i [] parsed h = absurd (ground arith)
find_start-some i (c ∷ rest) parsed h = elim (Bool-cases (has_subject c.issuer parsed)) [
  | inr gone ↦ record {
    before = [];
    cert = c;
    after = rest;
    split = refl;
    found = rw (gone, find_start) (ap (at_index c) (omega arith));
    missing = gone;
    first = refl;
    stands = λ name e. ground arith;
  }
  | inl there ↦
      let S = find_start-some (suc i) rest parsed (ground arith) in
      let later : suc i + length S.before ≡ i + length (c ∷ S.before) = omega arith in
      let found : find_start (suc i) rest parsed ≡ some (i + length (c ∷ S.before), S.cert) =
        subst (λ n. find_start (suc i) rest parsed ≡ some (n, S.cert)) later S.found in
      record {
        before = c ∷ S.before;
        cert = S.cert;
        after = S.after;
        split = ap (λ x. c ∷ x) S.split;
        found = rw (there, find_start) found;
        missing = S.missing;
        first = ground (arith, S.first);
        stands = λ name e. ground (arith, S.stands name e);
      }
]

find_next-none :
    (i : ℕ) (rest : List Certificate) (issuer : Text) (used : List ℕ)
    → has_subject issuer rest ≡ false
    → find_next i rest issuer used ≡ none
unfolding find_next
find_next-none i [] issuer used h = refl
find_next-none i (c ∷ rest) issuer used h = ground (arith, find_next-none (suc i) rest issuer used)

-- Where a chain begins: at the first certificate whose issuer is missing, else at the first of all.
abbrev pub IsStart : List Certificate → ℕ → Certificate → Type 0
IsStart parsed i c =
    (before after : List Certificate) × (parsed ≡ before ++ (c ∷ after))
    × (i ≡ length before)
    × (any (is_missing parsed) before ≡ false)
    × ((is_missing parsed c ≡ true) ⊎ ((i ≡ 0) × (any (is_missing parsed) parsed ≡ false)))

-- The chain of a list of certificates.
abbrev pub IsChain : List Certificate → List Certificate → Type 0
IsChain parsed cs = (i : ℕ) × (c : Certificate) × IsStart parsed i c × IsChainOf parsed [] i c cs

order_parsed-start :
    (first : Certificate) (rest : List Certificate) (i : ℕ) (c : Certificate) (out : List Text)
    → or_first first (find_start 0 (first ∷ rest) (first ∷ rest)) ≡ (i, c)
    → walk (suc (length (first ∷ rest))) (first ∷ rest) [] i c [] ≡ some out
    → order_parsed (first ∷ rest) ≡ some (chained out)
unfolding order_parsed
order_parsed-start first rest i c out h k =
    ap
      (λ (s : ℕ × Certificate).
        done (walk (suc (length (first ∷ rest))) (first ∷ rest) [] s.0 s.1 []))
      h
    ∙ ap done k

order_parsed-IsStart :
    (first : Certificate) (rest : List Certificate) (i : ℕ) (c : Certificate)
    → or_first first (find_start 0 (first ∷ rest) (first ∷ rest)) ≡ (i, c)
    → IsStart (first ∷ rest) i c
    → (cs : List Certificate) × (order_parsed (first ∷ rest) ≡ some (chained (raws cs)))
      × IsChain (first ∷ rest) cs
order_parsed-IsStart first rest i c found start =
    let parsed : List Certificate = first ∷ rest in
    let (before, after, split, place, earlier, here) = start in
    let (cs, ends, shape) =
      walk-IsChainOf (suc (length parsed)) parsed [] i c []
        (omega (arith, unused-le [] (length parsed)))
        (Stands-low parsed i c (before, after, split, place)) refl in
    (cs, order_parsed-start first rest i c (raws cs) found ends, (i, c, start, shape))

-- Of certificates of which one parses, the walk ends within its rounds and puts out a chain of them. It
-- begins at the first whose issuer is not in the list, or at the first of all if there is none, and is
-- empty if that one is self-signed; each is at another place of the list, is not self-signed and is the
-- issuer of the one before; and behind the last, every certificate of its issuer stands in the chain, or
-- one is self-signed.
pub order_parsed-IsChain :
    (parsed : List Certificate)
    → parsed ≢ []
    → (cs : List Certificate) × (order_parsed parsed
        ≡ some (chained (map (λ (c : Certificate). c.raw) cs)))
      × IsChain parsed cs
order_parsed-IsChain [] h = absurd (h refl)
order_parsed-IsChain (first ∷ rest) h =
    let parsed : List Certificate = first ∷ rest in
    elim (Bool-cases (any (is_missing parsed) parsed)) [
      | inl missing ↦
          let S = find_start-some 0 parsed parsed missing in
          order_parsed-IsStart first rest (0 + length S.before) S.cert (ap (or_first first) S.found)
            (S.before, S.after, S.split, omega arith, S.first, inl (ground (arith, S.missing)))
      | inr all_there ↦
          order_parsed-IsStart first rest 0 first
            (ap (or_first first) (find_start-none 0 parsed parsed all_there))
            ([], rest, refl, refl, refl, inr (refl, all_there))
    ]

walk-last :
    (fuel : ℕ) (parsed : List Certificate) (i : ℕ) (c : Certificate)
    → is_self_signed c ≡ false
    → find_next 0 parsed c.issuer (i ∷ []) ≡ none
    → walk (suc fuel) parsed [] i c [] ≡ some (c.raw ∷ [])
unfolding walk
walk-last fuel parsed i c h k = rw (h, walk) (rw (k) refl)

-- Where some certificate's issuer is not in the list, the chain is one certificate, whatever the others
-- are: the first whose issuer is missing.
pub order_parsed-missing :
    (parsed : List Certificate)
    → any (is_missing parsed) parsed ≡ true
    → (before : List Certificate) × (c : Certificate) × (after : List Certificate) × (parsed
        ≡ before ++ (c ∷ after))
      × (any (is_missing parsed) before ≡ false)
      × (is_missing parsed c ≡ true)
      × (order_parsed parsed ≡ some (chained (c.raw ∷ [])))
order_parsed-missing [] h = absurd (ground arith)
order_parsed-missing (first ∷ rest) h =
    let parsed : List Certificate = first ∷ rest in
    let S = find_start-some 0 parsed parsed h in
    let i = 0 + length S.before in
    let other : is_self_signed S.cert ≡ false =
      unfold is_self_signed in ground (arith, S.missing, S.stands S.cert.issuer) in
    let last = find_next-none 0 parsed S.cert.issuer (i ∷ []) S.missing in
    let ends : walk (suc (length parsed)) parsed [] i S.cert [] ≡ some (S.cert.raw ∷ []) =
      walk-last (length parsed) parsed i S.cert other last in
    (
      S.before,
      S.cert,
      S.after,
      S.split,
      S.first,
      ground (arith, S.missing),
      order_parsed-start first rest i S.cert (S.cert.raw ∷ []) (ap (or_first first) S.found) ends,
    )
