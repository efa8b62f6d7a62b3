-- ===== src/Ftpserver/CertChain/Loading.antt =====
-- loadCertChain of internal/ftpserver/server.go and its loops: the fuel that they need.
use cloud_file_server.Base.{
  ℕ, zero, suc, ◌<◌, ◌≡◌, refl, List, [], ◌∷◌, Option, some, length, arith, Option-cases,
  Result-cases, inl, inr,
}
use cloud_file_server.Text.{Text}
use cloud_file_server.Ftpserver.CertChain.{
  Certificate, PemBlock, Certificates, Chained, index_panic, chained, Loaded, load_panic,
  load_error, parse_all, order_parsed, order_chain, certificate_blocks, with_key, load_blocks,
  load_cert_chain,
}
use cloud_file_server.Ftpserver.CertChain.Laws.{order_parsed-IsChain}

order_parsed-ends : (parsed : List Certificate) → (r : Chained) × (order_parsed parsed ≡ some r)
order_parsed-ends [] = (index_panic, unfold order_parsed in refl)
order_parsed-ends (c ∷ parsed) =
    let (cs, ends, chain) = order_parsed-IsChain (c ∷ parsed) (λ h. ground arith) in (_, ends)

load_blocks-ends :
    (X : Certificates) (cert_file key_file : Text) (blocks : List Text)
    → (r : Loaded) × (load_blocks X cert_file key_file blocks ≡ some r)
unfolding load_blocks order_chain
load_blocks-ends X cert_file key_file [] = (_, refl)
load_blocks-ends X cert_file key_file (leaf ∷ rest) =
    let (r, ends) = order_parsed-ends (parse_all X.parse rest) in by_chain r ends
  where
    by_chain :
        (r : Chained)
        → order_parsed (parse_all X.parse rest) ≡ some r
        → (l : Loaded) × (load_blocks X cert_file key_file (leaf ∷ rest) ≡ some l)
    by_chain index_panic h = (load_panic, ground arith)
    by_chain (chained ordered) h = (with_key X key_file leaf ordered, ground arith)

-- Whatever the files hold, loadCertChain comes to an end: its walk has rounds enough.
load_cert_chain-ends :
    (X : Certificates) (cert_file key_file : Text)
    → (r : Loaded) × (load_cert_chain X cert_file key_file ≡ some r)
unfolding load_cert_chain
load_cert_chain-ends X cert_file key_file = elim (Result-cases (X.read_file cert_file)) [
  | inr (message, bad) ↦ (load_error message, ground arith)
  | inl (pem, fine) ↦
      let (r, ends) =
        load_blocks-ends X cert_file key_file
          (certificate_blocks (suc (length pem)) X.decode pem) in
      (r, ground (arith, ends))
]

module _ (decode : Text → Option (PemBlock × Text))
    (shrinks : (pem : Text) (b : PemBlock) (rest : Text)
      → decode pem ≡ some (b, rest)
      → length rest < length pem) where
  -- If every block that is decoded takes some bytes, the loop over the blocks has rounds enough: more of
  -- them change nothing.
  certificate_blocks-enough :
      (n m : ℕ) (pem : Text)
      → length pem < n
      → length pem < m
      → certificate_blocks n decode pem ≡ certificate_blocks m decode pem
  unfolding certificate_blocks
  certificate_blocks-enough zero m pem h k = elim h [ ]
  certificate_blocks-enough (suc n) zero pem h k = elim k [ ]
  certificate_blocks-enough (suc n) (suc m) pem h k = elim (Option-cases (decode pem)) [
    | inl over ↦ ground arith
    | inr ((b, rest), found) ↦
        let less = shrinks pem b rest found in
        let same = certificate_blocks-enough n m rest (omega arith) (omega arith) in
        ground (arith, same)
  ]
