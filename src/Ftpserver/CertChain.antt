-- ===== src/Ftpserver/CertChain.antt =====
-- loadCertChain and orderChain of internal/ftpserver/server.go.
pub mod Walks
pub mod Laws
pub mod Loading
use mathlib.Core.List.{map}
use cloud_file_server.Base.{
  ℕ, zero, suc, Bool, true, false, not, ◌&&◌, ◌||◌, List, [], ◌∷◌, ◌++◌, Option, none, some, Result,
  ok, err, any, nat_beq, length, get_elem?, if◌then◌else◌,
}
use cloud_file_server.Text.{Text, ascii, text_beq}

-- `x509.Certificate`: its bytes, and the names as `String` gives them.
pub record Certificate : Type 0 where
  pub raw : Text
  pub subject : Text
  pub issuer : Text

pub record PemBlock : Type 0 where
  pub kind : Text
  pub bytes : Text

-- `x509.ParseCertificate`; `pem.Decode`, with what is left; `tls.X509KeyPair` on a leaf and the file of a
-- key, with its error; and `os.ReadFile`.
pub record Certificates : Type 0 where
  pub parse : Text → Option Certificate
  pub decode : Text → Option (PemBlock × Text)
  pub key_pair : Text → Text → Option Text
  pub read_file : Text → Result Text Text

pub is_self_signed : Certificate → Bool
is_self_signed c = text_beq c.subject c.issuer

-- The certificates among some bytes; what does not parse is left out.
parse_all : (Text → Option Certificate) → List Text → List Certificate
parse_all parse [] = []
parse_all parse (b ∷ der) =
    let rest = parse_all parse der in elim (parse b) [ none ↦ rest | some c ↦ c ∷ rest ]

-- Whether `bySubject` has a key.
abbrev pub has_subject : Text → List Certificate → Bool
has_subject name parsed = any (λ c. text_beq c.subject name) parsed

-- The first certificate whose issuer is nobody's subject, with its index; the lists are a suffix of
-- `parsed`, which begins at an index, and all of it.
pub find_start : ℕ → List Certificate → List Certificate → Option (ℕ × Certificate)
find_start i [] parsed = none
find_start i (c ∷ rest) parsed =
    let later = find_start (suc i) rest parsed in
    if has_subject c.issuer parsed then later else some (i, c)

abbrev pub is_used : ℕ → List ℕ → Bool
is_used i used = any (λ j. nat_beq j i) used

-- The first certificate of a subject that is not used yet, with its index.
pub find_next : ℕ → List Certificate → Text → List ℕ → Option (ℕ × Certificate)
find_next i [] issuer used = none
find_next i (c ∷ rest) issuer used =
    let later = find_next (suc i) rest issuer used in
    if text_beq c.subject issuer && not (is_used i used) then some (i, c) else later

-- The walk from one certificate to its issuer; `used` has the indices that are marked. `none` means that
-- the fuel ran out.
pub walk : ℕ → List Certificate → List ℕ → ℕ → Certificate → List Text → Option (List Text)
unfolding is_self_signed find_next
walk zero parsed used i cur ordered = none
walk (suc fuel) parsed used i cur ordered =
    if is_self_signed cur || is_used i used
    then some ordered
    else elim (find_next 0 parsed cur.issuer (i ∷ used)) [
      | none ↦ some (ordered ++ (cur.raw ∷ []))
      | some (j, c) ↦ walk fuel parsed (i ∷ used) j c (ordered ++ (cur.raw ∷ []))
    ]

-- The result, or an index out of range.
pub data Chained : Type 0 where
  index_panic : Chained
  chained : List Text → Chained

abbrev pub done : Option (List Text) → Option Chained
done none = none
done (some out) = some (chained out)

abbrev pub or_first : Certificate → Option (ℕ × Certificate) → ℕ × Certificate
or_first first none = (0, first)
or_first first (some start) = start

-- The walk over the parsed certificates, from where it starts; one round more than there are
-- certificates is enough.
unfoldable pub order_parsed : List Certificate → Option Chained
unfolding find_start walk
order_parsed [] = some index_panic
order_parsed (first ∷ rest) =
    let (i, cur) = or_first first (find_start 0 (first ∷ rest) (first ∷ rest)) in
    done (walk (suc (length (first ∷ rest))) (first ∷ rest) [] i cur [])

order_chain : (Text → Option Certificate) → List Text → Option Chained
unfolding parse_all order_parsed
order_chain parse der = order_parsed (parse_all parse der)

-- The loop over pem.Decode, each of which leaves less than it was given.
certificate_blocks : ℕ → (Text → Option (PemBlock × Text)) → Text → List Text
certificate_blocks zero decode pem = []
certificate_blocks (suc fuel) decode pem = elim (decode pem) [
  | none ↦ []
  | some (block, rest) ↦
      let later = certificate_blocks fuel decode rest in
      if text_beq block.kind (ascii "CERTIFICATE") then block.bytes ∷ later else later
]

-- How loadCertChain comes out: a panic, the text of an error, or the chain, the leaf first.
pub data Loaded : Type 0 where
  load_panic : Loaded
  load_error : Text → Loaded
  loaded : List Text → Loaded

-- What follows once the chain is in order.
with_key : Certificates → Text → Text → List Text → Loaded
with_key X key_file leaf ordered = elim (X.read_file key_file) [
  | err message ↦ load_error message
  | ok key ↦ elim (X.key_pair leaf key) [
    | some message ↦ load_error message
    | none ↦ loaded (leaf ∷ ordered)
  ]
]

load_blocks : Certificates → Text → Text → List Text → Option Loaded
unfolding order_chain with_key
load_blocks X cert_file key_file [] = some (load_error (ascii "no certificate in " ++ cert_file))
load_blocks X cert_file key_file (leaf ∷ rest) = elim (order_chain X.parse rest) [
  | none ↦ none
  | some index_panic ↦ some load_panic
  | some (chained ordered) ↦ some (with_key X key_file leaf ordered)
]

unfoldable load_cert_chain : Certificates → Text → Text → Option Loaded
unfolding certificate_blocks load_blocks
load_cert_chain X cert_file key_file = elim (X.read_file cert_file) [
  | err message ↦ some (load_error message)
  | ok pem ↦ load_blocks X cert_file key_file (certificate_blocks (suc (length pem)) X.decode pem)
]
