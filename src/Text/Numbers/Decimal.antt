-- ===== src/Text/Numbers/Decimal.antt =====
-- `strconv.Itoa` of a natural number, and `strconv.Atoi` on what it prints.
use cloud_file_server.Base.{
  ℕ, zero, suc, ◌+◌, ◌*◌, ◌/◌, ◌%◌, ◌^◌, ◌≤◌, ◌<◌, ◌≡◌, ◌≢◌, refl, ◌∙◌, false, [], ◌∷◌, none, ok,
  ltb, All, arith, if◌then◌else◌, Bool-cases, inl, inr,
}
use cloud_file_server.Base.Int.{pos}
use cloud_file_server.Text.{Text}
use cloud_file_server.Text.Numbers.{parse_digits, parse_uint, signed, atoi}

-- The digits of a number in front of a text; the first argument is the number of digits at most.
pub digits : ℕ → ℕ → Text → Text
digits zero n acc = acc
digits (suc f) n acc =
    let shown = (48 + n % 10) ∷ acc in
    let rest = digits f (n / 10) shown in if ltb n 10 then shown else rest

-- Twenty digits hold every number of 64 bits.
unfoldable pub itoa : ℕ → Text
unfolding digits
itoa n = digits 20 n []

abbrev pub IsDigit : ℕ → Type 0
IsDigit c = (48 ≤ c) × (c < 58)

digits-IsDigit : (f n : ℕ) (acc : Text) → All IsDigit acc → All IsDigit (digits f n acc)
unfolding digits
digits-IsDigit zero n acc h = h
digits-IsDigit (suc f) n acc h =
    let shown : All IsDigit ((48 + n % 10) ∷ acc) = ((omega arith, omega arith), h) in
    elim (Bool-cases (ltb n 10)) [
      | inl small ↦ rw (small, digits) shown
      | inr large ↦ rw (large, digits) (digits-IsDigit f (n / 10) ((48 + n % 10) ∷ acc) shown)
    ]

digits-large :
    (f n : ℕ) (acc : Text)
    → ltb n 10 ≡ false
    → digits (suc f) n acc ≡ digits f (n / 10) ((48 + n % 10) ∷ acc)
unfolding digits
digits-large f n acc large = rw (large, digits) refl

pub itoa-IsDigit : (n : ℕ) → All IsDigit (itoa n)
unfolding itoa
itoa-IsDigit n = digits-IsDigit 20 n [] tt

-- One digit read behind those of `m`.
parse_digits-cons :
    (m n : ℕ) (acc : Text)
    → m * 10 + n % 10 ≡ n
    → n < 2 ^ 64
    → parse_digits m ((48 + n % 10) ∷ acc) ≡ parse_digits n acc
unfolding parse_digits
parse_digits-cons m n acc h k = ground arith

parse_digits-digits :
    (f n : ℕ) (acc : Text)
    → n < 10 ^ f
    → n < 2 ^ 64
    → parse_digits 0 (digits f n acc) ≡ parse_digits n acc
unfolding digits
parse_digits-digits zero n acc h k = rw (zero_of_lt n h) refl
  where
    zero_of_lt : (n : ℕ) → n < 1 → n ≡ 0
    zero_of_lt n h = omega arith
parse_digits-digits (suc f) n acc h k = elim (Bool-cases (ltb n 10)) [
  | inl small ↦ rw (small, digits) (parse_digits-cons 0 n acc (ground arith) k)
  | inr large ↦
      let fewer : n / 10 < 10 ^ f = grind arith in
      rw (large, digits)
        (parse_digits-digits f (n / 10) ((48 + n % 10) ∷ acc) fewer (omega arith)
          ∙ parse_digits-cons (n / 10) n acc (omega arith) k)
]

parse_digits-itoa : (n : ℕ) → n < 2 ^ 63 → parse_digits 0 (itoa n) ≡ ok n
unfolding itoa
parse_digits-itoa n h =
    parse_digits-digits 20 n [] (omega arith) (omega arith) ∙ (unfold parse_digits in refl)

digits-cons : (f n c : ℕ) (acc : Text) → (d : ℕ) × (t : Text) × (digits f n (c ∷ acc) ≡ d ∷ t)
unfolding digits
digits-cons zero n c acc = (c, acc, refl)
digits-cons (suc f) n c acc = elim (Bool-cases (ltb n 10)) [
  | inl small ↦ (48 + n % 10, c ∷ acc, rw (small, digits) refl)
  | inr large ↦
      let (d, t, e) = digits-cons f (n / 10) (48 + n % 10) (c ∷ acc) in (d, t, rw (large, digits) e)
]

pub itoa-cons : (n : ℕ) → (d : ℕ) × (t : Text) × (itoa n ≡ d ∷ t)
unfolding itoa
itoa-cons n = elim (Bool-cases (ltb n 10)) [
  | inl small ↦ (48 + n % 10, [], unfold digits in rw (small, digits) refl)
  | inr large ↦
      let (d, t, e) = digits-cons 19 (n / 10) (48 + n % 10) [] in (d, t, wide n d t large e)
]
  where
    wide :
        (n d : ℕ) (t : Text)
        → ltb n 10 ≡ false
        → digits 19 (n / 10) ((48 + n % 10) ∷ []) ≡ d ∷ t
        → digits 20 n [] ≡ d ∷ t
    wide n d t large e = digits-large 19 n [] large ∙ e

-- Digits alone are read as the number that they make.
atoi-digits :
    (s : Text) (n : ℕ)
    → All IsDigit s
    → s ≢ []
    → parse_digits 0 s ≡ ok n
    → n < 2 ^ 63
    → atoi s ≡ (pos n, none)
unfolding atoi parse_uint signed
atoi-digits [] n d e p h = absurd (e refl)
atoi-digits (c ∷ s) n d e p h = ground (arith, d.0, p)

-- A number of 63 bits reads back as it was printed.
pub atoi-itoa : (n : ℕ) → n < 2 ^ 63 → atoi (itoa n) ≡ (pos n, none)
atoi-itoa n h =
    let (d, t, e) = itoa-cons n in
    atoi-digits (itoa n) n (itoa-IsDigit n) (λ k. absurd (ground arith)) (parse_digits-itoa n h) h
