-- ===== src/Config/Scans.antt =====
-- The format `%d-%d` of internal/config/config.go on printed numbers.
use cloud_file_server.Base.{
  ℕ, zero, ◌≤◌, ◌<◌, ◌^◌, ◌≡◌, refl, Bool, true, false, not, ◌||◌, List, [], ◌∷◌, ◌++◌, none, some,
  ok, ltb, any, All, arith, append-nil,
}
use cloud_file_server.Base.Int.{pos}
use cloud_file_server.Text.{Text, text_beq, has_prefix}
use cloud_file_server.Text.Spaces.{leading, white_space}
use cloud_file_server.Text.Numbers.{atoi, is_digit}
use cloud_file_server.Text.Numbers.Decimal.{IsDigit, itoa, itoa-IsDigit, itoa-cons, atoi-itoa}
use cloud_file_server.Config.{port_range_of}
use cloud_file_server.Config.Ports.{
  skip_space_from, span_digits, read_token, scan_token, scan_int, scan_second, scan_range,
}

-- Whether a text begins with a digit, or with nothing.
may_meet_digit : Text → Bool
may_meet_digit [] = true
may_meet_digit (b ∷ _) = not (ltb b 48 || ltb 57 b)

leading-digit :
    (ps : List Text) (c : ℕ) (s : Text)
    → IsDigit c
    → any may_meet_digit ps ≡ false
    → leading ps (c ∷ s) ≡ 0
unfolding leading may_meet_digit has_prefix
leading-digit [] c s d h = refl
leading-digit ([] ∷ ps) c s d h = ground arith
leading-digit ((b ∷ p) ∷ ps) c s d h = ground (arith, leading-digit ps c s)

white_space-any : any may_meet_digit white_space ≡ false
unfolding may_meet_digit white_space
white_space-any = refl

skip_space-digit : (c : ℕ) (s : Text) → IsDigit c → skip_space_from zero (c ∷ s) ≡ some (c ∷ s)
unfolding skip_space_from
skip_space-digit c s d = ground (arith, leading-digit white_space c s d white_space-any)

-- Whatever follows the digits does not begin with one.
abbrev EndsDigits : Text → Type 0
EndsDigits [] = Unit
EndsDigits (c ∷ _) = is_digit c ≡ false

span_digits-append :
    (s rest : Text) → All IsDigit s → EndsDigits rest → span_digits (s ++ rest) ≡ (s, rest)
unfolding span_digits
span_digits-append [] [] d e = refl
span_digits-append [] (c ∷ rest) d e = rw (e, span_digits) refl
span_digits-append (c ∷ s) rest d e = ground (arith, span_digits-append s rest d.1 e, d.0)

read_token-digits :
    (c n : ℕ) (t rest : Text)
    → atoi (c ∷ t) ≡ (pos n, none)
    → read_token [] (c ∷ t, rest) ≡ some (pos n, rest)
unfolding read_token
read_token-digits c n t rest h = ground arith

scan_int-digits :
    (c n : ℕ) (t rest : Text)
    → All IsDigit (c ∷ t)
    → EndsDigits rest
    → atoi (c ∷ t) ≡ (pos n, none)
    → scan_int ((c ∷ t) ++ rest) ≡ some (pos n, rest)
unfolding scan_int scan_token
scan_int-digits c n t rest d e h = ground (
  arith,
  d.0,
  skip_space-digit c (t ++ rest) d.0,
  span_digits-append (c ∷ t) rest d e,
  read_token-digits c n t rest h,
)

scan_int-itoa :
    (n : ℕ) (rest : Text)
    → n < 2 ^ 63
    → EndsDigits rest
    → scan_int (itoa n ++ rest) ≡ some (pos n, rest)
scan_int-itoa n rest h e =
    let (c, t, same) = itoa-cons n in
    let d : All IsDigit (c ∷ t) = rw same at (itoa-IsDigit n) in
    rw (same) (scan_int-digits c n t rest d e (rw same at (atoi-itoa n h)))

-- Two printed numbers of 63 bits with a dash between them are read back.
scan_range-itoa :
    (s e : ℕ)
    → s < 2 ^ 63
    → e < 2 ^ 63
    → scan_range (itoa s ++ (b'-' ∷ itoa e)) ≡ some (pos s, pos e)
unfolding scan_range scan_second
scan_range-itoa s e hs he =
    ground
      (arith, scan_int-itoa s (b'-' ∷ itoa e) hs refl, rw append-nil at (scan_int-itoa e [] he tt))

-- Two ports in order, printed with a dash between them, are the range that Load reads.
pub port_range_of-itoa :
    (s e : ℕ)
    → 1 ≤ s
    → s < e
    → e ≤ 65535
    → port_range_of (itoa s ++ (b'-' ∷ itoa e)) ≡ ok (record { start = s; end = e })
unfolding port_range_of
port_range_of-itoa s e low order high =
    let (c, t, same) = itoa-cons s in
    ground (arith, scan_range-itoa s e (omega arith) (omega arith), not_empty c t same)
  where
    not_empty :
        (c : ℕ) (t : Text) → itoa s ≡ c ∷ t → text_beq (itoa s ++ (b'-' ∷ itoa e)) [] ≡ false
    not_empty c t same = unfold text_beq in rw (same) refl
