-- ===== src/Text/Numbers.antt =====
-- `strconv.Atoi` and `strconv.ParseInt(s, 10, 64)`, which agree on 64 bits.
pub mod Decimal
use cloud_file_server.Base.{
  ℕ, ◌+◌, ◌-◌, ◌*◌, ◌^◌, Bool, true, false, ◌&&◌, [], ◌∷◌, Option, none, some, Result, ok, err,
  nat_beq, leb, ltb, if◌then◌else◌,
}
use cloud_file_server.Base.Int.{ℤ, pos, negate}
use cloud_file_server.Text.{Text}

-- `strconv.ErrSyntax` and `strconv.ErrRange`
pub data NumError : Type 0 where
  syntax : NumError
  range : NumError

abbrev pub is_digit : ℕ → Bool
is_digit c = leb b'0' c && leb c b'9'

-- The loop of ParseUint over what follows the digits that make `n`.
pub parse_digits : ℕ → Text → Result NumError ℕ
parse_digits n [] = ok n
parse_digits n (c ∷ s) =
    let m = n * 10 + (c - b'0') in
    let rest = parse_digits m s in
    if is_digit c then (if ltb m (2 ^ 64) then rest else err range) else err syntax

pub parse_uint : Text → Result NumError ℕ
unfolding parse_digits
parse_uint [] = err syntax
parse_uint (c ∷ s) = parse_digits 0 (c ∷ s)

-- The value comes beside a range error too: it is then the nearest one of 64 bits.
abbrev Parsed : Type 0
Parsed = ℤ × Option NumError

pub signed : Bool → Result NumError ℕ → Parsed
signed negative (err syntax) = (pos 0, some syntax)
signed negative (err range) = (if negative then negate (2 ^ 63) else pos (2 ^ 63 - 1), some range)
signed false (ok n) = if ltb n (2 ^ 63) then (pos n, none) else (pos (2 ^ 63 - 1), some range)
signed true (ok n) = if leb n (2 ^ 63) then (negate n, none) else (negate (2 ^ 63), some range)

unfoldable pub atoi : Text → Parsed
unfolding parse_uint signed
atoi [] = (pos 0, some syntax)
atoi (c ∷ s) =
    if nat_beq c b'+'
    then signed false (parse_uint s)
    else if nat_beq c b'-'
    then signed true (parse_uint s)
    else signed false (parse_uint (c ∷ s))
