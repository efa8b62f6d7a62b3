-- ===== src/Config/Ports.antt =====
-- `fmt.Sscanf(v, "%d-%d", &s, &e)` of internal/config/config.go.
use cloud_file_server.Base.{
  ℕ, zero, suc, ◌-◌, Bool, ◌||◌, [], ◌∷◌, ◌++◌, Option, none, some, nat_beq, if◌then◌else◌,
}
use cloud_file_server.Base.Int.{ℤ}
use cloud_file_server.Text.{Text}
use cloud_file_server.Text.Numbers.{atoi, is_digit}
use cloud_file_server.Text.Spaces.{leading, white_space}

pub record PortRange : Type 0 where
  pub start : ℕ
  pub end : ℕ

-- Drops some bytes, and then white space; a line feed is an error.
unfoldable pub skip_space_from : ℕ → Text → Option Text
unfolding leading white_space
skip_space_from n [] = some []
skip_space_from (suc n) (b ∷ s) = skip_space_from n s
skip_space_from zero (b ∷ s) =
    let width = leading white_space (b ∷ s) in
    let skipped = skip_space_from (width - 1) s in
    if nat_beq b 10 then none else if nat_beq width 0 then some (b ∷ s) else skipped

abbrev is_sign : ℕ → Bool
is_sign c = nat_beq c b'+' || nat_beq c b'-'

-- The digits in front, and what follows them.
unfoldable pub span_digits : Text → Text × Text
span_digits [] = ([], [])
span_digits (c ∷ s) =
    let (digits, rest) = span_digits s in if is_digit c then (c ∷ digits, rest) else ([], c ∷ s)

-- A token of a sign and digits, as `%d` reads it.
unfoldable pub read_token : Text → Text × Text → Option (ℤ × Text)
unfolding atoi
read_token sign ([], rest) = none
read_token sign (d ∷ digits, rest) =
    let (n, failed) = atoi (sign ++ (d ∷ digits)) in
    elim failed [ none ↦ some (n, rest) | some _ ↦ none ]

unfoldable pub scan_token : Text → Option (ℤ × Text)
unfolding read_token span_digits
scan_token [] = none
scan_token (c ∷ s) =
    if is_sign c then read_token (c ∷ []) (span_digits s) else read_token [] (span_digits (c ∷ s))

-- `%d`
unfoldable pub scan_int : Text → Option (ℤ × Text)
unfolding skip_space_from scan_token
scan_int s = elim (skip_space_from zero s) [ none ↦ none | some t ↦ scan_token t ]

unfoldable pub scan_second : ℤ → Text → Option (ℤ × ℤ)
unfolding scan_int
scan_second n [] = none
scan_second n (c ∷ rest) =
    if nat_beq c b'-'
    then elim (scan_int rest) [ none ↦ none | some (m, _) ↦ some (n, m) ]
    else none

unfoldable pub scan_range : Text → Option (ℤ × ℤ)
unfolding scan_int scan_second
scan_range v = elim (scan_int v) [ none ↦ none | some (n, rest) ↦ scan_second n rest ]
