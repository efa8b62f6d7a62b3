-- ===== src/Auth/Password.antt =====
-- ValidatePassword of internal/auth/auth.go. `unicode.IsUpper`, `IsLower` and `IsDigit` are the
-- tables of the standard library's Unicode version, taken as a parameter.
use cloud_file_server.Base.{
  ℕ, ◌≤◌, ◌≡◌, ◌↔◌, ◌⊎◌, Bool, true, false, not, ◌&&◌, ◌||◌, List, [], ◌∷◌, Option, none, some,
  arith, ltb, if◌then◌else◌, any, length,
}
use cloud_file_server.Text.{Text, ascii}
use cloud_file_server.Auth.Runes.{runes}

pub record Unicode : Type 0 where
  pub is_upper : ℕ → Bool
  pub is_lower : ℕ → Bool
  pub is_digit : ℕ → Bool

-- The three flags of the loop.
pub record Seen : Type 0 where
  pub has_upper : Bool
  pub has_lower : Bool
  pub has_digit : Bool

unfoldable pub err_weak_password : Text
unfolding ascii
err_weak_password =
    ascii
      "password must be at least 8 characters and include an uppercase letter, a lowercase letter, and a digit"

module _ (u : Unicode) where
  open u use {is_upper, is_lower, is_digit}

  -- The `switch` of the loop's body.
  note_rune : Seen → ℕ → Seen
  note_rune seen r =
      if is_upper r
      then record seen { has_upper = true }
      else if is_lower r
      then record seen { has_lower = true }
      else if is_digit r
      then record seen { has_digit = true }
      else seen

  note_runes : Seen → List ℕ → Seen
  unfolding note_rune
  note_runes seen [] = seen
  note_runes seen (r ∷ rs) = note_runes (note_rune seen r) rs

  -- `none` is Go's nil error.
  unfoldable pub validate_password : Text → Option Text
  unfolding note_runes runes
  validate_password plain =
      if ltb (length plain) 8
      then some err_weak_password
      else let seen : Seen =
          note_runes (record { has_upper = false; has_lower = false; has_digit = false })
            (runes plain) in
        if not seen.has_upper || not seen.has_lower || not seen.has_digit
        then some err_weak_password
        else none

  abbrev pub IsStrong : Text → Type 0
  IsStrong plain =
      (8 ≤ length plain)
      × (any is_upper (runes plain) ≡ true)
      × (any (λ r. not (is_upper r) && is_lower r) (runes plain) ≡ true)
      × (any (λ r. not (is_upper r) && not (is_lower r) && is_digit r) (runes plain) ≡ true)

  note_runes-has_upper :
      (seen : Seen) (rs : List ℕ)
      → (note_runes seen rs).has_upper ≡ seen.has_upper || any is_upper rs
  unfolding note_runes note_rune
  note_runes-has_upper seen [] = ground arith
  note_runes-has_upper seen (r ∷ rs) = ground (arith, note_runes-has_upper (note_rune seen r) rs)

  note_runes-has_lower :
      (seen : Seen) (rs : List ℕ)
      → (note_runes seen rs).has_lower
        ≡ seen.has_lower || any (λ r. not (is_upper r) && is_lower r) rs
  unfolding note_runes note_rune
  note_runes-has_lower seen [] = ground arith
  note_runes-has_lower seen (r ∷ rs) = ground (arith, note_runes-has_lower (note_rune seen r) rs)

  note_runes-has_digit :
      (seen : Seen) (rs : List ℕ)
      → (note_runes seen rs).has_digit
        ≡ seen.has_digit || any (λ r. not (is_upper r) && not (is_lower r) && is_digit r) rs
  unfolding note_runes note_rune
  note_runes-has_digit seen [] = ground arith
  note_runes-has_digit seen (r ∷ rs) = ground (arith, note_runes-has_digit (note_rune seen r) rs)

  -- A password is accepted exactly if it has at least 8 bytes, an upper-case rune, a lower-case
  -- rune that is not upper-case, and a digit that is neither; every other one is answered with the
  -- one message.
  pub validate_password_iff_IsStrong :
      (plain : Text)
      → ((validate_password plain ≡ none) ↔ IsStrong plain)
        × ((validate_password plain ≡ none) ⊎ (validate_password plain ≡ some err_weak_password))
  unfolding validate_password
  validate_password_iff_IsStrong plain = ground (
    arith,
    note_runes-has_upper (record { has_upper = false; has_lower = false; has_digit = false })
        (runes plain),
    note_runes-has_lower (record { has_upper = false; has_lower = false; has_digit = false })
        (runes plain),
    note_runes-has_digit (record { has_upper = false; has_lower = false; has_digit = false })
        (runes plain),
  )
