-- ===== src/Auth/Runes.antt =====
-- What `for _, r := range s` reads from the bytes of a string: UTF-8, a byte at a time where the
-- encoding is broken (`utf8.DecodeRuneInString`).
use cloud_file_server.Base.{
  ℕ, zero, suc, ◌+◌, ◌-◌, ◌*◌, ◌≡◌, refl, Bool, ◌&&◌, List, [], ◌∷◌, leb, nat_beq, if◌then◌else◌,
  arith, ltb, All, ◌<◌,
}
use cloud_file_server.Text.{Text}

-- U+FFFD
abbrev replacement : ℕ
replacement = 0xfffd

between : ℕ → ℕ → ℕ → Bool
between lo hi c = leb lo c && leb c hi

is_continuation : ℕ → Bool
unfolding between
is_continuation c = between 0x80 0xbf c

-- The second byte's range depends on the first: no overlong forms, no surrogates, none above
-- U+10FFFF.
second_ok : ℕ → ℕ → Bool
unfolding between is_continuation
second_ok b0 b1 =
    if nat_beq b0 0xe0
    then between 0xa0 0xbf b1
    else if nat_beq b0 0xed
    then between 0x80 0x9f b1
    else if nat_beq b0 0xf0
    then between 0x90 0xbf b1
    else if nat_beq b0 0xf4
    then between 0x80 0x8f b1
    else is_continuation b1

decode2 : ℕ → Text → ℕ × ℕ
unfolding second_ok
decode2 b0 [] = (replacement, 1)
decode2 b0 (b1 ∷ _) =
    if second_ok b0 b1 then ((b0 - 0xc0) * 64 + (b1 - 0x80), 2) else (replacement, 1)

decode3 : ℕ → Text → ℕ × ℕ
unfolding second_ok
decode3 b0 [] = (replacement, 1)
decode3 b0 (_ ∷ []) = (replacement, 1)
decode3 b0 (b1 ∷ b2 ∷ _) =
    if second_ok b0 b1 && is_continuation b2
    then ((b0 - 0xe0) * 4096 + (b1 - 0x80) * 64 + (b2 - 0x80), 3)
    else (replacement, 1)

decode4 : ℕ → Text → ℕ × ℕ
unfolding second_ok
decode4 b0 [] = (replacement, 1)
decode4 b0 (_ ∷ []) = (replacement, 1)
decode4 b0 (_ ∷ _ ∷ []) = (replacement, 1)
decode4 b0 (b1 ∷ b2 ∷ b3 ∷ _) =
    if second_ok b0 b1 && is_continuation b2 && is_continuation b3
    then ((b0 - 0xf0) * 262144 + (b1 - 0x80) * 4096 + (b2 - 0x80) * 64 + (b3 - 0x80), 4)
    else (replacement, 1)

-- The rune at the front, and the number of bytes that it takes.
decode_rune : ℕ → Text → ℕ × ℕ
unfolding between decode2 decode3 decode4
decode_rune b0 rest =
    if ltb b0 0x80
    then (b0, 1)
    else if between 0xc2 0xdf b0
    then decode2 b0 rest
    else if between 0xe0 0xef b0
    then decode3 b0 rest
    else if between 0xf0 0xf4 b0
    then decode4 b0 rest
    else (replacement, 1)

-- The runes of a string, past the bytes of the rune before.
runes_from : ℕ → Text → List ℕ
runes_from skip [] = []
runes_from (suc skip) (b ∷ s) = runes_from skip s
runes_from zero (b ∷ s) = let (r, width) = decode_rune b s in r ∷ runes_from (width - 1) s

unfoldable pub runes : Text → List ℕ
unfolding runes_from decode_rune
runes s = runes_from 0 s

-- An ASCII string is its own list of runes.
runes_ascii : (s : Text) → All (λ c. c < 0x80) s → runes s ≡ s
unfolding runes
runes_ascii [] h = refl
runes_ascii (b ∷ s) h = ground (arith, runes_ascii s h.1)
