-- ===== src/Text/Spaces.antt =====
-- `strings.TrimSpace`: the white space of Unicode, by its encodings in UTF-8.
use mathlib.Core.List.{reverse, map}
use cloud_file_server.Base.{ℕ, zero, suc, ◌-◌, ◌+◌, List, [], ◌∷◌, nat_beq, length, if◌then◌else◌}
use cloud_file_server.Text.{Text, has_prefix}

abbrev three : ℕ → ℕ → ℕ → Text
three a b c = a ∷ b ∷ c ∷ []

-- U+2000 to U+200A
abbrev quads : ℕ → ℕ → List Text
quads zero b = []
quads (suc n) b = three 0xE2 0x80 b ∷ quads n (b + 1)

unfoldable pub white_space : List Text
white_space =
    (9 ∷ [])
    ∷ (10 ∷ [])
    ∷ (11 ∷ [])
    ∷ (12 ∷ [])
    ∷ (13 ∷ [])
    ∷ (32 ∷ [])
    ∷ (0xC2 ∷ 0x85 ∷ [])
    ∷ (0xC2 ∷ 0xA0 ∷ [])
    ∷ three 0xE1 0x9A 0x80
    ∷ three 0xE2 0x80 0xA8
    ∷ three 0xE2 0x80 0xA9
    ∷ three 0xE2 0x80 0xAF
    ∷ three 0xE2 0x81 0x9F
    ∷ three 0xE3 0x80 0x80
    ∷ quads 11 0x80

-- The length of the first of some texts that a text begins with, or 0.
unfoldable pub leading : List Text → Text → ℕ
unfolding has_prefix
leading [] s = 0
leading (p ∷ ps) s = let later = leading ps s in if has_prefix s p then length p else later

-- Drops some bytes, and then every one of the texts in front.
strip_from : List Text → ℕ → Text → Text
unfolding leading
strip_from ps n [] = []
strip_from ps (suc n) (b ∷ s) = strip_from ps n s
strip_from ps zero (b ∷ s) =
    let width = leading ps (b ∷ s) in
    let stripped = strip_from ps (width - 1) s in if nat_beq width 0 then b ∷ s else stripped

unfoldable pub trim_space : Text → Text
unfolding strip_from white_space
trim_space s =
    let front = strip_from white_space 0 s in
    reverse (strip_from (map reverse white_space) 0 (reverse front))
