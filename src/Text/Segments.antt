-- ===== src/Text/Segments.antt =====
-- `strings.Split(s, "/")` and `strings.Join(segments, "/")`, and `path.Clean` of a rooted path.
use mathlib.Core.List.{reverse}
use cloud_file_server.Base.{ℕ, ◌||◌, List, [], ◌∷◌, ◌++◌, nat_beq, if◌then◌else◌}
use cloud_file_server.Text.{Text, text_beq, ascii, slash}

-- Puts a byte in front of the first segment.
unfoldable pub extend : ℕ → List Text → List Text
extend c [] = (c ∷ []) ∷ []
extend c (s ∷ segments) = (c ∷ s) ∷ segments

unfoldable pub split : Text → List Text
unfolding extend
split [] = [] ∷ []
split (c ∷ s) = let rest = split s in if nat_beq c slash then [] ∷ rest else extend c rest

unfoldable pub join : List Text → Text
join [] = []
join (s ∷ []) = s
join (s ∷ t ∷ segments) = s ++ (slash ∷ join (t ∷ segments))

unfoldable pub dot : Text
unfolding ascii
dot = ascii "."

unfoldable pub dotdot : Text
unfolding ascii
dotdot = ascii ".."

-- One segment against the ones kept so far, last first: `.` and an empty segment go, `..` takes
-- one back, and above the root it is dropped.
unfoldable pub clean_step : List Text → Text → List Text
clean_step kept segment =
    if text_beq segment [] || text_beq segment dot
    then kept
    else if text_beq segment dotdot
    then elim kept [ [] ↦ [] | last ∷ rest ↦ rest ]
    else segment ∷ kept

unfoldable pub clean_loop : List Text → List Text → List Text
clean_loop kept [] = kept
clean_loop kept (s ∷ segments) = clean_loop (clean_step kept s) segments

-- `path.Clean("/" + p)`
unfoldable pub clean_rooted : Text → Text
clean_rooted p = slash ∷ join (reverse (clean_loop [] (split p)))
