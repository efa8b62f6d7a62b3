-- ===== src/Text/SegmentLaws.antt =====
-- Laws of splitting, joining and cleaning paths.
use mathlib.Core.List.{reverse_aux, reverse-reverse}
use cloud_file_server.Base.{
  ℕ, ◌≡◌, refl, ap, ◌∙◌, Bool, false, ◌||◌, not, List, [], ◌∷◌, ◌++◌, arith, nat_beq, if◌then◌else◌,
  any, All, select,
}
use cloud_file_server.Text.{Text, text_beq, slash}
use cloud_file_server.Text.Segments.{
  extend, split, join, dot, dotdot, clean_step, clean_loop, clean_rooted,
}

-- No byte of the segment is a slash.
abbrev has_slash : Text → Bool
has_slash = any (λ c. nat_beq c slash)

abbrev pub HasNoSlash : Text → Type 0
HasNoSlash s = has_slash s ≡ false

-- A segment that names something: not empty, and not `.`.
abbrev pub is_proper : Text → Bool
is_proper s = not (text_beq s [] || text_beq s dot)

abbrev pub is_dotdot : Text → Bool
is_dotdot s = text_beq s dotdot

extend-HasNoSlash :
    (c : ℕ) (segments : List Text)
    → nat_beq c slash ≡ false
    → All HasNoSlash segments
    → All HasNoSlash (extend c segments)
unfolding extend
extend-HasNoSlash c [] h k = ground arith
extend-HasNoSlash c (s ∷ segments) h k = ground arith

pub split-HasNoSlash : (s : Text) → All HasNoSlash (split s)
unfolding split
split-HasNoSlash [] = (refl, tt)
split-HasNoSlash (c ∷ s) = ground (arith, split-HasNoSlash s, extend-HasNoSlash c (split s))

-- A text with no slash in front of the segments of the rest.
split-slash : (s rest : Text) → HasNoSlash s → split (s ++ (slash ∷ rest)) ≡ s ∷ split rest
unfolding split extend
split-slash [] rest h = refl
split-slash (c ∷ s) rest h = ground (arith, split-slash s rest)

split_single : (s : Text) → HasNoSlash s → split s ≡ s ∷ []
unfolding split extend
split_single [] h = refl
split_single (c ∷ s) h = ground (arith, split_single s)

-- `split` takes a joined list of segments apart again.
pub split-join :
    (s : Text) (segments : List Text)
    → All HasNoSlash (s ∷ segments)
    → split (join (s ∷ segments)) ≡ s ∷ segments
unfolding join
split-join s [] h = split_single s h.0
split-join s (t ∷ segments) h =
    split-slash s (join (t ∷ segments)) h.0 ∙ ap (λ r. s ∷ r) (split-join t segments h.1)

clean_step_lem :
    (kept : List Text) (s : Text)
    → is_dotdot s ≡ false
    → clean_step kept s ≡ (if is_proper s then s ∷ kept else kept)
unfolding clean_step
clean_step_lem kept s h = ground arith

clean_loop_lem :
    (kept segments : List Text)
    → any is_dotdot segments ≡ false
    → clean_loop kept segments ≡ reverse_aux (select is_proper segments) kept
unfolding clean_loop
clean_loop_lem kept [] h = refl
clean_loop_lem kept (s ∷ segments) h =
    rw (clean_step_lem kept s (ground arith))
      (ground (arith, clean_loop_lem (s ∷ kept) segments, clean_loop_lem kept segments))

pub clean_rooted_lem :
    (p : Text)
    → any is_dotdot (split p) ≡ false
    → clean_rooted p ≡ slash ∷ join (select is_proper (split p))
unfolding clean_rooted
clean_rooted_lem p h =
    rw (clean_loop_lem [] (split p) h) (rw (reverse-reverse (select is_proper (split p))))
