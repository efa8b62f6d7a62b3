-- ===== src/Admin/Paths.antt =====
-- `sanitizePath` of internal/admin/files.go: what the file browser does with the path of a request.
use cloud_file_server.Base.{
  ℕ, ◌≡◌, refl, ◌∙◌, Bool, false, List, [], ◌∷◌, Result, ok, err, if◌then◌else◌, any, All, select,
  arith, Bool-cases, inl, inr,
}
use cloud_file_server.Text.{Text, text_beq, text_beq_iff, slash, trim_prefix, drop_prefix}
use cloud_file_server.Text.Segments.{split, join, dotdot, clean_rooted}
use cloud_file_server.Text.SegmentLaws.{
  is_proper, is_dotdot, HasNoSlash, split-HasNoSlash, split-join, clean_rooted_lem,
}

-- `errBadPath`
pub data PathError : Type 0 where
  bad_path : PathError

unfoldable pub sanitize_path : Text → Result PathError Text
unfolding split dotdot clean_rooted trim_prefix
sanitize_path p =
    if text_beq p []
    then ok []
    else if any (λ segment. text_beq segment dotdot) (split p)
    then err bad_path
    else let clean = clean_rooted p in
      if text_beq clean (slash ∷ []) then ok [] else ok (trim_prefix clean (slash ∷ []))

trim_prefix-slash : (s : Text) → trim_prefix (slash ∷ s) (slash ∷ []) ≡ s
unfolding trim_prefix drop_prefix
trim_prefix-slash s = ground arith

text_beq-slash : (s : Text) → text_beq (slash ∷ s) (slash ∷ []) ≡ text_beq s []
text_beq-slash s = ground (arith, text_beq_iff (slash ∷ s) (slash ∷ []), text_beq_iff s [])

All-select : (f : Text → Bool) (xs : List Text) → All HasNoSlash xs → All HasNoSlash (select f xs)
All-select f [] h = tt
All-select f (x ∷ xs) h = ground (arith, All-select f xs)

any-select : (f g : Text → Bool) (xs : List Text) → any f xs ≡ false → any f (select g xs) ≡ false
any-select f g [] h = refl
any-select f g (x ∷ xs) h = ground (arith, any-select f g xs)

select-select : (f : Text → Bool) (xs : List Text) → select f (select f xs) ≡ select f xs
select-select f [] = refl
select-select f (x ∷ xs) = ground (arith, select-select f xs)

text_beq-empty : (c : ℕ) (p : Text) → text_beq (c ∷ p) [] ≡ false
unfolding text_beq
text_beq-empty c p = refl

-- A path is refused exactly if it has a segment `..`; of every other, what is left are its segments
-- that are neither empty nor `.`, in order, with a single slash between them.
pub sanitize_path_lem :
    (p : Text)
    → sanitize_path p
      ≡ (if any is_dotdot (split p) then err bad_path else ok (join (select is_proper (split p))))
unfolding sanitize_path
sanitize_path_lem [] = unfold split join dotdot text_beq in refl
sanitize_path_lem (c ∷ p) = elim (Bool-cases (any is_dotdot (split (c ∷ p)))) [
  | inl up ↦ ground (arith, text_beq-empty c p)
  | inr fine ↦
      let s = join (select is_proper (split (c ∷ p))) in
      ground (
        arith,
        text_beq-empty c p,
        clean_rooted_lem (c ∷ p) fine,
        text_beq-slash s,
        text_beq_iff s [],
        trim_prefix-slash s,
      )
]

-- What sanitizePath lets through, it lets through unchanged the second time.
sanitize_path_idempotent : (p q : Text) → sanitize_path p ≡ ok q → sanitize_path q ≡ ok q
sanitize_path_idempotent p q h = elim (Bool-cases (any is_dotdot (split p))) [
  | inl up ↦ absurd (ground (arith, sanitize_path_lem p))
  | inr fine ↦
      let segments = select is_proper (split p) in
      let e : q ≡ join segments = ground (arith, sanitize_path_lem p) in
      rw (e) (
        again segments (any-select is_dotdot is_proper (split p) fine)
          (select-select is_proper (split p)) (All-select is_proper (split p) (split-HasNoSlash p)))
]
  where
    again :
        (segments : List Text)
        → any is_dotdot segments ≡ false
        → select is_proper segments ≡ segments
        → All HasNoSlash segments
        → sanitize_path (join segments) ≡ ok (join segments)
    again [] a b d = unfold sanitize_path join text_beq in refl
    again (s ∷ segments) a b d =
        sanitize_path_lem (join (s ∷ segments)) ∙ (rw (split-join s segments d) (rw (a, b)))
