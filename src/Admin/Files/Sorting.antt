-- ===== src/Admin/Files/Sorting.antt =====
-- sortEntries of internal/admin/files.go as a sort: what comes out of it, and in which order.
use mathlib.Core.List.{Perm}
use cloud_file_server.Base.{◌≡◌, refl, true, false, List, [], ◌∷◌, arith, Bool-cases, inl, inr}
use cloud_file_server.Base.Sorting.{IsOrdered, sort_by-IsOrdered, sort_by-perm}
use cloud_file_server.Text.{Text}
use cloud_file_server.Fsdriver.FileInfo.{FileInfo}
use cloud_file_server.Admin.Files.{text_ltb, less, sort_entries}

text_ltb_trans : (r s t : Text) → text_ltb s r ≡ false → text_ltb t s ≡ false → text_ltb t r ≡ false
unfolding text_ltb
text_ltb_trans [] [] [] h k = refl
text_ltb_trans [] [] (c ∷ t) h k = refl
text_ltb_trans [] (b ∷ s) [] h k = ground arith
text_ltb_trans [] (b ∷ s) (c ∷ t) h k = refl
text_ltb_trans (a ∷ r) [] t h k = ground arith
text_ltb_trans (a ∷ r) (b ∷ s) [] h k = ground arith
text_ltb_trans (a ∷ r) (b ∷ s) (c ∷ t) h k = ground (arith, text_ltb_trans r s t)

text_ltb_asymm : (s t : Text) → text_ltb s t ≡ true → text_ltb t s ≡ false
unfolding text_ltb
text_ltb_asymm [] [] h = refl
text_ltb_asymm [] (b ∷ t) h = refl
text_ltb_asymm (a ∷ s) [] h = ground arith
text_ltb_asymm (a ∷ s) (b ∷ t) h = ground (arith, text_ltb_asymm s t)

-- A folder stands before every file, and what is of one kind stands in the order of the names.
abbrev pub IsBefore : FileInfo → FileInfo → Type 0
IsBefore a b =
    (a.is_dir ≡ false → b.is_dir ≡ false) × (a.is_dir ≡ b.is_dir → text_ltb b.name a.name ≡ false)

less-IsBefore : (a b : FileInfo) → less a b ≡ true → IsBefore a b
unfolding less
less-IsBefore a b h = (ground arith, λ e. ground (arith, text_ltb_asymm a.name b.name))

not_less-IsBefore : (a b : FileInfo) → less b a ≡ false → IsBefore a b
unfolding less
not_less-IsBefore a b h = (ground arith, λ e. ground arith)

IsBefore-trans : (a b c : FileInfo) → IsBefore a b → IsBefore b c → IsBefore a c
IsBefore-trans a b c h k = (
  λ e. k.0 (h.0 e),
  λ e. text_ltb_trans a.name b.name c.name (h.1 (same e)) (k.1 (ground (arith, same e))),
)
  where
    same : a.is_dir ≡ c.is_dir → a.is_dir ≡ b.is_dir
    same e = elim (Bool-cases a.is_dir) [
      | inl folder ↦ elim (Bool-cases b.is_dir) [
        | inl also ↦ ground arith
        | inr file ↦ absurd (ground (arith, k.0 file))
      ]
      | inr file ↦ ground (arith, h.0 file)
    ]

pub sort_entries-IsOrdered : (es : List FileInfo) → IsOrdered IsBefore (sort_entries es)
unfolding sort_entries
sort_entries-IsOrdered es =
    sort_by-IsOrdered less IsBefore less-IsBefore (λ x e. not_less-IsBefore e x) IsBefore-trans es

pub sort_entries-perm : (es : List FileInfo) → Perm (sort_entries es) es
unfolding sort_entries
sort_entries-perm es = sort_by-perm less es
