-- ===== src/Text/Laws.antt =====
-- Laws of the functions on texts.
use cloud_file_server.Base.{◌≡◌, refl, true, [], ◌∷◌, ◌++◌, arith}
use cloud_file_server.Text.{Text, has_prefix, drop_prefix}

pub has_prefix-append : (p s : Text) → has_prefix (p ++ s) p ≡ true
unfolding has_prefix
has_prefix-append [] s = refl
has_prefix-append (c ∷ p) s = ground (arith, has_prefix-append p s)

drop_prefix-append : (p s : Text) → drop_prefix (p ++ s) p ≡ s
unfolding drop_prefix
drop_prefix-append [] s = refl
drop_prefix-append (c ∷ p) s = drop_prefix-append p s

append-drop_prefix : (s p : Text) → has_prefix s p ≡ true → p ++ drop_prefix s p ≡ s
unfolding has_prefix drop_prefix
append-drop_prefix s [] h = refl
append-drop_prefix [] (c ∷ p) h = ground arith
append-drop_prefix (d ∷ s) (c ∷ p) h = ground (arith, append-drop_prefix s p)
