-- ===== src/Base/Sorting.antt =====
-- Sorting by a Boolean test: sort.Slice, and ORDER BY.
use mathlib.Core.List.{Perm}
use mathlib.Core.List.Perm
use cloud_file_server.Base.{
  ◌≡◌, Bool, true, false, List, [], ◌∷◌, All, Bool-cases, inl, inr, if◌then◌else◌,
}

module _ {ℓ} {A : Type ℓ} (less : A → A → Bool) where
  insert_by : A → List A → List A
  insert_by e [] = e ∷ []
  insert_by e (x ∷ xs) = let rest = insert_by e xs in if less x e then x ∷ rest else e ∷ x ∷ xs

  -- Items of which neither is less have no promised order.
  unfoldable pub sort_by : List A → List A
  unfolding insert_by
  sort_by [] = []
  sort_by (e ∷ es) = insert_by e (sort_by es)

module _ {ℓ} {A : Type ℓ} (less : A → A → Bool) where
  insert_by-perm : (e : A) (xs : List A) → Perm (insert_by less e xs) (e ∷ xs)
  unfolding insert_by
  insert_by-perm e [] = Perm.rfl
  insert_by-perm e (x ∷ xs) = elim (Bool-cases (less x e)) [
    | inl first ↦
        rw (first, insert_by) (Perm.trans (Perm.cons x (insert_by-perm e xs)) (Perm.swap e x xs))
    | inr other ↦ rw (other, insert_by) Perm.rfl
  ]

  pub sort_by-perm : (es : List A) → Perm (sort_by less es) es
  unfolding sort_by
  sort_by-perm [] = Perm.rfl
  sort_by-perm (e ∷ es) =
      Perm.trans (insert_by-perm e (sort_by less es)) (Perm.cons e (sort_by-perm es))

  -- Whatever holds of all items holds of all sorted ones.
  All-insert_by {κ} :
      (P : A → Type κ) (e : A) (xs : List A) → P e → All P xs → All P (insert_by less e xs)
  unfolding insert_by
  All-insert_by P e [] h k = (h, tt)
  All-insert_by P e (x ∷ xs) h k = elim (Bool-cases (less x e)) [
    | inl first ↦ rw (first, insert_by) (k.0, All-insert_by P e xs h k.1)
    | inr other ↦ rw (other, insert_by) (h, (k.0, k.1))
  ]

-- Every item stands in a relation to all behind it.
abbrev pub IsOrdered {ℓ κ} : {A : Type ℓ} → (A → A → Type κ) → List A → Type κ
IsOrdered R [] = Unit
IsOrdered R (x ∷ xs) = All (R x) xs × IsOrdered R xs

module _ {ℓ κ} {A : Type ℓ} (less : A → A → Bool) (R : A → A → Type κ)
    (first : (x e : A) → less x e ≡ true → R x e) (last : (x e : A) → less x e ≡ false → R e x)
    (trans : (x y z : A) → R x y → R y z → R x z) where
  All-trans : (x y : A) (zs : List A) → R x y → All (R y) zs → All (R x) zs
  All-trans x y [] h k = tt
  All-trans x y (z ∷ zs) h k = (trans x y z h k.0, All-trans x y zs h k.1)

  insert_by-IsOrdered : (e : A) (xs : List A) → IsOrdered R xs → IsOrdered R (insert_by less e xs)
  unfolding insert_by
  insert_by-IsOrdered e [] h = (tt, tt)
  insert_by-IsOrdered e (x ∷ xs) h = elim (Bool-cases (less x e)) [
    | inl smaller ↦
        rw (smaller, insert_by)
          (All-insert_by less (R x) e xs (first x e smaller) h.0, insert_by-IsOrdered e xs h.1)
    | inr larger ↦
        let before = last x e larger in
        rw (larger, insert_by) ((before, All-trans e x xs before h.0), (h.0, h.1))
  ]

  pub sort_by-IsOrdered : (es : List A) → IsOrdered R (sort_by less es)
  unfolding sort_by
  sort_by-IsOrdered [] = tt
  sort_by-IsOrdered (e ∷ es) = insert_by-IsOrdered e (sort_by less es) (sort_by-IsOrdered es)
