-- ===== src/Base/Dict.antt =====
-- Go maps as association lists. A key stands at most once; a missing key reads as `none`.
use mathlib.Core.Path.{◌≡◌, refl}
use mathlib.Core.List.{List, [], ◌∷◌}
use mathlib.Core.Option.{Option, none, some}
use native.Mathlib.Omega.{arith}
use cloud_file_server.Base.Conditions.{Eq, ◌==◌, if◌then◌else◌}

abbrev pub Dict {ℓ κ} : Type ℓ → Type κ → Type (ℓ ⊔ κ)
Dict K V = List (K × V)

module _ {ℓ κ} {K : Type ℓ} {V : Type κ} ⦃e : Eq K⦄ where
  unfoldable pub lookup : K → Dict K V → Option V
  lookup key [] = none
  lookup key ((k, held) ∷ rest) = if k == key then some held else lookup key rest

  -- `m[k] = v`
  unfoldable pub insert : K → V → Dict K V → Dict K V
  insert key new [] = (key, new) ∷ []
  insert key new ((k, held) ∷ rest) =
      let later = insert key new rest in if k == key then (key, new) ∷ rest else (k, held) ∷ later

  -- `delete(m, k)`
  unfoldable pub erase : K → Dict K V → Dict K V
  erase key [] = []
  erase key ((k, held) ∷ rest) =
      let later = erase key rest in if k == key then later else (k, held) ∷ later

  pub lookup-insert :
      (key other : K) (new : V) (d : Dict K V)
      → lookup other (insert key new d) ≡ (if key == other then some new else lookup other d)
  unfolding lookup insert
  lookup-insert key other new [] = refl
  lookup-insert key other new ((k, held) ∷ rest) = ground (
    arith,
    lookup-insert key other new rest,
    e.beq_iff k key,
    e.beq_iff k other,
    e.beq_iff key other,
  )

  pub lookup-erase :
      (key other : K) (d : Dict K V)
      → lookup other (erase key d) ≡ (if key == other then none else lookup other d)
  unfolding lookup erase
  lookup-erase key other [] = ground arith
  lookup-erase key other ((k, held) ∷ rest) =
      ground (
        arith,
        lookup-erase key other rest,
        e.beq_iff k key,
        e.beq_iff k other,
        e.beq_iff key other,
      )
