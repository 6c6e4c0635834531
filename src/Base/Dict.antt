-- ===== src/Base/Dict.antt =====
-- `std::unordered_map`: an association list with one entry for a key. Iteration follows the list;
-- the source leaves the order open, and no property rests on it.
use mathlib.Core.Path.{◌≡◌, refl}
use mathlib.Core.Bool.{true}
use mathlib.Core.Option.{Option, none, some}
use mathlib.Core.List.{List, [], ◌∷◌}
use native.Mathlib.Omega.{arith}
use kokkos_kernel_forge.Base.Tests.{Eq, ◌==◌, if◌then◌else◌}

abbrev pub Dict {ℓ κ} : Type ℓ → Type κ → Type (ℓ ⊔ κ)
Dict K V = List (K × V)

module _ {ℓ κ} {K : Type ℓ} {V : Type κ} ⦃keys : Eq K⦄ where
  -- `find`
  unfoldable pub lookup : K → Dict K V → Option V
  lookup key [] = none
  lookup key ((at, value) ∷ rest) = if at == key then some value else lookup key rest

  -- `insert_or_assign`
  unfoldable pub insert : K → V → Dict K V → Dict K V
  insert key new [] = (key, new) ∷ []
  insert key new ((at, value) ∷ rest) =
      if at == key then (at, new) ∷ rest else (at, value) ∷ insert key new rest

  -- `erase`
  unfoldable pub erase : K → Dict K V → Dict K V
  erase key [] = []
  erase key ((at, value) ∷ rest) =
      let left = erase key rest in if at == key then left else (at, value) ∷ left

  pub lookup-insert :
      (key asked : K) (new : V) (dict : Dict K V)
      → lookup asked (insert key new dict) ≡ (if key == asked then some new else lookup asked dict)
  unfolding lookup insert
  lookup-insert key asked new [] = refl
  lookup-insert key asked new ((at, value) ∷ rest) = ground (
    arith,
    lookup-insert key asked new rest,
    keys.beq_iff at key,
    keys.beq_iff at asked,
    keys.beq_iff key asked,
  )

  pub lookup-erase :
      (key asked : K) (dict : Dict K V)
      → lookup asked (erase key dict) ≡ (if key == asked then none else lookup asked dict)
  unfolding lookup erase
  lookup-erase key asked [] = ground arith
  lookup-erase key asked ((at, value) ∷ rest) = ground (
    arith,
    lookup-erase key asked rest,
    keys.beq_iff at key,
    keys.beq_iff at asked,
    keys.beq_iff key asked,
  )

pub eq_refl {ℓ} : {K : Type ℓ} ⦃e : Eq K⦄ (k : K) → (k == k) ≡ true
eq_refl ⦃e⦄ k = (e.beq_iff k k).1 refl
