-- ===== src/Base/Exec.antt =====
-- A call that changes a state and may throw. What was written before a throw stays written.
use mathlib.Core.Path.{◌≡◌, refl}
use kokkos_kernel_forge.Base.Text.{Text}
use kokkos_kernel_forge.Base.Result.{Result, ok, err}

abbrev pub Exec {ℓ} : Type ℓ → Type ℓ → Type ℓ
Exec S A = S → Result A × S

module _ {ℓ} {S A : Type ℓ} where
  abbrev pub pure : A → Exec S A
  pure a s = (ok a, s)

  abbrev pub throw : Text → Exec S A
  throw e s = (err e, s)

module _ {ℓ} {S A B : Type ℓ} where
  abbrev pub continue : Result A → (A → Exec S B) → Exec S B
  continue (ok a) f s = f a s
  continue (err e) f s = (err e, s)

  infixl 5 ◌>>=◌ ◌>>◌
  abbrev pub ◌>>=◌ : Exec S A → (A → Exec S B) → Exec S B
  ◌>>=◌ m f s = continue (m s).0 f (m s).1

  abbrev pub ◌>>◌ : Exec S A → Exec S B → Exec S B
  m >> n = m >>= λ _. n

-- When the call returns, its value and the state are as `P` says.
abbrev pub Yields {ℓ κ} : {S A : Type ℓ} → Result A × S → (A → S → Type κ) → Type κ
Yields (ok a, s) P = P a s
Yields (err e, s) P = Unit

-- Inversion of a sequence that returned, and of one whose first call has a value.
pub continue_done :
    {W : Type 0} (r : Result (Unit {0})) (n : Exec W (Unit {0})) (w : W)
    → (continue r (λ _. n) w).0 ≡ ok tt
    → (r ≡ ok tt) × ((n w).0 ≡ ok tt) × ((continue r (λ _. n) w).1 ≡ (n w).1)
continue_done (ok u) n w done = (refl, done, refl)
continue_done (err e) n w done = cc

pub continue-eq-ok :
    {W A B : Type 0} (r : Result A) (n : A → Exec W B) (w : W) {value : B}
    → (continue r n w).0 ≡ ok value
    → (a : A) × (r ≡ ok a) × ((n a w).0 ≡ ok value) × (continue r n w ≡ n a w)
continue-eq-ok (ok a) n w done = (a, refl, done, refl)
continue-eq-ok (err e) n w done = cc
