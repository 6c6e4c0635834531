-- ===== src/Base/Result.antt =====
-- A call that may throw.
use mathlib.Core.Path.{◌≡◌, refl}
use mathlib.Core.Logic.{◌⊎◌, inl, inr}
use kokkos_kernel_forge.Base.Text.{Text}

-- An exception carries what `what()` returns.
pub data Result {ℓ} (T : Type ℓ) : Type ℓ where
  ok : T → Result T
  err : Text → Result T

infixl 5 ◌>>=◌ ◌>>◌
abbrev pub ◌>>=◌ {ℓ κ} : {T : Type ℓ} {U : Type κ} → Result T → (T → Result U) → Result U
ok value >>= next = next value
err what >>= next = err what

abbrev pub ◌>>◌ {ℓ} : {U : Type ℓ} → Result (Unit {0}) → Result U → Result U
done >> next = done >>= λ _. next

-- Inversion of a chain that returned.
pub >>=-eq-ok {ℓ κ} :
    {T : Type ℓ} {U : Type κ} (r : Result T) (next : T → Result U) {result : U}
    → (r >>= next) ≡ ok result
    → (value : T) × (r ≡ ok value) × (next value ≡ ok result)
>>=-eq-ok (ok value) next returned = (value, refl, returned)
>>=-eq-ok (err what) next returned = cc

pub Result-cases {ℓ} :
    {T : Type ℓ} (r : Result T) → ((value : T) × (r ≡ ok value)) ⊎ ((what : Text) × (r ≡ err what))
Result-cases (ok value) = inl (value, refl)
Result-cases (err what) = inr (what, refl)
