-- ===== src/Base/Int.antt =====
-- Signed integers over the native numbers, and the two's complement words that stand for them.
use Prim.Native.Nat.{ℕ, ◌-◌, ◌*◌, ◌%◌, ◌<◌}
use mathlib.Core.Path.{◌≡◌}
use mathlib.Core.Bool.{Bool, true, false}
use native.Mathlib.Omega.{arith}
use native.Mathlib.Nat.{mod-eq_of_lt}
use kokkos_kernel_forge.Base.Tests.{ltb, if◌then◌else◌}

-- `negsuc n` is -(n + 1).
pub data ℤ : Type 0 where
  pos : ℕ → ℤ
  negsuc : ℕ → ℤ

abbrev pub is_negative : ℤ → Bool
is_negative (pos n) = false
is_negative (negsuc n) = true

-- The value lies in the range of a signed integer of `half` values on each side.
abbrev pub FitsSigned : ℕ → ℤ → Type 0
FitsSigned half (pos n) = n < half
FitsSigned half (negsuc n) = n < half

-- `static_cast` to an unsigned word of `modulus` values.
unfoldable pub to_word : ℕ → ℤ → ℕ
to_word modulus (pos n) = n % modulus
to_word modulus (negsuc n) = modulus - 1 - n % modulus

-- The signed integer that a word of `2 * half` values stands for.
unfoldable pub from_word : ℕ → ℕ → ℤ
from_word half w = if ltb w half then pos w else negsuc (2 * half - 1 - w)

pub from_word-to_word :
    (half : ℕ) (z : ℤ) → FitsSigned half z → from_word half (to_word (2 * half) z) ≡ z
unfolding from_word to_word
from_word-to_word half (pos n) h =
    let e : n % (2 * half) ≡ n = mod-eq_of_lt (omega arith) in rw e (ground arith)
from_word-to_word half (negsuc n) h =
    let e : n % (2 * half) ≡ n = mod-eq_of_lt (omega arith) in rw e (ground arith)
