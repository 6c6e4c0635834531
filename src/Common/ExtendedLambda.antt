-- ===== src/Common/ExtendedLambda.antt =====
-- src/krepe/common/extended_lambda_utils.hpp: where an extended lambda of nvcc keeps its host lambda. The size of the
-- host lambda is fixed by the types of nvcc.
use kokkos_kernel_forge.Base.{
  ℕ, ◌+◌, ◌-◌, ◌*◌, Bool, false, List, [], ◌∷◌, length, drop, if◌then◌else◌,
}

-- The number that bytes of memory hold, the lowest first.
unfoldable pub little_endian : List ℕ → ℕ
little_endian [] = 0
little_endian (byte ∷ bytes) = byte + 256 * little_endian bytes

-- The last `sizeof(void*)` bytes of the object; an object has at least as many.
unfoldable pub hdl_host_lambda_pointer : List ℕ → ℕ
unfolding little_endian
hdl_host_lambda_pointer f = little_endian (drop (length f - 8) f)

-- `KOKKOS_COMPILER_NVCC`, and what the compiler answers for the type.
unfoldable pub lambda_is_hdl : Bool → Bool → Bool
lambda_is_hdl compiler_nvcc is_extended_host_device_lambda_closure_type =
    if compiler_nvcc then is_extended_host_device_lambda_closure_type else false
