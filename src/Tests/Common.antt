-- ===== src/Tests/Common.antt =====
-- Runs of the handle of src/krepe/common/hdf5_utils.hpp; the world counts the calls of the close function.
use kokkos_kernel_forge.Base.{ℕ, suc, ◌≡◌, refl}
use kokkos_kernel_forge.Base.Int.{ℤ, pos, negsuc}
use kokkos_kernel_forge.Base.Result.{ok}
use kokkos_kernel_forge.Common.ScopedHandle.{ScopedHandle, close_checked, scope, scope_closes_once}

abbrev closes : ℤ → ℕ → ℤ × ℕ
closes id calls = (pos 0, suc calls)

abbrev open_handle : ScopedHandle
open_handle = record { id = pos 7 }

scope_closes_once_example : scope closes 2 open_handle 0 ≡ (ok tt, 1)
scope_closes_once_example = scope_closes_once closes 2 open_handle 0 (λ e. refl)

abbrev invalid_handle : ScopedHandle
invalid_handle = record { id = negsuc 0 }

-- A function that fails for every id is not called for an invalid one.
abbrev refuses : ℤ → ℕ → ℤ × ℕ
refuses id calls = (negsuc 0, suc calls)

invalid_handle_stays : scope refuses 2 invalid_handle 0 ≡ (ok tt, 0)
unfolding scope close_checked
invalid_handle_stays = refl
