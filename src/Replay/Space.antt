-- ===== src/Replay/Space.antt =====
-- src/krepe/replay/memory_space_type.hpp, and the parts of the build that the replayer is
-- compiled for.
use kokkos_kernel_forge.Base.{ℕ, ◌≡◌, refl, ◌⊎◌, inl, inr, Bool, ◌==◌, if◌then◌else◌}
use kokkos_kernel_forge.Base.Result.{Result}
use kokkos_kernel_forge.Base.Text.{Text, text, text_Eq}

pub data MemorySpaceType : Type 0 where
  host device : MemorySpaceType

pub MemorySpaceType-cases : (t : MemorySpaceType) → (t ≡ host) ⊎ (t ≡ device)
MemorySpaceType-cases host = inl refl
MemorySpaceType-cases device = inr refl

unfoldable pub memory_space_type_from_string : Text → MemorySpaceType
memory_space_type_from_string space_name = if space_name == text "Host" then host else device

-- What the build and the machine fix: `KERNEL_REPLAYER_HAS_DEVICE_SPACE`, `getpagesize()` and what
-- `device_allocation_granularity` returns or throws.
pub record Platform : Type 0 where
  pub has_device_space : Bool
  pub page_size : ℕ
  pub device_granularity : Result ℕ
