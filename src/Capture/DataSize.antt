-- ===== src/Capture/DataSize.antt =====
-- The size of the data of an allocation, and the allocation hooks that record it, in
-- src/krepe/capture/kokkos_hooks.cpp.
pub mod Hooks
use kokkos_kernel_forge.Base.{
  ℕ, ◌+◌, ◌-◌, ◌%◌, ◌^◌, ◌≤◌, ◌<◌, ◌≡◌, ◌≢◌, ◌↔◌, refl, inl, inr, ◌⊎◌, Bool, true, false, Option,
  none, some, List, [], ◌∷◌, ◌++◌, ◌&&◌, ◌||◌, not, ltb, leb, ◌==◌, nat_eq, zero, suc, arith,
  if◌then◌else◌, Bool-cases,
}
use kokkos_kernel_forge.Base.Text.{Text, text, text_eq, text_Eq}
use kokkos_kernel_forge.Capture.Tracker.{
  AllocationTracker, record_allocation, record_deallocation, find_allocation,
}
use kokkos_kernel_forge.Capture.Tracker.Updates.{find-record_allocation}
use kokkos_kernel_forge.Capture.Options.{label_or_unknown, is_internal_label}

-- What the build and the C, CUDA and HIP runtimes answer. A device query is `none` when one of its
-- two calls fails, and else the base and the size of the allocation around the pointer.
pub record Runtime : Type 0 where
  pub header_size : ℕ
  pub linux : Bool
  pub enable_cuda_dump : Bool
  pub enable_hip_dump : Bool
  pub malloc_usable_size : ℕ → ℕ
  pub cuda_range : ℕ → Option (ℕ × ℕ)
  pub hip_range : ℕ → Option (ℕ × ℕ)

unfoldable pub bounded_bytes : ℕ → List ℕ → Text
bounded_bytes zero value = []
bounded_bytes (suc max_size) [] = []
bounded_bytes (suc max_size) (c ∷ value) =
    let rest = c ∷ bounded_bytes max_size value in if c == 0 then [] else rest

-- `bounded_string`: the text ends at the first null byte, or after `max_size` bytes.
unfoldable pub bounded_string : Option (List ℕ) → ℕ → Text
unfolding bounded_bytes
bounded_string none max_size = text "<null>"
bounded_string (some value) max_size = bounded_bytes max_size value

unfoldable pub is_cuda_pointer_attribute_space : Text → Bool
is_cuda_pointer_attribute_space space =
    space == text "Cuda" || (space == text "CudaUVM" || space == text "CudaHostPinned")

unfoldable pub is_hip_pointer_attribute_space : Text → Bool
is_hip_pointer_attribute_space space =
    space == text "HIP" || (space == text "HIPManaged" || space == text "HIPHostPinned")

unfoldable pub is_host_space : Text → Bool
is_host_space space = space == text "Host"

unfoldable pub allocation_data_pointer : Runtime → ℕ → ℕ
allocation_data_pointer m ptr = ptr + m.header_size

unfoldable pub host_allocation_size : Runtime → ℕ → ℕ
host_allocation_size m ptr = if m.linux then m.malloc_usable_size ptr else 0

unfoldable pub validated_data_size : ℕ → ℕ → ℕ → ℕ → Option ℕ
validated_data_size allocation_base allocation_size data_ptr reported_size =
    if ltb data_ptr allocation_base
    then none
    else if ltb allocation_size (data_ptr - allocation_base)
    then none
    else if (data_ptr - allocation_base) == allocation_size
    then some 0
    else if leb reported_size (allocation_size - (data_ptr - allocation_base))
    then some reported_size
    else some 0

-- The size by the range that a runtime reports, or what the code behind the query returns.
abbrev pub by_range : Option (ℕ × ℕ) → ℕ → ℕ → Option ℕ → Option ℕ
by_range none data_ptr reported_size otherwise = otherwise
by_range (some (base, size)) data_ptr reported_size otherwise =
    validated_data_size base size data_ptr reported_size

unfoldable pub host_data_size : Runtime → Text → ℕ → ℕ → ℕ → Option ℕ
unfolding is_host_space host_allocation_size
host_data_size m space ptr data_ptr reported_size =
    if is_host_space space && not (host_allocation_size m ptr == 0)
    then validated_data_size ptr (host_allocation_size m ptr) data_ptr reported_size
    else none

unfoldable pub hip_data_size : Runtime → Text → ℕ → ℕ → ℕ → Option ℕ
unfolding is_hip_pointer_attribute_space
hip_data_size m space ptr data_ptr reported_size =
    let host = host_data_size m space ptr data_ptr reported_size in
    if m.enable_hip_dump && is_hip_pointer_attribute_space space
    then by_range (m.hip_range ptr) data_ptr reported_size host
    else host

unfoldable pub allocation_data_size : Runtime → Text → ℕ → ℕ → ℕ → Option ℕ
unfolding hip_data_size is_cuda_pointer_attribute_space
allocation_data_size m space ptr data_ptr reported_size =
    let other = hip_data_size m space ptr data_ptr reported_size in
    if not (reported_size == m.header_size)
    then some reported_size
    else if m.enable_cuda_dump && is_cuda_pointer_attribute_space space
    then by_range (m.cuda_range ptr) data_ptr reported_size other
    else other

unfoldable pub should_track_allocation : Option Text → ℕ → Bool
should_track_allocation label ptr =
    not (ptr == 0) && not (is_internal_label (label_or_unknown label))

abbrev pub value_or_zero : Option ℕ → ℕ
value_or_zero none = 0
value_or_zero (some n) = n

abbrev pub has_value : Option ℕ → Bool
has_value none = false
has_value (some n) = true

-- `kokkosp_allocate_data`; `space` is the name in the handle, an array of 64 bytes.
unfoldable pub allocate_data :
    Runtime → List ℕ → Option Text → ℕ → ℕ → AllocationTracker → AllocationTracker
unfolding should_track_allocation
allocate_data m space label ptr size t =
    let allocation_space = bounded_string (some space) 64 in
    let p_data = allocation_data_pointer m ptr in
    let data_size = allocation_data_size m allocation_space ptr p_data size in
    if should_track_allocation label ptr
    then record_allocation (label_or_unknown label) allocation_space ptr p_data
        (value_or_zero data_size) size (has_value data_size) t
    else t

-- `kokkosp_deallocate_data`
unfoldable pub deallocate_data : List ℕ → ℕ → AllocationTracker → AllocationTracker
deallocate_data space ptr t =
    if ptr == 0 then t else record_deallocation (bounded_string (some space) 64) ptr t

-- The answer of the size check, for each place of the data in the allocation.
pub data Checked (base allocation data_ptr reported : ℕ) : Option ℕ → Type 0 where
  outside :
      (data_ptr < base) ⊎ (base + allocation < data_ptr)
      → Checked base allocation data_ptr reported none
  fits :
      base ≤ data_ptr
      → data_ptr + reported ≤ base + allocation
      → data_ptr < base + allocation
      → Checked base allocation data_ptr reported (some reported)
  too_small :
      (r : Option ℕ)
      → r ≡ some 0
      → base ≤ data_ptr
      → data_ptr ≤ base + allocation
      → (data_ptr ≡ base + allocation) ⊎ (base + allocation < data_ptr + reported)
      → Checked base allocation data_ptr reported r

-- The size check gives no answer for data outside of the allocation; else the reported size when those
-- bytes fit behind the data, and 0 when they do not or the data is at the end.
pub validated_data_size-Checked :
    (base allocation data_ptr reported : ℕ)
    → Checked base allocation data_ptr reported
        (validated_data_size base allocation data_ptr reported)
unfolding validated_data_size
validated_data_size-Checked base allocation data_ptr reported =
    elim (Bool-cases (ltb data_ptr base)) [
      | inl e ↦ rw e (outside (ground arith))
      | inr e ↦ rw e (elim (Bool-cases (ltb allocation (data_ptr - base))) [
        | inl e₂ ↦ rw e₂ (outside (ground arith))
        | inr e₂ ↦ rw e₂ (elim (Bool-cases ((data_ptr - base) == allocation)) [
          | inl e₃ ↦ rw e₃ (too_small (some 0) refl (ground arith) (ground arith) (ground arith))
          | inr e₃ ↦ rw e₃ (elim (Bool-cases (leb reported (allocation - (data_ptr - base)))) [
            | inl e₄ ↦ rw e₄ (fits (ground arith) (ground arith) (ground arith))
            | inr e₄ ↦ rw e₄ (too_small (some 0) refl (ground arith) (ground arith) (ground arith))
          ])
        ])
      ])
    ]
