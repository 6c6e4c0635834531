-- ===== src/Tests/MemoryCopy.antt =====
-- Runs of the copy of an allocation's bytes.
use kokkos_kernel_forge.Base.{ℕ, zero, suc, ◌≡◌, refl, ap, true, false, none, List, [], ◌∷◌, length}
use kokkos_kernel_forge.Base.Text.{text, text_eq}
use kokkos_kernel_forge.Capture.Tracker.{ActiveAllocation}
use kokkos_kernel_forge.Capture.MemoryCopy.{
  Memory, CopiesAll, CopyOf, copy_allocation_bytes, stage_and_copy, copy_bytes,
  is_host_accessible_space, copy_allocation_bytes-whole,
}

abbrev zeros : ℕ → List ℕ
zeros zero = []
zeros (suc n) = 0 ∷ zeros n

length-zeros : (n : ℕ) → length (zeros n) ≡ n
length-zeros zero = refl
length-zeros (suc n) = ap (λ k. suc k) (length-zeros n)

-- A machine without devices whose memory holds zeros.
abbrev pub zero_memory : Memory
zero_memory = record {
  enable_cuda_dump = false;
  enable_hip_dump = false;
  resize_error = λ size. none;
  memcpy = λ address size. zeros size;
  cuda_error = λ address size. none;
  cuda_memcpy = λ address size. zeros size;
  hip_error = λ address size. none;
  hip_memcpy = λ address size. zeros size;
}

zero_memory-CopiesAll : CopiesAll zero_memory
zero_memory-CopiesAll = record {
  length-memcpy = λ address size. length-zeros size;
  length-cuda_memcpy = λ address size. length-zeros size;
  length-hip_memcpy = λ address size. length-zeros size;
}

abbrev pub host_allocation : ActiveAllocation
host_allocation = record {
  ptr = 1000;
  allocation = record {
    label = text "x";
    space = text "Host";
    p_data = 1128;
    size = 3;
    reported_size = 3;
    data_size_known = true;
  };
}

copy_allocation_bytes-whole_example :
    (host_allocation.allocation.data_size_known ≡ true)
    × CopyOf zero_memory host_allocation.allocation
        (copy_allocation_bytes zero_memory host_allocation).1
    × (length (copy_allocation_bytes zero_memory host_allocation).1
        ≡ host_allocation.allocation.size)
unfolding copy_allocation_bytes stage_and_copy copy_bytes is_host_accessible_space text_eq text
copy_allocation_bytes-whole_example =
    copy_allocation_bytes-whole zero_memory zero_memory-CopiesAll host_allocation refl
