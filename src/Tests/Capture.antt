-- ===== src/Tests/Capture.antt =====
-- Runs of the components of the capture.
use kokkos_kernel_forge.Base.{ℕ, ◌%◌, ◌^◌, ◌≡◌, ◌↔◌, refl, true, false, none, some, [], ◌∷◌, arith}
use kokkos_kernel_forge.Base.Text.{Text, text}
use kokkos_kernel_forge.Capture.Tracker.{
  AllocationRecord, AllocationTracker, empty, find_allocation, snapshot,
}
use kokkos_kernel_forge.Capture.Tracker.Invariant.{
  clears, deallocates, run, IsConsistent, run-IsConsistent,
}
use kokkos_kernel_forge.Capture.Tracker.Snapshot.{selected, total_size, snapshot-selected}
use kokkos_kernel_forge.Capture.Numbers.{parse_positive_uint64, Writes, parse_positive_uint64_iff}
use kokkos_kernel_forge.Capture.Options.{DumpSelection}
use kokkos_kernel_forge.Capture.DataSize.{Runtime, allocation_data_size, allocation_data_pointer}
use kokkos_kernel_forge.Capture.DataSize.Hooks.{allocation_data_size-host}
use kokkos_kernel_forge.Capture.Dump.Names.{dump_filename-injective}

abbrev host_space : Text
host_space = text "Host"

abbrev view_record : AllocationRecord
view_record = record {
  label = text "x";
  space = host_space;
  p_data = 1128;
  size = 64;
  reported_size = 64;
  data_size_known = true;
}

-- One view at 1000 whose data stands at 1128, used at its first byte.
abbrev one_view : AllocationTracker
one_view = record {
  used_allocations = (host_space, 1128 ∷ []) ∷ [];
  active_allocations = (host_space, (1000, view_record) ∷ []) ∷ [];
}

snapshot-selected_example :
    ((snapshot true one_view).0.allocations
      ≡ selected one_view.used_allocations one_view.active_allocations)
    × ((snapshot true one_view).0.active_bytes
        ≡ total_size (snapshot true one_view).0.allocations % 2 ^ 64)
    × ((space : Text) (ptr : ℕ)
        → find_allocation (snapshot true one_view).1 space ptr ≡ find_allocation one_view space ptr)
snapshot-selected_example = snapshot-selected one_view

run-IsConsistent_example : IsConsistent (run (clears ∷ deallocates host_space 1000 ∷ []) empty)
run-IsConsistent_example = run-IsConsistent (clears ∷ deallocates host_space 1000 ∷ [])

parse_positive_uint64_iff_example :
    (parse_positive_uint64 (text "042") ≡ some 42) ↔ Writes (text "042") 42
parse_positive_uint64_iff_example = parse_positive_uint64_iff (text "042") 42

abbrev third_saxpy : DumpSelection
third_saxpy = record { dump_kernel_label = text "saxpy"; dump_kernel_invocation = some 3 }

-- `malloc` gives 264 bytes for every block.
abbrev linux_runtime : Runtime
linux_runtime = record {
  header_size = 128;
  linux = true;
  enable_cuda_dump = false;
  enable_hip_dump = false;
  malloc_usable_size = λ ptr. 264;
  cuda_range = λ ptr. none;
  hip_range = λ ptr. none;
}

allocation_data_size-host_example :
    allocation_data_size linux_runtime
      (text "Host")
      1000
      (allocation_data_pointer linux_runtime 1000)
      128
    ≡ some 128
allocation_data_size-host_example =
    allocation_data_size-host linux_runtime 1000 128 refl (omega arith)

abbrev kernel_id : ℕ
kernel_id = 12

dump_filename-injective_example : kernel_id ≡ kernel_id
dump_filename-injective_example =
    dump_filename-injective (text "a b") (text "a b") kernel_id kernel_id refl
