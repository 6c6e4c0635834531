-- ===== src/Tests/Dumps.antt =====
-- A whole dump of a range kernel with one view, and the policy that the replayer reads from it.
use kokkos_kernel_forge.Base.{◌≡◌, refl, [], ◌∷◌}
use kokkos_kernel_forge.Base.Text.{text, text_eq}
use kokkos_kernel_forge.Base.Result.{ok}
use kokkos_kernel_forge.Capture.Numbers.{to_string}
use kokkos_kernel_forge.Capture.Kernels.{KernelDump}
use kokkos_kernel_forge.Capture.MemoryCopy.{
  copy_allocation_bytes, stage_and_copy, copy_bytes, is_host_accessible_space,
}
use kokkos_kernel_forge.Capture.Dump.WritePolicy.{
  write_policy, write_common, write_range_policy, write_string_attribute, write_int_attribute,
  write_uint64_attribute, write_bytes_dataset,
}
use kokkos_kernel_forge.Capture.Dump.File.{
  Platform, write_bytes, write_allocation_group, write_allocations, write_snapshot, write_metadata,
  write_kernel_dump, create_kernel_dump,
}
use kokkos_kernel_forge.Extract.Bounds.{register_bounds}
use kokkos_kernel_forge.Replay.Policy.{read_policy_from_hdf5}
use kokkos_kernel_forge.RoundTrip.Names.{documented_name}
use kokkos_kernel_forge.RoundTrip.Policies.{replayed}
use kokkos_kernel_forge.RoundTrip.Dumps.{read_policy-create_kernel_dump}
use kokkos_kernel_forge.Tests.MemoryCopy.{zero_memory, host_allocation}
use kokkos_kernel_forge.Tests.RoundTrip.{
  file_hdf5, file_hdf5-IsHdf5, empty_file, serial_build, range_policy,
}

abbrev pub linux : Platform
linux = record { pointer_to_string = to_string; absolute = λ path. ok (b'/' ∷ path) }

abbrev pub range_dump : KernelDump
range_dump = record {
  input_snapshot = record { active_bytes = 3; allocations = host_allocation ∷ [] };
  functor_data = 1 ∷ 2 ∷ [];
  nvcc_inner_lambda_data = [];
  metadata = (text "size", text "13") ∷ [];
  policy = register_bounds documented_name range_policy;
  label = text "saxpy";
  kernel_id = 2;
  kernel_invocation = 1;
}

read_policy-create_kernel_dump_example :
    read_policy_from_hdf5 serial_build file_hdf5
      (create_kernel_dump file_hdf5 zero_memory linux range_dump empty_file).1
    ≡ ok (replayed range_policy)
unfolding create_kernel_dump write_kernel_dump write_snapshot write_allocations
    write_allocation_group write_bytes write_metadata write_policy write_range_policy write_common
    register_bounds write_string_attribute write_int_attribute write_uint64_attribute
    write_bytes_dataset copy_allocation_bytes stage_and_copy copy_bytes is_host_accessible_space
    text_eq text
read_policy-create_kernel_dump_example =
    read_policy-create_kernel_dump file_hdf5 file_hdf5-IsHdf5 zero_memory linux serial_build
      documented_name range_policy range_dump empty_file (λ e. refl) refl refl refl
