-- ===== src/Tests/Replayer.antt =====
-- A dump with one view, captured and replayed on the host.
use kokkos_kernel_forge.Base.{
  ◌≡◌, refl, true, false, none, some, [], ◌∷◌, ◌++◌, arith, All, nat_eq, if◌then◌else◌,
}
use kokkos_kernel_forge.Base.Text.{text, text_eq}
use kokkos_kernel_forge.Base.Result.{ok}
use kokkos_kernel_forge.Common.Hdf5.{
  Hdf5, attribute, dataset, string_value, bytes_value, hdf5_failed,
}
use kokkos_kernel_forge.Capture.Dump.Pointer.{pointer_to_string, print_hex}
use kokkos_kernel_forge.Replay.Space.{host, memory_space_type_from_string}
use kokkos_kernel_forge.Replay.Policy.{get_string, as_string, pop_back}
use kokkos_kernel_forge.Replay.Hex.{
  stoull_16, drop_spaces, value_of, hex_digit, scan_hex, drop_prefix,
}
use kokkos_kernel_forge.Replay.Views.{
  get_bytes, get_hdf5_dataset_alloc_info, buffer_size, as_bytes, insert_unless_empty, space_eq,
}
use kokkos_kernel_forge.Replay.Guard.{Build, Replayer, allocate_all, allocate}
use kokkos_kernel_forge.Replay.Guard.Construct.{group_of, copy_views, reserve, collect}
use kokkos_kernel_forge.Replay.Guard.Restored.{View, Describes, IsRestored}
use kokkos_kernel_forge.Replay.Guard.Restored.Kept.{copy_views-IsRestored}
use kokkos_kernel_forge.Replay.Guard.Mapped.{HostHasData, reserve-HasData}
use kokkos_kernel_forge.Replay.Guard.Functor.{Object, Revived, replay_functor}
use kokkos_kernel_forge.Common.ExtendedLambda.{hdl_host_lambda_pointer}
use kokkos_kernel_forge.Replay.Guard.Functor.Lambda.{replay_functor-hdl_host_lambda_pointer}
use kokkos_kernel_forge.Replay.Guard.Functor.Runs.{replay_functor-revives, dumped_object}
use kokkos_kernel_forge.RoundTrip.Pointers.{stoull_16-pointer_to_string}
use kokkos_kernel_forge.Tests.RoundTrip.{File, file_hdf5, serial_build}
use kokkos_kernel_forge.Tests.Machine.{host_system, machine_with}
use kokkos_kernel_forge.Replay.Regions.{
  get_allocation_address, compute_allocations, insert_region, aligned_region, granularity_of, join,
  merge_from, region_lt,
}
use kokkos_kernel_forge.Replay.Machine.Allocation.{construct, emplace_back, move_construct}
use kokkos_kernel_forge.Replay.Machine.{host_allocate, unmap, all_mapped}

stoull_16-pointer_to_string_example : stoull_16 (pointer_to_string 1128) ≡ ok 1128
stoull_16-pointer_to_string_example = stoull_16-pointer_to_string 1128 (omega arith)

abbrev pub host_build : Build
host_build = record {
  system = host_system;
  page_size = 4096;
  kokkos = serial_build;
  nvcc_workaround = false;
  vector_full = λ n. true;
  indeterminate = λ a. host;
}

abbrev pub new_replayer : Replayer
new_replayer = record {
  machine = machine_with [];
  host_raw_allocations = [];
  host_allocations = [];
  host_output_allocations = [];
  host_output_labels = [];
  device_raw_allocations = [];
  device_allocations = [];
  device_output_allocations = [];
  device_output_labels = [];
  metadata = [];
  functor_data = [];
  nvcc_inner_lambda_data = [];
  replay_policy = none;
}

abbrev x_view : View
x_view = record { label = text "x"; space = text "Host"; address = 1128; bytes = 7 ∷ 8 ∷ 9 ∷ [] }

abbrev pub with_view : Hdf5 File
with_view = record file_hdf5 {
  children = λ p w. some (text "view_0_x" ∷ []);
  exists = λ p w. some false;
}

-- A file with this view only.
abbrev x_file : File
x_file p (attribute n) =
    if text_eq n (text "label")
    then some (string_value (text "x" ++ 0 ∷ []))
    else if text_eq n (text "space")
    then some (string_value (text "Host" ++ 0 ∷ []))
    else some (string_value (text "0x468" ++ 0 ∷ []))
x_file p (dataset n) = some (bytes_value (7 ∷ 8 ∷ 9 ∷ []))

x_file-Describes :
    Describes (group_of host_build with_view x_file (text "in") (text "view_0_x")) x_view
unfolding text text_eq get_string get_bytes pointer_to_string print_hex
x_file-Describes = record {
  label = refl;
  space = refl;
  p_data = text "0x468";
  pointer = refl;
  address = stoull_16-pointer_to_string 1128 (omega arith);
  bytes = refl;
  short = omega arith;
}

-- The page around the view is mapped.
abbrev with_page : Replayer
with_page = record new_replayer {
  machine = machine_with (record { address = 0; size = 4096 } ∷ []);
}

x_view_mapped : all_mapped (record { address = 0; size = 4096 } ∷ []) 1128 3 ≡ true
unfolding all_mapped
x_view_mapped = refl

copy_views-IsRestored_example :
    ((copy_views host_build with_view x_file with_page).0 ≡ ok tt)
    × IsRestored host_build x_view (copy_views host_build with_view x_file with_page).1
unfolding memory_space_type_from_string text text_eq
copy_views-IsRestored_example =
    copy_views-IsRestored host_build with_view x_file (text "view_0_x" ∷ []) [] x_view [] with_page
      refl (x_file-Describes, tt, tt) (x_view_mapped, tt) tt

reserved_page : (reserve host_build with_view x_file host new_replayer).0 ≡ ok tt
unfolding reserve get_hdf5_dataset_alloc_info get_string text_eq text stoull_16 drop_spaces value_of
    hex_digit scan_hex drop_prefix memory_space_type_from_string buffer_size get_allocation_address
    allocate_all compute_allocations insert_region hdf5_failed collect allocate construct
    emplace_back move_construct host_allocate unmap as_string pop_back aligned_region granularity_of
    join merge_from region_lt as_bytes get_bytes insert_unless_empty space_eq
reserved_page = refl

reserve-HasData_example :
    All
      (λ v.
        HostHasData v
          (reserve host_build with_view x_file host new_replayer).1.machine.host_memory.mapped)
      (x_view ∷ [])
unfolding memory_space_type_from_string text text_eq
reserve-HasData_example =
    reserve-HasData host_build with_view x_file (text "view_0_x" ∷ []) (x_view ∷ []) new_replayer
      (omega arith) refl (x_file-Describes, (λ on_host. omega arith), tt) reserved_page

abbrev two_bytes : Object
two_bytes = record { bytes = 1 ∷ 2 ∷ []; inner_lambda = none }

abbrev holding : Replayer
holding = record new_replayer { functor_data = 5 ∷ 6 ∷ [] }

replay_functor-revives_example : replay_functor holding (λ o. o) two_bytes ≡ (
  ok (record { functor = dumped_object holding two_bytes.bytes none; destroyed = two_bytes }),
  true,
)
replay_functor-revives_example = replay_functor-revives holding (λ o. o) two_bytes (refl, tt)

-- An extended lambda with two bytes of its own and the pointer 4096, and another pointer in the dump.
abbrev extended_lambda : Object
extended_lambda = record {
  bytes = 1 ∷ 2 ∷ 0 ∷ 16 ∷ 0 ∷ 0 ∷ 0 ∷ 0 ∷ 0 ∷ 0 ∷ [];
  inner_lambda = some (7 ∷ []);
}

abbrev holding_lambda : Replayer
holding_lambda = record new_replayer {
  functor_data = 5 ∷ 6 ∷ 0 ∷ 99 ∷ 0 ∷ 0 ∷ 0 ∷ 0 ∷ 0 ∷ 0 ∷ [];
  nvcc_inner_lambda_data = 8 ∷ [];
}

abbrev revived_lambda : Revived
revived_lambda = record {
  functor = record {
    bytes = 5 ∷ 6 ∷ 0 ∷ 16 ∷ 0 ∷ 0 ∷ 0 ∷ 0 ∷ 0 ∷ 0 ∷ [];
    inner_lambda = some (8 ∷ []);
  };
  destroyed = extended_lambda;
}

lambda_returns : replay_functor holding_lambda (λ o. o) extended_lambda ≡ (ok revived_lambda, true)
unfolding replay_functor
lambda_returns = refl

replay_functor-hdl_host_lambda_pointer_example :
    (new : Object) × (revived_lambda.functor ≡ new)
    × (hdl_host_lambda_pointer new.bytes ≡ hdl_host_lambda_pointer extended_lambda.bytes)
replay_functor-hdl_host_lambda_pointer_example =
    replay_functor-hdl_host_lambda_pointer holding_lambda (λ o. o) extended_lambda (7 ∷ [])
      revived_lambda true refl lambda_returns
