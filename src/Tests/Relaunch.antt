-- ===== src/Tests/Relaunch.antt =====
-- A range kernel with one view, dumped and replayed.
use kokkos_kernel_forge.Base.{
  ℕ, ◌≡◌, refl, true, false, Option, none, some, List, [], ◌∷◌, ◌++◌, arith, nat_eq, ◌==◌, String,
  ◌&&◌, if◌then◌else◌,
}
use kokkos_kernel_forge.Base.Text.{text, text_eq, starts_with}
use kokkos_kernel_forge.Base.Result.{ok}
use kokkos_kernel_forge.Base.Int.{pos, to_word, from_word}
use kokkos_kernel_forge.Common.Hdf5.{
  Hdf5, IsHdf5, Value, string_value, int_value, uint64_value, bytes_value, Slot, attribute, dataset,
  ObjectPath, path_eq, slot_eq,
}
use kokkos_kernel_forge.Capture.MemoryCopy.{copy_allocation_bytes}
use kokkos_kernel_forge.Capture.Dump.Pointer.{pointer_to_string, print_hex}
use kokkos_kernel_forge.Capture.Dump.File.{Platform, create_kernel_dump, write_allocation_group}
use kokkos_kernel_forge.Replay.Policy.{
  ReplayPolicy, get_string, read_policy_from_hdf5, read_policy, get_int,
  get_policy_index_type_from_props, get_policy_exec_space_from_name, get_policy_schedule_from_name,
  get_uint64,
}
use kokkos_kernel_forge.Replay.CommandLine.{Arguments, find_flag_argument}
use kokkos_kernel_forge.Replay.Visitor.{FunctorTraits}
use kokkos_kernel_forge.Replay.Guard.{
  allocate_all, copy_data_wrapper, read_hdf5_metadata, read_functor_from_hdf5,
}
use kokkos_kernel_forge.Replay.Guard.Construct.{scope_guard}
use kokkos_kernel_forge.Replay.Guard.Restored.{IsRestored}
use kokkos_kernel_forge.Replay.Guard.Functor.{Object, parallel_for, visited}
use kokkos_kernel_forge.RoundTrip.Names.{documented_name}
use kokkos_kernel_forge.RoundTrip.Launches.{captured}
use kokkos_kernel_forge.RoundTrip.Restore.{
  Entry, entry_view, IsDumped, scope_guard-create_kernel_dump,
}
use kokkos_kernel_forge.RoundTrip.Relaunch.{parallel_for-create_kernel_dump}
use kokkos_kernel_forge.Tests.MemoryCopy.{zero_memory, host_allocation}
use kokkos_kernel_forge.Tests.RoundTrip.{range_policy}
use kokkos_kernel_forge.Tests.Dumps.{linux, range_dump}
use kokkos_kernel_forge.Tests.Replayer.{host_build, new_replayer}
use kokkos_kernel_forge.Capture.Dump.WritePolicy.{
  write_string_attribute, write_uint64_attribute, write_int_attribute, write_bytes_dataset,
  write_policy, write_common, int_of_size,
}
use kokkos_kernel_forge.Extract.Bounds.{register_bounds, index_type_to_u64, schedule_to_string}
use kokkos_kernel_forge.Replay.Machine.{all_mapped, host_copy_data}
use kokkos_kernel_forge.Replay.Machine.Allocation.{emplace_back}
use kokkos_kernel_forge.Replay.Space.{memory_space_type_from_string}
use kokkos_kernel_forge.Capture.Dump.Names.{group_name, sanitize_name}
use kokkos_kernel_forge.Capture.Numbers.{to_string}
use kokkos_kernel_forge.Replay.Views.{
  get_hdf5_dataset_alloc_info, buffer_size, for_each, allocate_hdf5_dataset,
}
use kokkos_kernel_forge.Replay.Hex.{
  stoull_16, drop_spaces, value_of, hex_digit, scan_hex, drop_prefix,
}
use kokkos_kernel_forge.Replay.Regions.{
  get_allocation_address, compute_allocations, insert_region, aligned_region,
}
use kokkos_kernel_forge.Replay.Machine.Allocation.{construct, copy_data}
use kokkos_kernel_forge.Replay.Machine.{host_allocate}
use kokkos_kernel_forge.Replay.Machine.Device.{device_init}

-- A file is the list of what was written, the last write first.
record Written : Type 0 where
  path : ObjectPath
  slot : Slot
  value : Value

find_written : ObjectPath → Slot → List Written → Option Value
find_written p n [] = none
find_written p n (x ∷ rest) =
    if path_eq x.path p && slot_eq x.slot n then some x.value else find_written p n rest

abbrev list_hdf5 : Hdf5 (List Written)
list_hdf5 = record {
  create_file = λ name w. (true, w);
  open_file = λ name w. (true, w);
  close_file = λ w. (true, w);
  create_group = λ p w. (true, w);
  close_group = λ p w. (true, w);
  write = λ p n v w. (true, record { path = p; slot = n; value = v } ∷ w);
  read = find_written;
  children = λ p w. some (text "view_0_x" ∷ []);
  attributes = λ p w. some (text "size" ∷ []);
  exists = λ p w. some false;
}

list_hdf5-IsHdf5 : IsHdf5 list_hdf5
unfolding find_written
list_hdf5-IsHdf5 = record {
  read-write = λ p n v w q m done. refl;
  read-create_group = λ p w q m done. refl;
  read-close_group = λ p w q m done. refl;
  read-close_file = λ w q m done. refl;
}

abbrev hex_linux : Platform
hex_linux = record linux { pointer_to_string = pointer_to_string }

abbrev arguments : Arguments
arguments = record { argc = 2; argv = text "app" ∷ text "--kernel-replayer-dump=saxpy.h5" ∷ [] }

abbrev dumped_file : List Written
dumped_file = (create_kernel_dump list_hdf5 zero_memory hex_linux range_dump []).1

dump_done : (create_kernel_dump list_hdf5 zero_memory hex_linux range_dump []).0.ok ≡ true
unfolding create_kernel_dump write_string_attribute write_uint64_attribute write_allocation_group
    write_int_attribute copy_allocation_bytes text_eq write_bytes_dataset write_policy
    register_bounds write_common
dump_done = refl

abbrev string_at : ObjectPath → String → String → Written
string_at p name value = record {
  path = p;
  slot = attribute (text name);
  value = string_value (text value ++ 0 ∷ []);
}

abbrev number_at : ObjectPath → String → Value → Written
number_at p name value = record { path = p; slot = attribute (text name); value = value }

abbrev bytes_at : ObjectPath → String → List ℕ → Written
bytes_at p name bytes = record { path = p; slot = dataset (text name); value = bytes_value bytes }

abbrev functor_group : ObjectPath
functor_group = text "functor" ∷ []

abbrev policy_group : ObjectPath
policy_group = text "policy" ∷ []

abbrev x_group : ObjectPath
x_group = text "in" ∷ text "views" ∷ text "view_0_x" ∷ []

abbrev written_file : List Written
written_file =
    bytes_at functor_group "nvcc_inner_lambda" []
    ∷ bytes_at functor_group "functor" (1 ∷ 2 ∷ [])
    ∷ number_at policy_group "chunk_size" (int_value (pos 4))
    ∷ number_at policy_group "end" (uint64_value 10)
    ∷ number_at policy_group "begin" (uint64_value 18446744073709551613)
    ∷ string_at policy_group "schedule" "dynamic"
    ∷ string_at policy_group "space" "Serial"
    ∷ number_at policy_group "index_type_signed" (int_value (pos 1))
    ∷ number_at policy_group "index_type_size" (int_value (pos 4))
    ∷ string_at policy_group "type" "range"
    ∷ string_at (text "metadata" ∷ []) "size" "13"
    ∷ bytes_at x_group "bytes" (0 ∷ 0 ∷ 0 ∷ [])
    ∷ number_at x_group "bytes_dumped" (int_value (pos 1))
    ∷ number_at x_group "reported_size" (uint64_value 3)
    ∷ number_at x_group "size" (uint64_value 3)
    ∷ string_at x_group "p_data" "0x468"
    ∷ string_at x_group "ptr" "0x3e8"
    ∷ string_at x_group "space" "Host"
    ∷ string_at x_group "label" "x"
    ∷ number_at (text "in" ∷ []) "active_bytes" (uint64_value 3)
    ∷ number_at (text "in" ∷ []) "active_allocations" (uint64_value 1)
    ∷ number_at [] "kernel_invocation" (uint64_value 1)
    ∷ number_at [] "kernel_id" (uint64_value 2)
    ∷ string_at [] "kernel_label" "saxpy"
    ∷ []

dump_is : dumped_file ≡ written_file
unfolding create_kernel_dump write_string_attribute write_uint64_attribute write_allocation_group
    write_int_attribute copy_allocation_bytes text_eq write_bytes_dataset write_policy
    register_bounds write_common index_type_to_u64 schedule_to_string documented_name int_of_size
    group_name pointer_to_string to_word from_word to_string print_hex sanitize_name
dump_is = refl

flag_found :
    (find_flag_argument (text "--kernel-replayer-dump") arguments).0 ≡ some (text "saxpy.h5")
unfolding find_flag_argument text starts_with
flag_found = refl

guard_written : (scope_guard host_build list_hdf5 arguments new_replayer written_file).1.0 ≡ ok tt
unfolding scope_guard find_flag_argument text starts_with get_hdf5_dataset_alloc_info get_string
    find_written path_eq text_eq slot_eq stoull_16 drop_spaces value_of hex_digit scan_hex
    drop_prefix memory_space_type_from_string buffer_size get_allocation_address allocate_all
    compute_allocations insert_region construct host_allocate aligned_region device_init for_each
    allocate_hdf5_dataset copy_data_wrapper copy_data read_hdf5_metadata read_functor_from_hdf5
    read_policy_from_hdf5 read_policy get_int get_policy_index_type_from_props to_word
    get_policy_exec_space_from_name get_policy_schedule_from_name get_uint64 emplace_back
    host_copy_data all_mapped
guard_written = refl

guard_done : (scope_guard host_build list_hdf5 arguments new_replayer dumped_file).1.0 ≡ ok tt
guard_done = rw dump_is guard_written

abbrev x_entry : Entry
x_entry = record { index = 0; allocation = host_allocation; bytes = 0 ∷ 0 ∷ 0 ∷ [] }

x_entry-IsDumped : IsDumped zero_memory range_dump host_build x_entry
unfolding copy_allocation_bytes text_eq memory_space_type_from_string
x_entry-IsDumped = record {
  there = refl;
  copied = refl;
  fits = omega arith;
  short = omega arith;
  can = tt;
}

scope_guard-create_kernel_dump_example :
    IsRestored host_build
      (entry_view x_entry)
      (scope_guard host_build list_hdf5 arguments new_replayer dumped_file).1.1
unfolding group_name text to_string sanitize_name
scope_guard-create_kernel_dump_example =
    scope_guard-create_kernel_dump list_hdf5 list_hdf5-IsHdf5 zero_memory hex_linux host_build
      range_dump arguments (text "saxpy.h5") [] x_entry [] new_replayer [] (λ n. refl)
      (x_entry-IsDumped, tt) dump_done (λ q slot. refl) refl tt flag_found guard_done

abbrev unary : FunctorTraits
unary = record { supports_n_args = λ n. n == 1; is_team_functor = false }

abbrev other_bytes : Object
other_bytes = record { bytes = 9 ∷ 9 ∷ []; inner_lambda = none }

parallel_for-create_kernel_dump_example :
    parallel_for {P = ReplayPolicy} unary
      (scope_guard host_build list_hdf5 arguments new_replayer dumped_file).1.1
      (λ o. o)
      none
      other_bytes
    ≡ (
      ok (visited (captured range_policy), record { bytes = 1 ∷ 2 ∷ []; inner_lambda = none }),
      true,
    )
parallel_for-create_kernel_dump_example =
    parallel_for-create_kernel_dump list_hdf5 list_hdf5-IsHdf5 zero_memory hex_linux host_build
      documented_name range_policy range_dump arguments (text "saxpy.h5") unary (λ o. o) other_bytes
      new_replayer [] (λ e. refl) refl (omega arith, omega arith) tt refl refl dump_done
      (λ q slot. refl) flag_found guard_done refl refl
