-- ===== src/Capture/Dump/File.antt =====
-- The file of a dump in src/krepe/capture/view_dump.cpp: `write_allocation_group`, `write_snapshot`,
-- `create_kernel_dump` and `append_kernel_output`. A group is closed by `close_checked` at its end; where a
-- call throws, the destructors close what is open, and their results are dropped.
use kokkos_kernel_forge.Base.{
  ℕ, suc, Bool, true, false, List, [], ◌∷◌, ◌++◌, is_empty, if◌then◌else◌, length,
}
use kokkos_kernel_forge.Base.Text.{Text, text}
use kokkos_kernel_forge.Base.Result.{Result, ok, err}
use kokkos_kernel_forge.Base.Exec.{Exec, pure, ◌>>◌}
use kokkos_kernel_forge.Base.Dict.{Dict}
use kokkos_kernel_forge.Common.Hdf5.{Hdf5, ObjectPath, checked}
use kokkos_kernel_forge.Capture.Tracker.{ActiveAllocation, AllocationSnapshot}
use kokkos_kernel_forge.Capture.Kernels.{ViewDumpResult, KernelDump}
use kokkos_kernel_forge.Capture.MemoryCopy.{Memory, Copied, copy_allocation_bytes}
use kokkos_kernel_forge.Capture.Dump.Names.{dump_filename, group_name}
use kokkos_kernel_forge.Capture.Dump.WritePolicy.{
  int_of_bool, write_string_attribute, write_uint64_attribute, write_int_attribute,
  write_bytes_dataset, write_policy,
}

-- How `operator<<` prints a pointer, and what `std::filesystem::absolute` answers: the path, or the
-- message of its error.
pub record Platform : Type 0 where
  pub pointer_to_string : ℕ → Text
  pub absolute : Text → Result Text

module _ {W : Type 0} (h : Hdf5 W) (m : Memory) (p : Platform) where
  -- `body` with the handle of a new group: closed with a check at the end, or by the destructor
  -- when `body` throws. A close that fails is tried once more.
  abbrev pub closed_group : ObjectPath → Bool × W → Result (Unit {0}) × W
  closed_group group (true, w) = (ok tt, w)
  closed_group group (false, w) = checked (false, (h.close_group group w).1)

  abbrev pub finish_group : ObjectPath → Result (Unit {0}) × W → Result (Unit {0}) × W
  finish_group group (err e, w) = (err e, (h.close_group group w).1)
  finish_group group (ok u, w) = closed_group group (h.close_group group w)

  abbrev pub opened_group : ObjectPath → Exec W (Unit {0}) → Bool × W → Result (Unit {0}) × W
  opened_group group body (true, w) = finish_group group (body w)
  opened_group group body (false, w) = checked (false, w)

  abbrev pub in_group : ObjectPath → Exec W (Unit {0}) → Exec W (Unit {0})
  in_group group body w = opened_group group body (h.create_group group w)

  unfoldable pub write_bytes : ObjectPath → Copied → Exec W (Unit {0})
  write_bytes group (reason, bytes) = do
    write_int_attribute h group (text "bytes_dumped") (int_of_bool (is_empty reason))
    if is_empty reason
        then write_bytes_dataset h group (text "bytes") bytes
        else write_string_attribute h group (text "skip_reason") reason

  unfoldable pub write_allocation_group : ObjectPath → ActiveAllocation → ℕ → Exec W (Unit {0})
  unfolding write_bytes
  write_allocation_group views a index =
      let r = a.allocation in
      let group = views ++ group_name index r.label ∷ [] in
      in_group group (do
        write_string_attribute h group (text "label") r.label
        write_string_attribute h group (text "space") r.space
        write_string_attribute h group (text "ptr") (p.pointer_to_string a.ptr)
        write_string_attribute h group (text "p_data") (p.pointer_to_string r.p_data)
        write_uint64_attribute h group (text "size") r.size
        write_uint64_attribute h group (text "reported_size") r.reported_size
        write_bytes group (copy_allocation_bytes m a))

  -- The loop over the allocations from `index` on.
  unfoldable pub write_allocations : ObjectPath → ℕ → List ActiveAllocation → Exec W (Unit {0})
  write_allocations views index [] = pure tt
  write_allocations views index (a ∷ rest) = do
    write_allocation_group views a index
    write_allocations views (suc index) rest

  unfoldable pub write_snapshot : Text → AllocationSnapshot → Exec W (Unit {0})
  unfolding write_allocations
  write_snapshot name snapshot =
      let group = name ∷ [] in
      let views = name ∷ text "views" ∷ [] in
      in_group group (do
        write_uint64_attribute h group (text "active_allocations") (length snapshot.allocations)
        write_uint64_attribute h group (text "active_bytes") snapshot.active_bytes
        in_group views (write_allocations views 0 snapshot.allocations))

  unfoldable pub write_metadata : ObjectPath → Dict Text Text → Exec W (Unit {0})
  write_metadata group [] = pure tt
  write_metadata group ((key, value) ∷ rest) = do
    write_string_attribute h group key value
    write_metadata group rest

  -- What is written to the file that is open.
  unfoldable pub write_kernel_dump : KernelDump → Exec W (Unit {0})
  unfolding write_snapshot write_metadata
  write_kernel_dump d = do
    write_string_attribute h [] (text "kernel_label") d.label
    write_uint64_attribute h [] (text "kernel_id") d.kernel_id
    write_uint64_attribute h [] (text "kernel_invocation") d.kernel_invocation
    write_snapshot (text "in") d.input_snapshot
    in_group (text "metadata" ∷ []) (write_metadata (text "metadata" ∷ []) d.metadata)
    in_group (text "policy" ∷ []) (write_policy h (text "policy" ∷ []) d.policy)
    in_group (text "functor" ∷ []) (do
      write_bytes_dataset h (text "functor" ∷ []) (text "functor") d.functor_data
      write_bytes_dataset h (text "functor" ∷ []) (text "nvcc_inner_lambda")
          d.nvcc_inner_lambda_data)

  abbrev pub result_of : Text → Result (Unit {0}) × W → ViewDumpResult × W
  result_of filename (ok u, w) = (record { ok = true; filename = filename; error = [] }, w)
  result_of filename (err what, w) = (record { ok = false; filename = filename; error = what }, w)

  -- The file is closed as a group is.
  abbrev pub closed_file : Bool × W → Result (Unit {0}) × W
  closed_file (true, w) = (ok tt, w)
  closed_file (false, w) = checked (false, (h.close_file w).1)

  abbrev pub finish_file : Result (Unit {0}) × W → Result (Unit {0}) × W
  finish_file (err e, w) = (err e, (h.close_file w).1)
  finish_file (ok u, w) = closed_file (h.close_file w)

  abbrev pub opened_file : Exec W (Unit {0}) → Bool × W → Result (Unit {0}) × W
  opened_file body (true, w) = finish_file (body w)
  opened_file body (false, w) = checked (false, w)

  abbrev pub in_file : (W → Bool × W) → Exec W (Unit {0}) → Exec W (Unit {0})
  in_file opening body w = opened_file body (opening w)

  abbrev pub create_at : KernelDump → Text → Result Text → W → ViewDumpResult × W
  create_at d relative (err message) w =
      result_of relative (err (text "failed to resolve dump path: " ++ message), w)
  create_at d relative (ok path) w =
      result_of path (in_file (h.create_file path) (write_kernel_dump d) w)

  -- `create_kernel_dump`; the exceptions end up in the result.
  unfoldable pub create_kernel_dump : KernelDump → W → ViewDumpResult × W
  unfolding write_kernel_dump
  create_kernel_dump d w =
      let filename = dump_filename d.label d.kernel_id in
      create_at d filename (p.absolute filename) w

  unfoldable pub append_kernel_output : AllocationSnapshot → Text → W → ViewDumpResult × W
  unfolding write_snapshot
  append_kernel_output snapshot filename w =
      result_of filename (in_file (h.open_file filename) (write_snapshot (text "out") snapshot) w)
