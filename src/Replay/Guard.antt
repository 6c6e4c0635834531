-- ===== src/Replay/Guard.antt =====
-- `ScopeGuard` of src/krepe/replay/kernel_replayer.hpp and kernel_replayer.cpp: it maps the memory of a dump, copies
-- the bytes of the views back, and keeps what the replay asks for.
pub mod Construct
pub mod Lookup
pub mod Frame
pub mod Restored
pub mod Ranges
pub mod Mapped
pub mod Loaded
pub mod Functor
use kokkos_kernel_forge.Base.{
  ℕ, Bool, true, false, Option, none, some, List, [], ◌∷◌, ◌++◌, ◌==◌, nat_eq, if◌then◌else◌,
  is_empty, length,
}
use kokkos_kernel_forge.Base.Text.{Text, text, text_Eq}
use kokkos_kernel_forge.Base.Dict.{Dict, lookup, insert}
use kokkos_kernel_forge.Base.Result.{Result, ok, err}
use kokkos_kernel_forge.Base.Exec.{Exec, pure, throw, ◌>>=◌, ◌>>◌}
use kokkos_kernel_forge.Common.Hdf5.{Hdf5, ObjectPath, hdf5_failed}
use kokkos_kernel_forge.Replay.Space.{
  MemorySpaceType, host, device, Platform, memory_space_type_from_string,
}
use kokkos_kernel_forge.Replay.Regions.{Region, compute_allocations}
use kokkos_kernel_forge.Replay.Policy.{
  KokkosBuild, ReplayPolicy, Group, get_string, read_policy_from_hdf5,
}
use kokkos_kernel_forge.Replay.CommandLine.{Arguments, find_flag_argument}
use kokkos_kernel_forge.Replay.Machine.Device.{Driver, device_init, device_allocation_granularity}
use kokkos_kernel_forge.Replay.Machine.Allocation.{
  Machine, System, Allocation, construct, emplace_back, copy_data, destroy_all,
}
use kokkos_kernel_forge.Replay.Views.{
  lift, get_bytes, get_hdf5_dataset_alloc_info, allocate_hdf5_dataset, allocate_hdf5_output_dataset,
  for_each,
}

-- What the build, the machine and the library of C++ fix: whether a vector with so many elements has
-- to move them before it takes one more, and what a moved `Allocation` finds as its space.
pub record Build : Type 0 where
  pub system : System
  pub page_size : ℕ
  pub kokkos : KokkosBuild
  pub nvcc_workaround : Bool
  pub vector_full : ℕ → Bool
  pub indeterminate : Allocation → MemorySpaceType

-- `KERNEL_REPLAYER_HAS_DEVICE_SPACE`
abbrev pub is_there : Option Driver → Bool
is_there none = false
is_there (some d) = true

-- It is not asked for in a build without a device.
abbrev pub granularity : Option Driver → Result ℕ
granularity none = err (text "no device")
granularity (some d) = device_allocation_granularity d

abbrev pub platform_of : Build → Platform
platform_of b = record {
  has_device_space = is_there b.system.driver;
  page_size = b.page_size;
  device_granularity = granularity b.system.driver;
}

-- The memory, the members of the guard and the globals of the replayer. The address 0 is the null
-- pointer. A reference output is a buffer of its own: the bytes that it holds.
pub record Replayer : Type 0 where
  pub machine : Machine
  pub host_raw_allocations : List Allocation
  pub host_allocations : Dict Text ℕ
  pub host_output_allocations : Dict Text (List ℕ)
  pub host_output_labels : List Text
  pub device_raw_allocations : List Allocation
  pub device_allocations : Dict Text ℕ
  pub device_output_allocations : Dict Text (List ℕ)
  pub device_output_labels : List Text
  pub metadata : Dict Text Text
  pub functor_data : List ℕ
  pub nvcc_inner_lambda_data : List ℕ
  pub replay_policy : Option ReplayPolicy

abbrev pub unless_present : Option Text → Dict Text Text → Dict Text Text → Dict Text Text
unless_present none new old = new
unless_present (some value) new old = old

-- `insert` keeps a value that is there.
unfoldable pub insert_metadata : Text → Text → Dict Text Text → Dict Text Text
insert_metadata key value metadata =
    unless_present (lookup key metadata) (insert key value metadata) metadata

abbrev pub no_device : Text
no_device = text "Trying to access device allocations but no device space is enabled"

-- A call on the memory.
abbrev pub on_machine : {A : Type 0} → Exec Machine A → Exec Replayer A
on_machine call s = let (r, m) = call s.machine in (r, record s { machine = m })

-- A set of labels is the list of what was inserted.
module _ (b : Build) where
  abbrev pub raw_of : MemorySpaceType → Replayer → List Allocation
  raw_of host s = s.host_raw_allocations
  raw_of device s = s.device_raw_allocations

  abbrev pub with_raw : MemorySpaceType → List Allocation → Replayer → Replayer
  with_raw host raw s = record s { host_raw_allocations = raw }
  with_raw device raw s = record s { device_raw_allocations = raw }

  abbrev pub keep_raw : MemorySpaceType → Allocation → Exec Replayer (Unit {0})
  keep_raw space a s =
      let raw = raw_of space s in
      (do
        grown ←
            on_machine (emplace_back b.system (b.vector_full (length raw)) b.indeterminate raw a)
        λ s'. (ok tt, with_raw space grown s'))
        s

  -- What the branches for the device do in a build without one.
  abbrev pub when_there : {A : Type 0} → MemorySpaceType → Exec Replayer A → Exec Replayer A
  when_there host body s = body s
  when_there device body s = if is_there b.system.driver then body s else (err no_device, s)

  unfoldable pub allocate : MemorySpaceType → Region → Exec Replayer (Unit {0})
  allocate space r =
      when_there space (do a ← on_machine (construct b.system space r); keep_raw space a)

  unfoldable pub allocate_all : MemorySpaceType → List Region → Exec Replayer (Unit {0})
  unfolding allocate
  allocate_all space [] = pure tt
  allocate_all space (r ∷ rest) = allocate space r >> allocate_all space rest

  unfoldable pub remember : MemorySpaceType → Text → ℕ → Replayer → Replayer
  remember host label address s = record s {
    host_allocations = insert label address s.host_allocations;
  }
  remember device label address s =
      if is_there b.system.driver
      then record s { device_allocations = insert label address s.device_allocations }
      else s

  -- The lambda `copy_data_wrapper`, with the size of the data as its length.
  unfoldable pub copy_data_wrapper : Text → Text → ℕ → List ℕ → Exec Replayer (Unit {0})
  unfolding remember
  copy_data_wrapper label memory_space address bytes =
      let space = memory_space_type_from_string memory_space in
      if is_empty bytes then (λ s. (ok tt, remember space label 0 s)) else (do
        on_machine (copy_data b.system space address bytes)
        λ s. (ok tt, remember space label address s))

  abbrev pub add_label : Text → List Text → List Text
  add_label label labels = label ∷ labels

  abbrev pub assign_output : Text → List ℕ → Dict Text (List ℕ) → Dict Text (List ℕ)
  assign_output label [] outputs = outputs
  assign_output label (byte ∷ bytes) outputs = insert label (byte ∷ bytes) outputs

  abbrev pub keep_output : MemorySpaceType → Text → List ℕ → Replayer → Replayer
  keep_output host label bytes s = record s {
    host_output_labels = add_label label s.host_output_labels;
    host_output_allocations = assign_output label bytes s.host_output_allocations;
  }
  keep_output device label bytes s = record s {
    device_output_labels = add_label label s.device_output_labels;
    device_output_allocations = assign_output label bytes s.device_output_allocations;
  }

  unfoldable pub allocate_output : Text → Text → ℕ → List ℕ → Exec Replayer (Unit {0})
  allocate_output label memory_space address bytes =
      let space = memory_space_type_from_string memory_space in
      when_there space (λ s. (ok tt, keep_output space label bytes s))

  unfoldable pub read_hdf5_metadata : Group → Text → Exec Replayer (Unit {0})
  unfolding insert_metadata
  read_hdf5_metadata group name = do
    value ← lift (get_string group name)
    λ s. (ok tt, record s { metadata = insert_metadata name value s.metadata })

  unfoldable pub read_functor_from_hdf5 : Group → Exec Replayer (Unit {0})
  unfolding get_bytes
  read_functor_from_hdf5 group = do
    functor ← lift (get_bytes group (text "functor"))
    λ s. (ok tt, record s { functor_data = functor })
    if b.nvcc_workaround
        then (do
          inner ← lift (get_bytes group (text "nvcc_inner_lambda"))
          λ s. (ok tt, record s { nvcc_inner_lambda_data = inner }))
        else pure tt
