-- ===== src/Replay/Guard/Construct.antt =====
-- The constructor of `ScopeGuard`, src/krepe/replay/kernel_replayer.cpp. The file is only read, so the steps are on
-- the state of the replayer.
use kokkos_kernel_forge.Base.{Bool, true, false, Option, none, some, List, [], ◌∷◌}
use kokkos_kernel_forge.Base.Text.{Text, text}
use kokkos_kernel_forge.Base.Result.{Result, ok, err}
use kokkos_kernel_forge.Base.Result as Result
use kokkos_kernel_forge.Base.Exec.{Exec, ◌>>=◌, ◌>>◌}
use kokkos_kernel_forge.Common.Hdf5.{Hdf5, ObjectPath, hdf5_failed}
use kokkos_kernel_forge.Replay.Space.{MemorySpaceType, host, device}
use kokkos_kernel_forge.Replay.Regions.{Region, compute_allocations}
use kokkos_kernel_forge.Replay.Policy.{Group, read_policy_from_hdf5}
use kokkos_kernel_forge.Replay.CommandLine.{Arguments, find_flag_argument}
use kokkos_kernel_forge.Replay.Machine.Device.{device_init}
use kokkos_kernel_forge.Replay.Machine.Allocation.{destroy_all}
use kokkos_kernel_forge.Replay.Views.{
  lift, get_hdf5_dataset_alloc_info, allocate_hdf5_dataset, allocate_hdf5_output_dataset, for_each,
}
use kokkos_kernel_forge.Replay.Guard.{
  Build, Replayer, platform_of, on_machine, allocate_all, copy_data_wrapper, allocate_output,
  read_hdf5_metadata, read_functor_from_hdf5,
}

abbrev pub answered : {A : Type 0} → Option A → Result A
answered none = err hdf5_failed
answered (some a) = ok a

-- The ranges of one space, over the views from the first on.
unfoldable pub collect :
    Build → MemorySpaceType → (Text → Group) → List Text → List Region → Result (List Region)
collect b space group_of [] locs = ok locs
collect b space group_of (name ∷ names) locs =
    Result.◌>>=◌ (get_hdf5_dataset_alloc_info (platform_of b) space (group_of name) locs)
      (collect b space group_of names)

module _ {W : Type 0} (b : Build) (h : Hdf5 W) (w : W) where
  abbrev pub group_of : Text → Text → Group
  group_of snapshot name slot = h.read (snapshot ∷ text "views" ∷ name ∷ []) slot w

  -- The names of the views in the order in which HDF5 visits them.
  abbrev pub views_of : Text → Result (List Text)
  views_of snapshot = answered (h.children (snapshot ∷ text "views" ∷ []) w)

  unfoldable pub reserve : MemorySpaceType → Exec Replayer (Unit {0})
  unfolding collect
  reserve space = do
    names ← lift (views_of (text "in"))
    locs ← lift (collect b space (group_of (text "in")) names [])
    allocate_all b space (compute_allocations locs)

  unfoldable pub copy_views : Exec Replayer (Unit {0})
  copy_views = do
    names ← lift (views_of (text "in"))
    for_each (λ name. allocate_hdf5_dataset (copy_data_wrapper b) (group_of (text "in") name)) names

  unfoldable pub read_metadata : Exec Replayer (Unit {0})
  read_metadata = do
    names ← lift (answered (h.attributes (text "metadata" ∷ []) w))
    for_each (read_hdf5_metadata b (λ slot. h.read (text "metadata" ∷ []) slot w)) names

  -- What an exception inside it leaves of the global is not modelled.
  unfoldable pub read_policy : Exec Replayer (Unit {0})
  read_policy = do
    policy ← lift (read_policy_from_hdf5 b.kokkos h w)
    λ s. (ok tt, record s { replay_policy = some policy })

  unfoldable pub read_outputs : Exec Replayer (Unit {0})
  read_outputs = do
    names ← lift (views_of (text "out"))
    for_each (λ name. allocate_hdf5_output_dataset (allocate_output b) (group_of (text "out") name))
        names

  abbrev pub if_exists : ObjectPath → Exec Replayer (Unit {0}) → Exec Replayer (Unit {0})
  if_exists path body s = checked_exists (h.exists path w)
    where
      checked_exists : Option Bool → Result (Unit {0}) × Replayer
      checked_exists none = (err hdf5_failed, s)
      checked_exists (some true) = body s
      checked_exists (some false) = (ok tt, s)

  -- What is done with the open file.
  unfoldable pub restore : Exec Replayer (Unit {0})
  unfolding reserve copy_views read_metadata read_policy read_outputs
  restore = do
    reserve host
    lift (device_init b.system.driver)
    reserve device
    copy_views
    read_metadata
    read_functor_from_hdf5 b (λ slot. h.read (text "functor" ∷ []) slot w)
    read_policy
    if_exists (text "out" ∷ []) (if_exists (text "out" ∷ text "views" ∷ []) read_outputs)

-- An exception destroys the members, the last one first.
unfoldable pub unwind : Build → Replayer → Replayer
unwind b s =
    let s = (on_machine (destroy_all b.system s.device_raw_allocations) s).1 in
    (on_machine (destroy_all b.system s.host_raw_allocations) s).1

module _ {W : Type 0} (b : Build) (h : Hdf5 W) where
  abbrev pub or_unwind : Result (Unit {0}) × Replayer → Result (Unit {0}) × Replayer
  or_unwind (ok u, s) = (ok tt, s)
  or_unwind (err e, s) = (err e, unwind b s)

  -- `file.close_checked()` at the end, or the destructor of the handle.
  abbrev pub close_restored :
      Result (Unit {0}) × Replayer → Bool × W → (Result (Unit {0}) × Replayer) × W
  close_restored (ok u, s) (true, w) = ((ok tt, s), w)
  close_restored (ok u, s) (false, w) = ((err hdf5_failed, s), (h.close_file w).1)
  close_restored (err e, s) (closed, w) = ((err e, s), w)

  abbrev pub with_open_file : Bool × W → Replayer → (Result (Unit {0}) × Replayer) × W
  with_open_file (false, w) s = ((err hdf5_failed, s), w)
  with_open_file (true, w) s = close_restored (restore b h w s) (h.close_file w)

  abbrev pub with_filename : Option Text → Replayer → W → (Result (Unit {0}) × Replayer) × W
  with_filename none s w =
      ((err (text "The kernel replayer expects the flag --kernel-replayer-dump"), s), w)
  with_filename (some hdf5_filename) s w = with_open_file (h.open_file hdf5_filename w) s

  -- The arguments that are left come first.
  unfoldable pub scope_guard :
      Arguments → Replayer → W → Arguments × (Result (Unit {0}) × Replayer) × W
  unfolding restore unwind
  scope_guard a s w =
      let (hdf5_filename, left) = find_flag_argument (text "--kernel-replayer-dump") a in
      let (done, w') = with_filename hdf5_filename s w in (left, or_unwind done, w')

  -- `~ScopeGuard` destroys the members.
  unfoldable pub destroy_guard : Replayer → Replayer
  unfolding unwind
  destroy_guard s = unwind b s
