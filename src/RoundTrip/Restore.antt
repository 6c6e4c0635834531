-- ===== src/RoundTrip/Restore.antt =====
-- A dump from the capture to the replay: the constructor of `ScopeGuard` puts back what `create_kernel_dump` saved.
use mathlib.Core.Path.{fun_ext}
use mathlib.Core.List.{map-append}
use kokkos_kernel_forge.Base.{
  ℕ, ◌^◌, ◌<◌, ◌≡◌, true, some, List, [], ◌∷◌, ◌++◌, map, length, get_elem?, All,
}
use kokkos_kernel_forge.Base.Text.{Text, text}
use kokkos_kernel_forge.Base.Result.{ok}
use kokkos_kernel_forge.Common.Hdf5.{Hdf5, IsHdf5, ObjectPath, Slot}
use kokkos_kernel_forge.Capture.Tracker.{ActiveAllocation}
use kokkos_kernel_forge.Capture.Kernels.{KernelDump}
use kokkos_kernel_forge.Capture.MemoryCopy.{Memory, copy_allocation_bytes}
use kokkos_kernel_forge.Capture.Dump.Names.{group_name}
use kokkos_kernel_forge.Capture.Dump.Pointer.{pointer_to_string}
use kokkos_kernel_forge.Capture.Dump.File as File
use kokkos_kernel_forge.Replay.CommandLine.{Arguments, find_flag_argument}
use kokkos_kernel_forge.Replay.Guard.{Build, Replayer}
use kokkos_kernel_forge.Replay.Guard.Construct.{group_of, scope_guard}
use kokkos_kernel_forge.Replay.Guard.Restored.{
  View, space_of, CopiesTo, AllDescribe, IsRestored, Apart,
}
use kokkos_kernel_forge.Replay.Guard.Restored.Whole.{scope_guard-IsRestored}
use kokkos_kernel_forge.RoundTrip.Dumps.Groups.{view_of}
use kokkos_kernel_forge.RoundTrip.Dumps.Views.{dumped-Describes}

-- An allocation of a snapshot, with its index and the bytes that were copied.
pub record Entry : Type 0 where
  pub index : ℕ
  pub allocation : ActiveAllocation
  pub bytes : List ℕ

abbrev pub entry_view : Entry → View
entry_view e = view_of e.allocation e.bytes

abbrev pub entry_name : Entry → Text
entry_name e = group_name e.index e.allocation.allocation.label

-- The allocation stands in the dump with its bytes, and the replay can copy them to its space.
pub record IsDumped (m : Memory) (d : KernelDump) (b : Build) (e : Entry) : Type 0 where
  pub there : get_elem? d.input_snapshot.allocations e.index ≡ some e.allocation
  pub copied : copy_allocation_bytes m e.allocation ≡ ([], e.bytes)
  pub fits : e.allocation.allocation.p_data < 2 ^ 64
  pub short : length e.bytes < 2 ^ 31
  pub can : CopiesTo b.system (space_of (entry_view e)) (entry_view e)

module _ {W : Type 0} (h : Hdf5 W) (laws : IsHdf5 h) (m : Memory) (platform : File.Platform)
    (b : Build) (d : KernelDump) (w v : W)
    (printed : (n : ℕ) → platform.pointer_to_string n ≡ pointer_to_string n)
    (dumped : (File.create_kernel_dump h m platform d w).0.ok ≡ true)
    (same : (q : ObjectPath) (slot : Slot)
      → h.read q slot v ≡ h.read q slot (File.create_kernel_dump h m platform d w).1) where
  All-Described :
      (es : List Entry)
      → All (IsDumped m d b) es
      → AllDescribe b (group_of b h v (text "in")) (map entry_name es) (map entry_view es)
  All-Described [] h = tt
  All-Described (e ∷ es) (x, rest) = (
    rw (fun_ext (λ slot. same (text "in" ∷ text "views" ∷ entry_name e ∷ []) slot)) (
        dumped-Describes h laws m platform d e.index e.allocation e.bytes w printed x.there x.copied
          x.fits x.short dumped),
    x.can,
    All-Described es rest,
  )

-- The views of a captured kernel come back: when `create_kernel_dump` reports success, and the constructor of
-- `ScopeGuard`, which the command line gives the name of a file that reads as that dump, returns, then
-- each allocation of the snapshot that HDF5 visits is found under its label at its old address,
-- or at the null pointer when it has no bytes, with its bytes in the memory of its space, if no
-- view that is visited later overwrites it. (HDF5 reads what was written and visits groups that
-- were written, in any order, all of allocations whose bytes were copied; pointers of 64 bits, printed as
-- libstdc++ does; data shorter than 2 ^ 31 bytes, and a driver that copies to the device.)
pub scope_guard-create_kernel_dump :
    {W : Type 0} (h : Hdf5 W) (laws : IsHdf5 h) (m : Memory) (platform : File.Platform) (b : Build)
    (d : KernelDump) (a : Arguments) (filename : Text) (before : List Entry) (e : Entry)
    (after : List Entry) (s : Replayer) (w : W)
    → ((n : ℕ) → platform.pointer_to_string n ≡ pointer_to_string n)
    → All (IsDumped m d b) (before ++ e ∷ after)
    → (File.create_kernel_dump h m platform d w).0.ok ≡ true
    → ((q : ObjectPath) (slot : Slot)
        → h.read q slot (h.open_file filename (File.create_kernel_dump h m platform d w).1).1
          ≡ h.read q slot (File.create_kernel_dump h m platform d w).1)
    → h.children
        (text "in" ∷ text "views" ∷ [])
        (h.open_file filename (File.create_kernel_dump h m platform d w).1).1
      ≡ some (map entry_name (before ++ e ∷ after))
    → All (Apart (entry_view e)) (map entry_view after)
    → (find_flag_argument (text "--kernel-replayer-dump") a).0 ≡ some filename
    → (scope_guard b h a s (File.create_kernel_dump h m platform d w).1).1.0 ≡ ok tt
    → IsRestored b
        (entry_view e)
        (scope_guard b h a s (File.create_kernel_dump h m platform d w).1).1.1
scope_guard-create_kernel_dump h laws m platform b d a filename before e after s w printed all
      dumped same visited apart named done =
    let w' = (File.create_kernel_dump h m platform d w).1 in
    let described =
      All-Described h laws m platform b d w (h.open_file filename w').1 printed dumped same
        (before ++ e ∷ after) all in
    scope_guard-IsRestored b h a filename (map entry_name (before ++ e ∷ after))
      (map entry_view before) (entry_view e) (map entry_view after) s w' named visited
      (rw (map-append entry_view before (e ∷ after)) at described) apart done
