-- ===== src/RoundTrip/Relaunch.antt =====
-- A kernel from its capture to its second launch: `parallel_for` of src/krepe/replay/kernel_replayer.hpp on the file
-- of `create_kernel_dump`.
use mathlib.Core.Path.{fun_ext}
use kokkos_kernel_forge.Base.{ℕ, ◌≡◌, ◌∙◌, refl, ap, sym, true, none, some, List, [], ◌∷◌, length}
use kokkos_kernel_forge.Base.Text.{Text, text, text_eq}
use kokkos_kernel_forge.Base.Result.{ok}
use kokkos_kernel_forge.Base.Exec.{Exec, ◌>>◌}
use kokkos_kernel_forge.Common.Hdf5.{Hdf5, IsHdf5, dataset, bytes_value, ObjectPath, Slot, slot_eq}
use kokkos_kernel_forge.Capture.Kernels.{KernelDump}
use kokkos_kernel_forge.Capture.MemoryCopy.{Memory}
use kokkos_kernel_forge.Capture.Dump.WritePolicy.{
  write_string_attribute, write_uint64_attribute, write_policy, write_bytes_dataset,
}
use kokkos_kernel_forge.Capture.Dump.File as File
use kokkos_kernel_forge.Extract.Bounds.{KokkosPolicy, register_bounds}
use kokkos_kernel_forge.Replay.CommandLine.{Arguments, find_flag_argument}
use kokkos_kernel_forge.Replay.Policy.{
  ExecSpace, Group, ReplayPolicy, read_policy, read_policy_from_hdf5,
}
use kokkos_kernel_forge.Replay.Visitor.{FunctorTraits}
use kokkos_kernel_forge.Replay.Views.{get_bytes}
use kokkos_kernel_forge.Replay.Guard.{Build, Replayer}
use kokkos_kernel_forge.Replay.Guard.Construct.{scope_guard}
use kokkos_kernel_forge.Replay.Guard.Loaded.{IsLoaded, HasFunctor, restore-IsLoaded}
use kokkos_kernel_forge.Replay.Guard.Restored.Whole.{scope_guard-restore}
use kokkos_kernel_forge.Replay.Guard.Functor.{Object, visited, parallel_for}
use kokkos_kernel_forge.Replay.Guard.Functor.Runs.{replay_functor-revives}
use kokkos_kernel_forge.RoundTrip.Puts.{with_slot, Puts, Puts-put, Puts-then, group_at}
use kokkos_kernel_forge.RoundTrip.Names.{documented_name}
use kokkos_kernel_forge.RoundTrip.Policies.{Supported, replayed}
use kokkos_kernel_forge.RoundTrip.Launches.{
  captured, WellFormed, IsRestorable, Callable, visit-replayed,
}
use kokkos_kernel_forge.RoundTrip.Dumps.{
  Passes, Passes-after, Passes-in_group, created-Passes, read_policy-create_kernel_dump,
}

abbrev functor_path : ObjectPath
functor_path = text "functor" ∷ []

abbrev with_functor : KernelDump → Group → Group
with_functor d g =
    with_slot (dataset (text "nvcc_inner_lambda")) (bytes_value d.nvcc_inner_lambda_data)
      (with_slot (dataset (text "functor")) (bytes_value d.functor_data) g)

with_functor-HasFunctor :
    (b : Build) (d : KernelDump) (g : Group)
    → HasFunctor b (with_functor d g) d.functor_data d.nvcc_inner_lambda_data
unfolding with_slot slot_eq text_eq text get_bytes
with_functor-HasFunctor b d g = record { functor_there = refl; inner_there = λ on. refl }

module _ {W : Type 0} (h : Hdf5 W) (laws : IsHdf5 h) (m : Memory) (platform : File.Platform)
    (d : KernelDump) (w : W) (dumped : (File.create_kernel_dump h m platform d w).0.ok ≡ true) where
  abbrev functor_body : Exec W (Unit {0})
  functor_body =
      write_bytes_dataset h functor_path (text "functor") d.functor_data
      >> write_bytes_dataset h functor_path (text "nvcc_inner_lambda") d.nvcc_inner_lambda_data

  puts_functor : Puts h laws functor_path functor_body (with_functor d)
  unfolding write_bytes_dataset
  puts_functor =
      Puts-then h laws functor_path (Puts-put h laws functor_path _ _)
        (Puts-put h laws functor_path _ _)

  functor-Passes :
      Passes h laws m platform functor_path (File.write_kernel_dump h m platform d) functor_body
  unfolding File.write_kernel_dump
  functor-Passes =
      let p = functor_path in
      Passes-after h laws m platform p (write_string_attribute h [] (text "kernel_label") d.label) (
        Passes-after h laws m platform p
          (write_uint64_attribute h [] (text "kernel_id") d.kernel_id)
          (Passes-after h laws m platform p
            (write_uint64_attribute h [] (text "kernel_invocation") d.kernel_invocation)
            (Passes-after h laws m platform p
              (File.write_snapshot h m platform (text "in") d.input_snapshot)
              (Passes-after h laws m platform p
                (File.in_group h m platform (text "metadata" ∷ [])
                  (File.write_metadata h m platform (text "metadata" ∷ []) d.metadata))
                (Passes-after h laws m platform p
                  (File.in_group h m platform (text "policy" ∷ [])
                    (write_policy h (text "policy" ∷ []) d.policy))
                  (Passes-in_group h laws m platform p p functor_body))))))

  functor-dumped :
      (b : Build)
      → HasFunctor b
          (group_at h laws functor_path (File.create_kernel_dump h m platform d w).1)
          d.functor_data
          d.nvcc_inner_lambda_data
  functor-dumped b =
      let (v, written, same) =
        created-Passes h laws m platform d w functor_path functor-Passes dumped in
      rw (same ∙ puts_functor.puts v written) (with_functor-HasFunctor b d _)

-- A replay that holds the functor and the policy of a captured kernel launches that policy with that functor.
parallel_for-loaded :
    (traits : FunctorTraits) (b : Build) (copy : Object → Object) (functor : Object)
    (p : KokkosPolicy) (bytes inner : List ℕ) (s : Replayer)
    → WellFormed p
    → IsRestorable p
    → Callable traits p
    → (copy functor).inner_lambda ≡ none
    → length (copy functor).bytes ≡ length bytes
    → IsLoaded b bytes inner (replayed p) s
    → parallel_for {P = ReplayPolicy} traits s copy none functor
      ≡ (ok (visited (captured p), copy (record { bytes = bytes; inner_lambda = none })), true)
unfolding parallel_for
parallel_for-loaded traits b copy functor p bytes inner s well restorable callable plain size l =
    rw
      (
        replay_functor-revives s copy functor
            (size ∙ ap length (sym l.functor_loaded), rw plain tt),
        plain,
        l.functor_loaded,
        l.policy_loaded,
        visit-replayed traits p well restorable callable,
      )
      refl

-- A captured kernel is launched again with its policy and its functor: when `create_kernel_dump` reports success, and the constructor of
-- `ScopeGuard`, which the command line gives the name of a file that reads as that dump, returns, then
-- `parallel_for` without a `ForcePolicy` calls Kokkos with the policy of the captured kernel and a
-- copy of the functor whose bytes are those of the captured one, and leaves the tracking of Kokkos
-- switched on. (HDF5 reads what was written; Kokkos names its spaces as documented, and the policy is well formed,
-- has no `WorkTag` and no `LaunchBounds`, which are not restored, and if it is a `TeamPolicy`, the Kokkos of the
-- captured program can be asked for its scratch sizes, which are not restored otherwise;
-- the replayer is built with the policy's space and rank; the given functor can be called as the
-- policy calls it, and its copy is no extended lambda of nvcc and has as many bytes as the captured one.)
pub parallel_for-create_kernel_dump :
    {W : Type 0} (h : Hdf5 W) (laws : IsHdf5 h) (m : Memory) (platform : File.Platform) (b : Build)
    (space_name : ExecSpace → Text) (p : KokkosPolicy) (d : KernelDump) (a : Arguments)
    (filename : Text) (traits : FunctorTraits) (copy : Object → Object) (functor : Object)
    (s : Replayer) (w : W)
    → ((e : ExecSpace) → space_name e ≡ documented_name e)
    → Supported b.kokkos p
    → WellFormed p
    → IsRestorable p
    → Callable traits p
    → d.policy ≡ register_bounds space_name p
    → (File.create_kernel_dump h m platform d w).0.ok ≡ true
    → ((q : ObjectPath) (slot : Slot)
        → h.read q slot (h.open_file filename (File.create_kernel_dump h m platform d w).1).1
          ≡ h.read q slot (File.create_kernel_dump h m platform d w).1)
    → (find_flag_argument (text "--kernel-replayer-dump") a).0 ≡ some filename
    → (scope_guard b h a s (File.create_kernel_dump h m platform d w).1).1.0 ≡ ok tt
    → (copy functor).inner_lambda ≡ none
    → length (copy functor).bytes ≡ length d.functor_data
    → parallel_for {P = ReplayPolicy} traits
        (scope_guard b h a s (File.create_kernel_dump h m platform d w).1).1.1
        copy
        none
        functor
      ≡ (
        ok (visited (captured p), copy (record { bytes = d.functor_data; inner_lambda = none })),
        true,
      )
unfolding read_policy_from_hdf5
parallel_for-create_kernel_dump h laws m platform b space_name p d a filename traits copy functor s
      w names on well restorable callable described dumped unchanged named done plain size =
    let w' = (File.create_kernel_dump h m platform d w).1 in
    let v = (h.open_file filename w').1 in
    let same_group = λ (q : ObjectPath). fun_ext (λ slot. unchanged q slot) in
    let (fine, same) = scope_guard-restore b h a filename s w' named done in
    let has : HasFunctor b (λ slot. h.read functor_path slot v) d.functor_data
        d.nvcc_inner_lambda_data =
      rw (same_group functor_path) (functor-dumped h laws m platform d w dumped b) in
    let policy : read_policy_from_hdf5 b.kokkos h v ≡ ok (replayed p) =
      ap (λ (group : Group). read_policy b.kokkos group) (same_group (text "policy" ∷ []))
      ∙ read_policy-create_kernel_dump h laws m platform b.kokkos space_name p d w names on
          described dumped in
    rw same (
      parallel_for-loaded traits b copy functor p d.functor_data d.nvcc_inner_lambda_data _ well
        restorable callable plain size
        (restore-IsLoaded b h v d.functor_data d.nvcc_inner_lambda_data (replayed p) has policy s
          fine))
