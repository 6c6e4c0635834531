-- ===== src/RoundTrip/Dumps/Views.antt =====
-- The views in a whole dump, and what a replay finds of them.
use kokkos_kernel_forge.Base.{
  ℕ, zero, suc, ◌+◌, ◌^◌, ◌<◌, ◌≡◌, ◌∙◌, refl, true, some, List, [], ◌∷◌, arith, length, get_elem?,
}
use kokkos_kernel_forge.Base.Text.{Text, text, text_eq}
use kokkos_kernel_forge.Base.Exec.{◌>>◌}
use kokkos_kernel_forge.Common.Hdf5.{Hdf5, IsHdf5, path_eq}
use kokkos_kernel_forge.Capture.Tracker.{ActiveAllocation, AllocationSnapshot}
use kokkos_kernel_forge.Capture.Kernels.{KernelDump}
use kokkos_kernel_forge.Capture.MemoryCopy.{Memory, copy_allocation_bytes}
use kokkos_kernel_forge.Capture.Dump.Pointer.{pointer_to_string}
use kokkos_kernel_forge.Capture.Dump.WritePolicy.{
  write_string_attribute, write_uint64_attribute, write_policy, write_bytes_dataset,
}
use kokkos_kernel_forge.Capture.Dump.File as File
use kokkos_kernel_forge.RoundTrip.Puts.{group_at}
use kokkos_kernel_forge.RoundTrip.Dumps.{
  Keeps, Passes, Passes-after, Passes-before, Passes-in_group, Keeps-in_group, created-Passes,
}
use kokkos_kernel_forge.RoundTrip.Dumps.Groups.{
  with_allocation, view_of, with_allocation-Describes, allocation_body, puts_allocation,
}
use kokkos_kernel_forge.RoundTrip.Dumps.Kept.{
  views_path, view_path, other_view, Passes-trans, ◌and◌, Keeps-pure, keep_allocation,
  keep_metadata, keep_policy, keep_bytes,
}
use kokkos_kernel_forge.Replay.Guard.Restored.{Describes}

module _ {W : Type 0} (h : Hdf5 W) (laws : IsHdf5 h) (m : Memory) (platform : File.Platform) where
  -- The groups of later allocations are others.
  keep_later :
      (snapshot : Text) (i : ℕ) (label : Text) (k : ℕ) (later : List ActiveAllocation)
      → i < k
      → Keeps h laws m platform
          (view_path snapshot i label)
          (File.write_allocations h m platform (views_path snapshot) k later)
  unfolding File.write_allocations File.write_allocation_group
  keep_later snapshot i label k [] below = Keeps-pure h laws m platform (view_path snapshot i label)
  keep_later snapshot i label k (a ∷ later) below =
      let p = view_path snapshot i label in
      let q = view_path snapshot k a.allocation.label in
      ◌and◌ h laws m platform p
        (Keeps-in_group h laws m platform p q (
          keep_allocation h laws m platform p q
            (other_view snapshot k i a.allocation.label label (omega arith)) a))
        (keep_later snapshot i label (suc k) later (omega arith))

  -- The writes to the group of one allocation are among those of its snapshot.
  entry-Passes :
      (snapshot : Text) (k i j : ℕ) (all : List ActiveAllocation) (a : ActiveAllocation)
      → j ≡ k + i
      → get_elem? all i ≡ some a
      → Passes h laws m platform
          (view_path snapshot j a.allocation.label)
          (File.write_allocations h m platform (views_path snapshot) k all)
          (allocation_body h laws (view_path snapshot j a.allocation.label) m platform a)
  unfolding File.write_allocations File.write_allocation_group
  entry-Passes snapshot k i j [] a e there = cc
  entry-Passes snapshot k zero j (x ∷ all) a e there =
      let first : x ≡ a = cc in
      let here : j ≡ k = omega arith in
      let p = view_path snapshot k a.allocation.label in
      rw (first, here)
        (Passes-before h laws m platform p
          (Passes-in_group h laws m platform p p (allocation_body h laws p m platform a))
          (keep_later snapshot k a.allocation.label (suc k) all (omega arith)))
  entry-Passes snapshot k (suc i) j (x ∷ all) a e there =
      Passes-after h laws m platform (view_path snapshot j a.allocation.label)
        (File.write_allocation_group h m platform (views_path snapshot) x k)
        (entry-Passes snapshot (suc k) i j all a (omega arith) there)

  snapshot-Passes :
      (snapshot : Text) (x : AllocationSnapshot) (i : ℕ) (a : ActiveAllocation)
      → get_elem? x.allocations i ≡ some a
      → Passes h laws m platform
          (view_path snapshot i a.allocation.label)
          (File.write_snapshot h m platform snapshot x)
          (allocation_body h laws (view_path snapshot i a.allocation.label) m platform a)
  unfolding File.write_snapshot
  snapshot-Passes snapshot x i a there =
      let p = view_path snapshot i a.allocation.label in
      let views = File.write_allocations h m platform (views_path snapshot) 0 x.allocations in
      Passes-trans h laws m platform p
        (Passes-in_group h laws m platform p (snapshot ∷ []) (do
          write_uint64_attribute h (snapshot ∷ []) (text "active_allocations")
              (length x.allocations)
          write_uint64_attribute h (snapshot ∷ []) (text "active_bytes") x.active_bytes
          File.in_group h m platform (views_path snapshot) views))
        (Passes-after h laws m platform p
          (write_uint64_attribute h (snapshot ∷ []) (text "active_allocations")
            (length x.allocations))
          (Passes-after h laws m platform p
            (write_uint64_attribute h (snapshot ∷ []) (text "active_bytes") x.active_bytes)
            (Passes-trans h laws m platform p
              (Passes-in_group h laws m platform p (views_path snapshot) views)
              (entry-Passes snapshot 0 i i x.allocations a (omega arith) there))))

  -- What is written behind the snapshot of the input leaves its groups alone.
  Keeps-behind :
      (d : KernelDump) (i : ℕ) (label : Text)
      → Keeps h laws m platform (view_path (text "in") i label) (
          File.in_group h m platform
            (text "metadata" ∷ [])
            (File.write_metadata h m platform (text "metadata" ∷ []) d.metadata)
          >> (File.in_group h m platform
                (text "policy" ∷ [])
                (write_policy h (text "policy" ∷ []) d.policy)
              >> File.in_group h m platform (text "functor" ∷ []) (
                  write_bytes_dataset h (text "functor" ∷ []) (text "functor") d.functor_data
                  >> write_bytes_dataset h
                      (text "functor" ∷ [])
                      (text "nvcc_inner_lambda")
                      d.nvcc_inner_lambda_data)))
  unfolding path_eq text_eq text
  Keeps-behind d i label =
      let p = view_path (text "in") i label in
      let functor = text "functor" ∷ [] in
      ◌and◌ h laws m platform p
        (Keeps-in_group h laws m platform p (text "metadata" ∷ [])
          (keep_metadata h laws m platform p (text "metadata" ∷ []) refl d.metadata))
        (◌and◌ h laws m platform p
          (Keeps-in_group h laws m platform p (text "policy" ∷ [])
            (keep_policy h laws m platform p (text "policy" ∷ []) refl d.policy))
          (Keeps-in_group h laws m platform p functor (
            ◌and◌ h laws m platform p
              (keep_bytes h laws m platform p functor refl (text "functor") d.functor_data)
              (keep_bytes h laws m platform p functor refl (text "nvcc_inner_lambda")
                d.nvcc_inner_lambda_data))))

  -- So the writes to the group of an allocation are among those of the whole dump.
  dump-Passes :
      (d : KernelDump) (i : ℕ) (a : ActiveAllocation)
      → get_elem? d.input_snapshot.allocations i ≡ some a
      → Passes h laws m platform
          (view_path (text "in") i a.allocation.label)
          (File.write_kernel_dump h m platform d)
          (allocation_body h laws (view_path (text "in") i a.allocation.label) m platform a)
  unfolding File.write_kernel_dump
  dump-Passes d i a there =
      let p = view_path (text "in") i a.allocation.label in
      Passes-after h laws m platform p (write_string_attribute h [] (text "kernel_label") d.label) (
        Passes-after h laws m platform p
          (write_uint64_attribute h [] (text "kernel_id") d.kernel_id)
          (Passes-after h laws m platform p
            (write_uint64_attribute h [] (text "kernel_invocation") d.kernel_invocation)
            (Passes-before h laws m platform p
              (snapshot-Passes (text "in") d.input_snapshot i a there)
              (Keeps-behind d i a.allocation.label))))

  -- The group of an allocation after a dump that reports success.
  dumped_group :
      (d : KernelDump) (i : ℕ) (a : ActiveAllocation) (bytes : List ℕ) (w : W)
      → get_elem? d.input_snapshot.allocations i ≡ some a
      → copy_allocation_bytes m a ≡ ([], bytes)
      → (File.create_kernel_dump h m platform d w).0.ok ≡ true
      → (v : W) × (group_at h laws
            (view_path (text "in") i a.allocation.label)
            (File.create_kernel_dump h m platform d w).1
          ≡ with_allocation platform a bytes
              (group_at h laws (view_path (text "in") i a.allocation.label) v))
  dumped_group d i a bytes w there copied done =
      let p = view_path (text "in") i a.allocation.label in
      let (v, written, same) =
        created-Passes h laws m platform d w p (dump-Passes d i a there) done in
      (v, same ∙ (puts_allocation h laws p m platform a bytes copied).puts v written)

  -- After a dump that reports success, the group of an allocation whose bytes were copied describes it as the replay reads
  -- it.
  pub dumped-Describes :
      (d : KernelDump) (i : ℕ) (a : ActiveAllocation) (bytes : List ℕ) (w : W)
      → ((n : ℕ) → platform.pointer_to_string n ≡ pointer_to_string n)
      → get_elem? d.input_snapshot.allocations i ≡ some a
      → copy_allocation_bytes m a ≡ ([], bytes)
      → a.allocation.p_data < 2 ^ 64
      → length bytes < 2 ^ 31
      → (File.create_kernel_dump h m platform d w).0.ok ≡ true
      → Describes
          (group_at h laws
            (view_path (text "in") i a.allocation.label)
            (File.create_kernel_dump h m platform d w).1)
          (view_of a bytes)
  dumped-Describes d i a bytes w printed there copied fits short done =
      let (v, same) = dumped_group d i a bytes w there copied done in
      rw same (with_allocation-Describes platform a bytes _ printed fits short)
