-- ===== src/RoundTrip/Dumps.antt =====
-- The policy in a whole dump: `create_kernel_dump` writes it between other groups.
pub mod Groups
pub mod Kept
pub mod Views
use mathlib.Core.Path.{fun_ext}
use kokkos_kernel_forge.Base.{◌≡◌, ◌∙◌, refl, ap, sym, Bool, true, false, [], ◌∷◌}
use kokkos_kernel_forge.Base.Text.{Text, text, text_eq}
use kokkos_kernel_forge.Base.Result.{Result, ok, err}
use kokkos_kernel_forge.Base.Exec.{Exec, ◌>>◌, continue_done}
use kokkos_kernel_forge.Common.Hdf5.{
  Hdf5, IsHdf5, Value, Slot, dataset, bytes_value, ObjectPath, path_eq,
}
use kokkos_kernel_forge.Capture.Kernels.{KernelDump}
use kokkos_kernel_forge.Capture.MemoryCopy.{Memory}
use kokkos_kernel_forge.Capture.Dump.WritePolicy.{
  put, write_string_attribute, write_uint64_attribute, write_policy, write_bytes_dataset,
}
use kokkos_kernel_forge.Capture.Dump.Names.{dump_filename}
use kokkos_kernel_forge.Capture.Dump.File as File
use kokkos_kernel_forge.Extract.Bounds.{KokkosPolicy, register_bounds}
use kokkos_kernel_forge.Replay.Policy.{ExecSpace, KokkosBuild, read_policy, read_policy_from_hdf5}
use kokkos_kernel_forge.RoundTrip.Puts.{Puts, Puts-then, group_at, checked_done}
use kokkos_kernel_forge.RoundTrip.Names.{documented_name}
use kokkos_kernel_forge.RoundTrip.Policies.{Supported, replayed, read_policy-write_policy}

module _ {W : Type 0} (h : Hdf5 W) (laws : IsHdf5 h) (m : Memory) (platform : File.Platform)
    (p : ObjectPath) where
  -- The steps leave the group `p` as it is.
  abbrev pub Keeps : Exec W (Unit {0}) → Type 0
  Keeps n = Puts h laws p n (λ group. group)

  -- When `n` succeeds, a call of `body` in it succeeded, and what it left in the group `p` is there.
  pub record Passes (n body : Exec W (Unit {0})) : Type 0 where
    pub passes :
        (w : W)
        → (n w).0 ≡ ok tt
        → (v : W) × ((body v).0 ≡ ok tt)
          × (group_at h laws p (n w).1 ≡ group_at h laws p (body v).1)

  pub Keeps-put :
      (q : ObjectPath) (slot : Slot) (v : Value) → path_eq q p ≡ false → Keeps (put h q slot v)
  Keeps-put q slot v apart = record { puts = λ w done. fun_ext λ s. keeps_one w s done }
    where
      keeps_one :
          (w : W) (s : Slot)
          → (put h q slot v w).0 ≡ ok tt
          → h.read p s (put h q slot v w).1 ≡ h.read p s w
      keeps_one w s done =
          let step = checked_done (h.write q slot v w) done in
          ap (h.read p s) step.1 ∙ laws.read-write q slot v w p s step.0 ∙ rw apart

  pub Passes-after :
      (k : Exec W (Unit {0})) {n body : Exec W (Unit {0})} → Passes n body → Passes (k >> n) body
  Passes-after k {n} {body} pass = record {
    passes = λ w done.
        let step = continue_done (k w).0 n (k w).1 done in
        let (v, fine, same) = pass.passes (k w).1 step.1 in
        (v, fine, ap (group_at h laws p) step.2 ∙ same);
  }

  pub Passes-before :
      {k n body : Exec W (Unit {0})} → Passes k body → Keeps n → Passes (k >> n) body
  Passes-before {k} {n} {body} pass keep = record {
    passes = λ w done.
        let step = continue_done (k w).0 n (k w).1 done in
        let (v, fine, same) = pass.passes w step.0 in
        (v, fine, ap (group_at h laws p) step.2 ∙ keep.puts (k w).1 step.1 ∙ same);
  }

  closed_done :
      (q : ObjectPath) (x : Bool × W)
      → (File.closed_group h m platform q x).0 ≡ ok tt
      → (x.0 ≡ true) × ((File.closed_group h m platform q x).1 ≡ x.1)
  closed_done q (true, w) done = (refl, refl)
  closed_done q (false, w) done = cc

  finished :
      (q : ObjectPath) (x : Result (Unit {0}) × W)
      → (File.finish_group h m platform q x).0 ≡ ok tt
      → (x.0 ≡ ok tt)
        × (group_at h laws p (File.finish_group h m platform q x).1 ≡ group_at h laws p x.1)
  finished q (err e, w) done = cc
  finished q (ok u, w) done =
      let step = closed_done q (h.close_group q w) done in
      (refl, ap (group_at h laws p) step.1 ∙ fun_ext (λ s. laws.read-close_group q w p s step.0))

  opened :
      (q : ObjectPath) (body : Exec W (Unit {0})) (x : Bool × W)
      → (File.opened_group h m platform q body x).0 ≡ ok tt
      → (x.0 ≡ true)
        × ((body x.1).0 ≡ ok tt)
        × (group_at h laws p (File.opened_group h m platform q body x).1
            ≡ group_at h laws p (body x.1).1)
  opened q body (true, w) done = let step = finished q (body w) done in (refl, step.0, step.1)
  opened q body (false, w) done = cc

  pub Passes-in_group :
      (q : ObjectPath) (body : Exec W (Unit {0})) → Passes (File.in_group h m platform q body) body
  Passes-in_group q body = record {
    passes = λ w done.
        let x = h.create_group q w in
        let (made, fine, same) = opened q body x done in (x.1, fine, same);
  }

  pub Keeps-in_group :
      (q : ObjectPath) {body : Exec W (Unit {0})}
      → Keeps body
      → Keeps (File.in_group h m platform q body)
  Keeps-in_group q {body} keep = record {
    puts = λ w done.
        let x = h.create_group q w in
        let (made, fine, same) = opened q body x done in
        same ∙ keep.puts x.1 fine ∙ fun_ext (λ s. laws.read-create_group q w p s made);
  }

  file_closed_done :
      (x : Bool × W)
      → (File.closed_file h m platform x).0 ≡ ok tt
      → (x.0 ≡ true) × ((File.closed_file h m platform x).1 ≡ x.1)
  file_closed_done (true, w) done = (refl, refl)
  file_closed_done (false, w) done = cc

  file_finished :
      (x : Result (Unit {0}) × W)
      → (File.finish_file h m platform x).0 ≡ ok tt
      → (x.0 ≡ ok tt)
        × (group_at h laws p (File.finish_file h m platform x).1 ≡ group_at h laws p x.1)
  file_finished (err e, w) done = cc
  file_finished (ok u, w) done =
      let step = file_closed_done (h.close_file w) done in
      (refl, ap (group_at h laws p) step.1 ∙ fun_ext (λ s. laws.read-close_file w p s step.0))

  file_opened :
      (body : Exec W (Unit {0})) (x : Bool × W)
      → (File.opened_file h m platform body x).0 ≡ ok tt
      → ((body x.1).0 ≡ ok tt)
        × (group_at h laws p (File.opened_file h m platform body x).1
            ≡ group_at h laws p (body x.1).1)
  file_opened body (true, w) done = file_finished (body w) done
  file_opened body (false, w) done = cc

  pub Passes-in_file :
      (opening : W → Bool × W) {n body : Exec W (Unit {0})}
      → Passes n body
      → Passes (File.in_file h m platform opening n) body
  Passes-in_file opening {n} {body} pass = record {
    passes = λ w done.
        let (fine, same) = file_opened n (opening w) done in
        let (v, written, kept) = pass.passes (opening w).1 fine in (v, written, same ∙ kept);
  }

pub result_ok :
    {W : Type 0} (h : Hdf5 W) (m : Memory) (platform : File.Platform) (filename : Text)
    (x : Result (Unit {0}) × W)
    → (File.result_of h m platform filename x).0.ok ≡ true
    → (x.0 ≡ ok tt) × ((File.result_of h m platform filename x).1 ≡ x.1)
result_ok h m platform filename (ok u, w) done = (refl, refl)
result_ok h m platform filename (err e, w) done = cc

-- What was written to a group in the course of a dump that reports success is in the file that it leaves.
pub created-Passes :
    {W : Type 0} (h : Hdf5 W) (laws : IsHdf5 h) (m : Memory) (platform : File.Platform)
    (d : KernelDump) (w : W) (p : ObjectPath) {body : Exec W (Unit {0})}
    → Passes h laws m platform p (File.write_kernel_dump h m platform d) body
    → (File.create_kernel_dump h m platform d w).0.ok ≡ true
    → (v : W) × ((body v).0 ≡ ok tt)
      × (group_at h laws p (File.create_kernel_dump h m platform d w).1
          ≡ group_at h laws p (body v).1)
unfolding File.create_kernel_dump
created-Passes {W} h laws m platform d w p {body} pass =
    created (dump_filename d.label d.kernel_id)
      (platform.absolute (dump_filename d.label d.kernel_id))
  where
    created :
        (relative : Text) (path : Result Text)
        → (File.create_at h m platform d relative path w).0.ok ≡ true
        → (v : W) × ((body v).0 ≡ ok tt)
          × (group_at h laws p (File.create_at h m platform d relative path w).1
              ≡ group_at h laws p (body v).1)
    created relative (err e) done = cc
    created relative (ok path) done =
        let (fine, world) =
          result_ok h m platform path
            (File.in_file h m platform (h.create_file path) (File.write_kernel_dump h m platform d)
              w)
            done in
        let whole = Passes-in_file h laws m platform p (h.create_file path) pass in
        let (v, written, same) = whole.passes w fine in
        (v, written, ap (group_at h laws p) world ∙ same)

abbrev policy_path : ObjectPath
policy_path = text "policy" ∷ []

functor_group-Keeps :
    {W : Type 0} (h : Hdf5 W) (laws : IsHdf5 h) (m : Memory) (platform : File.Platform)
    (d : KernelDump)
    → Keeps h laws m platform policy_path (
        write_bytes_dataset h (text "functor" ∷ []) (text "functor") d.functor_data
        >> write_bytes_dataset h
            (text "functor" ∷ [])
            (text "nvcc_inner_lambda")
            d.nvcc_inner_lambda_data)
unfolding write_bytes_dataset path_eq text_eq text
functor_group-Keeps h laws m platform d =
    let functor = Keeps-put h laws m platform policy_path (text "functor" ∷ []) in
    Puts-then h laws policy_path
      (functor (dataset (text "functor")) (bytes_value d.functor_data) refl)
      (functor (dataset (text "nvcc_inner_lambda")) (bytes_value d.nvcc_inner_lambda_data) refl)

write_kernel_dump-Passes :
    {W : Type 0} (h : Hdf5 W) (laws : IsHdf5 h) (m : Memory) (platform : File.Platform)
    (d : KernelDump)
    → Passes h laws m platform policy_path
        (File.write_kernel_dump h m platform d)
        (write_policy h policy_path d.policy)
unfolding File.write_kernel_dump
write_kernel_dump-Passes h laws m platform d =
    Passes-after h laws m platform policy_path
      (write_string_attribute h [] (text "kernel_label") d.label)
      (Passes-after h laws m platform policy_path
        (write_uint64_attribute h [] (text "kernel_id") d.kernel_id)
        (Passes-after h laws m platform policy_path
          (write_uint64_attribute h [] (text "kernel_invocation") d.kernel_invocation)
          (Passes-after h laws m platform policy_path
            (File.write_snapshot h m platform (text "in") d.input_snapshot)
            (Passes-after h laws m platform policy_path
              (File.in_group h m platform (text "metadata" ∷ [])
                (File.write_metadata h m platform (text "metadata" ∷ []) d.metadata))
              (Passes-before h laws m platform policy_path
                (Passes-in_group h laws m platform policy_path policy_path
                  (write_policy h policy_path d.policy))
                (Keeps-in_group h laws m platform policy_path (text "functor" ∷ [])
                  (functor_group-Keeps h laws m platform d)))))))

-- The policy of the captured program is read back from the whole dump of a kernel: when
-- `create_kernel_dump` reports success, the replayer reads the policy that `register_bounds` described. (Kokkos
-- names its spaces as documented, HDF5 reads what was written, and the replayer is built with the
-- policy's space and rank.)
pub read_policy-create_kernel_dump :
    {W : Type 0} (h : Hdf5 W) (laws : IsHdf5 h) (m : Memory) (platform : File.Platform)
    (b : KokkosBuild) (space_name : ExecSpace → Text) (p : KokkosPolicy) (d : KernelDump) (w : W)
    → ((e : ExecSpace) → space_name e ≡ documented_name e)
    → Supported b p
    → d.policy ≡ register_bounds space_name p
    → (File.create_kernel_dump h m platform d w).0.ok ≡ true
    → read_policy_from_hdf5 b h (File.create_kernel_dump h m platform d w).1 ≡ ok (replayed p)
unfolding read_policy_from_hdf5
read_policy-create_kernel_dump h laws m platform b space_name p d w names on described done =
    let (v, written, same) =
      created-Passes h laws m platform d w policy_path
        (write_kernel_dump-Passes h laws m platform d) done in
    let e : write_policy h policy_path d.policy v
        ≡ write_policy h policy_path (register_bounds space_name p) v =
      ap (λ q. write_policy h policy_path q v) described in
    ap (λ group. read_policy b group) same
    ∙ ap (λ x. read_policy_from_hdf5 b h x.1) e
    ∙ read_policy-write_policy h laws b space_name p v names on (sym (ap (λ x. x.0) e) ∙ written)
