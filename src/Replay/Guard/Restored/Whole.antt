-- ===== src/Replay/Guard/Restored/Whole.antt =====
-- The views stay restored to the end of the constructor.
use kokkos_kernel_forge.Base.{
  ℕ, ◌+◌, ◌≡◌, ◌∙◌, refl, ap, Bool, true, false, some, List, [], ◌∷◌, ◌++◌, All, nat_eq,
}
use kokkos_kernel_forge.Base.Text.{Text, text}
use kokkos_kernel_forge.Base.Dict.{Dict}
use kokkos_kernel_forge.Base.Result.{Result, ok, err}
use kokkos_kernel_forge.Base.Exec.{Exec, ◌>>◌, continue_done}
use kokkos_kernel_forge.Common.Hdf5.{Hdf5}
use kokkos_kernel_forge.Replay.Space.{MemorySpaceType, host, device}
use kokkos_kernel_forge.Replay.Policy.{Group, read_policy_from_hdf5}
use kokkos_kernel_forge.Replay.CommandLine.{Arguments, find_flag_argument}
use kokkos_kernel_forge.Replay.Machine.Device.{device_init}
use kokkos_kernel_forge.Replay.Views.{get_bytes}
use kokkos_kernel_forge.Replay.Guard.{Build, Replayer, read_functor_from_hdf5}
use kokkos_kernel_forge.Replay.Guard.Construct.{
  group_of, reserve, copy_views, read_metadata, read_policy, read_outputs, if_exists, restore,
  or_unwind, close_restored, with_open_file, scope_guard,
}
use kokkos_kernel_forge.Replay.Guard.Lookup.{get_allocation}
use kokkos_kernel_forge.Replay.Machine.Allocation.{Machine}
use kokkos_kernel_forge.Replay.Guard.Frame.{
  Keeps, Keeps-lift, Keeps-then, Keeps-update, Keeps-if, Keeps-pure, BlindToOutputs, Keeps-outputs,
  Keeps-read_metadata,
}
use kokkos_kernel_forge.Replay.Guard.Restored.{
  View, space_of, address_of, AllDescribe, bytes_of, IsRestored, Apart,
}
use kokkos_kernel_forge.Replay.Guard.Restored.Kept.{copy_views-IsRestored, copy_views-AllMapped}

-- What the views are found by.
abbrev finds : Replayer → Machine × Dict Text ℕ × Dict Text ℕ
finds s = (s.machine, s.host_allocations, s.device_allocations)

Keeps-functor : (b : Build) (group : Group) → Keeps finds (read_functor_from_hdf5 b group)
unfolding read_functor_from_hdf5
Keeps-functor b group = Keeps-lift finds (get_bytes group (text "functor")) _ λ functor.
    Keeps-then finds _ _ (Keeps-update finds (λ s. record s { functor_data = functor }) (λ s. refl))
      (Keeps-if finds b.nvcc_workaround _ _
        (Keeps-lift finds (get_bytes group (text "nvcc_inner_lambda"))
          (λ inner s. (ok tt, record s { nvcc_inner_lambda_data = inner }))
          (λ inner. record { keeps = λ s. refl }))
        (Keeps-pure finds))

blind : (b : Build) → BlindToOutputs finds b
blind b host label bytes s = refl
blind b device label bytes s = refl

Same-IsRestored :
    (b : Build) (v : View) (s t : Replayer)
    → finds t ≡ finds s
    → IsRestored b v s
    → IsRestored b v t
Same-IsRestored b v s t same old = record {
  found = looked (space_of v) old.found;
  holds = λ i h. old.holds i h ∙ ap (λ (f : ℕ → ℕ). some (f (v.address + i))) (seen (space_of v));
}
  where
    looked :
        (p : MemorySpaceType)
        → get_allocation b s p v.label ≡ ok (address_of v)
        → get_allocation b t p v.label ≡ ok (address_of v)
    looked host e =
        unfold get_allocation in rw (ap (λ (x : Machine × Dict Text ℕ × Dict Text ℕ). x.1) same) e
    looked device e =
        unfold get_allocation in rw (ap (λ (x : Machine × Dict Text ℕ × Dict Text ℕ). x.2) same) e

    seen : (p : MemorySpaceType) → bytes_of p s ≡ bytes_of p t
    seen host = rw (ap (λ (x : Machine × Dict Text ℕ × Dict Text ℕ). x.0) same)
    seen device = rw (ap (λ (x : Machine × Dict Text ℕ × Dict Text ℕ). x.0) same)

module _ {W : Type 0} (b : Build) (h : Hdf5 W) (w : W) (names : List Text) (before : List View)
    (v : View) (after : List View)
    (visited : h.children (text "in" ∷ text "views" ∷ []) w ≡ some names)
    (described : AllDescribe b (group_of b h w (text "in")) names (before ++ v ∷ after))
    (apart : All (Apart v) after) where
  -- What the constructor does behind the loop over the views.
  behind : Exec Replayer (Unit {0})
  behind = do
    read_metadata b h w
    read_functor_from_hdf5 b (λ slot. h.read (text "functor" ∷ []) slot w)
    read_policy b h w
    if_exists b h w (text "out" ∷ [])
        (if_exists b h w (text "out" ∷ text "views" ∷ []) (read_outputs b h w))

  Keeps-policy : Keeps finds (read_policy b h w)
  unfolding read_policy
  Keeps-policy =
      Keeps-lift finds (read_policy_from_hdf5 b.kokkos h w)
        (λ policy s. (ok tt, record s { replay_policy = some policy }))
        (λ policy. record { keeps = λ s. refl })

  Keeps-behind : Keeps finds behind
  unfolding behind
  Keeps-behind = Keeps-then finds _ _ (Keeps-read_metadata finds b h w (λ f s. refl)) (
      Keeps-then finds _ _ (Keeps-functor b _)
        (Keeps-then finds _ _ Keeps-policy (Keeps-outputs finds b h w (blind b))))

  pub restore-IsRestored :
      (s : Replayer) → (restore b h w s).0 ≡ ok tt → IsRestored b v (restore b h w s).1
  unfolding restore behind
  restore-IsRestored s done =
      let s₁ = (reserve b h w host s).1 in
      let s₂ = (reserve b h w device s₁).1 in
      let s₃ = (copy_views b h w s₂).1 in
      let first = continue_done (reserve b h w host s).0 _ s₁ done in
      let second = continue_done (device_init b.system.driver) _ s₁ first.1 in
      let third = continue_done (reserve b h w device s₁).0 _ s₂ second.1 in
      let fourth = continue_done (copy_views b h w s₂).0 behind s₃ third.1 in
      let mapped =
        copy_views-AllMapped b h w names (before ++ v ∷ after) s₂ visited described fourth.0 in
      let held =
        (copy_views-IsRestored b h w names before v after s₂ visited described mapped apart).1 in
      rw (first.2, second.2, third.2, fourth.2)
        (Same-IsRestored b v s₃ (behind s₃).1 (Keeps-behind.keeps s₃) held)

finished :
    {W : Type 0} (b : Build) (h : Hdf5 W) (x : Result (Unit {0}) × Replayer) (c : Bool × W)
    → (or_unwind b h (close_restored b h x c).0).0 ≡ ok tt
    → (x.0 ≡ ok tt) × ((or_unwind b h (close_restored b h x c).0).1 ≡ x.1)
finished b h (ok u, s) (true, w) done = (refl, refl)
finished b h (ok u, s) (false, w) done = cc
finished b h (err e, s) (closed, w) done = cc

-- A constructor that returns has done its work on the open file.
pub scope_guard-restore :
    {W : Type 0} (b : Build) (h : Hdf5 W) (a : Arguments) (filename : Text) (s : Replayer) (w : W)
    → (find_flag_argument (text "--kernel-replayer-dump") a).0 ≡ some filename
    → (scope_guard b h a s w).1.0 ≡ ok tt
    → ((restore b h (h.open_file filename w).1 s).0 ≡ ok tt)
      × ((scope_guard b h a s w).1.1 ≡ (restore b h (h.open_file filename w).1 s).1)
unfolding scope_guard
scope_guard-restore {W} b h a filename s w named done =
    rw named (opened (h.open_file filename w) (rw named at done))
  where
    opened :
        (x : Bool × W)
        → (or_unwind b h (with_open_file b h x s).0).0 ≡ ok tt
        → ((restore b h x.1 s).0 ≡ ok tt)
          × ((or_unwind b h (with_open_file b h x s).0).1 ≡ (restore b h x.1 s).1)
    opened (false, w') done = cc
    opened (true, w') done = finished b h (restore b h w' s) (h.close_file w') done

-- The constructor of `ScopeGuard` with `--kernel-replayer-dump`: when it returns, every view of the dump that no later one
-- overwrites is found under its label, with its bytes in the memory of its space at its address.
-- (The groups of `in/views` describe the views in the order in which HDF5 visits them; data shorter
-- than 2 ^ 31 bytes, and a driver that copies to the device.)
pub scope_guard-IsRestored :
    {W : Type 0} (b : Build) (h : Hdf5 W) (a : Arguments) (filename : Text) (names : List Text)
    (before : List View) (v : View) (after : List View) (s : Replayer) (w : W)
    → (find_flag_argument (text "--kernel-replayer-dump") a).0 ≡ some filename
    → h.children (text "in" ∷ text "views" ∷ []) (h.open_file filename w).1 ≡ some names
    → AllDescribe b
        (group_of b h (h.open_file filename w).1 (text "in"))
        names
        (before ++ v ∷ after)
    → All (Apart v) after
    → (scope_guard b h a s w).1.0 ≡ ok tt
    → IsRestored b v (scope_guard b h a s w).1.1
scope_guard-IsRestored b h a filename names before v after s w named visited described apart done =
    let (fine, same) = scope_guard-restore b h a filename s w named done in
    rw same (
      restore-IsRestored b h (h.open_file filename w).1 names before v after visited described apart
        s fine)
