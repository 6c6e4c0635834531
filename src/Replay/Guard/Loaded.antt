-- ===== src/Replay/Guard/Loaded.antt =====
-- The functor and the policy that the constructor of `ScopeGuard` loads.
use kokkos_kernel_forge.Base.{
  ℕ, ◌≡◌, ◌∙◌, refl, ap, inl, inr, true, Option, some, List, [], ◌∷◌, Bool-cases,
}
use kokkos_kernel_forge.Base.Text.{text}
use kokkos_kernel_forge.Base.Result.{ok}
use kokkos_kernel_forge.Base.Exec.{continue_done}
use kokkos_kernel_forge.Common.Hdf5.{Hdf5}
use kokkos_kernel_forge.Replay.Space.{host, device}
use kokkos_kernel_forge.Replay.Policy.{Group, ReplayPolicy, read_policy_from_hdf5}
use kokkos_kernel_forge.Replay.Machine.Device.{device_init}
use kokkos_kernel_forge.Replay.Views.{get_bytes}
use kokkos_kernel_forge.Replay.Guard.{Build, Replayer, read_functor_from_hdf5}
use kokkos_kernel_forge.Replay.Guard.Construct.{
  reserve, copy_views, read_metadata, read_policy, read_outputs, if_exists, restore,
}
use kokkos_kernel_forge.Replay.Guard.Frame.{BlindToOutputs, Keeps-outputs}

-- The replayer holds a functor, with nvcc its inner lambda, and a policy.
pub record IsLoaded (b : Build) (functor inner : List ℕ) (p : ReplayPolicy) (s : Replayer)
    : Type 0 where
  pub functor_loaded : s.functor_data ≡ functor
  pub inner_loaded : b.nvcc_workaround ≡ true → s.nvcc_inner_lambda_data ≡ inner
  pub policy_loaded : s.replay_policy ≡ some p

abbrev loads : Replayer → List ℕ × List ℕ × Option ReplayPolicy
loads s = (s.functor_data, s.nvcc_inner_lambda_data, s.replay_policy)

-- What the file holds of the functor.
pub record HasFunctor (b : Build) (group : Group) (functor inner : List ℕ) : Type 0 where
  pub functor_there : get_bytes group (text "functor") ≡ ok functor
  pub inner_there : b.nvcc_workaround ≡ true → get_bytes group (text "nvcc_inner_lambda") ≡ ok inner

functor-loaded :
    (b : Build) (group : Group) (functor inner : List ℕ) (s : Replayer)
    → HasFunctor b group functor inner
    → ((read_functor_from_hdf5 b group s).1.functor_data ≡ functor)
      × (b.nvcc_workaround ≡ true
          → (read_functor_from_hdf5 b group s).1.nvcc_inner_lambda_data ≡ inner)
unfolding read_functor_from_hdf5
functor-loaded b group functor inner s has = elim (Bool-cases b.nvcc_workaround) [
  | inl e ↦ rw (has.functor_there, e, has.inner_there e) (refl, λ on. refl)
  | inr e ↦ rw (has.functor_there, e) (refl, λ on. absurd (cc))
]

blind : (b : Build) → BlindToOutputs loads b
blind b host label bytes s = refl
blind b device label bytes s = refl

IsLoaded-same :
    (b : Build) (functor inner : List ℕ) (p : ReplayPolicy) (s t : Replayer)
    → loads t ≡ loads s
    → IsLoaded b functor inner p s
    → IsLoaded b functor inner p t
IsLoaded-same b functor inner p s t same l = record {
  functor_loaded = ap (λ (x : List ℕ × List ℕ × Option ReplayPolicy). x.0) same ∙ l.functor_loaded;
  inner_loaded =
      λ on. ap (λ (x : List ℕ × List ℕ × Option ReplayPolicy). x.1) same ∙ l.inner_loaded on;
  policy_loaded = ap (λ (x : List ℕ × List ℕ × Option ReplayPolicy). x.2) same ∙ l.policy_loaded;
}

module _ {W : Type 0} (b : Build) (h : Hdf5 W) (w : W) (functor inner : List ℕ) (p : ReplayPolicy)
    (has : HasFunctor b (λ slot. h.read (text "functor" ∷ []) slot w) functor inner)
    (policy : read_policy_from_hdf5 b.kokkos h w ≡ ok p) where
  policy-IsLoaded :
      (s : Replayer)
      → (s.functor_data ≡ functor) × (b.nvcc_workaround ≡ true → s.nvcc_inner_lambda_data ≡ inner)
      → IsLoaded b functor inner p (read_policy b h w s).1
  unfolding read_policy
  policy-IsLoaded s l =
      rw policy (record { functor_loaded = l.0; inner_loaded = l.1; policy_loaded = refl })

  -- When the constructor has done its work on a file, it holds the functor and the policy of the file.
  pub restore-IsLoaded :
      (s : Replayer) → (restore b h w s).0 ≡ ok tt → IsLoaded b functor inner p (restore b h w s).1
  unfolding restore
  restore-IsLoaded s done =
      let s₁ = (reserve b h w host s).1 in
      let s₂ = (reserve b h w device s₁).1 in
      let s₃ = (copy_views b h w s₂).1 in
      let s₄ = (read_metadata b h w s₃).1 in
      let s₅ = (read_functor_from_hdf5 b (λ slot. h.read (text "functor" ∷ []) slot w) s₄).1 in
      let s₆ = (read_policy b h w s₅).1 in
      let outputs =
        if_exists b h w (text "out" ∷ [])
          (if_exists b h w (text "out" ∷ text "views" ∷ []) (read_outputs b h w)) in
      let first = continue_done (reserve b h w host s).0 _ s₁ done in
      let second = continue_done (device_init b.system.driver) _ s₁ first.1 in
      let third = continue_done (reserve b h w device s₁).0 _ s₂ second.1 in
      let fourth = continue_done (copy_views b h w s₂).0 _ s₃ third.1 in
      let fifth = continue_done (read_metadata b h w s₃).0 _ s₄ fourth.1 in
      let sixth =
        continue_done (read_functor_from_hdf5 b (λ slot. h.read (text "functor" ∷ []) slot w) s₄).0
          _ s₅ fifth.1 in
      let seventh = continue_done (read_policy b h w s₅).0 outputs s₆ sixth.1 in
      let functors =
        functor-loaded b (λ slot. h.read (text "functor" ∷ []) slot w) functor inner s₄ has in
      rw (first.2, second.2, third.2, fourth.2, fifth.2, sixth.2, seventh.2)
        (IsLoaded-same b functor inner p s₆ (outputs s₆).1
          ((Keeps-outputs loads b h w (blind b)).keeps s₆) (policy-IsLoaded s₅ functors))
