-- ===== src/Extract/Launch.antt =====
-- `register_bounds`, `replay_functor` and `parallel_for` of src/krepe/extract/kernel_extractor.hpp through the
-- functions of the tool, and the launch by Kokkos, which calls the hooks of the tool.
pub mod Connected
use kokkos_kernel_forge.Base.{
  ℕ, Bool, true, false, Option, none, some, List, [], ◌∷◌, if◌then◌else◌,
}
use kokkos_kernel_forge.Base.Text.{Text}
use kokkos_kernel_forge.Capture.Policy.{PolicyDesc, no_policy, scalar, range, mdrange, team}
use kokkos_kernel_forge.Capture.Kernels.{Tools, CaptureState}
use kokkos_kernel_forge.Capture.Kernels.Exported.{
  kokkosp_begin_parallel_for, kokkosp_end_parallel_for,
}
use kokkos_kernel_forge.Extract.Bounds as Bounds
use kokkos_kernel_forge.Extract.Bounds.{KokkosPolicy}
use kokkos_kernel_forge.Extract.Functions.{
  Loader, Functions, Program, Call, c_str, copy_functor, copy_nvcc_lambda, register_scalar_policy,
  register_range_policy, register_mdrange_policy, register_team_policy, next_invocation_will_dump,
  clear_registered_views, register_view,
}
use kokkos_kernel_forge.Replay.Policy.{ExecSpace}

-- The call that `register_bounds` ends with.
unfoldable pub register_policy : Loader → PolicyDesc → Call (Unit {0})
register_policy l no_policy p = some (tt, p)
register_policy l (scalar d) p = register_scalar_policy l d.end p
register_policy l (range d) p = register_range_policy l d p
register_policy l (mdrange d) p = register_mdrange_policy l d p
register_policy l (team d) p = register_team_policy l d p

unfoldable pub register_bounds : Loader → (ExecSpace → Text) → KokkosPolicy → Call (Unit {0})
unfolding register_policy
register_bounds l space_name policy = register_policy l (Bounds.register_bounds space_name policy)

-- The bytes of a functor; with nvcc those of the host lambda of an extended lambda; and the pointers and
-- memory spaces of the views that it holds, in the order in which a plugin finds them.
pub record Functor : Type 0 where
  pub bytes : List ℕ
  pub host_lambda : Option (List ℕ)
  pub views : List (ℕ × Text)

infixl 5 ◌then_call◌
abbrev pub ◌then_call◌ :
    Option ((Unit {0}) × Program) → Call (Unit {0}) → Option ((Unit {0}) × Program)
none then_call rest = none
(some (u, p)) then_call rest = rest p

unfoldable pub copy_bytes : Loader → List ℕ → Option (List ℕ) → Call (Unit {0})
copy_bytes l bytes none p = copy_functor l bytes p
copy_bytes l bytes (some inner) p = copy_nvcc_lambda l bytes inner p

-- The calls that a compiler plugin puts before the body, one for each view.
unfoldable pub register_views : Loader → List (ℕ × Text) → Call (Unit {0})
register_views l [] p = some (tt, p)
register_views l ((address, space) ∷ views) p =
    register_view l address space p then_call register_views l views

-- `plugins` says whether the program was built with one.
unfoldable pub replay_functor : Loader → Bool → Functor → Call (Unit {0})
unfolding copy_bytes register_views
replay_functor l false functor p = copy_bytes l functor.bytes functor.host_lambda p
replay_functor l true functor p =
    clear_registered_views l p
    then_call register_views l functor.views
    then_call copy_bytes l functor.bytes functor.host_lambda

-- What Kokkos does at a launch: the number of the device, the label that it hands to the tool, and the run
-- of the kernel, which acts on the world.
pub record Kokkos (W : Type 0) : Type 0 where
  pub device_id : ℕ
  pub hook_label : Text → Option Text
  pub space_name : ExecSpace → Text
  pub execute : W → W

module _ {W : Type 0} (l : Loader) (tools : Tools W) (k : Kokkos W) where
  -- `Kokkos::parallel_for` up to the run of the kernel; the number of the kernel is kept for the end.
  unfoldable pub begin_parallel_for : Text → CaptureState × W → ℕ × (CaptureState × W)
  unfolding kokkosp_begin_parallel_for
  begin_parallel_for label sw = kokkosp_begin_parallel_for tools (k.hook_label label) k.device_id sw

  unfoldable pub kokkos_parallel_for : Text → CaptureState × W → CaptureState × W
  unfolding begin_parallel_for kokkosp_end_parallel_for
  kokkos_parallel_for label sw =
      let (id, (s, w)) = begin_parallel_for label sw in
      kokkosp_end_parallel_for tools id (s, k.execute w)

  abbrev launched : Text → Option ((Unit {0}) × Program) → W → Option (Program × W)
  launched label none w = none
  launched label (some (u, (f, s))) w =
      let (s', w') = kokkos_parallel_for label (s, w) in some ((f, s'), w')

  -- What is registered when the answer of the tool is yes.
  abbrev prepared :
      Bool → Functor → KokkosPolicy → Option (Bool × Program) → Option ((Unit {0}) × Program)
  prepared plugins functor policy none = none
  prepared plugins functor policy (some (false, p)) = some (tt, p)
  prepared plugins functor policy (some (true, p)) =
      register_bounds l k.space_name policy p then_call replay_functor l plugins functor

  unfoldable pub parallel_for :
      Bool → Text → KokkosPolicy → Functor → Program × W → Option (Program × W)
  unfolding kokkos_parallel_for register_bounds replay_functor
  parallel_for plugins label policy functor (p, w) =
      launched label (prepared plugins functor policy (next_invocation_will_dump l (c_str label) p))
        w
