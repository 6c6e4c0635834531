-- ===== src/Extract/Functions.antt =====
-- src/krepe/extract/kernel_extractor.cpp: the table of the tool's functions, which is filled on the first
-- call, and the calls through it. The tool is this repository's; what it exports is known to
-- `dlsym`.
pub mod Refines
use kokkos_kernel_forge.Base.{
  ℕ, Bool, true, false, Option, none, some, List, [], ◌∷◌, ◌==◌, nat_eq, if◌then◌else◌,
}
use kokkos_kernel_forge.Base.Text.{Text, text}
use kokkos_kernel_forge.Capture.Policy.{RangePolicyDesc, MdRangePolicyDesc, TeamPolicyDesc}
use kokkos_kernel_forge.Capture.Kernels as Hooks

-- A null pointer, a function of the tool, or the lambda that does nothing.
pub data Pointer : Type 0 where
  null from_tool no_op : Pointer

pub record Functions : Type 0 where
  pub add_metadata_function : Pointer
  pub copy_functor_function : Pointer
  pub copy_nvcc_lambda_function : Pointer
  pub register_scalar_policy_function : Pointer
  pub register_range_policy_function : Pointer
  pub register_mdrange_policy_function : Pointer
  pub register_team_policy_function : Pointer
  pub next_invocation_will_dump_function : Pointer
  pub clear_registered_views_function : Pointer
  pub register_view_function : Pointer
  pub has_kernel_dump_tool : Option Bool

abbrev pub all_pointers : Pointer → Option Bool → Functions
all_pointers p has_tool = record {
  add_metadata_function = p;
  copy_functor_function = p;
  copy_nvcc_lambda_function = p;
  register_scalar_policy_function = p;
  register_range_policy_function = p;
  register_mdrange_policy_function = p;
  register_team_policy_function = p;
  next_invocation_will_dump_function = p;
  clear_registered_views_function = p;
  register_view_function = p;
  has_kernel_dump_tool = has_tool;
}

-- Before the first call.
abbrev pub initial_functions : Functions
initial_functions = all_pointers null none

-- `KOKKOS_ENABLE_LIBDL`, and for which names `dlsym` finds a symbol.
pub record Loader : Type 0 where
  pub enable_libdl : Bool
  pub exports : Text → Bool

-- The table is the argument of the assignment, `ptr = handle`.
unfoldable pub load_function_from_tool :
    Loader → Text → (Functions → Functions) → Functions → Bool × Functions
load_function_from_tool l name assign f = if l.exports name then (true, assign f) else (false, f)

-- `&&`: what stands behind a failure is not loaded.
abbrev pub and_load : Bool × Functions → (Functions → Bool × Functions) → Bool × Functions
and_load (true, f) rest = rest f
and_load (false, f) rest = (false, f)

unfoldable pub load_functions : Loader → Functions → Bool × Functions
unfolding load_function_from_tool
load_functions l f =
    let load = load_function_from_tool l in
    and_load
      (load (text "krepe_kernel_dump_add_metadata")
        (λ t. record t { add_metadata_function = from_tool }) f)
      λ f.
        and_load
          (load (text "krepe_kernel_dump_copy_functor")
            (λ t. record t { copy_functor_function = from_tool }) f)
          λ f.
            and_load
              (load (text "krepe_kernel_dump_copy_nvcc_lambda")
                (λ t. record t { copy_nvcc_lambda_function = from_tool }) f)
              λ f.
                and_load
                  (load (text "krepe_kernel_dump_register_scalar_policy")
                    (λ t. record t { register_scalar_policy_function = from_tool }) f)
                  λ f.
                    and_load
                      (load (text "krepe_kernel_dump_register_range_policy")
                        (λ t. record t { register_range_policy_function = from_tool }) f)
                      λ f.
                        and_load
                          (load (text "krepe_kernel_dump_register_mdrange_policy")
                            (λ t. record t { register_mdrange_policy_function = from_tool }) f)
                          λ f.
                            and_load
                              (load (text "krepe_kernel_dump_register_team_policy")
                                (λ t. record t { register_team_policy_function = from_tool }) f)
                              λ f.
                                and_load
                                  (load (text "krepe_kernel_dump_next_invocation_will_dump")
                                    (λ t. record t {
                                      next_invocation_will_dump_function = from_tool;
                                    })
                                    f)
                                  λ f.
                                    and_load
                                      (load (text "krepe_kernel_dump_clear_registered_views")
                                        (λ t. record t {
                                          clear_registered_views_function = from_tool;
                                        })
                                        f)
                                      λ f.
                                        load (text "krepe_kernel_dump_register_view")
                                          (λ t. record t { register_view_function = from_tool }) f

unfoldable pub init_internal_functions_from_tool : Loader → Functions → Bool × Functions
unfolding load_functions
init_internal_functions_from_tool l f = if l.enable_libdl then load_functions l f else (false, f)

abbrev pub or_no_ops : Bool × Functions → Functions
or_no_ops (true, f) = record f { has_kernel_dump_tool = some true }
or_no_ops (false, f) = all_pointers no_op (some false)

abbrev pub unless_known : Option Bool → Functions → Functions → Functions
unless_known none f g = g
unless_known (some b) f g = f

unfoldable pub init_internal_functions : Loader → Functions → Functions
unfolding init_internal_functions_from_tool
init_internal_functions l f =
    unless_known f.has_kernel_dump_tool f (or_no_ops (init_internal_functions_from_tool l f))

-- The table, and the state of the tool.
abbrev pub Program : Type 0
Program = Functions × Hooks.CaptureState

-- A call through a null pointer is undefined: `none`.
abbrev pub Call : Type 0 → Type 0
Call A = Program → Option (A × Program)

abbrev through : {A : Type 0} → Pointer → A → (Hooks.CaptureState → A × Hooks.CaptureState) → Call A
through null other hook p = none
through from_tool other hook (f, s) = some ((hook s).0, (f, (hook s).1))
through no_op other hook p = some (other, p)

abbrev pub done :
    (Hooks.CaptureState → Hooks.CaptureState) → Hooks.CaptureState → Unit {0} × Hooks.CaptureState
done hook s = (tt, hook s)

-- The bytes before the first null byte.
unfoldable pub c_str : Text → Text
c_str [] = []
c_str (c ∷ s) = let rest = c ∷ c_str s in if c == 0 then [] else rest

module _ (l : Loader) where
  -- `init_internal_functions(); function(...)`
  abbrev pub call :
      {A : Type 0}
      → (Functions → Pointer)
      → A
      → (Hooks.CaptureState → A × Hooks.CaptureState)
      → Call A
  call pointer other hook (f, s) =
      let ready = init_internal_functions l f in through (pointer ready) other hook (ready, s)

  unfoldable pub copy_functor : List ℕ → Call (Unit {0})
  unfolding init_internal_functions
  copy_functor bytes = call (λ f. f.copy_functor_function) tt (done (Hooks.copy_functor bytes))

  unfoldable pub copy_nvcc_lambda : List ℕ → List ℕ → Call (Unit {0})
  unfolding init_internal_functions
  copy_nvcc_lambda bytes inner =
      call (λ f. f.copy_nvcc_lambda_function) tt (done (Hooks.copy_nvcc_lambda bytes inner))

  unfoldable pub register_scalar_policy : ℕ → Call (Unit {0})
  unfolding init_internal_functions
  register_scalar_policy n =
      call (λ f. f.register_scalar_policy_function) tt (done (Hooks.register_scalar_policy n))

  unfoldable pub register_range_policy : RangePolicyDesc → Call (Unit {0})
  unfolding init_internal_functions
  register_range_policy d =
      call (λ f. f.register_range_policy_function) tt (done (Hooks.register_range_policy d))

  unfoldable pub register_mdrange_policy : MdRangePolicyDesc → Call (Unit {0})
  unfolding init_internal_functions
  register_mdrange_policy d =
      call (λ f. f.register_mdrange_policy_function) tt (done (Hooks.register_mdrange_policy d))

  unfoldable pub register_team_policy : TeamPolicyDesc → Call (Unit {0})
  unfolding init_internal_functions
  register_team_policy d =
      call (λ f. f.register_team_policy_function) tt (done (Hooks.register_team_policy d))

  unfoldable pub next_invocation_will_dump : Text → Call Bool
  unfolding init_internal_functions
  next_invocation_will_dump kernel_name =
      call (λ f. f.next_invocation_will_dump_function) false
        (Hooks.next_invocation_will_dump kernel_name)

  unfoldable pub clear_registered_views : Call (Unit {0})
  unfolding init_internal_functions
  clear_registered_views =
      call (λ f. f.clear_registered_views_function) tt (done Hooks.clear_registered_views)

  unfoldable pub register_view : ℕ → Text → Call (Unit {0})
  unfolding init_internal_functions
  register_view address space =
      call (λ f. f.register_view_function) tt (done (Hooks.register_view address space))

  unfoldable pub add_metadata : Text → Text → Call (Unit {0})
  unfolding init_internal_functions c_str
  add_metadata key value =
      call (λ f. f.add_metadata_function) tt (done (Hooks.add_metadata (c_str key) value))
