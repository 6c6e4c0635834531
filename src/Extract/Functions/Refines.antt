-- ===== src/Extract/Functions/Refines.antt =====
-- Whatever the loader finds, the tool gets all calls of the program or none.
use kokkos_kernel_forge.Base.{
  ℕ, ◌≡◌, ◌∙◌, refl, ap, inl, inr, Bool, true, false, Option, none, some, List, [], ◌∷◌, ◌&&◌,
  arith, if◌then◌else◌, Bool-cases,
}
use kokkos_kernel_forge.Base.Text.{Text, text}
use kokkos_kernel_forge.Capture.Policy.{RangePolicyDesc, MdRangePolicyDesc, TeamPolicyDesc}
use kokkos_kernel_forge.Capture.Kernels as Hooks
use kokkos_kernel_forge.Extract.Functions as Extract
use kokkos_kernel_forge.Extract.Functions.{
  Pointer, null, from_tool, no_op, Functions, all_pointers, initial_functions, Loader,
  load_function_from_tool, load_functions, init_internal_functions_from_tool,
  init_internal_functions, Program, Call, c_str,
}

-- Every function of the tool is there.
unfoldable pub exports_all : Loader → Bool
exports_all l =
    l.exports (text "krepe_kernel_dump_add_metadata")
    && (l.exports (text "krepe_kernel_dump_copy_functor")
        && (l.exports (text "krepe_kernel_dump_copy_nvcc_lambda")
            && (l.exports (text "krepe_kernel_dump_register_scalar_policy")
                && (l.exports (text "krepe_kernel_dump_register_range_policy")
                    && (l.exports (text "krepe_kernel_dump_register_mdrange_policy")
                        && (l.exports (text "krepe_kernel_dump_register_team_policy")
                            && (l.exports (text "krepe_kernel_dump_next_invocation_will_dump")
                                && (l.exports (text "krepe_kernel_dump_clear_registered_views")
                                    && l.exports (text "krepe_kernel_dump_register_view")))))))))

-- The program is connected to the tool.
unfoldable pub connected : Loader → Bool
unfolding exports_all
connected l = l.enable_libdl && exports_all l

-- The table after the first call.
abbrev pub ready : Loader → Functions
ready l =
    if connected l then all_pointers from_tool (some true) else all_pointers no_op (some false)

load_functions_lem :
    (l : Loader)
    → ((load_functions l initial_functions).0 ≡ exports_all l)
      × (exports_all l ≡ true
          → (load_functions l initial_functions).1 ≡ all_pointers from_tool none)
unfolding load_functions exports_all
load_functions_lem l = ground arith

abbrev found_tool : Functions → Functions
found_tool f = record f { has_kernel_dump_tool = some true }

or_no_ops-loaded : (x : Bool × Functions) → x.0 ≡ true → Extract.or_no_ops x ≡ found_tool x.1
or_no_ops-loaded (true, f) e = refl
or_no_ops-loaded (false, f) e = cc

or_no_ops-failed :
    (x : Bool × Functions) → x.0 ≡ false → Extract.or_no_ops x ≡ all_pointers no_op (some false)
or_no_ops-failed (true, f) e = cc
or_no_ops-failed (false, f) e = refl

pub init_internal_functions_lem :
    (l : Loader) → init_internal_functions l initial_functions ≡ ready l
unfolding init_internal_functions init_internal_functions_from_tool connected
init_internal_functions_lem l =
    let (found, table) = load_functions_lem l in
    elim (Bool-cases l.enable_libdl) [
      | inr off ↦ rw off
      | inl on ↦ elim (Bool-cases (exports_all l)) [
        | inl all ↦
            rw (on, all)
              (or_no_ops-loaded (load_functions l initial_functions) (found ∙ all)
                ∙ ap found_tool (table all))
        | inr missing ↦
            rw (on, missing)
              (or_no_ops-failed (load_functions l initial_functions) (found ∙ missing))
      ]
    ]

-- The later calls find the table filled.
init_internal_functions-ready : (l : Loader) → init_internal_functions l (ready l) ≡ ready l
unfolding init_internal_functions
init_internal_functions-ready l = ground arith

-- A call of the extractor.
pub data ToolCall : Type 0 where
  adds_metadata : Text → Text → ToolCall
  copies_functor : List ℕ → ToolCall
  copies_nvcc_lambda : List ℕ → List ℕ → ToolCall
  registers_scalar : ℕ → ToolCall
  registers_range : RangePolicyDesc → ToolCall
  registers_mdrange : MdRangePolicyDesc → ToolCall
  registers_team : TeamPolicyDesc → ToolCall
  asks : Text → ToolCall
  clears_views : ToolCall
  registers_view : ℕ → Text → ToolCall

-- The answer of a call that has none.
abbrev void : Option ((Unit {0}) × Program) → Option (Option Bool × Program)
void none = none
void (some (u, p)) = some (none, p)

abbrev answered : Option (Bool × Program) → Option (Option Bool × Program)
answered none = none
answered (some (b, p)) = some (some b, p)

pub perform : Loader → ToolCall → Program → Option (Option Bool × Program)
perform l (adds_metadata key value) p = void (Extract.add_metadata l key value p)
perform l (copies_functor bytes) p = void (Extract.copy_functor l bytes p)
perform l (copies_nvcc_lambda bytes inner) p = void (Extract.copy_nvcc_lambda l bytes inner p)
perform l (registers_scalar n) p = void (Extract.register_scalar_policy l n p)
perform l (registers_range d) p = void (Extract.register_range_policy l d p)
perform l (registers_mdrange d) p = void (Extract.register_mdrange_policy l d p)
perform l (registers_team d) p = void (Extract.register_team_policy l d p)
perform l (asks kernel_name) p = answered (Extract.next_invocation_will_dump l kernel_name p)
perform l clears_views p = void (Extract.clear_registered_views l p)
perform l (registers_view address space) p = void (Extract.register_view l address space p)

-- What the call means for a tool that is there.
pub hook : ToolCall → Hooks.CaptureState → Option Bool × Hooks.CaptureState
hook (adds_metadata key value) s = (none, Hooks.add_metadata (c_str key) value s)
hook (copies_functor bytes) s = (none, Hooks.copy_functor bytes s)
hook (copies_nvcc_lambda bytes inner) s = (none, Hooks.copy_nvcc_lambda bytes inner s)
hook (registers_scalar n) s = (none, Hooks.register_scalar_policy n s)
hook (registers_range d) s = (none, Hooks.register_range_policy d s)
hook (registers_mdrange d) s = (none, Hooks.register_mdrange_policy d s)
hook (registers_team d) s = (none, Hooks.register_team_policy d s)
hook (asks kernel_name) s = (
  some (Hooks.next_invocation_will_dump kernel_name s).0,
  (Hooks.next_invocation_will_dump kernel_name s).1,
)
hook clears_views s = (none, Hooks.clear_registered_views s)
hook (registers_view address space) s = (none, Hooks.register_view address space s)

-- The answer without a tool.
pub silent : ToolCall → Option Bool
silent (asks kernel_name) = some false
silent _ = none

-- What a call should come to: the hook of a tool that is connected, else the silent answer.
abbrev pub specified : Bool → ToolCall → Hooks.CaptureState → Option Bool × Hooks.CaptureState
specified true c s = hook c s
specified false c s = (silent c, s)

perform_lem :
    (l : Loader) (c : ToolCall) (f : Functions) (s : Hooks.CaptureState)
    → init_internal_functions l f ≡ ready l
    → perform l c (f, s)
      ≡ some ((specified (connected l) c s).0, (ready l, (specified (connected l) c s).1))
unfolding perform hook silent Extract.add_metadata Extract.copy_functor Extract.copy_nvcc_lambda
    Extract.register_scalar_policy Extract.register_range_policy Extract.register_mdrange_policy
    Extract.register_team_policy Extract.next_invocation_will_dump Extract.clear_registered_views
    Extract.register_view
perform_lem l (adds_metadata key value) f s e = rw e (ground arith)
perform_lem l (copies_functor bytes) f s e = rw e (ground arith)
perform_lem l (copies_nvcc_lambda bytes inner) f s e = rw e (ground arith)
perform_lem l (registers_scalar n) f s e = rw e (ground arith)
perform_lem l (registers_range d) f s e = rw e (ground arith)
perform_lem l (registers_mdrange d) f s e = rw e (ground arith)
perform_lem l (registers_team d) f s e = rw e (ground arith)
perform_lem l (asks kernel_name) f s e = rw e (ground arith)
perform_lem l clears_views f s e = rw e (ground arith)
perform_lem l (registers_view address space) f s e = rw e (ground arith)

abbrev and_answer :
    Option Bool → Option (List (Option Bool) × Program) → Option (List (Option Bool) × Program)
and_answer a none = none
and_answer a (some (rest, p)) = some (a ∷ rest, p)

abbrev and_then :
    Option (Option Bool × Program)
    → (Program → Option (List (Option Bool) × Program))
    → Option (List (Option Bool) × Program)
and_then none rest = none
and_then (some (a, p)) rest = and_answer a (rest p)

pub perform_all : Loader → List ToolCall → Program → Option (List (Option Bool) × Program)
perform_all l [] p = some ([], p)
perform_all l (c ∷ cs) p = and_then (perform l c p) (perform_all l cs)

pub specified_all :
    Bool → List ToolCall → Hooks.CaptureState → List (Option Bool) × Hooks.CaptureState
specified_all tool [] s = ([], s)
specified_all tool (c ∷ cs) s =
    let (a, s') = specified tool c s in
    let (rest, last) = specified_all tool cs s' in (a ∷ rest, last)

perform_all-ready :
    (l : Loader) (cs : List ToolCall) (s : Hooks.CaptureState)
    → perform_all l cs (ready l, s)
      ≡ some ((specified_all (connected l) cs s).0, (ready l, (specified_all (connected l) cs s).1))
unfolding perform_all specified_all
perform_all-ready l [] s = refl
perform_all-ready l (c ∷ cs) s = rw (
  perform_lem l c (ready l) s (init_internal_functions-ready l),
  perform_all-ready l cs (specified (connected l) c s).1,
)

-- From the start of a program on, any calls of the extractor answer and act as the hooks of the tool when all
-- ten functions are found, and else answer `false` and change nothing, also when some of the functions were
-- found. No call goes through a null pointer.
pub perform_all-refines :
    (l : Loader) (c : ToolCall) (cs : List ToolCall) (s : Hooks.CaptureState)
    → perform_all l (c ∷ cs) (initial_functions, s)
      ≡ some (
        (specified_all (connected l) (c ∷ cs) s).0,
        (ready l, (specified_all (connected l) (c ∷ cs) s).1),
      )
unfolding perform_all specified_all
perform_all-refines l c cs s = rw (
  perform_lem l c initial_functions s (init_internal_functions_lem l),
  perform_all-ready l cs (specified (connected l) c s).1,
)
