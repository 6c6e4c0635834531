-- ===== src/Capture/Kernels.antt =====
-- The life of a kernel in src/krepe/capture/kokkos_hooks.cpp: `begin_kernel`, `end_kernel`, the
-- calls of an instrumented program, and the state behind them. The dump writer and Kokkos's fence
-- act on a world `W`; the hooks get them as arguments. A hook is one step: what the source
-- interleaves is left to the order of the steps. The log lines are not modelled.
pub mod Selection
pub mod Lifetime
pub mod Exported
use kokkos_kernel_forge.Base.{
  ℕ, suc, ◌+◌, ◌%◌, ◌^◌, Bool, true, false, Option, none, some, List, [], ◌∷◌, ◌&&◌, not, nat_eq,
  is_empty, if◌then◌else◌,
}
use kokkos_kernel_forge.Base.Text.{Text, text_Eq}
use kokkos_kernel_forge.Base.Dict.{Dict, lookup, insert, erase}
use kokkos_kernel_forge.Capture.Tracker.{
  AllocationTracker, AllocationSnapshot, snapshot, empty, record_used_allocation,
  clear_used_allocations,
}
use kokkos_kernel_forge.Capture.Policy.{
  PolicyDesc, no_policy, scalar, range, mdrange, team, ScalarPolicyDesc, RangePolicyDesc,
  MdRangePolicyDesc, TeamPolicyDesc,
}
use kokkos_kernel_forge.Capture.Options.{
  DumpSelection, default_selection, label_or_unknown, should_dump_views_for_invocation, parse_args,
}

-- `ViewDumpResult`
pub record ViewDumpResult : Type 0 where
  pub ok : Bool
  pub filename : Text
  pub error : Text

pub record KernelState : Type 0 where
  pub device_id : ℕ
  pub invocation : ℕ
  pub dump_path : Text

-- The arguments of `create_kernel_dump`.
pub record KernelDump : Type 0 where
  pub input_snapshot : AllocationSnapshot
  pub functor_data : List ℕ
  pub nvcc_inner_lambda_data : List ℕ
  pub metadata : Dict Text Text
  pub policy : PolicyDesc
  pub label : Text
  pub kernel_id : ℕ
  pub kernel_invocation : ℕ

pub record Tools (W : Type 0) : Type 0 where
  pub has_compiler_plugins : Bool
  pub create_kernel_dump : KernelDump → W → ViewDumpResult × W
  pub append_kernel_output : AllocationSnapshot → Text → W → ViewDumpResult × W
  pub fence : ℕ → W → W

-- The globals of the hooks; `tool_fence` says whether Kokkos has provided its fence.
pub record CaptureState : Type 0 where
  pub next_kernel_id : ℕ
  pub kernel_states : Dict ℕ KernelState
  pub kernel_invocations : Dict Text ℕ
  pub tool_fence : Bool
  pub allocation_tracker : AllocationTracker
  pub functor_data : List ℕ
  pub nvcc_inner_lambda_data : List ℕ
  pub metadata : Dict Text Text
  pub policy : PolicyDesc
  pub selection : DumpSelection

abbrev pub initial : CaptureState
initial = record {
  next_kernel_id = 1;
  kernel_states = [];
  kernel_invocations = [];
  tool_fence = false;
  allocation_tracker = empty;
  functor_data = [];
  nvcc_inner_lambda_data = [];
  metadata = [];
  policy = no_policy;
  selection = default_selection;
}

abbrev pub or_zero : Option ℕ → ℕ
or_zero none = 0
or_zero (some n) = n

-- `kernel_invocations[label]`
abbrev pub invocations_of : CaptureState → Text → ℕ
invocations_of s label = or_zero (lookup label s.kernel_invocations)

-- `krepe_kernel_dump_next_invocation_will_dump`; `operator[]` makes an entry for the label.
unfoldable pub next_invocation_will_dump : Text → CaptureState → Bool × CaptureState
next_invocation_will_dump kernel_name s = (
  should_dump_views_for_invocation s.selection kernel_name
      ((invocations_of s kernel_name + 1) % 2 ^ 64),
  record s {
    kernel_invocations = insert kernel_name (invocations_of s kernel_name) s.kernel_invocations;
  },
)

-- The part of `begin_kernel` under the first lock, with the id of the kernel.
unfoldable pub register_kernel : Text → ℕ → CaptureState → CaptureState
register_kernel kernel_label device_id s =
    let invocation = (invocations_of s kernel_label + 1) % 2 ^ 64 in
    record s {
      next_kernel_id = (s.next_kernel_id + 1) % 2 ^ 64;
      kernel_invocations = insert kernel_label invocation s.kernel_invocations;
      kernel_states =
          insert s.next_kernel_id
            (record { device_id = device_id; invocation = invocation; dump_path = [] })
            s.kernel_states;
    }

-- `it->second.dump_path = result.filename` where the kernel is still there and the dump was written.
abbrev pub with_path : Text → Option KernelState → ℕ → Dict ℕ KernelState → Dict ℕ KernelState
with_path path none id states = states
with_path path (some k) id states = insert id (record k { dump_path = path }) states

unfoldable pub remember_dump : ViewDumpResult → ℕ → CaptureState → CaptureState
remember_dump result id s =
    if result.ok
    then record s {
      kernel_states = with_path result.filename (lookup id s.kernel_states) id s.kernel_states;
    }
    else s

module _ {W : Type 0} (tools : Tools W) where
  -- The call of the fence, if there is one.
  unfoldable pub fenced : Bool → ℕ → W → W
  fenced tool_fence device_id w = if tool_fence then tools.fence device_id w else w

  unfoldable pub dump_input_views :
      Text → ℕ → ℕ → CaptureState × W → ViewDumpResult × (CaptureState × W)
  dump_input_views label kernel_id invocation (s, w) =
      let (taken, tracker) = snapshot tools.has_compiler_plugins s.allocation_tracker in
      let (result, w') =
        tools.create_kernel_dump
          (record {
            input_snapshot = taken;
            functor_data = s.functor_data;
            nvcc_inner_lambda_data = s.nvcc_inner_lambda_data;
            metadata = s.metadata;
            policy = s.policy;
            label = label;
            kernel_id = kernel_id;
            kernel_invocation = invocation;
          })
          w in
      (result, (record s { allocation_tracker = tracker }, w'))

  unfoldable pub dump_output_views : Text → CaptureState × W → CaptureState × W
  dump_output_views dump_path (s, w) =
      let (taken, tracker) = snapshot tools.has_compiler_plugins s.allocation_tracker in
      (record s { allocation_tracker = tracker }, (tools.append_kernel_output taken dump_path w).1)

  -- What `begin_kernel` does for the kernel that is chosen.
  unfoldable pub dump_kernel : Text → ℕ → ℕ → ℕ → CaptureState × W → CaptureState × W
  unfolding fenced dump_input_views remember_dump
  dump_kernel label device_id id invocation (s, w) =
      let (result, (s', w')) =
        dump_input_views label id invocation (s, fenced s.tool_fence device_id w) in
      (remember_dump result id s', w')

  -- The id is the result, which Kokkos hands back to `end_kernel`.
  unfoldable pub begin_kernel : Option Text → ℕ → CaptureState × W → ℕ × (CaptureState × W)
  unfolding register_kernel dump_kernel
  begin_kernel label device_id (s, w) =
      let kernel_label = label_or_unknown label in
      let invocation = (invocations_of s kernel_label + 1) % 2 ^ 64 in
      let registered = register_kernel kernel_label device_id s in
      (
        s.next_kernel_id,
        if should_dump_views_for_invocation s.selection kernel_label invocation
            then dump_kernel kernel_label device_id s.next_kernel_id invocation (registered, w)
            else (registered, w),
      )

  -- The output is dumped for a kernel whose input was.
  unfoldable pub finish_kernel : ℕ → Option KernelState → CaptureState × W → CaptureState × W
  unfolding fenced dump_output_views
  finish_kernel kernel_id none (s, w) = (s, w)
  finish_kernel kernel_id (some k) (s, w) =
      let erased = record s { kernel_states = erase kernel_id s.kernel_states } in
      if is_empty k.dump_path
      then (erased, w)
      else dump_output_views k.dump_path (erased, fenced s.tool_fence k.device_id w)

  unfoldable pub end_kernel : ℕ → CaptureState × W → CaptureState × W
  unfolding finish_kernel
  end_kernel kernel_id (s, w) = finish_kernel kernel_id (lookup kernel_id s.kernel_states) (s, w)

-- The calls of an instrumented program.
unfoldable pub add_metadata : Text → Text → CaptureState → CaptureState
add_metadata key value s = record s { metadata = insert key value s.metadata }

unfoldable pub copy_functor : List ℕ → CaptureState → CaptureState
copy_functor bytes s = record s { functor_data = bytes; nvcc_inner_lambda_data = [] }

unfoldable pub copy_nvcc_lambda : List ℕ → List ℕ → CaptureState → CaptureState
copy_nvcc_lambda bytes inner s = record s { functor_data = bytes; nvcc_inner_lambda_data = inner }

unfoldable pub register_scalar_policy : ℕ → CaptureState → CaptureState
register_scalar_policy n s = record s { policy = scalar (record { end = n }) }

unfoldable pub register_range_policy : RangePolicyDesc → CaptureState → CaptureState
register_range_policy desc s = record s { policy = range desc }

unfoldable pub register_mdrange_policy : MdRangePolicyDesc → CaptureState → CaptureState
register_mdrange_policy desc s = record s { policy = mdrange desc }

unfoldable pub register_team_policy : TeamPolicyDesc → CaptureState → CaptureState
register_team_policy desc s = record s { policy = team desc }

unfoldable pub clear_registered_views : CaptureState → CaptureState
clear_registered_views s = record s {
  allocation_tracker = clear_used_allocations s.allocation_tracker;
}

unfoldable pub register_view : ℕ → Text → CaptureState → CaptureState
register_view view_data space s = record s {
  allocation_tracker = record_used_allocation space view_data s.allocation_tracker;
}

unfoldable pub parse_tool_args : List (Option Text) → CaptureState → CaptureState
parse_tool_args argv s = record s { selection = parse_args s.selection argv }

unfoldable pub provide_tool_programming_interface : Bool → CaptureState → CaptureState
provide_tool_programming_interface has_fence s = record s { tool_fence = has_fence }
