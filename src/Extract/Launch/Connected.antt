-- ===== src/Extract/Launch/Connected.antt =====
-- A launch of a program that is connected to the tool.
use kokkos_kernel_forge.Base.{
  ℕ, ◌+◌, ◌%◌, ◌^◌, ◌≡◌, ◌∙◌, refl, ap, Bool, true, false, Option, none, some, List, [], ◌∷◌,
  nat_eq, arith, if◌then◌else◌, Bool-cases, inl, inr, ◌⊎◌,
}
use kokkos_kernel_forge.Base.Text.{Text, text_eq_iff, text_Eq}
use kokkos_kernel_forge.Base.Dict.{Dict, lookup, lookup-insert}
use kokkos_kernel_forge.Capture.Tracker.{snapshot}
use kokkos_kernel_forge.Capture.Policy.{PolicyDesc}
use kokkos_kernel_forge.Capture.Options.{label_or_unknown, should_dump_views_for_invocation}
use kokkos_kernel_forge.Capture.Kernels as Hooks
use kokkos_kernel_forge.Capture.Kernels.{
  Tools, KernelDump, CaptureState, invocations_of, or_zero, fenced, begin_kernel, register_kernel,
}
use kokkos_kernel_forge.Capture.Kernels.Exported.{kokkosp_end_parallel_for}
use kokkos_kernel_forge.Extract.Bounds as Bounds
use kokkos_kernel_forge.Extract.Bounds.{KokkosPolicy, count, range, mdrange, team}
use kokkos_kernel_forge.Extract.Functions.{
  from_tool, Functions, all_pointers, initial_functions, Loader, c_str, init_internal_functions,
  next_invocation_will_dump, copy_functor, copy_nvcc_lambda, register_scalar_policy,
  register_range_policy, register_mdrange_policy, register_team_policy, clear_registered_views,
  register_view,
}
use kokkos_kernel_forge.Extract.Functions.Refines.{connected, init_internal_functions_lem}
use kokkos_kernel_forge.Extract.Launch.{
  Functor, Kokkos, register_bounds, copy_bytes, register_views, replay_functor, begin_parallel_for,
  kokkos_parallel_for, parallel_for,
}
use kokkos_kernel_forge.Replay.Policy.{ExecSpace}

-- The table of a connected program after the first call.
abbrev pub loaded : Functions
loaded = all_pointers from_tool (some true)

abbrev pub with_bytes : Functor → CaptureState → CaptureState
with_bytes functor s = record s {
  functor_data = functor.bytes;
  nvcc_inner_lambda_data = inner functor.host_lambda;
}
  where
    inner : Option (List ℕ) → List ℕ
    inner none = []
    inner (some bytes) = bytes

pub with_views : List (ℕ × Text) → CaptureState → CaptureState
with_views [] s = s
with_views ((address, space) ∷ views) s = with_views views (Hooks.register_view address space s)

abbrev pub with_functor : Bool → Functor → CaptureState → CaptureState
with_functor false functor s = with_bytes functor s
with_functor true functor s =
    with_bytes functor (with_views functor.views (Hooks.clear_registered_views s))

-- The state of the tool when Kokkos is called: the policy, then the views and the bytes.
abbrev pub registered :
    (ExecSpace → Text) → Bool → KokkosPolicy → Functor → CaptureState → CaptureState
registered space_name plugins policy functor s =
    with_functor plugins functor (record s { policy = Bounds.register_bounds space_name policy })

register_bounds-loaded :
    (l : Loader) (space_name : ExecSpace → Text) (policy : KokkosPolicy) (s : CaptureState)
    → register_bounds l space_name policy (loaded, s)
      ≡ some (tt, (loaded, record s { policy = Bounds.register_bounds space_name policy }))
unfolding register_bounds Bounds.register_bounds register_scalar_policy register_range_policy
    register_mdrange_policy register_team_policy init_internal_functions
    Hooks.register_scalar_policy Hooks.register_range_policy Hooks.register_mdrange_policy
    Hooks.register_team_policy
register_bounds-loaded l space_name (count n) s = refl
register_bounds-loaded l space_name (range p) s = refl
register_bounds-loaded l space_name (mdrange p) s = refl
register_bounds-loaded l space_name (team p) s = refl

register_views-loaded :
    (l : Loader) (views : List (ℕ × Text)) (s : CaptureState)
    → register_views l views (loaded, s) ≡ some (tt, (loaded, with_views views s))
unfolding register_views with_views register_view init_internal_functions
register_views-loaded l [] s = refl
register_views-loaded l ((address, space) ∷ views) s =
    register_views-loaded l views (Hooks.register_view address space s)

copy_bytes-loaded :
    (l : Loader) (functor : Functor) (s : CaptureState)
    → copy_bytes l functor.bytes functor.host_lambda (loaded, s)
      ≡ some (tt, (loaded, with_bytes functor s))
copy_bytes-loaded l functor s = copied functor.bytes functor.host_lambda s
  where
    copied :
        (bytes : List ℕ) (host_lambda : Option (List ℕ)) (s : CaptureState)
        → copy_bytes l bytes host_lambda (loaded, s)
          ≡ some (
            tt,
            (
              loaded,
              with_bytes (record { bytes = bytes; host_lambda = host_lambda; views = [] }) s,
            ),
          )
    copied bytes none s =
        unfold copy_bytes copy_functor init_internal_functions Hooks.copy_functor in refl
    copied bytes (some inner) s =
        unfold copy_bytes copy_nvcc_lambda init_internal_functions Hooks.copy_nvcc_lambda in refl

replay_functor-loaded :
    (l : Loader) (plugins : Bool) (functor : Functor) (s : CaptureState)
    → replay_functor l plugins functor (loaded, s)
      ≡ some (tt, (loaded, with_functor plugins functor s))
unfolding replay_functor clear_registered_views init_internal_functions
replay_functor-loaded l false functor s = copy_bytes-loaded l functor s
replay_functor-loaded l true functor s =
    rw (register_views-loaded l functor.views (Hooks.clear_registered_views s))
      (copy_bytes-loaded l functor (with_views functor.views (Hooks.clear_registered_views s)))

-- The answer of the tool to the question of `parallel_for`, and its state then.
abbrev pub asked : Text → CaptureState → Bool × CaptureState
asked label s = Hooks.next_invocation_will_dump (c_str label) s

-- The state that a launch of a connected program hands to Kokkos.
abbrev pub launch_state :
    (ExecSpace → Text) → Bool → Text → KokkosPolicy → Functor → CaptureState → CaptureState
launch_state space_name plugins label policy functor s =
    if (asked label s).0
    then registered space_name plugins policy functor (asked label s).1
    else (asked label s).1

first_or_later :
    (l : Loader) (f : Functions)
    → connected l ≡ true
    → (f ≡ initial_functions) ⊎ (f ≡ loaded)
    → init_internal_functions l f ≡ loaded
first_or_later l f on (inl first) = rw first (init_internal_functions_lem l ∙ rw on)
first_or_later l f on (inr later) = rw later (unfold init_internal_functions in refl)

-- A launch of a connected program, the first or a later one: `parallel_for` registers the policy, the views and the functor
-- exactly when the tool will dump this kernel, then launches it.
pub parallel_for-connected :
    {W : Type 0} (l : Loader) (tools : Tools W) (k : Kokkos W) (plugins : Bool) (label : Text)
    (policy : KokkosPolicy) (functor : Functor) (f : Functions) (s : CaptureState) (w : W)
    → connected l ≡ true
    → (f ≡ initial_functions) ⊎ (f ≡ loaded)
    → parallel_for l tools k plugins label policy functor ((f, s), w) ≡ (
        let (s', w') =
          kokkos_parallel_for l tools k label
            (launch_state k.space_name plugins label policy functor s, w) in
        some ((loaded, s'), w'))
unfolding parallel_for next_invocation_will_dump
parallel_for-connected l tools k plugins label policy functor f s w on known =
    let table : init_internal_functions l f ≡ loaded = first_or_later l f on known in
    rw table (elim (Bool-cases (asked label s).0) [
      | inr skipped ↦ rw skipped
      | inl dumped ↦ rw (
        dumped,
        register_bounds-loaded l k.space_name policy (asked label s).1,
        replay_functor-loaded l plugins functor _,
      )
    ])

with_views-frame :
    (views : List (ℕ × Text)) (s : CaptureState)
    → ((with_views views s).selection ≡ s.selection)
      × ((with_views views s).kernel_invocations ≡ s.kernel_invocations)
      × ((with_views views s).next_kernel_id ≡ s.next_kernel_id)
      × ((with_views views s).metadata ≡ s.metadata)
      × ((with_views views s).policy ≡ s.policy)
      × ((with_views views s).tool_fence ≡ s.tool_fence)
unfolding with_views Hooks.register_view
with_views-frame [] s = (refl, refl, refl, refl, refl, refl)
with_views-frame ((address, space) ∷ views) s =
    with_views-frame views (Hooks.register_view address space s)

-- The dump that a selected launch asks for, as the tool's state before the launch gives it.
abbrev pub dump_of :
    Bool → (ExecSpace → Text) → Bool → Text → KokkosPolicy → Functor → CaptureState → KernelDump
dump_of has_plugins space_name plugins label policy functor s =
    let s' = registered space_name plugins policy functor (asked label s).1 in
    record {
      input_snapshot = (snapshot has_plugins s'.allocation_tracker).0;
      functor_data = functor.bytes;
      nvcc_inner_lambda_data = s'.nvcc_inner_lambda_data;
      metadata = s.metadata;
      policy = Bounds.register_bounds space_name policy;
      label = c_str label;
      kernel_id = s.next_kernel_id;
      kernel_invocation = (invocations_of s (c_str label) + 1) % 2 ^ 64;
    }

-- What the registration leaves as it was, and what it sets.
record Prepared (policy : PolicyDesc) (bytes : List ℕ) (s s' : CaptureState) : Type 0 where
  same_selection : s'.selection ≡ s.selection
  same_invocations : s'.kernel_invocations ≡ s.kernel_invocations
  same_id : s'.next_kernel_id ≡ s.next_kernel_id
  same_metadata : s'.metadata ≡ s.metadata
  same_fence : s'.tool_fence ≡ s.tool_fence
  set_policy : s'.policy ≡ policy
  set_bytes : s'.functor_data ≡ bytes

registered-Prepared :
    (space_name : ExecSpace → Text) (plugins : Bool) (policy : KokkosPolicy) (functor : Functor)
    (s : CaptureState)
    → Prepared
        (Bounds.register_bounds space_name policy)
        functor.bytes
        s
        (registered space_name plugins policy functor s)
registered-Prepared space_name false policy functor s = record {
  same_selection = refl;
  same_invocations = refl;
  same_id = refl;
  same_metadata = refl;
  same_fence = refl;
  set_policy = refl;
  set_bytes = refl;
}
registered-Prepared space_name true policy functor s =
    let cleared =
      Hooks.clear_registered_views
        (record s { policy = Bounds.register_bounds space_name policy }) in
    let frame = with_views-frame functor.views cleared in
    unfold Hooks.clear_registered_views in
    record {
      same_selection = frame.0;
      same_invocations = frame.1;
      same_id = frame.2;
      same_metadata = frame.3;
      same_fence = frame.5;
      set_policy = frame.4;
      set_bytes = refl;
    }

-- The dump of a chosen kernel, as it stands in the state of the tool.
begin_kernel-dumps :
    {W : Type 0} (tools : Tools W) (label : Text) (d : ℕ) (s : CaptureState) (w : W)
    → should_dump_views_for_invocation s.selection label ((invocations_of s label + 1) % 2 ^ 64)
      ≡ true
    → (begin_kernel tools (some label) d (s, w)).1.1
      ≡ (tools.create_kernel_dump
          (record {
            input_snapshot = (snapshot tools.has_compiler_plugins s.allocation_tracker).0;
            functor_data = s.functor_data;
            nvcc_inner_lambda_data = s.nvcc_inner_lambda_data;
            metadata = s.metadata;
            policy = s.policy;
            label = label;
            kernel_id = s.next_kernel_id;
            kernel_invocation = (invocations_of s label + 1) % 2 ^ 64;
          })
          (fenced tools s.tool_fence d w)).1
unfolding begin_kernel Hooks.dump_kernel Hooks.dump_input_views register_kernel label_or_unknown
begin_kernel-dumps tools label d s w chosen = rw chosen

same_count :
    (s : CaptureState) (label : Text)
    → invocations_of (Hooks.next_invocation_will_dump label s).1 label ≡ invocations_of s label
unfolding Hooks.next_invocation_will_dump
same_count s label = rw lookup-insert (ground (arith, text_eq_iff label label))

begin_parallel_for-dumps :
    {W : Type 0} (l : Loader) (tools : Tools W) (k : Kokkos W) (plugins : Bool) (label : Text)
    (policy : KokkosPolicy) (functor : Functor) (s : CaptureState) (w : W)
    → k.hook_label label ≡ some (c_str label)
    → (asked label s).0 ≡ true
    → (begin_parallel_for l tools k label
        (launch_state k.space_name plugins label policy functor s, w)).1.1
      ≡ (tools.create_kernel_dump
          (dump_of tools.has_compiler_plugins k.space_name plugins label policy functor s)
          (fenced tools s.tool_fence k.device_id w)).1
unfolding begin_parallel_for Hooks.next_invocation_will_dump
begin_parallel_for-dumps l tools k plugins label policy functor s w named chosen =
    let s₁ = registered k.space_name plugins policy functor (asked label s).1 in
    let p = registered-Prepared k.space_name plugins policy functor (asked label s).1 in
    let count : invocations_of s₁ (c_str label) ≡ invocations_of s (c_str label) =
      ap (λ (m : Dict Text ℕ). or_zero (lookup (c_str label) m)) p.same_invocations
      ∙ same_count s (c_str label) in
    let still : should_dump_views_for_invocation s₁.selection (c_str label)
          ((invocations_of s₁ (c_str label) + 1) % 2 ^ 64)
        ≡ true =
      rw (p.same_selection, count) chosen in
    rw (named, chosen)
      (begin_kernel-dumps tools (c_str label) k.device_id s₁ w still
        ∙ rw (p.set_bytes, p.same_metadata, p.set_policy, p.same_id, count, p.same_fence))

-- The number of the kernel is the one that the tool has next.
begin_parallel_for-id :
    {W : Type 0} (l : Loader) (tools : Tools W) (k : Kokkos W) (plugins : Bool) (label : Text)
    (policy : KokkosPolicy) (functor : Functor) (s : CaptureState) (w : W)
    → (asked label s).0 ≡ true
    → (begin_parallel_for l tools k label
        (launch_state k.space_name plugins label policy functor s, w)).0
      ≡ s.next_kernel_id
unfolding begin_parallel_for begin_kernel Hooks.next_invocation_will_dump
begin_parallel_for-id l tools k plugins label policy functor s w chosen =
    let p = registered-Prepared k.space_name plugins policy functor (asked label s).1 in
    rw chosen p.same_id

-- A launch of a connected program, the first or a later one, that the tool answers with yes writes one dump before the
-- kernel runs: `parallel_for` returns, with the policy, the functor and the views of this launch in the dump, under the
-- label, id and invocation that the tool has for it, behind the fence if there is one; then the kernel runs, and
-- its end is told to the tool under that id. (Kokkos hands its label to the tool.)
pub parallel_for-dumps :
    {W : Type 0} (l : Loader) (tools : Tools W) (k : Kokkos W) (plugins : Bool) (label : Text)
    (policy : KokkosPolicy) (functor : Functor) (f : Functions) (s : CaptureState) (w : W)
    → connected l ≡ true
    → (f ≡ initial_functions) ⊎ (f ≡ loaded)
    → k.hook_label label ≡ some (c_str label)
    → (asked label s).0 ≡ true
    → let dumped =
        (tools.create_kernel_dump
          (dump_of tools.has_compiler_plugins k.space_name plugins label policy functor s)
          (fenced tools s.tool_fence k.device_id w)).1 in
      (s' : CaptureState) × (parallel_for l tools k plugins label policy functor ((f, s), w) ≡ (
        let (t, v) = kokkosp_end_parallel_for tools s.next_kernel_id (s', k.execute dumped) in
        some ((loaded, t), v)))
parallel_for-dumps l tools k plugins label policy functor f s w on known named chosen =
    let launched = launch_state k.space_name plugins label policy functor s in
    (
      (begin_parallel_for l tools k label (launched, w)).1.0,
      parallel_for-connected l tools k plugins label policy functor f s w on known
          ∙ unfold kokkos_parallel_for in
            rw
              (
                begin_parallel_for-dumps l tools k plugins label policy functor s w named chosen,
                begin_parallel_for-id l tools k plugins label policy functor s w chosen,
              )
              refl,
    )
