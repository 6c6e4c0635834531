-- ===== src/Capture/Kernels/Lifetime.antt =====
-- From the start of a dumped kernel to its end.
use kokkos_kernel_forge.Base.{
  ℕ, ◌+◌, ◌%◌, ◌^◌, ◌≤◌, ◌<◌, ◌≡◌, ◌≢◌, ◌∙◌, refl, inl, inr, true, false, Option, some, List, [],
  ◌∷◌, All, length, nat_eq, is_empty, arith, if◌then◌else◌, Bool-cases, Option-cases,
}
use kokkos_kernel_forge.Base.Text.{Text}
use kokkos_kernel_forge.Base.Dict.{lookup, erase, lookup-insert, lookup-erase}
use kokkos_kernel_forge.Capture.Tracker.{snapshot}
use kokkos_kernel_forge.Capture.Options.{label_or_unknown, should_dump_views_for_invocation}
use kokkos_kernel_forge.Capture.Kernels.{
  Tools, CaptureState, KernelState, ViewDumpResult, invocations_of, next_invocation_will_dump,
  register_kernel, fenced, remember_dump, dump_input_views, dump_output_views, dump_kernel,
  begin_kernel, end_kernel,
}
use kokkos_kernel_forge.Capture.Kernels.Selection.{
  Event, begins, ends, asks, happens, run, begin_kernel_lem, begin_kernel-frame, end_kernel-frame,
}

-- The number that the next kernel of a name gets.
abbrev pub next_number : CaptureState → Text → ℕ
next_number s l = (invocations_of s l + 1) % 2 ^ 64

-- The next kernel with this label is the one to dump.
abbrev pub IsChosen : CaptureState → Option Text → Type 0
IsChosen s label =
    should_dump_views_for_invocation s.selection (label_or_unknown label)
      (next_number s (label_or_unknown label))
    ≡ true

-- The event does not end the kernel.
abbrev pub Spares : ℕ → Event → Type 0
Spares id (begins label d) = Unit
Spares id (ends k) = k ≢ id
Spares id (asks label) = Unit

abbrev pub state_of : CaptureState → ℕ → Option KernelState
state_of s id = lookup id s.kernel_states

is_empty-of_ne : (s : Text) → s ≢ [] → is_empty s ≡ false
is_empty-of_ne [] h = absurd (h refl)
is_empty-of_ne (c ∷ s) h = refl

state-register_kernel :
    (l : Text) (d : ℕ) (s : CaptureState) (id : ℕ)
    → id < s.next_kernel_id
    → state_of (register_kernel l d s) id ≡ state_of s id
unfolding register_kernel
state-register_kernel l d s id h = rw lookup-insert (ground arith)

state-remember_dump :
    (r : ViewDumpResult) (k : ℕ) (s : CaptureState) (id : ℕ)
    → id < k
    → state_of (remember_dump r k s) id ≡ state_of s id
unfolding remember_dump
state-remember_dump r k s id h = elim (Bool-cases r.ok) [
  | inr e ↦ rw e
  | inl e ↦ elim (Option-cases (lookup k s.kernel_states)) [
    | inl n ↦ rw (e, n)
    | inr (x, n) ↦ rw (e, n, lookup-insert) (ground arith)
  ]
]

remembered :
    (r : ViewDumpResult) (id : ℕ) (s : CaptureState) (k : KernelState)
    → state_of s id ≡ some k
    → state_of (remember_dump r id s) id
      ≡ some (record k { dump_path = if r.ok then r.filename else k.dump_path })
unfolding remember_dump
remembered r id s k at = elim (Bool-cases r.ok) [
  | inl e ↦ rw (e, at, lookup-insert) (ground arith)
  | inr e ↦ rw (e, at)
]

state-registered :
    (l : Text) (d : ℕ) (s : CaptureState)
    → state_of (register_kernel l d s) s.next_kernel_id
      ≡ some (record { device_id = d; invocation = next_number s l; dump_path = [] })
unfolding register_kernel
state-registered l d s = rw lookup-insert (ground arith)

module _ {W : Type 0} (tools : Tools W) where
  state-dump_kernel :
      (l : Text) (d k invocation : ℕ) (s : CaptureState) (w : W) (id : ℕ)
      → id < k
      → state_of (dump_kernel tools l d k invocation (s, w)).0 id ≡ state_of s id
  unfolding dump_kernel dump_input_views
  state-dump_kernel l d k invocation s w id h =
      state-remember_dump
        (dump_input_views tools l k invocation (s, fenced tools s.tool_fence d w)).0 k _ id h

  state-begin_kernel :
      (label : Option Text) (d : ℕ) (s : CaptureState) (w : W) (id : ℕ)
      → id < s.next_kernel_id
      → state_of (happens tools (begins label d) (s, w)).0 id ≡ state_of s id
  unfolding happens
  state-begin_kernel label d s w id h =
      let l = label_or_unknown label in
      let n = (invocations_of s l + 1) % 2 ^ 64 in
      rw begin_kernel_lem (elim (Bool-cases (should_dump_views_for_invocation s.selection l n)) [
        | inl e ↦ rw e (
            state-dump_kernel l d s.next_kernel_id n (register_kernel l d s) w id h
            ∙ state-register_kernel l d s id h)
        | inr e ↦ rw e (state-register_kernel l d s id h)
      ])

  state-end_kernel :
      (k : ℕ) (s : CaptureState) (w : W) (id : ℕ)
      → k ≢ id
      → state_of (happens tools (ends k) (s, w)).0 id ≡ state_of s id
  unfolding happens end_kernel
  state-end_kernel k s w id h = elim (Option-cases (lookup k s.kernel_states)) [
    | inl e ↦ rw e
    | inr (x, e) ↦ rw e (elim (Bool-cases (is_empty x.dump_path)) [
      | inl p ↦ rw (p, lookup-erase) (ground arith)
      | inr p ↦ rw (p, lookup-erase) (ground arith)
    ])
  ]

  end_kernel-dumped :
      (id : ℕ) (s : CaptureState) (w : W) (k : KernelState)
      → state_of s id ≡ some k
      → k.dump_path ≢ []
      → end_kernel tools id (s, w)
        ≡ dump_output_views tools k.dump_path (
          record s { kernel_states = erase id s.kernel_states },
          fenced tools s.tool_fence k.device_id w,
        )
  unfolding end_kernel
  end_kernel-dumped id s w k at path = rw (at, is_empty-of_ne k.dump_path path)

  state-happens :
      (e : Event) (s : CaptureState) (w : W) (id : ℕ)
      → id < s.next_kernel_id
      → s.next_kernel_id + 1 < 2 ^ 64
      → Spares id e
      → (state_of (happens tools e (s, w)).0 id ≡ state_of s id)
        × (s.next_kernel_id ≤ (happens tools e (s, w)).0.next_kernel_id)
        × ((happens tools e (s, w)).0.next_kernel_id ≤ s.next_kernel_id + 1)
  state-happens (begins label d) s w id h b spares = (
    state-begin_kernel label d s w id h,
    unfold happens in omega (arith, (begin_kernel-frame tools label d s w []).2),
    unfold happens in omega (arith, (begin_kernel-frame tools label d s w []).2),
  )
  state-happens (ends k) s w id h b spares = (
    state-end_kernel k s w id spares,
    unfold happens in omega (arith, (end_kernel-frame tools k s w).2),
    unfold happens in omega (arith, (end_kernel-frame tools k s w).2),
  )
  state-happens (asks l) s w id h b spares =
      unfold happens next_invocation_will_dump in (refl, omega arith, omega arith)

  state-run :
      (es : List Event) (s : CaptureState) (w : W) (id : ℕ)
      → id < s.next_kernel_id
      → s.next_kernel_id + length es < 2 ^ 64
      → All (Spares id) es
      → state_of (run tools es (s, w)).0 id ≡ state_of s id
  unfolding run
  state-run [] s w id h b spares = refl
  state-run (e ∷ es) s w id h b spares =
      let one = state-happens e s w id h (omega arith) spares.0 in
      let (s', w') = happens tools e (s, w) in
      state-run es s' w' id (omega (arith, one)) (omega (arith, one)) spares.1 ∙ one.0

  end_kernel-undumped :
      (id : ℕ) (s : CaptureState) (w : W) (k : KernelState)
      → state_of s id ≡ some k
      → k.dump_path ≡ []
      → end_kernel tools id (s, w) ≡ (record s { kernel_states = erase id s.kernel_states }, w)
  unfolding end_kernel
  end_kernel-undumped id s w k at path = rw (at, path)

  -- The result of the dump that `begin_kernel` makes of a chosen kernel.
  abbrev pub dump_result : Text → ℕ → CaptureState → W → ViewDumpResult
  dump_result l d s w =
      (dump_input_views tools l s.next_kernel_id (next_number s l)
        (register_kernel l d s, fenced tools s.tool_fence d w)).0

  -- What the hooks then remember of the kernel.
  abbrev dumped_state : Text → ℕ → CaptureState → W → KernelState
  dumped_state l d s w = record {
    device_id = d;
    invocation = next_number s l;
    dump_path = if (dump_result l d s w).ok then (dump_result l d s w).filename else [];
  }

  state-dumped :
      (l : Text) (d : ℕ) (s : CaptureState) (w : W)
      → state_of
          (dump_kernel tools l d s.next_kernel_id (next_number s l) (register_kernel l d s, w)).0
          s.next_kernel_id
        ≡ some (dumped_state l d s w)
  unfolding dump_kernel register_kernel
  state-dumped l d s w =
      remembered (dump_result l d s w) s.next_kernel_id _
        (record { device_id = d; invocation = next_number s l; dump_path = [] })
        (state-registered l d s)

  state-begin_dumped :
      (label : Option Text) (d : ℕ) (s : CaptureState) (w : W)
      → IsChosen s label
      → state_of (begin_kernel tools label d (s, w)).1.0 s.next_kernel_id
        ≡ some (dumped_state (label_or_unknown label) d s w)
  state-begin_dumped label d s w chosen =
      rw (begin_kernel_lem, chosen) (state-dumped (label_or_unknown label) d s w)

  -- The state of the kernel after it began and others did.
  state-later :
      (label : Option Text) (d : ℕ) (s : CaptureState) (w : W) (es : List Event)
      → IsChosen s label
      → s.next_kernel_id + 1 + length es < 2 ^ 64
      → All (Spares s.next_kernel_id) es
      → state_of (run tools es (begin_kernel tools label d (s, w)).1).0 s.next_kernel_id
        ≡ some (dumped_state (label_or_unknown label) d s w)
  state-later label d s w es chosen bound spares =
      let next = (begin_kernel-frame tools label d s w []).2 in
      let (s', w') = (begin_kernel tools label d (s, w)).1 in
      state-run es s' w' s.next_kernel_id (omega (arith, next)) (omega (arith, next)) spares
      ∙ state-begin_dumped label d s w chosen

  -- A kernel is chosen and its input is written to a file. Then, whatever other kernels begin and
  -- end before it does, its end calls the fence for the kernel's device if there is
  -- one, then takes a snapshot of the tracker and appends it to that file, and forgets the kernel. (With fewer than
  -- 2 ^ 64 kernels.)
  pub end_kernel-appends :
      (label : Option Text) (d : ℕ) (s : CaptureState) (w : W) (es : List Event)
      → IsChosen s label
      → (dump_result (label_or_unknown label) d s w).ok ≡ true
      → (dump_result (label_or_unknown label) d s w).filename ≢ []
      → s.next_kernel_id + 1 + length es < 2 ^ 64
      → All (Spares s.next_kernel_id) es
      → let (s', w') = run tools es (begin_kernel tools label d (s, w)).1 in
        end_kernel tools s.next_kernel_id (s', w') ≡ (
          record s' {
            kernel_states = erase s.next_kernel_id s'.kernel_states;
            allocation_tracker = (snapshot tools.has_compiler_plugins s'.allocation_tracker).1;
          },
          (tools.append_kernel_output
              (snapshot tools.has_compiler_plugins s'.allocation_tracker).0
              (dump_result (label_or_unknown label) d s w).filename
              (if s'.tool_fence then tools.fence d w' else w')).1,
        )
  unfolding dump_output_views fenced
  end_kernel-appends label d s w es chosen written path bound spares =
      let at = state-later label d s w es chosen bound spares in
      let (s', w') = run tools es (begin_kernel tools label d (s, w)).1 in
      rw (end_kernel-dumped s.next_kernel_id s' w' _ at (rw written path), written)

  -- A kernel is chosen and the dump of its input fails. Then, whatever other kernels begin and end
  -- before it does, its end forgets the kernel, writes nothing and calls no fence. (With fewer than 2 ^ 64
  -- kernels.)
  pub end_kernel-failed :
      (label : Option Text) (d : ℕ) (s : CaptureState) (w : W) (es : List Event)
      → IsChosen s label
      → (dump_result (label_or_unknown label) d s w).ok ≡ false
      → s.next_kernel_id + 1 + length es < 2 ^ 64
      → All (Spares s.next_kernel_id) es
      → let (s', w') = run tools es (begin_kernel tools label d (s, w)).1 in
        end_kernel tools s.next_kernel_id (s', w')
        ≡ (record s' { kernel_states = erase s.next_kernel_id s'.kernel_states }, w')
  end_kernel-failed label d s w es chosen failed bound spares =
      let at = state-later label d s w es chosen bound spares in
      let (s', w') = run tools es (begin_kernel tools label d (s, w)).1 in
      end_kernel-undumped s.next_kernel_id s' w' _ at (rw failed)
