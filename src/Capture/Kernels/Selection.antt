-- ===== src/Capture/Kernels/Selection.antt =====
-- Which invocation of a kernel is dumped.
use kokkos_kernel_forge.Base.{
  ℕ, suc, ◌+◌, ◌%◌, ◌^◌, ◌<◌, ◌≡◌, ◌≢◌, ◌↔◌, ◌∙◌, refl, true, Option, some, List, [], ◌∷◌, ◌==◌,
  arith, if◌then◌else◌, Bool, Bool-cases, inl, inr,
}
use kokkos_kernel_forge.Base.Text.{Text, text_Eq, text_eq_iff}
use kokkos_kernel_forge.Base.Dict.{lookup, lookup-insert}
use kokkos_kernel_forge.Capture.Options.{
  DumpSelection, label_or_unknown, should_dump_views_for_invocation, should_dump_iff,
}
use kokkos_kernel_forge.Capture.Kernels.{
  Tools, CaptureState, or_zero, invocations_of, next_invocation_will_dump, register_kernel,
  dump_kernel, begin_kernel, end_kernel, initial, KernelDump, fenced, dump_input_views,
}

-- What Kokkos and an instrumented program do, as far as kernels go.
pub data Event : Type 0 where
  begins : Option Text → ℕ → Event
  ends : ℕ → Event
  asks : Text → Event

invocations-register_kernel :
    (l : Text) (d : ℕ) (s : CaptureState) (k : Text)
    → invocations_of (register_kernel l d s) k
      ≡ (if l == k then (invocations_of s l + 1) % 2 ^ 64 else invocations_of s k)
unfolding register_kernel
invocations-register_kernel l d s k = rw lookup-insert (ground arith)

invocations-next :
    (l : Text) (s : CaptureState) (k : Text)
    → invocations_of (next_invocation_will_dump l s).1 k ≡ invocations_of s k
unfolding next_invocation_will_dump
invocations-next l s k = rw lookup-insert (ground (arith, text_eq_iff l k))

pub begin_kernel_lem :
    {W : Type 0} (tools : Tools W) (label : Option Text) (d : ℕ) (s : CaptureState) (w : W)
    → (begin_kernel tools label d (s, w)).1 ≡ (
        let k = label_or_unknown label in
        let invocation = (invocations_of s k + 1) % 2 ^ 64 in
        if should_dump_views_for_invocation s.selection k invocation
        then dump_kernel tools k d s.next_kernel_id invocation (register_kernel k d s, w)
        else (register_kernel k d s, w))
unfolding begin_kernel
begin_kernel_lem tools label d s w = refl

-- The question of an instrumented program is answered as the next kernel of that name behaves: it
-- dumps when the answer is true and writes nothing when it is false.
pub begin_kernel-next_invocation_will_dump :
    {W : Type 0} (tools : Tools W) (k : Text) (d : ℕ) (s : CaptureState) (w : W)
    → let (answer, s') = next_invocation_will_dump k s in
      (begin_kernel tools (some k) d (s', w)).1 ≡ (
        if answer
        then dump_kernel tools k d s.next_kernel_id
            ((invocations_of s k + 1) % 2 ^ 64)
            (register_kernel k d s', w)
        else (register_kernel k d s', w))
begin_kernel-next_invocation_will_dump tools k d s w =
    begin_kernel_lem tools (some k) d (next_invocation_will_dump k s).1 w
    ∙ (unfold label_or_unknown in rw invocations-next (unfold next_invocation_will_dump in refl))

registered :
    (l : Text) (d : ℕ) (s : CaptureState)
    → ((register_kernel l d s).selection ≡ s.selection)
      × ((register_kernel l d s).next_kernel_id ≡ (s.next_kernel_id + 1) % 2 ^ 64)
unfolding register_kernel
registered l d s = (refl, refl)

module _ {W : Type 0} (tools : Tools W) where
  unfoldable pub happens : Event → CaptureState × W → CaptureState × W
  happens (begins label device_id) sw = (begin_kernel tools label device_id sw).1
  happens (ends kernel_id) sw = end_kernel tools kernel_id sw
  happens (asks label) (s, w) = ((next_invocation_will_dump label s).1, w)

  unfoldable pub run : List Event → CaptureState × W → CaptureState × W
  unfolding happens
  run [] sw = sw
  run (e ∷ es) sw = run es (happens e sw)

  dump_kernel-frame :
      (l : Text) (d id invocation : ℕ) (s : CaptureState) (w : W)
      → ((dump_kernel tools l d id invocation (s, w)).0.kernel_invocations ≡ s.kernel_invocations)
        × ((dump_kernel tools l d id invocation (s, w)).0.selection ≡ s.selection)
        × ((dump_kernel tools l d id invocation (s, w)).0.next_kernel_id ≡ s.next_kernel_id)
  unfolding dump_kernel
  dump_kernel-frame l d id invocation s w = ground arith

  pub end_kernel-frame :
      (id : ℕ) (s : CaptureState) (w : W)
      → ((end_kernel tools id (s, w)).0.kernel_invocations ≡ s.kernel_invocations)
        × ((end_kernel tools id (s, w)).0.selection ≡ s.selection)
        × ((end_kernel tools id (s, w)).0.next_kernel_id ≡ s.next_kernel_id)
  unfolding end_kernel
  end_kernel-frame id s w = ground arith

  pub begin_kernel-frame :
      (label : Option Text) (d : ℕ) (s : CaptureState) (w : W) (k : Text)
      → (invocations_of (begin_kernel tools label d (s, w)).1.0 k ≡ (
          if label_or_unknown label == k
          then (invocations_of s (label_or_unknown label) + 1) % 2 ^ 64
          else invocations_of s k))
        × ((begin_kernel tools label d (s, w)).1.0.selection ≡ s.selection)
        × ((begin_kernel tools label d (s, w)).1.0.next_kernel_id ≡ (s.next_kernel_id + 1) % 2 ^ 64)
  begin_kernel-frame label d s w k =
      let l = label_or_unknown label in
      let invocation = (invocations_of s l + 1) % 2 ^ 64 in
      let kept = dump_kernel-frame l d s.next_kernel_id invocation (register_kernel l d s) w in
      ground (
        arith,
        begin_kernel_lem tools label d s w,
        kept,
        invocations-register_kernel l d s k,
        registered l d s,
      )

no_invocations : (label : Text) → or_zero (lookup label []) ≡ 0
unfolding lookup
no_invocations label = refl

-- How often a kernel of that name has begun.
unfoldable pub count_begins : Text → List Event → ℕ
count_begins k [] = 0
count_begins k (begins label d ∷ es) =
    let rest = count_begins k es in if label_or_unknown label == k then suc rest else rest
count_begins k (ends id ∷ es) = count_begins k es
count_begins k (asks l ∷ es) = count_begins k es

module _ {W : Type 0} (tools : Tools W) where
  invocations-happens :
      (e : Event) (s : CaptureState) (w : W) (k : Text)
      → (invocations_of (happens tools e (s, w)).0 k % 2 ^ 64
          ≡ (invocations_of s k + count_begins k (e ∷ [])) % 2 ^ 64)
        × ((happens tools e (s, w)).0.selection ≡ s.selection)
  unfolding happens count_begins
  invocations-happens (begins label d) s w k =
      ground (arith, begin_kernel-frame tools label d s w k, text_eq_iff (label_or_unknown label) k)
  invocations-happens (ends id) s w k = ground (arith, end_kernel-frame tools id s w)
  invocations-happens (asks l) s w k =
      (rw invocations-next (ground arith), unfold next_invocation_will_dump in refl)

  count_begins-cons :
      (k : Text) (e : Event) (es : List Event)
      → count_begins k (e ∷ es) ≡ count_begins k (e ∷ []) + count_begins k es
  unfolding count_begins
  count_begins-cons k (begins label d) es = ground arith
  count_begins-cons k (ends id) es = ground arith
  count_begins-cons k (asks l) es = ground arith

  invocations-run :
      (es : List Event) (s : CaptureState) (w : W) (k : Text)
      → (invocations_of (run tools es (s, w)).0 k % 2 ^ 64
          ≡ (invocations_of s k + count_begins k es) % 2 ^ 64)
        × ((run tools es (s, w)).0.selection ≡ s.selection)
  unfolding run
  invocations-run [] s w k = (unfold count_begins in omega arith, refl)
  invocations-run (e ∷ es) s w k =
      let one = invocations-happens e s w k in
      let (s', w') = happens tools e (s, w) in
      let rest = invocations-run es s' w' k in
      (omega (arith, one.0, rest.0, count_begins-cons k e es), rest.1 ∙ one.1)

  next_number :
      (es : List Event) (chosen : DumpSelection) (w : W) (label : Text)
      → count_begins label es + 1 < 2 ^ 64
      → (invocations_of (run tools es (record initial { selection = chosen }, w)).0 label + 1)
          % 2 ^ 64
        ≡ count_begins label es + 1
  next_number es chosen w label h = omega (
    arith,
    (invocations-run es (record initial { selection = chosen }) w label).0,
    no_invocations label,
  )

  selected_iff :
      (es : List Event) (chosen : DumpSelection) (w : W) (label : Text)
      → count_begins label es + 1 < 2 ^ 64
      → let s = (run tools es (record initial { selection = chosen }, w)).0 in
        (should_dump_views_for_invocation s.selection label ((invocations_of s label + 1) % 2 ^ 64)
          ≡ true)
        ↔ ((chosen.dump_kernel_label ≢ [])
            × (label ≡ chosen.dump_kernel_label)
            × (chosen.dump_kernel_invocation ≡ some (count_begins label es + 1)))
  selected_iff es chosen w label h =
      let facts = invocations-run es (record initial { selection = chosen }) w label in
      rw (facts.1, next_number es chosen w label h)
        (should_dump_iff chosen label (count_begins label es + 1))

  -- The dump of a kernel, after the fence if there is one, leaves something in the world.
  module _
      (changes : (dump : KernelDump) (d : ℕ) (fence : Bool) (w : W)
        → (tools.create_kernel_dump dump (fenced tools fence d w)).1 ≢ w) where
    begin_kernel-changes_iff :
        (label : Option Text) (d : ℕ) (s : CaptureState) (w : W)
        → ((begin_kernel tools label d (s, w)).1.1 ≢ w) ↔ (
            should_dump_views_for_invocation s.selection
              (label_or_unknown label)
              ((invocations_of s (label_or_unknown label) + 1) % 2 ^ 64)
            ≡ true)
    unfolding dump_kernel dump_input_views
    begin_kernel-changes_iff label d s w =
        let k = label_or_unknown label in
        let invocation = (invocations_of s k + 1) % 2 ^ 64 in
        elim (Bool-cases (should_dump_views_for_invocation s.selection k invocation)) [
          | inl e ↦
              rw (begin_kernel_lem tools label d s w, e) ((λ ne. refl), λ yes. changes _ d _ w)
          | inr e ↦ rw (begin_kernel_lem tools label d s w, e) ((λ ne. absurd (ne refl)), λ no. cc)
        ]

    -- From the start of a program with a given selection, whatever kernels have begun and ended and
    -- whatever an instrumented program has asked: the beginning of the next kernel writes a dump, or tries to,
    -- exactly when a label is selected, the kernel has it ("unknown" for a kernel with none), and the number of the
    -- kernels of that name so far, plus one, is the selected invocation; for any other kernel nothing outside the tool
    -- is changed. (With fewer than 2 ^ 64 kernels of the name. The writer of the dump, behind the fence, never leaves
    -- the world as it was, by which a call of it is told.)
    pub begin_kernel-dumps_iff :
        (es : List Event) (chosen : DumpSelection) (w : W) (label : Option Text) (d : ℕ)
        → count_begins (label_or_unknown label) es + 1 < 2 ^ 64
        → let (s, w') = run tools es (record initial { selection = chosen }, w) in
          ((begin_kernel tools label d (s, w')).1.1 ≢ w') ↔ (
            (chosen.dump_kernel_label ≢ [])
            × (label_or_unknown label ≡ chosen.dump_kernel_label)
            × (chosen.dump_kernel_invocation ≡ some (count_begins (label_or_unknown label) es + 1)))
    begin_kernel-dumps_iff es chosen w label d h =
        let (s, w') = run tools es (record initial { selection = chosen }, w) in
        let one = begin_kernel-changes_iff label d s w' in
        let two = selected_iff es chosen w (label_or_unknown label) h in
        ((λ ne. two.0 (one.0 ne)), λ all. one.1 (two.1 all))
