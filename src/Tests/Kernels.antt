-- ===== src/Tests/Kernels.antt =====
-- A program with two kernels of the name "saxpy", of which the second is dumped. The world is the list
-- of what the writer and the fence were called for, the last call first.
use kokkos_kernel_forge.Base.{
  ℕ, Bool, ◌+◌, ◌%◌, ◌^◌, ◌≡◌, ◌≢◌, ◌↔◌, refl, ap, suc, length, true, false, Option, some, List, [],
  ◌∷◌, arith, if◌then◌else◌, nat_eq,
}
use kokkos_kernel_forge.Base.Text.{Text, text, text_eq, text_Eq}
use kokkos_kernel_forge.Base.Dict.{lookup, erase}
use kokkos_kernel_forge.Capture.Tracker.{snapshot}
use kokkos_kernel_forge.Capture.Options.{
  DumpSelection, label_or_unknown, should_dump_views_for_invocation,
}
use kokkos_kernel_forge.Capture.Kernels.{
  Tools, CaptureState, initial, invocations_of, next_invocation_will_dump, register_kernel,
  KernelDump, dump_kernel, fenced, dump_input_views, begin_kernel, end_kernel,
}
use kokkos_kernel_forge.Capture.Kernels.Selection.{
  Event, begins, ends, run, count_begins, begin_kernel-next_invocation_will_dump,
  begin_kernel-dumps_iff,
}
use kokkos_kernel_forge.Capture.Kernels.Lifetime.{
  dump_result, end_kernel-appends, end_kernel-failed,
}

data Action : Type 0 where
  wrote appended : Text → Action
  fenced_device : ℕ → Action

abbrev dump_path : Text
dump_path = text "krepe_saxpy_2.h5"

abbrev working_tools : Tools (List Action)
working_tools = record {
  has_compiler_plugins = false;
  create_kernel_dump =
      λ dump w. (record { ok = true; filename = dump_path; error = [] }, wrote dump.label ∷ w);
  append_kernel_output =
      λ snapshot path w. (record { ok = true; filename = path; error = [] }, appended path ∷ w);
  fence = λ device w. fenced_device device ∷ w;
}

longer : (w w' : List Action) → length w' ≡ suc (length w) → w' ≢ w
longer w w' h e = ground (arith, h, ap length e)

dump_changes :
    (dump : KernelDump) (device : ℕ) (fence : Bool) (w : List Action)
    → (working_tools.create_kernel_dump dump (fenced working_tools fence device w)).1 ≢ w
unfolding fenced
dump_changes dump device false w e = longer w _ refl e
dump_changes dump device true w e = omega (arith, ap length e)

abbrev failing_tools : Tools (List Action)
failing_tools = record working_tools {
  create_kernel_dump =
      λ dump w. (record { ok = false; filename = []; error = text "disk full" }, w);
}

abbrev saxpy : Option Text
saxpy = some (text "saxpy")

abbrev second_saxpy : DumpSelection
second_saxpy = record { dump_kernel_label = text "saxpy"; dump_kernel_invocation = some 2 }

-- After the first kernel of the name has ended.
abbrev one_saxpy : CaptureState
one_saxpy = record initial {
  next_kernel_id = 2;
  kernel_invocations = (text "saxpy", 1) ∷ [];
  selection = second_saxpy;
  tool_fence = true;
}

begin_kernel-next_invocation_will_dump_example :
    let (answer, s') = next_invocation_will_dump (text "saxpy") one_saxpy in
    (begin_kernel working_tools saxpy 0 (s', [])).1 ≡ (
      if answer
      then dump_kernel working_tools
          (text "saxpy")
          0
          2
          ((invocations_of one_saxpy (text "saxpy") + 1) % 2 ^ 64)
          (register_kernel (text "saxpy") 0 s', [])
      else (register_kernel (text "saxpy") 0 s', []))
begin_kernel-next_invocation_will_dump_example =
    begin_kernel-next_invocation_will_dump working_tools (text "saxpy") 0 one_saxpy []

abbrev two_events : List Event
two_events = begins saxpy 0 ∷ ends 1 ∷ []

begin_kernel-dumps_iff_example :
    let (s, w) = run working_tools two_events (record initial { selection = second_saxpy }, []) in
    ((begin_kernel working_tools saxpy 0 (s, w)).1.1 ≢ w) ↔ (
      (second_saxpy.dump_kernel_label ≢ [])
      × (text "saxpy" ≡ second_saxpy.dump_kernel_label)
      × (second_saxpy.dump_kernel_invocation ≡ some (count_begins (text "saxpy") two_events + 1)))
unfolding count_begins text text_eq label_or_unknown
begin_kernel-dumps_iff_example =
    begin_kernel-dumps_iff working_tools dump_changes two_events second_saxpy [] saxpy 0
      (omega arith)

-- Another kernel begins and ends while the chosen one runs.
abbrev other_kernel : List Event
other_kernel = begins (some (text "dot")) 0 ∷ ends 3 ∷ []

end_kernel-appends_example :
    let (s', w') =
      run working_tools other_kernel (begin_kernel working_tools saxpy 0 (one_saxpy, [])).1 in
    end_kernel working_tools 2 (s', w') ≡ (
      record s' {
        kernel_states = erase 2 s'.kernel_states;
        allocation_tracker = (snapshot false s'.allocation_tracker).1;
      },
      appended (dump_result working_tools (label_or_unknown saxpy) 0 one_saxpy []).filename
          ∷ (if s'.tool_fence then fenced_device 0 ∷ w' else w'),
    )
unfolding text text_eq label_or_unknown should_dump_views_for_invocation lookup dump_input_views
end_kernel-appends_example =
    end_kernel-appends working_tools saxpy 0 one_saxpy [] other_kernel refl refl (λ e. cc)
      (omega arith) (tt, ((omega arith), tt))

end_kernel-failed_example :
    let (s', w') =
      run failing_tools other_kernel (begin_kernel failing_tools saxpy 0 (one_saxpy, [])).1 in
    end_kernel failing_tools 2 (s', w')
    ≡ (record s' { kernel_states = erase 2 s'.kernel_states }, w')
unfolding text text_eq label_or_unknown should_dump_views_for_invocation lookup dump_input_views
end_kernel-failed_example =
    end_kernel-failed failing_tools saxpy 0 one_saxpy [] other_kernel refl refl (omega arith)
      (tt, ((omega arith), tt))
