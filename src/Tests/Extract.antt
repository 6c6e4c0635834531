-- ===== src/Tests/Extract.antt =====
-- An instrumented program and a tool that is there or lacks a function.
use kokkos_kernel_forge.Base.{◌≡◌, refl, inl, true, none, some, List, [], ◌∷◌, nat_eq, ltb, length}
use kokkos_kernel_forge.Base.Text.{text, text_eq, text_Eq}
use kokkos_kernel_forge.Base.Dict.{lookup}
use kokkos_kernel_forge.Capture.Options.{should_dump_views_for_invocation}
use kokkos_kernel_forge.Capture.Kernels.{Tools, CaptureState, initial, KernelDump}
use kokkos_kernel_forge.Capture.Kernels as Hooks
use kokkos_kernel_forge.Capture.Kernels.Exported.{kokkosp_end_parallel_for}
use kokkos_kernel_forge.Extract.Functions.{Loader, initial_functions, c_str}
use kokkos_kernel_forge.Extract.Functions.Refines.{
  ToolCall, adds_metadata, asks, copies_functor, connected, ready, perform_all, specified_all,
  perform_all-refines,
}
use kokkos_kernel_forge.Extract.Launch.{Functor, Kokkos, parallel_for}
use kokkos_kernel_forge.Extract.Launch.Connected.{loaded, dump_of, parallel_for-dumps}
use kokkos_kernel_forge.RoundTrip.Names.{documented_name}
use kokkos_kernel_forge.Tests.RoundTrip.{range_policy}

-- A tool of an older version.
abbrev old_tool : Loader
old_tool = record { enable_libdl = true; exports = λ name. ltb (length name) 40 }

abbrev full_tool : Loader
full_tool = record { enable_libdl = true; exports = λ name. true }

abbrev some_calls : List ToolCall
some_calls = asks (text "saxpy") ∷ copies_functor (1 ∷ 2 ∷ []) ∷ []

abbrev selected : CaptureState
selected = record initial {
  selection = record { dump_kernel_label = text "saxpy"; dump_kernel_invocation = some 1 };
}

perform_all-refines_example :
    perform_all old_tool
      (adds_metadata (text "size") (text "13") ∷ some_calls)
      (initial_functions, selected)
    ≡ some (
      (specified_all
          (connected old_tool)
          (adds_metadata (text "size") (text "13") ∷ some_calls)
          selected).0,
      (
        ready old_tool,
        (specified_all
            (connected old_tool)
            (adds_metadata (text "size") (text "13") ∷ some_calls)
            selected).1,
      ),
    )
perform_all-refines_example =
    perform_all-refines old_tool (adds_metadata (text "size") (text "13")) some_calls selected

-- The world is the list of the dumps.
abbrev keeping_tools : Tools (List KernelDump)
keeping_tools = record {
  has_compiler_plugins = true;
  create_kernel_dump = λ d w. (record { ok = true; filename = text "saxpy.h5"; error = [] }, d ∷ w);
  append_kernel_output = λ snapshot path w. (record { ok = true; filename = path; error = [] }, w);
  fence = λ device w. w;
}

abbrev serial_kokkos : Kokkos (List KernelDump)
serial_kokkos = record {
  device_id = 0;
  hook_label = λ label. some label;
  space_name = documented_name;
  execute = λ w. w;
}

abbrev one_view : Functor
one_view = record { bytes = 1 ∷ 2 ∷ []; host_lambda = none; views = (1128, text "Host") ∷ [] }

parallel_for-dumps_example :
    (s' : CaptureState) × (parallel_for full_tool keeping_tools serial_kokkos true
        (text "saxpy")
        range_policy
        one_view
        ((initial_functions, selected), [])
      ≡ (let (t, v) = kokkosp_end_parallel_for keeping_tools 1 (
        s',
        dump_of true documented_name true (text "saxpy") range_policy one_view selected ∷ [],
      ) in
          some ((loaded, t), v)))
unfolding text text_eq c_str Hooks.next_invocation_will_dump should_dump_views_for_invocation lookup
    Hooks.fenced connected
parallel_for-dumps_example =
    parallel_for-dumps full_tool keeping_tools serial_kokkos true (text "saxpy") range_policy
      one_view initial_functions selected [] refl (inl refl) refl refl
