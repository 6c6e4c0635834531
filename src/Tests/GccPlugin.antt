-- ===== src/Tests/GccPlugin.antt =====
-- The plugin of gcc on the same functor, and the two plugins side by side.
use kokkos_kernel_forge.Base.{
  ℕ, zero, suc, ◌≡◌, ◌↔◌, refl, sym, ◌==◌, if◌then◌else◌, true, none, some, List, [], ◌∷◌, nat_eq,
  map, arith, All,
}
use kokkos_kernel_forge.Base.Text.{text, text_eq}
use kokkos_kernel_forge.Base.Result.{ok}
use kokkos_kernel_forge.Capture.Kernels.{initial}
use kokkos_kernel_forge.Extract.Functions.{initial_functions, Program, Call}
use kokkos_kernel_forge.Extract.Launch.{copy_bytes, replay_functor}
use kokkos_kernel_forge.Plugins.Syntax.{
  class_type, reference_type, ViewInfo, Statement, is_named, statement, clear_registered_views_call,
  register_view_call,
}
use kokkos_kernel_forge.Plugins.Walk.Exact.{In, Finds}
use kokkos_kernel_forge.Plugins.Walk.Ends.{Ends}
use kokkos_kernel_forge.Plugins.Run.{run, run-one}
use kokkos_kernel_forge.Plugins.Clang as Clang
use kokkos_kernel_forge.Plugins.Clang.{
  get_struct_decl, get_enclosed_decl, enclosing_namespace, is_namespace,
}
use kokkos_kernel_forge.Plugins.Gcc as Gcc
use kokkos_kernel_forge.Plugins.Gcc.{Lookups, in_namespace}
use kokkos_kernel_forge.Plugins.Gcc.Walks as GccWalks
use kokkos_kernel_forge.Plugins.Gcc.Patch.{
  function_decl, statement_list, functor_class, ast_callback,
}
use kokkos_kernel_forge.Plugins.Gcc.Patch.Runs.{ast_callback-replay_functor}
use kokkos_kernel_forge.Plugins.Gcc.Views.{
  HeldBelow, get_functor_views-Finds, get_functor_views-Ends,
}
use kokkos_kernel_forge.Plugins.Agree.{IsPlain, IsOutermost}
use kokkos_kernel_forge.Plugins.Agree.Bodies.{by_reference, patch_replay_functor-ast_callback}
use kokkos_kernel_forge.Tests.Plugins.{
  view_data, inner_data, classes, depth, replay_functor_decl, clang_impl, patched_body,
  clang_patches, tool, view_arguments,
}

-- What gcc finds in the same classes.
abbrev lookups : Lookups
lookups = record { normal = λ c name. some tt; type = λ c name. some 3 }

gcc_finds :
    Gcc.get_functor_views classes lookups 3 [] (class_type 0)
    ≡ some (ok (view_data ∷ inner_data ∷ []))
unfolding Gcc.get_functor_views text_eq text
gcc_finds = refl

is_functor : GccWalks.IsFunctor classes 0
unfolding Gcc.is_view text_eq text
is_functor = record { no_union = refl; no_view = refl }

get_functor_views-Finds_example :
    In view_data (view_data ∷ inner_data ∷ [])
    ↔ Finds (GccWalks.language classes lookups) 0 [] view_data
get_functor_views-Finds_example =
    get_functor_views-Finds classes lookups 3 [] 0 (view_data ∷ inner_data ∷ []) is_functor
      gcc_finds view_data

held_below : (c : ℕ) → All (HeldBelow depth (depth c)) (classes c).members
held_below zero = (omega arith, (tt, (omega arith, (tt, tt))))
held_below (suc zero) = tt
held_below (suc (suc zero)) = (omega arith, tt)
held_below (suc (suc (suc zero))) = tt
held_below (suc (suc (suc (suc n)))) = tt

get_functor_views-Ends_example :
    Ends
      (GccWalks.language classes lookups)
      (Gcc.get_functor_views classes lookups 3 [] (class_type 0))
get_functor_views-Ends_example =
    get_functor_views-Ends classes lookups depth held_below 3 [] (class_type 0) (omega arith)

-- The body as gcc keeps it, a statement with no effect and the copy; to clang it is one statement.
abbrev gcc_body : List Statement
gcc_body = statement 8 ∷ statement 9 ∷ []

abbrev gcc_patched : List Statement
gcc_patched =
    clear_registered_views_call
    ∷ register_view_call view_data
    ∷ register_view_call inner_data
    ∷ gcc_body

abbrev executes : ℕ → Call (Unit {0})
executes s p = if s == 8 then some (tt, p) else copy_bytes tool (1 ∷ []) none p

gcc_patches :
    ast_callback classes lookups
      (some λ name. some function_decl)
      3
      replay_functor_decl
      (statement_list gcc_body)
    ≡ some (ok (some gcc_patched))
unfolding ast_callback text_eq text
gcc_patches = refl

functor_is_struct : functor_class classes (reference_type 0) ≡ some 0
unfolding functor_class
functor_is_struct = refl

gcc_body-copies :
    (q : Program) → run tool view_arguments executes gcc_body q ≡ copy_bytes tool (1 ∷ []) none q
unfolding run
gcc_body-copies q = run-one tool view_arguments executes 9 q

ast_callback-replay_functor_example :
    (views : List ViewInfo) × (Gcc.get_functor_views classes lookups 3 [] (class_type 0)
      ≡ some (ok views))
    × (run tool view_arguments executes gcc_patched (initial_functions, initial)
        ≡ replay_functor tool true
            (record { bytes = 1 ∷ []; host_lambda = none; views = map view_arguments views })
            (initial_functions, initial))
ast_callback-replay_functor_example =
    ast_callback-replay_functor classes lookups (some λ name. some function_decl) 3
      replay_functor_decl (reference_type 0) [] 0 gcc_body gcc_patched tool view_arguments executes
      (1 ∷ []) none (initial_functions, initial) refl functor_is_struct gcc_patches gcc_body-copies

members-IsPlain : (c : ℕ) → All (IsPlain classes) (classes c).members
members-IsPlain zero = (refl, (tt, (refl, (tt, tt))))
members-IsPlain (suc zero) = tt
members-IsPlain (suc (suc zero)) = (refl, tt)
members-IsPlain (suc (suc (suc zero))) = tt
members-IsPlain (suc (suc (suc (suc n)))) = tt

views-IsOutermost :
    (c : ℕ) → is_named (classes c).name "View" ≡ true → IsOutermost (classes c).scopes
views-IsOutermost zero named = tt
views-IsOutermost (suc zero) named = tt
views-IsOutermost (suc (suc zero)) named = tt
views-IsOutermost (suc (suc (suc zero))) named = tt
views-IsOutermost (suc (suc (suc (suc n)))) named = tt

views_complete :
    (c : ℕ)
    → Gcc.is_view classes c ≡ true
    → (space : ℕ) × (Clang.memory_space_of classes c ≡ ok space)
      × (Gcc.memory_space_of lookups c ≡ ok space)
unfolding Gcc.is_view Gcc.memory_space_of Clang.memory_space_of text_eq text
views_complete zero view = cc
views_complete (suc zero) view = (3, refl, refl)
views_complete (suc (suc zero)) view = cc
views_complete (suc (suc (suc zero))) view = cc
views_complete (suc (suc (suc (suc n)))) view = cc

patch_replay_functor-ast_callback_example :
    run tool view_arguments executes patched_body (initial_functions, initial)
    ≡ run tool view_arguments executes gcc_patched (initial_functions, initial)
patch_replay_functor-ast_callback_example =
    patch_replay_functor-ast_callback classes lookups (some clang_impl)
      (some λ name. some function_decl) 3 replay_functor_decl (reference_type 0) 0 7 gcc_body
      patched_body gcc_patched tool view_arguments executes (initial_functions, initial)
      (record { plain = members-IsPlain; outermost = views-IsOutermost; complete = views_complete })
      is_functor by_reference refl clang_patches gcc_patches (λ q. sym (gcc_body-copies q))
