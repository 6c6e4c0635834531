-- ===== src/Tests/Plugins.antt =====
-- A functor with two views, one of them inside a struct, a class that refers to its own kind, and two compilers.
use kokkos_kernel_forge.Base.{
  ℕ, zero, suc, inl, ◌*◌, ◌≡◌, ◌↔◌, refl, true, false, none, some, List, [], ◌∷◌, nat_eq, length,
  map, arith, All,
}
use kokkos_kernel_forge.Base.Text.{Text, text, text_eq}
use kokkos_kernel_forge.Base.Result.{ok}
use kokkos_kernel_forge.Capture.Kernels.{initial}
use kokkos_kernel_forge.Extract.Functions.{Loader, initial_functions}
use kokkos_kernel_forge.Extract.Launch.{copy_bytes, replay_functor}
use kokkos_kernel_forge.Plugins.Syntax.{
  namespace_scope, class_type, reference_type, other_type, Member, field_member, other_member,
  ClassDecl, Classes, field_part, ViewInfo, Statement, FunctionDecl, clear_registered_views_call,
  register_view_call, statement,
}
use kokkos_kernel_forge.Plugins.Walk.Exact.{In, Finds}
use kokkos_kernel_forge.Plugins.Walk.Ends.{Ends}
use kokkos_kernel_forge.Plugins.Run.{run}
use kokkos_kernel_forge.Plugins.Clang as Clang
use kokkos_kernel_forge.Plugins.Clang.{
  get_struct_decl, get_enclosed_decl, enclosing_namespace, is_namespace,
}
use kokkos_kernel_forge.Plugins.Clang.Walks as ClangWalks
use kokkos_kernel_forge.Plugins.Clang.Walks.{visit-Finds}
use kokkos_kernel_forge.Plugins.Clang.Cycles.{visit-none}
use kokkos_kernel_forge.Plugins.Clang.Patch.{
  ImplFunction, patch_replay_functor, handle_top_level_decl,
}
use kokkos_kernel_forge.Plugins.Clang.Ends.{ReachedBelow, visit-Ends}
use kokkos_kernel_forge.Plugins.Clang.Patch.Handled.{HandledAll, handle_top_level_decl-HandledAll}
use kokkos_kernel_forge.Plugins.Clang.Patch.Runs.{patch_replay_functor-replay_functor}

abbrev pub view_data : ViewInfo
view_data = record { root = field_part (text "x") ∷ []; memory_space = 3 }

abbrev pub inner_data : ViewInfo
inner_data = record {
  root = field_part (text "pair") ∷ field_part (text "y") ∷ [];
  memory_space = 3;
}

abbrev plain_class : Text → List Member → ClassDecl
plain_class name members = record {
  name = name;
  scopes = [];
  is_union = false;
  members = members;
  methods = [];
  aliases = [];
}

-- 0 is the functor, 1 a view, 2 the struct and 3 the memory space.
abbrev pub classes : Classes
classes zero = plain_class (text "Functor") (
    field_member (text "x") (class_type 1)
    ∷ field_member (text "n") other_type
    ∷ field_member (text "pair") (class_type 2)
    ∷ other_member
    ∷ [])
classes (suc zero) = record (plain_class (text "View") []) {
  scopes = namespace_scope (text "Kokkos") ∷ [];
  methods = record { name = text "data"; param_size = 0; is_static = false } ∷ [];
  aliases = (text "memory_space", class_type 3) ∷ [];
}
classes (suc (suc zero)) = plain_class (text "Pair") (field_member (text "y") (class_type 1) ∷ [])
classes (suc (suc (suc zero))) = record (plain_class (text "HostSpace") []) {
  methods = record { name = text "name"; param_size = 0; is_static = true } ∷ [];
}
classes (suc (suc (suc (suc n)))) = plain_class [] []

-- A class that refers to its own kind.
abbrev nodes : Classes
nodes c = plain_class (text "Node") (field_member (text "next") (reference_type c) ∷ [])

clang_finds : Clang.visit classes 3 [] 0 [] ≡ some (ok (view_data ∷ inner_data ∷ []))
unfolding Clang.visit text_eq text
clang_finds = refl

visit-Finds_example :
    In inner_data (view_data ∷ inner_data ∷ [])
    ↔ Finds (ClangWalks.language classes) 0 [] inner_data
visit-Finds_example =
    visit-Finds classes 3 [] 0 (view_data ∷ inner_data ∷ []) clang_finds inner_data

node_is_no_view : (c : ℕ) → Clang.is_view nodes c ≡ false
unfolding Clang.is_view text_eq text
node_is_no_view c = refl

no_view_there :
    (c : ℕ) → Clang.is_view nodes c ≡ true → (m : ℕ) × (Clang.memory_space_of nodes c ≡ ok m)
unfolding Clang.is_view text_eq text
no_view_there c view = cc

visit-none_example : Clang.visit nodes 1000 [] 0 [] ≡ none
visit-none_example =
    visit-none nodes (λ c. Unit {0}) (λ c p. (text "next", c, inl refl, node_is_no_view c, tt))
      (λ c view. no_view_there c view) 1000 [] 0 [] tt

-- How deep the classes are nested.
abbrev pub depth : ℕ → ℕ
depth zero = 2
depth (suc zero) = 0
depth (suc (suc zero)) = 1
depth (suc (suc (suc n))) = 0

reached_below : (c : ℕ) → All (ReachedBelow depth (depth c)) (classes c).members
reached_below zero = (omega arith, (tt, (omega arith, (tt, tt))))
reached_below (suc zero) = tt
reached_below (suc (suc zero)) = (omega arith, tt)
reached_below (suc (suc (suc zero))) = tt
reached_below (suc (suc (suc (suc n)))) = tt

visit-Ends_example : Ends (ClangWalks.language classes) (Clang.visit classes 3 [] 0 [])
visit-Ends_example = visit-Ends classes depth reached_below 3 [] 0 [] (omega arith)

abbrev pub replay_functor_decl : FunctionDecl
replay_functor_decl = record {
  name = text "replay_functor";
  scopes = namespace_scope (text "krepe") ∷ [];
  params = reference_type 0 ∷ [];
}

abbrev pub clang_impl : List ImplFunction
clang_impl =
    record { name = text "clear_registered_views"; param_size = 0 }
    ∷ record { name = text "register_view"; param_size = 2 }
    ∷ []

abbrev pub patched_body : List Statement
patched_body =
    clear_registered_views_call
    ∷ register_view_call view_data
    ∷ register_view_call inner_data
    ∷ statement 7
    ∷ []

pub clang_patches :
    patch_replay_functor classes (some clang_impl) 3 replay_functor_decl 7 ≡ some (ok patched_body)
unfolding patch_replay_functor text_eq text
clang_patches = refl

abbrev main_decl : FunctionDecl
main_decl = record { name = text "main"; scopes = []; params = [] }

clang_handles :
    handle_top_level_decl classes
      (some clang_impl)
      3
      (none ∷ some (main_decl, 1) ∷ some (replay_functor_decl, 7) ∷ [])
    ≡ some (ok (none ∷ none ∷ some patched_body ∷ []))
unfolding handle_top_level_decl text_eq text
clang_handles = refl

handle_top_level_decl-HandledAll_example :
    HandledAll classes
      (some clang_impl)
      3
      (none ∷ some (main_decl, 1) ∷ some (replay_functor_decl, 7) ∷ [])
      (none ∷ none ∷ some patched_body ∷ [])
handle_top_level_decl-HandledAll_example =
    handle_top_level_decl-HandledAll classes (some clang_impl) 3
      (none ∷ some (main_decl, 1) ∷ some (replay_functor_decl, 7) ∷ [])
      (none ∷ none ∷ some patched_body ∷ []) clang_handles

abbrev pub tool : Loader
tool = record { enable_libdl = true; exports = λ name. true }

-- Where the data of the two views are.
abbrev pub view_arguments : ViewInfo → ℕ × Text
view_arguments v = (4096 * length v.root, text "Host")

refers_to_functor : get_struct_decl (reference_type 0) ≡ some 0
unfolding get_struct_decl
refers_to_functor = refl

patch_replay_functor-replay_functor_example :
    (views : List ViewInfo) × (Clang.visit classes 3 [] 0 [] ≡ some (ok views))
    × (run tool view_arguments
          (λ s. copy_bytes tool (1 ∷ []) none)
          patched_body
          (initial_functions, initial)
        ≡ replay_functor tool true
            (record { bytes = 1 ∷ []; host_lambda = none; views = map view_arguments views })
            (initial_functions, initial))
patch_replay_functor-replay_functor_example =
    patch_replay_functor-replay_functor classes (some clang_impl) 3 replay_functor_decl
      (reference_type 0) 0 7 patched_body tool view_arguments (λ s. copy_bytes tool (1 ∷ []) none)
      (1 ∷ []) none (initial_functions, initial) refl refers_to_functor clang_patches (λ q. refl)
