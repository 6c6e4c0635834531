-- ===== src/Plugins/Clang/Patch/Runs.antt =====
-- What the body runs that src/krepe/compiler_plugins/clang.cpp makes.
use kokkos_kernel_forge.Base.{ℕ, ◌≡◌, ◌∙◌, refl, ap, true, Option, some, List, [], ◌∷◌, ◌++◌, map}
use mathlib.Core.List.{append_assoc}
use kokkos_kernel_forge.Base.Text.{Text}
use kokkos_kernel_forge.Base.Result.{ok}
use kokkos_kernel_forge.Extract.Functions.{Loader, Program, Call}
use kokkos_kernel_forge.Extract.Launch.{copy_bytes, replay_functor}
use kokkos_kernel_forge.Plugins.Syntax.{
  CxxType, Classes, ViewInfo, Statement, clear_registered_views_call, register_view_call, statement,
  and_then-eq-ok, FunctionDecl,
}
use kokkos_kernel_forge.Plugins.Run.{run, run-one, run-replay_functor}
use kokkos_kernel_forge.Plugins.Clang.{get_struct_decl, visit}
use kokkos_kernel_forge.Plugins.Clang.Patch.{
  ImplFunction, push_register_calls, build_body, find_functions, patch_replay_functor,
}

push_register_calls-eq :
    (views : List ViewInfo) (stmts rest : List Statement)
    → push_register_calls views stmts ++ rest ≡ stmts ++ (map register_view_call views ++ rest)
unfolding push_register_calls
push_register_calls-eq [] stmts rest = refl
push_register_calls-eq (view ∷ views) stmts rest =
    push_register_calls-eq views (stmts ++ register_view_call view ∷ []) rest
    ∙ append_assoc stmts (register_view_call view ∷ []) (map register_view_call views ++ rest)

pub build_body-eq :
    (views : List ViewInfo) (body : ℕ)
    → build_body views body
      ≡ clear_registered_views_call ∷ (map register_view_call views ++ statement body ∷ [])
unfolding build_body
build_body-eq views body =
    push_register_calls-eq views (clear_registered_views_call ∷ []) (statement body ∷ [])

-- A body that is set is built of the views that are visited.
pub patch_replay_functor-eq-ok :
    (classes : Classes) (impl : Option (List ImplFunction)) (fuel : ℕ) (fun : FunctionDecl)
    (type : CxxType) (c body : ℕ) (stmts : List Statement)
    → fun.params ≡ type ∷ []
    → get_struct_decl type ≡ some c
    → patch_replay_functor classes impl fuel fun body ≡ some (ok stmts)
    → (views : List ViewInfo) × (visit classes fuel [] c [] ≡ some (ok views))
      × (stmts ≡ build_body views body)
unfolding patch_replay_functor
patch_replay_functor-eq-ok classes impl fuel fun type c body stmts one class done =
    let (views, visited, rest) =
      and_then-eq-ok (visit classes fuel [] c []) _ (rw (one, class) at done) in
    let (functions, found, built) = and_then-eq-ok (some (find_functions impl)) _ rest in
    (views, visited, cc)

-- When the clang plugin sets a new body on a function with one parameter, of a class or a reference to one, the
-- class has been visited to the end, and the body, where the old one copies the bytes of the functor, does what
-- `replay_functor` does in a program that was built with a plugin: it clears the views of the tool, registers those
-- that were visited, in their order, and then copies the bytes.
pub patch_replay_functor-replay_functor :
    (classes : Classes) (impl : Option (List ImplFunction)) (fuel : ℕ) (fun : FunctionDecl)
    (type : CxxType) (c body : ℕ) (stmts : List Statement) (l : Loader)
    (arguments : ViewInfo → ℕ × Text) (execute : ℕ → Call (Unit {0})) (bytes : List ℕ)
    (host_lambda : Option (List ℕ)) (p : Program)
    → fun.params ≡ type ∷ []
    → get_struct_decl type ≡ some c
    → patch_replay_functor classes impl fuel fun body ≡ some (ok stmts)
    → ((q : Program) → execute body q ≡ copy_bytes l bytes host_lambda q)
    → (views : List ViewInfo) × (visit classes fuel [] c [] ≡ some (ok views))
      × (run l arguments execute stmts p
          ≡ replay_functor l true
              (record { bytes = bytes; host_lambda = host_lambda; views = map arguments views })
              p)
patch_replay_functor-replay_functor classes impl fuel fun type c body stmts l arguments execute
      bytes host_lambda p one class done copies =
    let (views, visited, built) =
      patch_replay_functor-eq-ok classes impl fuel fun type c body stmts one class done in
    (
      views,
      visited,
      ap (λ b. run l arguments execute b p) (built ∙ build_body-eq views body)
          ∙ run-replay_functor l arguments execute views (statement body ∷ []) bytes host_lambda p
              (λ q. run-one l arguments execute body q ∙ copies q),
    )
