-- ===== src/Plugins/Gcc/Patch/Runs.antt =====
-- What the body runs that src/krepe/compiler_plugins/gcc.cpp makes.
use kokkos_kernel_forge.Base.{
  ℕ, ◌≡◌, ◌∙◌, refl, ap, inl, inr, true, ◌&&◌, Option, none, some, List, [], ◌∷◌, ◌++◌, map,
  Bool-cases,
}
use mathlib.Core.List.{append_assoc}
use kokkos_kernel_forge.Base.Text.{Text}
use kokkos_kernel_forge.Base.Result.{ok}
use kokkos_kernel_forge.Extract.Functions.{Loader, Program, Call}
use kokkos_kernel_forge.Extract.Launch.{copy_bytes, replay_functor}
use kokkos_kernel_forge.Plugins.Syntax.{
  CxxType, class_type, Classes, ViewInfo, Statement, clear_registered_views_call,
  register_view_call, and_then-eq-ok, is_named, FunctionDecl,
}
use kokkos_kernel_forge.Plugins.Run.{run, run-replay_functor}
use kokkos_kernel_forge.Plugins.Gcc.{Lookups, in_namespace, get_functor_views}
use kokkos_kernel_forge.Plugins.Gcc.Patch.{
  TreeCode, statement_list, Iterator, tsi_start, tsi_link_before, link_register_calls, build_body,
  functor_class, saved_statements, find_functions, patch, ast_callback,
}

link_register_calls-eq :
    (views : List ViewInfo) (it : Iterator)
    → (link_register_calls views it).before ++ (link_register_calls views it).behind
      ≡ it.before ++ (map register_view_call views ++ it.behind)
unfolding link_register_calls tsi_link_before
link_register_calls-eq [] it = refl
link_register_calls-eq (view ∷ views) it =
    link_register_calls-eq views (tsi_link_before it (register_view_call view))
    ∙ append_assoc it.before (register_view_call view ∷ [])
        (map register_view_call views ++ it.behind)

-- The calls stand in front of the statements that are there.
pub build_body-eq :
    (views : List ViewInfo) (body : List Statement)
    → build_body views body ≡ clear_registered_views_call ∷ (map register_view_call views ++ body)
unfolding build_body tsi_link_before tsi_start
build_body-eq views body =
    link_register_calls-eq views (tsi_link_before (tsi_start body) clear_registered_views_call)

-- A body that is changed is that of a function with an argument, and its calls are for the views that are visited.
pub ast_callback-eq-ok :
    (classes : Classes) (lookups : Lookups) (impl : Option (Text → Option TreeCode)) (fuel : ℕ)
    (ast : FunctionDecl) (type : CxxType) (params : List CxxType) (c : ℕ)
    (body stmts : List Statement)
    → ast.params ≡ type ∷ params
    → functor_class classes type ≡ some c
    → ast_callback classes lookups impl fuel ast (statement_list body) ≡ some (ok (some stmts))
    → (views : List ViewInfo) × (get_functor_views classes lookups fuel [] (class_type c)
        ≡ some (ok views))
      × (stmts ≡ build_body views body)
unfolding ast_callback patch saved_statements
ast_callback-eq-ok classes lookups impl fuel ast type params c body stmts one class done =
    elim (Bool-cases (is_named ast.name "replay_functor" && in_namespace "krepe" ast.scopes)) [
      | inr other ↦ let no : some (ok none) ≡ some (ok (some stmts)) = rw other at done in cc
      | inl ours ↦
          let (patched, made, kept) =
            and_then-eq-ok (patch classes lookups impl fuel type (statement_list body)) _
              (rw (ours, one) at done) in
          let (views, visited, rest) =
            and_then-eq-ok (get_functor_views classes lookups fuel [] (class_type c)) _
              (rw class at made) in
          let (functions, found, built) = and_then-eq-ok (some (find_functions impl)) _ rest in
          (views, visited, cc)
    ]

-- When the gcc plugin changes the body of a function whose first parameter has the type of a class or of a reference
-- to one, the class has been visited to the end, and the body, where the old statements copy the bytes of the functor,
-- does what `replay_functor` does in a program that was built with a plugin: it clears the views of the tool,
-- registers those that were visited, in their order, and then copies the bytes.
pub ast_callback-replay_functor :
    (classes : Classes) (lookups : Lookups) (impl : Option (Text → Option TreeCode)) (fuel : ℕ)
    (ast : FunctionDecl) (type : CxxType) (params : List CxxType) (c : ℕ)
    (body stmts : List Statement) (l : Loader) (arguments : ViewInfo → ℕ × Text)
    (execute : ℕ → Call (Unit {0})) (bytes : List ℕ) (host_lambda : Option (List ℕ)) (p : Program)
    → ast.params ≡ type ∷ params
    → functor_class classes type ≡ some c
    → ast_callback classes lookups impl fuel ast (statement_list body) ≡ some (ok (some stmts))
    → ((q : Program) → run l arguments execute body q ≡ copy_bytes l bytes host_lambda q)
    → (views : List ViewInfo) × (get_functor_views classes lookups fuel [] (class_type c)
        ≡ some (ok views))
      × (run l arguments execute stmts p
          ≡ replay_functor l true
              (record { bytes = bytes; host_lambda = host_lambda; views = map arguments views })
              p)
ast_callback-replay_functor classes lookups impl fuel ast type params c body stmts l arguments
      execute bytes host_lambda p one class done copies =
    let (views, visited, built) =
      ast_callback-eq-ok classes lookups impl fuel ast type params c body stmts one class done in
    (
      views,
      visited,
      ap (λ b. run l arguments execute b p) (built ∙ build_body-eq views body)
          ∙ run-replay_functor l arguments execute views body bytes host_lambda p copies,
    )
