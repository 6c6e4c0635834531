-- ===== src/Plugins/Agree/Bodies.antt =====
-- The bodies that the two plugins make.
use kokkos_kernel_forge.Base.{ℕ, ◌≡◌, ◌∙◌, refl, sym, ap, Option, some, List, [], ◌∷◌, ◌++◌, map}
use kokkos_kernel_forge.Base.Text.{Text}
use kokkos_kernel_forge.Base.Result.{ok}
use kokkos_kernel_forge.Plugins.Syntax.{
  CxxType, class_type, reference_type, other_type, Classes, ViewInfo, Statement,
  clear_registered_views_call, register_view_call, statement, FunctionDecl, Found,
}
use kokkos_kernel_forge.Extract.Functions.{Loader, Program, Call}
use kokkos_kernel_forge.Plugins.Run.{run, run-one, run-same}
use kokkos_kernel_forge.Plugins.Clang.{get_struct_decl}
use kokkos_kernel_forge.Plugins.Clang.Patch.{ImplFunction, patch_replay_functor}
use kokkos_kernel_forge.Plugins.Clang.Patch.Runs as ClangRuns
use kokkos_kernel_forge.Plugins.Gcc.{Lookups}
use kokkos_kernel_forge.Plugins.Gcc.Patch.{TreeCode, statement_list, functor_class, ast_callback}
use kokkos_kernel_forge.Plugins.Gcc.Patch.Runs as GccRuns
use kokkos_kernel_forge.Plugins.Gcc.Walks.{IsFunctor}
use kokkos_kernel_forge.Plugins.Agree.{IsCommon, visit-get_functor_views}

-- The parameter of the function, by value or by reference.
pub data IsParameter : ℕ → CxxType → Type 0 where
  by_value : {c : ℕ} → IsParameter c (class_type c)
  by_reference : {c : ℕ} → IsParameter c (reference_type c)

get_struct_decl-IsParameter :
    {c : ℕ} (type : CxxType) → IsParameter c type → get_struct_decl type ≡ some c
unfolding get_struct_decl
get_struct_decl-IsParameter (class_type c) by_value = refl
get_struct_decl-IsParameter (reference_type c) by_reference = refl
get_struct_decl-IsParameter other_type held = elim held [ ]

functor_class-IsParameter :
    (classes : Classes) {c : ℕ} (type : CxxType)
    → IsParameter c type
    → IsFunctor classes c
    → functor_class classes type ≡ some c
unfolding functor_class
functor_class-IsParameter classes (class_type c) by_value f = rw f.no_union refl
functor_class-IsParameter classes (reference_type c) by_reference f = rw f.no_union refl
functor_class-IsParameter classes other_type held f = elim held [ ]

-- In a program with no bases, references to classes or unions among the members, whose classes named `View` stand in
-- no class or function, and whose views have what the plugins look for in the eyes of both compilers: when both
-- plugins give a new body to a function with one parameter, a class that is neither a union nor a view or a
-- reference to it, and its old body, one compound statement to clang and a list of statements to gcc, does the same
-- in both, then the two new bodies do the same.
pub patch_replay_functor-ast_callback :
    (classes : Classes) (lookups : Lookups) (clang_impl : Option (List ImplFunction))
    (gcc_impl : Option (Text → Option TreeCode)) (fuel : ℕ) (fun : FunctionDecl) (type : CxxType)
    (c body : ℕ) (old stmts others : List Statement) (l : Loader) (arguments : ViewInfo → ℕ × Text)
    (execute : ℕ → Call (Unit {0})) (p : Program)
    → IsCommon classes lookups
    → IsFunctor classes c
    → IsParameter c type
    → fun.params ≡ type ∷ []
    → patch_replay_functor classes clang_impl fuel fun body ≡ some (ok stmts)
    → ast_callback classes lookups gcc_impl fuel fun (statement_list old) ≡ some (ok (some others))
    → ((q : Program) → execute body q ≡ run l arguments execute old q)
    → run l arguments execute stmts p ≡ run l arguments execute others p
patch_replay_functor-ast_callback classes lookups clang_impl gcc_impl fuel fun type c body old stmts
      others l arguments execute p common f held one patched called does =
    let (views, visited, built) =
      ClangRuns.patch_replay_functor-eq-ok classes clang_impl fuel fun type c body stmts one
        (get_struct_decl-IsParameter type held) patched in
    let (seen, gotten, made) =
      GccRuns.ast_callback-eq-ok classes lookups gcc_impl fuel fun type [] c old others one
        (functor_class-IsParameter classes type held f) called in
    let same : views ≡ seen =
      returned-injective
        (sym visited ∙ visit-get_functor_views classes lookups fuel [] c common f ∙ gotten) in
    ap (λ b. run l arguments execute b p) (built ∙ ClangRuns.build_body-eq views body)
    ∙ run-same l arguments execute views (statement body ∷ []) old p
        (λ q. run-one l arguments execute body q ∙ does q)
    ∙ ap
        (λ vs.
          run l arguments execute (clear_registered_views_call ∷ (map register_view_call vs ++ old))
            p)
        same
    ∙ ap (λ b. run l arguments execute b p) (sym (GccRuns.build_body-eq seen old) ∙ sym made)
  where
    returned-injective :
        {vs ws : List ViewInfo} → ◌≡◌ {A = Found} (some (ok vs)) (some (ok ws)) → vs ≡ ws
    returned-injective e = cc
