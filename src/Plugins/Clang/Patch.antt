-- ===== src/Plugins/Clang/Patch.antt =====
-- src/krepe/compiler_plugins/clang.cpp: what is done with a declaration of the program.
pub mod Runs
pub mod Handled
use kokkos_kernel_forge.Base.{
  ℕ, Bool, true, false, not, ◌&&◌, Option, none, some, List, [], ◌∷◌, ◌++◌, ◌==◌, nat_eq, length,
  if◌then◌else◌, String,
}
use kokkos_kernel_forge.Base.Text.{Text, text}
use kokkos_kernel_forge.Base.Result.{Result, ok, err, ◌>>=◌}
use kokkos_kernel_forge.Capture.Numbers.{to_string}
use kokkos_kernel_forge.Plugins.Syntax.{
  CxxType, Classes, ViewInfo, Statement, clear_registered_views_call, register_view_call, statement,
  Outcome, and_then, required, dyn_cast, is_named, FunctionDecl,
}
use kokkos_kernel_forge.Plugins.Clang.{
  get_struct_decl, get_enclosed_decl, enclosing_namespace, is_namespace, visit,
}

-- A function declared in `krepe::impl`.
pub record ImplFunction : Type 0 where
  pub name : Text
  pub param_size : ℕ

-- `params.size() != 1`
unfoldable pub one_parameter : List CxxType → Result CxxType
one_parameter (type ∷ []) = ok type
one_parameter params =
    err (text "krepe::replay_functor should have 1 parameter, got " ++ to_string (length params))

-- The loop over the views.
unfoldable pub push_register_calls : List ViewInfo → List Statement → List Statement
push_register_calls [] new_body_stmts = new_body_stmts
push_register_calls (view ∷ views) new_body_stmts =
    push_register_calls views (new_body_stmts ++ register_view_call view ∷ [])

unfoldable pub build_body : List ViewInfo → ℕ → List Statement
unfolding push_register_calls
build_body views body =
    push_register_calls views (clear_registered_views_call ∷ []) ++ statement body ∷ []

unfoldable pub impl_function : List ImplFunction → String → ℕ → Option ImplFunction
unfolding get_enclosed_decl
impl_function functions name size =
    get_enclosed_decl (λ (f : ImplFunction). f.name) name
      (λ (f : ImplFunction). f.param_size == size) functions

-- The functions that the calls go to, from what the compiler finds as the namespace `impl` of `krepe`.
unfoldable pub find_functions : Option (List ImplFunction) → Result (ImplFunction × ImplFunction)
unfolding impl_function
find_functions impl = do
  namespace_decl ← dyn_cast impl
  impl_namespace ← required "Failed to find the krepe::impl namespace" namespace_decl
  clear_decl ← dyn_cast (impl_function impl_namespace "clear_registered_views" 0)
  clear_registered_views_function ←
      required "Failed to find the krepe::impl::clear_registered_views function" clear_decl
  register_decl ← dyn_cast (impl_function impl_namespace "register_view" 2)
  register_view_function ←
      required "Failed to find the krepe::impl::register_view function" register_decl
  ok (clear_registered_views_function, register_view_function)

-- The tests of `HandleTopLevelDecl`.
unfoldable pub is_replay_functor : FunctionDecl → Bool
unfolding enclosing_namespace is_namespace
is_replay_functor function =
    is_named function.name "replay_functor"
    && is_namespace "krepe" (enclosing_namespace function.scopes)

module _ (classes : Classes) (impl : Option (List ImplFunction)) where
  -- The new body, of statements; the old one is the last of them.
  unfoldable pub patch_replay_functor : ℕ → FunctionDecl → ℕ → Outcome (List Statement)
  unfolding one_parameter get_struct_decl visit find_functions build_body
  patch_replay_functor fuel fun body =
      and_then
        (some (
          one_parameter fun.params >>= λ functor.
          required "The argument to krepe::replay_functor should be a record type"
            (get_struct_decl functor)))
        λ functor_struct. and_then (visit classes fuel [] functor_struct []) λ views.
          and_then (some (find_functions impl)) λ functions. some (ok (build_body views body))

  -- A group of declarations, those of functions with their bodies; for each, the body that it is given, if any.
  unfoldable pub handle_top_level_decl :
      ℕ → List (Option (FunctionDecl × ℕ)) → Outcome (List (Option (List Statement)))
  unfolding patch_replay_functor is_replay_functor
  handle_top_level_decl fuel [] = some (ok [])
  handle_top_level_decl fuel (none ∷ group) =
      and_then (handle_top_level_decl fuel group) λ bodies. some (ok (none ∷ bodies))
  handle_top_level_decl fuel (some (function, body) ∷ group) =
      let rest = handle_top_level_decl fuel group in
      if not (is_replay_functor function)
      then and_then rest (λ bodies. some (ok (none ∷ bodies)))
      else and_then (patch_replay_functor fuel function body)
          (λ new_body. and_then rest (λ bodies. some (ok (some new_body ∷ bodies))))
