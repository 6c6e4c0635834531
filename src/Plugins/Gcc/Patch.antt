-- ===== src/Plugins/Gcc/Patch.antt =====
-- src/krepe/compiler_plugins/gcc.cpp: what is done with a function before it is lowered.
pub mod Runs
use kokkos_kernel_forge.Base.{
  ℕ, Bool, true, false, not, ◌&&◌, Option, none, some, List, [], ◌∷◌, ◌++◌, if◌then◌else◌,
}
use kokkos_kernel_forge.Base.Text.{Text, text}
use kokkos_kernel_forge.Base.Result.{Result, ok, err, ◌>>=◌}
use kokkos_kernel_forge.Plugins.Syntax.{
  CxxType, class_type, reference_type, other_type, Classes, ViewInfo, Statement,
  clear_registered_views_call, register_view_call, statement, Outcome, and_then, required, is_named,
  FunctionDecl,
}
use kokkos_kernel_forge.Plugins.Gcc.{Lookups, in_namespace, get_functor_views}

-- `TREE_CODE` of what a lookup finds.
pub data TreeCode : Type 0 where
  function_decl other_code : TreeCode

-- `DECL_SAVED_TREE`.
pub data Body : Type 0 where
  statement_list : List Statement → Body
  other_body : Body

-- `tree_stmt_iterator`: the statements before the one that it is at, and that one with those behind it.
pub record Iterator : Type 0 where
  pub before : List Statement
  pub behind : List Statement

unfoldable pub tsi_start : List Statement → Iterator
tsi_start body = record { before = []; behind = body }

-- With `TSI_SAME_STMT` the iterator stays at its statement.
unfoldable pub tsi_link_before : Iterator → Statement → Iterator
tsi_link_before it s = record it { before = it.before ++ s ∷ [] }

-- The loop over the views.
unfoldable pub link_register_calls : List ViewInfo → Iterator → Iterator
unfolding tsi_link_before
link_register_calls [] it = it
link_register_calls (view ∷ views) it =
    link_register_calls views (tsi_link_before it (register_view_call view))

unfoldable pub build_body : List ViewInfo → List Statement → List Statement
unfolding tsi_start tsi_link_before link_register_calls
build_body views body =
    let it =
      link_register_calls views (tsi_link_before (tsi_start body) clear_registered_views_call) in
    it.before ++ it.behind

-- The type of the functor: that of the first argument, or what it refers to; a union is no `RECORD_TYPE`. Where a line that is
-- printed names a tree code, the text here ends before the name.
unfoldable pub functor_class : Classes → CxxType → Option ℕ
functor_class classes (class_type c) = if (classes c).is_union then none else some c
functor_class classes (reference_type c) = if (classes c).is_union then none else some c
functor_class classes other_type = none

unfoldable pub saved_statements : Body → Result (List Statement)
saved_statements (statement_list body) = ok body
saved_statements other_body =
    err (text "ERROR: expected a statement list in krepe::replay_functor, but found (")

unfoldable pub is_function : Option TreeCode → Option (Unit {0})
is_function none = none
is_function (some other_code) = none
is_function (some function_decl) = some tt

-- `impl` is what the compiler finds by a name in the namespace `impl` of `krepe`.
unfoldable pub find_functions : Option (Text → Option TreeCode) → Result (Unit {0})
unfolding is_function
find_functions impl = required "ERROR: failed to find the krepe::impl namespace" impl >>= λ impl_ns.
    required "ERROR: failed to find krepe::impl::clear_registered_views"
      (is_function (impl_ns (text "clear_registered_views")))
    >>= λ clear_registered_views.
        required "ERROR: failed to find krepe::impl::register_view"
          (is_function (impl_ns (text "register_view")))

module _ (classes : Classes) (lookups : Lookups) (impl : Option (Text → Option TreeCode)) where
  -- From the type of the functor on.
  unfoldable pub patch : ℕ → CxxType → Body → Outcome (List Statement)
  unfolding functor_class get_functor_views saved_statements find_functions build_body
  patch fuel functor_type body =
      and_then
        (some (
          required "ERROR: the argument for krepe::replay_functor is not a record type ("
            (functor_class classes functor_type)))
        λ functor.
          and_then (get_functor_views classes lookups fuel [] (class_type functor)) λ views.
            and_then (some (saved_statements body)) λ statements.
              and_then (some (find_functions impl)) λ found. some (ok (build_body views statements))

  -- `none` inside is a function that is left as it is; one with no argument is, after a message.
  unfoldable pub ast_callback : ℕ → FunctionDecl → Body → Outcome (Option (List Statement))
  unfolding patch in_namespace
  ast_callback fuel ast body =
      if not (is_named ast.name "replay_functor" && in_namespace "krepe" ast.scopes)
      then some (ok none)
      else with_argument ast.params
    where
      with_argument : List CxxType → Outcome (Option (List Statement))
      with_argument [] = some (ok none)
      with_argument (type ∷ params) =
          and_then (patch fuel type body) λ patched. some (ok (some patched))
