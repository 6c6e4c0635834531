-- ===== src/Plugins/Clang.antt =====
-- src/krepe/compiler_plugins/clang.cpp: the visitor of the functor.
pub mod Walks
pub mod Patch
pub mod Cycles
pub mod Ends
use kokkos_kernel_forge.Base.{
  ℕ, zero, suc, Bool, true, false, ◌&&◌, Option, none, some, List, [], ◌∷◌, ◌++◌, ◌==◌, nat_eq, not,
  if◌then◌else◌, String,
}
use kokkos_kernel_forge.Base.Text.{Text, text}
use kokkos_kernel_forge.Base.Result.{Result, ok, err, ◌>>=◌}
use kokkos_kernel_forge.Plugins.Syntax.{
  Scope, namespace_scope, anonymous_namespace, inner_scope, CxxType, class_type, reference_type,
  other_type, Member, base_member, field_member, other_member, Method, ClassDecl, Classes,
  field_part, FieldPath, ViewInfo, Found, each, required, dyn_cast, is_named, unless_view,
}

-- The class is that of the type with no reference and no qualifiers.
unfoldable pub get_struct_decl : CxxType → Option ℕ
get_struct_decl (class_type c) = some c
get_struct_decl (reference_type c) = some c
get_struct_decl other_type = none

-- `lookup` by the name, then `find_if`.
unfoldable pub get_enclosed_decl :
    {A : Type 0} → (A → Text) → String → (A → Bool) → List A → Option A
get_enclosed_decl name_of name p [] = none
get_enclosed_decl name_of name p (decl ∷ decls) =
    if is_named (name_of decl) name && p decl
    then some decl
    else get_enclosed_decl name_of name p decls

-- `getEnclosingNamespaceContext()`: the classes and functions around the declaration are passed over.
unfoldable pub enclosing_namespace : List Scope → Option Scope
enclosing_namespace [] = none
enclosing_namespace (inner_scope ∷ scopes) = enclosing_namespace scopes
enclosing_namespace (scope ∷ scopes) = some scope

unfoldable pub is_namespace : String → Option Scope → Bool
is_namespace expected (some (namespace_scope name)) = is_named name expected
is_namespace expected scope = false

module _ (classes : Classes) where
  -- The two tests that `visit_view` begins with.
  unfoldable pub is_view : ℕ → Bool
  unfolding enclosing_namespace is_namespace
  is_view view =
      is_named (classes view).name "View"
      && is_namespace "Kokkos" (enclosing_namespace (classes view).scopes)

  unfoldable pub data_method : ℕ → Option Method
  unfolding get_enclosed_decl
  data_method view =
      get_enclosed_decl (λ (m : Method). m.name) "data" (λ (m : Method). m.param_size == 0)
        (classes view).methods

  unfoldable pub memory_space_alias : ℕ → Option (Text × CxxType)
  unfolding get_enclosed_decl
  memory_space_alias view =
      get_enclosed_decl (λ (a : Text × CxxType). a.0) "memory_space" (λ (a : Text × CxxType). true)
        (classes view).aliases

  unfoldable pub name_function : ℕ → Option Method
  unfolding get_enclosed_decl
  name_function space =
      get_enclosed_decl (λ (m : Method). m.name) "name"
        (λ (m : Method). m.is_static && m.param_size == 0) (classes space).methods

  -- The rest of it up to `push_back`: the memory space, or the error. The lookup in the class of an alias for
  -- something else is one through a null pointer.
  unfoldable pub memory_space_of : ℕ → Result ℕ
  unfolding get_struct_decl data_method memory_space_alias name_function
  memory_space_of view = do
    data_decl ← dyn_cast (data_method view)
    method ← required "Failed to find the data method of a View" data_decl
    alias_decl ← dyn_cast (memory_space_alias view)
    alias ← required "Failed to find the memory_space attribute of a View" alias_decl
    memory_space ← required "null pointer" (get_struct_decl alias.1)
    name_decl ← dyn_cast (name_function memory_space)
    function ← required "Failed to find the name function of a memory space" name_decl
    ok memory_space

  -- The answer says whether the class is a view; if so, it has been added.
  unfoldable pub visit_view : FieldPath → ℕ → List ViewInfo → Result (Bool × List ViewInfo)
  unfolding is_view memory_space_of
  visit_view root view views =
      if not (is_view view)
      then ok (false, views)
      else (memory_space_of view >>= λ memory_space.
          ok (true, views ++ record { root = root; memory_space = memory_space } ∷ []))

  -- What is done with a class that is there.
  abbrev pub visit_struct_decl :
      (FieldPath → ℕ → List ViewInfo → Found) → FieldPath → Option ℕ → List ViewInfo → Found
  visit_struct_decl visit_struct root none views = some (ok views)
  visit_struct_decl visit_struct root (some struct_decl) views =
      unless_view (visit_view root struct_decl views) (visit_struct root struct_decl)

  -- `visit(const FieldDecl*, Expr*)`, by the type of the field; `visit_struct` is `visit(CXXRecordDecl*, Expr*)`.
  unfoldable pub visit_field :
      (FieldPath → ℕ → List ViewInfo → Found) → FieldPath → CxxType → List ViewInfo → Found
  unfolding visit_view get_struct_decl
  visit_field visit_struct root type views =
      visit_struct_decl visit_struct root (get_struct_decl type) views

  -- One turn of the loop over `record->fields()`, which has neither bases nor functions.
  unfoldable pub visit_member :
      (FieldPath → ℕ → List ViewInfo → Found) → FieldPath → Member → List ViewInfo → Found
  unfolding visit_field
  visit_member visit_struct root (field_member name type) views =
      visit_field visit_struct (root ++ field_part name ∷ []) type views
  visit_member visit_struct root (base_member base) views = some (ok views)
  visit_member visit_struct root other_member views = some (ok views)

  -- `visit(CXXRecordDecl*, Expr*)`.
  unfoldable pub visit : ℕ → FieldPath → ℕ → List ViewInfo → Found
  unfolding each visit_member
  visit zero root struct views = none
  visit (suc fuel) root struct views =
      each (visit_member (visit fuel) root) (classes struct).members views
