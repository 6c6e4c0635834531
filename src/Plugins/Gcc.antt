-- ===== src/Plugins/Gcc.antt =====
-- src/krepe/compiler_plugins/gcc.cpp: the visitor of the functor.
pub mod Walks
pub mod Patch
pub mod Views
use kokkos_kernel_forge.Base.{
  ℕ, zero, suc, Bool, true, false, ◌&&◌, Option, none, some, List, [], ◌∷◌, ◌++◌, not,
  if◌then◌else◌, String,
}
use kokkos_kernel_forge.Base.Text.{Text, text}
use kokkos_kernel_forge.Base.Result.{Result, ok, err, ◌>>=◌}
use kokkos_kernel_forge.Plugins.Syntax.{
  Scope, namespace_scope, anonymous_namespace, inner_scope, CxxType, class_type, reference_type,
  other_type, Member, base_member, field_member, other_member, Classes, base_part, field_part,
  FieldPath, ViewInfo, Found, each, required, is_named, unless_view,
}

-- What `lookup_qualified_name` finds in a class: whether there is a function of a name, and the class that a type
-- of a name is.
pub record Lookups : Type 0 where
  pub normal : ℕ → Text → Option (Unit {0})
  pub type : ℕ → Text → Option ℕ

-- `TYPE_CONTEXT` is the innermost scope.
unfoldable pub in_namespace : String → List Scope → Bool
in_namespace expected (namespace_scope name ∷ scopes) = is_named name expected
in_namespace expected scopes = false

-- The two tests that `visit_view` begins with.
unfoldable pub is_view : Classes → ℕ → Bool
unfolding in_namespace
is_view classes node =
    is_named (classes node).name "View" && in_namespace "Kokkos" (classes node).scopes

-- The rest of it up to `emplace_back`: the memory space, or the line before an `abort`.
unfoldable pub memory_space_of : Lookups → ℕ → Result ℕ
memory_space_of lookups node =
    required "ERROR: Failed to find the data method of Kokkos::View"
      (lookups.normal node (text "data"))
    >>= λ data_function.
        required "ERROR: Failed to find the memory_space of Kokkos::View"
          (lookups.type node (text "memory_space"))
        >>= λ memory_space.
            required "ERROR: Failed to find the name method of a memory space"
              (lookups.normal memory_space (text "name"))
            >>= λ name_function. ok memory_space

module _ (classes : Classes) (lookups : Lookups) where
  -- The answer says whether the class is a view; if so, it has been added.
  unfoldable pub visit_view : List ViewInfo → FieldPath → ℕ → Result (Bool × List ViewInfo)
  unfolding is_view memory_space_of
  visit_view views root node =
      if not (is_view classes node)
      then ok (false, views)
      else (memory_space_of lookups node >>= λ memory_space.
          ok (true, views ++ record { root = root; memory_space = memory_space } ∷ []))

  -- `visit_members` is the loop over `TYPE_FIELDS(record)`.
  unfoldable pub visit_record :
      (FieldPath → ℕ → List ViewInfo → Found) → FieldPath → ℕ → List ViewInfo → Found
  unfolding visit_view
  visit_record visit_members root record_type views =
      unless_view (visit_view views root record_type) (visit_members root record_type)

  -- `visit` of a type: a `RECORD_TYPE` is a class that is no union.
  unfoldable pub visit_type :
      (FieldPath → ℕ → List ViewInfo → Found) → FieldPath → CxxType → List ViewInfo → Found
  unfolding visit_record
  visit_type visit_members root (class_type c) views =
      if (classes c).is_union then some (ok views) else visit_record visit_members root c views
  visit_type visit_members root (reference_type c) views = some (ok views)
  visit_type visit_members root other_type views = some (ok views)

  -- `visit` of a member: a `FIELD_DECL` is a base or a data member.
  unfoldable pub visit_member :
      (FieldPath → ℕ → List ViewInfo → Found) → FieldPath → Member → List ViewInfo → Found
  unfolding visit_type
  visit_member visit_members root (field_member name type) views =
      visit_type visit_members (root ++ field_part name ∷ []) type views
  visit_member visit_members root (base_member base) views =
      visit_type visit_members (root ++ base_part base ∷ []) (class_type base) views
  visit_member visit_members root other_member views = some (ok views)

  unfoldable pub visit_members : ℕ → FieldPath → ℕ → List ViewInfo → Found
  unfolding each visit_member
  visit_members zero root record_type views = none
  visit_members (suc fuel) root record_type views =
      each (visit_member (visit_members fuel) root) (classes record_type).members views

  unfoldable pub get_functor_views : ℕ → FieldPath → CxxType → Found
  unfolding visit_type visit_members
  get_functor_views fuel functor_variable functor_type =
      visit_type (visit_members fuel) functor_variable functor_type []
