-- ===== src/Plugins/Clang/Walks.antt =====
-- The visitor of src/krepe/compiler_plugins/clang.cpp compared with a walk.
use kokkos_kernel_forge.Base.{
  ℕ, zero, suc, ◌≡◌, ◌∙◌, refl, sym, ap, ◌↔◌, ◌⊎◌, inl, inr, Option, none, some, List, [], ◌∷◌,
  ◌++◌,
}
use mathlib.Core.Path.{fun_ext}
use kokkos_kernel_forge.Base.Result.{ok}
use kokkos_kernel_forge.Plugins.Syntax.{
  class_type, reference_type, other_type, Member, base_member, field_member, other_member, Classes,
  Part, field_part, FieldPath, ViewInfo,
}
use kokkos_kernel_forge.Plugins.Walk.{
  Language, visit_part, walk, parts, at_part, each-parts, unless_view-push,
}
use kokkos_kernel_forge.Plugins.Walk.Exact.{In, Finds, walk-Finds}
use kokkos_kernel_forge.Plugins.Clang.{
  get_struct_decl, is_view, memory_space_of, visit_view, visit_field, visit_member, visit,
}

-- A field that holds a class or is a reference to one.
abbrev pub part_of : Member → Option (Part × ℕ)
part_of (field_member name (class_type c)) = some (field_part name, c)
part_of (field_member name (reference_type c)) = some (field_part name, c)
part_of (field_member name other_type) = none
part_of (base_member base) = none
part_of other_member = none

unfoldable pub language : Classes → Language
unfolding parts is_view memory_space_of
language classes = record {
  children = λ c. parts part_of (classes c).members;
  is_view = is_view classes;
  memory_space_of = memory_space_of classes;
}

visit_member-part :
    (classes : Classes) (fuel : ℕ) (root : FieldPath) (m : Member) (views : List ViewInfo)
    → visit_member classes (walk (language classes) fuel) root m views
      ≡ at_part
          (visit_part (language classes) (walk (language classes) fuel) root)
          (part_of m)
          views
unfolding visit_member visit_field visit_view language get_struct_decl
visit_member-part classes fuel root (base_member base) views = refl
visit_member-part classes fuel root other_member views = refl
visit_member-part classes fuel root (field_member name other_type) views = refl
visit_member-part classes fuel root (field_member name (class_type c)) views =
    unless_view-push (is_view classes c) (memory_space_of classes c) (root ++ field_part name ∷ [])
      views (walk (language classes) fuel (root ++ field_part name ∷ []) c)
visit_member-part classes fuel root (field_member name (reference_type c)) views =
    unless_view-push (is_view classes c) (memory_space_of classes c) (root ++ field_part name ∷ [])
      views (walk (language classes) fuel (root ++ field_part name ∷ []) c)

-- The visitor of the clang plugin is the walk through the fields, those of the type of a reference included and
-- those of the bases left out.
pub visit-walk :
    (classes : Classes) (fuel : ℕ) (root : FieldPath) (c : ℕ) (views : List ViewInfo)
    → visit classes fuel root c views ≡ walk (language classes) fuel root c views
unfolding visit walk language
visit-walk classes zero root c views = refl
visit-walk classes (suc fuel) root c views =
    each-parts (visit_member classes (visit classes fuel) root)
      (visit_part (language classes) (walk (language classes) fuel) root) part_of
      (classes c).members views
      (λ m us.
        ap (λ enter. visit_member classes enter root m us)
          (fun_ext λ r. fun_ext λ d. fun_ext λ vs. visit-walk classes fuel r d vs)
        ∙ visit_member-part classes fuel root m us)

-- When the visit of a functor ends with no `abort`, the views are those that a path of fields leads to from the
-- functor through classes that are no views, fields of a reference included and bases left out.
pub visit-Finds :
    (classes : Classes) (fuel : ℕ) (root : FieldPath) (c : ℕ) (ws : List ViewInfo)
    → visit classes fuel root c [] ≡ some (ok ws)
    → (v : ViewInfo) → In v ws ↔ Finds (language classes) c root v
visit-Finds classes fuel root c ws done v = found (
    walk-Finds (language classes) fuel root c [] ws (sym (visit-walk classes fuel root c []) ∙ done)
      v)
  where
    found :
        In v ws ↔ (In v [] ⊎ Finds (language classes) c root v)
        → In v ws ↔ Finds (language classes) c root v
    found (back, forth) =
        (λ h. elim (back h) [ inl k ↦ elim k [ ] | inr k ↦ k ], λ h. forth (inr h))
