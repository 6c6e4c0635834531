-- ===== src/Plugins/Gcc/Walks.antt =====
-- The visitor of src/krepe/compiler_plugins/gcc.cpp compared with a walk.
use kokkos_kernel_forge.Base.{
  ℕ, zero, suc, false, ◌≡◌, ◌∙◌, refl, ap, inl, inr, Option, none, some, List, [], ◌∷◌, ◌++◌,
  if◌then◌else◌, Bool-cases,
}
use mathlib.Core.Path.{fun_ext}
use kokkos_kernel_forge.Plugins.Syntax.{
  class_type, reference_type, other_type, Member, base_member, field_member, other_member, Classes,
  Part, field_part, base_part, FieldPath, ViewInfo,
}
use kokkos_kernel_forge.Plugins.Walk.{
  Language, visit_part, walk, parts, at_part, each-parts, unless_view-push,
}
use kokkos_kernel_forge.Plugins.Gcc.{
  Lookups, is_view, memory_space_of, visit_view, visit_record, visit_type, visit_member,
  visit_members, get_functor_views,
}

-- A base or a field, unless it is a union.
abbrev pub child : Classes → Part → ℕ → Option (Part × ℕ)
child classes part c = if (classes c).is_union then none else some (part, c)

abbrev pub part_of : Classes → Member → Option (Part × ℕ)
part_of classes (field_member name (class_type c)) = child classes (field_part name) c
part_of classes (field_member name (reference_type c)) = none
part_of classes (field_member name other_type) = none
part_of classes (base_member base) = child classes (base_part base) base
part_of classes other_member = none

unfoldable pub language : Classes → Lookups → Language
unfolding parts is_view memory_space_of
language classes lookups = record {
  children = λ c. parts (part_of classes) (classes c).members;
  is_view = is_view classes;
  memory_space_of = memory_space_of lookups;
}

visit_type-part :
    (classes : Classes) (lookups : Lookups) (fuel : ℕ) (root : FieldPath) (part : Part) (c : ℕ)
    (views : List ViewInfo)
    → visit_type classes lookups
        (walk (language classes lookups) fuel)
        (root ++ part ∷ [])
        (class_type c)
        views
      ≡ at_part
          (visit_part (language classes lookups) (walk (language classes lookups) fuel) root)
          (child classes part c)
          views
unfolding visit_type visit_record visit_view language
visit_type-part classes lookups fuel root part c views = elim (Bool-cases (classes c).is_union) [
  | inl union ↦ rw union refl
  | inr struct ↦ rw struct (
      unless_view-push (is_view classes c) (memory_space_of lookups c) (root ++ part ∷ []) views
        (walk (language classes lookups) fuel (root ++ part ∷ []) c))
]

visit_member-part :
    (classes : Classes) (lookups : Lookups) (fuel : ℕ) (root : FieldPath) (m : Member)
    (views : List ViewInfo)
    → visit_member classes lookups (walk (language classes lookups) fuel) root m views
      ≡ at_part
          (visit_part (language classes lookups) (walk (language classes lookups) fuel) root)
          (part_of classes m)
          views
unfolding visit_member visit_type
visit_member-part classes lookups fuel root (base_member base) views =
    visit_type-part classes lookups fuel root (base_part base) base views
visit_member-part classes lookups fuel root (field_member name (class_type c)) views =
    visit_type-part classes lookups fuel root (field_part name) c views
visit_member-part classes lookups fuel root other_member views = refl
visit_member-part classes lookups fuel root (field_member name other_type) views = refl
visit_member-part classes lookups fuel root (field_member name (reference_type c)) views = refl

-- The loop of the gcc plugin over the members is the walk through the bases and the fields that are held by
-- value, those of unions left out.
pub visit_members-walk :
    (classes : Classes) (lookups : Lookups) (fuel : ℕ) (root : FieldPath) (c : ℕ)
    (views : List ViewInfo)
    → visit_members classes lookups fuel root c views
      ≡ walk (language classes lookups) fuel root c views
unfolding visit_members walk language
visit_members-walk classes lookups zero root c views = refl
visit_members-walk classes lookups (suc fuel) root c views =
    each-parts (visit_member classes lookups (visit_members classes lookups fuel) root)
      (visit_part (language classes lookups) (walk (language classes lookups) fuel) root)
      (part_of classes) (classes c).members views
      (λ m us.
        ap (λ enter. visit_member classes lookups enter root m us)
          (fun_ext λ r. fun_ext λ d. fun_ext λ vs. visit_members-walk classes lookups fuel r d vs)
        ∙ visit_member-part classes lookups fuel root m us)

-- A functor that is a class and no view.
pub record IsFunctor (classes : Classes) (c : ℕ) : Type 0 where
  pub no_union : (classes c).is_union ≡ false
  pub no_view : is_view classes c ≡ false

pub get_functor_views-walk :
    (classes : Classes) (lookups : Lookups) (fuel : ℕ) (root : FieldPath) (c : ℕ)
    → IsFunctor classes c
    → get_functor_views classes lookups fuel root (class_type c)
      ≡ walk (language classes lookups) fuel root c []
unfolding get_functor_views visit_type visit_record visit_view
get_functor_views-walk classes lookups fuel root c f =
    rw (f.no_union, f.no_view) (visit_members-walk classes lookups fuel root c [])
