-- ===== src/Plugins/Clang/Ends.antt =====
-- The end of the visit of src/krepe/compiler_plugins/clang.cpp.
use kokkos_kernel_forge.Base.{ℕ, ◌<◌, List, [], ◌∷◌, All}
use kokkos_kernel_forge.Plugins.Syntax.{
  class_type, reference_type, other_type, Member, base_member, field_member, other_member, Classes,
  Part, FieldPath, ViewInfo,
}
use kokkos_kernel_forge.Plugins.Walk.{parts}
use kokkos_kernel_forge.Plugins.Walk.Ends.{Ends, walk-Ends}
use kokkos_kernel_forge.Plugins.Clang.{get_struct_decl, visit}
use kokkos_kernel_forge.Plugins.Clang.Walks.{part_of, language, visit-walk}

-- What a field holds or refers to is smaller.
abbrev pub ReachedBelow : (ℕ → ℕ) → ℕ → Member → Type 0
ReachedBelow rank bound (base_member base) = Unit
ReachedBelow rank bound (field_member name (class_type c)) = rank c < bound
ReachedBelow rank bound (field_member name (reference_type c)) = rank c < bound
ReachedBelow rank bound (field_member name other_type) = Unit
ReachedBelow rank bound other_member = Unit

All-parts :
    (rank : ℕ → ℕ) (bound : ℕ) (ms : List Member)
    → All (ReachedBelow rank bound) ms
    → All (λ (child : Part × ℕ). rank child.1 < bound) (parts part_of ms)
unfolding parts get_struct_decl
All-parts rank bound [] reached = tt
All-parts rank bound (base_member base ∷ ms) (first, reached) = All-parts rank bound ms reached
All-parts rank bound (field_member name (class_type c) ∷ ms) (first, reached) =
    (first, All-parts rank bound ms reached)
All-parts rank bound (field_member name (reference_type c) ∷ ms) (first, reached) =
    (first, All-parts rank bound ms reached)
All-parts rank bound (field_member name other_type ∷ ms) (first, reached) =
    All-parts rank bound ms reached
All-parts rank bound (other_member ∷ ms) (first, reached) = All-parts rank bound ms reached

-- When the classes that the fields of a class hold or refer to have smaller ranks than the class, fuel above the rank
-- of the functor's class is enough: the visit of the functor gives views or an error, the line before an `abort` or a
-- null pointer that `dyn_cast` is given, and the error is one that the lookups for a view end in.
pub visit-Ends :
    (classes : Classes) (rank : ℕ → ℕ)
    → ((c : ℕ) → All (ReachedBelow rank (rank c)) (classes c).members)
    → (fuel : ℕ) (root : FieldPath) (c : ℕ) (views : List ViewInfo) → rank c < fuel
    → Ends (language classes) (visit classes fuel root c views)
unfolding language
visit-Ends classes rank reached fuel root c views enough =
    rw (visit-walk classes fuel root c views) (
      walk-Ends (language classes) rank
        (λ d. All-parts rank (rank d) (classes d).members (reached d)) fuel root c views enough)
