-- ===== src/Plugins/Gcc/Views.antt =====
-- The views that the visitor of src/krepe/compiler_plugins/gcc.cpp finds, and its end.
use kokkos_kernel_forge.Base.{
  ℕ, ◌<◌, ◌≡◌, ◌∙◌, refl, sym, ◌↔◌, ◌⊎◌, inl, inr, some, List, [], ◌∷◌, All, Bool-cases,
}
use kokkos_kernel_forge.Base.Result.{ok}
use kokkos_kernel_forge.Plugins.Syntax.{
  CxxType, class_type, reference_type, other_type, Member, base_member, field_member, other_member,
  Classes, Part, FieldPath, base_part, field_part, ViewInfo,
}
use kokkos_kernel_forge.Plugins.Walk.{parts, keep, unless_view-push}
use kokkos_kernel_forge.Plugins.Walk.Exact.{In, Finds, walk-Finds}
use kokkos_kernel_forge.Plugins.Walk.Ends.{Ends, push_view-Ends, walk-Ends}
use kokkos_kernel_forge.Plugins.Gcc.{
  Lookups, is_view, memory_space_of, visit_view, visit_record, visit_type, visit_members,
  get_functor_views,
}
use kokkos_kernel_forge.Plugins.Gcc.Walks.{
  child, part_of, language, IsFunctor, visit_members-walk, get_functor_views-walk,
}

-- When the visit of a functor that is a class and no view ends with no `abort`, the views are those that a path of
-- bases and fields, held by value and of no union, leads to from the functor through classes that are no views.
pub get_functor_views-Finds :
    (classes : Classes) (lookups : Lookups) (fuel : ℕ) (root : FieldPath) (c : ℕ)
    (ws : List ViewInfo)
    → IsFunctor classes c
    → get_functor_views classes lookups fuel root (class_type c) ≡ some (ok ws)
    → (v : ViewInfo) → In v ws ↔ Finds (language classes lookups) c root v
get_functor_views-Finds classes lookups fuel root c ws f done v = found (
    walk-Finds (language classes lookups) fuel root c [] ws
      (sym (get_functor_views-walk classes lookups fuel root c f) ∙ done) v)
  where
    found :
        In v ws ↔ (In v [] ⊎ Finds (language classes lookups) c root v)
        → In v ws ↔ Finds (language classes lookups) c root v
    found (back, forth) =
        (λ h. elim (back h) [ inl k ↦ elim k [ ] | inr k ↦ k ], λ h. forth (inr h))

-- What is held by value is smaller.
abbrev pub HeldBelow : (ℕ → ℕ) → ℕ → Member → Type 0
HeldBelow rank bound (base_member base) = rank base < bound
HeldBelow rank bound (field_member name (class_type c)) = rank c < bound
HeldBelow rank bound (field_member name (reference_type c)) = Unit
HeldBelow rank bound (field_member name other_type) = Unit
HeldBelow rank bound other_member = Unit

abbrev pub IsBelow : (ℕ → ℕ) → ℕ → CxxType → Type 0
IsBelow rank bound (class_type c) = rank c < bound
IsBelow rank bound (reference_type c) = Unit
IsBelow rank bound other_type = Unit

All-keep-child :
    (classes : Classes) (rank : ℕ → ℕ) (bound : ℕ) (part : Part) (c : ℕ)
    (children : List (Part × ℕ))
    → rank c < bound
    → All (λ (child : Part × ℕ). rank child.1 < bound) children
    → All (λ (child : Part × ℕ). rank child.1 < bound) (keep (child classes part c) children)
All-keep-child classes rank bound part c children first rest =
    elim (Bool-cases (classes c).is_union) [
      | inl union ↦ rw union rest
      | inr struct ↦ rw struct (first, rest)
    ]

All-parts :
    (classes : Classes) (rank : ℕ → ℕ) (bound : ℕ) (ms : List Member)
    → All (HeldBelow rank bound) ms
    → All (λ (child : Part × ℕ). rank child.1 < bound) (parts (part_of classes) ms)
unfolding parts
All-parts classes rank bound [] held = tt
All-parts classes rank bound (base_member base ∷ ms) (first, held) =
    All-keep-child classes rank bound (base_part base) base (parts (part_of classes) ms) first
      (All-parts classes rank bound ms held)
All-parts classes rank bound (field_member name (class_type c) ∷ ms) (first, held) =
    All-keep-child classes rank bound (field_part name) c (parts (part_of classes) ms) first
      (All-parts classes rank bound ms held)
All-parts classes rank bound (field_member name (reference_type c) ∷ ms) (first, held) =
    All-parts classes rank bound ms held
All-parts classes rank bound (field_member name other_type ∷ ms) (first, held) =
    All-parts classes rank bound ms held
All-parts classes rank bound (other_member ∷ ms) (first, held) =
    All-parts classes rank bound ms held

-- When the bases and the fields that a class holds by value have smaller ranks than the class, fuel above the rank
-- of the functor's class is enough: the visit of the functor gives views or the line before an `abort`, and the
-- line is one that the lookups for a view end in.
pub get_functor_views-Ends :
    (classes : Classes) (lookups : Lookups) (rank : ℕ → ℕ)
    → ((c : ℕ) → All (HeldBelow rank (rank c)) (classes c).members)
    → (fuel : ℕ) (root : FieldPath) (type : CxxType) → IsBelow rank fuel type
    → Ends (language classes lookups) (get_functor_views classes lookups fuel root type)
unfolding get_functor_views visit_type visit_record visit_view language
get_functor_views-Ends classes lookups rank held fuel root (reference_type c) enough =
    (ok [], refl, λ what e. cc)
get_functor_views-Ends classes lookups rank held fuel root other_type enough =
    (ok [], refl, λ what e. cc)
get_functor_views-Ends classes lookups rank held fuel root (class_type c) enough =
    elim (Bool-cases (classes c).is_union) [
      | inl union ↦ rw union (ok [], refl, λ what e. cc)
      | inr struct ↦
          rw
            (
              struct,
              unless_view-push (is_view classes c) (memory_space_of lookups c) root []
                  (visit_members classes lookups fuel root c),
            )
            (elim (Bool-cases (is_view classes c)) [
              | inl view ↦ rw view (
                  push_view-Ends (language classes lookups) root c (memory_space_of lookups c) []
                    view refl)
              | inr inner ↦
                  rw (inner, visit_members-walk classes lookups fuel root c [])
                    (walk-Ends (language classes lookups) rank
                      (λ d. All-parts classes rank (rank d) (classes d).members (held d)) fuel root
                      c [] enough)
            ])
    ]
