-- ===== src/Plugins/Agree.antt =====
-- The two plugins, on the functors that both were written for.
pub mod Bodies
use kokkos_kernel_forge.Base.{
  ℕ, ◌≡◌, ◌∙◌, refl, sym, ap, inl, inr, Bool, true, false, ◌&&◌, Option, some, none, List, [], ◌∷◌,
  All, Bool-cases, String,
}
use kokkos_kernel_forge.Base.Text.{Text}
use kokkos_kernel_forge.Base.Result.{Result, ok, err}
use kokkos_kernel_forge.Plugins.Syntax.{
  Scope, namespace_scope, anonymous_namespace, inner_scope, CxxType, class_type, reference_type,
  other_type, Member, base_member, field_member, other_member, Classes, Part, field_part, FieldPath,
  ViewInfo, Found, is_named,
}
use kokkos_kernel_forge.Plugins.Walk.{keep, parts, Language}
use kokkos_kernel_forge.Plugins.Walk.Same.{Same, walk-Same}
use kokkos_kernel_forge.Plugins.Clang as Clang
use kokkos_kernel_forge.Plugins.Clang.{get_struct_decl, enclosing_namespace, is_namespace}
use kokkos_kernel_forge.Plugins.Clang.Walks as ClangWalks
use kokkos_kernel_forge.Plugins.Gcc as Gcc
use kokkos_kernel_forge.Plugins.Gcc.{Lookups, in_namespace}
use kokkos_kernel_forge.Plugins.Gcc.Walks as GccWalks
use kokkos_kernel_forge.Plugins.Gcc.Walks.{IsFunctor}

-- No base, no reference to a class, and no union.
abbrev pub IsPlain : Classes → Member → Type 0
IsPlain classes (base_member base) = ⊥
IsPlain classes (field_member name (class_type c)) = (classes c).is_union ≡ false
IsPlain classes (field_member name (reference_type c)) = ⊥
IsPlain classes (field_member name other_type) = Unit
IsPlain classes other_member = Unit

-- Not in a class or a function.
abbrev pub IsOutermost : List Scope → Type 0
IsOutermost (inner_scope ∷ scopes) = ⊥
IsOutermost (namespace_scope name ∷ scopes) = Unit
IsOutermost (anonymous_namespace ∷ scopes) = Unit
IsOutermost [] = Unit

-- A program on which the two see the same: the members are plain, the classes named `View` stand in no class or
-- function, and both compilers find in the views of Kokkos what the plugins look for.
pub record IsCommon (classes : Classes) (lookups : Lookups) : Type 0 where
  pub plain : (c : ℕ) → All (IsPlain classes) (classes c).members
  pub outermost : (c : ℕ) → is_named (classes c).name "View" ≡ true → IsOutermost (classes c).scopes
  pub complete :
      (c : ℕ)
      → Gcc.is_view classes c ≡ true
      → (space : ℕ) × (Clang.memory_space_of classes c ≡ ok space)
        × (Gcc.memory_space_of lookups c ≡ ok space)

namespaces-eq :
    (expected : String) (scopes : List Scope)
    → IsOutermost scopes
    → is_namespace expected (enclosing_namespace scopes) ≡ in_namespace expected scopes
unfolding is_namespace enclosing_namespace in_namespace
namespaces-eq expected [] outermost = refl
namespaces-eq expected (inner_scope ∷ scopes) outermost = elim outermost [ ]
namespaces-eq expected (namespace_scope name ∷ scopes) outermost = refl
namespaces-eq expected (anonymous_namespace ∷ scopes) outermost = refl

is_view-eq :
    (classes : Classes) (c : ℕ)
    → (is_named (classes c).name "View" ≡ true → IsOutermost (classes c).scopes)
    → Clang.is_view classes c ≡ Gcc.is_view classes c
unfolding Clang.is_view Gcc.is_view
is_view-eq classes c outermost = elim (Bool-cases (is_named (classes c).name "View")) [
  | inl named ↦ rw named (namespaces-eq "Kokkos" (classes c).scopes (outermost named))
  | inr other ↦ rw other refl
]

parts-eq :
    (classes : Classes) (ms : List Member)
    → All (IsPlain classes) ms
    → parts ClangWalks.part_of ms ≡ parts (GccWalks.part_of classes) ms
unfolding parts get_struct_decl
parts-eq classes [] plain = refl
parts-eq classes (base_member base ∷ ms) (first, plain) = elim first [ ]
parts-eq classes (field_member name (class_type c) ∷ ms) (first, plain) =
    rw first (ap (λ rest. (field_part name, c) ∷ rest) (parts-eq classes ms plain))
parts-eq classes (field_member name (reference_type c) ∷ ms) (first, plain) = elim first [ ]
parts-eq classes (field_member name other_type ∷ ms) (first, plain) = parts-eq classes ms plain
parts-eq classes (other_member ∷ ms) (first, plain) = parts-eq classes ms plain

languages-Same :
    (classes : Classes) (lookups : Lookups)
    → IsCommon classes lookups
    → Same (ClangWalks.language classes) (GccWalks.language classes lookups)
unfolding ClangWalks.language GccWalks.language
languages-Same classes lookups common = record {
  children = λ c. parts-eq classes (classes c).members (common.plain c);
  is_view = λ c. is_view-eq classes c (common.outermost c);
  memory_space_of = λ c view.
      let (space, clang, gcc) =
        common.complete c (sym (is_view-eq classes c (common.outermost c)) ∙ view) in
      clang ∙ sym gcc;
}

-- In a program with no bases, references to classes or unions among the members, whose classes named `View` stand in
-- no class or function, and whose views have what the plugins look for in the eyes of both compilers, the two plugins
-- find the same views in the same order in a functor that is a class and neither a union nor a view.
pub visit-get_functor_views :
    (classes : Classes) (lookups : Lookups) (fuel : ℕ) (root : FieldPath) (c : ℕ)
    → IsCommon classes lookups
    → IsFunctor classes c
    → Clang.visit classes fuel root c []
      ≡ Gcc.get_functor_views classes lookups fuel root (class_type c)
visit-get_functor_views classes lookups fuel root c common f =
    ClangWalks.visit-walk classes fuel root c []
    ∙ walk-Same (ClangWalks.language classes) (GccWalks.language classes lookups) fuel root c []
        (languages-Same classes lookups common)
    ∙ sym (GccWalks.get_functor_views-walk classes lookups fuel root c f)
