-- ===== src/Plugins/Clang/Cycles.antt =====
-- The visitor of src/krepe/compiler_plugins/clang.cpp on references, which the classes of a program may hold in
-- circles.
use kokkos_kernel_forge.Base.{
  ℕ, ◌≡◌, ◌∙◌, refl, inl, inr, true, false, Option, some, none, List, [], ◌∷◌,
}
use kokkos_kernel_forge.Base.Text.{Text}
use kokkos_kernel_forge.Base.Result.{ok}
use kokkos_kernel_forge.Plugins.Syntax.{
  reference_type, field_member, Classes, FieldPath, ViewInfo, field_part,
}
use kokkos_kernel_forge.Plugins.Walk.{keep, parts}
use kokkos_kernel_forge.Plugins.Walk.Exact.{In}
use kokkos_kernel_forge.Plugins.Walk.Cycles.{Endless, walk-none}
use kokkos_kernel_forge.Plugins.Clang.{get_struct_decl, is_view, memory_space_of, visit}
use kokkos_kernel_forge.Plugins.Clang.Walks.{part_of, language, visit-walk}

In-keep : {A : Type 0} (x : A) (o : Option A) (xs : List A) → In x xs → In x (keep o xs)
In-keep x none xs there = there
In-keep x (some y) xs there = inr there

In-parts :
    {A B : Type 0} (f : A → Option B) (x : A) (y : B) (xs : List A)
    → In x xs
    → f x ≡ some y
    → In y (parts f xs)
unfolding parts
In-parts f x y [] there e = elim there [ ]
In-parts f x y (z ∷ xs) (inl here) e = rw (here, e) (inl refl)
In-parts f x y (z ∷ xs) (inr there) e = In-keep y (f z) (parts f xs) (In-parts f x y xs there e)

-- Each class of a kind has a field that is a reference to a class of the same kind, and that class is no view.
abbrev pub RefersOn : Classes → (ℕ → Type 0) → Type 0
RefersOn classes P =
    (c : ℕ)
    → P c
    → (name : Text) × (d : ℕ) × In (field_member name (reference_type d)) (classes c).members
      × (is_view classes d ≡ false)
      × P d

RefersOn-Endless :
    (classes : Classes) (P : ℕ → Type 0) → RefersOn classes P → Endless (language classes) P
unfolding language get_struct_decl
RefersOn-Endless classes P circle d q =
    let (name, next, there, inner, r) = circle d q in
    (
      (field_part name, next),
      In-parts part_of (field_member name (reference_type next)) (field_part name, next)
          (classes d).members there refl,
      inner,
      r,
    )

-- When each class of a kind has a field that is a reference to a class of the same kind, and that class is no view,
-- and every view has what the plugin looks for, then the visit of a functor of the kind does not end: it uses up any
-- fuel.
pub visit-none :
    (classes : Classes) (P : ℕ → Type 0)
    → RefersOn classes P
    → ((d : ℕ) → is_view classes d ≡ true → (m : ℕ) × (memory_space_of classes d ≡ ok m))
    → (fuel : ℕ) (root : FieldPath) (c : ℕ) (views : List ViewInfo) → P c
    → visit classes fuel root c views ≡ none
unfolding language
visit-none classes P circle complete fuel root c views p =
    visit-walk classes fuel root c views
    ∙ walk-none (language classes) P (RefersOn-Endless classes P circle) complete fuel root c views
        p
