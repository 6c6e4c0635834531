-- ===== src/Plugins/Walk/Same.antt =====
-- Walks that look at the same parts and see the same views.
use kokkos_kernel_forge.Base.{
  ℕ, zero, suc, ◌≡◌, ◌∙◌, refl, sym, ap, inl, inr, true, List, [], ◌∷◌, ◌++◌, Bool-cases,
}
use mathlib.Core.Path.{fun_ext}
use kokkos_kernel_forge.Plugins.Syntax.{Part, FieldPath, ViewInfo, Found, each}
use kokkos_kernel_forge.Plugins.Walk.{Language, visit_part, walk}

pub record Same (l m : Language) : Type 0 where
  pub children : (c : ℕ) → l.children c ≡ m.children c
  pub is_view : (c : ℕ) → l.is_view c ≡ m.is_view c
  pub memory_space_of : (c : ℕ) → l.is_view c ≡ true → l.memory_space_of c ≡ m.memory_space_of c

visit_part-Same :
    (l m : Language) (enter enter2 : FieldPath → ℕ → List ViewInfo → Found)
    → Same l m
    → ((root : FieldPath) (c : ℕ) (views : List ViewInfo)
        → enter root c views ≡ enter2 root c views)
    → (root : FieldPath) (child : Part × ℕ) (views : List ViewInfo)
    → visit_part l enter root child views ≡ visit_part m enter2 root child views
visit_part-Same l m enter enter2 same deeper root child views =
    elim (Bool-cases (l.is_view child.1)) [
      | inl view ↦
          rw (view, sym (same.is_view child.1) ∙ view) (rw (same.memory_space_of child.1 view) refl)
      | inr inner ↦
          rw (inner, sym (same.is_view child.1) ∙ inner)
            (deeper (root ++ child.0 ∷ []) child.1 views)
    ]

pub walk-Same :
    (l m : Language) (fuel : ℕ) (root : FieldPath) (c : ℕ) (views : List ViewInfo)
    → Same l m
    → walk l fuel root c views ≡ walk m fuel root c views
unfolding walk
walk-Same l m zero root c views same = refl
walk-Same l m (suc fuel) root c views same =
    ap (λ visit. each visit (l.children c) views)
      (fun_ext λ child. fun_ext λ us.
        visit_part-Same l m (walk l fuel) (walk m fuel) same
          (λ r d vs. walk-Same l m fuel r d vs same) root child us)
    ∙ ap (λ children. each (visit_part m (walk m fuel) root) children views) (same.children c)
