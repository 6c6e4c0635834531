-- ===== src/Plugins/Walk/Ends.antt =====
-- The end of a walk through classes that are nested to a finite depth.
use kokkos_kernel_forge.Base.{
  ℕ, zero, suc, ◌<◌, ◌≡◌, refl, inl, inr, true, none, some, List, [], ◌∷◌, ◌++◌, arith, All,
  Bool-cases,
}
use kokkos_kernel_forge.Base.Text.{Text}
use kokkos_kernel_forge.Base.Result.{Result, ok, err}
use kokkos_kernel_forge.Plugins.Syntax.{Part, FieldPath, ViewInfo, Found, and_then, each}
use kokkos_kernel_forge.Plugins.Walk.{Language, push_view, visit_part, walk}

module _ (l : Language) where
  -- A line before an `abort` is one that the lookups for a view end in.
  abbrev pub OfView : Result (List ViewInfo) → Type 0
  OfView r =
      (what : Text)
      → r ≡ err what
      → (c : ℕ) × (l.is_view c ≡ true) × (l.memory_space_of c ≡ err what)

  abbrev pub Ends : Found → Type 0
  Ends found = (r : Result (List ViewInfo)) × (found ≡ some r) × OfView r

  and_then-Ends :
      (found : Found) (rest : List ViewInfo → Found)
      → Ends found
      → ((views : List ViewInfo) → Ends (rest views))
      → Ends (and_then found rest)
  and_then-Ends none rest (r, e, of_view) ends = cc
  and_then-Ends (some (ok views)) rest first ends = ends views
  and_then-Ends (some (err what)) rest (r, e, of_view) ends = (r, e, of_view)

  pub push_view-Ends :
      (path : FieldPath) (c : ℕ) (space : Result ℕ) (views : List ViewInfo)
      → l.is_view c ≡ true
      → l.memory_space_of c ≡ space
      → Ends (push_view path space views)
  push_view-Ends path c (ok m) views view named = (_, refl, λ what e. cc)
  push_view-Ends path c (err text) views view named =
      (err text, refl, λ what e. let same : text ≡ what = cc e in (c, view, rw same at named))

  each-Ends :
      (rank : ℕ → ℕ) (bound : ℕ) (visit : Part × ℕ → List ViewInfo → Found)
      (children : List (Part × ℕ))
      → All (λ child. rank child.1 < bound) children
      → ((child : Part × ℕ)
          → rank child.1 < bound
          → (views : List ViewInfo) → Ends (visit child views))
      → (views : List ViewInfo) → Ends (each visit children views)
  unfolding each
  each-Ends rank bound visit [] small ends views = (ok views, refl, λ what e. cc)
  each-Ends rank bound visit (child ∷ children) (first, small) ends views =
      and_then-Ends (visit child views) (each visit children) (ends child first views)
        (each-Ends rank bound visit children small ends)

  pub walk-Ends :
      (rank : ℕ → ℕ)
      → ((c : ℕ) → All (λ child. rank child.1 < rank c) (l.children c))
      → (fuel : ℕ) (root : FieldPath) (c : ℕ) (views : List ViewInfo) → rank c < fuel
      → Ends (walk l fuel root c views)
  unfolding walk
  walk-Ends rank nested zero root c views enough = let never : ⊥ = omega arith in elim never [ ]
  walk-Ends rank nested (suc fuel) root c views enough =
      each-Ends rank (rank c) (visit_part l (walk l fuel) root) (l.children c) (nested c)
        (λ child small us.
          one child us (walk-Ends rank nested fuel (root ++ child.0 ∷ []) child.1 us (omega arith)))
        views
    where
      one :
          (child : Part × ℕ) (us : List ViewInfo)
          → Ends (walk l fuel (root ++ child.0 ∷ []) child.1 us)
          → Ends (visit_part l (walk l fuel) root child us)
      one child us deeper = elim (Bool-cases (l.is_view child.1)) [
        | inl view ↦
            rw view (
              push_view-Ends (root ++ child.0 ∷ []) child.1 (l.memory_space_of child.1) us view
                refl)
        | inr inner ↦ rw inner deeper
      ]
