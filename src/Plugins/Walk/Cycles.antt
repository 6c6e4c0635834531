-- ===== src/Plugins/Walk/Cycles.antt =====
-- Walks through classes whose parts lead to further parts without end.
use kokkos_kernel_forge.Base.{
  ℕ, zero, suc, ◌≡◌, ◌≢◌, subst, inl, inr, false, some, List, [], ◌∷◌, ◌++◌, Bool-cases, true, none,
  refl,
}
use kokkos_kernel_forge.Base.Text.{Text}
use kokkos_kernel_forge.Base.Result.{Result, ok, err}
use kokkos_kernel_forge.Plugins.Syntax.{
  Part, FieldPath, ViewInfo, Found, and_then, each, and_then-eq-ok,
}
use kokkos_kernel_forge.Plugins.Walk.{Language, push_view, visit_part, walk}
use kokkos_kernel_forge.Plugins.Walk.Exact.{In}

each-In :
    {A : Type 0} (visit : A → List ViewInfo → Found) (x : A) (xs : List A) (vs ws : List ViewInfo)
    → In x xs
    → each visit xs vs ≡ some (ok ws)
    → (us : List ViewInfo) × (ts : List ViewInfo) × (visit x us ≡ some (ok ts))
unfolding each
each-In visit x [] vs ws there done = elim there [ ]
each-In visit x (y ∷ xs) vs ws (inl here) done =
    let (us, first, rest) = and_then-eq-ok (visit y vs) (each visit xs) done in
    (vs, us, subst (λ z. visit z vs ≡ some (ok us)) here first)
each-In visit x (y ∷ xs) vs ws (inr there) done =
    let (us, first, rest) = and_then-eq-ok (visit y vs) (each visit xs) done in
    each-In visit x xs us ws there rest

module _ (l : Language) (P : ℕ → Type 0) where
  -- Each class of a kind has a part of the same kind that is no view.
  abbrev pub Endless : Type 0
  Endless =
      (c : ℕ)
      → P c
      → (child : Part × ℕ) × In child (l.children c) × (l.is_view child.1 ≡ false) × P child.1

  pub walk-Endless :
      Endless
      → (fuel : ℕ) (root : FieldPath) (c : ℕ) (vs ws : List ViewInfo) → P c
      → walk l fuel root c vs ≢ some (ok ws)
  unfolding walk
  walk-Endless endless zero root c vs ws p = λ h. cc
  walk-Endless endless (suc fuel) root c vs ws p = λ done.
      let (child, there, inner, q) = endless c p in
      let (us, ts, deeper) =
        each-In (visit_part l (walk l fuel) root) child (l.children c) vs ws there done in
      walk-Endless endless fuel (root ++ child.0 ∷ []) child.1 us ts q (rw inner at deeper)

-- No `abort`, where the lookups for views end in none.
abbrev pub Completes : Found → Type 0
Completes found = (what : Text) → found ≢ some (err what)

and_then-Completes :
    (found : Found) (rest : List ViewInfo → Found)
    → Completes found
    → ((views : List ViewInfo) → Completes (rest views))
    → Completes (and_then found rest)
and_then-Completes none rest first later what = λ h. cc
and_then-Completes (some (ok views)) rest first later what = later views what
and_then-Completes (some (err e)) rest first later what = first what

each-Completes :
    {A : Type 0} (visit : A → List ViewInfo → Found) (xs : List A) (views : List ViewInfo)
    → ((x : A) (us : List ViewInfo) → Completes (visit x us))
    → Completes (each visit xs views)
unfolding each
each-Completes visit [] views step what = λ h. cc
each-Completes visit (x ∷ xs) views step what =
    and_then-Completes (visit x views) (each visit xs) (step x views)
      (λ us. each-Completes visit xs us step) what

push_view-Completes :
    (path : FieldPath) (space : Result ℕ) (views : List ViewInfo)
    → ((m : ℕ) × (space ≡ ok m))
    → Completes (push_view path space views)
push_view-Completes path space views (m, e) what = rw e (λ h. cc)

pub walk-Completes :
    (l : Language) (fuel : ℕ) (root : FieldPath) (c : ℕ) (views : List ViewInfo)
    → ((d : ℕ) → l.is_view d ≡ true → (m : ℕ) × (l.memory_space_of d ≡ ok m))
    → Completes (walk l fuel root c views)
unfolding walk
walk-Completes l zero root c views complete what = λ h. cc
walk-Completes l (suc fuel) root c views complete what =
    each-Completes (visit_part l (walk l fuel) root) (l.children c) views
      (λ child us. one child us (walk-Completes l fuel (root ++ child.0 ∷ []) child.1 us complete))
      what
  where
    one :
        (child : Part × ℕ) (us : List ViewInfo)
        → Completes (walk l fuel (root ++ child.0 ∷ []) child.1 us)
        → Completes (visit_part l (walk l fuel) root child us)
    one child us deeper what = elim (Bool-cases (l.is_view child.1)) [
      | inl view ↦ rw view (
          push_view-Completes (root ++ child.0 ∷ []) (l.memory_space_of child.1) us
            (complete child.1 view) what)
      | inr inner ↦ rw inner (deeper what)
    ]

none-of :
    (found : Found) → ((ws : List ViewInfo) → found ≢ some (ok ws)) → Completes found → found ≡ none
none-of none no_views no_abort = refl
none-of (some (ok ws)) no_views no_abort = absurd (no_views ws refl)
none-of (some (err what)) no_views no_abort = absurd (no_abort what refl)

-- With no `abort`, a walk that is endless uses up any fuel.
pub walk-none :
    (l : Language) (P : ℕ → Type 0)
    → Endless l P
    → ((d : ℕ) → l.is_view d ≡ true → (m : ℕ) × (l.memory_space_of d ≡ ok m))
    → (fuel : ℕ) (root : FieldPath) (c : ℕ) (views : List ViewInfo) → P c
    → walk l fuel root c views ≡ none
walk-none l P endless complete fuel root c views p =
    none-of (walk l fuel root c views) (λ ws. walk-Endless l P endless fuel root c views ws p)
      (walk-Completes l fuel root c views complete)
