-- ===== src/Plugins/Walk.antt =====
-- What both plugins do, apart from which members they look at and which classes they take for views: the reference that
-- they are compared with.
pub mod Exact
pub mod Ends
pub mod Same
pub mod Cycles
use kokkos_kernel_forge.Base.{
  ℕ, zero, suc, Bool, true, false, not, Option, none, some, List, [], ◌∷◌, ◌++◌, ◌≡◌, refl, ◌∙◌, ap,
  if◌then◌else◌,
}
use mathlib.Core.Path.{fun_ext}
use kokkos_kernel_forge.Base.Result.{Result, ok, err, ◌>>=◌}
use kokkos_kernel_forge.Plugins.Syntax.{
  Part, FieldPath, ViewInfo, Found, and_then, each, unless_view,
}

abbrev pub push_view : FieldPath → Result ℕ → List ViewInfo → Found
push_view root (ok space) views =
    some (ok (views ++ record { root = root; memory_space = space } ∷ []))
push_view root (err e) views = some (err e)

-- The parts of a class that are looked at, with their classes; which classes are views; and the memory space of a
-- view.
pub record Language : Type 0 where
  pub children : ℕ → List (Part × ℕ)
  pub is_view : ℕ → Bool
  pub memory_space_of : ℕ → Result ℕ

module _ (l : Language) where
  -- A part that is a view is added; another is entered.
  abbrev pub visit_part :
      (FieldPath → ℕ → List ViewInfo → Found) → FieldPath → Part × ℕ → List ViewInfo → Found
  visit_part enter root (part, c) views =
      if l.is_view c
      then push_view (root ++ part ∷ []) (l.memory_space_of c) views
      else enter (root ++ part ∷ []) c views

  -- The parts of a class, in order, and the parts of those that are no views.
  unfoldable pub walk : ℕ → FieldPath → ℕ → List ViewInfo → Found
  unfolding each
  walk zero root c views = none
  walk (suc fuel) root c views = each (visit_part (walk fuel) root) (l.children c) views

abbrev pub keep : {B : Type 0} → Option B → List B → List B
keep none ys = ys
keep (some y) ys = y ∷ ys

-- The elements that a function makes of some of a list, in order.
unfoldable pub parts : {A B : Type 0} → (A → Option B) → List A → List B
parts part_of [] = []
parts part_of (x ∷ xs) = keep (part_of x) (parts part_of xs)

-- What is done with an element that may be none.
abbrev pub at_part : {B : Type 0} → (B → List ViewInfo → Found) → Option B → List ViewInfo → Found
at_part step none views = some (ok views)
at_part step (some y) views = step y views

each-keep :
    {B : Type 0} (step : B → List ViewInfo → Found) (o : Option B) (ys : List B)
    (views : List ViewInfo)
    → and_then (at_part step o views) (each step ys) ≡ each step (keep o ys) views
unfolding each
each-keep step none ys views = refl
each-keep step (some y) ys views = refl

pub each-parts :
    {A B : Type 0} (visit : A → List ViewInfo → Found) (step : B → List ViewInfo → Found)
    (part_of : A → Option B) (xs : List A) (views : List ViewInfo)
    → ((x : A) (views : List ViewInfo) → visit x views ≡ at_part step (part_of x) views)
    → each visit xs views ≡ each step (parts part_of xs) views
unfolding each parts
each-parts visit step part_of [] views same = refl
each-parts visit step part_of (x ∷ xs) views same =
    ap (λ found. and_then found (each visit xs)) (same x views)
    ∙ ap (and_then (at_part step (part_of x) views))
        (fun_ext λ vs. each-parts visit step part_of xs vs same)
    ∙ each-keep step (part_of x) (parts part_of xs) views

-- What both plugins do with a class that may be a view.
pub unless_view-push :
    (view : Bool) (space : Result ℕ) (path : FieldPath) (views : List ViewInfo)
    (enter : List ViewInfo → Found)
    → unless_view
        (if not view
          then ok (false, views)
          else (space >>= λ memory_space.
              ok (true, views ++ record { root = path; memory_space = memory_space } ∷ [])))
        enter
      ≡ (if view then push_view path space views else enter views)
unless_view-push false space path views enter = refl
unless_view-push true (ok m) path views enter = refl
unless_view-push true (err e) path views enter = refl
