-- ===== src/Plugins/Walk/Exact.antt =====
-- The views that a walk finds, and the paths that lead to views.
use kokkos_kernel_forge.Base.{
  ℕ, zero, suc, ◌≡◌, ◌↔◌, refl, sym, subst, inl, inr, ◌⊎◌, true, false, some, List, [], ◌∷◌, ◌++◌,
  Any, Any-append_left, Any-append_right, Bool-cases, if◌then◌else◌,
}
use kokkos_kernel_forge.Base.Result.{Result, ok, err}
use kokkos_kernel_forge.Plugins.Syntax.{Part, FieldPath, ViewInfo, Found, and_then-eq-ok, each}
use kokkos_kernel_forge.Plugins.Walk.{Language, push_view, visit_part, walk}

-- An entry of a list, with its place.
abbrev pub In : {A : Type 0} → A → List A → Type 0
In x xs = Any (λ y. y ≡ x) xs

Any-In : {A : Type 0} {P : A → Type 0} (xs : List A) → Any P xs → (x : A) × In x xs × P x
Any-In [] h = elim h [ ]
Any-In (x ∷ xs) (inl h) = (x, inl refl, h)
Any-In (x ∷ xs) (inr h) = let (y, there, p) = Any-In xs h in (y, inr there, p)

In-Any : {A : Type 0} (P : A → Type 0) (xs : List A) (x : A) → In x xs → P x → Any P xs
In-Any P [] x h p = elim h [ ]
In-Any P (y ∷ xs) x (inl e) p = inl (subst P (sym e) p)
In-Any P (y ∷ xs) x (inr h) p = inr (In-Any P xs x h p)

In-append : {A : Type 0} (xs ys : List A) (x : A) → In x (xs ++ ys) → In x xs ⊎ In x ys
In-append [] ys x h = inr h
In-append (y ∷ xs) ys x (inl e) = inl (inl e)
In-append (y ∷ xs) ys x (inr h) = elim (In-append xs ys x h) [
  | inl old ↦ inl (inr old)
  | inr new ↦ inr new
]

-- A step of a loop adds the views that it finds and keeps those that are there.
record Adds {A : Type 0} (visit : A → List ViewInfo → Found) (P : A → ViewInfo → Type 0) (x : A)
    : Type 0 where
  adds :
      (vs ws : List ViewInfo)
      → visit x vs ≡ some (ok ws)
      → (v : ViewInfo) → In v ws ↔ (In v vs ⊎ P x v)

each-Adds :
    {A : Type 0} (visit : A → List ViewInfo → Found) (P : A → ViewInfo → Type 0) (xs : List A)
    (vs ws : List ViewInfo)
    → ((x : A) → Adds visit P x)
    → each visit xs vs ≡ some (ok ws)
    → (v : ViewInfo) → In v ws ↔ (In v vs ⊎ Any (λ x. P x v) xs)
unfolding each
each-Adds visit P [] vs ws step done v =
    subst (λ us. In v us ↔ (In v vs ⊎ ⊥)) (cc done)
      (λ h. inl h, λ h. elim h [ inl k ↦ k | inr k ↦ elim k [ ] ])
each-Adds visit P (x ∷ xs) vs ws step done v =
    let (us, first, rest) = and_then-eq-ok (visit x vs) (each visit xs) done in
    let (back, forth) = (step x).adds vs us first v in
    let (later, there) = each-Adds visit P xs us ws step rest v in
    (
      λ h. elim (later h) [
        | inl k ↦ elim (back k) [ inl old ↦ inl old | inr new ↦ inr (inl new) ]
        | inr k ↦ inr (inr k)
      ],
      λ h. elim h [
        | inl old ↦ there (inl (forth (inl old)))
        | inr new ↦ elim new [
          | inl here ↦ there (inl (forth (inr here)))
          | inr deep ↦ there (inr deep)
        ]
      ],
    )

module _ (l : Language) where
  -- A path from a class at `root` to a view, through classes that are none.
  pub data Finds : ℕ → FieldPath → ViewInfo → Type 0 where
    view_part :
        {c : ℕ} {root : FieldPath} {v : ViewInfo} (child : Part × ℕ) (space : ℕ)
        → In child (l.children c)
        → l.is_view child.1 ≡ true
        → l.memory_space_of child.1 ≡ ok space
        → v ≡ record { root = root ++ child.0 ∷ []; memory_space = space }
        → Finds c root v
    inner_part :
        {c : ℕ} {root : FieldPath} {v : ViewInfo} (child : Part × ℕ)
        → In child (l.children c)
        → l.is_view child.1 ≡ false
        → Finds child.1 (root ++ child.0 ∷ []) v
        → Finds c root v

  -- The same for one part of a class.
  abbrev FoundIn : FieldPath → Part × ℕ → ViewInfo → Type 0
  FoundIn root child v =
      ((l.is_view child.1 ≡ true)
        × (space : ℕ) × (l.memory_space_of child.1 ≡ ok space)
        × (v ≡ record { root = root ++ child.0 ∷ []; memory_space = space }))
      ⊎ ((l.is_view child.1 ≡ false) × Finds child.1 (root ++ child.0 ∷ []) v)

  FoundIn-Finds :
      (root : FieldPath) (c : ℕ) (v : ViewInfo)
      → Any (λ child. FoundIn root child v) (l.children c)
      → Finds c root v
  FoundIn-Finds root c v h =
      let (child, there, found) = Any-In (l.children c) h in
      elim found [
        | inl (view, space, named, e) ↦ view_part child space there view named e
        | inr (inner, deep) ↦ inner_part child there inner deep
      ]

  Finds-FoundIn :
      {root : FieldPath} {c : ℕ} {v : ViewInfo}
      → Finds c root v
      → Any (λ child. FoundIn root child v) (l.children c)
  Finds-FoundIn {root} {c} {v} (view_part child space there view named e) =
      In-Any (λ x. FoundIn root x v) (l.children c) child there (inl (view, space, named, e))
  Finds-FoundIn {root} {c} {v} (inner_part child there inner deep) =
      In-Any (λ x. FoundIn root x v) (l.children c) child there (inr (inner, deep))

  -- What a part that is a view adds.
  pushed :
      (root : FieldPath) (child : Part × ℕ) (space : Result ℕ) (us ts : List ViewInfo)
      → l.is_view child.1 ≡ true
      → l.memory_space_of child.1 ≡ space
      → push_view (root ++ child.0 ∷ []) space us ≡ some (ok ts)
      → (u : ViewInfo) → In u ts ↔ (In u us ⊎ FoundIn root child u)
  pushed root child (err e) us ts view named step u = cc
  pushed root child (ok m) us ts view named step u =
      let e : ts ≡ us ++ record { root = root ++ child.0 ∷ []; memory_space = m } ∷ [] = cc step in
      (
        λ h.
            elim (In-append us (record { root = root ++ child.0 ∷ []; memory_space = m } ∷ []) u
              (subst (In u) e h)) [
                | inl old ↦ inl old
                | inr new ↦ elim new [
                  | inl here ↦ inr (inl (view, m, named, sym here))
                  | inr nowhere ↦ elim nowhere [ ]
                ]
              ],
        λ h. subst (In u) (sym e) (elim h [
          | inl old ↦
              Any-append_left (λ y. y ≡ u) us
                (record { root = root ++ child.0 ∷ []; memory_space = m } ∷ []) old
          | inr new ↦
              Any-append_right (λ y. y ≡ u) us
                (record { root = root ++ child.0 ∷ []; memory_space = m } ∷ [])
                (elim new [
                  | inl (also, space, named2, found) ↦ inl (same m space u named named2 found)
                  | inr (inner, deep) ↦ cc
                ])
        ]),
      )
    where
      same :
          (m space : ℕ) (u : ViewInfo)
          → l.memory_space_of child.1 ≡ ok m
          → l.memory_space_of child.1 ≡ ok space
          → u ≡ record { root = root ++ child.0 ∷ []; memory_space = space }
          → record { root = root ++ child.0 ∷ []; memory_space = m } ≡ u
      same m space u named named2 found = let e : m ≡ space = cc in rw e (sym found)

  -- What a part that is no view adds.
  entered :
      (root : FieldPath) (child : Part × ℕ) (us ts : List ViewInfo)
      → l.is_view child.1 ≡ false
      → ((v : ViewInfo) → In v ts ↔ (In v us ⊎ Finds child.1 (root ++ child.0 ∷ []) v))
      → (u : ViewInfo) → In u ts ↔ (In u us ⊎ FoundIn root child u)
  entered root child us ts inner deeper u =
      let (back, forth) = deeper u in
      (
        λ h. elim (back h) [ inl old ↦ inl old | inr new ↦ inr (inr (inner, new)) ],
        λ h. elim h [
          | inl old ↦ forth (inl old)
          | inr new ↦ elim new [
            | inl (view, space, named, found) ↦ cc
            | inr (also, deep) ↦ forth (inr deep)
          ]
        ],
      )

  -- When a walk from a class ends with no abort, the views that it has are those that it began with and those that
  -- a path from the class leads to.
  pub walk-Finds :
      (fuel : ℕ) (root : FieldPath) (c : ℕ) (vs ws : List ViewInfo)
      → walk l fuel root c vs ≡ some (ok ws)
      → (v : ViewInfo) → In v ws ↔ (In v vs ⊎ Finds c root v)
  unfolding walk
  walk-Finds zero root c vs ws done v = cc
  walk-Finds (suc fuel) root c vs ws done v =
      let (back, forth) =
        each-Adds (visit_part l (walk l fuel) root) (FoundIn root) (l.children c) vs ws
          (λ child. record {
            adds = λ us ts step u.
                one child us ts u (walk-Finds fuel (root ++ child.0 ∷ []) child.1 us ts) step;
          })
          done v in
      (
        λ h. elim (back h) [ inl old ↦ inl old | inr new ↦ inr (FoundIn-Finds root c v new) ],
        λ h. elim h [ inl old ↦ forth (inl old) | inr new ↦ forth (inr (Finds-FoundIn new)) ],
      )
    where
      one :
          (child : Part × ℕ) (us ts : List ViewInfo) (u : ViewInfo)
          → (walk l fuel (root ++ child.0 ∷ []) child.1 us ≡ some (ok ts)
              → (v : ViewInfo) → In v ts ↔ (In v us ⊎ Finds child.1 (root ++ child.0 ∷ []) v))
          → (if l.is_view child.1
              then push_view (root ++ child.0 ∷ []) (l.memory_space_of child.1) us
              else walk l fuel (root ++ child.0 ∷ []) child.1 us)
            ≡ some (ok ts)
          → In u ts ↔ (In u us ⊎ FoundIn root child u)
      one child us ts u deeper step = elim (Bool-cases (l.is_view child.1)) [
        | inl view ↦
            pushed root child (l.memory_space_of child.1) us ts view refl (rw view at step) u
        | inr inner ↦ entered root child us ts inner (deeper (rw inner at step)) u
      ]
