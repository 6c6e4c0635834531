-- ===== src/Capture/Tracker/Snapshot.antt =====
-- `snapshot` against a plain description of what it selects.
use mathlib.Core.List.{append_assoc, append-nil}
use kokkos_kernel_forge.Base.{
  ℕ, ◌+◌, ◌%◌, ◌^◌, ◌≤◌, ◌<◌, ◌≡◌, refl, ap, ◌∙◌, inl, inr, Bool, true, false, List, [], ◌∷◌, ◌++◌,
  ◌&&◌, ◌||◌, leb, arith, if◌then◌else◌, All, Bool-cases,
}
use kokkos_kernel_forge.Base.Text.{Text, text_Eq, text_eq, text_eq_iff}
use kokkos_kernel_forge.Base.Dict.{Dict, lookup, insert, lookup-insert}
use kokkos_kernel_forge.Capture.Tracker.{
  AllocationRecord, ActiveAllocation, AllocationSnapshot, AllocationTracker, Allocations, or_empty,
  insert_sorted, sort, lower_bound, at_most, is_used, push, snapshot_used, snapshot_all,
  snapshot_spaces, snapshot_active, snapshot, no_allocations, find_allocation,
}

abbrev within : ℕ → ℕ → ℕ → Bool
within low high q = leb low q && leb q high

-- Some pointer lies between the two addresses.
pub reaches : List ℕ → ℕ → ℕ → Bool
reaches [] low high = false
reaches (q ∷ qs) low high = within low high q || reaches qs low high

abbrev Ascends : List ℕ → Type 0
Ascends [] = Unit
Ascends (q ∷ qs) = All (λ p. q ≤ p) qs × Ascends qs

All-trans_le : (a b : ℕ) (qs : List ℕ) → a ≤ b → All (λ p. b ≤ p) qs → All (λ p. a ≤ p) qs
All-trans_le a b [] h p = tt
All-trans_le a b (q ∷ qs) h p = (omega arith, All-trans_le a b qs h p.1)

insert_sorted-ge :
    (a p : ℕ) (qs : List ℕ) → a ≤ p → All (λ q. a ≤ q) qs → All (λ q. a ≤ q) (insert_sorted p qs)
unfolding insert_sorted
insert_sorted-ge a p [] h k = (h, tt)
insert_sorted-ge a p (q ∷ qs) h k = ground (arith, insert_sorted-ge a p qs h k.1)

insert_sorted-Ascends : (p : ℕ) (qs : List ℕ) → Ascends qs → Ascends (insert_sorted p qs)
unfolding insert_sorted
insert_sorted-Ascends p [] h = (tt, tt)
insert_sorted-Ascends p (q ∷ qs) h =
    ground (arith, insert_sorted-Ascends p qs h.1, insert_sorted-ge q p qs, All-trans_le p q qs)

sort-Ascends : (ps : List ℕ) → Ascends (sort ps)
unfolding sort
sort-Ascends [] = tt
sort-Ascends (p ∷ ps) = insert_sorted-Ascends p (sort ps) (sort-Ascends ps)

reaches-insert_sorted :
    (p low high : ℕ) (qs : List ℕ)
    → reaches (insert_sorted p qs) low high ≡ (within low high p || reaches qs low high)
unfolding reaches insert_sorted
reaches-insert_sorted p low high [] = refl
reaches-insert_sorted p low high (q ∷ qs) = ground (arith, reaches-insert_sorted p low high qs)

reaches-sort : (low high : ℕ) (ps : List ℕ) → reaches (sort ps) low high ≡ reaches ps low high
unfolding reaches sort
reaches-sort low high [] = refl
reaches-sort low high (p ∷ ps) =
    ground (arith, reaches-insert_sorted p low high (sort ps), reaches-sort low high ps)

reaches_above :
    (a low high : ℕ) (qs : List ℕ) → high < a → All (λ q. a ≤ q) qs → reaches qs low high ≡ false
unfolding reaches
reaches_above a low high [] h k = refl
reaches_above a low high (q ∷ qs) h k = ground (arith, reaches_above a low high qs h k.1)

-- On ascending pointers the first that is not below `low` decides.
lower_bound-reaches :
    (low high : ℕ) (qs : List ℕ)
    → Ascends qs
    → at_most (lower_bound qs low) high ≡ reaches qs low high
unfolding reaches lower_bound
lower_bound-reaches low high [] h = refl
lower_bound-reaches low high (q ∷ qs) h =
    ground (arith, lower_bound-reaches low high qs h.1, reaches_above q low high qs)

-- The search in the sorted pointers finds whether any pointer, wherever it stands, lies in the data
-- of the allocation or just behind it, where the end is a 64-bit number.
pub is_used-eq-reaches :
    (pointers : List ℕ) (r : AllocationRecord)
    → is_used (sort pointers) r ≡ reaches pointers r.p_data ((r.p_data + r.size) % 2 ^ 64)
unfolding is_used
is_used-eq-reaches pointers r =
    lower_bound-reaches r.p_data ((r.p_data + r.size) % 2 ^ 64) (sort pointers)
      (sort-Ascends pointers)
    ∙ reaches-sort r.p_data ((r.p_data + r.size) % 2 ^ 64) pointers

abbrev entry : ℕ → AllocationRecord → ActiveAllocation
entry ptr r = record { ptr = ptr; allocation = r }

-- The allocations of a space that a pointer reaches.
touched : List ℕ → Allocations → List ActiveAllocation
touched pointers [] = []
touched pointers ((ptr, r) ∷ rest) =
    if reaches pointers r.p_data ((r.p_data + r.size) % 2 ^ 64)
    then entry ptr r ∷ touched pointers rest
    else touched pointers rest

-- Those of every space in which a pointer was registered.
pub selected : Dict Text (List ℕ) → Dict Text Allocations → List ActiveAllocation
unfolding touched
selected [] active = []
selected ((space, pointers) ∷ rest) active =
    touched pointers (or_empty (lookup space active)) ++ selected rest active

all_of : Allocations → List ActiveAllocation
all_of [] = []
all_of ((ptr, r) ∷ rest) = entry ptr r ∷ all_of rest

-- Every allocation that is alive.
pub alive : Dict Text Allocations → List ActiveAllocation
unfolding all_of
alive [] = []
alive ((space, allocations) ∷ rest) = all_of allocations ++ alive rest

pub total_size : List ActiveAllocation → ℕ
total_size [] = 0
total_size (a ∷ as') = a.allocation.size + total_size as'

-- `s` extended by a list of allocations.
record Extends (s t : AllocationSnapshot) (xs : List ActiveAllocation) : Type 0 where
  listed : t.allocations ≡ s.allocations ++ xs
  counted : t.active_bytes ≡ (s.active_bytes + total_size xs) % 2 ^ 64

Extends-nil : (s : AllocationSnapshot) → s.active_bytes < 2 ^ 64 → Extends s s []
unfolding total_size
Extends-nil s h = record { listed = rw append-nil; counted = omega arith }

Extends-cons :
    (s t : AllocationSnapshot) (ptr : ℕ) (r : AllocationRecord) (xs : List ActiveAllocation)
    → Extends (push s ptr r) t xs
    → Extends s t (entry ptr r ∷ xs)
unfolding total_size
Extends-cons s t ptr r xs e = record {
  listed = e.listed ∙ append_assoc s.allocations (entry ptr r ∷ []) xs;
  counted = omega (arith, e.counted);
}

total_size-append :
    (xs ys : List ActiveAllocation) → total_size (xs ++ ys) ≡ total_size xs + total_size ys
unfolding total_size
total_size-append [] ys = omega arith
total_size-append (x ∷ xs) ys = omega (arith, total_size-append xs ys)

Extends-append :
    (s t u : AllocationSnapshot) (xs ys : List ActiveAllocation)
    → Extends s t xs
    → Extends t u ys
    → Extends s u (xs ++ ys)
Extends-append s t u xs ys e f = record {
  listed = f.listed ∙ ap (λ zs. zs ++ ys) e.listed ∙ append_assoc s.allocations xs ys;
  counted = omega (arith, e.counted, f.counted, total_size-append xs ys);
}

Extends-small :
    {s t : AllocationSnapshot} {xs : List ActiveAllocation}
    → Extends s t xs
    → t.active_bytes < 2 ^ 64
Extends-small e = omega (arith, e.counted)

snapshot_used-Extends :
    (pointers : List ℕ) (allocations : Allocations) (s : AllocationSnapshot)
    → s.active_bytes < 2 ^ 64
    → Extends s (snapshot_used (sort pointers) allocations s) (touched pointers allocations)
unfolding snapshot_used touched
snapshot_used-Extends pointers [] s h = Extends-nil s h
snapshot_used-Extends pointers ((ptr, r) ∷ rest) s h =
    rw (is_used-eq-reaches pointers r)
      (elim (Bool-cases (reaches pointers r.p_data ((r.p_data + r.size) % 2 ^ 64))) [
        | inl e ↦ rw e (
            Extends-cons s _ ptr r _
              (snapshot_used-Extends pointers rest (push s ptr r) (omega arith)))
        | inr e ↦ rw e (snapshot_used-Extends pointers rest s h)
      ])

snapshot_all-Extends :
    (allocations : Allocations) (s : AllocationSnapshot)
    → s.active_bytes < 2 ^ 64
    → Extends s (snapshot_all allocations s) (all_of allocations)
unfolding snapshot_all all_of
snapshot_all-Extends [] s h = Extends-nil s h
snapshot_all-Extends ((ptr, r) ∷ rest) s h =
    Extends-cons s _ ptr r _ (snapshot_all-Extends rest (push s ptr r) (omega arith))

snapshot_active-Extends :
    (active : Dict Text Allocations) (s : AllocationSnapshot)
    → s.active_bytes < 2 ^ 64
    → Extends s (snapshot_active active s) (alive active)
unfolding snapshot_active alive
snapshot_active-Extends [] s h = Extends-nil s h
snapshot_active-Extends ((space, allocations) ∷ rest) s h =
    let first = snapshot_all-Extends allocations s h in
    Extends-append s (snapshot_all allocations s) _ _ _ first
      (snapshot_active-Extends rest (snapshot_all allocations s) (Extends-small first))

-- Making an entry for a space that has none shows in no search.
lookup-touch :
    (space s : Text) (active : Dict Text Allocations)
    → or_empty (lookup s (insert space (or_empty (lookup space active)) active))
      ≡ or_empty (lookup s active)
lookup-touch space s active = elim (Bool-cases (text_eq space s)) [
  | inl e ↦ rw (lookup-insert, e, (text_eq_iff space s).0 e)
  | inr e ↦ rw (lookup-insert, e)
]

selected-touch :
    (space : Text) (used : Dict Text (List ℕ)) (active : Dict Text Allocations)
    → selected used (insert space (or_empty (lookup space active)) active) ≡ selected used active
unfolding selected
selected-touch space [] active = refl
selected-touch space ((s, pointers) ∷ rest) active =
    rw (lookup-touch, selected-touch space rest active)

snapshot_spaces-Extends :
    (used : Dict Text (List ℕ)) (t : AllocationTracker) (s : AllocationSnapshot)
    → s.active_bytes < 2 ^ 64
    → Extends s (snapshot_spaces used t s).0 (selected used t.active_allocations)
unfolding snapshot_spaces selected
snapshot_spaces-Extends [] t s h = Extends-nil s h
snapshot_spaces-Extends ((space, pointers) ∷ rest) t s h =
    let allocations = or_empty (lookup space t.active_allocations) in
    let first = snapshot_used-Extends pointers allocations s h in
    let later =
      snapshot_spaces-Extends rest
        (record {
          used_allocations = insert space (sort pointers) t.used_allocations;
          active_allocations = insert space allocations t.active_allocations;
        })
        (snapshot_used (sort pointers) allocations s) (Extends-small first) in
    Extends-append s (snapshot_used (sort pointers) allocations s) _ _ _ first
      (rw selected-touch at later)

find-snapshot_spaces :
    (used : Dict Text (List ℕ)) (t : AllocationTracker) (s : AllocationSnapshot) (space : Text)
    (ptr : ℕ)
    → find_allocation (snapshot_spaces used t s).1 space ptr ≡ find_allocation t space ptr
unfolding snapshot_spaces find_allocation
find-snapshot_spaces [] t s space ptr = refl
find-snapshot_spaces ((k, pointers) ∷ rest) t s space ptr =
    find-snapshot_spaces rest _ _ space ptr ∙ rw lookup-touch

-- With the compiler plugins a snapshot lists, for the spaces in which the functor's views were
-- registered and for no other, the live allocations that one of those pointers reaches, where docs/hdf5-dumps.md
-- speaks of all active allocations. A pointer reaches an allocation when it lies between the beginning of its data and
-- its end, the end included, which is computed modulo 2 ^ 64;
-- `active_bytes` is the sum of their sizes, modulo 2 ^ 64; and no live allocation is changed.
pub snapshot-selected :
    (t : AllocationTracker)
    → ((snapshot true t).0.allocations ≡ selected t.used_allocations t.active_allocations)
      × ((snapshot true t).0.active_bytes ≡ total_size (snapshot true t).0.allocations % 2 ^ 64)
      × ((space : Text) (ptr : ℕ)
          → find_allocation (snapshot true t).1 space ptr ≡ find_allocation t space ptr)
unfolding snapshot
snapshot-selected t =
    let e = snapshot_spaces-Extends t.used_allocations t no_allocations (omega arith) in
    (
      e.listed,
      rw e.listed (omega (arith, e.counted)),
      find-snapshot_spaces t.used_allocations t no_allocations,
    )

-- Without the plugins a snapshot lists every live allocation, with the sum of their sizes modulo
-- 2 ^ 64, and leaves the tracker alone.
pub snapshot-alive :
    (t : AllocationTracker)
    → ((snapshot false t).0.allocations ≡ alive t.active_allocations)
      × ((snapshot false t).0.active_bytes ≡ total_size (snapshot false t).0.allocations % 2 ^ 64)
      × ((snapshot false t).1 ≡ t)
unfolding snapshot
snapshot-alive t =
    let e = snapshot_active-Extends t.active_allocations no_allocations (omega arith) in
    (e.listed, rw e.listed (omega (arith, e.counted)), refl)
