-- ===== src/Replay/Regions/Merge.antt =====
-- `compute_allocations` joins the overlapping ranges of a set.
use kokkos_kernel_forge.Base.{
  ℕ, ◌+◌, ◌≤◌, ◌<◌, ◌^◌, ◌⊎◌, inl, inr, ◌↔◌, List, [], ◌∷◌, All, Any, arith, ltb, Bool-cases,
}
use kokkos_kernel_forge.Replay.Regions.{
  Region, insert_region, join, merge_from, compute_allocations,
}

-- The byte at `x` belongs to the range.
abbrev pub Holds : ℕ → Region → Type 0
Holds x r = (r.address ≤ x) × (x < r.address + r.size)

-- Some range of the list has the byte.
abbrev pub Covers : ℕ → List Region → Type 0
Covers x rs = Any (Holds x) rs

-- The range fits in an address space of 64 bits.
abbrev pub Fits : Region → Type 0
Fits r = r.address + r.size < 2 ^ 64

-- The ranges stand in the order of their addresses.
abbrev pub IsOrdered : List Region → Type 0
IsOrdered [] = Unit
IsOrdered (r ∷ rs) = All (λ s. r.address ≤ s.address) rs × IsOrdered rs

-- Each range ends before the ones behind it begin.
abbrev pub IsApart : List Region → Type 0
IsApart [] = Unit
IsApart (r ∷ rs) = All (λ s. r.address + r.size ≤ s.address) rs × IsApart rs

All-mono_le :
    (a b : ℕ) (rs : List Region) → a ≤ b → All (λ s. b ≤ s.address) rs → All (λ s. a ≤ s.address) rs
All-mono_le a b [] h p = tt
All-mono_le a b (r ∷ rs) h p = (omega arith, All-mono_le a b rs h p.1)

insert_region-ge :
    (a : ℕ) (r : Region) (rs : List Region)
    → a ≤ r.address
    → All (λ s. a ≤ s.address) rs
    → All (λ s. a ≤ s.address) (insert_region r rs)
unfolding insert_region
insert_region-ge a r [] h p = (h, tt)
insert_region-ge a r (x ∷ xs) h p = ground (arith, insert_region-ge a r xs h p.1)

pub insert_region-IsOrdered :
    (r : Region) (rs : List Region) → IsOrdered rs → IsOrdered (insert_region r rs)
unfolding insert_region
insert_region-IsOrdered r [] o = (tt, tt)
insert_region-IsOrdered r (x ∷ xs) o = ground (
  arith,
  insert_region-IsOrdered r xs o.1,
  insert_region-ge x.address r xs,
  All-mono_le r.address x.address xs,
)

pub insert_region-Fits :
    (r : Region) (rs : List Region) → Fits r → All Fits rs → All Fits (insert_region r rs)
unfolding insert_region
insert_region-Fits r [] h p = (h, tt)
insert_region-Fits r (x ∷ xs) h p = ground (arith, insert_region-Fits r xs h p.1)

join-Fits : (c r : Region) → Fits c → Fits r → c.address ≤ r.address → Fits (join c r)
unfolding join
join-Fits c r fc fr le = ground arith

join-Holds :
    (x : ℕ) (c r : Region)
    → Fits r
    → c.address ≤ r.address
    → r.address < c.address + c.size
    → Holds x (join c r) ↔ (Holds x c ⊎ Holds x r)
unfolding join
join-Holds x c r fr le overlap = (λ h. ground arith, λ h. ground arith)

split_joined : {A B C D J : Type 0} → D ↔ (J ⊎ C) → J ↔ (A ⊎ B) → D ↔ (A ⊎ B ⊎ C)
split_joined rest step = (
  λ d. elim (rest.0 d) [
    | inl j ↦ elim (step.0 j) [ inl a ↦ inl a | inr b ↦ inr (inl b) ]
    | inr c ↦ inr (inr c)
  ],
  λ h. elim h [
    | inl a ↦ rest.1 (inl (step.1 (inl a)))
    | inr h' ↦ elim h' [ inl b ↦ rest.1 (inl (step.1 (inr b))) | inr c ↦ rest.1 (inr c) ]
  ],
)

keep_left : {A B C : Type 0} → B ↔ C → (A ⊎ B) ↔ (A ⊎ C)
keep_left e = (
  λ h. elim h [ inl a ↦ inl a | inr b ↦ inr (e.0 b) ],
  λ h. elim h [ inl a ↦ inl a | inr c ↦ inr (e.1 c) ],
)

-- The current range of the loop and the ranges ahead hold the bytes that the result holds.
merge_from-Covers :
    (x : ℕ) (c : Region) (rs : List Region)
    → Fits c
    → All Fits rs
    → All (λ s. c.address ≤ s.address) rs
    → IsOrdered rs
    → Covers x (merge_from c rs) ↔ (Holds x c ⊎ Covers x rs)
unfolding merge_from
merge_from-Covers x c [] fc fr le o = (λ h. h, λ h. h)
merge_from-Covers x c (r ∷ rs) fc fr le o = elim (Bool-cases (ltb r.address (c.address + c.size))) [
  | inl overlap ↦
      let step = join-Holds x c r fr.0 le.0 (ground arith) in
      let rest =
        merge_from-Covers x (join c r) rs (join-Fits c r fc fr.0 le.0) fr.1 (joined_le le.1) o.1 in
      rw overlap (split_joined rest step)
  | inr apart ↦ let rest = merge_from-Covers x r rs fr.0 fr.1 o.0 o.1 in rw apart (keep_left rest)
]
  where
    joined_le : All (λ s. c.address ≤ s.address) rs → All (λ s. (join c r).address ≤ s.address) rs
    joined_le h = unfold join in h

merge_from-ge :
    (a : ℕ) (c : Region) (rs : List Region)
    → a ≤ c.address
    → All (λ s. a ≤ s.address) rs
    → All (λ s. a ≤ s.address) (merge_from c rs)
unfolding merge_from
merge_from-ge a c [] h p = (h, tt)
merge_from-ge a c (r ∷ rs) h p = ground (arith, merge_from-ge a (join c r) rs, merge_from-ge a r rs)

merge_from-IsApart :
    (c : Region) (rs : List Region)
    → All (λ s. c.address ≤ s.address) rs
    → IsOrdered rs
    → IsApart (merge_from c rs)
unfolding merge_from
merge_from-IsApart c [] le o = (tt, tt)
merge_from-IsApart c (r ∷ rs) le o = ground (
  arith,
  merge_from-IsApart (join c r) rs,
  merge_from-IsApart r rs,
  merge_from-ge (c.address + c.size) r rs,
  All-mono_le (c.address + c.size) r.address rs,
)

-- For ranges in order that fit in 64 bits, `compute_allocations` returns ranges that hold exactly the
-- same bytes.
pub compute_allocations-Covers :
    (x : ℕ) (rs : List Region)
    → All Fits rs
    → IsOrdered rs
    → Covers x (compute_allocations rs) ↔ Covers x rs
unfolding compute_allocations
compute_allocations-Covers x [] f o = (λ h. h, λ h. h)
compute_allocations-Covers x (r ∷ rs) f o = merge_from-Covers x r rs f.0 f.1 o.0 o.1

-- For ranges in order, no two of those that `compute_allocations` returns overlap: each ends before
-- the ones behind it begin.
pub compute_allocations-IsApart :
    (rs : List Region) → IsOrdered rs → IsApart (compute_allocations rs)
unfolding compute_allocations
compute_allocations-IsApart [] o = tt
compute_allocations-IsApart (r ∷ rs) o = merge_from-IsApart r rs o.0 o.1
