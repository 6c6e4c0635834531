-- ===== src/Capture/Tracker/Updates.antt =====
-- What each method of the tracker changes, as seen by the allocations that are alive.
use kokkos_kernel_forge.Base.{
  ℕ, ◌≡◌, refl, inl, inr, Bool, true, Option, none, some, [], ◌∷◌, ◌&&◌, ◌==◌, nat_eq, arith,
  if◌then◌else◌, Bool-cases, Option-cases, is_empty,
}
use kokkos_kernel_forge.Base.Text.{Text, text_Eq, text_eq, text_eq_iff}
use kokkos_kernel_forge.Base.Dict.{lookup, lookup-insert, lookup-erase, insert, erase, Dict}
use kokkos_kernel_forge.Capture.Tracker.{
  AllocationRecord, AllocationTracker, Allocations, or_empty, record_allocation,
  record_deallocation, erase_from, find_allocation,
}

find-insert :
    (space : Text) (ptr : ℕ) (r : AllocationRecord) (active : Dict Text Allocations) (s : Text)
    (p : ℕ)
    → lookup p
        (or_empty (lookup s (insert space (insert ptr r (or_empty (lookup space active))) active)))
      ≡ (if (space == s) && (ptr == p) then some r else lookup p (or_empty (lookup s active)))
find-insert space ptr r active s p = elim (Bool-cases (text_eq space s)) [
  | inl e ↦ rw (lookup-insert, e, (text_eq_iff space s).0 e) (rw lookup-insert)
  | inr e ↦ rw (lookup-insert, e)
]

-- Recording an allocation makes its record the one that is found under its space and pointer,
-- whatever stood there, and changes no other; the null pointer is ignored.
pub find-record_allocation :
    (label space : Text) (ptr p_data size reported_size : ℕ) (known : Bool) (t : AllocationTracker)
    (s : Text) (p : ℕ)
    → find_allocation (record_allocation label space ptr p_data size reported_size known t) s p ≡ (
        if (ptr == 0)
        then find_allocation t s p
        else if (space == s) && (ptr == p)
        then some (record {
          label = label;
          space = space;
          p_data = p_data;
          size = size;
          reported_size = reported_size;
          data_size_known = known;
        })
        else find_allocation t s p)
unfolding find_allocation record_allocation
find-record_allocation label space ptr p_data size reported_size known t s p =
    elim (Bool-cases (ptr == 0)) [ inl e ↦ rw e | inr e ↦ rw (e, find-insert) ]

lookup-is_empty : (ms : Allocations) (p : ℕ) → is_empty ms ≡ true → lookup p ms ≡ none
unfolding lookup
lookup-is_empty [] p h = refl
lookup-is_empty (m ∷ ms) p h = cc

lookup-nil : (p : ℕ) → ◌≡◌ {A = Option AllocationRecord} (lookup p []) none
unfolding lookup
lookup-nil p = refl

find-erase_from :
    (space : Text) (ptr : ℕ) (active : Dict Text Allocations) (s : Text) (p : ℕ)
    → lookup p (or_empty (lookup s (erase_from space ptr (lookup space active) active)))
      ≡ (if (space == s) && (ptr == p) then none else lookup p (or_empty (lookup s active)))
unfolding erase_from
find-erase_from space ptr active s p = elim (Option-cases (lookup space active)) [
  | inl e ↦ rw (e, erase_from) (ground (arith, text_eq_iff space s, lookup-nil p))
  | inr (ms, e) ↦
      rw (e, erase_from)
        (ground (
          arith,
          text_eq_iff space s,
          lookup-erase space s active,
          lookup-insert space s (erase ptr ms) active,
          lookup-erase ptr p ms,
          lookup-is_empty (erase ptr ms) p,
          lookup-nil p,
        ))
]

-- Recording a deallocation removes the record of that space and pointer and no other.
pub find-record_deallocation :
    (space : Text) (ptr : ℕ) (t : AllocationTracker) (s : Text) (p : ℕ)
    → find_allocation (record_deallocation space ptr t) s p ≡ (
        if ptr == 0
        then find_allocation t s p
        else if (space == s) && (ptr == p)
        then none
        else find_allocation t s p)
unfolding find_allocation record_deallocation
find-record_deallocation space ptr t s p =
    ground (arith, find-erase_from space ptr t.active_allocations s p)
