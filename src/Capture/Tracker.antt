-- ===== src/Capture/Tracker.antt =====
-- src/krepe/capture/allocation_tracker.hpp and allocation_tracker.cpp. A pointer is its address,
-- and 0 the null pointer; each method holds the tracker's mutex from its first access on, so it is
-- one step.
pub mod Updates
pub mod Invariant
pub mod Snapshot
use kokkos_kernel_forge.Base.{
  ℕ, zero, ◌+◌, ◌%◌, ◌^◌, Bool, true, false, Option, none, some, List, [], ◌∷◌, ◌++◌, leb, ltb,
  ◌&&◌, ◌==◌, nat_eq, is_empty, if◌then◌else◌,
}
use kokkos_kernel_forge.Base.Text.{Text, text_Eq}
use kokkos_kernel_forge.Base.Dict.{Dict, lookup, insert, erase}

pub record AllocationRecord : Type 0 where
  pub label : Text
  pub space : Text
  pub p_data : ℕ
  pub size : ℕ
  pub reported_size : ℕ
  pub data_size_known : Bool

pub record ActiveAllocation : Type 0 where
  pub ptr : ℕ
  pub allocation : AllocationRecord

pub record AllocationSnapshot : Type 0 where
  pub active_bytes : ℕ
  pub allocations : List ActiveAllocation

abbrev pub Allocations : Type 0
Allocations = Dict ℕ AllocationRecord

pub record AllocationTracker : Type 0 where
  pub used_allocations : Dict Text (List ℕ)
  pub active_allocations : Dict Text Allocations

abbrev pub empty : AllocationTracker
empty = record { used_allocations = []; active_allocations = [] }

-- `map[key]` for a value that is a container: a missing key is given an empty one.
abbrev pub or_empty {ℓ} : {A : Type ℓ} → Option (List A) → List A
or_empty none = []
or_empty (some xs) = xs

unfoldable pub record_allocation :
    Text → Text → ℕ → ℕ → ℕ → ℕ → Bool → AllocationTracker → AllocationTracker
record_allocation label space ptr p_data size reported_size data_size_known t =
    if ptr == 0 then t else record t {
      active_allocations =
          insert space
            (insert ptr
              (record {
                label = label;
                space = space;
                p_data = p_data;
                size = size;
                reported_size = reported_size;
                data_size_known = data_size_known;
              })
              (or_empty (lookup space t.active_allocations)))
            t.active_allocations;
    }

-- What is left of the map of a space, which is removed when it holds nothing.
unfoldable pub erase_from :
    Text → ℕ → Option Allocations → Dict Text Allocations → Dict Text Allocations
erase_from space ptr none active = active
erase_from space ptr (some allocations) active =
    if is_empty (erase ptr allocations)
    then erase space active
    else insert space (erase ptr allocations) active

unfoldable pub record_deallocation : Text → ℕ → AllocationTracker → AllocationTracker
unfolding erase_from
record_deallocation space ptr t = if ptr == 0 then t else record t {
  active_allocations =
      erase_from space ptr (lookup space t.active_allocations) t.active_allocations;
}

unfoldable pub record_used_allocation : Text → ℕ → AllocationTracker → AllocationTracker
record_used_allocation space ptr t = record t {
  used_allocations =
      insert space (or_empty (lookup space t.used_allocations) ++ ptr ∷ []) t.used_allocations;
}

-- `pointers.clear()` for each space; the spaces stay.
unfoldable pub clear_pointers : Dict Text (List ℕ) → Dict Text (List ℕ)
clear_pointers [] = []
clear_pointers ((space, pointers) ∷ rest) = (space, []) ∷ clear_pointers rest

unfoldable pub clear_used_allocations : AllocationTracker → AllocationTracker
unfolding clear_pointers
clear_used_allocations t = record t { used_allocations = clear_pointers t.used_allocations }

-- `std::sort` on pointers.
unfoldable pub insert_sorted : ℕ → List ℕ → List ℕ
insert_sorted p [] = p ∷ []
insert_sorted p (q ∷ qs) = if leb p q then p ∷ q ∷ qs else q ∷ insert_sorted p qs

unfoldable pub sort : List ℕ → List ℕ
unfolding insert_sorted
sort [] = []
sort (p ∷ ps) = insert_sorted p (sort ps)

-- `std::lower_bound`: the first pointer that is not below `p`.
unfoldable pub lower_bound : List ℕ → ℕ → Option ℕ
lower_bound [] p = none
lower_bound (q ∷ qs) p = if ltb q p then lower_bound qs p else some q

abbrev pub at_most : Option ℕ → ℕ → Bool
at_most none bound = false
at_most (some p) bound = leb p bound

-- A functor uses the allocation: a pointer that it holds lies in its data, or just behind.
unfoldable pub is_used : List ℕ → AllocationRecord → Bool
unfolding lower_bound
is_used pointers r = at_most (lower_bound pointers r.p_data) ((r.p_data + r.size) % 2 ^ 64)

-- `snapshot.active_bytes += record.size; snapshot.allocations.push_back({ptr, record})`
abbrev pub push : AllocationSnapshot → ℕ → AllocationRecord → AllocationSnapshot
push s ptr r = record s {
  active_bytes = (s.active_bytes + r.size) % 2 ^ 64;
  allocations = s.allocations ++ record { ptr = ptr; allocation = r } ∷ [];
}

unfoldable pub snapshot_used : List ℕ → Allocations → AllocationSnapshot → AllocationSnapshot
unfolding is_used
snapshot_used pointers [] s = s
snapshot_used pointers ((ptr, r) ∷ rest) s =
    snapshot_used pointers rest (if is_used pointers r then push s ptr r else s)

unfoldable pub snapshot_all : Allocations → AllocationSnapshot → AllocationSnapshot
snapshot_all [] s = s
snapshot_all ((ptr, r) ∷ rest) s = snapshot_all rest (push s ptr r)

-- The loop over the spaces that have used pointers, with the compiler plugins: the pointers are
-- sorted in place, and `active_allocations_[space]` makes an entry where there is none.
unfoldable pub snapshot_spaces :
    Dict Text (List ℕ)
    → AllocationTracker
    → AllocationSnapshot
    → AllocationSnapshot × AllocationTracker
unfolding sort snapshot_used
snapshot_spaces [] t s = (s, t)
snapshot_spaces ((space, pointers) ∷ rest) t s =
    let allocations = or_empty (lookup space t.active_allocations) in
    snapshot_spaces rest
      (record {
        used_allocations = insert space (sort pointers) t.used_allocations;
        active_allocations = insert space allocations t.active_allocations;
      })
      (snapshot_used (sort pointers) allocations s)

-- The same loop without the plugins: every active allocation.
unfoldable pub snapshot_active : Dict Text Allocations → AllocationSnapshot → AllocationSnapshot
unfolding snapshot_all
snapshot_active [] s = s
snapshot_active ((space, allocations) ∷ rest) s = snapshot_active rest (snapshot_all allocations s)

abbrev pub no_allocations : AllocationSnapshot
no_allocations = record { active_bytes = 0; allocations = [] }

-- `has_compiler_plugins` is the macro KREPE_HAS_COMPILER_PLUGINS of the build.
unfoldable pub snapshot : Bool → AllocationTracker → AllocationSnapshot × AllocationTracker
unfolding snapshot_spaces snapshot_active
snapshot true t = snapshot_spaces t.used_allocations t no_allocations
snapshot false t = (snapshot_active t.active_allocations no_allocations, t)

-- The record of an allocation that is alive.
unfoldable pub find_allocation : AllocationTracker → Text → ℕ → Option AllocationRecord
find_allocation t space ptr = lookup ptr (or_empty (lookup space t.active_allocations))
