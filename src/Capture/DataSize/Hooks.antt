-- ===== src/Capture/DataSize/Hooks.antt =====
-- What the allocation hooks make of the sizes that Kokkos reports.
use kokkos_kernel_forge.Base.{
  ℕ, ◌+◌, ◌<◌, ◌≡◌, inl, inr, true, Option, none, some, List, ◌&&◌, leb, not, ◌==◌, nat_eq, arith,
  if◌then◌else◌, Bool-cases,
}
use kokkos_kernel_forge.Base.Text.{Text, text, text_eq, text_Eq}
use kokkos_kernel_forge.Capture.Tracker.{AllocationRecord, AllocationTracker, find_allocation}
use kokkos_kernel_forge.Capture.Tracker.Updates.{find-record_allocation}
use kokkos_kernel_forge.Capture.Options.{label_or_unknown}
use kokkos_kernel_forge.Capture.DataSize.{
  Runtime, bounded_string, allocation_data_pointer, allocation_data_size, host_data_size,
  validated_data_size, should_track_allocation, value_or_zero, has_value, allocate_data,
}

-- On Linux, the size of the data of a host allocation is the reported one, unless that is the size of the header: then
-- the allocation is taken for a view of that many bytes exactly when the block that `malloc` gave holds the header and as
-- many bytes behind it, for an empty view when the block holds the header but not those, and has no size when the
-- block does not hold the header.
pub allocation_data_size-host :
    (m : Runtime) (ptr reported : ℕ)
    → m.linux ≡ true
    → 0 < m.header_size
    → allocation_data_size m (text "Host") ptr (allocation_data_pointer m ptr) reported ≡ (
        if not (reported == m.header_size)
        then some reported
        else if leb (m.header_size + m.header_size) (m.malloc_usable_size ptr)
        then some m.header_size
        else if leb m.header_size (m.malloc_usable_size ptr)
        then some 0
        else none)
unfolding allocation_data_size host_data_size validated_data_size allocation_data_pointer text_eq
    text
allocation_data_size-host m ptr reported on pos = ground arith

-- The record of a tracked allocation.
abbrev pub tracked_record : Runtime → Text → Option Text → ℕ → ℕ → AllocationRecord
tracked_record m space label ptr size =
    let data_size = allocation_data_size m space ptr (allocation_data_pointer m ptr) size in
    record {
      label = label_or_unknown label;
      space = space;
      p_data = allocation_data_pointer m ptr;
      size = value_or_zero data_size;
      reported_size = size;
      data_size_known = has_value data_size;
    }

-- The hook records an allocation that has a pointer and a label of the application, with size 0 and
-- a mark when its size is not known; the pointers and labels of Kokkos itself leave no record.
pub find-allocate_data :
    (m : Runtime) (space : List ℕ) (label : Option Text) (ptr size : ℕ) (t : AllocationTracker)
    (s : Text) (p : ℕ)
    → find_allocation (allocate_data m space label ptr size t) s p ≡ (
        if should_track_allocation label ptr
          && ((bounded_string (some space) 64 == s) && (ptr == p))
        then some (tracked_record m (bounded_string (some space) 64) label ptr size)
        else find_allocation t s p)
unfolding allocate_data
find-allocate_data m space label ptr size t s p = elim (Bool-cases (ptr == 0)) [
  | inl e ↦ ground arith
  | inr e ↦ elim (Bool-cases (should_track_allocation label ptr)) [
    | inl k ↦ rw (k, find-record_allocation) (rw e)
    | inr k ↦ rw k
  ]
]
