-- ===== src/Capture/Tracker/Invariant.antt =====
-- What every history of the tracker keeps.
use kokkos_kernel_forge.Base.{ℕ, ◌≡◌, ◌≢◌, Bool, true, false, some, List, [], ◌∷◌, nat_eq, arith}
use kokkos_kernel_forge.Base.Text.{Text, text_Eq, text_eq_iff}
use kokkos_kernel_forge.Base.Dict.{lookup}
use kokkos_kernel_forge.Capture.Tracker.{
  AllocationRecord, AllocationTracker, record_allocation, record_deallocation,
  record_used_allocation, clear_used_allocations, snapshot, find_allocation, empty,
}
use kokkos_kernel_forge.Capture.Tracker.Updates.{find-record_allocation, find-record_deallocation}
use kokkos_kernel_forge.Capture.Tracker.Snapshot.{snapshot-selected, snapshot-alive}

-- A call of a method of the tracker.
pub data Call : Type 0 where
  allocates : Text → Text → ℕ → ℕ → ℕ → ℕ → Bool → Call
  deallocates uses : Text → ℕ → Call
  clears : Call
  takes_snapshot : Bool → Call

pub after : Call → AllocationTracker → AllocationTracker
after (allocates label space ptr p_data size reported known) =
    record_allocation label space ptr p_data size reported known
after (deallocates space ptr) = record_deallocation space ptr
after (uses space ptr) = record_used_allocation space ptr
after clears = clear_used_allocations
after (takes_snapshot plugins) = λ t. (snapshot plugins t).1

pub run : List Call → AllocationTracker → AllocationTracker
unfolding after
run [] t = t
run (c ∷ cs) t = run cs (after c t)

-- A record that is found names the space under which it is found, and the pointer is not null.
pub record IsConsistent (t : AllocationTracker) : Type 0 where
  pub at_key :
      (space : Text) (ptr : ℕ) (r : AllocationRecord)
      → find_allocation t space ptr ≡ some r
      → (r.space ≡ space) × (ptr ≢ 0)

after-IsConsistent : (c : Call) (t : AllocationTracker) → IsConsistent t → IsConsistent (after c t)
unfolding after
after-IsConsistent (allocates label space ptr p_data size reported known) t h = record {
  at_key = λ s p r found. ground (
    arith,
    h.at_key s p r,
    find-record_allocation label space ptr p_data size reported known t s p,
    text_eq_iff space s,
  );
}
after-IsConsistent (deallocates space ptr) t h = record {
  at_key = λ s p r found. ground (arith, h.at_key s p r, find-record_deallocation space ptr t s p);
}
after-IsConsistent (uses space ptr) t h =
    unfold record_used_allocation find_allocation in record { at_key = h.at_key }
after-IsConsistent clears t h =
    unfold clear_used_allocations find_allocation in record { at_key = h.at_key }
after-IsConsistent (takes_snapshot true) t h = record {
  at_key = λ s p r found. ground (arith, h.at_key s p r, (snapshot-selected t).2 s p);
}
after-IsConsistent (takes_snapshot false) t h = rw (snapshot-alive t).2 h

empty_finds :
    (s : Text) (p : ℕ) (r : AllocationRecord)
    → find_allocation empty s p ≡ some r
    → (r.space ≡ s) × (p ≢ 0)
unfolding find_allocation lookup
empty_finds s p r found = cc

run_keeps : (cs : List Call) (t : AllocationTracker) → IsConsistent t → IsConsistent (run cs t)
unfolding run
run_keeps [] t h = h
run_keeps (c ∷ cs) t h = run_keeps cs (after c t) (after-IsConsistent c t h)

-- After any calls on a new tracker, every record stands under its own space and a non-null pointer.
pub run-IsConsistent : (cs : List Call) → IsConsistent (run cs empty)
run-IsConsistent cs = run_keeps cs empty (record { at_key = empty_finds })
