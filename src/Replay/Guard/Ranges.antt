-- ===== src/Replay/Guard/Ranges.antt =====
-- The set of ranges that the views need, and the ranges that are mapped on the host: what one more of them adds.
use kokkos_kernel_forge.Base.{
  ℕ, ◌≡◌, refl, inl, inr, ◌⊎◌, false, List, [], ◌∷◌, ◌==◌, nat_eq, arith, Bool-cases,
}
use kokkos_kernel_forge.Base.Text.{text}
use kokkos_kernel_forge.Base.Result.{ok, err}
use kokkos_kernel_forge.Base.Exec.{continue_done}
use kokkos_kernel_forge.Replay.Space.{host}
use kokkos_kernel_forge.Replay.Regions.{Region, region_lt, insert_region}
use kokkos_kernel_forge.Replay.Regions.Merge.{Holds, Covers}
use kokkos_kernel_forge.Replay.Machine.{MapAnswer, placed, exists, failed, host_allocate}
use kokkos_kernel_forge.Replay.Machine.Allocation.{construct, emplace_back-returns}
use kokkos_kernel_forge.Replay.Guard.{Build, Replayer, allocate, allocate_all}

-- Neither range is before the other: they are the same.
same_range :
    (x : ℕ) (r y : Region) → region_lt r y ≡ false → region_lt y r ≡ false → Holds x r → Holds x y
unfolding region_lt
same_range x r y p q h = ground arith

deeper :
    (x : ℕ) (r y : Region) (ys : List Region)
    → (Holds x r ⊎ Covers x ys → Covers x (insert_region r ys))
    → Holds x r ⊎ Covers x (y ∷ ys)
    → Covers x (y ∷ insert_region r ys)
deeper x r y ys more (inl on_r) = inr (more (inl on_r))
deeper x r y ys more (inr (inl on_y)) = inl on_y
deeper x r y ys more (inr (inr old)) = inr (more (inr old))

pub insert_region-Covers :
    (x : ℕ) (r : Region) (rs : List Region)
    → Holds x r ⊎ Covers x rs
    → Covers x (insert_region r rs)
unfolding insert_region
insert_region-Covers x r [] h = h
insert_region-Covers x r (y ∷ ys) h = elim (Bool-cases (region_lt r y)) [
  | inl first ↦ rw first h
  | inr p ↦ rw p (elim (Bool-cases (region_lt y r)) [
    | inl later ↦ rw later (deeper x r y ys (insert_region-Covers x r ys) h)
    | inr q ↦ rw q (elim h [ inl on_r ↦ inl (same_range x r y p q on_r) | inr old ↦ old ])
  ])
]

-- The steps of a run on the host.
abbrev pub mapped_of : Replayer → List Region
mapped_of s = s.machine.host_memory.mapped

-- A range that the system places where it is wanted is mapped.
allocate-mapped :
    (b : Build) (r : Region) (s : Replayer)
    → (allocate b host r s).0 ≡ ok tt
    → mapped_of (allocate b host r s).1 ≡ r ∷ mapped_of s
unfolding allocate construct host_allocate
allocate-mapped b r s = go (b.system.os.mmap s.machine.host_memory.mapped r) refl
  where
    go :
        (a : MapAnswer)
        → b.system.os.mmap s.machine.host_memory.mapped r ≡ a
        → (allocate b host r s).0 ≡ ok tt
        → mapped_of (allocate b host r s).1 ≡ r ∷ mapped_of s
    go (placed a) e done = elim (Bool-cases (a == r.address)) [
      | inl here ↦
          let same : a ≡ r.address = ground (arith, here) in
          rw (e, here, same, emplace_back-returns)
      | inr there ↦
          let failed_there : err (text "Failed to allocate to a predefined host address") ≡ ok tt =
            rw (e, there) at done in
          cc failed_there
    ]
    go exists e done =
        let taken : err (text "Failed to allocate to a predefined host address") ≡ ok tt =
          rw e at done in
        cc taken
    go (failed what) e done =
        let taken : err (text "Unknown error when trying to allocate to a predefined host address")
            ≡ ok tt =
          rw e at done in
        cc taken

pub allocate_all-Covers :
    (b : Build) (rs : List Region) (s : Replayer) (x : ℕ)
    → (allocate_all b host rs s).0 ≡ ok tt
    → Covers x rs ⊎ Covers x (mapped_of s)
    → Covers x (mapped_of (allocate_all b host rs s).1)
unfolding allocate_all
allocate_all-Covers b [] s x done (inl h) = elim h [ ]
allocate_all-Covers b [] s x done (inr h) = h
allocate_all-Covers b (r ∷ rs) s x done h =
    let step =
      continue_done (allocate b host r s).0 (allocate_all b host rs) (allocate b host r s).1 done in
    let (first, rest, same) = step in
    let placed_first : mapped_of (allocate b host r s).1 ≡ r ∷ mapped_of s =
      allocate-mapped b r s first in
    rw same (
      allocate_all-Covers b rs (allocate b host r s).1 x rest (elim h [
        | inl in_list ↦ elim in_list [
          | inl on_r ↦ inr (rw placed_first (inl on_r))
          | inr on_rest ↦ inl on_rest
        ]
        | inr old ↦ inr (rw placed_first (inr old))
      ]))
