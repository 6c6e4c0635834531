-- ===== src/Replay/Regions.antt =====
-- src/krepe/replay/allocation.hpp (get_allocation_address) and `compute_allocations` of
-- src/krepe/replay/kernel_replayer.cpp: the address ranges that a replay reserves.
pub mod Align
pub mod Merge
use kokkos_kernel_forge.Base.{
  ℕ, ◌+◌, ◌-◌, ◌*◌, ◌/◌, ◌%◌, ◌^◌, List, [], ◌∷◌, Bool, true, false, ltb, leb, ◌==◌, ◌&&◌, ◌||◌,
  nat_eq, if◌then◌else◌,
}
use kokkos_kernel_forge.Base.Text.{text}
use kokkos_kernel_forge.Base.Result.{Result, ok, err, ◌>>=◌}
use kokkos_kernel_forge.Replay.Space.{MemorySpaceType, host, device, Platform}

-- `std::pair<char*, std::size_t>`
pub record Region : Type 0 where
  pub address : ℕ
  pub size : ℕ

-- The result of arithmetic on `std::size_t`.
abbrev pub u64 : ℕ → ℕ
u64 n = n % 2 ^ 64

unfoldable pub granularity_of : Platform → MemorySpaceType → Result ℕ
granularity_of p host = ok p.page_size
granularity_of p device =
    if p.has_device_space
    then p.device_granularity
    else err (text "Tried to compute a device allocation address but no device space is enabled")

-- The range at a multiple of the granularity around `size` bytes at `target_address`.
unfoldable pub aligned_region : ℕ → ℕ → ℕ → Region
aligned_region granularity target_address size =
    let aligned_address = target_address / granularity * granularity in
    let grown = u64 (size + (target_address - aligned_address)) in
    let total_size = u64 ((u64 (grown + 2 ^ 64 - 1) / granularity + 1) * granularity) in
    record { address = aligned_address; size = total_size }

unfoldable pub get_allocation_address : Platform → ℕ → ℕ → MemorySpaceType → Result Region
unfolding granularity_of
get_allocation_address p target_address size space = do
  granularity ← granularity_of p space
  ok (aligned_region granularity target_address size)

-- The order of `std::set<std::pair<char*, std::size_t>>`.
unfoldable pub region_lt : Region → Region → Bool
region_lt a b = ltb a.address b.address || (a.address == b.address && ltb a.size b.size)

-- `allocations->insert(allocation_info)`: an element that is there stays.
unfoldable pub insert_region : Region → List Region → List Region
unfolding region_lt
insert_region r [] = r ∷ []
insert_region r (x ∷ xs) =
    let rest = x ∷ insert_region r xs in
    if region_lt r x then r ∷ x ∷ xs else if region_lt x r then rest else x ∷ xs

-- The current range of the loop, grown over one that begins inside it. The difference of pointers
-- is a `size_t`.
unfoldable pub join : Region → Region → Region
join current r =
    let new_size = u64 (r.address + r.size + 2 ^ 64 - current.address) in
    record current { size = if ltb current.size new_size then new_size else current.size }

-- The loop of `compute_allocations` from `current` on.
unfoldable pub merge_from : Region → List Region → List Region
unfolding join
merge_from current [] = current ∷ []
merge_from current (r ∷ rest) =
    let joined = merge_from (join current r) rest in
    let apart = current ∷ merge_from r rest in
    if ltb r.address (current.address + current.size) then joined else apart

unfoldable pub compute_allocations : List Region → List Region
unfolding merge_from
compute_allocations [] = []
compute_allocations (r ∷ rest) = merge_from r rest
