-- ===== src/Tests/Replay.antt =====
-- Runs of the address ranges that a replay reserves.
use kokkos_kernel_forge.Base.{ℕ, ◌≡◌, refl, ◌↔◌, false, List, [], ◌∷◌, arith}
use kokkos_kernel_forge.Base.Result.{ok}
use kokkos_kernel_forge.Replay.Space.{host, Platform}
use kokkos_kernel_forge.Replay.Regions.{Region, get_allocation_address, compute_allocations}
use kokkos_kernel_forge.Replay.Regions.Align.{Reserved, get_allocation_address-Encloses}
use kokkos_kernel_forge.Replay.Regions.Merge.{
  Covers, IsApart, compute_allocations-Covers, compute_allocations-IsApart,
}

abbrev linux_host : Platform
linux_host = record { has_device_space = false; page_size = 4096; device_granularity = ok 2097152 }

abbrev region : ℕ → ℕ → Region
region address size = record { address = address; size = size }

-- Two pages that overlap, and one apart.
abbrev three_regions : List Region
three_regions = region 4096 8192 ∷ region 8192 12288 ∷ region 65536 4096 ∷ []

get_allocation_address-Encloses_example :
    Reserved linux_host 5000 9000 host (get_allocation_address linux_host 5000 9000 host)
get_allocation_address-Encloses_example =
    get_allocation_address-Encloses linux_host 5000 9000 host (omega arith)
      (omega arith, omega arith)

compute_allocations-Covers_example :
    Covers 10000 (compute_allocations three_regions) ↔ Covers 10000 three_regions
compute_allocations-Covers_example =
    compute_allocations-Covers 10000 three_regions (omega arith, (omega arith, (omega arith, tt)))
      ((omega arith, (omega arith, tt)), ((omega arith, tt), (tt, tt)))

compute_allocations-IsApart_example : IsApart (compute_allocations three_regions)
compute_allocations-IsApart_example =
    compute_allocations-IsApart three_regions
      ((omega arith, (omega arith, tt)), ((omega arith, tt), (tt, tt)))

joined_regions : compute_allocations three_regions ≡ region 4096 16384 ∷ region 65536 4096 ∷ []
unfolding compute_allocations
joined_regions = refl
