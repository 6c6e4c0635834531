-- ===== src/Replay/Regions/Align.antt =====
-- The range that `get_allocation_address` returns contains the data and is no larger than needed.
use native.Mathlib.Nat.{div-add-mod, mod-lt}
use kokkos_kernel_forge.Base.{
  ℕ, ◌+◌, ◌-◌, ◌*◌, ◌/◌, ◌%◌, ◌^◌, ◌≤◌, ◌<◌, ◌≡◌, refl, Bool, true, false, if◌then◌else◌, arith,
}
use kokkos_kernel_forge.Base.Text.{Text}
use kokkos_kernel_forge.Base.Result.{Result, ok, err, ◌>>=◌}
use kokkos_kernel_forge.Replay.Space.{MemorySpaceType, host, device, Platform}
use kokkos_kernel_forge.Replay.Regions.{
  Region, u64, aligned_region, granularity_of, get_allocation_address,
}

-- The range is whole granules at a multiple of the granularity, contains the data, and begins and
-- ends less than a granule away from it.
pub record Encloses (g target size : ℕ) (r : Region) : Type 0 where
  pub below : r.address ≤ target
  pub above : target + size ≤ r.address + r.size
  pub tight_below : target < r.address + g
  pub tight_above : r.address + r.size < target + size + g
  pub aligned : r.address % g ≡ 0
  pub whole : r.size % g ≡ 0

-- What the device gives in a build that has one, and in one that has none.
abbrev pub ReservedDevice : Bool → Result ℕ → ℕ → ℕ → Result Region → Type 0
ReservedDevice true (ok g) target size (ok r) = Encloses g target size r
ReservedDevice true (ok g) target size (err e) = ⊥
ReservedDevice true (err e) target size (ok r) = ⊥
ReservedDevice true (err e) target size (err thrown) = thrown ≡ e
ReservedDevice false g target size (ok r) = ⊥
ReservedDevice false g target size (err e) = Unit

abbrev pub Reserved : Platform → ℕ → ℕ → MemorySpaceType → Result Region → Type 0
Reserved p target size host (ok r) = Encloses p.page_size target size r
Reserved p target size host (err e) = ⊥
Reserved p target size device r =
    ReservedDevice p.has_device_space p.device_granularity target size r

-- The data lies a granule below the end of the address space, for a granularity that is not 0.
abbrev pub FitsGranule : Result ℕ → ℕ → ℕ → Type 0
FitsGranule (ok g) target size = (0 < g) × (target + size + g < 2 ^ 64)
FitsGranule (err e) target size = Unit

abbrev pub known_granularity : Platform → MemorySpaceType → Result ℕ
known_granularity p host = ok p.page_size
known_granularity p device = p.device_granularity

floor_bounds : (g n : ℕ) → 0 < g → (n / g * g ≤ n) × (n < n / g * g + g)
floor_bounds g n h = grind (arith, div-add-mod, mod-lt)

mul_mod : (g q : ℕ) → 0 < g → q * g % g ≡ 0
mul_mod g q h = grind arith

u64_small : (n : ℕ) → n < 2 ^ 64 → u64 n ≡ n
u64_small n h = omega arith

grown_size :
    (g a target size : ℕ)
    → 0 < g
    → 0 < size
    → a ≤ target
    → target < a + g
    → target + size + g < 2 ^ 64
    → u64 (u64 (size + (target - a)) + 2 ^ 64 - 1) ≡ size + (target - a) - 1
grown_size g a target size h k l u b = omega arith

ceil_bounds :
    (g n : ℕ) → 0 < g → 0 < n → (n ≤ ((n - 1) / g + 1) * g) × (((n - 1) / g + 1) * g < n + g)
ceil_bounds g n h k = omega (arith, floor_bounds g (n - 1) h)

aligned_region-Encloses :
    (g target size : ℕ)
    → 0 < g
    → 0 < size
    → target + size + g < 2 ^ 64
    → Encloses g target size (aligned_region g target size)
unfolding aligned_region
aligned_region-Encloses g target size h k b =
    let start = floor_bounds g target h in
    let a = target / g * g in
    let n = size + (target - a) in
    let end = ceil_bounds g n h (omega arith) in
    rw (grown_size g a target size h k start.0 start.1 b) (
      rw (u64_small (((n - 1) / g + 1) * g) (omega arith)) (record {
        below = start.0;
        above = omega arith;
        tight_below = start.1;
        tight_above = omega arith;
        aligned = mul_mod g (target / g) h;
        whole = mul_mod g ((n - 1) / g + 1) h;
      }))

device-ReservedDevice :
    (has : Bool) (known : Result ℕ) (no_space : Text) (target size : ℕ)
    → 0 < size
    → FitsGranule known target size
    → ReservedDevice has known target size
        ((if has then known else err no_space) >>= λ g. ok (aligned_region g target size))
device-ReservedDevice true (ok g) no_space target size k (h, b) =
    aligned_region-Encloses g target size h k b
device-ReservedDevice true (err e) no_space target size k b = refl
device-ReservedDevice false known no_space target size k b = tt

-- For data that is not empty and lies a granule below the end of the address space, the range that is
-- reserved on the host encloses the data tightly; so does the one on the device of a build that has one,
-- where the calls of the driver for the granularity succeed, and their error is thrown where they do not; a
-- build without a device space throws for the device.
pub get_allocation_address-Encloses :
    (p : Platform) (target size : ℕ) (space : MemorySpaceType)
    → 0 < size
    → FitsGranule (known_granularity p space) target size
    → Reserved p target size space (get_allocation_address p target size space)
unfolding get_allocation_address granularity_of
get_allocation_address-Encloses p target size host k (h, b) =
    aligned_region-Encloses _ target size h k b
get_allocation_address-Encloses p target size device k b =
    device-ReservedDevice p.has_device_space p.device_granularity _ target size k b
