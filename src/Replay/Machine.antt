-- ===== src/Replay/Machine.antt =====
-- The memory that a replay maps: src/krepe/replay/host_allocation.hpp and copy_data of allocation.hpp. The
-- answers of the operating system are a parameter.
pub mod Device
pub mod Allocation
use kokkos_kernel_forge.Base.{
  ℕ, zero, suc, ◌+◌, ◌-◌, Bool, true, false, Option, none, some, List, [], ◌∷◌, ◌&&◌, ◌||◌, ◌==◌,
  nat_eq, leb, ltb, if◌then◌else◌, length,
}
use kokkos_kernel_forge.Base.Text.{Text, text}
use kokkos_kernel_forge.Base.Result.{Result, ok, err}
use kokkos_kernel_forge.Base.Exec.{Exec, ◌>>=◌, ◌>>◌}
use kokkos_kernel_forge.Replay.Regions.{Region}

-- The answer of `mmap` with MAP_FIXED_NOREPLACE: an address, EEXIST, or another error.
pub data MapAnswer : Type 0 where
  placed : ℕ → MapAnswer
  exists : MapAnswer
  failed : Text → MapAnswer

-- The answer may depend on what is mapped already.
pub record Os : Type 0 where
  pub mmap : List Region → Region → MapAnswer

-- The mapped ranges, and the bytes of the memory.
pub record Space : Type 0 where
  pub mapped : List Region
  pub bytes : ℕ → ℕ

abbrev pub region_eq : Region → Region → Bool
region_eq a b = (a.address == b.address) && (a.size == b.size)

-- `munmap` of a range that was mapped as one.
unfoldable pub unmap : Region → List Region → List Region
unmap r [] = []
unmap r (x ∷ xs) = let rest = unmap r xs in if region_eq r x then xs else x ∷ rest

abbrev pub answered : Region → MapAnswer → Exec Space Region
answered r (placed a) m =
    let mapped = record m { mapped = record { address = a; size = r.size } ∷ m.mapped } in
    if a == r.address then (ok r, mapped) else (
      err (text "Failed to allocate to a predefined host address"),
      record m { mapped = unmap (record { address = a; size = r.size }) mapped.mapped },
    )
answered r exists m = (err (text "Failed to allocate to a predefined host address"), m)
answered r (failed e) m =
    (err (text "Unknown error when trying to allocate to a predefined host address"), m)

-- The range is at a multiple of the granularity, which the source asserts.
unfoldable pub host_allocate : Os → Region → Exec Space Region
unfolding unmap
host_allocate os r m = answered r (os.mmap m.mapped r) m

unfoldable pub host_deallocate : Region → Space → Space
unfolding unmap
host_deallocate r m = record m { mapped = unmap r m.mapped }

-- `memcpy` to an address.
unfoldable pub put_bytes : ℕ → List ℕ → (ℕ → ℕ) → ℕ → ℕ
put_bytes address [] bytes a = bytes a
put_bytes address (b ∷ rest) bytes a =
    let later = put_bytes (suc address) rest bytes a in if a == address then b else later

unfoldable pub is_mapped : List Region → ℕ → Bool
is_mapped [] a = false
is_mapped (r ∷ rs) a = leb r.address a && ltb a (r.address + r.size) || is_mapped rs a

unfoldable pub all_mapped : List Region → ℕ → ℕ → Bool
unfolding is_mapped
all_mapped mapped address zero = true
all_mapped mapped address (suc n) = is_mapped mapped address && all_mapped mapped (suc address) n

-- `host_copy_data`. A byte outside of the mapped memory is a fault, which ends the program.
unfoldable pub host_copy_data : ℕ → List ℕ → Exec Space (Unit {0})
unfolding put_bytes all_mapped
host_copy_data address buffer m =
    if all_mapped m.mapped address (length buffer)
    then (ok tt, record m { bytes = put_bytes address buffer m.bytes })
    else (err (text "segmentation fault"), m)
