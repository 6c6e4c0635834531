-- ===== src/Replay/Machine/Device.antt =====
-- src/krepe/replay/cuda_allocation.hpp and hip_allocation.hpp: the memory of the device, through the calls of
-- the driver, whose answers are a parameter. CHECK_CUDA_CALL and CHECK_HIP_CALL turn an error into
-- an exception.
use kokkos_kernel_forge.Base.{
  ℕ, suc, ◌-◌, ◌≡◌, refl, inl, inr, Bool, true, false, Option, none, some, List, [], ◌∷◌, ◌==◌,
  nat_eq, arith, if◌then◌else◌, Option-cases, length, Bool-cases,
}
use kokkos_kernel_forge.Base.Text.{Text, text}
use kokkos_kernel_forge.Base.Result as Result
use kokkos_kernel_forge.Base.Result.{Result, ok, err, Result-cases}
use kokkos_kernel_forge.Base.Exec.{Exec, Yields, pure, throw, ◌>>=◌, ◌>>◌}
use kokkos_kernel_forge.Replay.Regions.{Region}
use kokkos_kernel_forge.Replay.Machine as Machine

pub data Backend : Type 0 where
  cuda hip : Backend

-- A call answers `none`, or the text of its error. The reservation answers the address.
pub record Driver : Type 0 where
  pub backend : Backend
  pub get_device : Option Text
  pub allocation_granularity : Result ℕ
  pub mem_create : ℕ → Option Text
  pub address_reserve : List Region → Region → Result ℕ
  pub mem_map : Region → Option Text
  pub set_access : Region → Option Text
  pub mem_release : Option Text
  pub mem_unmap : Region → Option Text
  pub address_free : Region → Option Text
  pub memcpy : ℕ → ℕ → Option Text
  pub init_calls : List (Option Text)
  pub supports_virtual_address : Bool

-- What the driver keeps: the handles of physical memory, the reserved ranges, the mapped ranges and
-- the bytes.
pub record DeviceState : Type 0 where
  pub handles : ℕ
  pub reserved : List Region
  pub mapped : List Region
  pub bytes : ℕ → ℕ

-- `CHECK_CUDA_CALL(call)`, where `effect` is what the call does when it succeeds.
unfoldable pub throw_error : Option Text → (DeviceState → DeviceState) → Exec DeviceState (Unit {0})
throw_error none effect s = (ok tt, effect s)
throw_error (some error) effect s = (err error, s)

-- `device_allocation_granularity`: two checked calls. The one of CUDA goes on with a constant.
unfoldable pub checked_granularity : Backend → Option Text → Result ℕ → Result ℕ
checked_granularity backend (some error) answer = err error
checked_granularity backend none (err error) = err error
checked_granularity cuda none (ok granularity) = ok 33554432
checked_granularity hip none (ok granularity) = ok granularity

unfoldable pub device_allocation_granularity : Driver → Result ℕ
unfolding checked_granularity
device_allocation_granularity d =
    checked_granularity d.backend d.get_device d.allocation_granularity

-- The calls that `device_init` of src/krepe/replay/kernel_replayer.cpp begins with, each checked.
unfoldable pub check_calls : List (Option Text) → Result (Unit {0})
check_calls [] = ok tt
check_calls (none ∷ calls) = check_calls calls
check_calls (some error ∷ calls) = err error

abbrev pub supported_or_throw : Bool → Result (Unit {0})
supported_or_throw true = ok tt
supported_or_throw false =
    err (text "The selected device does not support virtual memory management")

unfoldable pub device_init : Option Driver → Result (Unit {0})
unfolding check_calls
device_init none = supported_or_throw true
device_init (some d) =
    Result.◌>>◌ (check_calls d.init_calls) (supported_or_throw d.supports_virtual_address)

abbrev same : DeviceState → DeviceState
same s = s

abbrev pub at_address : Region → ℕ → Region
at_address r address = record { address = address; size = r.size }

abbrev reserved_at : Region → DeviceState → Result ℕ → Result Region × DeviceState
reserved_at r s (ok address) =
    (ok (at_address r address), record s { reserved = at_address r address ∷ s.reserved })
reserved_at r s (err e) = (err e, s)

-- `cuMemAddressReserve`
unfoldable pub reserve : Driver → Region → Exec DeviceState Region
reserve d r s = reserved_at r s (d.address_reserve s.reserved r)

-- What both versions do behind the test of the address.
unfoldable pub map_and_release : Driver → Region → Exec DeviceState Region
unfolding throw_error
map_and_release d real = do
  throw_error (d.mem_map real) (λ s. record s { mapped = real ∷ s.mapped })
  throw_error (d.set_access real) same
  throw_error d.mem_release (λ s. record s { handles = s.handles - 1 })
  pure real

-- cuda_allocation.hpp
unfoldable pub check_address : Region → Region → Exec DeviceState (Unit {0})
check_address target real =
    if real.address == target.address
    then pure tt
    else throw (text "Failed to allocate data at a specific device address")

unfoldable pub cuda_device_allocate : Driver → Region → Exec DeviceState Region
unfolding throw_error reserve check_address map_and_release
cuda_device_allocate d target = do
  throw_error d.get_device same
  throw_error (d.mem_create target.size) (λ s. record s { handles = suc s.handles })
  real ← reserve d target
  check_address target real
  map_and_release d real

unfoldable pub cuda_device_deallocate : Driver → Region → Exec DeviceState (Unit {0})
unfolding throw_error Machine.unmap
cuda_device_deallocate d r = do
  throw_error (d.mem_unmap r) (λ s. record s { mapped = Machine.unmap r s.mapped })
  throw_error (d.address_free r) (λ s. record s { reserved = Machine.unmap r s.reserved })

unfoldable pub cuda_device_copy_data : Driver → ℕ → List ℕ → Exec DeviceState (Unit {0})
unfolding throw_error Machine.put_bytes
cuda_device_copy_data d address buffer =
    throw_error (d.memcpy address (length buffer))
      (λ s. record s { bytes = Machine.put_bytes address buffer s.bytes })

-- hip_allocation.hpp, which makes no test of the address.
unfoldable pub hip_device_allocate : Driver → Region → Exec DeviceState Region
unfolding throw_error reserve map_and_release
hip_device_allocate d target = do
  throw_error d.get_device same
  throw_error (d.mem_create target.size) (λ s. record s { handles = suc s.handles })
  real ← reserve d target
  map_and_release d real

unfoldable pub hip_device_deallocate : Driver → Region → Exec DeviceState (Unit {0})
unfolding throw_error Machine.unmap
hip_device_deallocate d r = do
  throw_error (d.mem_unmap r) (λ s. record s { mapped = Machine.unmap r s.mapped })
  throw_error (d.address_free r) (λ s. record s { reserved = Machine.unmap r s.reserved })

unfoldable pub hip_device_copy_data : Driver → ℕ → List ℕ → Exec DeviceState (Unit {0})
unfolding throw_error Machine.put_bytes
hip_device_copy_data d address buffer =
    throw_error (d.memcpy address (length buffer))
      (λ s. record s { bytes = Machine.put_bytes address buffer s.bytes })

-- The header that the build includes.
abbrev pub by_backend {ℓ} : {A : Type ℓ} → Backend → A → A → A
by_backend cuda of_cuda of_hip = of_cuda
by_backend hip of_cuda of_hip = of_hip

unfoldable pub device_allocate : Driver → Region → Exec DeviceState Region
unfolding cuda_device_allocate hip_device_allocate
device_allocate d target =
    by_backend d.backend (cuda_device_allocate d target) (hip_device_allocate d target)

unfoldable pub device_deallocate : Driver → Region → Exec DeviceState (Unit {0})
unfolding cuda_device_deallocate hip_device_deallocate
device_deallocate d r =
    by_backend d.backend (cuda_device_deallocate d r) (hip_device_deallocate d r)

unfoldable pub device_copy_data : Driver → ℕ → List ℕ → Exec DeviceState (Unit {0})
unfolding cuda_device_copy_data hip_device_copy_data
device_copy_data d address buffer =
    by_backend d.backend (cuda_device_copy_data d address buffer)
      (hip_device_copy_data d address buffer)

-- What a successful allocation leaves: one range more, of the size that was asked for, with CUDA at the target
-- address, and no handle.
pub record Allocated (b : Backend) (target : Region) (s : DeviceState) (r : Region)
    (s' : DeviceState) : Type 0 where
  pub size : r.size ≡ target.size
  pub address : b ≡ cuda → r.address ≡ target.address
  pub state : s' ≡ record s { reserved = r ∷ s.reserved; mapped = r ∷ s.mapped }

map_and_release-Allocated :
    (d : Driver) (b : Backend) (target real : Region) (s : DeviceState)
    → real.size ≡ target.size
    → (b ≡ cuda → real.address ≡ target.address)
    → Yields
        (map_and_release d real
          (record s { handles = suc s.handles; reserved = real ∷ s.reserved }))
        (Allocated b target s)
unfolding map_and_release throw_error
map_and_release-Allocated d b target real s sized placed = elim (Option-cases (d.mem_map real)) [
  | inr (e, h) ↦ rw h tt
  | inl h ↦ rw h (elim (Option-cases (d.set_access real)) [
    | inr (e, h₂) ↦ rw h₂ tt
    | inl h₂ ↦ rw h₂ (elim (Option-cases d.mem_release) [
      | inr (e, h₃) ↦ rw h₃ tt
      | inl h₃ ↦ rw h₃ (record {
        size = sized;
        address = placed;
        state = let e : suc s.handles - 1 ≡ s.handles = omega arith in rw e refl;
      })
    ])
  ])
]

-- The steps up to the reservation, which both versions begin with.
reserved-Allocated :
    (d : Driver) (b : Backend) (target : Region) (s : DeviceState)
    (rest : Region → Exec DeviceState Region)
    → ((real : Region)
        → real.size ≡ target.size
        → Yields
            (rest real (record s { handles = suc s.handles; reserved = real ∷ s.reserved }))
            (Allocated b target s))
    → Yields
        ((do
          throw_error d.get_device same
          throw_error (d.mem_create target.size) (λ s. record s { handles = suc s.handles })
          real ← reserve d target
          rest real)
          s)
        (Allocated b target s)
unfolding throw_error reserve
reserved-Allocated d b target s rest step = elim (Option-cases d.get_device) [
  | inr (e, h) ↦ rw h tt
  | inl h ↦ rw h (elim (Option-cases (d.mem_create target.size)) [
    | inr (e, h₂) ↦ rw h₂ tt
    | inl h₂ ↦ rw h₂ (elim (Result-cases (d.address_reserve s.reserved target)) [
      | inr (e, h₃) ↦ rw h₃ tt
      | inl (a, h₃) ↦ rw h₃ (step (at_address target a) refl)
    ])
  ])
]

cuda_device_allocate-Allocated :
    (d : Driver) (target : Region) (s : DeviceState)
    → Yields (cuda_device_allocate d target s) (Allocated cuda target s)
unfolding cuda_device_allocate check_address
cuda_device_allocate-Allocated d target s =
    reserved-Allocated d cuda target s (λ real. check_address target real >> map_and_release d real)
      λ real sized. elim (Bool-cases (real.address == target.address)) [
        | inl e ↦
            rw e
              (map_and_release-Allocated d cuda target real s sized (λ of_cuda. ground (arith, e)))
        | inr e ↦ rw e tt
      ]

hip_device_allocate-Allocated :
    (d : Driver) (target : Region) (s : DeviceState)
    → Yields (hip_device_allocate d target s) (Allocated hip target s)
unfolding hip_device_allocate
hip_device_allocate-Allocated d target s =
    reserved-Allocated d hip target s (map_and_release d)
      λ real sized. map_and_release-Allocated d hip target real s sized (λ of_cuda. cc)

by_backend-Allocated :
    (d : Driver) (b : Backend) (target : Region) (s : DeviceState)
    → Yields
        (by_backend b (cuda_device_allocate d target) (hip_device_allocate d target) s)
        (Allocated b target s)
by_backend-Allocated d cuda target s = cuda_device_allocate-Allocated d target s
by_backend-Allocated d hip target s = hip_device_allocate-Allocated d target s

-- A device allocation that returns has mapped one range of the size that was asked for, keeps no handle of
-- physical memory, and has changed nothing else; with CUDA the range is at the target address. (The
-- HIP version does not look.)
pub device_allocate-Allocated :
    (d : Driver) (target : Region) (s : DeviceState)
    → Yields (device_allocate d target s) (Allocated d.backend target s)
unfolding device_allocate
device_allocate-Allocated d target s = by_backend-Allocated d d.backend target s

by_backend-copy :
    (d : Driver) (b : Backend) (address : ℕ) (buffer : List ℕ) (s : DeviceState)
    → d.memcpy address (length buffer) ≡ none
    → by_backend b
        (cuda_device_copy_data d address buffer)
        (hip_device_copy_data d address buffer)
        s
      ≡ (ok tt, record s { bytes = Machine.put_bytes address buffer s.bytes })
unfolding cuda_device_copy_data hip_device_copy_data throw_error
by_backend-copy d cuda address buffer s fine = rw fine refl
by_backend-copy d hip address buffer s fine = rw fine refl

-- A copy that the driver makes puts the bytes at the address, with either header.
pub device_copy_data_lem :
    (d : Driver) (address : ℕ) (buffer : List ℕ) (s : DeviceState)
    → d.memcpy address (length buffer) ≡ none
    → device_copy_data d address buffer s
      ≡ (ok tt, record s { bytes = Machine.put_bytes address buffer s.bytes })
unfolding device_copy_data
device_copy_data_lem d address buffer s fine = by_backend-copy d d.backend address buffer s fine
