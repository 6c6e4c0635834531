-- ===== src/Tests/Machine.antt =====
-- The memory of a replay: ranges of the host and of a device.
use kokkos_kernel_forge.Base.{ℕ, ◌≡◌, refl, true, false, none, List, [], ◌∷◌, ◌++◌, arith}
use kokkos_kernel_forge.Base.Result.{ok}
use kokkos_kernel_forge.Base.Exec.{Yields, ◌>>=◌}
use kokkos_kernel_forge.Replay.Space.{host, device}
use kokkos_kernel_forge.Replay.Regions.{Region}
use kokkos_kernel_forge.Replay.Machine.{Os, placed}
use kokkos_kernel_forge.Replay.Machine.Device.{
  Driver, cuda, DeviceState, Allocated, device_allocate, device_allocate-Allocated,
}
use kokkos_kernel_forge.Replay.Machine.Allocation.{
  Machine, System, Allocation, emplace_back, destroy_all, given_back, kept,
  destroy_all-emplace_back,
}

-- Every range is placed where it is wanted.
abbrev pub willing_os : Os
willing_os = record { mmap = λ mapped r. placed r.address }

abbrev willing_driver : Driver
willing_driver = record {
  backend = cuda;
  get_device = none;
  allocation_granularity = ok 2097152;
  mem_create = λ size. none;
  address_reserve = λ reserved r. ok r.address;
  mem_map = λ r. none;
  set_access = λ r. none;
  mem_release = none;
  mem_unmap = λ r. none;
  address_free = λ r. none;
  memcpy = λ address size. none;
  init_calls = [];
  supports_virtual_address = true;
}

abbrev pub no_device_memory : DeviceState
no_device_memory = record { handles = 0; reserved = []; mapped = []; bytes = λ a. 0 }

abbrev granule : Region
granule = record { address = 2097152; size = 2097152 }

device_allocate-Allocated_example :
    Yields
      (device_allocate willing_driver granule no_device_memory)
      (Allocated cuda granule no_device_memory)
device_allocate-Allocated_example =
    device_allocate-Allocated willing_driver granule no_device_memory

abbrev pub host_system : System
host_system = record { os = willing_os; driver = none; unsupported_device = false }

abbrev page : ℕ → Region
page address = record { address = address; size = 4096 }

abbrev host_page : ℕ → Allocation
host_page address = record { range = page address; memory_space = host }

abbrev pub machine_with : List Region → Machine
machine_with mapped = record {
  host_memory = record { mapped = mapped; bytes = λ a. 0 };
  device_memory = no_device_memory;
}

abbrev two_pages : Machine
two_pages = machine_with (page 8192 ∷ page 4096 ∷ [])

-- The moved object takes its page for one of the device.
destroy_all-emplace_back_example :
    (emplace_back host_system true (λ a. device) (host_page 4096 ∷ []) (host_page 8192)
        >>= destroy_all host_system)
      two_pages
    ≡ (
      ok tt,
      given_back (kept true (λ a. device) (host_page 4096 ∷ []) ++ host_page 8192 ∷ []) two_pages,
    )
destroy_all-emplace_back_example =
    destroy_all-emplace_back host_system true (λ a. device) (host_page 4096 ∷ []) (host_page 8192)
      two_pages refl ((omega arith, refl), tt) (omega arith, refl)
