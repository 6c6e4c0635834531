-- ===== src/Replay/Machine/Allocation.antt =====
-- `Allocation` of src/krepe/replay/allocation.hpp: a mapped range that is given back by its destructor, and how
-- a `std::vector` of them grows.
use kokkos_kernel_forge.Base.{
  ℕ, ◌≡◌, ◌≢◌, refl, inl, inr, Bool, true, false, Option, none, some, List, [], ◌∷◌, ◌++◌, map,
  ◌==◌, nat_eq, arith, if◌then◌else◌, Bool-cases, All,
}
use kokkos_kernel_forge.Base.Text.{Text, text}
use kokkos_kernel_forge.Base.Result.{Result, ok, err}
use kokkos_kernel_forge.Base.Exec.{Exec, pure, ◌>>◌, ◌>>=◌}
use kokkos_kernel_forge.Replay.Space.{MemorySpaceType, host, device, MemorySpaceType-cases}
use kokkos_kernel_forge.Replay.Regions.{Region}
use kokkos_kernel_forge.Replay.Machine.{Os, Space, host_allocate, host_deallocate, host_copy_data}
use kokkos_kernel_forge.Replay.Machine.Device.{
  Driver, DeviceState, device_allocate, device_deallocate, device_copy_data,
}

-- The memory of the host and of the device.
pub record Machine : Type 0 where
  pub host_memory : Space
  pub device_memory : DeviceState

-- The operating system, the driver of a build with a device space, and for a build without one whether
-- Kokkos has a device that krepe does not support.
pub record System : Type 0 where
  pub os : Os
  pub driver : Option Driver
  pub unsupported_device : Bool

-- `memory_space` is indeterminate in an object that is default or move constructed: its value is
-- then an argument.
pub record Allocation : Type 0 where
  pub range : Region
  pub memory_space : MemorySpaceType

abbrev pub no_range : Region
no_range = record { address = 0; size = 0 }

-- A call on one of the two memories.
abbrev pub on_host {ℓ} : {A : Type ℓ} → Result A × Space → Machine → Result A × Machine
on_host (r, h) m = (r, record m { host_memory = h })

abbrev pub on_device {ℓ} : {A : Type ℓ} → Result A × DeviceState → Machine → Result A × Machine
on_device (r, s) m = (r, record m { device_memory = s })

abbrev pub owning : MemorySpaceType → Result Region × Machine → Result Allocation × Machine
owning space (ok r, m) = (ok (record { range = r; memory_space = space }), m)
owning space (err e, m) = (err e, m)

abbrev pub no_device_error : Bool → Text
no_device_error true = text "Trying to allocate on an unsupported device space"
no_device_error false = text "Trying to allocate on device but no device backend has been enabled"

abbrev device_range : Bool → Option Driver → Region → Exec Machine Region
device_range unsupported none r m = (err (no_device_error unsupported), m)
device_range unsupported (some d) r m = on_device (device_allocate d r m.device_memory) m

-- The constructor from a range.
unfoldable pub construct : System → MemorySpaceType → Region → Exec Machine Allocation
construct s host r m = owning host (on_host (host_allocate s.os r m.host_memory) m)
construct s device r m = owning device (device_range s.unsupported_device s.driver r m)

abbrev deallocated : Option Driver → Region → Exec Machine (Unit {0})
deallocated none r m = (ok tt, m)
deallocated (some d) r m = on_device (device_deallocate d r m.device_memory) m

abbrev pub release : System → MemorySpaceType → Region → Exec Machine (Unit {0})
release s host r m = (ok tt, record m { host_memory = host_deallocate r m.host_memory })
release s device r m = deallocated s.driver r m

-- `~Allocation`; an exception in it ends the program.
unfoldable pub destroy : System → Allocation → Exec Machine (Unit {0})
destroy s a m = if a.range.address == 0 then (ok tt, m) else release s a.memory_space a.range m

-- The new object, and the one that is moved from.
unfoldable pub move_construct : MemorySpaceType → Allocation → Allocation × Allocation
move_construct indeterminate other = (
  record { range = other.range; memory_space = indeterminate },
  record other { range = no_range },
)

unfoldable pub move_assign : Allocation → Allocation → Allocation × Allocation
move_assign self other = (record self { range = other.range }, record other { range = no_range })

abbrev copied : Option Driver → ℕ → List ℕ → Exec Machine (Unit {0})
copied none address buffer m =
    (err (text "Tried to copy data to a device space but no device backend is enabled"), m)
copied (some d) address buffer m = on_device (device_copy_data d address buffer m.device_memory) m

unfoldable pub copy_data : System → MemorySpaceType → ℕ → List ℕ → Exec Machine (Unit {0})
copy_data s host address buffer m = on_host (host_copy_data address buffer m.host_memory) m
copy_data s device address buffer m = copied s.driver address buffer m

-- The destructor of the vector.
unfoldable pub destroy_all : System → List Allocation → Exec Machine (Unit {0})
unfolding destroy
destroy_all s [] = pure tt
destroy_all s (a ∷ rest) = destroy s a >> destroy_all s rest

-- `emplace_back` on a vector: when its storage is full the elements are moved to a new one, and what is
-- left of them is destroyed with the old storage. What a moved object finds as its memory space
-- may differ from one to the other.
unfoldable pub emplace_back :
    System
    → Bool
    → (Allocation → MemorySpaceType)
    → List Allocation
    → Allocation
    → Exec Machine (List Allocation)
unfolding move_construct destroy_all
emplace_back s false indeterminate allocations new = pure (allocations ++ new ∷ [])
emplace_back s true indeterminate allocations new = do
  destroy_all s (map (λ a. (move_construct (indeterminate a) a).1) allocations)
  pure (map (λ a. (move_construct (indeterminate a) a).0) allocations ++ new ∷ [])

-- The new storage.
abbrev pub after_growth :
    Bool → (Allocation → MemorySpaceType) → List Allocation → Allocation → List Allocation
after_growth false indeterminate allocations new = allocations ++ new ∷ []
after_growth true indeterminate allocations new =
    map (λ a. record { range = a.range; memory_space = indeterminate a }) allocations ++ new ∷ []

destroy_all-left :
    (s : System) (indeterminate : Allocation → MemorySpaceType) (held : List Allocation)
    (m : Machine)
    → destroy_all s (map (λ a. (move_construct (indeterminate a) a).1) held) m ≡ (ok tt, m)
unfolding destroy_all destroy move_construct
destroy_all-left s indeterminate [] m = refl
destroy_all-left s indeterminate (a ∷ held) m = destroy_all-left s indeterminate held m

-- What is left of the moved elements owns nothing.
pub emplace_back-returns :
    (s : System) (full : Bool) (indeterminate : Allocation → MemorySpaceType)
    (held : List Allocation) (new : Allocation) (m : Machine)
    → emplace_back s full indeterminate held new m
      ≡ (ok (after_growth full indeterminate held new), m)
unfolding emplace_back move_construct
emplace_back-returns s false indeterminate held new m = refl
emplace_back-returns s true indeterminate held new m =
    rw (destroy_all-left s indeterminate held m) refl

-- An object that owns a range of the host.
abbrev pub IsHost : Allocation → Type 0
IsHost a = (a.range.address ≢ 0) × (a.memory_space ≡ host)

abbrev pub given_back : List Allocation → Machine → Machine
given_back [] m = m
given_back (a ∷ rest) m =
    given_back rest (record m { host_memory = host_deallocate a.range m.host_memory })

-- What is given back: the ranges of the objects whose memory space, after a move, happens to be the
-- host, or all ranges when nothing was moved.
abbrev pub keep_host : MemorySpaceType → Allocation → List Allocation → List Allocation
keep_host host a rest = a ∷ rest
keep_host device a rest = rest

abbrev pub kept : Bool → (Allocation → MemorySpaceType) → List Allocation → List Allocation
kept full indeterminate [] = []
kept full indeterminate (a ∷ held) =
    keep_host (if full then indeterminate a else host) a (kept full indeterminate held)

destroy-host :
    (s : System) (r : Region) (m : Machine)
    → (r.address == 0) ≡ false
    → destroy s (record { range = r; memory_space = host }) m
      ≡ (ok tt, record m { host_memory = host_deallocate r m.host_memory })
unfolding destroy
destroy-host s r m e = rw e

-- In a build without a device space, an object that takes its range for one of the device keeps it.
destroy-device :
    (s : System) (r : Region) (m : Machine)
    → s.driver ≡ none
    → destroy s (record { range = r; memory_space = device }) m ≡ (ok tt, m)
unfolding destroy
destroy-device s r m none_there = elim (Bool-cases (r.address == 0)) [
  | inl e ↦ rw e
  | inr e ↦ rw (e, none_there)
]

module _ (s : System) (indeterminate : Allocation → MemorySpaceType) (b : Allocation)
    (none_there : s.driver ≡ none) (last : IsHost b) where
  owned : (a : Allocation) → IsHost a → (a.range.address == 0) ≡ false
  owned a (owns, on) = ground (arith, owns)

  unmoved :
      (held : List Allocation) (m : Machine)
      → All IsHost held
      → destroy_all s (held ++ b ∷ []) m
        ≡ (ok tt, given_back (kept false indeterminate held ++ b ∷ []) m)
  unfolding destroy_all
  unmoved [] m h = rw (last.1, destroy-host s b.range m (owned b last))
  unmoved (a ∷ held) m (mine, rest) = rw (
    mine.1,
    destroy-host s a.range m (owned a mine),
    unmoved held (record m { host_memory = host_deallocate a.range m.host_memory }) rest,
  )

  moved :
      (held : List Allocation) (m : Machine)
      → All IsHost held
      → destroy_all s (map (λ a. (move_construct (indeterminate a) a).0) held ++ b ∷ []) m
        ≡ (ok tt, given_back (kept true indeterminate held ++ b ∷ []) m)
  unfolding destroy_all move_construct
  moved [] m h = rw (last.1, destroy-host s b.range m (owned b last))
  moved (a ∷ held) m (mine, rest) = elim (MemorySpaceType-cases (indeterminate a)) [
    | inl e ↦ rw (
      e,
      destroy-host s a.range m (owned a mine),
      moved held (record m { host_memory = host_deallocate a.range m.host_memory }) rest,
    )
    | inr e ↦ rw (e, destroy-device s a.range m none_there, moved held m rest)
  ]

-- In a build without a device space, a vector of host allocations that grows by one gives back nothing then, and at
-- its end the range of the new one and of each old one, but for those that it moved to a new storage and
-- whose memory space, which the move does not copy, happens to be the device.
pub destroy_all-emplace_back :
    (s : System) (full : Bool) (indeterminate : Allocation → MemorySpaceType)
    (held : List Allocation) (b : Allocation) (m : Machine)
    → s.driver ≡ none
    → All IsHost held
    → IsHost b
    → (emplace_back s full indeterminate held b >>= destroy_all s) m
      ≡ (ok tt, given_back (kept full indeterminate held ++ b ∷ []) m)
unfolding emplace_back
destroy_all-emplace_back s true indeterminate held b m none_there h last =
    rw (destroy_all-left s indeterminate held m) (moved s indeterminate b none_there last held m h)
destroy_all-emplace_back s false indeterminate held b m none_there h last =
    unmoved s indeterminate b none_there last held m h
