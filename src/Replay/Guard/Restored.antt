-- ===== src/Replay/Guard/Restored.antt =====
-- What the loop over the views of a dump leaves: each view is found under its label, and the memory
-- behind it holds its bytes.
pub mod Kept
pub mod Whole
use kokkos_kernel_forge.Base.{
  ℕ, zero, suc, ◌+◌, ◌^◌, ◌≤◌, ◌<◌, ◌≡◌, ◌≢◌, ◌∙◌, refl, ap, inl, inr, ◌⊎◌, Bool, true, false,
  Option, none, some, List, [], ◌∷◌, ◌++◌, ◌==◌, nat_eq, arith, if◌then◌else◌, is_empty, length,
  get_elem?, All, Bool-cases,
}
use kokkos_kernel_forge.Base.Text.{Text, text, text_eq, text_eq_iff, text_eq_refl, text_Eq}
use kokkos_kernel_forge.Base.Dict.{Dict, lookup, insert, lookup-insert}
use kokkos_kernel_forge.Base.Result.{Result, ok, err}
use kokkos_kernel_forge.Replay.Space.{
  MemorySpaceType, host, device, MemorySpaceType-cases, memory_space_type_from_string,
}
use kokkos_kernel_forge.Base.Exec.{continue_done}
use kokkos_kernel_forge.Replay.Regions.{Region}
use kokkos_kernel_forge.Replay.Hex.{stoull_16}
use kokkos_kernel_forge.Replay.Policy.{Group, get_string}
use kokkos_kernel_forge.Replay.Machine.{put_bytes, all_mapped, host_copy_data}
use kokkos_kernel_forge.Replay.Machine.Device.{Driver, device_copy_data_lem}
use kokkos_kernel_forge.Replay.Machine.Allocation.{Machine, System, copy_data}
use kokkos_kernel_forge.Replay.Views.{
  get_bytes, buffer_size, hand_over, allocate_hdf5_dataset, for_each,
}
use kokkos_kernel_forge.Replay.Guard.{Build, Replayer, is_there, remember, copy_data_wrapper}
use kokkos_kernel_forge.Replay.Guard.Lookup.{get_allocation}

put_bytes-outside :
    (address : ℕ) (bs : List ℕ) (f : ℕ → ℕ) (a : ℕ)
    → (a < address) ⊎ (address + length bs ≤ a)
    → put_bytes address bs f a ≡ f a
unfolding put_bytes
put_bytes-outside address [] f a h = refl
put_bytes-outside address (b ∷ bs) f a h = ground (arith, put_bytes-outside (suc address) bs f a)

put_bytes-inside :
    (address : ℕ) (bs : List ℕ) (f : ℕ → ℕ) (i : ℕ)
    → i < length bs
    → get_elem? bs i ≡ some (put_bytes address bs f (address + i))
unfolding put_bytes
put_bytes-inside address [] f i h = absurd (omega arith)
put_bytes-inside address (b ∷ bs) f zero h = ground arith
put_bytes-inside address (b ∷ bs) f (suc i) h =
    let shift : address + suc i ≡ suc address + i = omega arith in
    put_bytes-inside (suc address) bs f i (omega arith) ∙ rw shift (ground arith)

pub record View : Type 0 where
  pub label : Text
  pub space : Text
  pub address : ℕ
  pub bytes : List ℕ

-- The group of a view in a dump: its address is written as text, and its data is shorter than 2 ^ 31 bytes.
pub record Describes (group : Group) (v : View) : Type 0 where
  pub label : get_string group (text "label") ≡ ok v.label
  pub space : get_string group (text "space") ≡ ok v.space
  pub p_data : Text
  pub pointer : get_string group (text "p_data") ≡ ok p_data
  pub address : stoull_16 p_data ≡ ok v.address
  pub bytes : get_bytes group (text "bytes") ≡ ok v.bytes
  pub short : length v.bytes < 2 ^ 31

abbrev pub space_of : View → MemorySpaceType
space_of v = memory_space_type_from_string v.space

-- Data can be copied to the device: it is there and the driver copies it.
abbrev pub CopiesTo : System → MemorySpaceType → View → Type 0
CopiesTo system host v = Unit {0}
CopiesTo system device v =
    (d : Driver) × (system.driver ≡ some d) × (d.memcpy v.address (length v.bytes) ≡ none)

-- The bytes of a view of the host lie in mapped memory.
abbrev pub InMapped : List Region → MemorySpaceType → View → Type 0
InMapped mapped host v = all_mapped mapped v.address (length v.bytes) ≡ true
InMapped mapped device v = Unit

abbrev pub AllMapped : Replayer → List View → Type 0
AllMapped s vs = All (λ v. InMapped s.machine.host_memory.mapped (space_of v) v) vs

abbrev placed : MemorySpaceType → ℕ → List ℕ → Machine → Machine
placed host address bytes m = record m {
  host_memory = record (m.host_memory) { bytes = put_bytes address bytes m.host_memory.bytes };
}
placed device address bytes m = record m {
  device_memory = record (m.device_memory) {
    bytes = put_bytes address bytes m.device_memory.bytes;
  };
}

-- The null pointer for a view without data.
abbrev pub address_of : View → ℕ
address_of v = if is_empty v.bytes then 0 else v.address

abbrev restored_in : Build → MemorySpaceType → View → Replayer → Replayer
restored_in b space v s = remember b space v.label (address_of v) (record s {
  machine = if is_empty v.bytes then s.machine else placed space v.address v.bytes s.machine;
})

restored : Build → View → Replayer → Replayer
restored b v s = restored_in b (space_of v) v s

copy_data-placed :
    (system : System) (space : MemorySpaceType) (v : View) (m : Machine)
    → CopiesTo system space v
    → InMapped m.host_memory.mapped space v
    → copy_data system space v.address v.bytes m ≡ (ok tt, placed space v.address v.bytes m)
unfolding copy_data host_copy_data
copy_data-placed system host v m can there = rw there refl
copy_data-placed system device v m (d, there, fine) mapped =
    rw (there, device_copy_data_lem d v.address v.bytes m.device_memory fine) refl

pub short_size : (n : ℕ) → n < 2 ^ 31 → buffer_size n ≡ n
unfolding buffer_size
short_size n h = ground arith

abbrev view : Text → Text → ℕ → List ℕ → View
view label space address bytes = record {
  label = label;
  space = space;
  address = address;
  bytes = bytes;
}

copied :
    (b : Build) (label space : Text) (address : ℕ) (bytes : List ℕ) (s : Replayer)
    → length bytes < 2 ^ 31
    → CopiesTo b.system (memory_space_type_from_string space) (view label space address bytes)
    → InMapped s.machine.host_memory.mapped
        (memory_space_type_from_string space)
        (view label space address bytes)
    → hand_over (copy_data_wrapper b) label space address bytes s
      ≡ (ok tt, restored b (view label space address bytes) s)
unfolding hand_over copy_data_wrapper restored
copied b label space address [] s short can mapped = rw (short_size 0 short)
copied b label space address (byte ∷ bytes) s short can mapped =
    let v = view label space address (byte ∷ bytes) in
    let there : (length (byte ∷ bytes) == 0) ≡ false = ground arith in
    let whole : (length (byte ∷ bytes) == length (byte ∷ bytes)) ≡ true = ground arith in
    let moved = copy_data-placed b.system (space_of v) v s.machine can mapped in
    rw (short_size (length (byte ∷ bytes)) short, there, whole, moved)

-- A copy that returns has written to mapped memory.
copied-InMapped :
    (b : Build) (label space : Text) (address : ℕ) (bytes : List ℕ) (s : Replayer)
    → length bytes < 2 ^ 31
    → (hand_over (copy_data_wrapper b) label space address bytes s).0 ≡ ok tt
    → InMapped s.machine.host_memory.mapped
        (memory_space_type_from_string space)
        (view label space address bytes)
unfolding hand_over copy_data_wrapper copy_data host_copy_data
copied-InMapped b label space address [] s short done =
    elim (MemorySpaceType-cases (memory_space_type_from_string space)) [
      | inl on_host ↦ rw on_host refl
      | inr on_device ↦ rw on_device tt
    ]
copied-InMapped b label space address (byte ∷ bytes) s short done =
    let there : (length (byte ∷ bytes) == 0) ≡ false = ground arith in
    let whole : (length (byte ∷ bytes) == length (byte ∷ bytes)) ≡ true = ground arith in
    elim (MemorySpaceType-cases (memory_space_type_from_string space)) [
      | inr on_device ↦ rw on_device tt
      | inl on_host ↦
          rw on_host
            (elim (Bool-cases
              (all_mapped s.machine.host_memory.mapped address (length (byte ∷ bytes)))) [
                | inl mapped ↦ mapped
                | inr outside ↦
                    let fault : err (text "segmentation fault") ≡ ok tt =
                      rw (short_size (length (byte ∷ bytes)) short, there, whole, on_host, outside)
                        at done in
                    cc fault
              ])
    ]

restored-mapped :
    (b : Build) (p : MemorySpaceType) (v : View) (s : Replayer)
    → (restored_in b p v s).machine.host_memory.mapped ≡ s.machine.host_memory.mapped
unfolding remember
restored-mapped b host v s = elim (Bool-cases (is_empty v.bytes)) [ inl e ↦ rw e | inr e ↦ rw e ]
restored-mapped b device v s = elim (Bool-cases (is_there b.system.driver)) [
  | inl on ↦ elim (Bool-cases (is_empty v.bytes)) [ inl e ↦ rw (on, e) | inr e ↦ rw (on, e) ]
  | inr off ↦ elim (Bool-cases (is_empty v.bytes)) [ inl e ↦ rw (off, e) | inr e ↦ rw (off, e) ]
]

-- One round of the loop.
dataset-restored :
    (b : Build) (group : Group) (v : View) (s : Replayer)
    → Describes group v
    → CopiesTo b.system (space_of v) v
    → InMapped s.machine.host_memory.mapped (space_of v) v
    → allocate_hdf5_dataset (copy_data_wrapper b) group s ≡ (ok tt, restored b v s)
unfolding allocate_hdf5_dataset
dataset-restored b group v s d can mapped =
    rw (d.label, d.space, d.pointer, d.address, d.bytes)
      (copied b v.label v.space v.address v.bytes s d.short can mapped)

dataset-InMapped :
    (b : Build) (group : Group) (v : View) (s : Replayer)
    → Describes group v
    → (allocate_hdf5_dataset (copy_data_wrapper b) group s).0 ≡ ok tt
    → InMapped s.machine.host_memory.mapped (space_of v) v
unfolding allocate_hdf5_dataset
dataset-InMapped b group v s d done =
    copied-InMapped b v.label v.space v.address v.bytes s d.short
      (rw (d.label, d.space, d.pointer, d.address, d.bytes) at done)

-- The views that the names stand for.
abbrev pub AllDescribe : Build → (Text → Group) → List Text → List View → Type 0
AllDescribe b group_of [] [] = Unit
AllDescribe b group_of [] (v ∷ vs) = ⊥
AllDescribe b group_of (name ∷ names) [] = ⊥
AllDescribe b group_of (name ∷ names) (v ∷ vs) =
    Describes (group_of name) v × CopiesTo b.system (space_of v) v × AllDescribe b group_of names vs

abbrev restored_all : Build → List View → Replayer → Replayer
restored_all b [] s = s
restored_all b (v ∷ vs) s = restored_all b vs (restored b v s)

AllMapped-restored :
    (b : Build) (v : View) (s : Replayer) (vs : List View)
    → AllMapped s vs
    → AllMapped (restored b v s) vs
unfolding restored
AllMapped-restored b v s vs mapped = rw (restored-mapped b (space_of v) v s) mapped

AllMapped-before :
    (b : Build) (v : View) (s : Replayer) (vs : List View)
    → AllMapped (restored b v s) vs
    → AllMapped s vs
unfolding restored
AllMapped-before b v s vs mapped = rw (restored-mapped b (space_of v) v s) at mapped

loop-restored :
    (b : Build) (group_of : Text → Group) (names : List Text) (vs : List View) (s : Replayer)
    → AllDescribe b group_of names vs
    → AllMapped s vs
    → for_each (λ name. allocate_hdf5_dataset (copy_data_wrapper b) (group_of name)) names s
      ≡ (ok tt, restored_all b vs s)
unfolding for_each
loop-restored b group_of [] [] s h mapped = refl
loop-restored b group_of [] (v ∷ vs) s h mapped = elim h [ ]
loop-restored b group_of (name ∷ names) [] s h mapped = elim h [ ]
loop-restored b group_of (name ∷ names) (v ∷ vs) s (d, can, rest) (mine, others) =
    rw (dataset-restored b (group_of name) v s d can mine)
      (loop-restored b group_of names vs (restored b v s) rest (AllMapped-restored b v s vs others))

-- A loop that returns has written to mapped memory.
pub loop-AllMapped :
    (b : Build) (group_of : Text → Group) (names : List Text) (vs : List View) (s : Replayer)
    → AllDescribe b group_of names vs
    → (for_each (λ name. allocate_hdf5_dataset (copy_data_wrapper b) (group_of name)) names s).0
      ≡ ok tt
    → AllMapped s vs
unfolding for_each
loop-AllMapped b group_of [] [] s h done = tt
loop-AllMapped b group_of [] (v ∷ vs) s h done = elim h [ ]
loop-AllMapped b group_of (name ∷ names) [] s h done = elim h [ ]
loop-AllMapped b group_of (name ∷ names) (v ∷ vs) s (d, can, rest) done =
    let one = allocate_hdf5_dataset (copy_data_wrapper b) (group_of name) in
    let (first, later, same) =
      continue_done (one s).0
        (for_each (λ n. allocate_hdf5_dataset (copy_data_wrapper b) (group_of n)) names) (one s).1
        done in
    let mine = dataset-InMapped b (group_of name) v s d first in
    let after = dataset-restored b (group_of name) v s d can mine in
    (
      mine,
      AllMapped-before b v s vs
          (loop-AllMapped b group_of names vs (restored b v s) rest (rw after at later)),
    )

-- The bytes of the memory of a space.
abbrev pub bytes_of : MemorySpaceType → Replayer → ℕ → ℕ
bytes_of host s = s.machine.host_memory.bytes
bytes_of device s = s.machine.device_memory.bytes

-- The guard finds the view, and its bytes are in the memory.
pub record IsRestored (b : Build) (v : View) (s : Replayer) : Type 0 where
  pub found : get_allocation b s (space_of v) v.label ≡ ok (address_of v)
  pub holds :
      (i : ℕ)
      → i < length v.bytes
      → get_elem? v.bytes i ≡ some (bytes_of (space_of v) s (v.address + i))

-- Two views do not overwrite each other: in one space they have other labels, and their bytes lie apart.
abbrev pub Apart : View → View → Type 0
Apart v u =
    (space_of v ≢ space_of u)
    ⊎ ((v.label ≢ u.label)
        × ((v.address + length v.bytes ≤ u.address) ⊎ (u.address + length u.bytes ≤ v.address)))
