-- ===== src/Replay/Views.antt =====
-- The views of a dump: `get_hdf5_dataset_alloc_info`, `allocate_hdf5_dataset` and
-- `allocate_hdf5_output_dataset` of src/krepe/replay/kernel_replayer.cpp. What the callbacks get through a `void*`
-- is an argument.
use kokkos_kernel_forge.Base.{
  ℕ, ◌+◌, ◌-◌, ◌%◌, ◌^◌, Bool, true, false, Option, some, List, [], ◌∷◌, ◌==◌, nat_eq, ltb, leb,
  if◌then◌else◌, length,
}
use kokkos_kernel_forge.Base.Text.{Text, text}
use kokkos_kernel_forge.Base.Result.{Result, ok, err}
use kokkos_kernel_forge.Base.Result as Result
use kokkos_kernel_forge.Base.Exec.{Exec, pure, ◌>>=◌, ◌>>◌}
use kokkos_kernel_forge.Common.Hdf5.{Value, bytes_value, dataset, hdf5_failed}
use kokkos_kernel_forge.Replay.Space.{
  MemorySpaceType, host, device, Platform, memory_space_type_from_string,
}
use kokkos_kernel_forge.Replay.Hex.{stoull_16}
use kokkos_kernel_forge.Replay.Policy.{Group, get_string, get_int, bool_of_int}
use kokkos_kernel_forge.Replay.Regions.{Region, get_allocation_address, insert_region}

-- The dataset has integers of one byte, which the source asserts. krepe writes it with one dimension.
unfoldable pub as_bytes : Option Value → Result (List ℕ)
as_bytes (some (bytes_value bytes)) = ok bytes
as_bytes _ = err hdf5_failed

unfoldable pub get_bytes : Group → Text → Result (List ℕ)
unfolding as_bytes
get_bytes group name = as_bytes (group (dataset name))

-- `std::reduce` from the `int` 1, whose result becomes a `std::size_t`: 32 bits with their sign.
unfoldable pub buffer_size : ℕ → ℕ
buffer_size dim = let low = dim % 2 ^ 32 in if ltb low (2 ^ 31) then low else 2 ^ 64 - 2 ^ 32 + low

unfoldable pub space_eq : MemorySpaceType → MemorySpaceType → Bool
space_eq host host = true
space_eq host device = false
space_eq device host = false
space_eq device device = true

-- A call that reads and changes no state.
abbrev pub lift : {S A : Type 0} → Result A → Exec S A
lift r s = (r, s)

unfoldable pub insert_unless_empty :
    Platform → MemorySpaceType → ℕ → ℕ → List Region → Result (List Region)
insert_unless_empty p space address size allocations =
    if size == 0
    then ok allocations
    else Result.◌>>=◌ (get_allocation_address p address size space)
        (λ allocation_info. ok (insert_region allocation_info allocations))

-- `get_hdf5_dataset_alloc_info` on the set of ranges.
unfoldable pub get_hdf5_dataset_alloc_info :
    Platform → MemorySpaceType → Group → List Region → Result (List Region)
unfolding space_eq insert_unless_empty get_bytes
get_hdf5_dataset_alloc_info p target group allocations =
    Result.◌>>=◌ (get_string group (text "space")) λ space.
      Result.◌>>=◌ (get_string group (text "p_data")) λ p_data.
        Result.◌>>=◌ (stoull_16 p_data) λ address.
          let memory_space = memory_space_type_from_string space in
          if space_eq memory_space target
          then Result.◌>>=◌ (get_bytes group (text "bytes")) (λ bytes.
            insert_unless_empty p memory_space address (buffer_size (length bytes)) allocations)
          else ok allocations

-- The buffer of `buffer_size` bytes that the whole dataset is read into. No buffer of 2 ^ 63 bytes or more can
-- be made; a read past the end of the buffer is undefined, and ends the model's run.
unfoldable pub read_buffer : List ℕ → Result (List ℕ)
unfolding buffer_size
read_buffer bytes =
    if buffer_size (length bytes) == length bytes
    then ok bytes
    else if leb (2 ^ 63) (buffer_size (length bytes))
    then err (text "std::bad_array_new_length")
    else err (text "undefined")

-- `hdf5_iterate_fun_t`: the label, the space, the address and the bytes.
abbrev pub IterateFun : Type 0 → Type 0
IterateFun S = Text → Text → ℕ → List ℕ → Exec S (Unit {0})

module _ {S : Type 0} (allocate_fun : IterateFun S) where
  unfoldable pub hand_over : Text → Text → ℕ → List ℕ → Exec S (Unit {0})
  unfolding read_buffer
  hand_over label space address bytes =
      if buffer_size (length bytes) == 0
      then allocate_fun label space 0 []
      else lift (read_buffer bytes) >>= allocate_fun label space address

  unfoldable pub allocate_hdf5_dataset : Group → Exec S (Unit {0})
  unfolding hand_over get_bytes
  allocate_hdf5_dataset group = do
    label ← lift (get_string group (text "label"))
    space ← lift (get_string group (text "space"))
    p_data ← lift (get_string group (text "p_data"))
    address ← lift (stoull_16 p_data)
    bytes ← lift (get_bytes group (text "bytes"))
    hand_over label space address bytes

  abbrev pub dumped_or_skipped : Bool → Group → Exec S (Unit {0})
  dumped_or_skipped false group = pure tt
  dumped_or_skipped true group = allocate_hdf5_dataset group

  unfoldable pub allocate_hdf5_output_dataset : Group → Exec S (Unit {0})
  unfolding allocate_hdf5_dataset
  allocate_hdf5_output_dataset group = do
    bytes_dumped ← lift (get_int group (text "bytes_dumped"))
    dumped_or_skipped (bool_of_int bytes_dumped) group

-- `H5Literate_by_name` with a callback that never stops it.
unfoldable pub for_each : {S : Type 0} → (Text → Exec S (Unit {0})) → List Text → Exec S (Unit {0})
for_each body [] = pure tt
for_each body (name ∷ names) = body name >> for_each body names
