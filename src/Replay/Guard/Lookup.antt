-- ===== src/Replay/Guard/Lookup.antt =====
-- What a replay asks of a guard: the functions of src/krepe/replay/kernel_replayer.cpp that look an allocation up,
-- and the templates of kernel_replayer.hpp over them. A guard has been constructed.
use kokkos_kernel_forge.Base.{
  ℕ, Bool, false, Option, none, some, List, [], ◌∷◌, ◌++◌, ◌==◌, ◌||◌, nat_eq, ltb, if◌then◌else◌,
  length, take, drop,
}
use kokkos_kernel_forge.Base.Text.{Text, text, text_Eq}
use kokkos_kernel_forge.Base.Dict.{lookup}
use kokkos_kernel_forge.Base.Result.{Result, ok, err, ◌>>=◌, ◌>>◌}
use kokkos_kernel_forge.Replay.Space.{MemorySpaceType, host, device, memory_space_type_from_string}
use kokkos_kernel_forge.Replay.Guard.{Build, Replayer, is_there, no_device}

abbrev pub or_null_address : Option ℕ → ℕ
or_null_address none = 0
or_null_address (some address) = address

-- The branch for the device throws in a build without one.
abbrev pub for_space : {A : Type 0} → Build → MemorySpaceType → A → A → Result A
for_space b host on_host on_device = ok on_host
for_space b device on_host on_device =
    if is_there b.system.driver then ok on_device else err no_device

-- What a `Kokkos::View` answers.
pub record KokkosView : Type 0 where
  pub space_name : Text
  pub label : Text

module _ (b : Build) (s : Replayer) where
  -- The null pointer is 0.
  unfoldable pub get_allocation : MemorySpaceType → Text → Result ℕ
  get_allocation memory_space label =
      for_space b memory_space (or_null_address (lookup label s.host_allocations))
        (or_null_address (lookup label s.device_allocations))

  -- The null pointer is `none`, and another pointer the buffer behind it.
  unfoldable pub get_out_allocation : MemorySpaceType → Text → Result (Option (List ℕ))
  get_out_allocation memory_space label =
      for_space b memory_space (lookup label s.host_output_allocations)
        (lookup label s.device_output_allocations)

  unfoldable pub contains : Text → List Text → Bool
  contains label [] = false
  contains label (x ∷ xs) = (x == label) || contains label xs

  unfoldable pub has_out_allocation : MemorySpaceType → Text → Result Bool
  unfolding contains
  has_out_allocation memory_space label =
      for_space b memory_space (contains label s.host_output_labels)
        (contains label s.device_output_labels)

  -- The templates `get_allocation` and `get_out_allocation`, by the name of their memory space.
  unfoldable pub space_allocation : Text → Text → Result ℕ
  unfolding get_allocation
  space_allocation space_name label =
      get_allocation (memory_space_type_from_string space_name) label

  unfoldable pub space_out_allocation : Text → Text → Result (Option (List ℕ))
  unfolding get_out_allocation
  space_out_allocation space_name label =
      get_out_allocation (memory_space_type_from_string space_name) label

  -- The two pointers that `compare_views` hands on; the views over them are of Kokkos.
  unfoldable pub compare_views : Text → Text → Result (ℕ × Option (List ℕ))
  unfolding space_allocation space_out_allocation has_out_allocation
  compare_views space_name label = do
    actual ← space_allocation space_name label
    available ← has_out_allocation (memory_space_type_from_string space_name) label
    if available
        then ok tt
        else err (text "Reference output for view is not available in the kernel dump")
    ref_data ← space_out_allocation space_name label
    ok (actual, ref_data)

  -- The same for a given view, which has a memory space and a label.
  unfoldable pub compare_views_like : KokkosView → Result (ℕ × Option (List ℕ))
  unfolding space_allocation space_out_allocation has_out_allocation
  compare_views_like view = do
    actual ← space_allocation view.space_name view.label
    available ← has_out_allocation (memory_space_type_from_string view.space_name) view.label
    if available
        then ok tt
        else err (text "Reference output for view is not available in the kernel dump")
    ref_data ← space_out_allocation view.space_name view.label
    ok (actual, ref_data)

module _ (s : Replayer) where
  unfoldable pub get_metadata : Text → Option Text
  get_metadata key = lookup key s.metadata

  -- The buffer after the call: `size` bytes of the functor in front.
  unfoldable pub init_functor : List ℕ → ℕ → Result (List ℕ)
  init_functor buffer size =
      if ltb (length s.functor_data) size
      then err (text "The stored functor is smaller than the requested functor")
      else ok (take size s.functor_data ++ drop size buffer)
