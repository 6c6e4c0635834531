-- ===== src/Capture/Dump/WritePolicy.antt =====
-- `write_policy` and the attribute writers of src/krepe/capture/view_dump.cpp.
use kokkos_kernel_forge.Base.{ℕ, ◌%◌, ◌^◌, Bool, true, false, List, [], ◌∷◌, ◌++◌}
use kokkos_kernel_forge.Base.Text.{Text, text}
use kokkos_kernel_forge.Base.Int.{ℤ, pos, from_word}
use kokkos_kernel_forge.Base.Exec.{Exec, ◌>>◌}
use kokkos_kernel_forge.Common.Hdf5.{
  Hdf5, Value, string_value, int_value, uint64_value, bytes_value, int64s_value, Slot, attribute,
  dataset, ObjectPath, checked,
}
use kokkos_kernel_forge.Capture.Policy.{
  PolicyDesc, no_policy, scalar, range, mdrange, team, IndexTypeDesc, RangePolicyDesc,
  MdRangePolicyDesc, TeamPolicyDesc,
}

-- The conversion of a `std::size_t` to an `int` of 32 bits.
unfoldable pub int_of_size : ℕ → ℤ
int_of_size n = from_word (2 ^ 31) (n % 2 ^ 32)

abbrev pub int_of_bool : Bool → ℤ
int_of_bool true = pos 1
int_of_bool false = pos 0

module _ {W : Type 0} (h : Hdf5 W) where
  abbrev pub put : ObjectPath → Slot → Value → Exec W (Unit {0})
  put object slot value w = checked (h.write object slot value w)

  -- The bytes of the text and a null byte, also for an empty text.
  unfoldable pub write_string_attribute : ObjectPath → Text → Text → Exec W (Unit {0})
  write_string_attribute object name value =
      put object (attribute name) (string_value (value ++ 0 ∷ []))

  unfoldable pub write_uint64_attribute : ObjectPath → Text → ℕ → Exec W (Unit {0})
  write_uint64_attribute object name value = put object (attribute name) (uint64_value value)

  unfoldable pub write_int_attribute : ObjectPath → Text → ℤ → Exec W (Unit {0})
  write_int_attribute object name value = put object (attribute name) (int_value value)

  unfoldable pub write_bytes_dataset : ObjectPath → Text → List ℕ → Exec W (Unit {0})
  write_bytes_dataset group name bytes = put group (dataset name) (bytes_value bytes)

  unfoldable pub write_int64_dataset : ObjectPath → Text → List ℤ → Exec W (Unit {0})
  write_int64_dataset group name numbers = put group (dataset name) (int64s_value numbers)

  -- The attributes that the three kinds of policy with an index type begin with.
  unfoldable pub write_common : ObjectPath → Text → IndexTypeDesc → Text → Text → Exec W (Unit {0})
  write_common group type index_type space schedule = do
    write_string_attribute group (text "type") type
    write_int_attribute group (text "index_type_size") (int_of_size index_type.size)
    write_int_attribute group (text "index_type_signed") (int_of_bool index_type.is_signed)
    write_string_attribute group (text "space") space
    write_string_attribute group (text "schedule") schedule

  unfoldable pub write_range_policy : ObjectPath → RangePolicyDesc → Exec W (Unit {0})
  write_range_policy group p = do
    write_common group (text "range") p.index_type_desc p.space p.schedule
    write_uint64_attribute group (text "begin") p.begin
    write_uint64_attribute group (text "end") p.end
    write_int_attribute group (text "chunk_size") p.chunk_size

  unfoldable pub write_mdrange_policy : ObjectPath → MdRangePolicyDesc → Exec W (Unit {0})
  write_mdrange_policy group p = do
    write_common group (text "mdrange") p.index_type_desc p.space p.schedule
    write_int_attribute group (text "rank") (int_of_size p.rank)
    write_string_attribute group (text "outer_dir") p.outer_dir
    write_string_attribute group (text "inner_dir") p.inner_dir
    write_int64_dataset group (text "begin") p.begin
    write_int64_dataset group (text "end") p.end
    write_int64_dataset group (text "tile") p.tile

  unfoldable pub write_team_policy : ObjectPath → TeamPolicyDesc → Exec W (Unit {0})
  write_team_policy group p = do
    write_common group (text "team") p.index_type_desc p.space p.schedule
    write_int_attribute group (text "team_size") p.team_size
    write_int_attribute group (text "league_size") p.league_size
    write_int_attribute group (text "vector_length") p.vector_length
    write_int_attribute group (text "team_scratch_0") p.team_scratch_0
    write_int_attribute group (text "team_scratch_1") p.team_scratch_1
    write_int_attribute group (text "thread_scratch_0") p.thread_scratch_0
    write_int_attribute group (text "thread_scratch_1") p.thread_scratch_1
    write_int_attribute group (text "chunk_size") p.chunk_size

  unfoldable pub write_policy : ObjectPath → PolicyDesc → Exec W (Unit {0})
  unfolding write_range_policy write_mdrange_policy write_team_policy
  write_policy group no_policy = write_string_attribute group (text "type") (text "none")
  write_policy group (scalar p) = do
    write_string_attribute group (text "type") (text "scalar")
    write_uint64_attribute group (text "end") p.end
  write_policy group (range p) = write_range_policy group p
  write_policy group (mdrange p) = write_mdrange_policy group p
  write_policy group (team p) = write_team_policy group p
