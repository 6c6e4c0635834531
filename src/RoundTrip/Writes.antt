-- ===== src/RoundTrip/Writes.antt =====
-- The group that `write_policy` leaves.
use kokkos_kernel_forge.Base.{ℕ, List, [], ◌∷◌, ◌++◌, String}
use kokkos_kernel_forge.Base.Text.{Text, text}
use kokkos_kernel_forge.Base.Int.{ℤ}
use kokkos_kernel_forge.Base.Exec.{Exec, ◌>>◌}
use kokkos_kernel_forge.Common.Hdf5.{
  Hdf5, IsHdf5, string_value, int_value, uint64_value, int64s_value, attribute, dataset, ObjectPath,
}
use kokkos_kernel_forge.Capture.Policy.{
  PolicyDesc, no_policy, scalar, range, mdrange, team, IndexTypeDesc, RangePolicyDesc,
  MdRangePolicyDesc, TeamPolicyDesc,
}
use kokkos_kernel_forge.Capture.Dump.WritePolicy.{
  int_of_size, int_of_bool, write_string_attribute, write_int_attribute, write_uint64_attribute,
  write_int64_dataset, write_common, write_range_policy, write_mdrange_policy, write_team_policy,
  write_policy,
}
use kokkos_kernel_forge.Replay.Policy.{Group}
use kokkos_kernel_forge.RoundTrip.Puts.{with_slot, Puts, Puts-put, Puts-then}

abbrev pub with_string : String → Text → Group → Group
with_string name value = with_slot (attribute (text name)) (string_value (value ++ 0 ∷ []))

abbrev pub with_int : String → ℤ → Group → Group
with_int name value = with_slot (attribute (text name)) (int_value value)

abbrev pub with_uint64 : String → ℕ → Group → Group
with_uint64 name value = with_slot (attribute (text name)) (uint64_value value)

abbrev pub with_int64s : String → List ℤ → Group → Group
with_int64s name value = with_slot (dataset (text name)) (int64s_value value)

abbrev pub with_common : Text → IndexTypeDesc → Text → Text → Group → Group
with_common type i space schedule g = with_string "schedule" schedule (
    with_string "space" space (
      with_int "index_type_signed" (int_of_bool i.is_signed)
        (with_int "index_type_size" (int_of_size i.size) (with_string "type" type g))))

abbrev pub with_range : RangePolicyDesc → Group → Group
with_range p g = with_int "chunk_size" p.chunk_size (
    with_uint64 "end" p.end (
      with_uint64 "begin" p.begin
        (with_common (text "range") p.index_type_desc p.space p.schedule g)))

abbrev pub with_mdrange : MdRangePolicyDesc → Group → Group
with_mdrange p g = with_int64s "tile" p.tile (
    with_int64s "end" p.end (
      with_int64s "begin" p.begin (
        with_string "inner_dir" p.inner_dir (
          with_string "outer_dir" p.outer_dir (
            with_int "rank" (int_of_size p.rank)
              (with_common (text "mdrange") p.index_type_desc p.space p.schedule g))))))

abbrev pub with_team : TeamPolicyDesc → Group → Group
with_team p g = with_int "chunk_size" p.chunk_size (
    with_int "thread_scratch_1" p.thread_scratch_1 (
      with_int "thread_scratch_0" p.thread_scratch_0 (
        with_int "team_scratch_1" p.team_scratch_1 (
          with_int "team_scratch_0" p.team_scratch_0 (
            with_int "vector_length" p.vector_length (
              with_int "league_size" p.league_size (
                with_int "team_size" p.team_size
                  (with_common (text "team") p.index_type_desc p.space p.schedule g))))))))

-- The group behind the writes of a policy.
abbrev pub with_policy : PolicyDesc → Group → Group
with_policy no_policy g = with_string "type" (text "none") g
with_policy (scalar p) g = with_uint64 "end" p.end (with_string "type" (text "scalar") g)
with_policy (range p) g = with_range p g
with_policy (mdrange p) g = with_mdrange p g
with_policy (team p) g = with_team p g

module _ {W : Type 0} (h : Hdf5 W) (laws : IsHdf5 h) (p : ObjectPath) where
  pub puts_string :
      (name : String) (v : Text)
      → Puts h laws p (write_string_attribute h p (text name) v) (with_string name v)
  unfolding write_string_attribute
  puts_string name v = Puts-put h laws p _ _

  pub puts_int :
      (name : String) (v : ℤ)
      → Puts h laws p (write_int_attribute h p (text name) v) (with_int name v)
  unfolding write_int_attribute
  puts_int name v = Puts-put h laws p _ _

  pub puts_uint64 :
      (name : String) (v : ℕ)
      → Puts h laws p (write_uint64_attribute h p (text name) v) (with_uint64 name v)
  unfolding write_uint64_attribute
  puts_uint64 name v = Puts-put h laws p _ _

  puts_int64s :
      (name : String) (v : List ℤ)
      → Puts h laws p (write_int64_dataset h p (text name) v) (with_int64s name v)
  unfolding write_int64_dataset
  puts_int64s name v = Puts-put h laws p _ _

  infixr 4 ◌then◌
  abbrev pub ◌then◌ :
      {m n : Exec W (Unit {0})} {f g : Group → Group}
      → Puts h laws p m f
      → Puts h laws p n g
      → Puts h laws p (m >> n) (λ group. g (f group))
  a then b = Puts-then h laws p a b

  puts_common :
      (type : Text) (i : IndexTypeDesc) (space schedule : Text)
      → Puts h laws p (write_common h p type i space schedule) (with_common type i space schedule)
  unfolding write_common
  puts_common type i space schedule =
      puts_string "type" type
      then puts_int "index_type_size" _
      then puts_int "index_type_signed" _
      then puts_string "space" space
      then puts_string "schedule" schedule

  puts_range : (d : RangePolicyDesc) → Puts h laws p (write_range_policy h p d) (with_range d)
  unfolding write_range_policy
  puts_range d =
      puts_common _ _ _ _
      then puts_uint64 "begin" _
      then puts_uint64 "end" _
      then puts_int "chunk_size" _

  puts_mdrange :
      (d : MdRangePolicyDesc) → Puts h laws p (write_mdrange_policy h p d) (with_mdrange d)
  unfolding write_mdrange_policy
  puts_mdrange d =
      puts_common _ _ _ _
      then puts_int "rank" _
      then puts_string "outer_dir" _
      then puts_string "inner_dir" _
      then puts_int64s "begin" _
      then puts_int64s "end" _
      then puts_int64s "tile" _

  puts_team : (d : TeamPolicyDesc) → Puts h laws p (write_team_policy h p d) (with_team d)
  unfolding write_team_policy
  puts_team d =
      puts_common _ _ _ _
      then puts_int "team_size" _
      then puts_int "league_size" _
      then puts_int "vector_length" _
      then puts_int "team_scratch_0" _
      then puts_int "team_scratch_1" _
      then puts_int "thread_scratch_0" _
      then puts_int "thread_scratch_1" _
      then puts_int "chunk_size" _

  pub puts_policy : (d : PolicyDesc) → Puts h laws p (write_policy h p d) (with_policy d)
  unfolding write_policy
  puts_policy no_policy = puts_string "type" _
  puts_policy (scalar d) = puts_string "type" _ then puts_uint64 "end" _
  puts_policy (range d) = puts_range d
  puts_policy (mdrange d) = puts_mdrange d
  puts_policy (team d) = puts_team d
