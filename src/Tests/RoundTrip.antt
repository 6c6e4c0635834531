-- ===== src/Tests/RoundTrip.antt =====
-- A range policy on its way from the capture through a dump to the replay.
use kokkos_kernel_forge.Base.{
  ◌≡◌, refl, true, false, Option, none, some, [], ◌∷◌, ◌&&◌, ◌==◌, nat_eq, arith, if◌then◌else◌,
}
use kokkos_kernel_forge.Base.Text.{text}
use kokkos_kernel_forge.Base.Int.{pos, negsuc}
use kokkos_kernel_forge.Base.Result.{ok}
use kokkos_kernel_forge.Common.Hdf5.{Value, Slot, ObjectPath, path_eq, slot_eq, Hdf5, IsHdf5}
use kokkos_kernel_forge.Capture.Dump.WritePolicy.{
  write_policy, write_common, write_range_policy, write_string_attribute, write_int_attribute,
  write_uint64_attribute,
}
use kokkos_kernel_forge.Extract.Bounds.{KokkosPolicy, range, register_bounds}
use kokkos_kernel_forge.Replay.Policy.{int32, dynamic, serial, KokkosBuild, read_policy_from_hdf5}
use kokkos_kernel_forge.Replay.Visitor.{FunctorTraits, visit}
use kokkos_kernel_forge.RoundTrip.Names.{documented_name}
use kokkos_kernel_forge.RoundTrip.Policies.{replayed, read_policy-write_policy}
use kokkos_kernel_forge.RoundTrip.Launches.{captured, visit-replayed}

abbrev pub File : Type 0
File = ObjectPath → Slot → Option Value

-- A file that keeps what is written.
abbrev pub file_hdf5 : Hdf5 File
file_hdf5 = record {
  create_file = λ name w. (true, w);
  open_file = λ name w. (true, w);
  close_file = λ w. (true, w);
  create_group = λ p w. (true, w);
  close_group = λ p w. (true, w);
  write = λ p n v w. (true, λ q m. if path_eq p q && slot_eq n m then some v else w q m);
  read = λ p n w. w p n;
  children = λ p w. some [];
  attributes = λ p w. some [];
  exists = λ p w. some true;
}

abbrev pub file_hdf5-IsHdf5 : IsHdf5 file_hdf5
file_hdf5-IsHdf5 = record {
  read-write = λ p n v w q m done. refl;
  read-create_group = λ p w q m done. refl;
  read-close_group = λ p w q m done. refl;
  read-close_file = λ w q m done. refl;
}

abbrev pub empty_file : File
empty_file p n = none

abbrev pub serial_build : KokkosBuild
serial_build = record { enabled = λ e. true; has_rank_1 = false }

-- From -3 to 10.
abbrev pub range_policy : KokkosPolicy
range_policy = range (record {
  index_type = int32;
  schedule = dynamic;
  space = serial;
  begin = negsuc 2;
  end = pos 10;
  chunk_size = pos 4;
})

read_policy-write_policy_example :
    read_policy_from_hdf5 serial_build file_hdf5
      (write_policy file_hdf5
        (text "policy" ∷ [])
        (register_bounds documented_name range_policy)
        empty_file).1
    ≡ ok (replayed range_policy)
unfolding write_policy write_range_policy write_common register_bounds write_string_attribute
    write_int_attribute write_uint64_attribute
read_policy-write_policy_example =
    read_policy-write_policy file_hdf5 file_hdf5-IsHdf5 serial_build documented_name range_policy
      empty_file (λ e. refl) refl refl

abbrev unary_functor : FunctorTraits
unary_functor = record { supports_n_args = λ n. n == 1; is_team_functor = false }

visit-replayed_example : visit unary_functor (replayed range_policy) ≡ captured range_policy
visit-replayed_example =
    visit-replayed unary_functor range_policy (omega arith, omega arith) tt refl
