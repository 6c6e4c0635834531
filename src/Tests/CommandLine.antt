-- ===== src/Tests/CommandLine.antt =====
-- The flag of the replay among the arguments of an application.
use kokkos_kernel_forge.Base.{◌≡◌, refl, some, List, [], ◌∷◌, ◌++◌, arith, take, nat_eq}
use kokkos_kernel_forge.Base.Text.{Text, text, text_eq}
use kokkos_kernel_forge.Replay.CommandLine.{find_flag_argument, is_assignment}
use kokkos_kernel_forge.Replay.CommandLine.Flag.{apart, written, on, find_flag_argument-written}

abbrev other_args : List Text
other_args = text "-n" ∷ text "8" ∷ []

find_flag_argument-written_example :
    let (argument, a) = find_flag_argument (text "--dump") (
      on
        (text "app" ∷ other_args ++ (written apart (text "--dump") (text "a.h5") ++ other_args))) in
    (argument ≡ some (text "a.h5")) × (take a.argc a.argv ≡ text "app" ∷ (other_args ++ other_args))
unfolding text text_eq is_assignment
find_flag_argument-written_example =
    find_flag_argument-written apart (text "--dump") (text "a.h5") (text "app") other_args
      other_args (omega arith) ((refl, refl), ((refl, refl), tt))
