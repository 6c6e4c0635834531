-- ===== src/Replay/CommandLine.antt =====
-- `remove_cli_args` and `find_flag_argument` of src/krepe/replay/kernel_replayer.cpp.
pub mod Removal
pub mod Flag
use kokkos_kernel_forge.Base.{
  ℕ, zero, suc, ◌+◌, ◌-◌, Bool, false, Option, none, some, List, [], ◌∷◌, ◌&&◌, ◌==◌, nat_eq, ltb,
  if◌then◌else◌, length, drop, get_elem?,
}
use kokkos_kernel_forge.Base.Text.{Text, text_Eq, starts_with}

-- `argc` and the array behind `argv`.
pub record Arguments : Type 0 where
  pub argc : ℕ
  pub argv : List Text

abbrev pub set : List Text → ℕ → Text → List Text
set [] i v = []
set (x ∷ xs) zero v = v ∷ xs
set (x ∷ xs) (suc i) v = x ∷ set xs i v

abbrev pub or_null : Option Text → Text
or_null none = []
or_null (some t) = t

-- `argv[i]`
abbrev pub at : List Text → ℕ → Text
at argv i = or_null (get_elem? argv i)

-- `std::swap(argv[i], argv[j])`
unfoldable pub swap_args : List Text → ℕ → ℕ → List Text
swap_args argv i j = set (set argv j (at argv i)) i (at argv j)

-- The rounds of the loop that are left, from `i` on.
unfoldable pub shift_args : ℕ → ℕ → ℕ → List Text → List Text
unfolding swap_args
shift_args zero i n argv = argv
shift_args (suc rounds) i n argv = shift_args rounds (suc i) n (swap_args argv i (i + n))

unfoldable pub remove_cli_args : ℕ → ℕ → Arguments → Arguments
unfolding shift_args
remove_cli_args pos n a = record {
  argc = a.argc - n;
  argv = if ltb (pos + n) a.argc then shift_args (a.argc - n - pos) pos n a.argv else a.argv;
}

-- `find_first_of('=')`
unfoldable pub find_equal : Text → ℕ
find_equal [] = 0
find_equal (c ∷ s) = let rest = suc (find_equal s) in if c == b'=' then 0 else rest

abbrev pub begins_with_equal : Text → Bool
begins_with_equal [] = false
begins_with_equal (c ∷ s) = c == b'='

-- `--flag=argument`
unfoldable pub is_assignment : Text → Text → Bool
is_assignment flag current_arg =
    ltb (length flag) (length current_arg)
    && (starts_with current_arg flag && begins_with_equal (drop (length flag) current_arg))

-- The loop from `i` on; no argument is the view that points nowhere.
unfoldable pub find_from : Text → ℕ → ℕ → Arguments → Option Text × Arguments
unfolding is_assignment find_equal remove_cli_args
find_from flag zero i a = (none, a)
find_from flag (suc rounds) i a =
    let current_arg = at a.argv i in
    let next = find_from flag rounds (suc i) a in
    if is_assignment flag current_arg
    then (some (drop (suc (find_equal current_arg)) current_arg), remove_cli_args i 1 a)
    else if current_arg == flag
    then (if (i + 1) == a.argc
        then (none, a)
        else (some (at a.argv (i + 1)), remove_cli_args i 2 a))
    else next

unfoldable pub find_flag_argument : Text → Arguments → Option Text × Arguments
unfolding find_from
find_flag_argument flag a = find_from flag (a.argc - 1) 1 a
