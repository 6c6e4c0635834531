-- ===== src/Replay/CommandLine/Flag.antt =====
-- `find_flag_argument` finds an argument in either of its two forms.
use mathlib.Core.List.{append_assoc}
use kokkos_kernel_forge.Base.{
  ℕ, suc, ◌+◌, ◌-◌, ◌<◌, ◌≡◌, ◌≢◌, ◌∙◌, refl, true, false, some, List, [], ◌∷◌, ◌++◌, arith, ltb,
  nat_eq, ◌==◌, length, take, drop, All, length-append,
}
use kokkos_kernel_forge.Base.Text.{
  Text, text_Eq, text_eq, text_eq_refl, starts_with-append, drop-append,
}
use kokkos_kernel_forge.Replay.CommandLine.{
  Arguments, find_equal, is_assignment, find_from, find_flag_argument, remove_cli_args,
}
use kokkos_kernel_forge.Replay.CommandLine.Removal.{at-middle, at-far, remove_cli_args-block}

-- The two forms of an argument on the command line: `--flag=value` and `--flag value`.
pub data Form : Type 0 where
  joined apart : Form

abbrev pub written : Form → Text → Text → List Text
written joined flag value = (flag ++ b'=' ∷ value) ∷ []
written apart flag value = flag ∷ value ∷ []

abbrev pub Other : Text → Text → Type 0
Other flag arg = (is_assignment flag arg ≡ false) × (text_eq arg flag ≡ false)

abbrev pub LacksEqual : Text → Type 0
LacksEqual flag = All (λ c. c ≢ b'=') flag

find_equal-append : (xs ys : Text) → LacksEqual xs → find_equal (xs ++ b'=' ∷ ys) ≡ length xs
unfolding find_equal
find_equal-append [] ys h = refl
find_equal-append (x ∷ xs) ys (h, rest) = ground (arith, find_equal-append xs ys rest, h)

is_assignment-append : (flag value : Text) → is_assignment flag (flag ++ b'=' ∷ value) ≡ true
unfolding is_assignment
is_assignment-append flag value =
    let longer : ltb (length flag) (length (flag ++ b'=' ∷ value)) ≡ true =
      ground (arith, length-append flag (b'=' ∷ value)) in
    rw (longer, starts_with-append flag (b'=' ∷ value), drop-append flag (b'=' ∷ value))

is_assignment_self : (flag : Text) → is_assignment flag flag ≡ false
unfolding is_assignment
is_assignment_self flag = ground arith

drop_value : (flag value : Text) → drop (suc (length flag)) (flag ++ b'=' ∷ value) ≡ value
drop_value [] value = refl
drop_value (c ∷ flag) value = drop_value flag value

abbrev pub on : List Text → Arguments
on args = record { argc = length args; argv = args }

-- The round that comes to the flag.
find_from-found :
    (form : Form) (flag value : Text) (before rest : List Text) (rounds : ℕ)
    → LacksEqual flag
    → find_from flag (suc rounds) (length before) (on (before ++ (written form flag value ++ rest)))
      ≡ (
        some value,
        remove_cli_args
            (length before)
            (length (written form flag value))
            (on (before ++ (written form flag value ++ rest))),
      )
unfolding find_from
find_from-found joined flag value before rest rounds h = rw (
  at-middle before rest (flag ++ b'=' ∷ value),
  is_assignment-append flag value,
  find_equal-append flag value h,
  drop_value flag value,
)
find_from-found apart flag value before rest rounds h =
    let inside : (length before + 1 == length (before ++ flag ∷ (value ∷ rest))) ≡ false =
      ground (arith, length-append before (flag ∷ (value ∷ rest))) in
    rw (
      at-middle before (value ∷ rest) flag,
      is_assignment_self flag,
      text_eq_refl flag,
      inside,
      at-far before [] rest flag value (length before + 1) (omega arith),
    )

-- The rounds over the arguments before it.
find_from-skips :
    (flag : Text) (before front rest : List Text) (rounds : ℕ)
    → All (Other flag) front
    → find_from flag (length front + rounds) (length before) (on (before ++ (front ++ rest)))
      ≡ find_from flag rounds (length before + length front) (on (before ++ (front ++ rest)))
unfolding find_from
find_from-skips flag before [] rest rounds h =
    let here : length before + 0 ≡ length before = omega arith in
    let all : 0 + rounds ≡ rounds = omega arith in rw (here, all)
find_from-skips flag before (x ∷ front) rest rounds ((first, second), others) =
    let next = find_from-skips flag (before ++ x ∷ []) front rest rounds others in
    let step : length (before ++ x ∷ []) ≡ suc (length before) =
      omega (arith, length-append before (x ∷ [])) in
    let later : suc (length before) + length front ≡ length before + suc (length front) =
      omega arith in
    let one_more : length (x ∷ front) + rounds ≡ suc (length front + rounds) = omega arith in
    rw (one_more, at-middle before (front ++ rest) x, first, second)
      (rw (append_assoc before (x ∷ []) (front ++ rest), step, later) at next)

-- `find_flag_argument` finds the value of a flag that is written as `--flag=value` or as `--flag value`, whatever stands before
-- and behind it, and takes it out of the command line: the other arguments stay in their order.
-- (The flag has no `=` in it, and no argument before it is one for the same flag.)
pub find_flag_argument-written :
    (form : Form) (flag value program : Text) (front rest : List Text)
    → LacksEqual flag
    → All (Other flag) front
    → let (argument, a) =
        find_flag_argument flag (on (program ∷ front ++ (written form flag value ++ rest))) in
      (argument ≡ some value) × (take a.argc a.argv ≡ program ∷ (front ++ rest))
unfolding find_flag_argument
find_flag_argument-written form flag value program front rest h others =
    let all = program ∷ front ++ (written form flag value ++ rest) in
    let (k, rounds) = some_rounds form flag value front rest in
    let place : length (program ∷ []) + length front ≡ length (program ∷ front) = omega arith in
    let found =
      find_from-skips flag (program ∷ []) front (written form flag value ++ rest) (suc k) others
      ∙ rw place (find_from-found form flag value (program ∷ front) rest k h) in
    let gone =
      remove_cli_args-block (program ∷ front) (written form flag value) rest
        (some_block form flag value) in
    let left : length all - 1 ≡ length front + suc k = omega (arith, rounds) in
    rw (left, found) (refl, gone.1)
  where
    some_rounds :
        (form : Form) (flag value : Text) (front rest : List Text)
        → (k : ℕ) × (length (front ++ (written form flag value ++ rest)) ≡ length front + suc k)
    some_rounds joined flag value front rest =
        (length rest, length-append front (written joined flag value ++ rest))
    some_rounds apart flag value front rest =
        (suc (length rest), length-append front (written apart flag value ++ rest))

    some_block : (form : Form) (flag value : Text) → 0 < length (written form flag value)
    some_block joined flag value = omega arith
    some_block apart flag value = omega arith
