-- ===== src/Capture/Options.antt =====
-- The choice of the kernel to dump, in src/krepe/capture/kokkos_hooks.cpp: the labels, the command
-- line (`kokkosp_parse_args`) and the tests of a kernel against it.
use kokkos_kernel_forge.Base.{
  ℕ, ◌≡◌, ◌≢◌, ◌↔◌, refl, Bool, true, false, Option, none, some, List, [], ◌∷◌, ◌++◌, ◌&&◌, ◌||◌,
  not, ◌==◌, nat_eq, arith, if◌then◌else◌, is_empty, length, drop, All,
}
use kokkos_kernel_forge.Base.Text.{
  Text, text, text_Eq, text_eq_iff, starts_with, starts_with-append, drop-append,
}
use kokkos_kernel_forge.Capture.Numbers.{parse_positive_uint64}

-- A `const char*` that may be null is an `Option`.
unfoldable pub label_or_unknown : Option Text → Text
label_or_unknown none = text "<unknown>"
label_or_unknown (some label) = label

unfoldable pub is_internal_label : Text → Bool
is_internal_label label =
    starts_with label (text "Kokkos::")
    || (starts_with label (text "HostSpace::")
        || (starts_with label (text "CudaSpace::")
            || (starts_with label (text "HIPSpace::")
                || (starts_with label (text "SYCLSpace::")
                    || (starts_with label (text "OpenACCSpace::")
                        || (starts_with label (text "NextSiliconSpace::")
                            || (starts_with label (text "KOKKOS_")
                                || starts_with label (text "kokkos."))))))))

pub record DumpSelection : Type 0 where
  pub dump_kernel_label : Text
  pub dump_kernel_invocation : Option ℕ

abbrev pub default_selection : DumpSelection
default_selection = record { dump_kernel_label = []; dump_kernel_invocation = some 1 }

unfoldable pub dump_kernel_label_option : Text
dump_kernel_label_option = text "--krepe-dump-kernel-label="

unfoldable pub dump_kernel_invocation_option : Text
dump_kernel_invocation_option = text "--krepe-dump-kernel-invocation="

unfoldable pub should_dump_views_for_label : DumpSelection → Text → Bool
should_dump_views_for_label s label =
    not (is_empty s.dump_kernel_label) && label == s.dump_kernel_label

abbrev pub is_invocation : Option ℕ → ℕ → Bool
is_invocation none invocation = false
is_invocation (some n) invocation = invocation == n

unfoldable pub should_dump_views_for_invocation : DumpSelection → Text → ℕ → Bool
unfolding should_dump_views_for_label
should_dump_views_for_invocation s label invocation =
    should_dump_views_for_label s label && is_invocation s.dump_kernel_invocation invocation

abbrev pub or_blank : Option Text → Text
or_blank none = []
or_blank (some argument) = argument

-- One round of the loop of `kokkosp_parse_args`; the line that it logs for a bad value is left out.
unfoldable pub parse_arg : DumpSelection → Option Text → DumpSelection
parse_arg s arg =
    let argument = or_blank arg in
    if starts_with argument dump_kernel_label_option
    then record s { dump_kernel_label = drop (length dump_kernel_label_option) argument }
    else if starts_with argument dump_kernel_invocation_option
    then record s {
      dump_kernel_invocation =
          parse_positive_uint64 (drop (length dump_kernel_invocation_option) argument);
    }
    else s

unfoldable pub parse_args : DumpSelection → List (Option Text) → DumpSelection
unfolding parse_arg
parse_args s [] = s
parse_args s (arg ∷ args) = parse_args (parse_arg s arg) args

is_empty_iff : (s : Text) → (not (is_empty s) ≡ true) ↔ (s ≢ [])
is_empty_iff [] = (λ h. cc, λ h. absurd (h refl))
is_empty_iff (c ∷ s) = (λ h e. cc, λ h. refl)

-- A kernel is dumped exactly when a label was chosen, the kernel has it, and the number of its
-- invocation is the one chosen.
pub should_dump_iff :
    (s : DumpSelection) (label : Text) (invocation : ℕ)
    → (should_dump_views_for_invocation s label invocation ≡ true) ↔ (
        (s.dump_kernel_label ≢ [])
        × (label ≡ s.dump_kernel_label)
        × (s.dump_kernel_invocation ≡ some invocation))
unfolding should_dump_views_for_invocation
should_dump_iff s label invocation = (
  λ h. ground (arith, is_empty_iff s.dump_kernel_label, text_eq_iff label s.dump_kernel_label),
  λ h. ground (arith, is_empty_iff s.dump_kernel_label, text_eq_iff label s.dump_kernel_label),
)

parse_args-append :
    (s : DumpSelection) (xs ys : List (Option Text))
    → parse_args s (xs ++ ys) ≡ parse_args (parse_args s xs) ys
unfolding parse_args
parse_args-append s [] ys = refl
parse_args-append s (x ∷ xs) ys = parse_args-append (parse_arg s x) xs ys

-- The argument does not set the option.
abbrev pub Lacks : Text → Option Text → Type 0
Lacks option arg = starts_with (or_blank arg) option ≡ false

later_label :
    (s : DumpSelection) (ys : List (Option Text))
    → All (Lacks dump_kernel_label_option) ys
    → (parse_args s ys).dump_kernel_label ≡ s.dump_kernel_label
unfolding parse_args
later_label s [] h = refl
later_label s (y ∷ ys) h = ground (arith, later_label (parse_arg s y) ys h.1)

later_invocation :
    (s : DumpSelection) (ys : List (Option Text))
    → All (Lacks dump_kernel_invocation_option) ys
    → (parse_args s ys).dump_kernel_invocation ≡ s.dump_kernel_invocation
unfolding parse_args
later_invocation s [] h = refl
later_invocation s (y ∷ ys) h = ground (arith, later_invocation (parse_arg s y) ys h.1)

options_differ :
    (v : Text) → starts_with (dump_kernel_invocation_option ++ v) dump_kernel_label_option ≡ false
unfolding starts_with dump_kernel_invocation_option dump_kernel_label_option text
options_differ v = refl

-- The last `--krepe-dump-kernel-label=` of a command line gives the label, whatever stands before
-- it and in the arguments behind it.
pub parse_args-last_label :
    (s : DumpSelection) (xs ys : List (Option Text)) (label : Text)
    → All (Lacks dump_kernel_label_option) ys
    → (parse_args s (xs ++ some (dump_kernel_label_option ++ label) ∷ ys)).dump_kernel_label ≡ label
parse_args-last_label s xs ys label h =
    rw parse_args-append
      (unfold parse_args in rw (later_label _ ys h, starts_with-append, drop-append))

-- The last `--krepe-dump-kernel-invocation=` of a command line gives the number, or none when its value is
-- not a positive number, whatever stands before it and in the arguments behind it.
pub parse_args-last_invocation :
    (s : DumpSelection) (xs ys : List (Option Text)) (value : Text)
    → All (Lacks dump_kernel_invocation_option) ys
    → (parse_args s
        (xs ++ some (dump_kernel_invocation_option ++ value) ∷ ys)).dump_kernel_invocation
      ≡ parse_positive_uint64 value
parse_args-last_invocation s xs ys value h = rw parse_args-append (
    unfold parse_args in
    rw (later_invocation _ ys h, options_differ, starts_with-append, drop-append))
