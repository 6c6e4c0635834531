-- ===== src/Plugins/GccVersion/Accepts.antt =====
-- Which compilers the gcc plugin accepts.
use kokkos_kernel_forge.Base.{
  ℕ, ◌+◌, ◌-◌, ◌%◌, ◌^◌, ◌<◌, ◌≤◌, ◌≡◌, ◌↔◌, ◌∙◌, refl, sym, ap, true, false, not, some, [], ◌∷◌,
  ◌++◌, nat_eq, length, take, drop, length-append, arith,
}
use kokkos_kernel_forge.Base.Text.{Text, text, text_eq, text_eq_iff, starts_with}
use kokkos_kernel_forge.Base.Result.{Result, ok}
use kokkos_kernel_forge.Plugins.GccVersion.Find.{
  Lacks, find-Lacks, find-char, find_last_of-char, take-append, take-all, substr-inside, drop-both,
  find-flag, lengths,
}
use kokkos_kernel_forge.Plugins.GccVersion.{
  or_npos, after, find, find_from, get_configuration_target, get_version_without_patch,
  PluginGccVersion, differ, plugin_init,
}

-- The version without the last dot and what is behind it.
get_version_without_patch-dot :
    (front patch : Text)
    → Lacks b'.' patch
    → get_version_without_patch (front ++ b'.' ∷ patch) ≡ ok front
unfolding get_version_without_patch
get_version_without_patch-dot front patch lacks = rw (find_last_of-char b'.' front patch lacks) (
    substr-inside (front ++ b'.' ∷ patch) 0 (length front) (omega arith)
    ∙ ap ok (take-append front (b'.' ∷ patch)))

-- A target is written with `--target=`, for the first time in the text, and ends with a blank or with the text.
pub data HasTarget : Text → Text → Type 0 where
  before_blank :
      (front value rest : Text)
      → ((j : ℕ)
          → j < length front
          → starts_with
              (drop j (front ++ (text "--target=" ++ (value ++ b' ' ∷ rest))))
              (text "--target=")
            ≡ false)
      → Lacks b' ' value
      → length (front ++ (text "--target=" ++ (value ++ b' ' ∷ rest))) < 2 ^ 64
      → HasTarget (front ++ (text "--target=" ++ (value ++ b' ' ∷ rest))) value
  at_end :
      (front value : Text)
      → ((j : ℕ)
          → j < length front
          → starts_with (drop j (front ++ (text "--target=" ++ value))) (text "--target=") ≡ false)
      → Lacks b' ' value
      → length (front ++ (text "--target=" ++ value)) < 2 ^ 64
      → HasTarget (front ++ (text "--target=" ++ value)) value

sum-small : (n : ℕ) → n < 2 ^ 64 → n % 2 ^ 64 ≡ n
sum-small n small = omega arith

difference-small : (n m : ℕ) → m < 2 ^ 64 → (n + m + 2 ^ 64 - n) % 2 ^ 64 ≡ m
difference-small n m small = omega arith

-- The text behind the flag, up to the blank that is found in it.
get_configuration_target-found :
    (s tail : Text) (start : ℕ)
    → find s (text "--target=") ≡ some start
    → start + length (text "--target=") ≤ length s
    → length s < 2 ^ 64
    → drop (start + length (text "--target=")) s ≡ tail
    → get_configuration_target s
      ≡ ok (
          take
            ((or_npos (after (start + length (text "--target=")) (find tail (b' ' ∷ [])))
                + 2 ^ 64
                - (start + length (text "--target=")))
              % 2 ^ 64)
            tail)
unfolding get_configuration_target find_from
get_configuration_target-found s tail start found within small behind =
    rw (found, sum-small (start + length (text "--target=")) (omega arith), sym behind)
      (substr-inside s (start + length (text "--target=")) _ within)

take-target-inside :
    (n : ℕ) (value rest : Text)
    → Lacks b' ' value
    → length value < 2 ^ 64
    → take
        ((or_npos (after n (find (value ++ b' ' ∷ rest) (b' ' ∷ []))) + 2 ^ 64 - n) % 2 ^ 64)
        (value ++ b' ' ∷ rest)
      ≡ value
take-target-inside n value rest lacks small =
    rw (find-char b' ' value rest lacks, difference-small n (length value) small)
      (take-append value (b' ' ∷ rest))

take-target-at_end :
    (n : ℕ) (value : Text)
    → Lacks b' ' value
    → n + length value < 2 ^ 64
    → take ((or_npos (after n (find value (b' ' ∷ []))) + 2 ^ 64 - n) % 2 ^ 64) value ≡ value
take-target-at_end n value lacks small =
    rw (find-Lacks b' ' value lacks) (take-all _ value (omega arith))

-- The target that is written is the one that is read.
pub get_configuration_target-HasTarget :
    (arguments target : Text)
    → HasTarget arguments target
    → get_configuration_target arguments ≡ ok target
get_configuration_target-HasTarget _ _ (before_blank front value rest first lacks small) =
    get_configuration_target-found (front ++ (text "--target=" ++ (value ++ b' ' ∷ rest)))
      (value ++ b' ' ∷ rest) (length front)
      (find-flag front (text "--target=") (value ++ b' ' ∷ rest) first)
      (omega (arith, lengths front (text "--target=") (value ++ b' ' ∷ rest))) small
      (drop-both front (text "--target=") (value ++ b' ' ∷ rest))
    ∙ ap ok (
        take-target-inside (length front + length (text "--target=")) value rest lacks (
          omega (
            arith,
            lengths front (text "--target=") (value ++ b' ' ∷ rest),
            length-append value (b' ' ∷ rest),
          )))
get_configuration_target-HasTarget _ _ (at_end front value first lacks small) =
    get_configuration_target-found (front ++ (text "--target=" ++ value)) value (length front)
      (find-flag front (text "--target=") value first)
      (omega (arith, lengths front (text "--target=") value)) small
      (drop-both front (text "--target=") value)
    ∙ ap ok (
        take-target-at_end (length front + length (text "--target=")) value lacks
          (omega (arith, lengths front (text "--target=") value)))

differ-ok :
    (of_compiler of_headers : Result Text) (value other : Text)
    → of_compiler ≡ ok value
    → of_headers ≡ ok other
    → differ of_compiler of_headers ≡ ok (not (text_eq value other))
differ-ok of_compiler of_headers value other e f = rw (e, f) refl

-- When the versions of the compiler that runs and of the headers have a dot before their last part, and both were
-- configured with a target, the plugin registers its callback and returns 0 exactly when there are no errors so far,
-- the versions are the same up to that dot, and the targets are the same.
pub plugin_init-accepts :
    (errorcount sorrycount : ℕ) (version gcc_version : PluginGccVersion)
    (front patch other_front other_patch target other_target : Text)
    → version.basever ≡ front ++ b'.' ∷ patch
    → Lacks b'.' patch
    → gcc_version.basever ≡ other_front ++ b'.' ∷ other_patch
    → Lacks b'.' other_patch
    → HasTarget version.configuration_arguments target
    → HasTarget gcc_version.configuration_arguments other_target
    → (plugin_init errorcount sorrycount version gcc_version ≡ ok (0, true))
      ↔ ((errorcount ≡ 0) × (sorrycount ≡ 0) × (front ≡ other_front) × (target ≡ other_target))
unfolding plugin_init
plugin_init-accepts errorcount sorrycount version gcc_version front patch other_front other_patch
      target other_target e lacks f other_lacks has other_has =
    rw
      (
        differ-ok (get_version_without_patch version.basever)
            (get_version_without_patch gcc_version.basever) front other_front
            (ap get_version_without_patch e ∙ get_version_without_patch-dot front patch lacks)
            (ap get_version_without_patch f
              ∙ get_version_without_patch-dot other_front other_patch other_lacks),
        differ-ok (get_configuration_target version.configuration_arguments)
            (get_configuration_target gcc_version.configuration_arguments) target other_target
            (get_configuration_target-HasTarget version.configuration_arguments target has)
            (get_configuration_target-HasTarget gcc_version.configuration_arguments other_target
              other_has),
      )
      (ground (arith, text_eq_iff front other_front, text_eq_iff target other_target))
