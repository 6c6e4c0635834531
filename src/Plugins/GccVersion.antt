-- ===== src/Plugins/GccVersion.antt =====
-- src/krepe/compiler_plugins/gcc.cpp: the start of the plugin, which compares the compiler with the one that the
-- headers of the plugin come from.
pub mod Find
pub mod Accepts
use kokkos_kernel_forge.Base.{
  ℕ, zero, suc, ◌+◌, ◌-◌, ◌%◌, ◌^◌, Bool, true, false, not, ◌&&◌, ◌||◌, Option, none, some, List,
  [], ◌∷◌, ◌++◌, ◌==◌, nat_eq, ltb, length, take, drop, if◌then◌else◌,
}
use kokkos_kernel_forge.Base.Text.{Text, text, text_eq, starts_with}
use kokkos_kernel_forge.Base.Result.{Result, ok, err, ◌>>=◌}

abbrev pub npos : ℕ
npos = 2 ^ 64 - 1

abbrev pub or_npos : Option ℕ → ℕ
or_npos none = npos
or_npos (some pos) = pos

abbrev pub after : ℕ → Option ℕ → Option ℕ
after n none = none
after n (some pos) = some (n + pos)

abbrev pub next : Option ℕ → Option ℕ
next none = none
next (some pos) = some (suc pos)

-- `s.find(t)`
unfoldable pub find : Text → Text → Option ℕ
find [] t = if starts_with [] t then some 0 else none
find (c ∷ s) t = let rest = next (find s t) in if starts_with (c ∷ s) t then some 0 else rest

-- `s.find(c, pos)`
unfoldable pub find_from : Text → ℕ → ℕ → Option ℕ
unfolding find
find_from s c pos = after pos (find (drop pos s) (c ∷ []))

-- `s.find_last_of(c)`
unfoldable pub find_last_of : Text → ℕ → Option ℕ
find_last_of [] c = none
find_last_of (d ∷ s) c = last (find_last_of s c)
  where
    last : Option ℕ → Option ℕ
    last none = if d == c then some 0 else none
    last (some pos) = some (suc pos)

-- `s.substr(pos, n)`
unfoldable pub substr : Text → ℕ → ℕ → Result Text
substr s pos n = if ltb (length s) pos then err (text "out_of_range") else ok (take n (drop pos s))

-- The sums are those of `std::size_t`.
unfoldable pub get_configuration_target : Text → Result Text
unfolding find find_from substr
get_configuration_target configuration_args =
    let target_flag = text "--target=" in
    let flag_start = or_npos (find configuration_args target_flag) in
    let arg_start = (flag_start + length target_flag) % 2 ^ 64 in
    let arg_end = or_npos (find_from configuration_args b' ' arg_start) in
    substr configuration_args arg_start ((arg_end + 2 ^ 64 - arg_start) % 2 ^ 64)

unfoldable pub get_version_without_patch : Text → Result Text
unfolding find_last_of substr
get_version_without_patch version_string =
    substr version_string 0 (or_npos (find_last_of version_string b'.'))

pub record PluginGccVersion : Type 0 where
  pub basever : Text
  pub configuration_arguments : Text

-- Whether the two texts that are compared differ.
abbrev pub differ : Result Text → Result Text → Result Bool
differ of_compiler of_headers =
    of_compiler >>= λ value. of_headers >>= λ other. ok (not (text_eq value other))

-- `||`
abbrev pub or_else : Result Bool → Result Bool → Result Bool
or_else (err what) second = err what
or_else (ok true) second = ok true
or_else (ok false) second = second

-- The number that is returned, and whether the callback is registered. The arguments are the counts of errors and the
-- versions of the compiler that runs and of the headers.
unfoldable pub plugin_init : ℕ → ℕ → PluginGccVersion → PluginGccVersion → Result (ℕ × Bool)
unfolding get_configuration_target get_version_without_patch
plugin_init errorcount sorrycount version gcc_version =
    if not (errorcount == 0) || not (sorrycount == 0)
    then ok (1, false)
    else (or_else
          (differ (get_version_without_patch version.basever)
            (get_version_without_patch gcc_version.basever))
          (differ (get_configuration_target version.configuration_arguments)
            (get_configuration_target gcc_version.configuration_arguments))
        >>= λ mismatch. if mismatch then ok (1, false) else ok (0, true))
