-- ===== src/Capture/Dump/Pointer.antt =====
-- `pointer_to_string` of src/krepe/capture/view_dump.cpp: how the output stream of libstdc++ prints a pointer.
use kokkos_kernel_forge.Base.{
  ℕ, zero, suc, ◌+◌, ◌-◌, ◌/◌, ◌%◌, [], ◌∷◌, ◌++◌, ltb, ◌==◌, nat_eq, if◌then◌else◌,
}
use kokkos_kernel_forge.Base.Text.{Text, text}

unfoldable pub hex_char : ℕ → ℕ
hex_char d = if ltb d 10 then b'0' + d else b'a' + d - 10

-- The digits in base 16, most significant first; as many rounds as there may be digits.
unfoldable pub print_hex : ℕ → ℕ → Text
unfolding hex_char
print_hex zero n = []
print_hex (suc rounds) n =
    let front = print_hex rounds (n / 16) in
    if ltb n 16 then hex_char n ∷ [] else front ++ hex_char (n % 16) ∷ []

-- The null pointer is printed with no prefix.
unfoldable pub pointer_to_string : ℕ → Text
pointer_to_string ptr = if ptr == 0 then text "0" else b'0' ∷ b'x' ∷ print_hex 16 ptr
