-- ===== src/Replay/Hex.antt =====
-- `std::stoull(text, nullptr, 16)`, with which the replay reads the addresses of a dump
-- (src/krepe/replay/kernel_replayer.cpp).
use kokkos_kernel_forge.Base.{
  ℕ, ◌+◌, ◌-◌, ◌*◌, ◌%◌, ◌^◌, Bool, true, false, Option, none, some, [], ◌∷◌, ◌&&◌, ◌||◌, leb, ltb,
  ◌==◌, nat_eq, if◌then◌else◌,
}
use kokkos_kernel_forge.Base.Text.{Text, text}
use kokkos_kernel_forge.Base.Result.{Result, ok, err}

unfoldable pub hex_digit : ℕ → Option ℕ
hex_digit c =
    if leb b'0' c && leb c b'9'
    then some (c - b'0')
    else if leb b'a' c && leb c b'f'
    then some (c - b'a' + 10)
    else if leb b'A' c && leb c b'F'
    then some (c - b'A' + 10)
    else none

abbrev pub is_some : Option ℕ → Bool
is_some none = false
is_some (some d) = true

abbrev pub begins_with_hex : Text → Bool
begins_with_hex [] = false
begins_with_hex (c ∷ s) = is_some (hex_digit c)

abbrev pub scan_on : ℕ → Option ℕ → (ℕ → ℕ) → ℕ
scan_on n none rest = n
scan_on n (some d) rest = rest (n * 16 + d)

-- The number that the digits in front write, after `n`.
unfoldable pub scan_hex : ℕ → Text → ℕ
scan_hex n [] = n
scan_hex n (c ∷ s) = scan_on n (hex_digit c) (λ n. scan_hex n s)

-- `0x` in front counts as a prefix only before a digit.
unfoldable pub drop_prefix : Text → Text
drop_prefix [] = []
drop_prefix (c ∷ []) = c ∷ []
drop_prefix (c ∷ d ∷ s) =
    if c == b'0' && ((d == b'x' || d == b'X') && begins_with_hex s) then s else c ∷ d ∷ s

abbrev pub is_space : ℕ → Bool
is_space c = c == 32 || (leb 9 c && leb c 13)

unfoldable pub drop_spaces : Text → Text
drop_spaces [] = []
drop_spaces (c ∷ s) = let rest = drop_spaces s in if is_space c then rest else c ∷ s

-- The value behind the sign; a minus wraps around.
unfoldable pub value_of : Bool → Text → Result ℕ
value_of minus s =
    let n = scan_hex 0 (drop_prefix s) in
    if begins_with_hex s
    then if ltb n (2 ^ 64)
      then ok (if minus then (2 ^ 64 - n) % 2 ^ 64 else n)
      else err (text "stoull")
    else err (text "stoull")

abbrev pub with_sign : Text → Result ℕ
with_sign [] = err (text "stoull")
with_sign (c ∷ s) =
    if c == b'-'
    then value_of true s
    else if c == b'+'
    then value_of false s
    else value_of false (c ∷ s)

unfoldable pub stoull_16 : Text → Result ℕ
stoull_16 s = with_sign (drop_spaces s)
