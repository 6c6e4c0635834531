-- ===== src/RoundTrip/Pointers.antt =====
-- An address on its way through the text of an attribute: printed by the capture, parsed by the replay.
use kokkos_kernel_forge.Base.{
  ℕ, zero, suc, ◌+◌, ◌*◌, ◌/◌, ◌%◌, ◌^◌, ◌<◌, ◌≡◌, refl, inl, inr, true, false, some, [], ◌∷◌, ◌++◌,
  arith, ltb, ◌==◌, nat_eq, All, All-append, Bool-cases,
}
use kokkos_kernel_forge.Base.Text.{Text, text}
use kokkos_kernel_forge.Base.Result.{ok}
use kokkos_kernel_forge.Capture.Dump.Pointer.{hex_char, print_hex, pointer_to_string}
use kokkos_kernel_forge.Replay.Hex.{
  hex_digit, begins_with_hex, scan_hex, drop_prefix, drop_spaces, value_of, stoull_16,
}

hex_digit-hex_char : (d : ℕ) → d < 16 → hex_digit (hex_char d) ≡ some d
unfolding hex_digit hex_char
hex_digit-hex_char d h = ground arith

abbrev AllHex : Text → Type 0
AllHex s = All (λ c. (d : ℕ) × (hex_digit c ≡ some d)) s

scan_hex-append :
    (n c d : ℕ) (s : Text)
    → AllHex s
    → hex_digit c ≡ some d
    → scan_hex n (s ++ c ∷ []) ≡ scan_hex n s * 16 + d
unfolding scan_hex
scan_hex-append n c d [] h e = rw e
scan_hex-append n c d (x ∷ s) ((y, digit), rest) e =
    rw digit (scan_hex-append (n * 16 + y) c d s rest e)

abbrev pow16 : ℕ → ℕ
pow16 zero = 1
pow16 (suc rounds) = 16 * pow16 rounds

print_hex-AllHex : (rounds n : ℕ) → AllHex (print_hex rounds n)
unfolding print_hex
print_hex-AllHex zero n = tt
print_hex-AllHex (suc rounds) n = elim (Bool-cases (ltb n 16)) [
  | inl e ↦ rw e ((n, hex_digit-hex_char n (ground arith)), tt)
  | inr e ↦ rw e (
      All-append _ _ _ (print_hex-AllHex rounds (n / 16))
        ((n % 16, hex_digit-hex_char (n % 16) (omega arith)), tt))
]

scan_hex-print_hex : (rounds n : ℕ) → n < pow16 rounds → scan_hex 0 (print_hex rounds n) ≡ n
unfolding print_hex
scan_hex-print_hex zero n h = unfold scan_hex in omega arith
scan_hex-print_hex (suc rounds) n h = elim (Bool-cases (ltb n 16)) [
  | inl e ↦ rw e (unfold scan_hex in rw (hex_digit-hex_char n (ground arith)) (omega arith))
  | inr e ↦
      rw
        (
          e,
          scan_hex-append 0 (hex_char (n % 16)) (n % 16) (print_hex rounds (n / 16))
              (print_hex-AllHex rounds (n / 16)) (hex_digit-hex_char (n % 16) (omega arith)),
        )
        (omega (arith, scan_hex-print_hex rounds (n / 16) (omega arith)))
]

begins-append :
    (s : Text) (c d : ℕ) → AllHex s → hex_digit c ≡ some d → begins_with_hex (s ++ c ∷ []) ≡ true
begins-append [] c d h e = rw e
begins-append (x ∷ s) c d ((y, digit), rest) e = rw digit

begins-print_hex : (rounds n : ℕ) → begins_with_hex (print_hex (suc rounds) n) ≡ true
unfolding print_hex
begins-print_hex rounds n = elim (Bool-cases (ltb n 16)) [
  | inl e ↦ rw (e, hex_digit-hex_char n (ground arith))
  | inr e ↦ rw e (
      begins-append (print_hex rounds (n / 16)) (hex_char (n % 16)) (n % 16)
        (print_hex-AllHex rounds (n / 16)) (hex_digit-hex_char (n % 16) (omega arith)))
]

-- What stands behind the prefix is scanned.
value_of-print_hex : (a : ℕ) → a < 2 ^ 64 → value_of false (b'0' ∷ b'x' ∷ print_hex 16 a) ≡ ok a
unfolding value_of drop_prefix
value_of-print_hex a h =
    let small : ltb a (2 ^ 64) ≡ true = ground arith in
    let first : hex_digit b'0' ≡ some 0 = unfold hex_digit in refl in
    rw (first, begins-print_hex 15 a, scan_hex-print_hex 16 a h, small)

-- The text that the capture writes for a pointer of 64 bits is read by the replay as that pointer.
pub stoull_16-pointer_to_string : (a : ℕ) → a < 2 ^ 64 → stoull_16 (pointer_to_string a) ≡ ok a
unfolding stoull_16 pointer_to_string drop_spaces
stoull_16-pointer_to_string a h = elim (Bool-cases (a == 0)) [
  | inl e ↦
      let null : a ≡ 0 = ground (arith, e) in
      rw null (unfold value_of drop_prefix scan_hex hex_digit text in refl)
  | inr e ↦ rw e (value_of-print_hex a h)
]
