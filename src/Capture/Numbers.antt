-- ===== src/Capture/Numbers.antt =====
-- `parse_positive_uint64` of src/krepe/capture/kokkos_hooks.cpp, over `std::from_chars` in base 10,
-- and `std::to_string`, which the names of dumps are built with.
use kokkos_kernel_forge.Base.{
  ℕ, zero, suc, ◌+◌, ◌-◌, ◌*◌, ◌/◌, ◌%◌, ◌^◌, ◌<◌, ◌≡◌, ◌≢◌, ◌↔◌, refl, ◌∙◌, sym, ap, inl, inr,
  Bool, true, false, Option, none, some, [], ◌∷◌, ◌++◌, ◌&&◌, ◌||◌, not, ltb, ◌==◌, nat_eq, arith,
  if◌then◌else◌, All, All-append, Bool-cases, is_empty,
}
use kokkos_kernel_forge.Base.Text.{Text, is_digit}

-- The digits at the front of a text, as a number, and what stands behind them.
unfoldable pub scan_digits : ℕ → Text → ℕ × Text
scan_digits n [] = (n, [])
scan_digits n (c ∷ s) = if is_digit c then scan_digits (n * 10 + (c - 48)) s else (n, c ∷ s)

abbrev pub starts_with_digit : Text → Bool
starts_with_digit [] = false
starts_with_digit (c ∷ s) = is_digit c

-- `std::from_chars` into a `std::uint64_t`: `none` for `invalid_argument` and
-- `result_out_of_range`, and else the value and the rest.
unfoldable pub from_chars : Text → Option (ℕ × Text)
unfolding scan_digits
from_chars s =
    if starts_with_digit s && ltb (scan_digits 0 s).0 (2 ^ 64) then some (scan_digits 0 s) else none

abbrev pub accept : Option (ℕ × Text) → Option ℕ
accept none = none
accept (some (parsed, rest)) = if not (is_empty rest) || parsed == 0 then none else some parsed

unfoldable pub parse_positive_uint64 : Text → Option ℕ
unfolding from_chars
parse_positive_uint64 value = accept (from_chars value)

abbrev pub AllDigits : Text → Type 0
AllDigits s = All (λ c. is_digit c ≡ true) s

-- The number that digits write, most significant first, after `n`.
pub value_from : ℕ → Text → ℕ
value_from n [] = n
value_from n (c ∷ s) = value_from (n * 10 + (c - 48)) s

scan_all : (n : ℕ) (s : Text) → AllDigits s → scan_digits n s ≡ (value_from n s, [])
unfolding scan_digits value_from
scan_all n [] h = refl
scan_all n (c ∷ s) h = rw h.0 (scan_all (n * 10 + (c - 48)) s h.1)

scan_back :
    (n : ℕ) (s : Text)
    → (scan_digits n s).1 ≡ []
    → AllDigits s × ((scan_digits n s).0 ≡ value_from n s)
unfolding scan_digits value_from
scan_back n [] h = (tt, refl)
scan_back n (c ∷ s) h = ground (arith, scan_back (n * 10 + (c - 48)) s)

AllDigits-first : (s : Text) → s ≢ [] → AllDigits s → starts_with_digit s ≡ true
AllDigits-first [] h d = absurd (h refl)
AllDigits-first (c ∷ s) h d = d.0

is_empty_iff : (s : Text) → (is_empty s ≡ true) ↔ (s ≡ [])
is_empty_iff [] = (λ h. refl, λ h. refl)
is_empty_iff (c ∷ s) = (λ h. cc, λ h. cc)

accepted :
    (s : Text) (n : ℕ)
    → parse_positive_uint64 s ≡ some n
    → (starts_with_digit s ≡ true)
      × ((scan_digits 0 s).0 ≡ n)
      × ((scan_digits 0 s).1 ≡ [])
      × (0 < n)
      × (n < 2 ^ 64)
unfolding parse_positive_uint64
accepted s n h = ground (arith, is_empty_iff (scan_digits 0 s).1)

-- What `--krepe-dump-kernel-invocation=` accepts.
pub record Writes (s : Text) (n : ℕ) : Type 0 where
  pub not_empty : s ≢ []
  pub digits : AllDigits s
  pub value : value_from 0 s ≡ n
  pub positive : 0 < n
  pub in_range : n < 2 ^ 64

-- A text parses to a number exactly when it is nothing but digits that write that number, which is
-- positive and fits in 64 bits.
pub parse_positive_uint64_iff : (s : Text) (n : ℕ) → (parse_positive_uint64 s ≡ some n) ↔ Writes s n
parse_positive_uint64_iff s n = (parsed, written)
  where
    parsed : parse_positive_uint64 s ≡ some n → Writes s n
    parsed h =
        let facts = accepted s n h in
        let back = scan_back 0 s facts.2 in
        record {
          not_empty = λ e. cc (facts.0, ap starts_with_digit e);
          digits = back.0;
          value = sym back.1 ∙ facts.1;
          positive = facts.3;
          in_range = facts.4;
        }

    written : Writes s n → parse_positive_uint64 s ≡ some n
    written w =
        unfold parse_positive_uint64 in
        rw (AllDigits-first s w.not_empty w.digits, scan_all 0 s w.digits, w.value) (ground arith)

-- `std::to_string`; the rounds are enough for any number.
unfoldable pub print_digits : ℕ → ℕ → Text
print_digits zero n = []
print_digits (suc rounds) n =
    let front = print_digits rounds (n / 10) in
    if ltb n 10 then (48 + n) ∷ [] else front ++ (48 + n % 10) ∷ []

unfoldable pub to_string : ℕ → Text
unfolding print_digits
to_string n = print_digits (n + 1) n

value_from-nil : value_from 0 [] ≡ 0
unfolding value_from
value_from-nil = refl

value_from-append :
    (n c : ℕ) (s : Text) → value_from n (s ++ c ∷ []) ≡ value_from n s * 10 + (c - 48)
unfolding value_from
value_from-append n c [] = refl
value_from-append n c (d ∷ s) = value_from-append (n * 10 + (d - 48)) c s

print_digits-value : (rounds n : ℕ) → n < rounds → value_from 0 (print_digits rounds n) ≡ n
unfolding print_digits
print_digits-value zero n h = absurd (omega arith)
print_digits-value (suc rounds) n h = elim (Bool-cases (ltb n 10)) [
  | inl e ↦ rw e (unfold value_from in ground arith)
  | inr e ↦
      rw (e, value_from-append) (omega (arith, print_digits-value rounds (n / 10) (ground arith)))
]

print_digits-AllDigits : (rounds n : ℕ) → AllDigits (print_digits rounds n)
unfolding print_digits
print_digits-AllDigits zero n = tt
print_digits-AllDigits (suc rounds) n = elim (Bool-cases (ltb n 10)) [
  | inl e ↦ rw e (ground arith, tt)
  | inr e ↦ rw e (All-append _ _ _ (print_digits-AllDigits rounds (n / 10)) (ground arith, tt))
]

pub to_string-AllDigits : (n : ℕ) → AllDigits (to_string n)
unfolding to_string
to_string-AllDigits n = print_digits-AllDigits (n + 1) n

pub value_from-to_string : (n : ℕ) → value_from 0 (to_string n) ≡ n
unfolding to_string
value_from-to_string n = print_digits-value (n + 1) n (omega arith)

to_string-ne-nil : (n : ℕ) → 0 < n → to_string n ≢ []
to_string-ne-nil n h e = omega (arith, value_from-to_string n, ap (value_from 0) e, value_from-nil)

-- The decimal text of a positive 64-bit number parses to that number.
pub parse-to_string : (n : ℕ) → 0 < n → n < 2 ^ 64 → parse_positive_uint64 (to_string n) ≡ some n
parse-to_string n h k = (parse_positive_uint64_iff (to_string n) n).1 (record {
  not_empty = to_string-ne-nil n h;
  digits = to_string-AllDigits n;
  value = value_from-to_string n;
  positive = h;
  in_range = k;
})
