-- ===== src/Base/Text.antt =====
-- Byte strings: a `std::string` or a `std::string_view` is the list of its bytes.
use Prim.Native.Nat.{ℕ}
use Prim.Native.Char.{code}
use Prim.Native.String.{String}
use mathlib.Core.Path.{◌≡◌, refl}
use mathlib.Core.Logic.{◌↔◌}
use mathlib.Core.Bool.{Bool, true, false, ◌&&◌}
use mathlib.Core.List.{List, [], ◌∷◌, ◌++◌}
use native.Mathlib.Omega.{arith}
use kokkos_kernel_forge.Base.Tests.{Eq, nat_beq, leb}
use kokkos_kernel_forge.Base.Lists.{length, drop}

abbrev pub Text : Type 0
Text = List ℕ

-- The bytes of a literal of the source.
unfoldable pub text : String → Text
text String.[] = []
text (String.◌∷◌ c s) = code c ∷ text s

unfoldable pub text_eq : Text → Text → Bool
text_eq [] [] = true
text_eq [] (d ∷ t) = false
text_eq (c ∷ s) [] = false
text_eq (c ∷ s) (d ∷ t) = nat_beq c d && text_eq s t

pub text_eq_iff : (value other : Text) → (text_eq value other ≡ true) ↔ (value ≡ other)
unfolding text_eq
text_eq_iff [] [] = ground arith
text_eq_iff [] (byte ∷ other) = ground arith
text_eq_iff (byte ∷ value) [] = ground arith
text_eq_iff (byte ∷ value) (next ∷ other) = ground (arith, text_eq_iff value other)

pub text_eq_refl : (s : Text) → text_eq s s ≡ true
text_eq_refl s = (text_eq_iff s s).1 refl

instance abbrev pub text_Eq : Eq Text
text_Eq = record { beq = text_eq; beq_iff = text_eq_iff }

-- `value.starts_with(prefix)`
unfoldable pub starts_with : Text → Text → Bool
starts_with s [] = true
starts_with [] (d ∷ t) = false
starts_with (c ∷ s) (d ∷ t) = nat_beq c d && starts_with s t

-- A text that starts with a prefix is the prefix and what `substr` leaves behind it.
pub starts_with_iff : (s t : Text) → starts_with s t ≡ true → s ≡ t ++ drop (length t) s
unfolding starts_with
starts_with_iff s [] h = refl
starts_with_iff [] (d ∷ t) h = cc
starts_with_iff (c ∷ s) (d ∷ t) h = ground (arith, starts_with_iff s t)

pub starts_with-append : (t r : Text) → starts_with (t ++ r) t ≡ true
unfolding starts_with
starts_with-append [] r = refl
starts_with-append (d ∷ t) r = ground (arith, starts_with-append t r)

pub drop-append : (t r : Text) → drop (length t) (t ++ r) ≡ r
drop-append [] r = refl
drop-append (d ∷ t) r = drop-append t r

-- `std::isdigit` in the "C" locale
abbrev pub is_digit : ℕ → Bool
is_digit c = leb 48 c && leb c 57
