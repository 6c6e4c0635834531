-- ===== src/Plugins/GccVersion/Find.antt =====
-- What the searches of `std::string_view` find.
use kokkos_kernel_forge.Base.{
  ℕ, zero, suc, ◌+◌, ◌<◌, ◌≤◌, ◌≡◌, refl, sym, true, false, none, some, [], ◌∷◌, ◌++◌, ◌==◌, nat_eq,
  length, take, drop, length-append, arith, All,
}
use mathlib.Core.List.{append_assoc}
use kokkos_kernel_forge.Base.Text.{Text, starts_with, starts_with-append, drop-append}
use kokkos_kernel_forge.Base.Result.{ok}
use kokkos_kernel_forge.Plugins.GccVersion.{find, find_last_of, substr}

find-first :
    (s t : Text) (k : ℕ)
    → ((j : ℕ) → j < k → starts_with (drop j s) t ≡ false)
    → k ≤ length s
    → starts_with (drop k s) t ≡ true
    → find s t ≡ some k
unfolding find
find-first [] t zero none_before inside here = ground arith
find-first (c ∷ s) t zero none_before inside here = ground arith
find-first [] t (suc k) none_before inside here = let never : ⊥ = omega arith in elim never [ ]
find-first (c ∷ s) t (suc k) none_before inside here =
    rw
      (
        none_before 0 (omega arith),
        find-first s t k (λ j small. none_before (suc j) (omega arith)) (omega arith) here,
      )
      refl

-- A character that a text lacks.
abbrev pub Lacks : ℕ → Text → Type 0
Lacks c s = All (λ d. (d == c) ≡ false) s

pub find-Lacks : (c : ℕ) (s : Text) → Lacks c s → find s (c ∷ []) ≡ none
unfolding find starts_with
find-Lacks c [] lacks = refl
find-Lacks c (d ∷ s) (other, lacks) = rw (other, find-Lacks c s lacks) refl

pub find-char : (c : ℕ) (s r : Text) → Lacks c s → find (s ++ c ∷ r) (c ∷ []) ≡ some (length s)
unfolding find starts_with
find-char c [] r lacks = ground arith
find-char c (d ∷ s) r (other, lacks) = rw (other, find-char c s r lacks) refl

find_last_of-Lacks : (c : ℕ) (s : Text) → Lacks c s → find_last_of s c ≡ none
unfolding find_last_of
find_last_of-Lacks c [] lacks = refl
find_last_of-Lacks c (d ∷ s) (other, lacks) = rw (find_last_of-Lacks c s lacks, other) refl

pub find_last_of-char :
    (c : ℕ) (s r : Text) → Lacks c r → find_last_of (s ++ c ∷ r) c ≡ some (length s)
unfolding find_last_of
find_last_of-char c [] r lacks = rw (find_last_of-Lacks c r lacks) (ground arith)
find_last_of-char c (d ∷ s) r lacks = rw (find_last_of-char c s r lacks) refl

pub take-append : (s r : Text) → take (length s) (s ++ r) ≡ s
take-append [] r = refl
take-append (d ∷ s) r = rw (take-append s r) refl

pub take-all : (n : ℕ) (s : Text) → length s ≤ n → take n s ≡ s
take-all zero [] enough = refl
take-all (suc n) [] enough = refl
take-all zero (d ∷ s) enough = let never : ⊥ = omega arith in elim never [ ]
take-all (suc n) (d ∷ s) enough = rw (take-all n s (omega arith)) refl

pub substr-inside :
    (s : Text) (pos n : ℕ) → pos ≤ length s → substr s pos n ≡ ok (take n (drop pos s))
unfolding substr
substr-inside s pos n inside = ground arith

pub drop-both : (s t r : Text) → drop (length s + length t) (s ++ (t ++ r)) ≡ r
drop-both s t r = rw (sym (length-append s t), sym (append_assoc s t r)) (drop-append (s ++ t) r)

pub find-flag :
    (front flag r : Text)
    → ((j : ℕ) → j < length front → starts_with (drop j (front ++ (flag ++ r))) flag ≡ false)
    → find (front ++ (flag ++ r)) flag ≡ some (length front)
find-flag front flag r first =
    find-first (front ++ (flag ++ r)) flag (length front) first
      (omega (arith, length-append front (flag ++ r)))
      (rw (drop-append front (flag ++ r)) (starts_with-append flag r))

pub lengths : (s t r : Text) → length (s ++ (t ++ r)) ≡ length s + length t + length r
lengths s t r = omega (arith, length-append s (t ++ r), length-append t r)
