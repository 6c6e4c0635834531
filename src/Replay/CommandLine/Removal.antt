-- ===== src/Replay/CommandLine/Removal.antt =====
-- `remove_cli_args` against the removal of a block from a list.
use mathlib.Core.List.{append_assoc, append-nil}
use kokkos_kernel_forge.Base.{
  ℕ, zero, suc, ◌+◌, ◌-◌, ◌<◌, ◌≡◌, ◌∙◌, refl, sym, ap, true, false, List, [], ◌∷◌, ◌++◌, arith,
  ltb, length, take, length-append,
}
use kokkos_kernel_forge.Base.Text.{Text, text_Eq}
use kokkos_kernel_forge.Replay.CommandLine.{set, at, swap_args, shift_args, remove_cli_args}

pub at-middle : (xs ys : List Text) (v : Text) → at (xs ++ v ∷ ys) (length xs) ≡ v
at-middle [] ys v = refl
at-middle (x ∷ xs) ys v = at-middle xs ys v

set-middle : (xs ys : List Text) (v w : Text) → set (xs ++ v ∷ ys) (length xs) w ≡ xs ++ w ∷ ys
set-middle [] ys v w = refl
set-middle (x ∷ xs) ys v w = ap (λ r. x ∷ r) (set-middle xs ys v w)

pub at-far :
    (front block rest : List Text) (r x : Text) (j : ℕ)
    → j ≡ length front + suc (length block)
    → at (front ++ r ∷ (block ++ x ∷ rest)) j ≡ x
at-far [] block rest r x zero e = absurd (omega arith)
at-far [] block rest r x (suc j) e =
    let k : j ≡ length block = omega arith in rw k (at-middle block rest x)
at-far (f ∷ front) block rest r x zero e = absurd (omega arith)
at-far (f ∷ front) block rest r x (suc j) e = at-far front block rest r x j (omega arith)

set-far :
    (front block rest : List Text) (r x v : Text) (j : ℕ)
    → j ≡ length front + suc (length block)
    → set (front ++ r ∷ (block ++ x ∷ rest)) j v ≡ front ++ r ∷ (block ++ v ∷ rest)
set-far [] block rest r x v zero e = absurd (omega arith)
set-far [] block rest r x v (suc j) e =
    let k : j ≡ length block = omega arith in rw k (ap (λ t. r ∷ t) (set-middle block rest x v))
set-far (f ∷ front) block rest r x v zero e = absurd (omega arith)
set-far (f ∷ front) block rest r x v (suc j) e =
    ap (λ t. f ∷ t) (set-far front block rest r x v j (omega arith))

-- One swap moves an argument over the block that is removed.
swap-over :
    (front block rest : List Text) (r x : Text) (j : ℕ)
    → j ≡ length front + suc (length block)
    → swap_args (front ++ r ∷ (block ++ x ∷ rest)) (length front) j
      ≡ front ++ x ∷ (block ++ r ∷ rest)
unfolding swap_args
swap-over front block rest r x j e = rw (
  at-middle front (block ++ x ∷ rest) r,
  at-far front block rest r x j e,
  set-far front block rest r x r j e,
  set-middle front (block ++ r ∷ rest) r x,
)

shift-block :
    (rest front removed : List Text) (i n : ℕ)
    → i ≡ length front
    → n ≡ length removed
    → 0 < n
    → (tail : List Text) × (shift_args (length rest) i n (front ++ (removed ++ rest))
        ≡ front ++ (rest ++ tail))
unfolding shift_args
shift-block [] front removed i n e k pos = (removed, rw append-nil)
shift-block (x ∷ rest) front [] i n e k pos = absurd (omega arith)
shift-block (x ∷ rest) front (r ∷ block) i n e k pos =
    let (tail, later) =
      shift-block rest (front ++ x ∷ []) (block ++ r ∷ []) (suc i) n
        (omega (arith, length-append front (x ∷ []))) (omega (arith, length-append block (r ∷ [])))
        pos in
    let swapped : swap_args (front ++ r ∷ (block ++ x ∷ rest)) i (i + n)
        ≡ front ++ x ∷ (block ++ r ∷ rest) =
      rw e (swap-over front block rest r x (length front + n) (omega arith)) in
    let shape : front ++ x ∷ (block ++ r ∷ rest)
        ≡ (front ++ x ∷ []) ++ ((block ++ r ∷ []) ++ rest) =
      ap (λ t. front ++ x ∷ t) (sym (append_assoc block (r ∷ []) rest))
      ∙ sym (append_assoc front (x ∷ []) _) in
    (
      tail,
      ap (λ argv. shift_args (length rest) (suc i) n argv) (swapped ∙ shape)
          ∙ later
          ∙ append_assoc front (x ∷ []) (rest ++ tail),
    )

take-length : (xs tail : List Text) → take (length xs) (xs ++ tail) ≡ xs
take-length [] tail = refl
take-length (x ∷ xs) tail = ap (λ t. x ∷ t) (take-length xs tail)

lengths :
    (front removed rest : List Text)
    → (length (front ++ (removed ++ rest)) ≡ length front + (length removed + length rest))
      × (length (front ++ (removed ++ rest)) - length removed ≡ length (front ++ rest))
      × (length (front ++ rest) - length front ≡ length rest)
lengths front removed rest =
    let all = length-append front (removed ++ rest) in
    let back = length-append removed rest in
    let kept = length-append front rest in
    (omega (arith, all, back), omega (arith, all, back, kept), omega (arith, kept))

-- `remove_cli_args` takes a block of arguments out of the vector, whatever stands before and behind it, and
-- keeps the others in their order. (For a block that is not empty.)
pub remove_cli_args-block :
    (front removed rest : List Text)
    → 0 < length removed
    → let a = remove_cli_args (length front) (length removed) (record {
      argc = length (front ++ (removed ++ rest));
      argv = front ++ (removed ++ rest);
    }) in
      (a.argc ≡ length (front ++ rest)) × (take a.argc a.argv ≡ front ++ rest)
unfolding remove_cli_args
remove_cli_args-block front removed [] pos =
    let (all, kept, left) = lengths front removed [] in
    let done : ltb (length front + length removed) (length (front ++ (removed ++ []))) ≡ false =
      ground (arith, all) in
    (kept, rw (done, kept) (rw append-nil (take-length front (removed ++ []))))
remove_cli_args-block front removed (x ∷ rest) pos =
    let (all, kept, left) = lengths front removed (x ∷ rest) in
    let more : ltb (length front + length removed) (length (front ++ (removed ++ x ∷ rest)))
        ≡ true =
      ground (arith, all) in
    let (tail, shifted) =
      shift-block (x ∷ rest) front removed (length front) (length removed) refl refl pos in
    (
      kept,
      rw (more, kept, left, shifted)
          (ap (λ t. take (length (front ++ x ∷ rest)) t) (sym (append_assoc front (x ∷ rest) tail))
            ∙ take-length (front ++ x ∷ rest) tail),
    )
