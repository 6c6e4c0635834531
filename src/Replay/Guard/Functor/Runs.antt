-- ===== src/Replay/Guard/Functor/Runs.antt =====
-- The functor that runs is the one of the dump, and the temporary functor is destroyed as it was constructed.
use mathlib.Core.List.{append-nil}
use kokkos_kernel_forge.Base.{
  ℕ, zero, suc, ◌-◌, ◌≡◌, refl, sym, ap, true, false, Option, none, some, List, [], ◌∷◌, arith,
  length, take, drop, ltb,
}
use kokkos_kernel_forge.Base.Result.{ok}
use kokkos_kernel_forge.Replay.Guard.{Replayer}
use kokkos_kernel_forge.Replay.Guard.Lookup.{init_functor}
use kokkos_kernel_forge.Replay.Guard.Functor.{
  Object, overwrite, copy_extended_lambda_inner_lambda, restore_extended_lambda_inner_lambda,
  patched, revived, replay_functor,
}

take-all : (xs : List ℕ) (n : ℕ) → n ≡ length xs → take n xs ≡ xs
take-all [] zero e = refl
take-all [] (suc n) e = refl
take-all (x ∷ xs) zero e = absurd (omega arith)
take-all (x ∷ xs) (suc n) e = ap (λ t. x ∷ t) (take-all xs n (omega arith))

drop-all : (xs : List ℕ) (n : ℕ) → n ≡ length xs → drop n xs ≡ []
drop-all [] zero e = refl
drop-all [] (suc n) e = refl
drop-all (x ∷ xs) zero e = absurd (omega arith)
drop-all (x ∷ xs) (suc n) e = drop-all xs n (omega arith)

overwrite-all :
    (n : ℕ) (source target : List ℕ)
    → n ≡ length source
    → n ≡ length target
    → overwrite n source target ≡ source
unfolding overwrite
overwrite-all n source target p q = rw (take-all source n p, drop-all target n q, append-nil)

-- The functor that should run: the bytes of the dump; of an extended lambda all but its pointer, and its host
-- lambda with the bytes of the dump.
abbrev pub dumped_object : Replayer → List ℕ → Option (List ℕ) → Object
dumped_object s bytes none = record { bytes = s.functor_data; inner_lambda = none }
dumped_object s bytes (some inner) = record {
  bytes = overwrite (length bytes - 8) s.functor_data bytes;
  inner_lambda = some s.nvcc_inner_lambda_data;
}

abbrev pub InnerSize : Replayer → Option (List ℕ) → Type 0
InnerSize s none = Unit {0}
InnerSize s (some inner) = length inner ≡ length s.nvcc_inner_lambda_data

-- The dump has as many bytes for the functor, and for its host lambda.
abbrev pub SameSizes : Replayer → Object → Type 0
SameSizes s dummy = (length dummy.bytes ≡ length s.functor_data) × InnerSize s dummy.inner_lambda

revived_object :
    (s : Replayer) (copy : Object → Object) (bytes : List ℕ) (inner : Option (List ℕ))
    → length bytes ≡ length s.functor_data
    → InnerSize s inner
    → revived s copy (record { bytes = bytes; inner_lambda = inner }) (patched s bytes inner) ≡ (
      ok (record {
        functor = copy (dumped_object s bytes inner);
        destroyed = record { bytes = bytes; inner_lambda = inner };
      }),
      true,
    )
unfolding init_functor overwrite copy_extended_lambda_inner_lambda
    restore_extended_lambda_inner_lambda
revived_object s copy bytes none size _ =
    let fits : ltb (length s.functor_data) (length bytes) ≡ false = ground (arith, size) in
    rw (
      fits,
      take-all s.functor_data (length bytes) size,
      drop-all bytes (length bytes) refl,
      append-nil,
    )
revived_object s copy bytes (some inner) size inner_size =
    let fits : ltb (length s.functor_data) (length bytes - 8) ≡ false = ground (arith, size) in
    rw (
      fits,
      overwrite-all (length inner) s.nvcc_inner_lambda_data inner inner_size refl,
      overwrite-all (length s.nvcc_inner_lambda_data) inner s.nvcc_inner_lambda_data
          (sym inner_size) refl,
    )

-- When the dump has as many bytes for the functor as the given one, and as many for its host lambda when it is
-- an extended lambda, `replay_functor` returns a copy of the functor of the dump, destroys the temporary functor
-- with the bytes it was constructed with, and leaves the tracking of Kokkos switched on. The functor of the dump
-- has the bytes of the dump in all its bytes, but for an extended lambda the last 8, which hold its own pointer,
-- and its host lambda has the bytes of the dump.
pub replay_functor-revives :
    (s : Replayer) (copy : Object → Object) (functor : Object)
    → SameSizes s (copy functor)
    → replay_functor s copy functor ≡ (
      ok (record {
        functor = copy (dumped_object s (copy functor).bytes (copy functor).inner_lambda);
        destroyed = copy functor;
      }),
      true,
    )
unfolding replay_functor
replay_functor-revives s copy functor (size, inner_size) =
    revived_object s copy (copy functor).bytes (copy functor).inner_lambda size inner_size
