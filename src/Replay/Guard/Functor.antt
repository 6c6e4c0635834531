-- ===== src/Replay/Guard/Functor.antt =====
-- `replay_functor` and `parallel_for` of src/krepe/replay/kernel_replayer.hpp: a functor is copied, its bytes are
-- replaced by those of the dump, and a copy of that is what runs.
pub mod Runs
pub mod Lambda
use kokkos_kernel_forge.Base.{
  ℕ, ◌-◌, Bool, true, false, Option, none, some, List, [], ◌∷◌, ◌++◌, arith, length, take, drop,
  ltb,
}
use kokkos_kernel_forge.Base.Result.{Result, ok, err}
use kokkos_kernel_forge.Replay.Policy.{ReplayPolicy}
use kokkos_kernel_forge.Replay.Visitor.{FunctorTraits, Outcome, undefined, visit}
use kokkos_kernel_forge.Replay.Guard.{Build, Replayer}
use kokkos_kernel_forge.Replay.Guard.Lookup.{init_functor}

-- The bytes of a functor. An extended lambda of nvcc ends in a pointer of 8 bytes to its host lambda, whose
-- bytes come second.
pub record Object : Type 0 where
  pub bytes : List ℕ
  pub inner_lambda : Option (List ℕ)

-- `memcpy` of `size` bytes.
unfoldable pub overwrite : ℕ → List ℕ → List ℕ → List ℕ
overwrite size source target = take size source ++ drop size target

-- The host lambda has as many bytes as the dump has for it, which the source asserts.
unfoldable pub copy_extended_lambda_inner_lambda : Replayer → List ℕ → List ℕ
unfolding overwrite
copy_extended_lambda_inner_lambda s inner = overwrite (length inner) s.nvcc_inner_lambda_data inner

unfoldable pub restore_extended_lambda_inner_lambda : Replayer → List ℕ → List ℕ → List ℕ
unfolding overwrite
restore_extended_lambda_inner_lambda s save inner =
    overwrite (length s.nvcc_inner_lambda_data) save inner

abbrev pub with_inner : Option (List ℕ) → Result (List ℕ) → Result Object
with_inner inner (ok bytes) = ok (record { bytes = bytes; inner_lambda = inner })
with_inner inner (err e) = err e

-- The temporary functor with the bytes of the dump.
abbrev pub patched : Replayer → List ℕ → Option (List ℕ) → Result Object
patched s bytes none = with_inner none (init_functor s bytes (length bytes))
patched s bytes (some inner) =
    with_inner (some (copy_extended_lambda_inner_lambda s inner))
      (init_functor s bytes (length bytes - 8))

abbrev pub put_back : Replayer → Option (List ℕ) → Option (List ℕ) → Option (List ℕ)
put_back s none inner = none
put_back s (some save) none = none
put_back s (some save) (some inner) = some (restore_extended_lambda_inner_lambda s save inner)

-- What is returned, and the temporary functor as its destructor finds it.
pub record Revived : Type 0 where
  pub functor : Object
  pub destroyed : Object

-- `copy` is the copy constructor. The second result is whether Kokkos tracks its allocations again: an
-- exception leaves the tracking switched off.
abbrev pub revived : Replayer → (Object → Object) → Object → Result Object → Result Revived × Bool
revived s copy dummy (err e) = (err e, false)
revived s copy dummy (ok new) = (
  ok (record {
    functor = copy new;
    destroyed = record {
      bytes = dummy.bytes;
      inner_lambda = put_back s dummy.inner_lambda new.inner_lambda;
    };
  }),
  true,
)

unfoldable pub replay_functor : Replayer → (Object → Object) → Object → Result Revived × Bool
unfolding copy_extended_lambda_inner_lambda restore_extended_lambda_inner_lambda init_functor
replay_functor s copy functor =
    let dummy = copy functor in revived s copy dummy (patched s dummy.bytes dummy.inner_lambda)

-- A call of Kokkos with the policy of a `ForcePolicy`, or the visit of the policy of the dump.
pub data Launch (P : Type 0) : Type 0 where
  forced : P → Launch P
  visited : Outcome → Launch P

-- A null `replay_policy` is dereferenced.
abbrev pub visit_policy : FunctorTraits → Option ReplayPolicy → Outcome
visit_policy traits none = undefined
visit_policy traits (some p) = visit traits p

abbrev pub launch_with :
    {P : Type 0} → Launch P → Result Revived × Bool → Result (Launch P × Object) × Bool
launch_with launch (ok r, tracking) = (ok (launch, r.functor), tracking)
launch_with launch (err e, tracking) = (err e, tracking)

-- The policy is given when it is a `ForcePolicy`.
abbrev pub choose_launch : {P : Type 0} → FunctorTraits → Replayer → Option P → Launch P
choose_launch traits s (some policy) = forced policy
choose_launch traits s none = visited (visit_policy traits s.replay_policy)

-- The launch, and the functor that runs.
unfoldable pub parallel_for :
    {P : Type 0}
    → FunctorTraits
    → Replayer
    → (Object → Object)
    → Option P
    → Object
    → Result (Launch P × Object) × Bool
unfolding replay_functor
parallel_for traits s copy force functor =
    launch_with (choose_launch traits s force) (replay_functor s copy functor)
