-- ===== src/Replay/Guard/Functor/Lambda.antt =====
-- The pointer to the host lambda in the temporary functor of `replay_functor`, src/krepe/replay/kernel_replayer.hpp.
use kokkos_kernel_forge.Base.{
  ℕ, zero, suc, ◌-◌, ◌≡◌, Bool, ◌≤◌, refl, ap, sym, inl, inr, some, List, [], ◌∷◌, ◌++◌, arith,
  length, take, drop, ltb, Bool-cases, length-append, length-take,
}
use kokkos_kernel_forge.Base.Text.{Text}
use kokkos_kernel_forge.Base.Result.{Result, ok, err}
use kokkos_kernel_forge.Common.ExtendedLambda.{little_endian, hdl_host_lambda_pointer}
use kokkos_kernel_forge.Replay.Guard.{Replayer}
use kokkos_kernel_forge.Replay.Guard.Lookup.{init_functor}
use kokkos_kernel_forge.Replay.Guard.Functor.{Object, Revived, patched, revived, replay_functor}

length-drop : (n : ℕ) (xs : List ℕ) → length (drop n xs) ≡ length xs - n
length-drop zero xs = omega arith
length-drop (suc n) [] = omega arith
length-drop (suc n) (x ∷ xs) = omega (arith, length-drop n xs)

drop-append : (xs ys : List ℕ) (n : ℕ) → n ≡ length xs → drop n (xs ++ ys) ≡ ys
drop-append [] ys zero e = refl
drop-append [] ys (suc n) e = absurd (omega arith)
drop-append (x ∷ xs) ys zero e = absurd (omega arith)
drop-append (x ∷ xs) ys (suc n) e = drop-append xs ys n (omega arith)

-- New bytes in front of the pointer leave the pointer.
hdl_host_lambda_pointer-append :
    (source bytes : List ℕ)
    → length bytes - 8 ≤ length source
    → hdl_host_lambda_pointer (take (length bytes - 8) source ++ drop (length bytes - 8) bytes)
      ≡ hdl_host_lambda_pointer bytes
unfolding hdl_host_lambda_pointer
hdl_host_lambda_pointer-append source bytes enough =
    let n : ℕ = length bytes - 8 in
    let front : length (take n source) ≡ n = omega (arith, length-take n source) in
    let whole : length (take n source ++ drop n bytes) ≡ length bytes =
      omega (arith, length-append (take n source) (drop n bytes), length-drop n bytes) in
    rw whole (ap little_endian (drop-append (take n source) (drop n bytes) n (sym front)))

revived-eq-ok :
    (s : Replayer) (copy : Object → Object) (dummy : Object) (new : Result Object) (r : Revived)
    (tracking : Bool)
    → revived s copy dummy new ≡ (ok r, tracking)
    → (n : Object) × (new ≡ ok n) × (r.functor ≡ copy n)
revived-eq-ok s copy dummy (err e) r tracking returned = cc
revived-eq-ok s copy dummy (ok n) r tracking returned = (n, refl, cc)

patched-pointer :
    (s : Replayer) (bytes inner : List ℕ) (new : Object)
    → patched s bytes (some inner) ≡ ok new
    → hdl_host_lambda_pointer new.bytes ≡ hdl_host_lambda_pointer bytes
unfolding init_functor
patched-pointer s bytes inner new made =
    elim (Bool-cases (ltb (length s.functor_data) (length bytes - 8))) [
      | inl short ↦ elim (never (rw short at made)) [ ]
      | inr fits ↦
          let e : new.bytes
              ≡ take (length bytes - 8) s.functor_data ++ drop (length bytes - 8) bytes =
            sym (bytes_of (rw fits at made)) in
          rw e (hdl_host_lambda_pointer-append s.functor_data bytes (ground (arith, fits)))
    ]
  where
    bytes_of : {o : Object} → ◌≡◌ {A = Result Object} (ok o) (ok new) → o.bytes ≡ new.bytes
    bytes_of e = cc

    never : {what : Text} → ◌≡◌ {A = Result Object} (err what) (ok new) → ⊥
    never e = cc

-- When `replay_functor` returns for an extended lambda, the functor that it returns is a copy of one whose pointer to the
-- host lambda is that of the copy of the given functor, whatever the pointer in the dump was.
pub replay_functor-hdl_host_lambda_pointer :
    (s : Replayer) (copy : Object → Object) (functor : Object) (inner : List ℕ) (r : Revived)
    (tracking : Bool)
    → (copy functor).inner_lambda ≡ some inner
    → replay_functor s copy functor ≡ (ok r, tracking)
    → (new : Object) × (r.functor ≡ copy new)
      × (hdl_host_lambda_pointer new.bytes ≡ hdl_host_lambda_pointer (copy functor).bytes)
unfolding replay_functor
replay_functor-hdl_host_lambda_pointer s copy functor inner r tracking extended returned =
    let (new, made, copied) =
      revived-eq-ok s copy (copy functor)
        (patched s (copy functor).bytes (copy functor).inner_lambda) r tracking returned in
    (new, copied, patched-pointer s (copy functor).bytes inner new (rw extended at made))
