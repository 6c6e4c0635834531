-- ===== src/Common/ScopedHandle.antt =====
-- src/krepe/common/hdf5_utils.hpp. A status or an id is a signed number, negative for a failure. The
-- function that closes an id is HDF5's: it acts on a world `W` and returns a status.
use kokkos_kernel_forge.Base.{
  ℕ, zero, suc, ◌≡◌, refl, inl, inr, Bool, true, false, not, if◌then◌else◌, Bool-cases,
}
use kokkos_kernel_forge.Base.Text.{text}
use kokkos_kernel_forge.Base.Int.{ℤ, negsuc, is_negative}
use kokkos_kernel_forge.Base.Result.{Result, ok, err}

-- The message of the source also names the file, the line and the call.
unfoldable pub check_call : ℤ → Result (Unit {0})
check_call status = if is_negative status then err (text "The call failed") else ok tt

unfoldable pub check_id : ℤ → Result ℤ
check_id id = if is_negative id then err (text "The call failed") else ok id

-- `id_`; `H5I_INVALID_HID` is -1.
pub record ScopedHandle : Type 0 where
  pub id : ℤ

abbrev pub invalid_hid : ℤ
invalid_hid = negsuc 0

unfoldable pub valid : ScopedHandle → Bool
valid h = not (is_negative h.id)

module _ {W : Type 0} (close : ℤ → W → ℤ × W) where
  -- The handle after the call of `close_`, which stays as it is when the call failed.
  unfoldable pub closed :
      Result (Unit {0}) → ScopedHandle → W → Result (Unit {0}) × (ScopedHandle × W)
  closed (ok u) h w = (ok tt, (record { id = invalid_hid }, w))
  closed (err e) h w = (err e, (h, w))

  unfoldable pub close_checked : ScopedHandle → W → Result (Unit {0}) × (ScopedHandle × W)
  unfolding closed check_call valid
  close_checked h w =
      let (status, w') = close h.id w in
      if valid h then closed (check_call status) h w' else (ok tt, (h, w))

  -- The destructor drops the status.
  unfoldable pub destroy : ScopedHandle → W → W
  unfolding valid
  destroy h w = if valid h then (close h.id w).1 else w

  -- A scope that calls `close_checked` some times and then leaves, by its end or by the exception.
  unfoldable pub leave : Result (Unit {0}) → ScopedHandle → W → Result (Unit {0}) × W
  unfolding destroy
  leave r h w = (r, destroy h w)

  unfoldable pub go_on :
      Result (Unit {0}) × (ScopedHandle × W)
      → (ScopedHandle → W → Result (Unit {0}) × W)
      → Result (Unit {0}) × W
  unfolding leave
  go_on (ok u, (h, w)) rest = rest h w
  go_on (err e, (h, w)) rest = leave (err e) h w

  unfoldable pub scope : ℕ → ScopedHandle → W → Result (Unit {0}) × W
  unfolding leave go_on
  scope zero h w = leave (ok tt) h w
  scope (suc n) h w = go_on (close_checked h w) (scope n)

  close_checked-invalid :
      (h : ScopedHandle) (w : W) → is_negative h.id ≡ true → close_checked h w ≡ (ok tt, (h, w))
  unfolding close_checked
  close_checked-invalid h w e = rw e

  close_checked-succeeds :
      (h : ScopedHandle) (w : W)
      → is_negative h.id ≡ false
      → is_negative (close h.id w).0 ≡ false
      → close_checked h w ≡ (ok tt, (record { id = invalid_hid }, (close h.id w).1))
  unfolding close_checked
  close_checked-succeeds h w e c = rw (e, c)

  close_checked-fails :
      (h : ScopedHandle) (w : W)
      → is_negative h.id ≡ false
      → is_negative (close h.id w).0 ≡ true
      → close_checked h w ≡ (err (text "The call failed"), (h, (close h.id w).1))
  unfolding close_checked
  close_checked-fails h w e c = rw (e, c)

  scope-invalid :
      (n : ℕ) (h : ScopedHandle) (w : W) → is_negative h.id ≡ true → scope n h w ≡ (ok tt, w)
  unfolding scope
  scope-invalid zero h w e = rw e
  scope-invalid (suc n) h w e = rw (close_checked-invalid h w e) (scope-invalid n h w e)

  -- A valid handle whose close succeeds is closed exactly once, by the first `close_checked` or else by the
  -- destructor, however often `close_checked` is called; an invalid one is never closed.
  pub scope_closes_once :
      (n : ℕ) (h : ScopedHandle) (w : W)
      → (is_negative h.id ≡ false → is_negative (close h.id w).0 ≡ false)
      → scope n h w ≡ (ok tt, (if is_negative h.id then w else (close h.id w).1))
  unfolding scope
  scope_closes_once zero h w e = elim (Bool-cases (is_negative h.id)) [
    | inl n ↦ rw n
    | inr v ↦ rw v
  ]
  scope_closes_once (suc n) h w e = elim (Bool-cases (is_negative h.id)) [
    | inl i ↦ rw (close_checked-invalid h w i, i) (scope-invalid n h w i)
    | inr v ↦
        rw (close_checked-succeeds h w v (e v), v)
          (scope-invalid n (record { id = invalid_hid }) (close h.id w).1 refl)
  ]

  -- When the close of a valid handle fails, a scope that calls `close_checked` throws, and the
  -- destructor tries to close the id once more.
  pub scope-failed :
      (n : ℕ) (h : ScopedHandle) (w : W)
      → is_negative h.id ≡ false
      → is_negative (close h.id w).0 ≡ true
      → scope (suc n) h w ≡ (err (text "The call failed"), (close h.id (close h.id w).1).1)
  unfolding scope
  scope-failed n h w valid_id fails = rw (close_checked-fails h w valid_id fails, valid_id)
