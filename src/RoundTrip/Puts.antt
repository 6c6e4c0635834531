-- ===== src/RoundTrip/Puts.antt =====
-- What a block of writes leaves in the group that it writes to.
use mathlib.Core.Path.{fun_ext}
use kokkos_kernel_forge.Base.{
  ◌≡◌, ◌∙◌, refl, ap, Bool, true, false, some, [], ◌∷◌, arith, if◌then◌else◌,
}
use kokkos_kernel_forge.Base.Text.{text_eq_refl}
use kokkos_kernel_forge.Base.Result.{ok}
use kokkos_kernel_forge.Base.Exec.{Exec, ◌>>◌, continue_done}
use kokkos_kernel_forge.Common.Hdf5.{
  Hdf5, IsHdf5, Value, Slot, ObjectPath, path_eq, slot_eq, checked,
}
use kokkos_kernel_forge.Capture.Dump.WritePolicy.{put}
use kokkos_kernel_forge.Replay.Policy.{Group}

unfoldable pub with_slot : Slot → Value → Group → Group
with_slot slot value group s = if slot_eq slot s then some value else group s

path_eq_refl : (p : ObjectPath) → path_eq p p ≡ true
unfolding path_eq
path_eq_refl [] = refl
path_eq_refl (x ∷ xs) = ground (arith, text_eq_refl x, path_eq_refl xs)

pub checked_done :
    {W : Type 0} (x : Bool × W) → (checked x).0 ≡ ok tt → (x.0 ≡ true) × ((checked x).1 ≡ x.1)
checked_done (true, w) done = (refl, refl)
checked_done (false, w) done = cc

module _ {W : Type 0} (h : Hdf5 W) (laws : IsHdf5 h) (p : ObjectPath) where
  abbrev pub group_at : W → Group
  group_at w slot = h.read p slot w

  -- When the writes succeed, they change the group by `f`.
  pub record Puts (m : Exec W (Unit {0})) (f : Group → Group) : Type 0 where
    pub puts : (w : W) → (m w).0 ≡ ok tt → group_at (m w).1 ≡ f (group_at w)

  pub Puts-put : (slot : Slot) (v : Value) → Puts (put h p slot v) (with_slot slot v)
  unfolding with_slot
  Puts-put slot v = record { puts = λ w done. fun_ext λ s. put_one slot v w s done }
    where
      put_one :
          (slot : Slot) (v : Value) (w : W) (s : Slot)
          → (put h p slot v w).0 ≡ ok tt
          → h.read p s (put h p slot v w).1 ≡ (if slot_eq slot s then some v else h.read p s w)
      put_one slot v w s done =
          let step = checked_done (h.write p slot v w) done in
          ap (h.read p s) step.1 ∙ laws.read-write p slot v w p s step.0 ∙ rw path_eq_refl

  pub Puts-then :
      {m n : Exec W (Unit {0})} {f g : Group → Group}
      → Puts m f
      → Puts n g
      → Puts (m >> n) (λ group. g (f group))
  Puts-then {m} {n} {f} {g} pm pn = record {
    puts = λ w done.
        let step = continue_done (m w).0 n (m w).1 done in
        ap group_at step.2 ∙ pn.puts (m w).1 step.1 ∙ ap g (pm.puts w step.0);
  }
