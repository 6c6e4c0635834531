-- ===== src/Common/Hdf5.antt =====
-- HDF5 as krepe uses it. The library is not part of the repository: its calls are the fields of a
-- record, over a world `W` that holds its state and the files. An object of the open file is given by
-- its path. One field stands for the calls that make or read one attribute or one dataset, with
-- the handles of its type and of its space; a call that returns a negative number answers `false` or
-- `none`, and `CHECK_HDF5_CALL` turns that into an exception.
use kokkos_kernel_forge.Base.{
  ℕ, ◌≡◌, Bool, true, false, Option, some, List, [], ◌∷◌, ◌&&◌, ◌==◌, if◌then◌else◌,
}
use kokkos_kernel_forge.Base.Text.{Text, text, text_Eq}
use kokkos_kernel_forge.Base.Int.{ℤ}
use kokkos_kernel_forge.Base.Result.{Result, ok, err}

-- What an attribute or a dataset holds: the bytes of a string with its terminator, a number, the
-- bytes of a dataset, or its signed numbers.
pub data Value : Type 0 where
  string_value : List ℕ → Value
  int_value : ℤ → Value
  uint64_value : ℕ → Value
  bytes_value : List ℕ → Value
  int64s_value : List ℤ → Value

-- Attributes and links of a group have names of their own.
pub data Slot : Type 0 where
  attribute dataset : Text → Slot

abbrev pub ObjectPath : Type 0
ObjectPath = List Text

unfoldable pub path_eq : ObjectPath → ObjectPath → Bool
path_eq [] [] = true
path_eq [] (y ∷ ys) = false
path_eq (x ∷ xs) [] = false
path_eq (x ∷ xs) (y ∷ ys) = x == y && path_eq xs ys

unfoldable pub slot_eq : Slot → Slot → Bool
slot_eq (attribute m) (attribute n) = m == n
slot_eq (attribute m) (dataset n) = false
slot_eq (dataset m) (attribute n) = false
slot_eq (dataset m) (dataset n) = m == n

pub record Hdf5 (W : Type 0) : Type 0 where
  pub create_file : Text → W → Bool × W
  pub open_file : Text → W → Bool × W
  pub close_file : W → Bool × W
  pub create_group : ObjectPath → W → Bool × W
  pub close_group : ObjectPath → W → Bool × W
  pub write : ObjectPath → Slot → Value → W → Bool × W
  pub read : ObjectPath → Slot → W → Option Value
  pub children : ObjectPath → W → Option (List Text)
  pub attributes : ObjectPath → W → Option (List Text)
  pub exists : ObjectPath → W → Option Bool

-- What krepe relies on: what was written to a slot is read there, other slots keep what they held, and
-- opening and closing groups changes none, and the file holds the same when it is closed.
pub record IsHdf5 {W : Type 0} (h : Hdf5 W) : Type 0 where
  pub read-write :
      (p : ObjectPath) (n : Slot) (v : Value) (w : W) (q : ObjectPath) (m : Slot)
      → (h.write p n v w).0 ≡ true
      → h.read q m (h.write p n v w).1
        ≡ (if path_eq p q && slot_eq n m then some v else h.read q m w)
  pub read-create_group :
      (p : ObjectPath) (w : W) (q : ObjectPath) (m : Slot)
      → (h.create_group p w).0 ≡ true
      → h.read q m (h.create_group p w).1 ≡ h.read q m w
  pub read-close_group :
      (p : ObjectPath) (w : W) (q : ObjectPath) (m : Slot)
      → (h.close_group p w).0 ≡ true
      → h.read q m (h.close_group p w).1 ≡ h.read q m w
  pub read-close_file :
      (w : W) (q : ObjectPath) (m : Slot)
      → (h.close_file w).0 ≡ true
      → h.read q m (h.close_file w).1 ≡ h.read q m w

-- `CHECK_HDF5_CALL`; the message of the source names the file, the line and the call.
unfoldable pub hdf5_failed : Text
hdf5_failed = text "The call failed"

abbrev pub checked : {W : Type 0} → Bool × W → Result (Unit {0}) × W
checked (true, w) = (ok tt, w)
checked (false, w) = (err hdf5_failed, w)
