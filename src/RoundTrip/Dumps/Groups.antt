-- ===== src/RoundTrip/Dumps/Groups.antt =====
-- The group of one allocation: what `write_allocation_group` of src/krepe/capture/view_dump.cpp writes is what the
-- replay reads of a view; and the groups of different allocations have different names.
use mathlib.Core.List.{append_cancel_left}
use kokkos_kernel_forge.Base.{
  ℕ, ◌^◌, ◌<◌, ◌≡◌, ◌≢◌, ◌∙◌, refl, sym, ap, List, [], ◌∷◌, ◌++◌, nat_eq, arith, length, All,
}
use kokkos_kernel_forge.Base.Text.{Text, text, text_eq}
use kokkos_kernel_forge.Base.Int.{pos}
use kokkos_kernel_forge.Base.Exec.{Exec, ◌>>◌}
use kokkos_kernel_forge.Common.Hdf5.{Hdf5, IsHdf5, dataset, bytes_value, ObjectPath, slot_eq}
use kokkos_kernel_forge.Capture.Numbers.{
  to_string, to_string-AllDigits, value_from-to_string, value_from, AllDigits,
}
use kokkos_kernel_forge.Capture.Tracker.{ActiveAllocation}
use kokkos_kernel_forge.Capture.MemoryCopy.{Memory, copy_allocation_bytes}
use kokkos_kernel_forge.Capture.Dump.Names.{group_name, sanitize_name}
use kokkos_kernel_forge.Capture.Dump.Pointer.{pointer_to_string}
use kokkos_kernel_forge.Capture.Dump.WritePolicy.{
  write_bytes_dataset, write_string_attribute, write_uint64_attribute,
}
use kokkos_kernel_forge.Capture.Dump.File as File
use kokkos_kernel_forge.Replay.Policy.{Group, get_string, as_string}
use kokkos_kernel_forge.Replay.Views.{get_bytes}
use kokkos_kernel_forge.Replay.Guard.Restored.{View, Describes}
use kokkos_kernel_forge.RoundTrip.Puts.{with_slot, Puts, Puts-put}
use kokkos_kernel_forge.RoundTrip.Writes.{
  with_string, with_int, with_uint64, puts_string, puts_int, puts_uint64, ◌then◌,
}
use kokkos_kernel_forge.RoundTrip.Policies.{string_at}
use kokkos_kernel_forge.RoundTrip.Pointers.{stoull_16-pointer_to_string}

abbrev LacksUnderscore : Text → Type 0
LacksUnderscore s = All (λ c. c ≢ b'_') s

digits-LacksUnderscore : (s : Text) → AllDigits s → LacksUnderscore s
digits-LacksUnderscore [] h = tt
digits-LacksUnderscore (c ∷ s) h = (ground (arith, h.0), digits-LacksUnderscore s h.1)

first_unique :
    (a b d e : Text)
    → LacksUnderscore a
    → LacksUnderscore b
    → a ++ (b'_' ∷ d) ≡ b ++ (b'_' ∷ e)
    → a ≡ b
first_unique [] [] d e la lb p = refl
first_unique [] (y ∷ b) d e la lb p = let q : y ≡ b'_' = cc in absurd (lb.0 q)
first_unique (x ∷ a) [] d e la lb p = let q : x ≡ b'_' = cc in absurd (la.0 q)
first_unique (x ∷ a) (y ∷ b) d e la lb p =
    let rest : a ≡ b = first_unique a b d e la.1 lb.1 (cc) in cc

-- The index keeps the groups of a snapshot apart, whatever the labels.
pub group_name-injective :
    (i j : ℕ) (label other : Text) → group_name i label ≡ group_name j other → i ≡ j
unfolding group_name
group_name-injective i j label other h =
    let front =
      first_unique (to_string i) (to_string j) (sanitize_name label) (sanitize_name other)
        (digits-LacksUnderscore (to_string i) (to_string-AllDigits i))
        (digits-LacksUnderscore (to_string j) (to_string-AllDigits j))
        (append_cancel_left (text "view_") _ _ h) in
    sym (value_from-to_string i) ∙ ap (value_from 0) front ∙ value_from-to_string j

-- The group behind the writes of an allocation whose bytes were copied.
abbrev pub with_allocation : File.Platform → ActiveAllocation → List ℕ → Group → Group
with_allocation p a bytes g = with_slot (dataset (text "bytes")) (bytes_value bytes) (
    with_int "bytes_dumped" (pos 1) (
      with_uint64 "reported_size" a.allocation.reported_size (
        with_uint64 "size" a.allocation.size (
          with_string "p_data" (p.pointer_to_string a.allocation.p_data) (
            with_string "ptr" (p.pointer_to_string a.ptr) (
              with_string "space" a.allocation.space
                (with_string "label" a.allocation.label g)))))))

-- The view that an allocation is for the replay.
abbrev pub view_of : ActiveAllocation → List ℕ → View
view_of a bytes = record {
  label = a.allocation.label;
  space = a.allocation.space;
  address = a.allocation.p_data;
  bytes = bytes;
}

pub with_allocation-Describes :
    (p : File.Platform) (a : ActiveAllocation) (bytes : List ℕ) (g : Group)
    → ((n : ℕ) → p.pointer_to_string n ≡ pointer_to_string n)
    → a.allocation.p_data < 2 ^ 64
    → length bytes < 2 ^ 31
    → Describes (with_allocation p a bytes g) (view_of a bytes)
unfolding with_slot slot_eq text_eq text get_string as_string get_bytes
with_allocation-Describes p a bytes g printed fits short = record {
  label = string_at a.allocation.label;
  space = string_at a.allocation.space;
  p_data = p.pointer_to_string a.allocation.p_data;
  pointer = string_at (p.pointer_to_string a.allocation.p_data);
  address = rw (printed a.allocation.p_data) (stoull_16-pointer_to_string a.allocation.p_data fits);
  bytes = refl;
  short = short;
}

module _ {W : Type 0} (h : Hdf5 W) (laws : IsHdf5 h) (p : ObjectPath) where
  puts_bytes :
      (bytes : List ℕ)
      → Puts h laws p
          (write_bytes_dataset h p (text "bytes") bytes)
          (with_slot (dataset (text "bytes")) (bytes_value bytes))
  unfolding write_bytes_dataset
  puts_bytes bytes = Puts-put h laws p _ _

  -- The writes to the group of an allocation.
  abbrev pub allocation_body : Memory → File.Platform → ActiveAllocation → Exec W (Unit {0})
  allocation_body m platform a = do
    write_string_attribute h p (text "label") a.allocation.label
    write_string_attribute h p (text "space") a.allocation.space
    write_string_attribute h p (text "ptr") (platform.pointer_to_string a.ptr)
    write_string_attribute h p (text "p_data") (platform.pointer_to_string a.allocation.p_data)
    write_uint64_attribute h p (text "size") a.allocation.size
    write_uint64_attribute h p (text "reported_size") a.allocation.reported_size
    File.write_bytes h m platform p (copy_allocation_bytes m a)

  pub puts_allocation :
      (m : Memory) (platform : File.Platform) (a : ActiveAllocation) (bytes : List ℕ)
      → copy_allocation_bytes m a ≡ ([], bytes)
      → Puts h laws p (allocation_body m platform a) (with_allocation platform a bytes)
  unfolding File.write_bytes
  puts_allocation m platform a bytes copied = rw copied (
      ◌then◌ h laws p (puts_string h laws p "label" _) (
        ◌then◌ h laws p (puts_string h laws p "space" _) (
          ◌then◌ h laws p (puts_string h laws p "ptr" _) (
            ◌then◌ h laws p (puts_string h laws p "p_data" _) (
              ◌then◌ h laws p (puts_uint64 h laws p "size" _) (
                ◌then◌ h laws p (puts_uint64 h laws p "reported_size" _)
                  (◌then◌ h laws p (puts_int h laws p "bytes_dumped" _) (puts_bytes bytes))))))))
