-- ===== src/RoundTrip/Dumps/Kept.antt =====
-- The group of an allocation is left alone by all that is written elsewhere in a dump.
use kokkos_kernel_forge.Base.{
  ℕ, ◌≡◌, ◌≢◌, ◌∙◌, refl, inl, inr, false, List, [], ◌∷◌, ◌++◌, is_empty, arith, Bool-cases,
}
use kokkos_kernel_forge.Base.Text.{Text, text, text_eq, text_eq_iff, text_eq_refl}
use kokkos_kernel_forge.Base.Int.{ℤ}
use kokkos_kernel_forge.Base.Dict.{Dict}
use kokkos_kernel_forge.Base.Result.{ok}
use kokkos_kernel_forge.Base.Exec.{Exec, ◌>>◌}
use kokkos_kernel_forge.Common.Hdf5.{Hdf5, IsHdf5, ObjectPath, path_eq}
use kokkos_kernel_forge.Capture.Policy.{PolicyDesc, no_policy, scalar, range, mdrange, team}
use kokkos_kernel_forge.Capture.Tracker.{ActiveAllocation}
use kokkos_kernel_forge.Capture.MemoryCopy.{Memory, Copied}
use kokkos_kernel_forge.Capture.Dump.Names.{group_name}
use kokkos_kernel_forge.Capture.Dump.WritePolicy.{
  write_string_attribute, write_uint64_attribute, write_int_attribute, write_bytes_dataset,
  write_int64_dataset, write_common, write_policy,
}
use kokkos_kernel_forge.Capture.Dump.File as File
use kokkos_kernel_forge.RoundTrip.Puts.{Puts-then}
use kokkos_kernel_forge.RoundTrip.Dumps.{Keeps, Passes, Keeps-put}
use kokkos_kernel_forge.RoundTrip.Dumps.Groups.{group_name-injective, allocation_body}

abbrev pub views_path : Text → ObjectPath
views_path snapshot = snapshot ∷ text "views" ∷ []

-- The path of the group of the allocation with an index.
abbrev pub view_path : Text → ℕ → Text → ObjectPath
view_path snapshot index label = views_path snapshot ++ group_name index label ∷ []

pub other_view :
    (snapshot : Text) (i j : ℕ) (label other : Text)
    → i ≢ j
    → path_eq (view_path snapshot i label) (view_path snapshot j other) ≡ false
unfolding path_eq
other_view snapshot i j label other ne =
    let names : text_eq (group_name i label) (group_name j other) ≡ false = ground (
      arith,
      text_eq_iff (group_name i label) (group_name j other),
      group_name-injective i j label other,
      ne,
    ) in
    rw (text_eq_refl snapshot, text_eq_refl (text "views"), names)

-- All that follows is about the group at `p`, in a file where something else is written.
module _ {W : Type 0} (h : Hdf5 W) (laws : IsHdf5 h) (m : Memory) (platform : File.Platform)
    (p : ObjectPath) where
  pub Passes-trans :
      {n body inner : Exec W (Unit {0})}
      → Passes h laws m platform p n body
      → Passes h laws m platform p body inner
      → Passes h laws m platform p n inner
  Passes-trans outer inside = record {
    passes = λ w done.
        let (v, fine, same) = outer.passes w done in
        let (u, deep, kept) = inside.passes v fine in (u, deep, same ∙ kept);
  }

  infixr 4 ◌and◌
  pub ◌and◌ :
      {k n : Exec W (Unit {0})}
      → Keeps h laws m platform p k
      → Keeps h laws m platform p n
      → Keeps h laws m platform p (k >> n)
  a and b = Puts-then h laws p a b

  pub Keeps-pure : Keeps h laws m platform p (λ w. (ok tt, w))
  Keeps-pure = record { puts = λ w done. refl }

  module _ (q : ObjectPath) (apart : path_eq q p ≡ false) where
    keep_string :
        (name value : Text) → Keeps h laws m platform p (write_string_attribute h q name value)
    unfolding write_string_attribute
    keep_string name value = Keeps-put h laws m platform p q _ _ apart

    keep_uint64 :
        (name : Text) (value : ℕ)
        → Keeps h laws m platform p (write_uint64_attribute h q name value)
    unfolding write_uint64_attribute
    keep_uint64 name value = Keeps-put h laws m platform p q _ _ apart

    keep_int :
        (name : Text) (value : ℤ) → Keeps h laws m platform p (write_int_attribute h q name value)
    unfolding write_int_attribute
    keep_int name value = Keeps-put h laws m platform p q _ _ apart

    pub keep_bytes :
        (name : Text) (value : List ℕ)
        → Keeps h laws m platform p (write_bytes_dataset h q name value)
    unfolding write_bytes_dataset
    keep_bytes name value = Keeps-put h laws m platform p q _ _ apart

    keep_int64s :
        (name : Text) (value : List ℤ)
        → Keeps h laws m platform p (write_int64_dataset h q name value)
    unfolding write_int64_dataset
    keep_int64s name value = Keeps-put h laws m platform p q _ _ apart

    keep_copied : (c : Copied) → Keeps h laws m platform p (File.write_bytes h m platform q c)
    unfolding File.write_bytes
    keep_copied (reason, bytes) = elim (Bool-cases (is_empty reason)) [
      | inl e ↦ rw e (keep_int _ _ and keep_bytes _ _)
      | inr e ↦ rw e (keep_int _ _ and keep_string _ _)
    ]

    pub keep_allocation :
        (a : ActiveAllocation) → Keeps h laws m platform p (allocation_body h laws q m platform a)
    keep_allocation a =
        keep_string _ _
        and keep_string _ _
        and keep_string _ _
        and keep_string _ _
        and keep_uint64 _ _
        and keep_uint64 _ _
        and keep_copied _

    pub keep_metadata :
        (d : Dict Text Text) → Keeps h laws m platform p (File.write_metadata h m platform q d)
    unfolding File.write_metadata
    keep_metadata [] = Keeps-pure
    keep_metadata ((key, value) ∷ rest) = keep_string key value and keep_metadata rest

    pub keep_policy : (d : PolicyDesc) → Keeps h laws m platform p (write_policy h q d)
    unfolding write_policy write_common
    keep_policy no_policy = keep_string _ _
    keep_policy (scalar d) = keep_string _ _ and keep_uint64 _ _
    keep_policy (range d) =
        (keep_string _ _ and keep_int _ _ and keep_int _ _ and keep_string _ _ and keep_string _ _)
        and keep_uint64 _ _
        and keep_uint64 _ _
        and keep_int _ _
    keep_policy (mdrange d) =
        (keep_string _ _ and keep_int _ _ and keep_int _ _ and keep_string _ _ and keep_string _ _)
        and keep_int _ _
        and keep_string _ _
        and keep_string _ _
        and keep_int64s _ _
        and keep_int64s _ _
        and keep_int64s _ _
    keep_policy (team d) =
        (keep_string _ _ and keep_int _ _ and keep_int _ _ and keep_string _ _ and keep_string _ _)
        and keep_int _ _
        and keep_int _ _
        and keep_int _ _
        and keep_int _ _
        and keep_int _ _
        and keep_int _ _
        and keep_int _ _
        and keep_int _ _
