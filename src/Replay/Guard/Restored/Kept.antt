-- ===== src/Replay/Guard/Restored/Kept.antt =====
-- Each view is found and its bytes stay, whatever is copied before it, and behind it to other places.
use kokkos_kernel_forge.Base.{
  ℕ, ◌+◌, ◌≤◌, ◌<◌, ◌≡◌, ◌≢◌, ◌∙◌, refl, inl, inr, ◌⊎◌, false, some, List, [], ◌∷◌, ◌++◌, nat_eq,
  arith, if◌then◌else◌, is_empty, length, get_elem?, All, Bool-cases,
}
use kokkos_kernel_forge.Base.Text.{Text, text, text_eq, text_eq_iff, text_eq_refl, text_Eq}
use kokkos_kernel_forge.Base.Dict.{lookup-insert}
use kokkos_kernel_forge.Base.Result.{ok}
use kokkos_kernel_forge.Replay.Space.{MemorySpaceType, host, device}
use kokkos_kernel_forge.Replay.Policy.{Group}
use kokkos_kernel_forge.Replay.Guard.{Build, Replayer, is_there, remember}
use kokkos_kernel_forge.Replay.Guard.Lookup.{get_allocation}
use kokkos_kernel_forge.Replay.Guard.Construct.{group_of, copy_views}
use kokkos_kernel_forge.Common.Hdf5.{Hdf5}
use kokkos_kernel_forge.Replay.Guard.Restored.{
  View, space_of, CopiesTo, placed, address_of, restored, AllDescribe, restored_all, loop-restored,
  AllMapped, loop-AllMapped, bytes_of, IsRestored, Apart, put_bytes-outside, put_bytes-inside,
}

bytes_of-remember :
    (b : Build) (p q : MemorySpaceType) (label : Text) (address : ℕ) (s : Replayer)
    → bytes_of p (remember b q label address s) ≡ bytes_of p s
unfolding remember
bytes_of-remember b host host label address s = refl
bytes_of-remember b device host label address s = refl
bytes_of-remember b host device label address s = elim (Bool-cases (is_there b.system.driver)) [
  | inl e ↦ rw e
  | inr e ↦ rw e
]
bytes_of-remember b device device label address s = elim (Bool-cases (is_there b.system.driver)) [
  | inl e ↦ rw e
  | inr e ↦ rw e
]

get-remember_self :
    (b : Build) (v : View) (p : MemorySpaceType) (address : ℕ) (s : Replayer)
    → CopiesTo b.system p v
    → get_allocation b (remember b p v.label address s) p v.label ≡ ok address
unfolding get_allocation remember
get-remember_self b v host address s can = rw (lookup-insert, text_eq_refl v.label)
get-remember_self b v device address s (d, there, fine) =
    rw there (rw (lookup-insert, text_eq_refl v.label))

text_ne : (s t : Text) → s ≢ t → text_eq t s ≡ false
text_ne s t h = ground (arith, text_eq_iff t s, h)

get-remember_other :
    (b : Build) (p q : MemorySpaceType) (label other : Text) (address : ℕ) (s : Replayer)
    → (p ≢ q) ⊎ (label ≢ other)
    → get_allocation b (remember b q other address s) p label ≡ get_allocation b s p label
unfolding get_allocation remember
get-remember_other b host host label other address s (inl h) = absurd (h refl)
get-remember_other b host host label other address s (inr h) =
    rw (lookup-insert, text_ne label other h)
get-remember_other b device host label other address s h = refl
get-remember_other b host device label other address s h =
    elim (Bool-cases (is_there b.system.driver)) [ inl e ↦ rw e | inr e ↦ rw e ]
get-remember_other b device device label other address s (inl h) = absurd (h refl)
get-remember_other b device device label other address s (inr h) =
    elim (Bool-cases (is_there b.system.driver)) [
      | inl e ↦ rw e (rw (lookup-insert, text_ne label other h))
      | inr e ↦ rw e
    ]

-- The memory behind a view after its bytes were placed, and after those of another view were.
placed_self :
    (p : MemorySpaceType) (address : ℕ) (bytes : List ℕ) (s : Replayer) (i : ℕ)
    → i < length bytes
    → get_elem? bytes i
      ≡ some (bytes_of p (record s { machine = placed p address bytes s.machine }) (address + i))
placed_self host address bytes s i h =
    put_bytes-inside address bytes s.machine.host_memory.bytes i h
placed_self device address bytes s i h =
    put_bytes-inside address bytes s.machine.device_memory.bytes i h

placed_other :
    (p q : MemorySpaceType) (address : ℕ) (bytes : List ℕ) (s : Replayer) (a : ℕ)
    → (p ≢ q) ⊎ ((a < address) ⊎ (address + length bytes ≤ a))
    → bytes_of p (record s { machine = placed q address bytes s.machine }) a ≡ bytes_of p s a
placed_other host host address bytes s a (inl h) = absurd (h refl)
placed_other host host address bytes s a (inr h) = put_bytes-outside address bytes _ a h
placed_other host device address bytes s a h = refl
placed_other device host address bytes s a h = refl
placed_other device device address bytes s a (inl h) = absurd (h refl)
placed_other device device address bytes s a (inr h) = put_bytes-outside address bytes _ a h

restored-IsRestored :
    (b : Build) (v : View) (s : Replayer)
    → CopiesTo b.system (space_of v) v
    → IsRestored b v (restored b v s)
unfolding restored
restored-IsRestored b v s can = record {
  found = get-remember_self b v (space_of v) (address_of v) _ can;
  holds = λ i h. held (space_of v) v.bytes i h;
}
  where
    held :
        (p : MemorySpaceType) (bytes : List ℕ) (i : ℕ)
        → i < length bytes
        → get_elem? bytes i
          ≡ some (
              bytes_of p
                (remember b p v.label (address_of v) (record s {
                  machine =
                      if is_empty bytes then s.machine else placed p v.address bytes s.machine;
                }))
                (v.address + i))
    held p [] i h = absurd (omega arith)
    held p (byte ∷ bytes) i h =
        placed_self p v.address (byte ∷ bytes) s i h
        ∙ rw (
            bytes_of-remember b p p v.label (address_of v)
              (record s { machine = placed p v.address (byte ∷ bytes) s.machine }))

-- A byte that another view does not reach.
untouched :
    (b : Build) (p q : MemorySpaceType) (label : Text) (address known : ℕ) (bytes : List ℕ)
    (s : Replayer) (a : ℕ)
    → (p ≢ q) ⊎ ((a < address) ⊎ (address + length bytes ≤ a))
    → bytes_of p
        (remember b q label known (record s {
          machine = if is_empty bytes then s.machine else placed q address bytes s.machine;
        }))
        a
      ≡ bytes_of p s a
untouched b p q label address known [] s a h = rw (bytes_of-remember b p q label known s)
untouched b p q label address known (byte ∷ bytes) s a h =
    rw
      (bytes_of-remember b p q label known
        (record s { machine = placed q address (byte ∷ bytes) s.machine }))
      (placed_other p q address (byte ∷ bytes) s a h)

reaches_not :
    (v u : View) (i : ℕ)
    → Apart v u
    → i < length v.bytes
    → (space_of v ≢ space_of u)
      ⊎ ((v.address + i < u.address) ⊎ (u.address + length u.bytes ≤ v.address + i))
reaches_not v u i (inl spaces) h = inl spaces
reaches_not v u i (inr (labels, inl below)) h = inr (inl (omega arith))
reaches_not v u i (inr (labels, inr above)) h = inr (inr (omega arith))

other_label : (v u : View) → Apart v u → (space_of v ≢ space_of u) ⊎ (v.label ≢ u.label)
other_label v u (inl spaces) = inl spaces
other_label v u (inr (labels, bytes)) = inr labels

restored-keeps :
    (b : Build) (v u : View) (s : Replayer)
    → Apart v u
    → IsRestored b v s
    → IsRestored b v (restored b u s)
unfolding restored
restored-keeps b v u s apart old = record {
  found =
      get-remember_other b (space_of v) (space_of u) v.label u.label (address_of u) _
        (other_label v u apart)
      ∙ unfold get_allocation in old.found;
  holds = λ i h.
      rw
        (untouched b (space_of v) (space_of u) u.label u.address (address_of u) u.bytes s
          (v.address + i) (reaches_not v u i apart h))
        (old.holds i h);
}

All-keeps :
    (b : Build) (v : View) (after : List View) (s : Replayer)
    → All (Apart v) after
    → IsRestored b v s
    → IsRestored b v (restored_all b after s)
All-keeps b v [] s apart old = old
All-keeps b v (u ∷ after) s (first, rest) old =
    All-keeps b v after (restored b u s) rest (restored-keeps b v u s first old)

restored_all-IsRestored :
    (b : Build) (before : List View) (v : View) (after : List View) (s : Replayer)
    → CopiesTo b.system (space_of v) v
    → All (Apart v) after
    → IsRestored b v (restored_all b (before ++ v ∷ after) s)
restored_all-IsRestored b [] v after s can apart =
    All-keeps b v after (restored b v s) apart (restored-IsRestored b v s can)
restored_all-IsRestored b (u ∷ before) v after s can apart =
    restored_all-IsRestored b before v after (restored b u s) can apart

middle_copies :
    (b : Build) (group_of : Text → Group) (names : List Text) (before : List View) (v : View)
    (after : List View)
    → AllDescribe b group_of names (before ++ v ∷ after)
    → CopiesTo b.system (space_of v) v
middle_copies b group_of [] [] v after h = elim h [ ]
middle_copies b group_of [] (u ∷ before) v after h = elim h [ ]
middle_copies b group_of (name ∷ names) [] v after (d, can, rest) = can
middle_copies b group_of (name ∷ names) (u ∷ before) v after (d, can, rest) =
    middle_copies b group_of names before v after rest

-- The constructor copies every view of the dump back: when the groups of `in/views` describe the views, in the order in
-- which HDF5 visits them, and the bytes of those of the host lie in mapped memory, the loop returns, and each view
-- that no later one overwrites is then found under its label, with its bytes in the memory of its space at its address.
-- (Data shorter than 2 ^ 31 bytes, and a driver that copies to the device.)
pub copy_views-IsRestored :
    {W : Type 0} (b : Build) (h : Hdf5 W) (w : W) (names : List Text) (before : List View)
    (v : View) (after : List View) (s : Replayer)
    → h.children (text "in" ∷ text "views" ∷ []) w ≡ some names
    → AllDescribe b (group_of b h w (text "in")) names (before ++ v ∷ after)
    → AllMapped s (before ++ v ∷ after)
    → All (Apart v) after
    → ((copy_views b h w s).0 ≡ ok tt) × IsRestored b v (copy_views b h w s).1
unfolding copy_views
copy_views-IsRestored b h w names before v after s visited described mapped apart =
    rw
      (
        visited,
        loop-restored b (group_of b h w (text "in")) names (before ++ v ∷ after) s described mapped,
      )
      (
        refl,
        restored_all-IsRestored b before v after s
            (middle_copies b (group_of b h w (text "in")) names before v after described) apart,
      )

-- A loop that returns met no fault.
pub copy_views-AllMapped :
    {W : Type 0} (b : Build) (h : Hdf5 W) (w : W) (names : List Text) (vs : List View)
    (s : Replayer)
    → h.children (text "in" ∷ text "views" ∷ []) w ≡ some names
    → AllDescribe b (group_of b h w (text "in")) names vs
    → (copy_views b h w s).0 ≡ ok tt
    → AllMapped s vs
unfolding copy_views
copy_views-AllMapped b h w names vs s visited described done =
    loop-AllMapped b (group_of b h w (text "in")) names vs s described (rw visited at done)
