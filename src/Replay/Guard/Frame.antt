-- ===== src/Replay/Guard/Frame.antt =====
-- What the steps of the constructor of `ScopeGuard` leave alone.
use kokkos_kernel_forge.Base.{
  ℕ, ◌≡◌, ◌∙◌, refl, inl, inr, Bool, true, false, some, List, [], ◌∷◌, if◌then◌else◌, length,
  Bool-cases, Option-cases, ◌==◌, nat_eq,
}
use kokkos_kernel_forge.Base.Text.{Text, text}
use kokkos_kernel_forge.Base.Dict.{Dict}
use kokkos_kernel_forge.Base.Result.{Result, ok, err}
use kokkos_kernel_forge.Base.Exec.{Exec, continue, ◌>>=◌, ◌>>◌}
use kokkos_kernel_forge.Common.Hdf5.{Hdf5, ObjectPath}
use kokkos_kernel_forge.Replay.Space.{MemorySpaceType, host, device, memory_space_type_from_string}
use kokkos_kernel_forge.Replay.Policy.{Group, get_string, get_int, bool_of_int}
use kokkos_kernel_forge.Replay.Hex.{stoull_16}
use kokkos_kernel_forge.Replay.Views.{
  buffer_size, read_buffer, dumped_or_skipped, get_bytes, lift, allocate_hdf5_dataset,
  allocate_hdf5_output_dataset, hand_over, for_each,
}
use kokkos_kernel_forge.Replay.Guard.{
  Build, Replayer, is_there, when_there, keep_output, allocate_output, insert_metadata,
  read_hdf5_metadata,
}
use kokkos_kernel_forge.Replay.Guard.Construct.{group_of, read_metadata, read_outputs, if_exists}

module _ {A : Type 0} (seen : Replayer → A) where
  -- What is seen of the state stays, also when the call throws.
  pub record Keeps (m : Exec Replayer (Unit {0})) : Type 0 where
    pub keeps : (s : Replayer) → seen (m s).1 ≡ seen s

  Keeps-continue :
      {B : Type 0} (r : Result B) (n : B → Exec Replayer (Unit {0})) (t : Replayer)
      → ((a : B) → Keeps (n a))
      → seen (continue r n t).1 ≡ seen t
  Keeps-continue (ok a) n t keep = (keep a).keeps t
  Keeps-continue (err e) n t keep = refl

  -- A call that reads the file first.
  pub Keeps-lift :
      {B : Type 0} (r : Result B) (n : B → Exec Replayer (Unit {0}))
      → ((a : B) → Keeps (n a))
      → Keeps (lift r >>= n)
  Keeps-lift r n keep = record { keeps = λ s. Keeps-continue r n s keep }

  pub Keeps-then : (m n : Exec Replayer (Unit {0})) → Keeps m → Keeps n → Keeps (m >> n)
  Keeps-then m n km kn = record {
    keeps = λ s. Keeps-continue (m s).0 (λ _. n) (m s).1 (λ u. kn) ∙ km.keeps s;
  }

  pub Keeps-pure : Keeps (λ s. (ok tt, s))
  Keeps-pure = record { keeps = λ s. refl }

  pub Keeps-update :
      (f : Replayer → Replayer) → ((s : Replayer) → seen (f s) ≡ seen s) → Keeps (λ s. (ok tt, f s))
  Keeps-update f same = record { keeps = same }

  pub Keeps-if :
      (c : Bool) (m n : Exec Replayer (Unit {0})) → Keeps m → Keeps n → Keeps (if c then m else n)
  Keeps-if true m n km kn = km
  Keeps-if false m n km kn = kn

  pub Keeps-for_each :
      (body : Text → Exec Replayer (Unit {0})) (names : List Text)
      → ((name : Text) → Keeps (body name))
      → Keeps (for_each body names)
  unfolding for_each
  Keeps-for_each body [] keep = Keeps-pure
  Keeps-for_each body (name ∷ names) keep =
      Keeps-then (body name) (for_each body names) (keep name) (Keeps-for_each body names keep)

-- The steps behind the loop over the views, for what they do not write.
module _ {A : Type 0} (seen : Replayer → A) (b : Build) where
  -- No reference output is seen.
  abbrev pub BlindToOutputs : Type 0
  BlindToOutputs =
      (p : MemorySpaceType) (label : Text) (bytes : List ℕ) (s : Replayer)
      → seen (keep_output b p label bytes s) ≡ seen s

  Keeps-output_in :
      (p : MemorySpaceType) (label : Text) (bytes : List ℕ)
      → BlindToOutputs
      → Keeps seen (when_there b p (λ s. (ok tt, keep_output b p label bytes s)))
  Keeps-output_in host label bytes blind =
      Keeps-update seen (keep_output b host label bytes) (blind host label bytes)
  Keeps-output_in device label bytes blind = elim (Bool-cases (is_there b.system.driver)) [
    | inl e ↦ record { keeps = λ s. rw e (blind device label bytes s) }
    | inr e ↦ record { keeps = λ s. rw e }
  ]

  Keeps-output :
      (label space : Text) (address : ℕ) (bytes : List ℕ)
      → BlindToOutputs
      → Keeps seen (allocate_output b label space address bytes)
  unfolding allocate_output
  Keeps-output label space address bytes blind =
      Keeps-output_in (memory_space_type_from_string space) label bytes blind

  Keeps-dataset :
      (group : Group)
      → BlindToOutputs
      → Keeps seen (allocate_hdf5_dataset (allocate_output b) group)
  unfolding allocate_hdf5_dataset hand_over
  Keeps-dataset group blind = Keeps-lift seen (get_string group (text "label")) _ λ label.
      Keeps-lift seen (get_string group (text "space")) _ λ space.
        Keeps-lift seen (get_string group (text "p_data")) _ λ p_data.
          Keeps-lift seen (stoull_16 p_data) _ λ address.
            Keeps-lift seen (get_bytes group (text "bytes")) _ λ bytes.
              Keeps-if seen (buffer_size (length bytes) == 0) _ _
                (Keeps-output label space 0 [] blind)
                (Keeps-lift seen (read_buffer bytes) _
                  λ buffer. Keeps-output label space address buffer blind)

  Keeps-output_dataset :
      (group : Group)
      → BlindToOutputs
      → Keeps seen (allocate_hdf5_output_dataset (allocate_output b) group)
  unfolding allocate_hdf5_output_dataset
  Keeps-output_dataset group blind =
      Keeps-lift seen (get_int group (text "bytes_dumped")) _
        λ bytes_dumped. by_flag (bool_of_int bytes_dumped)
    where
      by_flag : (c : Bool) → Keeps seen (dumped_or_skipped (allocate_output b) c group)
      by_flag true = Keeps-dataset group blind
      by_flag false = Keeps-pure seen

  module _ {W : Type 0} (h : Hdf5 W) (w : W) where
    Keeps-if_exists :
        (path : ObjectPath) (body : Exec Replayer (Unit {0}))
        → Keeps seen body
        → Keeps seen (if_exists b h w path body)
    Keeps-if_exists path body keep = elim (Option-cases (h.exists path w)) [
      | inl missing ↦ record { keeps = λ s. rw missing }
      | inr (there, found) ↦ by_answer there found
    ]
      where
        by_answer : (c : Bool) → h.exists path w ≡ some c → Keeps seen (if_exists b h w path body)
        by_answer true found = record { keeps = λ s. rw found (keep.keeps s) }
        by_answer false found = record { keeps = λ s. rw found }

    -- The outputs, if the dump has them.
    pub Keeps-outputs :
        BlindToOutputs
        → Keeps seen (
            if_exists b h w
              (text "out" ∷ [])
              (if_exists b h w (text "out" ∷ text "views" ∷ []) (read_outputs b h w)))
    unfolding read_outputs
    Keeps-outputs blind = Keeps-if_exists (text "out" ∷ []) _ (
        Keeps-if_exists (text "out" ∷ text "views" ∷ []) (read_outputs b h w) (
          Keeps-lift seen _ _ λ names.
            Keeps-for_each seen _ names
              (λ name. Keeps-output_dataset (group_of b h w (text "out") name) blind)))

    pub Keeps-read_metadata :
        ((f : Replayer → Dict Text Text) (s : Replayer)
          → seen (record s { metadata = f s }) ≡ seen s)
        → Keeps seen (read_metadata b h w)
    unfolding read_metadata read_hdf5_metadata
    Keeps-read_metadata blind = Keeps-lift seen _ _ λ names. Keeps-for_each seen _ names (λ name.
        Keeps-lift seen (get_string (λ slot. h.read (text "metadata" ∷ []) slot w) name)
          (λ value s. (ok tt, record s { metadata = insert_metadata name value s.metadata }))
          (λ value. record { keeps = λ s. blind (λ s. insert_metadata name value s.metadata) s }))
