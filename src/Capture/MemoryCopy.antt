-- ===== src/Capture/MemoryCopy.antt =====
-- src/krepe/capture/memory_copy.cpp: the bytes of an allocation for a dump, or the reason why they
-- are skipped.
use kokkos_kernel_forge.Base.{
  ℕ, ◌≡◌, ◌≢◌, refl, sym, inl, inr, Bool, true, Option, none, some, List, [], ◌∷◌, ◌++◌, ◌&&◌, ◌||◌,
  not, ◌==◌, nat_eq, arith, if◌then◌else◌, length, Bool-cases,
}
use kokkos_kernel_forge.Base.Text.{Text, text, text_Eq, text_eq_iff}
use kokkos_kernel_forge.Capture.Tracker.{AllocationRecord, ActiveAllocation}

-- What the build and the machine do. `resize` fails with the message of the exception; a device
-- copy fails with the message of the runtime.
pub record Memory : Type 0 where
  pub enable_cuda_dump : Bool
  pub enable_hip_dump : Bool
  pub resize_error : ℕ → Option Text
  pub memcpy : ℕ → ℕ → List ℕ
  pub cuda_error : ℕ → ℕ → Option Text
  pub cuda_memcpy : ℕ → ℕ → List ℕ
  pub hip_error : ℕ → ℕ → Option Text
  pub hip_memcpy : ℕ → ℕ → List ℕ

-- A copy fills the whole buffer.
pub record CopiesAll (m : Memory) : Type 0 where
  pub length-memcpy : (address size : ℕ) → length (m.memcpy address size) ≡ size
  pub length-cuda_memcpy : (address size : ℕ) → length (m.cuda_memcpy address size) ≡ size
  pub length-hip_memcpy : (address size : ℕ) → length (m.hip_memcpy address size) ≡ size

unfoldable pub is_host_accessible_space : Text → Bool
is_host_accessible_space space =
    space == text "Host"
    || (space == text "CudaHostPinned"
        || (space == text "CudaUVM"
            || (space == text "HIPHostPinned"
                || (space == text "HIPManaged"
                    || (space == text "SYCLHostUSM"
                        || (space == text "SYCLSharedUSM"
                            || space == text "NextSiliconSharedSpace"))))))

unfoldable pub is_cuda_device_space : Text → Bool
is_cuda_device_space space = space == text "Cuda"

unfoldable pub is_hip_device_space : Text → Bool
is_hip_device_space space = space == text "HIP"

-- The reason, which is empty when the bytes were copied, and the bytes.
abbrev pub Copied : Type 0
Copied = Text × List ℕ

abbrev pub or_failed : Option Text → Text → List ℕ → Copied
or_failed none message bytes = ([], bytes)
or_failed (some error) message bytes = (message ++ error, [])

unfoldable pub internal_error : Text
unfolding text
internal_error = text "internal error: no copy path selected"

-- The copy itself, from a pointer that is not null.
unfoldable pub copy_bytes : Memory → Text → ℕ → ℕ → Copied
unfolding is_host_accessible_space is_cuda_device_space is_hip_device_space internal_error text
copy_bytes m space address size =
    if is_host_accessible_space space
    then ([], m.memcpy address size)
    else if m.enable_cuda_dump && is_cuda_device_space space
    then or_failed (m.cuda_error address size) (text "cudaMemcpyDeviceToHost failed: ")
        (m.cuda_memcpy address size)
    else if m.enable_hip_dump && is_hip_device_space space
    then or_failed (m.hip_error address size) (text "hipMemcpyDeviceToHost failed: ")
        (m.hip_memcpy address size)
    else (internal_error, [])

abbrev pub staged : Option Text → Option Text
staged none = none
staged (some error) = some (text "could not allocate host staging buffer: " ++ error)

-- The reason, if any.
unfoldable pub allocate_staging_buffer : Memory → AllocationRecord → Option Text
unfolding text
allocate_staging_buffer m r = staged (m.resize_error r.size)

-- Behind the tests of the space: what the staging buffer answers, then the pointer.
unfoldable pub stage_and_copy : Memory → AllocationRecord → Option Text → Copied
unfolding copy_bytes text
stage_and_copy m r (some reason) = (reason, [])
stage_and_copy m r none =
    if r.p_data == 0
    then (text "allocation data pointer is null", [])
    else copy_bytes m r.space r.p_data r.size

-- The caller's vector is empty before the call.
unfoldable pub copy_allocation_bytes : Memory → ActiveAllocation → Copied
unfolding is_host_accessible_space is_cuda_device_space is_hip_device_space allocate_staging_buffer
    stage_and_copy text
copy_allocation_bytes m a =
    let r = a.allocation in
    if not r.data_size_known
    then (text "allocation data size could not be bounded safely", [])
    else if r.size == 0
    then ([], [])
    else if not (is_host_accessible_space r.space)
        && (not (is_cuda_device_space r.space) && not (is_hip_device_space r.space))
    then (text "memory space is not supported for raw byte dumps", [])
    else if not m.enable_cuda_dump && is_cuda_device_space r.space
    then (text "CUDA dump support was not enabled at build time", [])
    else if not m.enable_hip_dump && is_hip_device_space r.space
    then (text "HIP dump support was not enabled at build time", [])
    else stage_and_copy m r (allocate_staging_buffer m r)

-- The bytes at the address of the data, read by the copy that the space asks for.
pub data CopyOf (m : Memory) (r : AllocationRecord) : List ℕ → Type 0 where
  nothing : r.size ≡ 0 → CopyOf m r []
  from_host :
      r.p_data ≢ 0 → is_host_accessible_space r.space ≡ true → CopyOf m r (m.memcpy r.p_data r.size)
  from_cuda :
      r.p_data ≢ 0
      → r.space ≡ text "Cuda"
      → m.enable_cuda_dump ≡ true
      → m.cuda_error r.p_data r.size ≡ none
      → CopyOf m r (m.cuda_memcpy r.p_data r.size)
  from_hip :
      r.p_data ≢ 0
      → r.space ≡ text "HIP"
      → m.enable_hip_dump ≡ true
      → m.hip_error r.p_data r.size ≡ none
      → CopyOf m r (m.hip_memcpy r.p_data r.size)

length-CopyOf :
    (m : Memory) (laws : CopiesAll m) (r : AllocationRecord) (bytes : List ℕ)
    → CopyOf m r bytes
    → length bytes ≡ r.size
length-CopyOf m laws r bytes (nothing e) = sym e
length-CopyOf m laws r bytes (from_host p s) = laws.length-memcpy r.p_data r.size
length-CopyOf m laws r bytes (from_cuda p s on fine) = laws.length-cuda_memcpy r.p_data r.size
length-CopyOf m laws r bytes (from_hip p s on fine) = laws.length-hip_memcpy r.p_data r.size

module _ (m : Memory) (r : AllocationRecord) where
  -- The bytes are copied, or there is a reason.
  abbrev IsWhole : Copied → Type 0
  IsWhole c = c.0 ≡ [] → CopyOf m r c.1

  IsWhole-or_failed :
      (error : Option Text) (c : ℕ) (message : Text) (bytes : List ℕ)
      → (error ≡ none → CopyOf m r bytes)
      → IsWhole (or_failed error (c ∷ message) bytes)
  IsWhole-or_failed none c message bytes h e = h refl
  IsWhole-or_failed (some error) c message bytes h e = cc

  IsWhole-copy_bytes : r.p_data ≢ 0 → IsWhole (copy_bytes m r.space r.p_data r.size)
  unfolding copy_bytes is_cuda_device_space is_hip_device_space internal_error text
  IsWhole-copy_bytes there = elim (Bool-cases (is_host_accessible_space r.space)) [
    | inl h ↦ rw h (λ e. from_host there h)
    | inr h ↦ rw h (elim (Bool-cases (m.enable_cuda_dump && is_cuda_device_space r.space)) [
      | inl c ↦
          let (on, named) : (m.enable_cuda_dump ≡ true) × (is_cuda_device_space r.space ≡ true) =
            ground (arith, c) in
          rw c (
            IsWhole-or_failed (m.cuda_error r.p_data r.size) _ _ _
              (from_cuda there ((text_eq_iff r.space (text "Cuda")).0 named) on))
      | inr c ↦ rw c (elim (Bool-cases (m.enable_hip_dump && is_hip_device_space r.space)) [
        | inl d ↦
            let (on, named) : (m.enable_hip_dump ≡ true) × (is_hip_device_space r.space ≡ true) =
              ground (arith, d) in
            rw d (
              IsWhole-or_failed (m.hip_error r.p_data r.size) _ _ _
                (from_hip there ((text_eq_iff r.space (text "HIP")).0 named) on))
        | inr d ↦ rw d (λ e. cc)
      ])
    ])
  ]

  IsWhole-stage_and_copy : (error : Option Text) → IsWhole (stage_and_copy m r (staged error))
  unfolding stage_and_copy text
  IsWhole-stage_and_copy (some error) = λ e. cc
  IsWhole-stage_and_copy none = elim (Bool-cases (r.p_data == 0)) [
    | inl h ↦ rw h (λ e. cc)
    | inr h ↦ rw h (IsWhole-copy_bytes (ground (arith, h)))
  ]

copied-whole :
    (m : Memory) (a : ActiveAllocation)
    → (copy_allocation_bytes m a).0 ≡ []
    → (a.allocation.data_size_known ≡ true) × CopyOf m a.allocation (copy_allocation_bytes m a).1
unfolding copy_allocation_bytes allocate_staging_buffer text
copied-whole m a e =
    let empty : a.allocation.size ≡ 0 → CopyOf m a.allocation [] = λ z. nothing z in
    let last = IsWhole-stage_and_copy m a.allocation (m.resize_error a.allocation.size) in
    ground (arith, empty, last)

-- When no reason is given, the size of the data is known and the bytes are those at the address of the data, all of
-- them: none for an empty allocation, else what `memcpy` gives for a space of the host, the copy of CUDA for "Cuda"
-- and that of HIP for "HIP", where the build has it and it reports no error. (For copies that fill the buffer.)
pub copy_allocation_bytes-whole :
    (m : Memory) (laws : CopiesAll m) (a : ActiveAllocation)
    → (copy_allocation_bytes m a).0 ≡ []
    → (a.allocation.data_size_known ≡ true)
      × CopyOf m a.allocation (copy_allocation_bytes m a).1
      × (length (copy_allocation_bytes m a).1 ≡ a.allocation.size)
copy_allocation_bytes-whole m laws a done =
    let (known, copied) = copied-whole m a done in
    (known, copied, length-CopyOf m laws a.allocation _ copied)

-- Some copy is there for the space.
abbrev HasCopy : Memory → Text → Type 0
HasCopy m space =
    (is_host_accessible_space space
      || ((m.enable_cuda_dump && is_cuda_device_space space)
          || (m.enable_hip_dump && is_hip_device_space space)))
    ≡ true

starts_otherwise : (c : ℕ) (message : Text) → c ≢ b'i' → (c ∷ message) ≢ internal_error
unfolding internal_error text
starts_otherwise c message h e = h cc

selected-or_failed :
    (error : Option Text) (c : ℕ) (message : Text) (bytes : List ℕ)
    → c ≢ b'i'
    → (or_failed error (c ∷ message) bytes).0 ≢ internal_error
unfolding internal_error text
selected-or_failed none c message bytes h e = cc
selected-or_failed (some error) c message bytes h e = starts_otherwise c (message ++ error) h e

selected-copy_bytes :
    (m : Memory) (space : Text) (address size : ℕ)
    → HasCopy m space
    → (copy_bytes m space address size).0 ≢ internal_error
unfolding copy_bytes internal_error text
selected-copy_bytes m space address size has = elim (Bool-cases (is_host_accessible_space space)) [
  | inl h ↦ rw h (λ e. cc)
  | inr h ↦ rw h (elim (Bool-cases (m.enable_cuda_dump && is_cuda_device_space space)) [
    | inl c ↦ rw c (selected-or_failed (m.cuda_error address size) _ _ _ (omega arith))
    | inr c ↦
        let d : (m.enable_hip_dump && is_hip_device_space space) ≡ true =
          ground (arith, h, c, has) in
        rw (c, d) (selected-or_failed (m.hip_error address size) _ _ _ (omega arith))
  ])
]

selected-stage_and_copy :
    (m : Memory) (r : AllocationRecord) (error : Option Text)
    → HasCopy m r.space
    → (stage_and_copy m r (staged error)).0 ≢ internal_error
unfolding stage_and_copy internal_error text
selected-stage_and_copy m r (some error) has = starts_otherwise _ _ (omega arith)
selected-stage_and_copy m r none has = elim (Bool-cases (r.p_data == 0)) [
  | inl h ↦ rw h (starts_otherwise _ _ (omega arith))
  | inr h ↦ rw h (selected-copy_bytes m r.space r.p_data r.size has)
]

-- The last return, "internal error: no copy path selected", is never reached: a space that passes the
-- tests before it has a copy.
pub copy_allocation_bytes-ne-internal_error :
    (m : Memory) (a : ActiveAllocation) → (copy_allocation_bytes m a).0 ≢ internal_error
unfolding copy_allocation_bytes allocate_staging_buffer internal_error text
copy_allocation_bytes-ne-internal_error m a =
    let other = selected-stage_and_copy m a.allocation (m.resize_error a.allocation.size) in
    ground (arith, other)
