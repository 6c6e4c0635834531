-- ===== src/Replay/Guard/Mapped.antt =====
-- The memory that the constructor of `ScopeGuard` maps on the host holds the data of all views of the host.
use kokkos_kernel_forge.Base.{
  ℕ, ◌+◌, ◌^◌, ◌≤◌, ◌<◌, ◌≡◌, subst, inl, inr, some, List, [], ◌∷◌, ◌==◌, nat_eq, arith, length,
  All, All-imp, Bool-cases,
}
use kokkos_kernel_forge.Base.Text.{Text, text}
use kokkos_kernel_forge.Base.Result.{Result, ok, err, Result-cases, >>=-eq-ok}
use kokkos_kernel_forge.Base.Result as Result
use kokkos_kernel_forge.Base.Exec.{continue-eq-ok}
use kokkos_kernel_forge.Common.Hdf5.{Hdf5}
use kokkos_kernel_forge.Replay.Space.{host, MemorySpaceType-cases}
use kokkos_kernel_forge.Replay.Regions.{
  Region, get_allocation_address, insert_region, compute_allocations,
}
use kokkos_kernel_forge.Replay.Regions.Align.{Encloses, get_allocation_address-Encloses}
use kokkos_kernel_forge.Replay.Regions.Merge.{
  Holds, Covers, Fits, IsOrdered, insert_region-IsOrdered, insert_region-Fits,
  compute_allocations-Covers,
}
use kokkos_kernel_forge.Replay.Policy.{Group}
use kokkos_kernel_forge.Replay.Views.{get_hdf5_dataset_alloc_info, insert_unless_empty, buffer_size}
use kokkos_kernel_forge.Replay.Guard.{Build, Replayer, platform_of, allocate_all}
use kokkos_kernel_forge.Replay.Guard.Construct.{collect, group_of, reserve}
use kokkos_kernel_forge.Replay.Guard.Ranges.{insert_region-Covers, allocate_all-Covers}
use kokkos_kernel_forge.Replay.Guard.Restored.{View, Describes, space_of, short_size}

-- Data of the host below the end of the address space.
abbrev pub FitsBelow : Build → View → Type 0
FitsBelow b v = v.address + length v.bytes + b.page_size < 2 ^ 64

-- What a set of ranges must be for `compute_allocations`, and the data that it has.
pub record Collected (b : Build) (before after : List Region) : Type 0 where
  pub ordered : IsOrdered after
  fit : All Fits after
  more : (x : ℕ) → Covers x before → Covers x after

abbrev pub HasData : View → List Region → Type 0
HasData v locs = (x : ℕ) → v.address ≤ x → x < v.address + length v.bytes → Covers x locs

enclosed_Fits :
    (g target size : ℕ) (r : Region)
    → Encloses g target size r
    → target + size + g < 2 ^ 64
    → Fits r
enclosed_Fits g target size r e h = omega (arith, e.tight_above)

enclosed_Holds :
    (g target size : ℕ) (r : Region) (x : ℕ)
    → Encloses g target size r
    → target ≤ x
    → x < target + size
    → Holds x r
enclosed_Holds g target size r x e p q = (omega (arith, e.below), omega (arith, e.above))

-- One range more, around data that is not empty.
inserted :
    (b : Build) (v : View) (r : Region) (locs : List Region)
    → Encloses b.page_size v.address (length v.bytes) r
    → FitsBelow b v
    → IsOrdered locs
    → All Fits locs
    → Collected b locs (insert_region r locs) × HasData v (insert_region r locs)
inserted b v r locs e below o f = (
  record {
    ordered = insert_region-IsOrdered r locs o;
    fit =
        insert_region-Fits r locs (enclosed_Fits b.page_size v.address (length v.bytes) r e below)
          f;
    more = λ x h. insert_region-Covers x r locs (inr h);
  },
  λ x p q.
      insert_region-Covers x r locs
        (inl (enclosed_Holds b.page_size v.address (length v.bytes) r x e p q)),
)

same_ranges :
    (b : Build) (v : View) (locs : List Region)
    → IsOrdered locs
    → All Fits locs
    → length v.bytes ≡ 0
    → Collected b locs locs × HasData v locs
same_ranges b v locs o f empty =
    (record { ordered = o; fit = f; more = λ x h. h }, λ x p q. absurd (omega arith))

unless_empty :
    (b : Build) (v : View) (locs after : List Region)
    → 0 < b.page_size
    → length v.bytes < 2 ^ 31
    → FitsBelow b v
    → IsOrdered locs
    → All Fits locs
    → insert_unless_empty (platform_of b) host v.address (buffer_size (length v.bytes)) locs
      ≡ ok after
    → Collected b locs after × HasData v after
unfolding insert_unless_empty
unless_empty b v locs after page short below o f done =
    let n = length v.bytes in
    elim (Bool-cases (n == 0)) [
      | inl none_there ↦
          let same : ok locs ≡ ok after = rw (short_size n short, none_there) at done in
          subst (λ l. Collected b locs l × HasData v l) (cc same)
            (same_ranges b v locs o f (ground arith))
      | inr some_there ↦
          let step : (Result.◌>>=◌ (get_allocation_address (platform_of b) v.address n host)
                (λ r. ok (insert_region r locs)))
              ≡ ok after =
            rw (short_size n short, some_there) at done in
          let (r, found, put) =
            >>=-eq-ok (get_allocation_address (platform_of b) v.address n host)
              (λ r. ok (insert_region r locs)) step in
          let pos : 0 < n = ground (arith, some_there) in
          let around : Encloses b.page_size v.address n r =
            rw found at (
              get_allocation_address-Encloses (platform_of b) v.address n host pos (page, below)) in
          subst (λ l. Collected b locs l × HasData v l) (cc put)
            (inserted b v r locs around below o f)
    ]

-- The steps for one view; what is of another space adds no range.
abbrev pub HostHasData : View → List Region → Type 0
HostHasData v locs = space_of v ≡ host → HasData v locs

one-Collected :
    (b : Build) (group : Group) (v : View) (locs after : List Region)
    → 0 < b.page_size
    → Describes group v
    → (space_of v ≡ host → FitsBelow b v)
    → IsOrdered locs
    → All Fits locs
    → get_hdf5_dataset_alloc_info (platform_of b) host group locs ≡ ok after
    → Collected b locs after × HostHasData v after
unfolding get_hdf5_dataset_alloc_info
one-Collected b group v locs after page d below o f done =
    elim (MemorySpaceType-cases (space_of v)) [
      | inl here ↦
          let (all, has) =
            unless_empty b v locs after page d.short (below here) o f
              (rw (d.space, d.pointer, d.address, here, d.bytes) at done) in
          (all, λ e. has)
      | inr there ↦
          let same : ok locs ≡ ok after = rw (d.space, d.pointer, d.address, there) at done in
          (
            subst (λ l. Collected b locs l) (cc same)
                (record { ordered = o; fit = f; more = λ x h. h }),
            λ e. absurd (cc),
          )
    ]

abbrev pub AllFit : Build → (Text → Group) → List Text → List View → Type 0
AllFit b group_of [] [] = Unit
AllFit b group_of [] (v ∷ vs) = ⊥
AllFit b group_of (name ∷ names) [] = ⊥
AllFit b group_of (name ∷ names) (v ∷ vs) =
    Describes (group_of name) v × (space_of v ≡ host → FitsBelow b v) × AllFit b group_of names vs

HostHasData-mono :
    (b : Build) (locs after : List Region) (v : View)
    → Collected b locs after
    → HostHasData v locs
    → HostHasData v after
HostHasData-mono b locs after v c has e x p q = c.more x (has e x p q)

pub All-Collected :
    (b : Build) (group_of : Text → Group) (names : List Text) (vs : List View)
    (locs after : List Region)
    → 0 < b.page_size
    → AllFit b group_of names vs
    → IsOrdered locs
    → All Fits locs
    → collect b host group_of names locs ≡ ok after
    → Collected b locs after × All (λ v. HostHasData v after) vs
unfolding collect
All-Collected b group_of [] [] locs after page h o f done =
    subst (λ l. Collected b locs l × Unit {0}) (cc done)
      (record { ordered = o; fit = f; more = λ x k. k }, tt)
All-Collected b group_of [] (v ∷ vs) locs after page h o f done = elim h [ ]
All-Collected b group_of (name ∷ names) [] locs after page h o f done = elim h [ ]
All-Collected b group_of (name ∷ names) (v ∷ vs) locs after page (d, below, rest) o f done =
    let (next, found, later) =
      >>=-eq-ok (get_hdf5_dataset_alloc_info (platform_of b) host (group_of name) locs)
        (collect b host group_of names) done in
    let (one, has) = one-Collected b (group_of name) v locs next page d below o f found in
    let (others, all) =
      All-Collected b group_of names vs next after page rest one.ordered one.fit later in
    (
      record {
        ordered = others.ordered;
        fit = others.fit;
        more = λ x k. others.more x (one.more x k);
      },
      (HostHasData-mono b next after v others has, all),
    )

-- When the reservation on the host returns, every byte of every view of the host lies in a range that is mapped then.
-- (The groups of `in/views` describe the views, whose data is shorter than 2 ^ 31 bytes and lies
-- a page below the end of the address space.)
pub reserve-HasData :
    {W : Type 0} (b : Build) (h : Hdf5 W) (w : W) (names : List Text) (vs : List View)
    (s : Replayer)
    → 0 < b.page_size
    → h.children (text "in" ∷ text "views" ∷ []) w ≡ some names
    → AllFit b (group_of b h w (text "in")) names vs
    → (reserve b h w host s).0 ≡ ok tt
    → All (λ v. HostHasData v (reserve b h w host s).1.machine.host_memory.mapped) vs
unfolding reserve
reserve-HasData b h w names vs s page visited fit done =
    let group_at = group_of b h w (text "in") in
    let (locs, got, fine, same) =
      continue-eq-ok (collect b host group_at names [])
        (λ locs. allocate_all b host (compute_allocations locs)) s (rw visited at done) in
    let (all, has) = All-Collected b group_at names vs [] locs page fit tt tt got in
    rw (visited, same)
      (All-imp (λ v. HostHasData v locs) _ vs
        (λ v has_data e x p q.
          allocate_all-Covers b (compute_allocations locs) s x fine
            (inl ((compute_allocations-Covers x locs all.fit all.ordered).1 (has_data e x p q))))
        has)
