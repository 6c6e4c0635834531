-- ===== src/RoundTrip/Launches.antt =====
-- The replayed `parallel_for` is the captured one.
use kokkos_kernel_forge.Base.{
  ℕ, ◌^◌, ◌<◌, ◌≡◌, refl, subst, true, false, none, some, List, [], ◌∷◌, arith, length,
  if◌then◌else◌,
}
use kokkos_kernel_forge.Base.Int.{ℤ, pos, negsuc, is_negative, FitsSigned, to_word, from_word}
use kokkos_kernel_forge.Extract.Bounds.{
  KokkosPolicy, KokkosTeam, count, range, mdrange, team, index_type_to_u64,
}
use kokkos_kernel_forge.Replay.Policy.{
  IndexType, int8, uint8, int16, uint16, int32, uint32, int64, uint64,
}
use kokkos_kernel_forge.Replay.Visitor.{
  Outcome, launches_count, launches_range, launches_mdrange, launches_team, FunctorTraits,
  index_from_u64, copy_array, is_unknown, visit,
}
use kokkos_kernel_forge.RoundTrip.Policies.{replayed}

-- The value belongs to the index type.
abbrev pub FitsUnsigned : ℕ → ℤ → Type 0
FitsUnsigned bound (pos n) = n < bound
FitsUnsigned bound (negsuc n) = ⊥

abbrev pub FitsIndex : IndexType → ℤ → Type 0
FitsIndex int8 z = FitsSigned (2 ^ 7) z
FitsIndex uint8 z = FitsUnsigned (2 ^ 8) z
FitsIndex int16 z = FitsSigned (2 ^ 15) z
FitsIndex uint16 z = FitsUnsigned (2 ^ 16) z
FitsIndex int32 z = FitsSigned (2 ^ 31) z
FitsIndex uint32 z = FitsUnsigned (2 ^ 32) z
FitsIndex int64 z = FitsSigned (2 ^ 63) z
FitsIndex uint64 z = FitsUnsigned (2 ^ 64) z

-- An index of each of the eight types is the same after its way through a 64-bit word.
pub index_from_u64-index_type_to_u64 :
    (t : IndexType) (z : ℤ) → FitsIndex t z → index_from_u64 t (index_type_to_u64 t z) ≡ z
unfolding index_from_u64 index_type_to_u64 to_word from_word
index_from_u64-index_type_to_u64 int8 (pos n) h = ground arith
index_from_u64-index_type_to_u64 int8 (negsuc n) h = ground arith
index_from_u64-index_type_to_u64 t (pos n) h = ground arith
index_from_u64-index_type_to_u64 t (negsuc n) h = ground arith

pub copy_array-exact : (xs : List ℤ) → copy_array (length xs) xs ≡ some xs
unfolding copy_array
copy_array-exact [] = refl
copy_array-exact (x ∷ xs) = rw (copy_array-exact xs)

copies : (rank : ℕ) (xs : List ℤ) → length xs ≡ rank → copy_array rank xs ≡ some xs
copies rank xs h = subst (λ r. copy_array r xs ≡ some xs) h (copy_array-exact xs)

-- The `parallel_for` of the captured program, for policies that have no `WorkTag` and no `LaunchBounds`.
abbrev pub captured : KokkosPolicy → Outcome
captured (count n) = launches_count n
captured (range p) = launches_range (record {
  space = p.space;
  schedule = p.schedule;
  index_type = p.index_type;
  begin = p.begin;
  end = p.end;
  chunk_size = p.chunk_size;
})
captured (mdrange p) = launches_mdrange (record {
  space = p.space;
  schedule = p.schedule;
  index_type = p.index_type;
  rank = p.rank;
  outer_dir = p.outer_direction;
  inner_dir = p.inner_direction;
  start = p.lower;
  end = p.upper;
  tile = p.tile;
})
captured (team p) = launches_team (record {
  space = p.space;
  schedule = p.schedule;
  index_type = p.index_type;
  league_size = p.league_size;
  team_size = if p.auto_team_size then none else some p.team_size;
  vector_length = if p.auto_vector_length then none else some p.vector_length;
  scratch = some (
    record { per_team = p.team_scratch_0; per_thread = p.thread_scratch_0 },
    record { per_team = p.team_scratch_1; per_thread = p.thread_scratch_1 },
  );
  chunk_size = p.chunk_size;
})

-- What Kokkos guarantees of a policy: indices of its type, points of its rank, sizes that are not
-- negative.
abbrev pub WellFormed : KokkosPolicy → Type 0
WellFormed (count n) = Unit
WellFormed (range p) = FitsIndex p.index_type p.begin × FitsIndex p.index_type p.end
WellFormed (mdrange p) =
    (length p.lower ≡ p.rank) × (length p.upper ≡ p.rank) × (length p.tile ≡ p.rank)
WellFormed (team p) =
    (is_negative p.team_size ≡ false)
    × (is_negative p.vector_length ≡ false)
    × (is_negative p.team_scratch_0 ≡ false)

-- The replayed program can restore the policy: the Kokkos of the captured program tells the scratch sizes of a
-- `TeamPolicy`.
abbrev pub IsRestorable : KokkosPolicy → Type 0
IsRestorable (count n) = Unit
IsRestorable (range p) = Unit
IsRestorable (mdrange p) = Unit
IsRestorable (team p) = p.supports_querying_scratch_size ≡ true

-- The functor can be called as the policy calls it.
abbrev pub Callable : FunctorTraits → KokkosPolicy → Type 0
Callable f (count n) = f.supports_n_args 1 ≡ true
Callable f (range p) = f.supports_n_args 1 ≡ true
Callable f (mdrange p) = f.supports_n_args p.rank ≡ true
Callable f (team p) = f.is_team_functor ≡ true

not_unknown : (z : ℤ) → is_negative z ≡ false → is_unknown z ≡ false
not_unknown (pos n) h = refl
not_unknown (negsuc n) h = cc

visit_team-replayed :
    (f : FunctorTraits) (p : KokkosTeam)
    → WellFormed (team p)
    → IsRestorable (team p)
    → Callable f (team p)
    → visit f (replayed (team p)) ≡ captured (team p)
unfolding visit
visit_team-replayed f p h r c = rw (c, r) (ground (arith, h, not_unknown p.team_scratch_0 h.2))

-- The replayer launches the policy of the captured program, with the functor's call operator: the
-- same kind, space, schedule, index type, bounds, tiles, directions, chunk size, team and scratch sizes, and AUTO where
-- the program left the choice to Kokkos. (For a policy as Kokkos makes them, with indices of its type and points
-- of its rank, that has no `WorkTag` and no `LaunchBounds`, which are not restored, and whose scratch sizes, for a
-- `TeamPolicy`, the Kokkos of the captured program can be asked for; and for a functor that can be called as the
-- policy calls it.)
pub visit-replayed :
    (f : FunctorTraits) (p : KokkosPolicy)
    → WellFormed p
    → IsRestorable p
    → Callable f p
    → visit f (replayed p) ≡ captured p
unfolding visit
visit-replayed f (count n) h r c = rw c
visit-replayed f (range p) h r c = rw (
  c,
  index_from_u64-index_type_to_u64 p.index_type p.begin h.0,
  index_from_u64-index_type_to_u64 p.index_type p.end h.1,
)
visit-replayed f (mdrange p) h r c =
    rw (c, copies p.rank p.lower h.0, copies p.rank p.upper h.1, copies p.rank p.tile h.2)
visit-replayed f (team p) h r c = visit_team-replayed f p h r c
