-- ===== src/Replay/Visitor.antt =====
-- `ParallelForVisitor` and the builders of policies in src/krepe/replay/kernel_replayer.hpp: the call of
-- `Kokkos::parallel_for` that a replayed policy becomes.
use kokkos_kernel_forge.Base.{
  ℕ, zero, suc, ◌*◌, ◌%◌, ◌^◌, Bool, false, Option, none, some, List, [], ◌∷◌, ◌==◌, nat_eq,
  if◌then◌else◌,
}
use kokkos_kernel_forge.Base.Int.{ℤ, pos, negsuc, is_negative, to_word, from_word}
use kokkos_kernel_forge.Replay.Policy.{
  IndexType, int8, uint8, int16, uint16, int32, uint32, int64, uint64, Schedule, ExecSpace, Iterate,
  RangePolicyDesc, MdRangePolicyDesc, TeamPolicyDesc, ReplayPolicy, no_policy, scalar, range,
  mdrange, team,
}

pub record RangeLaunch : Type 0 where
  pub space : ExecSpace
  pub schedule : Schedule
  pub index_type : IndexType
  pub begin : ℤ
  pub end : ℤ
  pub chunk_size : ℤ

pub record MdRangeLaunch : Type 0 where
  pub space : ExecSpace
  pub schedule : Schedule
  pub index_type : IndexType
  pub rank : ℕ
  pub outer_dir : Iterate
  pub inner_dir : Iterate
  pub start : List ℤ
  pub end : List ℤ
  pub tile : List ℤ

-- The scratch sizes of a level: per team and per thread.
pub record Scratch : Type 0 where
  pub per_team : ℤ
  pub per_thread : ℤ

-- `none` is `Kokkos::AUTO`, and for the scratch sizes that they are not set.
pub record TeamLaunch : Type 0 where
  pub space : ExecSpace
  pub schedule : Schedule
  pub index_type : IndexType
  pub league_size : ℤ
  pub team_size : Option ℤ
  pub vector_length : Option ℤ
  pub scratch : Option (Scratch × Scratch)
  pub chunk_size : ℤ

-- What a visit comes to: a call of `Kokkos::parallel_for` with that policy, no call, an exception,
-- or an access behind the end of a vector.
pub data Outcome : Type 0 where
  launches_count : ℕ → Outcome
  launches_range : RangeLaunch → Outcome
  launches_mdrange : MdRangeLaunch → Outcome
  launches_team : TeamLaunch → Outcome
  nothing throws undefined : Outcome

-- What the compiler knows of the functor: the numbers of `int`s that it can be called with, and
-- whether it can be called with a team member.
pub record FunctorTraits : Type 0 where
  pub supports_n_args : ℕ → Bool
  pub is_team_functor : Bool

-- A bit cast to `std::int64_t` and the conversion to the index type of `2 * half` values.
abbrev pub signed_index : ℕ → ℕ → ℤ
signed_index half n = from_word half (to_word (2 * half) (from_word (2 ^ 63) n))

unfoldable pub index_from_u64 : IndexType → ℕ → ℤ
index_from_u64 int8 n = signed_index (2 ^ 7) n
index_from_u64 uint8 n = pos (n % 2 ^ 8)
index_from_u64 int16 n = signed_index (2 ^ 15) n
index_from_u64 uint16 n = pos (n % 2 ^ 16)
index_from_u64 int32 n = signed_index (2 ^ 31) n
index_from_u64 uint32 n = pos (n % 2 ^ 32)
index_from_u64 int64 n = signed_index (2 ^ 63) n
index_from_u64 uint64 n = pos (n % 2 ^ 64)

unfoldable pub visit_range : FunctorTraits → RangePolicyDesc → Outcome
visit_range f p =
    if f.supports_n_args 1
    then launches_range (record {
      space = p.exec_space;
      schedule = p.schedule;
      index_type = p.index_type;
      begin = index_from_u64 p.index_type p.begin;
      end = index_from_u64 p.index_type p.end;
      chunk_size = p.chunk_size;
    })
    else nothing

-- The loop that copies `rank` entries of a vector into an array; `none` when the vector is shorter.
unfoldable pub copy_array : ℕ → List ℤ → Option (List ℤ)
copy_array zero xs = some []
copy_array (suc rank) [] = none
copy_array (suc rank) (x ∷ xs) = elim (copy_array rank xs) [
  | none ↦ none
  | some rest ↦ some (x ∷ rest)
]

abbrev pub with_arrays :
    MdRangePolicyDesc → Option (List ℤ) → Option (List ℤ) → Option (List ℤ) → Outcome
with_arrays p (some start) (some end) (some tile) = launches_mdrange (record {
  space = p.exec_space;
  schedule = p.schedule;
  index_type = p.index_type;
  rank = p.rank;
  outer_dir = p.outer_iter_dir;
  inner_dir = p.inner_iter_dir;
  start = start;
  end = end;
  tile = tile;
})
with_arrays p _ _ _ = undefined

unfoldable pub visit_mdrange : FunctorTraits → MdRangePolicyDesc → Outcome
unfolding copy_array
visit_mdrange f p =
    if f.supports_n_args p.rank
    then with_arrays p (copy_array p.rank p.begin) (copy_array p.rank p.end)
        (copy_array p.rank p.tile)
    else nothing

abbrev pub or_auto : ℤ → Option ℤ
or_auto z = if is_negative z then none else some z

abbrev pub is_unknown : ℤ → Bool
is_unknown (pos n) = false
is_unknown (negsuc n) = n == 0

unfoldable pub get_team_policy : TeamPolicyDesc → TeamLaunch
get_team_policy p = record {
  space = p.exec_space;
  schedule = p.schedule;
  index_type = p.index_type;
  league_size = p.league_size;
  team_size = or_auto p.team_size;
  vector_length = or_auto p.vector_length;
  scratch =
      if is_unknown p.team_scratch_0
      then none
      else some (
        record { per_team = p.team_scratch_0; per_thread = p.thread_scratch_0 },
        record { per_team = p.team_scratch_1; per_thread = p.thread_scratch_1 },
      );
  chunk_size = p.chunk_size;
}

unfoldable pub visit_team : FunctorTraits → TeamPolicyDesc → Outcome
unfolding get_team_policy
visit_team f p = if f.is_team_functor then launches_team (get_team_policy p) else nothing

unfoldable pub visit : FunctorTraits → ReplayPolicy → Outcome
unfolding visit_range visit_mdrange visit_team
visit f no_policy = throws
visit f (scalar n) = if f.supports_n_args 1 then launches_count n else nothing
visit f (range p) = visit_range f p
visit f (mdrange p) = visit_mdrange f p
visit f (team p) = visit_team f p
