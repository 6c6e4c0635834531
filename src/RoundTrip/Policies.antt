-- ===== src/RoundTrip/Policies.antt =====
-- A policy that is written to a dump is read back from it.
use mathlib.Core.Path.{fun_ext}
use kokkos_kernel_forge.Base.{◌≡◌, ◌∙◌, refl, ap, true, false, some, [], ◌∷◌, ◌++◌}
use kokkos_kernel_forge.Base.Text.{Text, text, text_eq}
use kokkos_kernel_forge.Base.Result.{ok}
use kokkos_kernel_forge.Common.Hdf5.{string_value, Hdf5, IsHdf5, slot_eq}
use kokkos_kernel_forge.Capture.Dump.WritePolicy.{int_of_size, int_of_bool, write_policy}
use kokkos_kernel_forge.Extract.Bounds.{
  KokkosPolicy, KokkosRange, KokkosMdRange, KokkosTeam, count, range, mdrange, team, unless, when,
  index_type_to_u64, iteration_pattern_to_string, schedule_to_string, register_bounds, size_of,
  is_signed,
}
use kokkos_kernel_forge.Replay.Policy.{
  IndexType, Schedule, ExecSpace, KokkosBuild, ReplayPolicy, Group, get_string, get_int, get_uint64,
  get_int64_dataset, get_policy_index_type_from_props, get_policy_exec_space_from_name,
  get_policy_schedule_from_name, iterate_from_name, mdrange_rank, size_of_int, bool_of_int,
  pop_back, as_string, read_range, read_mdrange, read_team, read_kind, read_shared, read_type,
  read_policy, read_policy_from_hdf5,
}
use kokkos_kernel_forge.Replay.Policy as Replay
use kokkos_kernel_forge.RoundTrip.Puts.{with_slot}
use kokkos_kernel_forge.RoundTrip.Names.{
  pop_back-append, index_type-props, schedule-name, iterate-name, documented_name, exec_space-name,
  HasRank, rank-int,
}
use kokkos_kernel_forge.RoundTrip.Writes.{with_policy, puts_policy}

-- What the replayer should hold for a policy of the captured program.
abbrev pub replayed : KokkosPolicy → ReplayPolicy
replayed (count n) = Replay.scalar n
replayed (range p) = Replay.range (record {
  begin = index_type_to_u64 p.index_type p.begin;
  end = index_type_to_u64 p.index_type p.end;
  chunk_size = p.chunk_size;
  index_type = p.index_type;
  schedule = p.schedule;
  exec_space = p.space;
})
replayed (mdrange p) = Replay.mdrange (record {
  begin = p.lower;
  end = p.upper;
  tile = p.tile;
  index_type = p.index_type;
  schedule = p.schedule;
  exec_space = p.space;
  rank = p.rank;
  outer_iter_dir = p.outer_direction;
  inner_iter_dir = p.inner_direction;
})
replayed (team p) = Replay.team (record {
  team_size = unless p.auto_team_size p.team_size;
  league_size = p.league_size;
  vector_length = unless p.auto_vector_length p.vector_length;
  team_scratch_0 = when p.supports_querying_scratch_size p.team_scratch_0;
  team_scratch_1 = when p.supports_querying_scratch_size p.team_scratch_1;
  thread_scratch_0 = when p.supports_querying_scratch_size p.thread_scratch_0;
  thread_scratch_1 = when p.supports_querying_scratch_size p.thread_scratch_1;
  chunk_size = p.chunk_size;
  index_type = p.index_type;
  schedule = p.schedule;
  exec_space = p.space;
})

-- The build of the replayer has the policy's execution space, and its rank.
abbrev pub Supported : KokkosBuild → KokkosPolicy → Type 0
Supported b (count n) = Unit
Supported b (range p) = b.enabled p.space ≡ true
Supported b (mdrange p) = (b.enabled p.space ≡ true) × HasRank b p.rank
Supported b (team p) = b.enabled p.space ≡ true

-- The shared part of a group, for the kinds of policy that have it.
record Shared (g : Group) (type : Text) (t : IndexType) (e : ExecSpace) (s : Schedule)
    : Type 0 where
  type_at : get_string g (text "type") ≡ ok type
  signed_at : get_int g (text "index_type_signed") ≡ ok (int_of_bool (is_signed t))
  size_at : get_int g (text "index_type_size") ≡ ok (int_of_size (size_of t))
  space_at : get_string g (text "space") ≡ ok (documented_name e)
  schedule_at : get_string g (text "schedule") ≡ ok (schedule_to_string s)

read_shared-Shared :
    (b : KokkosBuild) (g : Group) (type : Text) (t : IndexType) (e : ExecSpace) (s : Schedule)
    → Shared g type t e s
    → b.enabled e ≡ true
    → read_shared b g type ≡ read_kind b g type t s e
read_shared-Shared b g type t e s h on =
    unfold read_shared in
    rw (
      h.signed_at,
      h.size_at,
      index_type-props t,
      h.space_at,
      exec_space-name b e on,
      h.schedule_at,
      schedule-name s,
    )

-- What a string attribute of the group reads as.
pub string_at : (v : Text) → as_string (some (string_value (v ++ 0 ∷ []))) ≡ ok v
unfolding as_string
string_at v = ap ok (pop_back-append v 0)

read_policy-Shared :
    (b : KokkosBuild) (g : Group) (type : Text) (t : IndexType) (e : ExecSpace) (s : Schedule)
    → Shared g type t e s
    → b.enabled e ≡ true
    → text_eq type (text "none") ≡ false
    → text_eq type (text "scalar") ≡ false
    → read_policy b g ≡ read_kind b g type t s e
read_policy-Shared b g type t e s h on not_none not_scalar =
    unfold read_policy in
    rw (h.type_at, not_none, not_scalar) (read_shared-Shared b g type t e s h on)

kind_mdrange :
    (b : KokkosBuild) (g : Group) (t : IndexType) (s : Schedule) (e : ExecSpace)
    → read_kind b g (text "mdrange") t s e ≡ read_mdrange b g t s e
unfolding read_kind text_eq text
kind_mdrange b g t s e = refl

module _ (b : KokkosBuild) (g : Group) where
  abbrev written : KokkosPolicy → Group
  written p = with_policy (register_bounds documented_name p) g

  range-Shared :
      (p : KokkosRange) → Shared (written (range p)) (text "range") p.index_type p.space p.schedule
  unfolding register_bounds with_slot slot_eq text_eq text get_string get_int as_string
  range-Shared p = record {
    type_at = refl;
    signed_at = refl;
    size_at = refl;
    space_at = string_at (documented_name p.space);
    schedule_at = string_at (schedule_to_string p.schedule);
  }

  mdrange-Shared :
      (p : KokkosMdRange)
      → Shared (written (mdrange p)) (text "mdrange") p.index_type p.space p.schedule
  unfolding register_bounds with_slot slot_eq text_eq text get_string get_int as_string
  mdrange-Shared p = record {
    type_at = refl;
    signed_at = refl;
    size_at = refl;
    space_at = string_at (documented_name p.space);
    schedule_at = string_at (schedule_to_string p.schedule);
  }

  team-Shared :
      (p : KokkosTeam) → Shared (written (team p)) (text "team") p.index_type p.space p.schedule
  unfolding register_bounds with_slot slot_eq text_eq text get_string get_int as_string
  team-Shared p = record {
    type_at = refl;
    signed_at = refl;
    size_at = refl;
    space_at = string_at (documented_name p.space);
    schedule_at = string_at (schedule_to_string p.schedule);
  }

  range-kind :
      (p : KokkosRange)
      → read_kind b (written (range p)) (text "range") p.index_type p.schedule p.space
        ≡ ok (replayed (range p))
  unfolding register_bounds with_slot slot_eq text_eq text get_uint64 get_int read_kind
  range-kind p = refl

  outer_at :
      (p : KokkosMdRange)
      → get_string (written (mdrange p)) (text "outer_dir")
        ≡ ok (iteration_pattern_to_string p.outer_direction)
  unfolding register_bounds with_slot slot_eq text_eq text get_string
  outer_at p = string_at (iteration_pattern_to_string p.outer_direction)

  inner_at :
      (p : KokkosMdRange)
      → get_string (written (mdrange p)) (text "inner_dir")
        ≡ ok (iteration_pattern_to_string p.inner_direction)
  unfolding register_bounds with_slot slot_eq text_eq text get_string
  inner_at p = string_at (iteration_pattern_to_string p.inner_direction)

  rank_at :
      (p : KokkosMdRange) → get_int (written (mdrange p)) (text "rank") ≡ ok (int_of_size p.rank)
  unfolding register_bounds with_slot slot_eq text_eq text get_int
  rank_at p = refl

  mdrange-points :
      (p : KokkosMdRange)
      → (get_int64_dataset (written (mdrange p)) (text "begin") ≡ ok p.lower)
        × (get_int64_dataset (written (mdrange p)) (text "end") ≡ ok p.upper)
        × (get_int64_dataset (written (mdrange p)) (text "tile") ≡ ok p.tile)
  unfolding register_bounds with_slot slot_eq text_eq text get_int64_dataset
  mdrange-points p = (refl, refl, refl)

  mdrange-kind :
      (p : KokkosMdRange)
      → HasRank b p.rank
      → read_mdrange b (written (mdrange p)) p.index_type p.schedule p.space
        ≡ ok (replayed (mdrange p))
  mdrange-kind p has =
      let points = mdrange-points p in
      unfold read_mdrange in
      rw (
        rank_at p,
        rank-int b p.rank has,
        outer_at p,
        iterate-name p.outer_direction,
        inner_at p,
        iterate-name p.inner_direction,
        points.0,
        points.1,
        points.2,
      )

  team-kind :
      (p : KokkosTeam)
      → read_kind b (written (team p)) (text "team") p.index_type p.schedule p.space
        ≡ ok (replayed (team p))
  unfolding register_bounds with_slot slot_eq text_eq text get_int read_kind
  team-kind p = refl

  read_policy-written :
      (p : KokkosPolicy) → Supported b p → read_policy b (written p) ≡ ok (replayed p)
  read_policy-written (count n) on =
      unfold register_bounds with_slot slot_eq text_eq text get_string get_uint64 read_policy in
      refl
  read_policy-written (range p) on =
      read_policy-Shared b _ _ _ _ _ (range-Shared p) on (unfold text_eq text in refl)
        (unfold text_eq text in refl)
      ∙ range-kind p
  read_policy-written (mdrange p) on =
      read_policy-Shared b _ _ _ _ _ (mdrange-Shared p) on.0 (unfold text_eq text in refl)
        (unfold text_eq text in refl)
      ∙ kind_mdrange b (written (mdrange p)) p.index_type p.schedule p.space
      ∙ mdrange-kind p on.1
  read_policy-written (team p) on =
      read_policy-Shared b _ _ _ _ _ (team-Shared p) on (unfold text_eq text in refl)
        (unfold text_eq text in refl)
      ∙ team-kind p

-- A policy of the captured program, described by `register_bounds` and written to the group `policy` with
-- no failing call, is read back by the replayer as that policy: its kind, bounds, tiles, rank,
-- directions, sizes, index type, schedule and execution space. (Kokkos names its spaces as
-- documented, HDF5 reads what was written, and the replayer is built with the policy's space and rank.)
pub read_policy-write_policy :
    {W : Type 0} (h : Hdf5 W) (laws : IsHdf5 h) (b : KokkosBuild) (space_name : ExecSpace → Text)
    (p : KokkosPolicy) (w : W)
    → ((e : ExecSpace) → space_name e ≡ documented_name e)
    → Supported b p
    → (write_policy h (text "policy" ∷ []) (register_bounds space_name p) w).0 ≡ ok tt
    → read_policy_from_hdf5 b h
        (write_policy h (text "policy" ∷ []) (register_bounds space_name p) w).1
      ≡ ok (replayed p)
unfolding read_policy_from_hdf5
read_policy-write_policy h laws b space_name p w names on = rw (fun_ext names) λ done.
    ap (read_policy b)
      ((puts_policy h laws (text "policy" ∷ []) (register_bounds documented_name p)).puts w done)
    ∙ read_policy-written b _ p on
