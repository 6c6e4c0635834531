-- ===== src/Extract/Bounds.antt =====
-- The description of a Kokkos execution policy by `register_bounds`, in
-- src/krepe/extract/kernel_extractor.hpp, and the index values that the replay makes of it
-- (src/krepe/replay/kernel_replayer.hpp). A policy of Kokkos is given by what the source reads of it.
use kokkos_kernel_forge.Base.{ℕ, ◌^◌, Bool, true, false, List}
use kokkos_kernel_forge.Base.Text.{Text, text}
use kokkos_kernel_forge.Base.Int.{ℤ, negsuc, to_word}
use kokkos_kernel_forge.Capture.Policy
use kokkos_kernel_forge.Replay.Policy.{
  IndexType, int8, uint8, int16, uint16, int32, uint32, int64, uint64, Schedule, static, dynamic,
  ExecSpace, Iterate, left, right,
}

-- `sizeof(IndexType)` and `std::is_signed_v<IndexType>`: `get_index_type_props`.
abbrev pub size_of : IndexType → ℕ
size_of int8 = 1
size_of uint8 = 1
size_of int16 = 2
size_of uint16 = 2
size_of int32 = 4
size_of uint32 = 4
size_of int64 = 8
size_of uint64 = 8

abbrev pub is_signed : IndexType → Bool
is_signed int8 = true
is_signed uint8 = false
is_signed int16 = true
is_signed uint16 = false
is_signed int32 = true
is_signed uint32 = false
is_signed int64 = true
is_signed uint64 = false

unfoldable pub get_index_type_props : IndexType → Policy.IndexTypeDesc
get_index_type_props t = record { size = size_of t; is_signed = is_signed t }

-- Sign extension and a bit cast, or zero extension.
unfoldable pub index_type_to_u64 : IndexType → ℤ → ℕ
index_type_to_u64 t n = to_word (2 ^ 64) n

-- Kokkos has resolved `Iterate::Default` before; the exception for it is not modelled.
unfoldable pub iteration_pattern_to_string : Iterate → Text
iteration_pattern_to_string left = text "left"
iteration_pattern_to_string right = text "right"

unfoldable pub schedule_to_string : Schedule → Text
schedule_to_string static = text "static"
schedule_to_string dynamic = text "dynamic"

pub record KokkosRange : Type 0 where
  pub index_type : IndexType
  pub schedule : Schedule
  pub space : ExecSpace
  pub begin : ℤ
  pub end : ℤ
  pub chunk_size : ℤ

pub record KokkosMdRange : Type 0 where
  pub index_type : IndexType
  pub schedule : Schedule
  pub space : ExecSpace
  pub rank : ℕ
  pub outer_direction : Iterate
  pub inner_direction : Iterate
  pub lower : List ℤ
  pub upper : List ℤ
  pub tile : List ℤ

-- The sizes are what Kokkos answers; the flags say which of them it chooses itself (AUTO) and
-- whether the backend can be asked for the scratch sizes.
pub record KokkosTeam : Type 0 where
  pub index_type : IndexType
  pub schedule : Schedule
  pub space : ExecSpace
  pub auto_team_size : Bool
  pub team_size : ℤ
  pub league_size : ℤ
  pub auto_vector_length : Bool
  pub vector_length : ℤ
  pub supports_querying_scratch_size : Bool
  pub team_scratch_0 : ℤ
  pub team_scratch_1 : ℤ
  pub thread_scratch_0 : ℤ
  pub thread_scratch_1 : ℤ
  pub chunk_size : ℤ

pub data KokkosPolicy : Type 0 where
  count : ℕ → KokkosPolicy
  range : KokkosRange → KokkosPolicy
  mdrange : KokkosMdRange → KokkosPolicy
  team : KokkosTeam → KokkosPolicy

-- -1
abbrev pub unknown : ℤ
unknown = negsuc 0

abbrev pub unless : Bool → ℤ → ℤ
unless true z = unknown
unless false z = z

abbrev pub when : Bool → ℤ → ℤ
when true z = z
when false z = unknown

-- `space_name` is `execution_space::name()` of Kokkos.
unfoldable pub register_bounds : (ExecSpace → Text) → KokkosPolicy → Policy.PolicyDesc
unfolding get_index_type_props
register_bounds space_name (count n) = Policy.scalar (record { end = n })
register_bounds space_name (range p) = Policy.range (record {
  index_type_desc = get_index_type_props p.index_type;
  space = space_name p.space;
  schedule = schedule_to_string p.schedule;
  begin = index_type_to_u64 p.index_type p.begin;
  end = index_type_to_u64 p.index_type p.end;
  chunk_size = p.chunk_size;
})
register_bounds space_name (mdrange p) = Policy.mdrange (record {
  index_type_desc = get_index_type_props p.index_type;
  space = space_name p.space;
  schedule = schedule_to_string p.schedule;
  rank = p.rank;
  outer_dir = iteration_pattern_to_string p.outer_direction;
  inner_dir = iteration_pattern_to_string p.inner_direction;
  begin = p.lower;
  end = p.upper;
  tile = p.tile;
})
register_bounds space_name (team p) = Policy.team (record {
  index_type_desc = get_index_type_props p.index_type;
  space = space_name p.space;
  schedule = schedule_to_string p.schedule;
  team_size = unless p.auto_team_size p.team_size;
  league_size = p.league_size;
  vector_length = unless p.auto_vector_length p.vector_length;
  team_scratch_0 = when p.supports_querying_scratch_size p.team_scratch_0;
  team_scratch_1 = when p.supports_querying_scratch_size p.team_scratch_1;
  thread_scratch_0 = when p.supports_querying_scratch_size p.thread_scratch_0;
  thread_scratch_1 = when p.supports_querying_scratch_size p.thread_scratch_1;
  chunk_size = p.chunk_size;
})
