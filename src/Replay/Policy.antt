-- ===== src/Replay/Policy.antt =====
-- The execution policy of a dump: the variants of src/krepe/replay/kernel_replayer.hpp and
-- `read_policy_from_hdf5` of src/krepe/replay/kernel_replayer.cpp.
use kokkos_kernel_forge.Base.{
  ℕ, zero, suc, ◌^◌, Bool, true, false, Option, some, List, [], ◌∷◌, ◌==◌, nat_eq, if◌then◌else◌,
}
use kokkos_kernel_forge.Base.Text.{Text, text, text_Eq}
use kokkos_kernel_forge.Base.Int.{ℤ, pos, negsuc, to_word}
use kokkos_kernel_forge.Base.Result.{Result, ok, err, ◌>>=◌}
use kokkos_kernel_forge.Common.Hdf5.{
  Hdf5, Value, string_value, int_value, uint64_value, int64s_value, Slot, attribute, dataset,
  hdf5_failed,
}

-- `index_type_var_t`
pub data IndexType : Type 0 where
  int8 uint8 int16 uint16 int32 uint32 int64 uint64 : IndexType

pub data Schedule : Type 0 where
  static dynamic : Schedule

-- The execution spaces of a build of Kokkos, by name.
pub data ExecSpace : Type 0 where
  serial openmp threads hpx cuda hip : ExecSpace

pub data Iterate : Type 0 where
  left right : Iterate

pub record RangePolicyDesc : Type 0 where
  pub begin : ℕ
  pub end : ℕ
  pub chunk_size : ℤ
  pub index_type : IndexType
  pub schedule : Schedule
  pub exec_space : ExecSpace

pub record MdRangePolicyDesc : Type 0 where
  pub begin : List ℤ
  pub end : List ℤ
  pub tile : List ℤ
  pub index_type : IndexType
  pub schedule : Schedule
  pub exec_space : ExecSpace
  pub rank : ℕ
  pub outer_iter_dir : Iterate
  pub inner_iter_dir : Iterate

pub record TeamPolicyDesc : Type 0 where
  pub team_size : ℤ
  pub league_size : ℤ
  pub vector_length : ℤ
  pub team_scratch_0 : ℤ
  pub team_scratch_1 : ℤ
  pub thread_scratch_0 : ℤ
  pub thread_scratch_1 : ℤ
  pub chunk_size : ℤ
  pub index_type : IndexType
  pub schedule : Schedule
  pub exec_space : ExecSpace

-- `policy_var_t`; `no_policy` is the `std::monostate`.
pub data ReplayPolicy : Type 0 where
  no_policy : ReplayPolicy
  scalar : ℕ → ReplayPolicy
  range : RangePolicyDesc → ReplayPolicy
  mdrange : MdRangePolicyDesc → ReplayPolicy
  team : TeamPolicyDesc → ReplayPolicy

-- What the build of Kokkos decides: its execution spaces, and whether its version has an
-- MDRangePolicy of rank 1 (5.2 or later).
pub record KokkosBuild : Type 0 where
  pub enabled : ExecSpace → Bool
  pub has_rank_1 : Bool

unfoldable pub get_policy_index_type_from_props : Bool → ℕ → Result IndexType
get_policy_index_type_from_props index_type_signed index_type_size =
    if index_type_size == 1
    then ok (if index_type_signed then int8 else uint8)
    else if index_type_size == 2
    then ok (if index_type_signed then int16 else uint16)
    else if index_type_size == 4
    then ok (if index_type_signed then int32 else uint32)
    else if index_type_size == 8
    then ok (if index_type_signed then int64 else uint64)
    else err (text "unexpected index type size")

unfoldable pub get_policy_schedule_from_name : Text → Result Schedule
get_policy_schedule_from_name schedule =
    if schedule == text "static"
    then ok static
    else if schedule == text "dynamic"
    then ok dynamic
    else err (text "Unexpected schedule type found in the dump")

-- The branch for a space is compiled where the build has the space.
abbrev pub or_enabled : KokkosBuild → Text → Text → ExecSpace → Result ExecSpace → Result ExecSpace
or_enabled b space name e otherwise =
    if b.enabled e then (if space == name then ok e else otherwise) else otherwise

unfoldable pub get_policy_exec_space_from_name : KokkosBuild → Text → Result ExecSpace
get_policy_exec_space_from_name b space = or_enabled b space (text "Serial") serial (
    or_enabled b space (text "OpenMP") openmp (
      or_enabled b space (text "Threads") threads (
        or_enabled b space (text "HPX") hpx (
          or_enabled b space (text "Cuda") cuda (
            or_enabled b space (text "HIP") hip
              (err (text "No enabled execution space corresponds to the name")))))))

unfoldable pub iterate_from_name : Text → Result Iterate
iterate_from_name name =
    if name == text "left"
    then ok left
    else if name == text "right"
    then ok right
    else err (text "Unexpected iteration pattern")

unfoldable pub mdrange_rank : KokkosBuild → ℤ → Result ℕ
mdrange_rank b (pos n) =
    if n == 1
    then (if b.has_rank_1 then ok 1 else err (text "Unexpected mdrange policy rank"))
    else if n == 2
    then ok 2
    else if n == 3
    then ok 3
    else if n == 4
    then ok 4
    else if n == 5
    then ok 5
    else if n == 6
    then ok 6
    else err (text "Unexpected mdrange policy rank")
mdrange_rank b (negsuc n) = err (text "Unexpected mdrange policy rank")

-- `attribute.pop_back()`
unfoldable pub pop_back : Text → Text
pop_back [] = []
pop_back (c ∷ []) = []
pop_back (c ∷ d ∷ s) = c ∷ pop_back (d ∷ s)

-- The assertions on the type and on the size of what is read.
unfoldable pub as_string : Option Value → Result Text
unfolding pop_back
as_string (some (string_value bytes)) = ok (pop_back bytes)
as_string _ = err hdf5_failed

unfoldable pub as_int : Option Value → Result ℤ
as_int (some (int_value z)) = ok z
as_int _ = err hdf5_failed

unfoldable pub as_uint64 : Option Value → Result ℕ
as_uint64 (some (uint64_value n)) = ok n
as_uint64 _ = err hdf5_failed

unfoldable pub as_int64s : Option Value → Result (List ℤ)
as_int64s (some (int64s_value zs)) = ok zs
as_int64s _ = err hdf5_failed

-- A read of the file: the attributes and datasets of an object, by their names.
abbrev pub Group : Type 0
Group = Slot → Option Value

unfoldable pub get_string : Group → Text → Result Text
unfolding as_string
get_string group name = as_string (group (attribute name))

unfoldable pub get_int : Group → Text → Result ℤ
unfolding as_int
get_int group name = as_int (group (attribute name))

unfoldable pub get_uint64 : Group → Text → Result ℕ
unfolding as_uint64
get_uint64 group name = as_uint64 (group (attribute name))

unfoldable pub get_int64_dataset : Group → Text → Result (List ℤ)
unfolding as_int64s
get_int64_dataset group name = as_int64s (group (dataset name))

-- `static_cast<std::size_t>` and `static_cast<bool>` of an `int`.
abbrev pub size_of_int : ℤ → ℕ
size_of_int z = to_word (2 ^ 64) z

abbrev pub bool_of_int : ℤ → Bool
bool_of_int (pos zero) = false
bool_of_int (pos (suc n)) = true
bool_of_int (negsuc n) = true

unfoldable pub read_range : Group → IndexType → Schedule → ExecSpace → Result ReplayPolicy
read_range group index_type schedule exec_space = do
  begin ← get_uint64 group (text "begin")
  end ← get_uint64 group (text "end")
  chunk_size ← get_int group (text "chunk_size")
  ok (
      range (record {
        begin = begin;
        end = end;
        chunk_size = chunk_size;
        index_type = index_type;
        schedule = schedule;
        exec_space = exec_space;
      }))

unfoldable pub read_mdrange :
    KokkosBuild → Group → IndexType → Schedule → ExecSpace → Result ReplayPolicy
read_mdrange b group index_type schedule exec_space = do
  rank ← get_int group (text "rank")
  policy_rank ← mdrange_rank b rank
  outer_dir_name ← get_string group (text "outer_dir")
  outer_dir ← iterate_from_name outer_dir_name
  inner_dir_name ← get_string group (text "inner_dir")
  inner_dir ← iterate_from_name inner_dir_name
  begin ← get_int64_dataset group (text "begin")
  end ← get_int64_dataset group (text "end")
  tile ← get_int64_dataset group (text "tile")
  ok (
      mdrange (record {
        begin = begin;
        end = end;
        tile = tile;
        index_type = index_type;
        schedule = schedule;
        exec_space = exec_space;
        rank = policy_rank;
        outer_iter_dir = outer_dir;
        inner_iter_dir = inner_dir;
      }))

unfoldable pub read_team : Group → IndexType → Schedule → ExecSpace → Result ReplayPolicy
read_team group index_type schedule exec_space = do
  team_size ← get_int group (text "team_size")
  league_size ← get_int group (text "league_size")
  vector_length ← get_int group (text "vector_length")
  team_scratch_0 ← get_int group (text "team_scratch_0")
  team_scratch_1 ← get_int group (text "team_scratch_1")
  thread_scratch_0 ← get_int group (text "thread_scratch_0")
  thread_scratch_1 ← get_int group (text "thread_scratch_1")
  chunk_size ← get_int group (text "chunk_size")
  ok (
      team (record {
        team_size = team_size;
        league_size = league_size;
        vector_length = vector_length;
        team_scratch_0 = team_scratch_0;
        team_scratch_1 = team_scratch_1;
        thread_scratch_0 = thread_scratch_0;
        thread_scratch_1 = thread_scratch_1;
        chunk_size = chunk_size;
        index_type = index_type;
        schedule = schedule;
        exec_space = exec_space;
      }))

-- The end of the function, once the attributes that the three kinds share are read.
unfoldable pub read_kind :
    KokkosBuild → Group → Text → IndexType → Schedule → ExecSpace → Result ReplayPolicy
unfolding read_range read_mdrange read_team
read_kind b group type index_type schedule exec_space =
    if type == text "range"
    then read_range group index_type schedule exec_space
    else if type == text "mdrange"
    then read_mdrange b group index_type schedule exec_space
    else if type == text "team"
    then read_team group index_type schedule exec_space
    else err (text "Unknown policy type")

unfoldable pub read_shared : KokkosBuild → Group → Text → Result ReplayPolicy
unfolding read_kind
read_shared b group type = do
  index_type_signed ← get_int group (text "index_type_signed")
  index_type_size ← get_int group (text "index_type_size")
  index_type ←
      get_policy_index_type_from_props (bool_of_int index_type_signed) (size_of_int index_type_size)
  exec_space_name ← get_string group (text "space")
  exec_space ← get_policy_exec_space_from_name b exec_space_name
  schedule_name ← get_string group (text "schedule")
  schedule ← get_policy_schedule_from_name schedule_name
  read_kind b group type index_type schedule exec_space

unfoldable pub read_type : KokkosBuild → Group → Text → Result ReplayPolicy
unfolding read_shared
read_type b group type =
    if type == text "none"
    then ok no_policy
    else if type == text "scalar"
    then (do end ← get_uint64 group (text "end"); ok (scalar end))
    else read_shared b group type

unfoldable pub read_policy : KokkosBuild → Group → Result ReplayPolicy
unfolding read_type
read_policy b group = do type ← get_string group (text "type"); read_type b group type

-- `read_policy_from_hdf5`
unfoldable pub read_policy_from_hdf5 : {W : Type 0} → KokkosBuild → Hdf5 W → W → Result ReplayPolicy
read_policy_from_hdf5 b h w = read_policy b (λ slot. h.read (text "policy" ∷ []) slot w)
