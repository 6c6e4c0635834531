-- ===== src/RoundTrip/Names.antt =====
-- The texts that the capture tool writes name the values that the replayer reads.
use kokkos_kernel_forge.Base.{
  ℕ, ◌≡◌, ◌<◌, ◌^◌, refl, ap, true, [], ◌∷◌, ◌++◌, ◌==◌, ◌&&◌, nat_eq, leb, arith, if◌then◌else◌,
}
use kokkos_kernel_forge.Base.Text.{Text, text, text_eq}
use kokkos_kernel_forge.Base.Int.{pos, from_word, to_word}
use kokkos_kernel_forge.Base.Result.{ok}
use kokkos_kernel_forge.Capture.Dump.WritePolicy.{int_of_size, int_of_bool}
use kokkos_kernel_forge.Extract.Bounds.{
  size_of, is_signed, schedule_to_string, iteration_pattern_to_string,
}
use kokkos_kernel_forge.Replay.Policy.{
  IndexType, int8, Schedule, static, dynamic, ExecSpace, serial, openmp, threads, hpx, cuda, hip,
  Iterate, left, right, KokkosBuild, get_policy_index_type_from_props,
  get_policy_schedule_from_name, get_policy_exec_space_from_name, iterate_from_name, mdrange_rank,
  pop_back, size_of_int, bool_of_int,
}

pub pop_back-append : (s : Text) (c : ℕ) → pop_back (s ++ c ∷ []) ≡ s
unfolding pop_back
pop_back-append [] c = refl
pop_back-append (d ∷ []) c = refl
pop_back-append (d ∷ e ∷ s) c = ap (λ r. d ∷ r) (pop_back-append (e ∷ s) c)

-- The size and the signedness that were written give back the index type.
pub index_type-props :
    (t : IndexType)
    → get_policy_index_type_from_props
        (bool_of_int (int_of_bool (is_signed t)))
        (size_of_int (int_of_size (size_of t)))
      ≡ ok t
unfolding get_policy_index_type_from_props int_of_size from_word to_word
index_type-props int8 = refl
index_type-props _ = refl

pub schedule-name : (s : Schedule) → get_policy_schedule_from_name (schedule_to_string s) ≡ ok s
unfolding get_policy_schedule_from_name schedule_to_string text_eq text
schedule-name static = refl
schedule-name dynamic = refl

pub iterate-name : (d : Iterate) → iterate_from_name (iteration_pattern_to_string d) ≡ ok d
unfolding iterate_from_name iteration_pattern_to_string text_eq text
iterate-name left = refl
iterate-name right = refl

-- The names of Kokkos's execution spaces.
unfoldable pub documented_name : ExecSpace → Text
documented_name serial = text "Serial"
documented_name openmp = text "OpenMP"
documented_name threads = text "Threads"
documented_name hpx = text "HPX"
documented_name cuda = text "Cuda"
documented_name hip = text "HIP"

pub exec_space-name :
    (b : KokkosBuild) (e : ExecSpace)
    → b.enabled e ≡ true
    → get_policy_exec_space_from_name b (documented_name e) ≡ ok e
unfolding get_policy_exec_space_from_name documented_name text_eq text
exec_space-name b serial h = rw h
exec_space-name b openmp h = ground (arith, h)
exec_space-name b threads h = ground (arith, h)
exec_space-name b hpx h = ground (arith, h)
exec_space-name b cuda h = ground (arith, h)
exec_space-name b hip h = ground (arith, h)

-- The ranks of an MDRangePolicy that a build has.
abbrev pub HasRank : KokkosBuild → ℕ → Type 0
HasRank b n = (if n == 1 then b.has_rank_1 else (leb 2 n && leb n 6)) ≡ true

HasRank-small : (b : KokkosBuild) (n : ℕ) → HasRank b n → n < 2 ^ 31
HasRank-small b n h = ground arith

int_of_size-small : (n : ℕ) → n < 2 ^ 31 → int_of_size n ≡ pos n
unfolding int_of_size from_word
int_of_size-small n h = ground arith

rank-pos : (b : KokkosBuild) (n : ℕ) → HasRank b n → mdrange_rank b (pos n) ≡ ok n
unfolding mdrange_rank
rank-pos b n h = ground arith

pub rank-int : (b : KokkosBuild) (n : ℕ) → HasRank b n → mdrange_rank b (int_of_size n) ≡ ok n
rank-int b n h = rw (int_of_size-small n (HasRank-small b n h)) (rank-pos b n h)
