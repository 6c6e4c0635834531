-- ===== src/Capture/Policy.antt =====
-- The description of an execution policy, in src/krepe/capture/view_dump.hpp.
use kokkos_kernel_forge.Base.{ℕ, Bool, List}
use kokkos_kernel_forge.Base.Text.{Text}
use kokkos_kernel_forge.Base.Int.{ℤ}

pub record IndexTypeDesc : Type 0 where
  pub size : ℕ
  pub is_signed : Bool

pub record ScalarPolicyDesc : Type 0 where
  pub end : ℕ

pub record RangePolicyDesc : Type 0 where
  pub index_type_desc : IndexTypeDesc
  pub space : Text
  pub schedule : Text
  pub begin : ℕ
  pub end : ℕ
  pub chunk_size : ℤ

pub record MdRangePolicyDesc : Type 0 where
  pub index_type_desc : IndexTypeDesc
  pub space : Text
  pub schedule : Text
  pub rank : ℕ
  pub outer_dir : Text
  pub inner_dir : Text
  pub begin : List ℤ
  pub end : List ℤ
  pub tile : List ℤ

pub record TeamPolicyDesc : Type 0 where
  pub index_type_desc : IndexTypeDesc
  pub space : Text
  pub schedule : Text
  pub team_size : ℤ
  pub league_size : ℤ
  pub vector_length : ℤ
  pub team_scratch_0 : ℤ
  pub team_scratch_1 : ℤ
  pub thread_scratch_0 : ℤ
  pub thread_scratch_1 : ℤ
  pub chunk_size : ℤ

-- The `std::variant` of the descriptions.
pub data PolicyDesc : Type 0 where
  no_policy : PolicyDesc
  scalar : ScalarPolicyDesc → PolicyDesc
  range : RangePolicyDesc → PolicyDesc
  mdrange : MdRangePolicyDesc → PolicyDesc
  team : TeamPolicyDesc → PolicyDesc
