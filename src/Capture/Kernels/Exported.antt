-- ===== src/Capture/Kernels/Exported.antt =====
-- The functions of src/krepe/capture/kokkos_hooks.cpp that Kokkos calls at the beginning and the end of a kernel, and
-- for the settings of the tool.
use kokkos_kernel_forge.Base.{ℕ, Bool, false, Option, none, some}
use kokkos_kernel_forge.Base.Text.{Text}
use kokkos_kernel_forge.Capture.Kernels.{Tools, CaptureState, begin_kernel, end_kernel}

module _ {W : Type 0} (tools : Tools W) where
  unfoldable pub kokkosp_begin_parallel_for :
      Option Text → ℕ → CaptureState × W → ℕ × (CaptureState × W)
  unfolding begin_kernel
  kokkosp_begin_parallel_for label device_id sw = begin_kernel tools label device_id sw

  unfoldable pub kokkosp_end_parallel_for : ℕ → CaptureState × W → CaptureState × W
  unfolding end_kernel
  kokkosp_end_parallel_for kernel_id sw = end_kernel tools kernel_id sw

  unfoldable pub kokkosp_begin_parallel_reduce :
      Option Text → ℕ → CaptureState × W → ℕ × (CaptureState × W)
  unfolding begin_kernel
  kokkosp_begin_parallel_reduce label device_id sw = begin_kernel tools label device_id sw

  unfoldable pub kokkosp_end_parallel_reduce : ℕ → CaptureState × W → CaptureState × W
  unfolding end_kernel
  kokkosp_end_parallel_reduce kernel_id sw = end_kernel tools kernel_id sw

  unfoldable pub kokkosp_begin_parallel_scan :
      Option Text → ℕ → CaptureState × W → ℕ × (CaptureState × W)
  unfolding begin_kernel
  kokkosp_begin_parallel_scan label device_id sw = begin_kernel tools label device_id sw

  unfoldable pub kokkosp_end_parallel_scan : ℕ → CaptureState × W → CaptureState × W
  unfolding end_kernel
  kokkosp_end_parallel_scan kernel_id sw = end_kernel tools kernel_id sw

-- `Kokkos_Tools_ToolSettings`; the null pointer is `none`.
pub record ToolSettings : Type 0 where
  pub requires_global_fencing : Bool

unfoldable pub kokkosp_request_tool_settings : Option ToolSettings → Option ToolSettings
kokkosp_request_tool_settings none = none
kokkosp_request_tool_settings (some settings) = some (record { requires_global_fencing = false })
