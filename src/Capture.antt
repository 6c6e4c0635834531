-- ===== src/Capture.antt =====
-- src/krepe/capture: observing a Kokkos program and dumping the data of one kernel.
pub mod Tracker
pub mod MemoryCopy
pub mod Dump
pub mod Policy
pub mod Kernels
pub mod DataSize
pub mod Numbers
pub mod Options
