-- ===== src/Capture/Dump.antt =====
-- src/krepe/capture/view_dump.cpp: the file that holds a kernel's data.
pub mod Names
pub mod WritePolicy
pub mod File
pub mod Pointer
