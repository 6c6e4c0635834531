-- ===== src/Replay.antt =====
-- src/krepe/replay: reading a dump and running the kernel again.
pub mod Space
pub mod Hex
pub mod Regions
pub mod Machine
pub mod Policy
pub mod Visitor
pub mod CommandLine
pub mod Views
pub mod Guard
