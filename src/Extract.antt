-- ===== src/Extract.antt =====
-- src/krepe/extract: what an instrumented program hands to the capture tool.
pub mod Bounds
pub mod Functions
pub mod Launch
