-- ===== src/Tests.antt =====
-- The theorems applied at concrete inputs, and small runs of the models.
mod Common
mod Capture
mod Kernels
mod Replay
mod RoundTrip
mod MemoryCopy
mod Dumps
mod CommandLine
mod Extract
mod Machine
mod Replayer
mod Relaunch
mod Plugins
mod GccVersion
mod GccPlugin
