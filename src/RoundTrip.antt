-- ===== src/RoundTrip.antt =====
-- From the capture tool through the file to the replayer.
pub mod Puts
pub mod Pointers
pub mod Names
pub mod Writes
pub mod Policies
pub mod Launches
pub mod Dumps
pub mod Restore
pub mod Relaunch
