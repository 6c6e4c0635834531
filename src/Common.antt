-- ===== src/Common.antt =====
-- src/krepe/common: what the capture tool and the replayer share.
pub mod ScopedHandle
pub mod Hdf5
pub mod ExtendedLambda
