-- ===== src/Runtime.antt =====
-- src/runtime/common: helpers that the processes share.
pub mod SampleWorker
pub mod CommandLimits
pub mod Timing
pub mod Watch
pub mod StatusReporting
mod Tests
