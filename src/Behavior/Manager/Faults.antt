-- ===== src/Behavior/Manager/Faults.antt =====
-- src/behavior_manager/behavior_manager.cpp: how faults are observed, latched and acknowledged.
pub mod Defs
pub mod Latch
pub mod Acknowledge
unfoldable pub use Defs.*
