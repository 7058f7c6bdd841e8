-- ===== src/Behavior/Manager/Requests.antt =====
-- src/behavior_manager/behavior_manager.cpp: what the runtime feeds into the manager and reads from it
-- (`SetSensorData` to `IsRunning`). `GetRlFreq`, a statistic, is left out.
pub mod Defs
pub mod Switching
pub mod Starting
unfoldable pub use Defs.*
