-- ===== src/Behavior/Manager/Cycle.antt =====
-- src/behavior_manager/behavior_manager.cpp: `BehaviorManagerClass::Step`, one control period.
mod Before
mod After
pub mod Defs
mod Frame
pub mod Running
pub mod Enforce
pub mod Safety
pub mod Periods
unfoldable pub use Defs.*
