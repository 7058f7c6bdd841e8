-- ===== src/Behavior/Fsm.antt =====
-- src/behavior_manager/behavior_fsm.h and behavior_fsm.cpp: the state machine over any class of states.
-- Console and log output is left out.
pub mod Defs
pub mod Wellformed
pub mod Operations
pub mod Stepping
pub mod Frame
unfoldable pub use Defs.*
