-- ===== src/Behavior.antt =====
-- src/behavior_manager: the behaviour state machine that decides what the robot does.
pub mod StateName
pub mod State
pub mod Fsm
pub mod States
pub mod Trajectory
pub mod Manager
mod Fixtures
mod Tests
