-- ===== src/Behavior/Trajectory.antt =====
-- src/behavior_manager/joint_trajectory.cpp, the player of recorded joint motions, and
-- states/state_trajectory.cpp, the state TRAJECTORY around it.
pub mod Player
pub mod Reads
pub mod Phases
pub mod Joints
pub mod StateTrajectory
pub mod Sparing
pub mod Holding
mod Tests
