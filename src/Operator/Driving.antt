-- ===== src/Operator/Driving.antt =====
-- When the service's command may move the robot: the invariant of the commanded velocity.
pub mod Defs
pub mod Upkeep
pub mod Requests
pub mod Handle
pub mod Sequences
