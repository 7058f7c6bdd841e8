-- ===== src/Behavior/Manager.antt =====
-- src/behavior_manager/behavior_manager.cpp: the class `BehaviorManagerClass` and its `Impl`, which watch
-- the sensors, latch faults, prepare and exchange policies, and step the state machine.
pub mod Defs
pub mod Faults
pub mod Policies
pub mod Cycle
pub mod Requests
