-- ===== src/Behavior/States.antt =====
-- src/behavior_manager/states: the concrete states and the class that dispatches on them.
pub mod Common
pub mod PowerOff
pub mod Damp
pub mod Home
pub mod Zero
pub mod Safety
pub mod Object
pub mod Transitions
pub mod FaultFrame
