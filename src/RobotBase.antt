-- ===== src/RobotBase.antt =====
-- include/robot_base.h and src/robot_base/robot_base.cpp: the data that all components share.
-- An enum with a fixed underlying type may hold any value of that type, so it is a number here; its
-- named values are in the modules below. A `std::array` is a list of its elements.
pub mod FaultSource
pub mod FaultCode
pub mod ControlMode
pub mod ActuationMode
pub mod Operation
pub mod Phase
pub mod SwitchPhase
pub mod Names
pub mod Data
unfoldable pub use Names.*
unfoldable pub use Data.*
mod Tests
