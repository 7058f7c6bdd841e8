-- ===== src/Operator.antt =====
-- src/operator_service/service: sessions, control leases and requests of operators.
pub mod Libraries
pub mod Data
pub mod Names
pub mod Sessions
pub mod Input
pub mod Tick
pub mod Feedback
pub mod Views
pub mod Requests
pub mod Effects
pub mod Stability
pub mod Upkeep
pub mod Driving
pub mod Events
pub mod Ownership
pub mod Expiry
pub mod Stopping
mod Tests
