-- ===== src/Transport.antt =====
-- src/transport/transport_executor: the packets that the transports exchange, their checks, and how the
-- program's records are written into them and read back.
pub mod Buffer
pub mod Fault
pub mod PolicySwitch
pub mod Header
pub mod Command
pub mod Status
pub mod Ring
mod Tests
