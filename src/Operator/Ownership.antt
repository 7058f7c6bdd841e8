-- ===== src/Operator/Ownership.antt =====
-- Who has control, and which requests a session may repeat: what all operations do to the table of sessions.
pub mod Keeps
pub mod Changes
pub mod Tables
pub mod Sequences
pub mod LastId
pub mod Replay
