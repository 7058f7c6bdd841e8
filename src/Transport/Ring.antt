-- ===== src/Transport/Ring.antt =====
-- src/transport/shm/shm_transport.cpp: the ring of slots in shared memory. One process writes and one reads;
-- each call is one step here. The calls of the operating system that open and map the memory are left out.
pub mod Defs
pub mod Latest
unfoldable pub use Defs.*
