-- ===== src/Behavior/Manager/Policies.antt =====
-- src/behavior_manager/behavior_manager.cpp: preparing, installing and handing over policies.
mod Handoff
mod Preparation
unfoldable pub use Handoff.*
unfoldable pub use Preparation.*
