-- ===== src/Behavior/Tests.antt =====
-- The theorems of the behaviour manager at work.
mod Faults
mod States
mod Cycle
