-- ===== src/Rewards.antt =====
-- core/state_processor.go: the transactions of a block, and the rewards paid at its end.
pub mod Assign
pub mod Process
mod Examples
