-- ===== src/Gas.antt =====
-- core/gaspool.go and core/state_transition.go: what a transaction pays for gas.
pub mod Errors
pub mod Pool
pub mod Intrinsic
pub mod IntrinsicLaws
pub mod Transition
mod Examples
