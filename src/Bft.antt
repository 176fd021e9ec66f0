-- ===== src/Bft.antt =====
-- core/server/consensus/blspbft: the consensus on a block by two rounds of BLS multi-signatures.
pub mod Types
pub mod Env
pub mod Quorum
pub mod Committee
pub mod Lead
pub mod Marks
pub mod Backup
mod Examples
