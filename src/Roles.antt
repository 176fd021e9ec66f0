-- ===== src/Roles.antt =====
-- core/server/role and the parts of core/server/peer.go and protos/peerendpoint.go that the roles
-- of a node call: the committee, the shards, the blocks that the committee composes.
pub mod Peers
pub mod Sharding
pub mod Types
pub mod Submit
pub mod GasLimit
pub mod TxShard
pub mod MicroBlocks
pub mod Registration
pub mod Compose
pub mod ViewChange
pub mod States
pub mod Machine
mod Samples
mod Examples
pub mod Final
