-- ===== src/Bft/Backup.antt =====
-- core/server/consensus/blspbft/consensus_backup.go: the state of a backup, and how many signers
-- it expects. The children model its checks and handlers.
pub mod Sig1
pub mod Adopt
pub mod Handle
pub mod Quiet
pub mod Laws
pub mod Guards
pub mod Signers
pub mod Broadcast
mod Examples
use okchain.Prelude.{
  ℕ, zero, suc, ◌/◌, Bool, true, false, List, [], ◌∷◌, Option, none, some, length,
}
use okchain.Bft.Types.{
  Bytes, Block, BoolMapSignature, ConsensusType, Error, Message, MessageType, ds_block_consensus,
  micro_block_consensus, final_block_consensus, view_change_consensus,
}
use okchain.Bft.Env.{Env}
use okchain.Bft.Quorum.{tolerance_size}
use okchain.Bft.Committee.{sort_peers}

-- `ConsensusBackup` with what its methods reach: the handler's `currentType`, the blocks of its
-- role, the nodes of its server, and of the last block of the DS chain the sharding nodes and
-- `ShardingSum`. `sent` is what was sent to the leader, `completed` counts the calls of
-- `OnConsensusCompleted`.
pub record Backup : Type 0 where
  pub leader : Bytes
  pub current_type : ConsensusType
  pub ds_block : Block
  pub micro_block : Block
  pub final_block : Block
  pub vc_block : Block
  pub committee : List Bytes
  pub sharding_nodes : List Bytes
  pub last_sharding_nodes : List Bytes
  pub sharding_sum : ℕ
  pub sent : List (MessageType × Bytes)
  pub completed : ℕ

-- `GetCurrentDSBlock`, `SetCurrentDSBlock` and their like, for the current type.
abbrev pub own_block : Backup → Block
own_block b = elim b.current_type [
  | ds_block_consensus ↦ b.ds_block
  | micro_block_consensus ↦ b.micro_block
  | final_block_consensus ↦ b.final_block
  | view_change_consensus ↦ b.vc_block
]

abbrev pub set_block : Block → Backup → Backup
set_block block b = elim b.current_type [
  | ds_block_consensus ↦ record b { ds_block = block }
  | micro_block_consensus ↦ record b { micro_block = block }
  | final_block_consensus ↦ record b { final_block = block }
  | view_change_consensus ↦ record b { vc_block = block }
]

-- Whether the consensus is held among the shard's nodes.
abbrev pub is_sharding : Backup → Bool
is_sharding b = elim b.current_type [
  | ds_block_consensus ↦ false
  | micro_block_consensus ↦ true
  | final_block_consensus ↦ false
  | view_change_consensus ↦ b.vc_block.stage_is_micro
]

-- `int(math.Floor(float64(len(nodes)/int(sum) - 1)*ToleranceFraction)) + 1`; a sum of 0 panics.
unfoldable pub shard_expected : ℕ → ℕ → Option ℕ
shard_expected n zero = none
shard_expected n (suc k) = some (tolerance_size (n / suc k))

-- `expected`, as `verifyBlock` computes it first.
unfoldable pub expected_signers : Backup → Option ℕ
expected_signers b = elim (is_sharding b) [
  | true ↦ shard_expected (length b.last_sharding_nodes) b.sharding_sum
  | false ↦ some (tolerance_size (length b.committee))
]

-- The block whose hash is signed: of a final block's coinbases only the first counts.
unfoldable pub hashed_block : ConsensusType → Block → Option Block
hashed_block final_block_consensus block = elim block.ds_coin_base [
  | [] ↦ none
  | c0 ∷ rest ↦ some (record block { ds_coin_base = c0 ∷ [] })
]
hashed_block ds_block_consensus block = some block
hashed_block micro_block_consensus block = some block
hashed_block view_change_consensus block = some block
