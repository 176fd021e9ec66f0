-- ===== src/Bft/Lead.antt =====
-- core/server/consensus/blspbft/consensus_lead.go: the state of the leader, and its start of a
-- round. The children model its handlers.
pub mod Verify
pub mod Keeps
pub mod Collect
pub mod Compose
pub mod Handle
use okchain.Prelude.{ℕ, Bool, List, [], ◌∷◌, ◌++◌, Option, length}
use okchain.Bft.Types.{
  Bytes, Block, BoolMapSignature, ConsensusState, ConsensusType, MessageType, Payload,
  announce_done, announce, ds_block_consensus, micro_block_consensus, final_block_consensus,
  view_change_consensus,
}
use okchain.Bft.Quorum.{tolerance_size}
use okchain.Bft.Committee.{Vote}

-- `ConsensusLead` with what its methods reach: the globals `finalBLSSign`, `GPubkey` and the
-- handler's `currentType`, the blocks of its role, the nodes of its server. `shard_lead` is
-- `role.GetName() == "ShardLead"`; `votes` holds the three maps, a nil map reading as no entry;
-- `sent` and `completed` are the messages multicast and the calls of `OnConsensusCompleted`, the
-- last first.
pub record Lead : Type 0 where
  pub state : ConsensusState
  pub counter : ℕ
  pub tolerance : ℕ
  pub backup_nodes : List Bytes
  pub votes : List Vote
  pub bool_map_sign2 : BoolMapSignature
  pub final_sign : ℕ
  pub g_pubkey : ℕ
  pub current_type : ConsensusType
  pub shard_lead : Bool
  pub ds_block : Block
  pub micro_block : Block
  pub final_block : Block
  pub vc_block : Block
  pub committee : List Bytes
  pub sharding_nodes : List Bytes
  pub sent : List (MessageType × Payload)
  pub completed : List (Option BoolMapSignature)

-- The role's block of a consensus type: `GetCurrentDSBlock` and its like.
abbrev pub current_block : ConsensusType → Lead → Block
current_block ds_block_consensus l = l.ds_block
current_block micro_block_consensus l = l.micro_block
current_block final_block_consensus l = l.final_block
current_block view_change_consensus l = l.vc_block

abbrev pub put_block : ConsensusType → Block → Lead → Lead
put_block ds_block_consensus b l = record l { ds_block = b }
put_block micro_block_consensus b l = record l { micro_block = b }
put_block final_block_consensus b l = record l { final_block = b }
put_block view_change_consensus b l = record l { vc_block = b }

-- `InitiateConsensus`; the announcement is composed by the caller.
unfoldable pub initiate_consensus : Payload → List Bytes → Lead → Lead
initiate_consensus msg to l = record l {
  state = announce_done;
  counter = 0;
  backup_nodes = to;
  tolerance = tolerance_size (length to);
  sent = (announce, msg) ∷ l.sent;
}
