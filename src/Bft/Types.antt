-- ===== src/Bft/Types.antt =====
-- The constants and errors of core/server/consensus/blspbft, and the parts of the messages of
-- protos/ that the consensus reads. Byte strings are only compared and handed on: numbers.
use native.Mathlib.Decide.{ℕ_discrete}
use okchain.Prelude.{ℕ, List, Option, Bool}

abbrev pub Bytes : Type 0
Bytes = ℕ

-- `ConsensusState_Type`
pub data ConsensusState : Type 0 where
  initial announce_done commit_done challenge_done response_done collective_sig_done :
      ConsensusState
  final_commit_done final_challenge_done final_response_done : ConsensusState
  final_collective_sig_done broadcast_block_done : ConsensusState

unfoldable pub ConsensusState-discrete : Discrete ConsensusState
ConsensusState-discrete = hlevel

-- `pb.ConsensusType`
pub data ConsensusType : Type 0 where
  ds_block_consensus micro_block_consensus final_block_consensus view_change_consensus :
      ConsensusType

unfoldable pub ConsensusType-discrete : Discrete ConsensusType
ConsensusType-discrete = hlevel

-- `pb.Message_Type`, for the consensus messages; `other` is any other type.
pub data MessageType : Type 0 where
  announce response final_collective_sig final_response broadcast_block other : MessageType

-- errors.go, then the errors that are made in place.
pub data Error : Type 0 where
  verify_block compose_message invalid_message incorrect_message_source : Error
  multicast_message unmarshal_message verify_message bls_pub_key_verify : Error
  check_coin_base get_coin_base cal_state_root : Error
  cannot_process deserialize_failed pub_key_string marshal_message seal_failed not_enough : Error
  not_completed : Error

-- The header's fields that the consensus reads or writes, for the four types of blocks. A field
-- that a type lacks stays empty; `content` is all that is left. `stage_is_micro` is
-- `Header.Stage == "MicroBlockConsensus"` of a view change block.
pub record Block : Type 0 where
  pub content : ℕ
  pub stage_is_micro : Bool
  pub ds_coin_base : List Bytes
  pub state_root : ℕ
  pub gas_used : ℕ
  pub bool_map : List Bool
  pub multi_pub_key : Option Bytes
  pub signature : Option Bytes

-- `reflect.DeepEqual` on blocks.
unfoldable pub Block-discrete : Discrete Block
Block-discrete = hlevel ℕ_discrete

pub record BoolMapSignature : Type 0 where
  pub bool_map : List Bool
  pub signature : Bytes

-- What a consensus payload carries.
pub data Payload : Type 0 where
  empty : Payload
  collective : BoolMapSignature → Payload
  plain : Block → Payload
  with_sig2 : Block → BoolMapSignature → Payload

pub record Message : Type 0 where
  pub type : MessageType
  pub pubkey : Bytes
  pub payload : Bytes
