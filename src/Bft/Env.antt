-- ===== src/Bft/Env.antt =====
-- What the consensus uses and does not implement: the BLS library behind crypto/multibls, protobuf
-- encodings, hashes, the message signer, and the rest of the peer server.
use okchain.Prelude.{ℕ, Bool, Option}
use okchain.Bft.Types.{
  Bytes, Block, BoolMapSignature, ConsensusType, Error, Message, MessageType, Payload,
}

-- `read_key` and `read_sig` are `Deserialize`: the value that the receiver holds afterwards, and
-- whether there was no error. `marshals` is whether `proto.Marshal` of the block to broadcast gives no
-- error, and `seal` the same of the composed message with its `SignHash`.
pub record Env : Type 0 where
  pub read_key : Bytes → ℕ × Bool
  pub hex : ℕ → ℕ
  pub zero_key : ℕ
  pub add_key : ℕ → ℕ → ℕ
  pub serialize_key : ℕ → Bytes
  pub read_sig : Option Bytes → ℕ × Bool
  pub zero_sig : ℕ
  pub add_sig : ℕ → ℕ → ℕ
  pub serialize_sig : ℕ → Bytes
  pub bls_verify : ℕ → ℕ → Bytes → Bool
  pub hash : ConsensusType → Block → Bytes
  pub header_bytes : Option Bytes → Bytes
  pub sort_key : Bytes → ℕ
  pub read_payload : Bytes → Option Bytes
  pub read_block : ConsensusType → Bytes → Option Block
  pub read_collective : Bytes → Option BoolMapSignature
  pub read_with_sig2 : ConsensusType → Bytes → Option (Block × BoolMapSignature)
  pub coinbase_of : Bytes → Option Bytes
  pub calculate_state_root : Block → Option (ℕ × ℕ)
  pub message_verify : Message → Bool
  pub marshals : Payload → Bool
  pub seal : MessageType → ConsensusType → Payload → Bool
  pub on_consensus_completed : Option BoolMapSignature → Option Error
