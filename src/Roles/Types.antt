-- ===== src/Roles/Types.antt =====
-- The messages and blocks of protos/ that the committee's roles read and write, the errors of
-- core/server/role/errors.go, and the peer server's data. Byte strings, texts and hashes are
-- numbers.
use okchain.Prelude.{ℕ, Bool, List, Option}
use okchain.Bft.Types.{Bytes}
use okchain.Bft.Env.{Env}
use okchain.Roles.Peers.{Peer}
use okchain.Roles.Sharding.{PeerEndpointMap}

-- errors.go, as far as the modelled handlers return them, and the errors that are made in place.
pub data RoleError : Type 0 where
  unmarshal_message duplicated_message verify_block verify_message pub_key_convert : RoleError
  verify_mine bls_pub_key_verify empty_pow_list : RoleError
  not_enough_pow no_microblock not_enough_nodes empty_block : RoleError
  handle_in_current_state compose_block duplicated_block insert_block : RoleError
  sign_message marshal_message mine_failed get_coinbase verify_transaction : RoleError

-- `PoWSubmission`; `result` is the `MiningResult`.
pub record PowSubmission : Type 0 where
  pub block_num : ℕ
  pub nonce : ℕ
  pub difficulty : ℕ
  pub rand1 : ℕ
  pub rand2 : ℕ
  pub peer : Peer
  pub public_key : Bytes
  pub coinbase : Bytes
  pub result : ℕ

-- A transaction: its gas limit, and all that is left of it.
pub record Tx : Type 0 where
  pub gas_limit : ℕ
  pub content : ℕ

-- `MicroBlock`, with the fields of its header that are read.
pub record MicroBlock : Type 0 where
  pub ds_block_num : ℕ
  pub ds_block_hash : ℕ
  pub block_number : ℕ
  pub version : ℕ
  pub tx_num : ℕ
  pub gas_used : ℕ
  pub bool_map : List Bool
  pub multi_pub_key : Bytes
  pub shard_id : ℕ
  pub miner : Peer
  pub sharding_lead_coin_base : Bytes
  pub transactions : List Tx
  pub tx_root : ℕ

-- `DSBlock`: the header's fields that `composeDSBlock` writes, but for the time, and the body.
pub record DsBlock : Type 0 where
  pub version : ℕ
  pub block_number : ℕ
  pub pow_difficulty : ℕ
  pub pow_submission_num : ℕ
  pub winner_nonce : ℕ
  pub winner_pub_key : Bytes
  pub new_leader : Peer
  pub miner : Peer
  pub previous_block_hash : ℕ
  pub sharding_sum : ℕ
  pub sharding_nodes : List Peer
  pub committee : List Peer

-- `TxBlock`, as `composeFinalBlock` fills it, but for the time.
pub record TxBlock : Type 0 where
  pub ds_block_hash : ℕ
  pub ds_block_num : ℕ
  pub block_number : ℕ
  pub version : ℕ
  pub ds_coin_base : List Bytes
  pub miner : Peer
  pub tx_num : ℕ
  pub gas_used : ℕ
  pub gas_limit : ℕ
  pub sharding_lead_coin_base : List Bytes
  pub number_of_micro_block : ℕ
  pub transactions : List Tx
  pub micro_block_hashes : List ℕ
  pub tx_root : ℕ
  pub previous_block_hash : ℕ

-- The peer server, with the current blocks of its two chains. `pow_sub_list` and
-- `micro_block_list` are the arrays behind the locks of `SyncPowSubmissions` and
-- `SyncMicroBlockSubmissions`.
pub record Server : Type 0 where
  pub self_node : Peer
  pub coin_base : Bytes
  pub committee : List Peer
  pub sharding_nodes : List Peer
  pub sharding_map : PeerEndpointMap
  pub pow_sub_list : List PowSubmission
  pub micro_block_list : List MicroBlock
  pub ds_current : DsBlock
  pub tx_current : TxBlock
  pub sharding_size : ℕ
  pub pow_difficulty : ℕ

-- A message, opened: `peer` is the sender that it names.
pub record Message : Type 0 where
  pub peer : Peer
  pub payload : Bytes
  pub signature : Bytes

-- What the roles use and do not implement. `ds_hash` and `tx_hash` are `Hash` of a block;
-- `verify_hash` is `MsgVerify` by the key of the message's peer; `verify_pow` is the miner's
-- `Verify`, its verdict and whether it gave no error; `mining_seed` joins the texts it is asked on.
pub record RoleEnv : Type 0 where
  pub bls : Env
  pub ds_hash : DsBlock → ℕ
  pub tx_hash : TxBlock → ℕ
  pub read_pow : Bytes → Option PowSubmission
  pub pow_hash : PowSubmission → ℕ
  pub read_micro_block : Bytes → Option MicroBlock
  pub micro_block_hash : MicroBlock → ℕ
  pub micro_header_hash : MicroBlock → ℕ
  pub verify_hash : Message → ℕ → Bool
  pub pub_key_text : Bytes → Option ℕ
  pub mining_seed : ℕ → ℕ → Peer → ℕ → Bytes → ℕ
  pub verify_pow : ℕ → ℕ → ℕ → ℕ → Bool × Bool
  pub merkel_root : List Tx → ℕ
