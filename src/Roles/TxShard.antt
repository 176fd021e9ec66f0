-- ===== src/Roles/TxShard.antt =====
-- Which shard a transaction belongs to: `CorrespondShardID`, `FilterTxs`, `IsFiltered`,
-- `IsTxValidated` and `GetShardId` of core/server/peer.go.
pub mod Laws
use okchain.Prelude.{
  ℕ, ◌%◌, Bool, true, false, not, ◌||◌, List, [], ◌∷◌, Option, none, some, ◌==◌, if◌then◌else◌, u32,
}

-- What the signer and the DS chain give for transactions of the type `T`. `sender` is the address
-- that `Signer.Sender` returns, as a number, whatever the error; `verify_hash` is `VerifyHash` of a
-- transaction's hash, its verdict and whether there was no error; `sharding_sum_at` is the header's
-- `ShardingSum` of the DS block with that number, if the chain has one.
pub record TxEnv (T : Type 0) : Type 0 where
  pub sender : T → ℕ
  pub verify_hash : T → Bool × Bool
  pub sharding_sum_at : ℕ → Option ℕ

-- `CorrespondShardID`
unfoldable pub correspond_shard_id : ℕ → ℕ → ℕ
correspond_shard_id addr n = if n == 0 then 0 else u32 (addr % n)

module _ {T : Type 0} (env : TxEnv T) where
  -- `IsFiltered`, with the server's own shard and the current block's `ShardingSum`.
  unfoldable pub is_filtered : ℕ → ℕ → T → Bool
  is_filtered sharding_id shards_num tx =
      if sharding_id == correspond_shard_id (env.sender tx) shards_num then false else true

  -- `FilterTxs`
  unfoldable pub filter_txs : ℕ → ℕ → List T → List T
  filter_txs sharding_id shards_num [] = []
  filter_txs sharding_id shards_num (tx ∷ txs) =
      let rest = filter_txs sharding_id shards_num txs in
      if not (is_filtered sharding_id shards_num tx) then tx ∷ rest else rest

  -- `IsTxValidated`
  unfoldable pub is_tx_validated : ℕ → ℕ → T → Bool
  is_tx_validated sharding_id shards_num tx =
      if not (env.verify_hash tx).1 || not (env.verify_hash tx).0
      then false
      else not (is_filtered sharding_id shards_num tx)

  -- `GetShardId`; `none` is its panic on the nil block that the chain gives for an unknown number.
  unfoldable pub get_shard_id : T → ℕ → Option ℕ
  get_shard_id tx ds_num = elim (env.sharding_sum_at ds_num) [
    | none ↦ none
    | some shards_num ↦ some (if shards_num == 0 then 0 else u32 (env.sender tx % shards_num))
  ]
