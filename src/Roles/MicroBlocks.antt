-- ===== src/Roles/MicroBlocks.antt =====
-- A shard's block: `composeMicroblock` of role_sharding_lead.go and `verifyMicroBlock` of
-- role_sharding_backup.go, in core/server/role.
pub mod Agreed
mod Examples
use okchain.Prelude.{
  ℕ, ◌+◌, Bool, true, false, not, List, [], ◌∷◌, Option, none, some, ◌==◌, if◌then◌else◌, length,
  u64,
}
use okchain.Prelude.Result.{Result, ok, err}
use okchain.Roles.Types.{
  Tx, MicroBlock, Server, RoleEnv, RoleError, unmarshal_message, verify_block, verify_transaction,
}
use okchain.Roles.TxShard.{TxEnv, filter_txs, is_tx_validated}

-- What both use of the transactions: `txs` is their signer, `gas_price` is `GasPrice`.
pub record PoolEnv : Type 0 where
  pub roles : RoleEnv
  pub txs : TxEnv Tx
  pub gas_price : Tx → ℕ

-- The loop over `mb.Header.GasUsed`.
unfoldable pub sum_gas_prices : PoolEnv → ℕ → List Tx → ℕ
sum_gas_prices env sum [] = sum
sum_gas_prices env sum (tx ∷ txs) = sum_gas_prices env (u64 (sum + env.gas_price tx)) txs

-- `composeMicroblock`, of the shard `id`; `pending` is `PendingTxList`.
unfoldable pub compose_microblock : PoolEnv → ℕ → Server → List Tx → MicroBlock
compose_microblock env id s pending =
    let kept = filter_txs env.txs id s.ds_current.sharding_sum pending in
    record {
      ds_block_num = s.ds_current.block_number;
      ds_block_hash = env.roles.ds_hash s.ds_current;
      block_number = u64 (s.tx_current.block_number + 1);
      version = 1;
      tx_num = length kept;
      gas_used = sum_gas_prices env 0 kept;
      bool_map = [];
      multi_pub_key = 0;
      shard_id = id;
      miner = s.self_node;
      sharding_lead_coin_base = s.coin_base;
      transactions = kept;
      tx_root = env.roles.merkel_root kept;
    }

-- The loop over the block's transactions.
unfoldable pub all_validated : PoolEnv → ℕ → ℕ → List Tx → Bool
all_validated env id shards_num [] = true
all_validated env id shards_num (tx ∷ txs) =
    let rest = all_validated env id shards_num txs in
    if not (is_tx_validated env.txs id shards_num tx) then false else rest

-- The tests of the block, which becomes the current one where they pass.
unfoldable pub check_micro_fields : PoolEnv → ℕ → Server → MicroBlock → Result RoleError MicroBlock
check_micro_fields env id s b =
    if not (b.shard_id == id)
    then err verify_block
    else if not (b.ds_block_num == s.ds_current.block_number)
    then err verify_block
    else if not (b.ds_block_hash == env.roles.ds_hash s.ds_current)
    then err verify_block
    else if not (all_validated env id s.ds_current.sharding_sum b.transactions)
    then err verify_transaction
    else if not (env.roles.merkel_root b.transactions == b.tx_root)
    then err verify_block
    else ok b

-- `verifyMicroBlock`, of the shard `id`, of the block in the payload where it can be read.
unfoldable pub verify_micro_block :
    PoolEnv → ℕ → Server → Option MicroBlock → Result RoleError MicroBlock
verify_micro_block env id s none = err unmarshal_message
verify_micro_block env id s (some b) = check_micro_fields env id s b
