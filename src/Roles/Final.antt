-- ===== src/Roles/Final.antt =====
-- `composeFinalBlock` of core/server/role/role_ds_base.go and `verifyFinalBlock` of role_ds_backup.go.
pub mod Laws
pub mod Orders
use okchain.Prelude.{
  ℕ, ◌+◌, Bool, true, false, not, List, [], ◌∷◌, ◌++◌, ltb, ◌==◌, if◌then◌else◌, u32, u64,
}
use okchain.Prelude.Result.{Result, ok, err}
use okchain.Bft.Types.{Bytes}
use okchain.Bft.Backup.Adopt.{Bytes-discrete, sort_bytes}
use okchain.Roles.GasLimit.{calc_gas_limit}
use okchain.Roles.Types.{
  Tx, MicroBlock, TxBlock, Server, RoleEnv, RoleError, no_microblock, verify_block,
}

-- One round of the loop of `composeFinalBlock` over the micro blocks.
unfoldable pub add_micro_block : RoleEnv → TxBlock → MicroBlock → TxBlock
add_micro_block env b m = record b {
  tx_num = u64 (b.tx_num + m.tx_num);
  gas_used = u64 (b.gas_used + m.gas_used);
  sharding_lead_coin_base = b.sharding_lead_coin_base ++ m.sharding_lead_coin_base ∷ [];
  number_of_micro_block = u32 (b.number_of_micro_block + 1);
  transactions = b.transactions ++ m.transactions;
  micro_block_hashes = b.micro_block_hashes ++ env.micro_header_hash m ∷ [];
}

unfoldable pub add_micro_blocks : RoleEnv → TxBlock → List MicroBlock → TxBlock
add_micro_blocks env b [] = b
add_micro_blocks env b (m ∷ ms) = add_micro_blocks env (add_micro_block env b m) ms

-- The block before the loop: what is taken from the first micro block.
unfoldable pub start_final_block : RoleEnv → Server → MicroBlock → TxBlock
start_final_block env s m = record {
  ds_block_hash = m.ds_block_hash;
  ds_block_num = m.ds_block_num;
  block_number = m.block_number;
  version = m.version;
  ds_coin_base = s.coin_base ∷ [];
  miner = s.self_node;
  tx_num = 0;
  gas_used = 0;
  gas_limit = 0;
  sharding_lead_coin_base = [];
  number_of_micro_block = 0;
  transactions = [];
  micro_block_hashes = [];
  tx_root = 0;
  previous_block_hash = env.tx_hash s.tx_current;
}

-- The sum of the transactions' gas limits.
unfoldable pub sum_gas_limits : ℕ → List Tx → ℕ
sum_gas_limits sum [] = sum
sum_gas_limits sum (tx ∷ txs) = sum_gas_limits (u64 (sum + tx.gas_limit)) txs

unfoldable pub final_gas_limit : Server → List Tx → ℕ
final_gas_limit s txs =
    let sum = sum_gas_limits 0 txs in
    let gas_limit = calc_gas_limit s.tx_current.gas_limit s.tx_current.gas_used in
    if ltb sum gas_limit then gas_limit else sum

-- `composeFinalBlock`
unfoldable pub compose_final_from : RoleEnv → Server → List MicroBlock → Result RoleError TxBlock
compose_final_from env s [] = err no_microblock
compose_final_from env s (m ∷ ms) =
    let b : TxBlock = add_micro_blocks env (start_final_block env s m) (m ∷ ms) in
    ok (record b {
      gas_limit = final_gas_limit s b.transactions;
      tx_root = env.merkel_root b.transactions;
    })

unfoldable pub compose_final_block : RoleEnv → Server → Result RoleError TxBlock
compose_final_block env s = compose_final_from env s s.micro_block_list

-- `reflect.DeepEqual` of the sorted texts.
unfoldable pub same_texts : List Bytes → List Bytes → Bool
same_texts xs ys = elim (Bytes-discrete (sort_bytes xs) (sort_bytes ys)) [
  | yes _ ↦ true
  | no _ ↦ false
]

-- `verifyFinalBlock` of a block that is read, against the own one; `ok` is the new current block.
unfoldable pub verify_final_block : RoleEnv → TxBlock → TxBlock → Result RoleError TxBlock
verify_final_block env own b =
    if not (same_texts own.micro_block_hashes b.micro_block_hashes)
    then err verify_block
    else if not (same_texts own.sharding_lead_coin_base b.sharding_lead_coin_base)
    then err verify_block
    else if not (b.number_of_micro_block == own.number_of_micro_block)
    then err verify_block
    else if not (b.tx_num == own.tx_num)
    then err verify_block
    else if not (b.ds_block_num == own.ds_block_num)
    then err verify_block
    else if not (b.previous_block_hash == own.previous_block_hash)
    then err verify_block
    else if not (env.merkel_root b.transactions == b.tx_root)
    then err verify_block
    else ok b
