-- ===== src/Roles/MicroBlocks/Examples.antt =====
-- The micro blocks of the two shards of Roles.Samples, of three pending transactions.
use okchain.Prelude.{ℕ, ◌≡◌, ◌↔◌, refl, true, List, [], ◌∷◌, some, arith, get_elem?}
use okchain.Prelude.Result.{ok}
use okchain.Roles.Types.{Tx, MicroBlock, Server}
use okchain.Roles.Samples.{peer, server, role_env}
use okchain.Roles.TxShard.{filter_txs, is_filtered, is_tx_validated, correspond_shard_id}
use okchain.Roles.MicroBlocks.{
  PoolEnv, sum_gas_prices, compose_microblock, all_validated, check_micro_fields,
  verify_micro_block,
}
use okchain.Roles.MicroBlocks.Agreed.{
  AreSigned, AreApart, verify_micro_block-AreApart, verify_micro_block-compose_microblock,
}

abbrev env : PoolEnv
env = record {
  roles = role_env;
  txs = record {
    sender = λ (tx : Tx). tx.content;
    verify_hash = λ tx. (true, true);
    sharding_sum_at = λ n. some 2;
  };
  gas_price = λ tx. 3;
}

abbrev tx_of : ℕ → Tx
tx_of n = record { gas_limit = 21000; content = n }

abbrev pending : List Tx
pending = tx_of 5 ∷ tx_of 8 ∷ tx_of 7 ∷ []

abbrev block_of : ℕ → MicroBlock
block_of id = compose_microblock env id server pending

abbrev other_server : Server
other_server = record server { self_node = peer 12 }

compose_microblock_used : ((block_of 1).gas_used ≡ 6) × ((block_of 1).tx_num ≡ 2)
unfolding compose_microblock sum_gas_prices filter_txs is_filtered correspond_shard_id
compose_microblock_used = (refl, refl)

first_accepted : verify_micro_block env 0 other_server (some (block_of 0)) ≡ ok (block_of 0)
unfolding verify_micro_block check_micro_fields compose_microblock sum_gas_prices all_validated
    is_tx_validated filter_txs is_filtered correspond_shard_id
first_accepted = refl

second_accepted : verify_micro_block env 1 other_server (some (block_of 1)) ≡ ok (block_of 1)
unfolding verify_micro_block check_micro_fields compose_microblock sum_gas_prices all_validated
    is_tx_validated filter_txs is_filtered correspond_shard_id
second_accepted = refl

first_get : get_elem? (block_of 0).transactions 0 ≡ some (tx_of 8)
unfolding compose_microblock filter_txs is_filtered correspond_shard_id
first_get = refl

second_get : get_elem? (block_of 1).transactions 1 ≡ some (tx_of 7)
unfolding compose_microblock filter_txs is_filtered correspond_shard_id
second_get = refl

verify_micro_block-AreApart_example : AreApart env (tx_of 8) (tx_of 7)
verify_micro_block-AreApart_example =
    verify_micro_block-AreApart env 0 1 other_server other_server (block_of 0) (block_of 1)
      (block_of 0) (block_of 1) 0 1 (tx_of 8) (tx_of 7) (omega arith) refl first_accepted
      second_accepted first_get second_get

verify_micro_block-compose_microblock_example :
    (verify_micro_block env 1 other_server (some (compose_microblock env 1 server pending))
      ≡ ok (compose_microblock env 1 server pending))
    ↔ AreSigned env 1 2 pending
verify_micro_block-compose_microblock_example =
    verify_micro_block-compose_microblock env 1 server other_server pending refl
