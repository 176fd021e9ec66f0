-- ===== src/Roles/Examples.antt =====
-- Tests of the shards, the submissions and the blocks of the committee, and their theorems on a
-- small network.
use mathlib.Core.Option
use okchain.Prelude.{List, ℕ, ◌<◌, ◌≡◌, refl, true, [], ◌∷◌, ◌++◌, none, some, length, arith}
use mathlib.Core.List.Perm
use mathlib.Core.List.{Perm}
use okchain.Prelude.Result.{ok}
use okchain.Roles.Peers.{
  sort_by_pubkey, insert_by_pubkey, enqueue_and_dequeue_tail, drop_tail, last_peer,
}
use okchain.Roles.Sharding.{
  PeerEndpointMap, append_at, fill_map, reset_sharding_map, own_shard, shard_nodes,
  init_sharding_node_info, ShardInfo,
}
use okchain.Roles.Sharding.Deal.{all_shards}
use okchain.Roles.Sharding.Agree.{init_sharding_node_info-Agrees}
use okchain.Roles.Types.{MicroBlock, TxBlock, DsBlock, Server}
use okchain.Roles.Submit.{
  process_pow_submission, process_micro_block_submission, check_micro_block, check_marks, has_pow,
  check_pow, append_pow, after_checks, marks_error, sort_shard, count_error, micro_expected,
  key_error, append_micro_block, has_micro_block,
}
use okchain.Bft.Marks.{count_true, multi_pubkey_verify, check_composed, sum_keys}
use okchain.Bft.Quorum.{tolerance_size}
use okchain.Roles.Submit.Checked.{IsHandled, process_micro_block_submission-IsHandled}
use okchain.Roles.TxShard.{TxEnv, filter_txs, is_filtered, correspond_shard_id}
use okchain.Roles.TxShard.Laws.{kept_below, filter_txs-Perm}
use okchain.Roles.Compose.{
  compose_ds_block, compose_from, verify_ds_block, make_ds_block, pow_peers, kept_pows,
  sharding_sum_of,
}
use okchain.Roles.Compose.Laws.{IsReassigned, compose_ds_block-IsReassigned}
use okchain.Roles.Compose.Shards.{compose_ds_block-FillsShards}
use okchain.Roles.Compose.Checks.{
  altered, verify_ds_block-compose_ds_block, verify_ds_block-altered,
}
use okchain.Roles.Final.{
  add_micro_blocks, start_final_block, verify_final_block, final_gas_limit, compose_final_block,
  compose_final_from,
}
use okchain.Roles.Final.Orders.{verify_final_block-compose_final_block}
use okchain.Roles.Samples.{
  peer, shard_peers, pow_of, pows, server, role_env, message, bls, micro_block,
}

abbrev dealt_map : PeerEndpointMap
dealt_map = append_at (fill_map 2 1 3 (peer 12 ∷ peer 13 ∷ peer 14 ∷ []) (λ _. [])) 0 (peer 11)

dealt_made : reset_sharding_map 2 shard_peers ≡ some dealt_map
unfolding reset_sharding_map
dealt_made = refl

abbrev shard_zero : ShardInfo
shard_zero = record { sharding_id = 0; sharding_nodes = peer 11 ∷ peer 13 ∷ [] }

own_zero : init_sharding_node_info bls.sort_key 2 shard_peers 13 ≡ some shard_zero
unfolding init_sharding_node_info own_shard shard_nodes sort_by_pubkey insert_by_pubkey
own_zero = refl

init_sharding_node_info-Agrees_example : Perm (peer 11 ∷ peer 13 ∷ []) (dealt_map 0)
init_sharding_node_info-Agrees_example =
    init_sharding_node_info-Agrees bls.sort_key 2 shard_peers 13 dealt_map shard_zero (omega arith)
      refl dealt_made own_zero

-- The miner's verdict is false, and the result is accepted.
process_pow_submission_accepts :
    (process_pow_submission role_env server message).0.pow_sub_list ≡ pows ++ pow_of 25 ∷ []
unfolding process_pow_submission check_pow append_pow has_pow
process_pow_submission_accepts = refl

process_micro_block_submission-IsHandled_example :
    IsHandled role_env
      (λ s. (s, none))
      server
      message
      (process_micro_block_submission role_env (λ s. (s, none)) server message)
process_micro_block_submission-IsHandled_example =
    process_micro_block_submission-IsHandled role_env (λ s. (s, none)) server message

-- The block is added.
process_micro_block_submission_adds :
    Option.map
      (λ r. length r.0.micro_block_list)
      (process_micro_block_submission role_env (λ s. (s, none)) server message)
    ≡ some 1
unfolding process_micro_block_submission check_micro_block check_marks after_checks marks_error
    sort_shard sort_by_pubkey insert_by_pubkey count_error micro_expected count_true tolerance_size
    key_error multi_pubkey_verify check_composed sum_keys append_micro_block has_micro_block
process_micro_block_submission_adds = refl

abbrev tx_env : TxEnv ℕ
tx_env = record {
  sender = λ tx. tx;
  verify_hash = λ tx. (true, true);
  sharding_sum_at = λ n. some 2;
}

filter_txs-Perm_example : Perm (kept_below tx_env 2 2 (5 ∷ 8 ∷ 7 ∷ [])) (5 ∷ 8 ∷ 7 ∷ [])
filter_txs-Perm_example = filter_txs-Perm tx_env 2 (5 ∷ 8 ∷ 7 ∷ []) (omega arith) (omega arith)

filter_txs_odd : filter_txs tx_env 1 2 (5 ∷ 8 ∷ 7 ∷ []) ≡ 5 ∷ 7 ∷ []
unfolding filter_txs is_filtered correspond_shard_id
filter_txs_odd = refl

-- The block of the four mining results: 24 leads, and 4 leaves the committee.
abbrev composed : DsBlock
composed =
    make_ds_block role_env server (pow_of 24) (pow_of 23 ∷ pow_of 22 ∷ pow_of 21 ∷ []) 2 (peer 4)

compose_ds_block_lists :
    (composed.committee ≡ peer 24 ∷ peer 1 ∷ peer 2 ∷ peer 3 ∷ [])
    × (composed.sharding_nodes ≡ peer 4 ∷ peer 23 ∷ peer 22 ∷ peer 21 ∷ [])
unfolding make_ds_block enqueue_and_dequeue_tail drop_tail pow_peers kept_pows
compose_ds_block_lists = (refl, refl)

composes : compose_ds_block role_env server ≡ some (ok composed)
unfolding compose_ds_block compose_from last_peer
composes = refl

compose_ds_block-IsReassigned_example : IsReassigned server composed
compose_ds_block-IsReassigned_example =
    compose_ds_block-IsReassigned role_env server composed composes

two_shards : 1 < composed.sharding_sum
unfolding make_ds_block sharding_sum_of
two_shards = omega arith

compose_ds_block-FillsShards_example :
    (m : PeerEndpointMap) × (reset_sharding_map 2 composed.sharding_nodes ≡ some m)
    × (length (m 1) ≡ 2)
    × Perm (all_shards composed.sharding_sum m) composed.sharding_nodes
compose_ds_block-FillsShards_example =
    compose_ds_block-FillsShards role_env server composed 1 composes (omega arith) (omega arith)
      two_shards

abbrev backup : Server
backup = record server { self_node = peer 3; sharding_nodes = [] }

accepts : verify_ds_block role_env backup composed ≡ some (ok composed)
accepts =
    verify_ds_block-compose_ds_block role_env server backup composed (pow_of 24) composes refl refl
      refl refl refl refl

verify_ds_block-compose_ds_block_example :
    verify_ds_block role_env backup composed ≡ some (ok composed)
verify_ds_block-compose_ds_block_example =
    verify_ds_block-compose_ds_block role_env server backup composed (pow_of 24) composes refl refl
      refl refl refl refl

-- A committee of one stranger.
verify_ds_block-altered_example :
    verify_ds_block role_env backup (altered composed (peer 99 ∷ []) (peer 98 ∷ []))
    ≡ some (ok (altered composed (peer 99 ∷ []) (peer 98 ∷ [])))
verify_ds_block-altered_example =
    verify_ds_block-altered role_env backup composed (peer 99 ∷ []) (peer 98 ∷ []) accepts

-- The final block of two micro blocks, and the same blocks in the other order.
abbrev other_micro_block : MicroBlock
other_micro_block = record micro_block { shard_id = 1; tx_num = 2; sharding_lead_coin_base = 7 }

abbrev in_order : Server
in_order = record server { micro_block_list = micro_block ∷ other_micro_block ∷ [] }

abbrev in_other_order : Server
in_other_order = record server {
  self_node = peer 3;
  micro_block_list = other_micro_block ∷ micro_block ∷ [];
}

abbrev final_of : Server → List MicroBlock → MicroBlock → TxBlock
final_of s ms m =
    let b : TxBlock = add_micro_blocks role_env (start_final_block role_env s m) ms in
    record b {
      gas_limit = final_gas_limit s b.transactions;
      tx_root = role_env.merkel_root b.transactions;
    }

abbrev leader_block : TxBlock
leader_block = final_of in_order in_order.micro_block_list micro_block

abbrev backup_block : TxBlock
backup_block = final_of in_other_order in_other_order.micro_block_list other_micro_block

leader_composes : compose_final_block role_env in_order ≡ ok leader_block
unfolding compose_final_block compose_final_from
leader_composes = refl

backup_composes : compose_final_block role_env in_other_order ≡ ok backup_block
unfolding compose_final_block compose_final_from
backup_composes = refl

verify_final_block-compose_final_block_example :
    verify_final_block role_env backup_block leader_block ≡ ok leader_block
verify_final_block-compose_final_block_example =
    verify_final_block-compose_final_block role_env in_order in_other_order leader_block
      backup_block 3 leader_composes backup_composes (Perm.swap micro_block other_micro_block [])
      (refl, (refl, tt)) (refl, (refl, tt)) refl
