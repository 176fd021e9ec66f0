-- ===== src/Roles/Machine/Revert.antt =====
-- `RevertRole` of core/server/role/revert.go: a node that starts again takes its role from the
-- current blocks of its two chains. An outer `none` is a panic or a call that never returns.
pub mod Resumes
use okchain.Prelude.{
  ℕ, zero, suc, ◌*◌, ◌%◌, Bool, true, false, not, List, [], ◌∷◌, Option, none, some, ltb, ◌==◌,
  if◌then◌else◌, length, get_elem?, u64,
}
use okchain.Roles.Peers.{Peer, has_peer}
use okchain.Roles.Sharding.{reset_sharding_map}
use okchain.Roles.Types.{DsBlock, TxBlock, Server}
use okchain.Roles.ViewChange.{
  RoleType, idle, lookup, sharding_lead, sharding_backup, ds_lead, ds_backup,
}
use okchain.Roles.States.{
  StateType, wait4_pow_submission, wait4_microblock_submission, microblock_consensus,
  waiting_dsblock, state_idle,
}
use okchain.Roles.Machine.{
  Machine, DutyEnv, Done, wait4_pow, submit_pow, change_state, change_role, update_leader, emit,
  adopt_ds_block, on_micro_block_consensus_started,
}
use okchain.Roles.Machine.Blocks.{enter_shard}

-- `onDsBlockReady` and `onFinalBlockReady` of revert.go, on the current blocks.
unfoldable pub revert_blocks : Machine → Option Machine
revert_blocks m =
    elim (reset_sharding_map m.server.sharding_size m.server.ds_current.sharding_nodes) [
      | none ↦ none
      | some dealt ↦ some (record (adopt_ds_block m.server.ds_current dealt m) {
        current_final = some m.server.tx_current;
      })
    ]

-- `shardingSize`: the number of the nodes, where they are fewer.
unfoldable pub revert_size : Server → ℕ
revert_size s =
    let nodes_num = length s.ds_current.sharding_nodes in
    if ltb nodes_num s.sharding_size then nodes_num else s.sharding_size

-- A shard's node takes up the round of micro blocks.
unfoldable pub revert_round : DutyEnv → Option Peer → Machine → Done
revert_round env none m = none
revert_round env (some p) m =
    if p.pubkey == m.server.self_node.pubkey
    then on_micro_block_consensus_started env sharding_lead p
        (change_role sharding_lead microblock_consensus m)
    else on_micro_block_consensus_started env sharding_backup p
        (update_leader sharding_backup p (change_role sharding_backup microblock_consensus m))

-- `startPowLead` and `startPowBackup`; `mined` is whether the miner gives no error. The callers
-- drop the error.
unfoldable pub start_pow : DutyEnv → RoleType → Bool → Machine → Machine
start_pow env r false m = m
start_pow env r true m =
    let pow = submit_pow m.server.committee in
    if env.seals pow then change_state r waiting_dsblock (emit pow m) else m

-- A shard's node mines for the next DS block.
unfoldable pub revert_pow : DutyEnv → Bool → Option Peer → Machine → Done
revert_pow env mined none m = none
revert_pow env mined (some p) m = some (
  none,
  (if p.pubkey == m.server.self_node.pubkey
      then start_pow env sharding_lead mined (change_role sharding_lead waiting_dsblock m)
      else start_pow env sharding_backup mined
          (update_leader sharding_backup p (change_role sharding_backup waiting_dsblock m))),
)

-- The branch of a shard's node: `number % shardingSize` panics at 0.
unfoldable pub revert_sharding : (Option Peer → Machine → Done) → DutyEnv → ℕ → Machine → Done
revert_sharding take env zero m = none
revert_sharding take env (suc d) m = elim (enter_shard env m.server.ds_current m) [
  | none ↦ none
  | some m1 ↦
      take (get_elem? m1.server.sharding_nodes (m1.server.tx_current.block_number % suc d)) m1
]

-- The branches of a node of the committee.
unfoldable pub revert_ds_lead : Bool → Machine → Machine
revert_ds_lead true m = emit (wait4_pow ds_lead) (change_role ds_lead wait4_pow_submission m)
revert_ds_lead false m = change_role ds_lead wait4_microblock_submission m

unfoldable pub revert_ds_backup : Bool → Machine → Machine
revert_ds_backup true m = emit (wait4_pow ds_backup) (
    update_leader ds_backup m.server.ds_current.new_leader
      (change_role ds_backup wait4_pow_submission m))
revert_ds_backup false m =
    update_leader ds_backup m.server.ds_current.new_leader
      (change_role ds_backup wait4_microblock_submission m)

-- `ChangeRole` to the idle role. `ChangeState` takes the lock of the idle role's object: a caller
-- that holds it waits for itself, and the call never returns.
unfoldable pub revert_idle : Bool → Machine → Done
revert_idle true m = none
revert_idle false m = some (none, change_role idle state_idle m)

-- The three tests of a node's part; `due` is whether the next DS block is, and `locked` whether the
-- caller holds the lock of the idle role's object.
unfoldable pub revert_as : DutyEnv → Bool → Bool → Bool → Machine → Done
revert_as env locked due mined m =
    let sharding =
      revert_sharding (if due then revert_pow env mined else revert_round env) env
        (revert_size m.server) m in
    if m.server.self_node.pubkey == m.server.ds_current.winner_pub_key
    then some (none, revert_ds_lead due m)
    else if has_peer m.server.committee m.server.self_node
    then some (none, revert_ds_backup due m)
    else if has_peer m.server.ds_current.sharding_nodes m.server.self_node
    then sharding
    else revert_idle locked m

-- The comparison of the numbers of the two chains.
unfoldable pub revert_numbers : DutyEnv → Bool → Bool → Machine → Done
revert_numbers env locked mined m =
    let last = u64 (m.server.ds_current.block_number * revert_size m.server) in
    let round = revert_as env locked false mined m in
    let next = revert_as env locked true mined m in
    if ltb m.server.tx_current.block_number last
    then round
    else if m.server.tx_current.block_number == last
    then next
    else some (none, m)

-- `RevertRole`; a lookup node keeps its role.
unfoldable pub revert_role : DutyEnv → Bool → Bool → Machine → Done
revert_role env locked mined m = elim (revert_blocks m) [
  | none ↦ none
  | some m1 ↦ elim m1.role [ lookup ↦ some (none, m1) | _ ↦ revert_numbers env locked mined m1 ]
]
