-- ===== src/Roles/Machine/Waits.antt =====
-- The committee's next consensus: `onWait4PoWSubmissionDone`, `onWait4MicroBlockSubmissionDone` and
-- the starts of a consensus, of role_ds_lead.go and role_ds_backup.go in core/server/role, with
-- `Wait4PoWSubmission` of role_ds_base.go. An outer `none` is a panic.
use okchain.Prelude.{List, [], ◌∷◌, Option, none, some, if◌then◌else◌}
use okchain.Prelude.Result.{Result, ok, err}
use okchain.Bft.Types.{ConsensusType, ds_block_consensus, final_block_consensus, Bytes}
use okchain.Roles.Peers.{Peer}
use okchain.Roles.Types.{DsBlock, TxBlock, RoleError, compose_block, get_coinbase}
use okchain.Roles.Submit.{sort_pow}
use okchain.Roles.Compose.{compose_ds_block}
use okchain.Roles.Final.{compose_final_block}
use okchain.Roles.ViewChange.{RoleType, ds_lead, ds_backup}
use okchain.Roles.States.{dsblock_consensus, finalblock_consensus}
use okchain.Roles.Machine.{
  Machine, DutyEnv, Done, wait_for_view_change, wait4_pow, announce, change_state, update_leader,
  emit, with_stage,
}

-- `SetCurrentConsensusStage` and `InitiateConsensus`, once the announcement is made.
unfoldable pub initiate : DutyEnv → ConsensusType → Machine → Machine
initiate env c m =
    let out = announce c m.server.committee in
    if env.seals out then emit out (with_stage c m) else m

-- The own block of the leader; an error of composing it ends the start.
unfoldable pub initiate_ds : DutyEnv → Option (Result RoleError DsBlock) → Machine → Option Machine
initiate_ds env none m = none
initiate_ds env (some (err e)) m = some m
initiate_ds env (some (ok b)) m =
    some (initiate env ds_block_consensus (record m { current_ds = some b }))

unfoldable pub initiate_final : DutyEnv → Result RoleError TxBlock → Machine → Machine
initiate_final env (err e) m = m
initiate_final env (ok b) m =
    initiate env final_block_consensus (record m { current_final = some b })

-- `onDsBlockConsensusStart` of the leader.
unfoldable pub on_ds_block_consensus_start : DutyEnv → Machine → Option Machine
on_ds_block_consensus_start env m =
    let m1 = emit (wait_for_view_change ds_lead) m in
    initiate_ds env (compose_ds_block env.roles m1.server) m1

-- `onFinalBlockConsensusStart` of the leader.
unfoldable pub on_final_block_consensus_start : DutyEnv → Machine → Machine
on_final_block_consensus_start env m =
    let m1 = emit (wait_for_view_change ds_lead) m in
    initiate_final env (compose_final_block env.roles m1.server) m1

unfoldable pub without_error : Option Machine → Done
without_error none = none
without_error (some m) = some (none, m)

-- The own DS block of a backup.
unfoldable pub keep_ds_block : Option (Result RoleError DsBlock) → Machine → Done
keep_ds_block none m = none
keep_ds_block (some (err e)) m = some (some compose_block, m)
keep_ds_block (some (ok b)) m = some (none, record m { current_ds = some b })

-- The own final block of a backup, with the coinbase of the leader.
unfoldable pub keep_final_block :
    Option Bytes → Result RoleError TxBlock → Machine → Option RoleError × Machine
keep_final_block coinbase (err e) m = (some compose_block, m)
keep_final_block none (ok b) m = (some get_coinbase, m)
keep_final_block (some c) (ok b) m =
    (none, record m { current_final = some (record b { ds_coin_base = c ∷ [] }) })

-- `onWait4PoWSubmissionDone` with a list that is not empty.
unfoldable pub pow_submission_done : DutyEnv → RoleType → Machine → Done
pow_submission_done env ds_lead m =
    without_error (on_ds_block_consensus_start env (change_state ds_lead dsblock_consensus m))
pow_submission_done env ds_backup m =
    let m1 =
      emit (wait_for_view_change ds_backup)
        (with_stage ds_block_consensus (change_state ds_backup dsblock_consensus m)) in
    keep_ds_block (compose_ds_block env.roles m1.server) m1
pow_submission_done env _ m = none

-- The end of `Wait4PoWSubmission`: the list is sorted, and an empty one is waited for again.
unfoldable pub wait4_pow_submission_done : DutyEnv → RoleType → Machine → Done
wait4_pow_submission_done env r m =
    let m1 : Machine = record m {
      server = record m.server { pow_sub_list = sort_pow env.roles m.server.pow_sub_list };
    } in
    elim m1.server.pow_sub_list [
      | [] ↦ some (none, emit (wait4_pow r) m1)
      | p ∷ ps ↦ pow_submission_done env r m1
    ]

-- The backup's part of `onWait4MicroBlockSubmissionDone` from `UpdateLeader` on.
unfoldable pub follow_head : DutyEnv → List Peer → Machine → Done
follow_head env [] m = none
follow_head env (p ∷ ps) m =
    let m1 = update_leader ds_backup p m in
    some (keep_final_block (env.coinbase_of p.pubkey) (compose_final_block env.roles m1.server) m1)

-- `onWait4MicroBlockSubmissionDone`
unfoldable pub on_wait4_micro_block_submission_done : DutyEnv → RoleType → Machine → Done
on_wait4_micro_block_submission_done env ds_lead m =
    some (none, on_final_block_consensus_start env (change_state ds_lead finalblock_consensus m))
on_wait4_micro_block_submission_done env ds_backup m =
    let m1 =
      emit (wait_for_view_change ds_backup)
        (with_stage final_block_consensus (change_state ds_backup finalblock_consensus m)) in
    follow_head env m1.server.committee m1
on_wait4_micro_block_submission_done env _ m = none
