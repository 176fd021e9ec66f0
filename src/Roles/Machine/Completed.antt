-- ===== src/Roles/Machine/Completed.antt =====
-- The end of a consensus: `OnConsensusCompleted` of role_ds_base.go and role_sharding_base.go in
-- core/server/role, and the methods of the four roles that it calls. An outer `none` is a panic.
use okchain.Prelude.{
  ℕ, zero, suc, ◌%◌, Bool, true, false, [], ◌∷◌, Option, none, some, ◌==◌, if◌then◌else◌,
}
use okchain.Bft.Types.{
  ConsensusType, ds_block_consensus, micro_block_consensus, final_block_consensus,
}
use okchain.Roles.Peers.{has_peer}
use okchain.Roles.Types.{
  DsBlock, TxBlock, RoleError, handle_in_current_state, marshal_message, sign_message,
}
use okchain.Roles.ViewChange.{
  RoleType, idle, lookup, sharding_lead, sharding_backup, ds_lead, ds_backup,
}
use okchain.Roles.States.{
  StateType, dsblock_consensus, finalblock_consensus, viewchange_consensus, microblock_consensus,
  waiting_finalblock, wait4_pow_submission, wait4_microblock_submission,
}
use okchain.Roles.Machine.{
  Machine, DutyEnv, Done, Effect, wait_for_view_change, wait4_pow, finished, send_ds_block,
  send_final_block, submit_micro_block, change_state, change_role, emit, with_stage,
  with_sharding_nodes, on_ds_block_ready, on_final_block_ready, on_micro_block_consensus_started,
}
use okchain.Roles.Machine.Blocks.{enter_shard, rounds_of, when_ready}
use okchain.Roles.Machine.Waits.{
  on_ds_block_consensus_start, on_final_block_consensus_start, without_error,
}

-- A message that is marshalled, signed and sent.
unfoldable pub send : DutyEnv → Effect → Machine → Option RoleError × Machine
send env e m = if env.seals e then (none, emit e m) else (some sign_message, m)

unfoldable pub when_sent :
    Option RoleError × Machine → (Machine → Machine) → Option RoleError × Machine
when_sent (none, m) next = (none, next m)
when_sent (some e, m) next = (some e, m)

-- `onMircoBlockConsensusCompleted`
unfoldable pub on_micro_block_consensus_completed : DutyEnv → RoleType → Machine → Done
on_micro_block_consensus_completed env sharding_lead m = elim m.current_micro [
  | none ↦ some (some marshal_message, m)
  | some b ↦ some (
      when_sent (send env (submit_micro_block b m.server.committee) m)
        (change_state sharding_lead waiting_finalblock))
]
on_micro_block_consensus_completed env sharding_backup m =
    some (none, change_state sharding_backup waiting_finalblock m)
on_micro_block_consensus_completed env _ m = none

-- `onViewChangeConsensusCompleted`, by the stage of the view change block.
unfoldable pub resume_stage : DutyEnv → RoleType → ConsensusType → Machine → Done
resume_stage env sharding_lead micro_block_consensus m =
    on_micro_block_consensus_started env sharding_lead m.server.self_node
      (change_state sharding_lead microblock_consensus (with_stage micro_block_consensus m))
resume_stage env sharding_backup micro_block_consensus m = some (
  none,
  emit (wait_for_view_change sharding_backup)
      (change_state sharding_backup microblock_consensus (with_stage micro_block_consensus m)),
)
resume_stage env ds_lead ds_block_consensus m = without_error (
    on_ds_block_consensus_start env
      (change_state ds_lead dsblock_consensus (with_stage ds_block_consensus m)))
resume_stage env ds_lead final_block_consensus m = some (
  none,
  on_final_block_consensus_start env
      (change_state ds_lead finalblock_consensus (with_stage final_block_consensus m)),
)
resume_stage env ds_backup ds_block_consensus m =
    some (none, change_state ds_backup dsblock_consensus (with_stage ds_block_consensus m))
resume_stage env ds_backup final_block_consensus m =
    some (none, change_state ds_backup finalblock_consensus (with_stage final_block_consensus m))
resume_stage env idle _ m = none
resume_stage env lookup _ m = none
resume_stage env _ _ m = some (some handle_in_current_state, m)

-- The timer that the committee's backup starts before the switch.
unfoldable pub before_resume : RoleType → Machine → Machine
before_resume ds_backup m = emit (wait_for_view_change ds_backup) m
before_resume _ m = m

unfoldable pub on_view_change_consensus_completed : DutyEnv → RoleType → Machine → Done
on_view_change_consensus_completed env r m = elim m.current_vc [
  | none ↦ none
  | some b ↦ resume_stage env r b.stage (before_resume r m)
]

abbrev pub clear_pow : Machine → Machine
clear_pow m = record m { server = record m.server { pow_sub_list = [] } }

abbrev pub clear_micro_blocks : Machine → Machine
clear_micro_blocks m = record m { server = record m.server { micro_block_list = [] } }

-- A backup that leaves the committee enters its shard.
unfoldable pub join_shard : DutyEnv → Option Machine → Done
join_shard env none = none
join_shard env (some m) = elim m.server.sharding_nodes [
  | [] ↦ none
  | p ∷ ps ↦
      let r = if p.pubkey == m.server.self_node.pubkey then sharding_lead else sharding_backup in
      on_micro_block_consensus_started env r p (change_role r microblock_consensus m)
]

-- `onDsBlockConsensusCompleted` of a backup once the block is in the chain.
unfoldable pub after_ds_block_backup : DutyEnv → DsBlock → Machine → Done
after_ds_block_backup env b m =
    let joined = join_shard env (enter_shard env b (clear_pow m)) in
    if has_peer m.server.sharding_nodes m.server.self_node
    then joined
    else some (none, change_state ds_backup wait4_microblock_submission (clear_pow m))

-- `onDsBlockConsensusCompleted`
unfoldable pub ds_block_completed : DutyEnv → RoleType → DsBlock → Machine → Done
ds_block_completed env ds_lead b m =
    when_ready (on_ds_block_ready env b (clear_pow m)) (λ m1.
      some (send env (send_ds_block b) (change_role ds_backup wait4_microblock_submission m1)))
ds_block_completed env ds_backup b m =
    when_ready (on_ds_block_ready env b m) (after_ds_block_backup env b)
ds_block_completed env _ b m = none

unfoldable pub on_ds_block_consensus_completed : DutyEnv → RoleType → Machine → Done
on_ds_block_consensus_completed env r m = elim m.current_ds [
  | none ↦ none
  | some b ↦ ds_block_completed env r b m
]

-- The end of a round of the committee: whether the next DS block is due.
unfoldable pub enter_wait : RoleType → Bool → Machine → Machine
enter_wait r true m = emit (wait4_pow r) (change_state r wait4_pow_submission m)
enter_wait r false m = change_state r wait4_microblock_submission m

unfoldable pub forget_shard : Bool → Machine → Machine
forget_shard true m = with_sharding_nodes [] m
forget_shard false m = m

-- `onFinalBlockConsensusCompleted` once the block is in the chain; `due` is its test.
unfoldable pub final_block_completed : DutyEnv → RoleType → TxBlock → Bool → Machine → Done
final_block_completed env ds_lead b due m =
    some (when_sent (send env (send_final_block b) (enter_wait ds_lead due m)) (forget_shard due))
final_block_completed env ds_backup b due m =
    some (none, forget_shard due (enter_wait ds_backup due m))
final_block_completed env _ b due m = none

unfoldable pub by_round : Option ℕ → ℕ → (Bool → Done) → Done
by_round none number next = none
by_round (some zero) number next = none
by_round (some (suc d)) number next = next (number % suc d == 0)

unfoldable pub on_final_block_consensus_completed : DutyEnv → RoleType → Machine → Done
on_final_block_consensus_completed env r m = elim m.current_final [
  | none ↦ none
  | some b ↦ when_ready (some (on_final_block_ready env b m)) (λ m1.
      by_round (rounds_of m1.server) b.block_number
        (λ due. final_block_completed env r b due (clear_micro_blocks m1)))
]

-- `OnConsensusCompleted` of the two bases, by the state of the role.
unfoldable pub completed_sharding : DutyEnv → RoleType → StateType → Machine → Done
completed_sharding env r microblock_consensus m = on_micro_block_consensus_completed env r m
completed_sharding env r viewchange_consensus m = on_view_change_consensus_completed env r m
completed_sharding env r _ m = some (some handle_in_current_state, m)

unfoldable pub completed_ds : DutyEnv → RoleType → StateType → Machine → Done
completed_ds env r dsblock_consensus m = on_ds_block_consensus_completed env r m
completed_ds env r finalblock_consensus m = on_final_block_consensus_completed env r m
completed_ds env r viewchange_consensus m = on_view_change_consensus_completed env r m
completed_ds env r _ m = some (some handle_in_current_state, m)

unfoldable pub by_base : DutyEnv → RoleType → StateType → Machine → Done
by_base env idle s m = completed_sharding env idle s m
by_base env sharding_lead s m = completed_sharding env sharding_lead s m
by_base env sharding_backup s m = completed_sharding env sharding_backup s m
by_base env ds_lead s m = completed_ds env ds_lead s m
by_base env ds_backup s m = completed_ds env ds_backup s m
by_base env _ s m = none

-- `OnConsensusCompleted` of the role `r`, whose state decides.
unfoldable pub on_consensus_completed : DutyEnv → RoleType → Machine → Done
on_consensus_completed env r m = elim (m.states r) [
  | none ↦ none
  | some s ↦ by_base env r s (emit finished m)
]
