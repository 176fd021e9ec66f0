-- ===== src/Roles/Machine/Steps/Callbacks.antt =====
-- `OnConsensusCompleted` keeps each role object in the states of its role.
use okchain.Prelude.{ℕ, zero, suc, ◌%◌, ◌≡◌, refl, Bool, true, false, Option, none, some, ◌==◌}
use okchain.Roles.Types.{DsBlock, TxBlock}
use okchain.Roles.ViewChange.{
  RoleType, idle, lookup, sharding_lead, sharding_backup, ds_lead, ds_backup,
}
use okchain.Roles.States.{
  StateType, is_matched, dsblock_consensus, finalblock_consensus, viewchange_consensus,
  microblock_consensus, wait4_pow_submission, wait4_microblock_submission,
}
use okchain.Roles.Machine.{
  Machine, DutyEnv, Done, finished, send_final_block, emit, on_final_block_ready,
}
use okchain.Roles.Machine.Blocks.{rounds_of, when_ready}
use okchain.Roles.Machine.Completed.{
  send, clear_micro_blocks, ds_block_completed, on_ds_block_consensus_completed, enter_wait,
  forget_shard, final_block_completed, by_round, on_final_block_consensus_completed,
  completed_sharding, completed_ds, by_base, on_consensus_completed,
}
use okchain.Roles.Machine.Steps.Placed.{
  Placed, Keeps, Option_rule, change_state-Placed, on_final_block_ready-Placed,
}
use okchain.Roles.Machine.Steps.Arrivals.{when_ready-Keeps}
use okchain.Roles.Machine.Steps.Completes.{
  send-Placed, when_sent-Placed, micro_completed-Keeps, view_change_completed-Keeps,
  ds_block_completed-Keeps,
}

enter_wait-Placed :
    (r : RoleType) (due : Bool) (m : Machine)
    → is_matched r wait4_pow_submission ≡ true
    → is_matched r wait4_microblock_submission ≡ true
    → Placed m
    → Placed (enter_wait r due m)
unfolding enter_wait
enter_wait-Placed r true m e e' p = change_state-Placed r wait4_pow_submission m e p
enter_wait-Placed r false m e e' p = change_state-Placed r wait4_microblock_submission m e' p

forget_shard-Placed : (due : Bool) (m : Machine) → Placed m → Placed (forget_shard due m)
unfolding forget_shard
forget_shard-Placed true m p = p
forget_shard-Placed false m p = p

final_block_completed-Keeps :
    (env : DutyEnv) (r : RoleType) (b : TxBlock) (due : Bool) (m : Machine)
    → Placed m
    → Keeps (final_block_completed env r b due m)
unfolding final_block_completed is_matched
final_block_completed-Keeps env ds_lead b due m p =
    when_sent-Placed (send env (send_final_block b) (enter_wait ds_lead due m)) (forget_shard due)
      (send-Placed env (send_final_block b) (enter_wait ds_lead due m)
        (enter_wait-Placed ds_lead due m refl refl p))
      (λ m1 p1. forget_shard-Placed due m1 p1)
final_block_completed-Keeps env ds_backup b due m p =
    forget_shard-Placed due (enter_wait ds_backup due m)
      (enter_wait-Placed ds_backup due m refl refl p)
final_block_completed-Keeps env idle b due m p = tt
final_block_completed-Keeps env lookup b due m p = tt
final_block_completed-Keeps env sharding_lead b due m p = tt
final_block_completed-Keeps env sharding_backup b due m p = tt

by_round-Keeps :
    (d : Option ℕ) (number : ℕ) (next : Bool → Done)
    → ((due : Bool) → Keeps (next due))
    → Keeps (by_round d number next)
unfolding by_round
by_round-Keeps none number next h = tt
by_round-Keeps (some zero) number next h = tt
by_round-Keeps (some (suc d)) number next h = h (number % suc d == 0)

final_completed-Keeps :
    (env : DutyEnv) (r : RoleType) (m : Machine)
    → Placed m
    → Keeps (on_final_block_consensus_completed env r m)
unfolding on_final_block_consensus_completed
final_completed-Keeps env r m p =
    Option_rule Keeps m.current_final none
      (λ (b : TxBlock). when_ready (some (on_final_block_ready env b m)) (λ m1.
        by_round (rounds_of m1.server) b.block_number
          (λ due. final_block_completed env r b due (clear_micro_blocks m1))))
      tt
      (λ b e.
        when_ready-Keeps (some (on_final_block_ready env b m)) _
          (on_final_block_ready-Placed env b m p)
          (λ m1 p1.
            by_round-Keeps (rounds_of m1.server) b.block_number _
              (λ due. final_block_completed-Keeps env r b due (clear_micro_blocks m1) p1)))

ds_completed-Keeps :
    (env : DutyEnv) (r : RoleType) (m : Machine)
    → Placed m
    → Keeps (on_ds_block_consensus_completed env r m)
unfolding on_ds_block_consensus_completed
ds_completed-Keeps env r m p =
    Option_rule Keeps m.current_ds none (λ (b : DsBlock). ds_block_completed env r b m) tt
      (λ b e. ds_block_completed-Keeps env r b m p)

completed_sharding-Keeps :
    (env : DutyEnv) (r : RoleType) (s : StateType) (m : Machine)
    → Placed m
    → Keeps (completed_sharding env r s m)
unfolding completed_sharding
completed_sharding-Keeps env r microblock_consensus m p = micro_completed-Keeps env r m p
completed_sharding-Keeps env r viewchange_consensus m p = view_change_completed-Keeps env r m p
completed_sharding-Keeps env r _ m p = p

completed_ds-Keeps :
    (env : DutyEnv) (r : RoleType) (s : StateType) (m : Machine)
    → Placed m
    → Keeps (completed_ds env r s m)
unfolding completed_ds
completed_ds-Keeps env r dsblock_consensus m p = ds_completed-Keeps env r m p
completed_ds-Keeps env r finalblock_consensus m p = final_completed-Keeps env r m p
completed_ds-Keeps env r viewchange_consensus m p = view_change_completed-Keeps env r m p
completed_ds-Keeps env r _ m p = p

by_base-Keeps :
    (env : DutyEnv) (r : RoleType) (s : StateType) (m : Machine)
    → Placed m
    → Keeps (by_base env r s m)
unfolding by_base
by_base-Keeps env idle s m p = completed_sharding-Keeps env idle s m p
by_base-Keeps env sharding_lead s m p = completed_sharding-Keeps env sharding_lead s m p
by_base-Keeps env sharding_backup s m p = completed_sharding-Keeps env sharding_backup s m p
by_base-Keeps env ds_lead s m p = completed_ds-Keeps env ds_lead s m p
by_base-Keeps env ds_backup s m p = completed_ds-Keeps env ds_backup s m p
by_base-Keeps env lookup s m p = tt

pub on_consensus_completed-Keeps :
    (env : DutyEnv) (r : RoleType) (m : Machine) → Placed m → Keeps (on_consensus_completed env r m)
unfolding on_consensus_completed
on_consensus_completed-Keeps env r m p =
    Option_rule Keeps (m.states r) none (λ s. by_base env r s (emit finished m)) tt
      (λ s e. by_base-Keeps env r s (emit finished m) p)
