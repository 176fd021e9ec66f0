-- ===== src/Roles/Machine/Steps/Completes.antt =====
-- The ends of a consensus keep each role object in the states of its role.
use okchain.Prelude.{refl, List, [], ◌∷◌, Option, none, some, if_rule, if◌then◌else◌, ◌==◌}
use okchain.Bft.Types.{
  ConsensusType, ds_block_consensus, micro_block_consensus, final_block_consensus,
  view_change_consensus,
}
use okchain.Roles.Peers.{Peer, has_peer}
use okchain.Roles.Types.{DsBlock, MicroBlock, RoleError, sign_message}
use okchain.Roles.ViewChange.{
  RoleType, VcBlock, idle, lookup, sharding_lead, sharding_backup, ds_lead, ds_backup,
}
use okchain.Roles.States.{
  is_matched, dsblock_consensus, finalblock_consensus, microblock_consensus, waiting_finalblock,
  wait4_microblock_submission,
}
use okchain.Roles.Machine.{
  Machine, DutyEnv, Effect, send_ds_block, submit_micro_block, change_state, change_role, emit,
  with_stage, on_ds_block_ready, on_micro_block_consensus_started,
}
use okchain.Roles.Machine.Blocks.{enter_shard}
use okchain.Roles.Machine.Completed.{
  send, when_sent, on_micro_block_consensus_completed, resume_stage, before_resume,
  on_view_change_consensus_completed, clear_pow, join_shard, after_ds_block_backup,
  ds_block_completed,
}
use okchain.Roles.Machine.Steps.Placed.{
  Placed, Keeps, Option_rule, change_state-Placed, change_role-Placed, on_ds_block_ready-Keeps,
  on_micro_block_consensus_started-Keeps,
}
use okchain.Roles.Machine.Steps.Arrivals.{when_ready-Keeps, enter_shard-Keeps}
use okchain.Roles.Machine.Steps.Ends.{start_ds-Keeps, start_final-Placed}

pub send-Placed : (env : DutyEnv) (e : Effect) (m : Machine) → Placed m → Placed (send env e m).1
unfolding send
send-Placed env e m p =
    if_rule (λ (d : Option RoleError × Machine). Placed d.1) (env.seals e) (none, emit e m)
      (some sign_message, m) (λ t. p) (λ f. p)

pub when_sent-Placed :
    (d : Option RoleError × Machine) (next : Machine → Machine)
    → Placed d.1
    → ((m : Machine) → Placed m → Placed (next m))
    → Placed (when_sent d next).1
unfolding when_sent
when_sent-Placed (none, m) next p h = h m p
when_sent-Placed (some e, m) next p h = p

pub micro_completed-Keeps :
    (env : DutyEnv) (r : RoleType) (m : Machine)
    → Placed m
    → Keeps (on_micro_block_consensus_completed env r m)
unfolding on_micro_block_consensus_completed is_matched
micro_completed-Keeps env sharding_lead m p = go m.current_micro
  where
    go :
        (o : Option MicroBlock)
        → Keeps (elim o [
          | none ↦ some (some RoleError.marshal_message, m)
          | some b ↦ some (
              when_sent
                (send env (submit_micro_block b m.server.committee) m)
                (change_state sharding_lead waiting_finalblock))
        ])
    go none = p
    go (some b) =
        let out = submit_micro_block b m.server.committee in
        when_sent-Placed (send env out m) (change_state sharding_lead waiting_finalblock)
          (send-Placed env out m p)
          (λ m1 p1. change_state-Placed sharding_lead waiting_finalblock m1 refl p1)
micro_completed-Keeps env sharding_backup m p =
    change_state-Placed sharding_backup waiting_finalblock m refl p
micro_completed-Keeps env idle m p = tt
micro_completed-Keeps env lookup m p = tt
micro_completed-Keeps env ds_lead m p = tt
micro_completed-Keeps env ds_backup m p = tt

resume_stage-Keeps :
    (env : DutyEnv) (r : RoleType) (c : ConsensusType) (m : Machine)
    → Placed m
    → Keeps (resume_stage env r c m)
unfolding resume_stage is_matched
resume_stage-Keeps env sharding_lead micro_block_consensus m p =
    on_micro_block_consensus_started-Keeps env sharding_lead m.server.self_node
      (change_state sharding_lead microblock_consensus (with_stage micro_block_consensus m))
      (change_state-Placed sharding_lead microblock_consensus (with_stage micro_block_consensus m)
        refl p)
resume_stage-Keeps env sharding_backup micro_block_consensus m p =
    change_state-Placed sharding_backup microblock_consensus (with_stage micro_block_consensus m)
      refl p
resume_stage-Keeps env ds_lead ds_block_consensus m p =
    start_ds-Keeps env (change_state ds_lead dsblock_consensus (with_stage ds_block_consensus m))
      (change_state-Placed ds_lead dsblock_consensus (with_stage ds_block_consensus m) refl p)
resume_stage-Keeps env ds_lead final_block_consensus m p =
    start_final-Placed env
      (change_state ds_lead finalblock_consensus (with_stage final_block_consensus m))
      (change_state-Placed ds_lead finalblock_consensus (with_stage final_block_consensus m) refl p)
resume_stage-Keeps env ds_backup ds_block_consensus m p =
    change_state-Placed ds_backup dsblock_consensus (with_stage ds_block_consensus m) refl p
resume_stage-Keeps env ds_backup final_block_consensus m p =
    change_state-Placed ds_backup finalblock_consensus (with_stage final_block_consensus m) refl p
resume_stage-Keeps env idle c m p = tt
resume_stage-Keeps env lookup c m p = tt
resume_stage-Keeps env sharding_lead ds_block_consensus m p = p
resume_stage-Keeps env sharding_lead final_block_consensus m p = p
resume_stage-Keeps env sharding_lead view_change_consensus m p = p
resume_stage-Keeps env sharding_backup ds_block_consensus m p = p
resume_stage-Keeps env sharding_backup final_block_consensus m p = p
resume_stage-Keeps env sharding_backup view_change_consensus m p = p
resume_stage-Keeps env ds_lead micro_block_consensus m p = p
resume_stage-Keeps env ds_lead view_change_consensus m p = p
resume_stage-Keeps env ds_backup micro_block_consensus m p = p
resume_stage-Keeps env ds_backup view_change_consensus m p = p

before_resume-Placed : (r : RoleType) (m : Machine) → Placed m → Placed (before_resume r m)
unfolding before_resume
before_resume-Placed ds_backup m p = p
before_resume-Placed idle m p = p
before_resume-Placed lookup m p = p
before_resume-Placed sharding_lead m p = p
before_resume-Placed sharding_backup m p = p
before_resume-Placed ds_lead m p = p

pub view_change_completed-Keeps :
    (env : DutyEnv) (r : RoleType) (m : Machine)
    → Placed m
    → Keeps (on_view_change_consensus_completed env r m)
unfolding on_view_change_consensus_completed
view_change_completed-Keeps env r m p =
    Option_rule Keeps m.current_vc none
      (λ (b : VcBlock). resume_stage env r b.stage (before_resume r m)) tt
      (λ b e. resume_stage-Keeps env r b.stage (before_resume r m) (before_resume-Placed r m p))

join_shard-Keeps : (env : DutyEnv) (m : Machine) → Placed m → Keeps (join_shard env (some m))
unfolding join_shard is_matched
join_shard-Keeps env m p = go m.server.sharding_nodes
  where
    go :
        (l : List Peer)
        → Keeps (elim l [
          | [] ↦ none
          | q ∷ qs ↦
              let r =
                if q.pubkey == m.server.self_node.pubkey then sharding_lead else sharding_backup in
              on_micro_block_consensus_started env r q (change_role r microblock_consensus m)
        ])
    go [] = tt
    go (q ∷ qs) =
        let b = q.pubkey == m.server.self_node.pubkey in
        if_rule
          (λ (r : RoleType).
            Keeps (on_micro_block_consensus_started env r q (change_role r microblock_consensus m)))
          b sharding_lead sharding_backup
          (λ t.
            on_micro_block_consensus_started-Keeps env sharding_lead q
              (change_role sharding_lead microblock_consensus m)
              (change_role-Placed sharding_lead microblock_consensus m refl p))
          (λ f.
            on_micro_block_consensus_started-Keeps env sharding_backup q
              (change_role sharding_backup microblock_consensus m)
              (change_role-Placed sharding_backup microblock_consensus m refl p))

joined-Keeps :
    (env : DutyEnv) (b : DsBlock) (m : Machine)
    → Placed m
    → Keeps (join_shard env (enter_shard env b m))
unfolding join_shard
joined-Keeps env b m p =
    enter_shard-Keeps env b m (λ m1. join_shard env (some m1)) p
      (λ m1 p1. join_shard-Keeps env m1 p1)

after_ds_block_backup-Keeps :
    (env : DutyEnv) (b : DsBlock) (m : Machine) → Placed m → Keeps (after_ds_block_backup env b m)
unfolding after_ds_block_backup is_matched
after_ds_block_backup-Keeps env b m p =
    if_rule Keeps (has_peer m.server.sharding_nodes m.server.self_node)
      (join_shard env (enter_shard env b (clear_pow m)))
      (some (none, change_state ds_backup wait4_microblock_submission (clear_pow m)))
      (λ t. joined-Keeps env b (clear_pow m) p)
      (λ f. change_state-Placed ds_backup wait4_microblock_submission (clear_pow m) refl p)

pub ds_block_completed-Keeps :
    (env : DutyEnv) (r : RoleType) (b : DsBlock) (m : Machine)
    → Placed m
    → Keeps (ds_block_completed env r b m)
unfolding ds_block_completed is_matched
ds_block_completed-Keeps env ds_lead b m p =
    when_ready-Keeps (on_ds_block_ready env b (clear_pow m)) _
      (on_ds_block_ready-Keeps env b (clear_pow m) p)
      (λ m1 p1.
        send-Placed env (send_ds_block b) (change_role ds_backup wait4_microblock_submission m1)
          (change_role-Placed ds_backup wait4_microblock_submission m1 refl p1))
ds_block_completed-Keeps env ds_backup b m p =
    when_ready-Keeps (on_ds_block_ready env b m) (after_ds_block_backup env b)
      (on_ds_block_ready-Keeps env b m p) (λ m1 p1. after_ds_block_backup-Keeps env b m1 p1)
ds_block_completed-Keeps env idle b m p = tt
ds_block_completed-Keeps env lookup b m p = tt
ds_block_completed-Keeps env sharding_lead b m p = tt
ds_block_completed-Keeps env sharding_backup b m p = tt
