-- ===== src/Roles/Machine/Steps/Ends.antt =====
-- The ends of a consensus and of a wait keep each role object in the states of its role.
use okchain.Prelude.{refl, List, [], ◌∷◌, Option, none, some, if_rule}
use okchain.Prelude.Result.{Result, ok, err}
use okchain.Bft.Types.{Bytes, ConsensusType, ds_block_consensus, final_block_consensus}
use okchain.Roles.Peers.{Peer}
use okchain.Roles.Types.{DsBlock, TxBlock, RoleError, PowSubmission}
use okchain.Roles.Submit.{sort_pow}
use okchain.Roles.Compose.{compose_ds_block}
use okchain.Roles.Final.{compose_final_block}
use okchain.Roles.ViewChange.{
  RoleType, idle, lookup, sharding_lead, sharding_backup, ds_lead, ds_backup,
}
use okchain.Roles.States.{is_matched, dsblock_consensus, finalblock_consensus}
use okchain.Roles.Machine.{
  Machine, DutyEnv, wait_for_view_change, wait4_pow, announce, change_state, update_leader, emit,
  with_stage,
}
use okchain.Roles.Machine.Waits.{
  initiate, initiate_ds, initiate_final, on_ds_block_consensus_start,
  on_final_block_consensus_start, without_error, keep_ds_block, keep_final_block,
  pow_submission_done, wait4_pow_submission_done, follow_head, on_wait4_micro_block_submission_done,
}
use okchain.Roles.Machine.Steps.Placed.{Placed, Keeps, change_state-Placed}

initiate-Placed :
    (env : DutyEnv) (c : ConsensusType) (m : Machine) → Placed m → Placed (initiate env c m)
unfolding initiate
initiate-Placed env c m p =
    let out = announce c m.server.committee in
    if_rule Placed (env.seals out) (emit out (with_stage c m)) m (λ t. p) (λ f. p)

pub start_ds-Keeps :
    (env : DutyEnv) (m : Machine)
    → Placed m
    → Keeps (without_error (on_ds_block_consensus_start env m))
unfolding on_ds_block_consensus_start initiate_ds without_error
start_ds-Keeps env m p = go (compose_ds_block env.roles m.server)
  where
    m1 : Machine
    m1 = emit (wait_for_view_change ds_lead) m

    go : (o : Option (Result RoleError DsBlock)) → Keeps (without_error (initiate_ds env o m1))
    go none = tt
    go (some (err e)) = p
    go (some (ok b)) = initiate-Placed env ds_block_consensus (record m1 { current_ds = some b }) p

pub start_final-Placed :
    (env : DutyEnv) (m : Machine) → Placed m → Placed (on_final_block_consensus_start env m)
unfolding on_final_block_consensus_start initiate_final
start_final-Placed env m p = go (compose_final_block env.roles m.server)
  where
    m1 : Machine
    m1 = emit (wait_for_view_change ds_lead) m

    go : (r : Result RoleError TxBlock) → Placed (initiate_final env r m1)
    go (err e) = p
    go (ok b) = initiate-Placed env final_block_consensus (record m1 { current_final = some b }) p

keep_ds_block-Keeps :
    (o : Option (Result RoleError DsBlock)) (m : Machine) → Placed m → Keeps (keep_ds_block o m)
unfolding keep_ds_block
keep_ds_block-Keeps none m p = tt
keep_ds_block-Keeps (some (err e)) m p = p
keep_ds_block-Keeps (some (ok b)) m p = p

keep_final_block-Placed :
    (c : Option Bytes) (r : Result RoleError TxBlock) (m : Machine)
    → Placed m
    → Placed (keep_final_block c r m).1
unfolding keep_final_block
keep_final_block-Placed none (err e) m p = p
keep_final_block-Placed (some c) (err e) m p = p
keep_final_block-Placed none (ok b) m p = p
keep_final_block-Placed (some c) (ok b) m p = p

pow_submission_done-Keeps :
    (env : DutyEnv) (r : RoleType) (m : Machine) → Placed m → Keeps (pow_submission_done env r m)
unfolding pow_submission_done is_matched
pow_submission_done-Keeps env ds_lead m p =
    start_ds-Keeps env (change_state ds_lead dsblock_consensus m)
      (change_state-Placed ds_lead dsblock_consensus m refl p)
pow_submission_done-Keeps env ds_backup m p =
    let m1 =
      emit (wait_for_view_change ds_backup)
        (with_stage ds_block_consensus (change_state ds_backup dsblock_consensus m)) in
    keep_ds_block-Keeps (compose_ds_block env.roles m1.server) m1
      (change_state-Placed ds_backup dsblock_consensus m refl p)
pow_submission_done-Keeps env idle m p = tt
pow_submission_done-Keeps env lookup m p = tt
pow_submission_done-Keeps env sharding_lead m p = tt
pow_submission_done-Keeps env sharding_backup m p = tt

pub wait4_pow_submission_done-Keeps :
    (env : DutyEnv) (r : RoleType) (m : Machine)
    → Placed m
    → Keeps (wait4_pow_submission_done env r m)
unfolding wait4_pow_submission_done
wait4_pow_submission_done-Keeps env r m p = go (sort_pow env.roles m.server.pow_sub_list)
  where
    go :
        (l : List PowSubmission)
        → (let m1 : Machine = record m { server = record m.server { pow_sub_list = l } } in
            Keeps (elim l [
              | [] ↦ some (none, emit (wait4_pow r) m1)
              | q ∷ qs ↦ pow_submission_done env r m1
            ]))
    go [] = p
    go (q ∷ qs) =
        pow_submission_done-Keeps env r
          (record m { server = record m.server { pow_sub_list = q ∷ qs } }) p

follow_head-Keeps :
    (env : DutyEnv) (ps : List Peer) (m : Machine) → Placed m → Keeps (follow_head env ps m)
unfolding follow_head update_leader
follow_head-Keeps env [] m p = tt
follow_head-Keeps env (q ∷ qs) m p =
    let m1 = update_leader ds_backup q m in
    keep_final_block-Placed (env.coinbase_of q.pubkey) (compose_final_block env.roles m1.server) m1
      p

pub on_wait4_micro_block_submission_done-Keeps :
    (env : DutyEnv) (r : RoleType) (m : Machine)
    → Placed m
    → Keeps (on_wait4_micro_block_submission_done env r m)
unfolding on_wait4_micro_block_submission_done is_matched
on_wait4_micro_block_submission_done-Keeps env ds_lead m p =
    start_final-Placed env (change_state ds_lead finalblock_consensus m)
      (change_state-Placed ds_lead finalblock_consensus m refl p)
on_wait4_micro_block_submission_done-Keeps env ds_backup m p =
    let m1 =
      emit (wait_for_view_change ds_backup)
        (with_stage final_block_consensus (change_state ds_backup finalblock_consensus m)) in
    follow_head-Keeps env m1.server.committee m1
      (change_state-Placed ds_backup finalblock_consensus m refl p)
on_wait4_micro_block_submission_done-Keeps env idle m p = tt
on_wait4_micro_block_submission_done-Keeps env lookup m p = tt
on_wait4_micro_block_submission_done-Keeps env sharding_lead m p = tt
on_wait4_micro_block_submission_done-Keeps env sharding_backup m p = tt
