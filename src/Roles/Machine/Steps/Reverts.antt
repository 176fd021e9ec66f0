-- ===== src/Roles/Machine/Steps/Reverts.antt =====
-- `RevertRole` keeps each role object in the states of its role.
use okchain.Prelude.{
  ℕ, zero, suc, ◌*◌, ◌%◌, ◌≡◌, refl, Bool, true, false, Option, none, some, if_rule, if◌then◌else◌,
  ◌==◌, ltb, u64, get_elem?,
}
use okchain.Roles.Peers.{Peer, has_peer}
use okchain.Roles.Sharding.{PeerEndpointMap, reset_sharding_map}
use okchain.Roles.ViewChange.{
  RoleType, idle, lookup, sharding_lead, sharding_backup, ds_lead, ds_backup,
}
use okchain.Roles.States.{
  is_matched, microblock_consensus, wait4_pow_submission, wait4_microblock_submission,
  waiting_dsblock, state_idle,
}
use okchain.Roles.Machine.{
  Machine, DutyEnv, Done, submit_pow, change_state, change_role, update_leader, emit,
  adopt_ds_block, on_micro_block_consensus_started,
}
use okchain.Roles.Machine.Revert.{
  revert_blocks, revert_size, revert_round, start_pow, revert_pow, revert_sharding, revert_ds_lead,
  revert_ds_backup, revert_idle, revert_as, revert_numbers, revert_role,
}
use okchain.Roles.Machine.Steps.Placed.{
  Placed, Keeps, change_state-Placed, change_role-Placed, on_micro_block_consensus_started-Keeps,
}
use okchain.Roles.Machine.Steps.Arrivals.{enter_shard-Keeps}

revert_round-Keeps :
    (env : DutyEnv) (o : Option Peer) (m : Machine) → Placed m → Keeps (revert_round env o m)
unfolding revert_round update_leader is_matched
revert_round-Keeps env none m p = tt
revert_round-Keeps env (some q) m p =
    if_rule Keeps (q.pubkey == m.server.self_node.pubkey)
      (on_micro_block_consensus_started env sharding_lead q
        (change_role sharding_lead microblock_consensus m))
      (on_micro_block_consensus_started env sharding_backup q
        (update_leader sharding_backup q (change_role sharding_backup microblock_consensus m)))
      (λ t.
        on_micro_block_consensus_started-Keeps env sharding_lead q
          (change_role sharding_lead microblock_consensus m)
          (change_role-Placed sharding_lead microblock_consensus m refl p))
      (λ f.
        on_micro_block_consensus_started-Keeps env sharding_backup q
          (update_leader sharding_backup q (change_role sharding_backup microblock_consensus m))
          (change_role-Placed sharding_backup microblock_consensus m refl p))

start_pow-Placed :
    (env : DutyEnv) (r : RoleType) (mined : Bool) (m : Machine)
    → is_matched r waiting_dsblock ≡ true
    → Placed m
    → Placed (start_pow env r mined m)
unfolding start_pow
start_pow-Placed env r false m e p = p
start_pow-Placed env r true m e p =
    let pow = submit_pow m.server.committee in
    if_rule Placed (env.seals pow) (change_state r waiting_dsblock (emit pow m)) m
      (λ t. change_state-Placed r waiting_dsblock (emit pow m) e p) (λ f. p)

revert_pow-Keeps :
    (env : DutyEnv) (mined : Bool) (o : Option Peer) (m : Machine)
    → Placed m
    → Keeps (revert_pow env mined o m)
unfolding revert_pow update_leader is_matched
revert_pow-Keeps env mined none m p = tt
revert_pow-Keeps env mined (some q) m p =
    if_rule Placed (q.pubkey == m.server.self_node.pubkey)
      (start_pow env sharding_lead mined (change_role sharding_lead waiting_dsblock m))
      (start_pow env sharding_backup mined
        (update_leader sharding_backup q (change_role sharding_backup waiting_dsblock m)))
      (λ t.
        start_pow-Placed env sharding_lead mined (change_role sharding_lead waiting_dsblock m) refl
          (change_role-Placed sharding_lead waiting_dsblock m refl p))
      (λ f.
        start_pow-Placed env sharding_backup mined
          (update_leader sharding_backup q (change_role sharding_backup waiting_dsblock m)) refl
          (change_role-Placed sharding_backup waiting_dsblock m refl p))

revert_sharding-Keeps :
    (take : Option Peer → Machine → Done) (env : DutyEnv) (d : ℕ) (m : Machine)
    → ((o : Option Peer) (m1 : Machine) → Placed m1 → Keeps (take o m1))
    → Placed m
    → Keeps (revert_sharding take env d m)
unfolding revert_sharding
revert_sharding-Keeps take env zero m h p = tt
revert_sharding-Keeps take env (suc d) m h p =
    enter_shard-Keeps env m.server.ds_current m
      (λ m1.
        take (get_elem? m1.server.sharding_nodes (m1.server.tx_current.block_number % suc d)) m1)
      p (λ m1 p1. h _ m1 p1)

revert_ds_lead-Placed : (due : Bool) (m : Machine) → Placed m → Placed (revert_ds_lead due m)
unfolding revert_ds_lead is_matched
revert_ds_lead-Placed true m p = change_role-Placed ds_lead wait4_pow_submission m refl p
revert_ds_lead-Placed false m p = change_role-Placed ds_lead wait4_microblock_submission m refl p

revert_ds_backup-Placed : (due : Bool) (m : Machine) → Placed m → Placed (revert_ds_backup due m)
unfolding revert_ds_backup update_leader is_matched
revert_ds_backup-Placed true m p = change_role-Placed ds_backup wait4_pow_submission m refl p
revert_ds_backup-Placed false m p =
    change_role-Placed ds_backup wait4_microblock_submission m refl p

take-Keeps :
    (env : DutyEnv) (due mined : Bool) (o : Option Peer) (m : Machine)
    → Placed m
    → Keeps ((if due then revert_pow env mined else revert_round env) o m)
take-Keeps env true mined o m p = revert_pow-Keeps env mined o m p
take-Keeps env false mined o m p = revert_round-Keeps env o m p

revert_idle-Keeps : (locked : Bool) (m : Machine) → Placed m → Keeps (revert_idle locked m)
unfolding revert_idle is_matched
revert_idle-Keeps true m p = tt
revert_idle-Keeps false m p = change_role-Placed idle state_idle m refl p

revert_as-Keeps :
    (env : DutyEnv) (locked due mined : Bool) (m : Machine)
    → Placed m
    → Keeps (revert_as env locked due mined m)
unfolding revert_as is_matched
revert_as-Keeps env locked due mined m p =
    let sharding =
      revert_sharding (if due then revert_pow env mined else revert_round env) env
        (revert_size m.server) m in
    let outside : Done =
      if has_peer m.server.ds_current.sharding_nodes m.server.self_node
      then sharding
      else revert_idle locked m in
    if_rule Keeps (m.server.self_node.pubkey == m.server.ds_current.winner_pub_key)
      (some (none, revert_ds_lead due m))
      (if has_peer m.server.committee m.server.self_node
        then some (none, revert_ds_backup due m)
        else outside)
      (λ t. revert_ds_lead-Placed due m p)
      (λ f.
        if_rule Keeps (has_peer m.server.committee m.server.self_node)
          (some (none, revert_ds_backup due m)) outside (λ t. revert_ds_backup-Placed due m p)
          (λ f'.
            if_rule Keeps (has_peer m.server.ds_current.sharding_nodes m.server.self_node) sharding
              (revert_idle locked m)
              (λ t.
                revert_sharding-Keeps _ env (revert_size m.server) m
                  (λ o m1 p1. take-Keeps env due mined o m1 p1) p)
              (λ g. revert_idle-Keeps locked m p)))

revert_numbers-Keeps :
    (env : DutyEnv) (locked mined : Bool) (m : Machine)
    → Placed m
    → Keeps (revert_numbers env locked mined m)
unfolding revert_numbers
revert_numbers-Keeps env locked mined m p =
    let last = u64 (m.server.ds_current.block_number * revert_size m.server) in
    if_rule Keeps (ltb m.server.tx_current.block_number last) (revert_as env locked false mined m)
      (if m.server.tx_current.block_number == last
        then revert_as env locked true mined m
        else some (none, m))
      (λ t. revert_as-Keeps env locked false mined m p)
      (λ f.
        if_rule Keeps (m.server.tx_current.block_number == last) (revert_as env locked true mined m)
          (some (none, m)) (λ t. revert_as-Keeps env locked true mined m p) (λ g. p))

by_role-Keeps :
    (env : DutyEnv) (locked mined : Bool) (m : Machine) (r : RoleType)
    → Placed m
    → Keeps (elim r [ lookup ↦ some (none, m) | _ ↦ revert_numbers env locked mined m ])
by_role-Keeps env locked mined m lookup p = p
by_role-Keeps env locked mined m idle p = revert_numbers-Keeps env locked mined m p
by_role-Keeps env locked mined m sharding_lead p = revert_numbers-Keeps env locked mined m p
by_role-Keeps env locked mined m sharding_backup p = revert_numbers-Keeps env locked mined m p
by_role-Keeps env locked mined m ds_lead p = revert_numbers-Keeps env locked mined m p
by_role-Keeps env locked mined m ds_backup p = revert_numbers-Keeps env locked mined m p

pub revert_role-Keeps :
    (env : DutyEnv) (locked mined : Bool) (m : Machine)
    → Placed m
    → Keeps (revert_role env locked mined m)
unfolding revert_role revert_blocks adopt_ds_block
revert_role-Keeps env locked mined m p =
    go (reset_sharding_map m.server.sharding_size m.server.ds_current.sharding_nodes)
  where
    m1 : PeerEndpointMap → Machine
    m1 dealt = record (adopt_ds_block m.server.ds_current dealt m) {
      current_final = some m.server.tx_current;
    }

    go :
        (o : Option PeerEndpointMap)
        → Keeps
            (elim (elim o as (λ _. Option Machine) [ none ↦ none | some dealt ↦ some (m1 dealt) ]) [
              | none ↦ none
              | some m2 ↦ elim m2.role [
                | lookup ↦ some (none, m2)
                | _ ↦ revert_numbers env locked mined m2
              ]
            ])
    go none = tt
    go (some dealt) = by_role-Keeps env locked mined (m1 dealt) m.role p
