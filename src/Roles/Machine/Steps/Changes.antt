-- ===== src/Roles/Machine/Steps/Changes.antt =====
-- The start of a view change keeps each role object in the states of its role.
use okchain.Prelude.{
  ◌==◌, ltb, length, ◌≡◌, refl, Bool, true, List, Option, none, some, if_rule, arith, if◌then◌else◌,
}
use okchain.Bft.Types.{ConsensusType, view_change_consensus}
use okchain.Roles.Peers.{Peer, head_to_tail}
use okchain.Roles.Types.{RoleError, handle_in_current_state, compose_block}
use okchain.Roles.ViewChange.{
  RoleType, idle, lookup, sharding_lead, sharding_backup, ds_lead, ds_backup, same_stage,
}
use okchain.Roles.States.{is_matched, viewchange_consensus}
use okchain.Roles.Machine.{Machine, DutyEnv, start_announce, change_role}
use okchain.Roles.Machine.Start.{with_committee}
use okchain.Roles.Machine.Changes.{
  new_leader_of, follow_leader, name_leader, compose_vc, compose_vc_ds, enter_view_change,
  on_view_change_consensus_started, view_change_role, take_view_change_role, role_start_view_change,
  handler_start_view_change,
}
use okchain.Roles.Machine.Steps.Placed.{Placed, Keeps, Option_rule, change_role-Placed}

compose_vc-Keeps :
    (next : Machine → Option RoleError × Machine) (m : Machine)
    → ((m1 : Machine) → Placed m1 → Placed (next m1).1)
    → Placed m
    → Keeps (compose_vc next m)
unfolding compose_vc
compose_vc-Keeps next m h p =
    Option_rule Keeps (new_leader_of m) none (λ l. some (next (name_leader l m))) tt
      (λ l e. h (name_leader l m) p)

compose_vc_ds-Keeps :
    (e : RoleError) (next : Machine → Option RoleError × Machine) (m : Machine)
    → ((m1 : Machine) → Placed m1 → Placed (next m1).1)
    → Placed m
    → Keeps (compose_vc_ds e next m)
unfolding compose_vc_ds
compose_vc_ds-Keeps e next m h p =
    if_rule Keeps (ltb (length m.server.committee) 2) _ _ (λ t. p)
      (λ f. compose_vc-Keeps next m h p)

start_announce-Placed :
    (env : DutyEnv) (c : ConsensusType) (nodes : List Peer) (m : Machine)
    → Placed m
    → Placed (start_announce env c nodes m).1
unfolding start_announce
start_announce-Placed env c nodes m p =
    if_rule (λ (d : Option RoleError × Machine). Placed d.1) _ _ _ (λ t. p) (λ f. p)

on_view_change_consensus_started-Keeps :
    (env : DutyEnv) (r : RoleType) (m : Machine)
    → Placed m
    → Keeps (on_view_change_consensus_started env r m)
unfolding on_view_change_consensus_started
on_view_change_consensus_started-Keeps env ds_lead m p =
    Option_rule Keeps (head_to_tail m.server.committee) none
      (λ committee.
        compose_vc_ds handle_in_current_state (start_announce env view_change_consensus committee)
          (with_committee committee (enter_view_change ds_lead m)))
      tt
      (λ committee e.
        compose_vc_ds-Keeps handle_in_current_state _ _
          (λ m1. start_announce-Placed env view_change_consensus committee m1) p)
on_view_change_consensus_started-Keeps env ds_backup m p =
    let m1 = enter_view_change ds_backup m in
    Option_rule Keeps (new_leader_of m1) none _ tt (λ l e.
      Option_rule Keeps (head_to_tail m1.server.committee) none
        (λ committee.
          compose_vc_ds compose_block (λ m2. (none, m2))
            (with_committee committee (follow_leader ds_backup l m1)))
        tt (λ committee e'. compose_vc_ds-Keeps compose_block _ _ (λ m2 p2. p2) p))
on_view_change_consensus_started-Keeps env sharding_lead m p =
    compose_vc-Keeps _ (enter_view_change sharding_lead m)
      (λ m1. start_announce-Placed env view_change_consensus m.server.sharding_nodes m1) p
on_view_change_consensus_started-Keeps env sharding_backup m p =
    let m1 = enter_view_change sharding_backup m in
    Option_rule Keeps (new_leader_of m1) none
      (λ l. compose_vc (λ m2. (none, m2)) (follow_leader sharding_backup l m1)) tt
      (λ l e. compose_vc-Keeps _ (follow_leader sharding_backup l m1) (λ m2 p2. p2) p)
on_view_change_consensus_started-Keeps env idle m p = tt
on_view_change_consensus_started-Keeps env lookup m p = tt

is_matched-view_change_role :
    (lead : Bool) (last : ConsensusType) (r : RoleType)
    → view_change_role lead last ≡ some r
    → is_matched r viewchange_consensus ≡ true
unfolding view_change_role is_matched
is_matched-view_change_role lead last r e = ground arith

take_view_change_role-Keeps :
    (env : DutyEnv) (o : Option RoleType) (m : Machine)
    → ((r : RoleType) → o ≡ some r → is_matched r viewchange_consensus ≡ true)
    → Placed m
    → Keeps (take_view_change_role env o m)
unfolding take_view_change_role
take_view_change_role-Keeps env none m h p = p
take_view_change_role-Keeps env (some r) m h p =
    on_view_change_consensus_started-Keeps env r (change_role r viewchange_consensus m)
      (change_role-Placed r viewchange_consensus m (h r refl) p)

role_start_view_change-Keeps :
    (env : DutyEnv) (current last : ConsensusType) (m : Machine)
    → Placed m
    → Keeps (role_start_view_change env current last m)
unfolding role_start_view_change
role_start_view_change-Keeps env current last m p = go (new_leader_of m1)
  where
    m1 : Machine
    m1 = record m { current_stage = current; last_stage = last }

    go :
        (o : Option (Option Peer))
        → Keeps (elim o [
          | none ↦ none
          | some l ↦ elim l [
            | none ↦ none
            | some q ↦
                take_view_change_role env
                  (view_change_role (q.pubkey == m1.server.self_node.pubkey) last)
                  m1
          ]
        ])
    go none = tt
    go (some none) = tt
    go (some (some q)) =
        take_view_change_role-Keeps env _ m1 (λ r. is_matched-view_change_role _ last r) p

pub handler_start_view_change-Keeps :
    (env : DutyEnv) (m : Machine) → Placed m → Keeps (handler_start_view_change env m)
unfolding handler_start_view_change
handler_start_view_change-Keeps env m p =
    let last = if same_stage m.stage view_change_consensus then m.last_stage_type else m.stage in
    role_start_view_change-Keeps env m.stage last (record m { last_stage_type = last }) p
