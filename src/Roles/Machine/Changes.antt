-- ===== src/Roles/Machine/Changes.antt =====
-- The start of a view change: `StartViewChange` of core/server/consensus/blspbft/consense_handler.go
-- and of role_base.go in core/server/role, and `composeVCBlock` and `OnViewChangeConsensusStarted` of
-- the four roles. An outer `none` is a panic.
use okchain.Prelude.{Bool, true, false, Option, none, some, ltb, ◌==◌, if◌then◌else◌, length}
use okchain.Bft.Types.{
  ConsensusType, ds_block_consensus, micro_block_consensus, final_block_consensus,
  view_change_consensus,
}
use okchain.Roles.Peers.{Peer, head_to_tail}
use okchain.Roles.Types.{RoleError, handle_in_current_state, compose_block}
use okchain.Roles.ViewChange.{
  RoleType, sharding_lead, sharding_backup, ds_lead, ds_backup, get_new_leader, same_stage,
}
use okchain.Roles.States.{viewchange_consensus}
use okchain.Roles.Machine.{
  Machine, DutyEnv, Done, wait_for_view_change, same_role, change_role, emit, with_stage,
  start_announce,
}
use okchain.Roles.Machine.Start.{with_committee}

-- `GetNewLeader` of the stages in `ConsensusData`.
abbrev pub new_leader_of : Machine → Option (Option Peer)
new_leader_of m = get_new_leader m.server m.current_stage m.last_stage m.current_vc

-- `UpdateLeader` with what `GetNewLeader` has returned, which may be nil.
abbrev pub follow_leader : RoleType → Option Peer → Machine → Machine
follow_leader r l m = record m {
  leaders = λ (q : RoleType). if same_role q r then l else m.leaders q;
}

-- `SetCurrentVCBlock` of the block that names this leader.
abbrev pub name_leader : Option Peer → Machine → Machine
name_leader l m = record m {
  current_vc = some (record {
    view_change_ds_no = m.server.ds_current.block_number;
    view_change_tx_no = m.server.tx_current.block_number;
    stage = m.last_stage;
    new_leader = l;
  });
}

-- `composeVCBlock` of the sharding roles, and what its caller does next.
unfoldable pub compose_vc : (Machine → Option RoleError × Machine) → Machine → Done
compose_vc next m = elim (new_leader_of m) [ none ↦ none | some l ↦ some (next (name_leader l m)) ]

-- `composeVCBlock` of the committee's roles; the caller returns the error `e`.
unfoldable pub compose_vc_ds : RoleError → (Machine → Option RoleError × Machine) → Machine → Done
compose_vc_ds e next m =
    let composed = compose_vc next m in
    if ltb (length m.server.committee) 2 then some (some e, m) else composed

-- A consensus on the view change begins, with the timer of the next one.
abbrev pub enter_view_change : RoleType → Machine → Machine
enter_view_change r m = with_stage view_change_consensus (emit (wait_for_view_change r) m)

-- `OnViewChangeConsensusStarted`; a backup updates its leader before the committee is turned, and
-- the idle and the lookup role panic.
unfoldable pub on_view_change_consensus_started : DutyEnv → RoleType → Machine → Done
on_view_change_consensus_started env ds_lead m = elim (head_to_tail m.server.committee) [
  | none ↦ none
  | some committee ↦
      compose_vc_ds handle_in_current_state (start_announce env view_change_consensus committee)
        (with_committee committee (enter_view_change ds_lead m))
]
on_view_change_consensus_started env ds_backup m =
    let m1 = enter_view_change ds_backup m in
    elim (new_leader_of m1) [
      | none ↦ none
      | some l ↦ elim (head_to_tail m1.server.committee) [
        | none ↦ none
        | some committee ↦
            compose_vc_ds compose_block (λ m2. (none, m2))
              (with_committee committee (follow_leader ds_backup l m1))
      ]
    ]
on_view_change_consensus_started env sharding_lead m =
    compose_vc (start_announce env view_change_consensus m.server.sharding_nodes)
      (enter_view_change sharding_lead m)
on_view_change_consensus_started env sharding_backup m =
    let m1 = enter_view_change sharding_backup m in
    elim (new_leader_of m1) [
      | none ↦ none
      | some l ↦ compose_vc (λ m2. (none, m2)) (follow_leader sharding_backup l m1)
    ]
on_view_change_consensus_started env _ m = none

-- The switch on the last stage: the role of the view change's leader or of a backup.
unfoldable pub view_change_role : Bool → ConsensusType → Option RoleType
view_change_role true ds_block_consensus = some ds_lead
view_change_role true final_block_consensus = some ds_lead
view_change_role true micro_block_consensus = some sharding_lead
view_change_role false ds_block_consensus = some ds_backup
view_change_role false final_block_consensus = some ds_backup
view_change_role false micro_block_consensus = some sharding_backup
view_change_role _ view_change_consensus = none

unfoldable pub take_view_change_role : DutyEnv → Option RoleType → Machine → Done
take_view_change_role env none m = some (none, m)
take_view_change_role env (some r) m =
    on_view_change_consensus_started env r (change_role r viewchange_consensus m)

-- `RoleBase.StartViewChange`: a nil leader panics.
unfoldable pub role_start_view_change : DutyEnv → ConsensusType → ConsensusType → Machine → Done
role_start_view_change env current last m =
    let m1 : Machine = record m { current_stage = current; last_stage = last } in
    elim (new_leader_of m1) [
      | none ↦ none
      | some l ↦ elim l [
        | none ↦ none
        | some p ↦
            take_view_change_role env
              (view_change_role (p.pubkey == m1.server.self_node.pubkey) last) m1
      ]
    ]

-- `ConsensusHandler.StartViewChange`: the last stage is never a view change.
unfoldable pub handler_start_view_change : DutyEnv → Machine → Done
handler_start_view_change env m =
    let last = if same_stage m.stage view_change_consensus then m.last_stage_type else m.stage in
    role_start_view_change env m.stage last (record m { last_stage_type = last })
