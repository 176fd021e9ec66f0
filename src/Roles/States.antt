-- ===== src/Roles/States.antt =====
-- The states of a node, in core/server/constant.go and core/server/state, and what a state makes of
-- a message: the `ProcessMsg` of each state, and the methods that role_base_invalid_invoke.go
-- leaves to the roles.
pub mod Laws
use okchain.Prelude.{ℕ, zero, suc, Bool, true, false, Option, none, some, if◌then◌else◌}
use okchain.Roles.ViewChange.{
  RoleType, idle, lookup, sharding_lead, sharding_backup, ds_lead, ds_backup,
}

-- `StateType`
pub data StateType : Type 0 where
  ds_idle wait4_pow_submission dsblock_consensus_prep dsblock_consensus : StateType
  wait4_microblock_submission finalblock_consensus_prep finalblock_consensus : StateType
  viewchange_consensus_prep viewchange_consensus : StateType
  sharding_idle pow_submission waiting_dsblock microblock_consensus_prep : StateType
  microblock_consensus waiting_finalblock fallback_consensus_prep fallback_consensus : StateType
  waiting_fallbackblock state_idle state_lookup : StateType

-- `pb.Message_Type`: `consensus` is any of the ten types that `processConsensusMsg` names, `other`
-- any type that no state names.
pub data MessageKind : Type 0 where
  peer_register ds_set_primary ds_pow_submission ds_microblock_submission : MessageKind
  node_process_start_pow node_process_ds_block node_process_final_block : MessageKind
  node_revert_state node_new_add consensus other : MessageKind

-- What a state calls: the methods of `IRole`, and the function `RevertRole`.
pub data Handler : Type 0 where
  process_consensus_msg process_ds_block process_final_block process_pow_submission : Handler
  process_micro_block_submission process_set_primary process_start_pow process_new_add : Handler
  process_register revert_role : Handler

-- `again` is a call of the role's `ProcessMsg`, which hands the message to its state.
pub data Dispatch : Type 0 where
  call : Handler → Dispatch
  ignored panicked again : Dispatch

-- `processConsensusMsg` of state_base.go.
unfoldable pub process_consensus : MessageKind → Dispatch
process_consensus consensus = call process_consensus_msg
process_consensus node_process_ds_block = again
process_consensus node_process_final_block = again
process_consensus _ = ignored

-- `ProcessMsg` of the states in which the role takes both blocks beside the consensus.
unfoldable pub process_blocks : MessageKind → Dispatch
process_blocks node_process_ds_block = call process_ds_block
process_blocks node_process_final_block = call process_final_block
process_blocks k = process_consensus k

-- `ProcessMsg` of STATE_Idle.
unfoldable pub process_idle : MessageKind → Dispatch
process_idle node_process_final_block = call process_final_block
process_idle node_process_ds_block = call process_ds_block
process_idle ds_set_primary = call process_set_primary
process_idle node_process_start_pow = call process_start_pow
process_idle node_new_add = call process_new_add
process_idle _ = ignored

-- `ProcessMsg` of STATE_Lookup.
unfoldable pub process_lookup : MessageKind → Dispatch
process_lookup node_process_final_block = call process_final_block
process_lookup node_process_ds_block = call process_ds_block
process_lookup peer_register = call process_register
process_lookup _ = ignored

-- `ProcessMsg` of a state; the states that do not define it have the one of `StateBase`.
unfoldable pub state_process_msg : StateType → MessageKind → Dispatch
state_process_msg dsblock_consensus k = process_consensus k
state_process_msg finalblock_consensus k = process_consensus k
state_process_msg viewchange_consensus k = process_blocks k
state_process_msg microblock_consensus k = process_blocks k
state_process_msg ds_idle node_revert_state = call revert_role
state_process_msg ds_idle _ = ignored
state_process_msg sharding_idle node_revert_state = call revert_role
state_process_msg sharding_idle _ = ignored
state_process_msg wait4_pow_submission ds_pow_submission = call process_pow_submission
state_process_msg wait4_pow_submission _ = ignored
state_process_msg wait4_microblock_submission ds_microblock_submission =
    call process_micro_block_submission
state_process_msg wait4_microblock_submission _ = ignored
state_process_msg waiting_dsblock node_process_ds_block = call process_ds_block
state_process_msg waiting_dsblock _ = ignored
state_process_msg waiting_finalblock node_process_final_block = call process_final_block
state_process_msg waiting_finalblock _ = ignored
state_process_msg state_idle k = process_idle k
state_process_msg state_lookup k = process_lookup k
state_process_msg _ _ = panicked

-- Whether the role has the method, or `RoleBase` panics in its place.
unfoldable pub has_method : RoleType → Handler → Bool
has_method _ revert_role = true
has_method idle process_ds_block = true
has_method idle process_final_block = true
has_method idle process_set_primary = true
has_method idle process_start_pow = true
has_method idle process_new_add = true
has_method lookup process_ds_block = true
has_method lookup process_final_block = true
has_method lookup process_register = true
has_method sharding_lead process_consensus_msg = true
has_method sharding_lead process_ds_block = true
has_method sharding_lead process_final_block = true
has_method sharding_backup process_consensus_msg = true
has_method sharding_backup process_ds_block = true
has_method sharding_backup process_final_block = true
has_method ds_lead process_consensus_msg = true
has_method ds_lead process_pow_submission = true
has_method ds_lead process_micro_block_submission = true
has_method ds_backup process_consensus_msg = true
has_method ds_backup process_pow_submission = true
has_method ds_backup process_micro_block_submission = true
has_method _ _ = false

-- `RoleBase.ProcessMsg`, with at most so many calls of it inside each other: `none` where there are
-- more.
unfoldable pub process_msg : ℕ → RoleType → StateType → MessageKind → Option Dispatch
process_msg zero r s k = none
process_msg (suc depth) r s k =
    let inner = process_msg depth r s k in
    elim (state_process_msg s k) [
      | again ↦ inner
      | call h ↦ some (if has_method r h then call h else panicked)
      | d ↦ some d
    ]

-- The states that a role is ever in.
unfoldable pub is_matched : RoleType → StateType → Bool
is_matched idle state_idle = true
is_matched lookup state_lookup = true
is_matched sharding_lead waiting_dsblock = true
is_matched sharding_lead microblock_consensus = true
is_matched sharding_lead waiting_finalblock = true
is_matched sharding_lead viewchange_consensus = true
is_matched sharding_backup waiting_dsblock = true
is_matched sharding_backup microblock_consensus = true
is_matched sharding_backup waiting_finalblock = true
is_matched sharding_backup viewchange_consensus = true
is_matched ds_lead wait4_pow_submission = true
is_matched ds_lead dsblock_consensus = true
is_matched ds_lead wait4_microblock_submission = true
is_matched ds_lead finalblock_consensus = true
is_matched ds_lead viewchange_consensus = true
is_matched ds_backup wait4_pow_submission = true
is_matched ds_backup dsblock_consensus = true
is_matched ds_backup wait4_microblock_submission = true
is_matched ds_backup finalblock_consensus = true
is_matched ds_backup viewchange_consensus = true
is_matched _ _ = false
