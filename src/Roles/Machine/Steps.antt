-- ===== src/Roles/Machine/Steps.antt =====
-- What happens to a node, one event after the other.
pub mod Arrivals
pub mod Finals
pub mod Ends
pub mod Callbacks
pub mod Reverts
pub mod Completes
pub mod Placed
pub mod Starts
pub mod Changes
pub mod Runs
use okchain.Prelude.{ℕ, Bool, true, false, List, [], ◌∷◌, Option, none, some}
use okchain.Roles.Types.{DsBlock, TxBlock, RoleError}
use okchain.Roles.ViewChange.{
  RoleType, idle, lookup, sharding_lead, sharding_backup, ds_lead, ds_backup,
}
use okchain.Roles.Machine.{Machine, DutyEnv, Done}
use okchain.Roles.Machine.Blocks.{
  Sig2, process_ds_block, process_ds_block_idle, process_ds_block_lookup, process_final_block,
  process_final_block_idle, process_final_block_lookup,
}
use okchain.Roles.Machine.Completed.{on_consensus_completed}
use okchain.Roles.Machine.Waits.{wait4_pow_submission_done, on_wait4_micro_block_submission_done}
use okchain.Roles.Machine.Revert.{revert_role}
use okchain.Roles.Machine.Start.{process_set_primary, process_start_pow, process_new_add, on_idle}
use okchain.Roles.Machine.Changes.{handler_start_view_change}
use okchain.Roles.Registration.{InformDs, InformSharding}
use okchain.Roles.Peers.{Peer}

-- A message with a block, as it reads with a second signature and without, with its message
-- signature's verdict; the end of a consensus or of a wait, of a role object that may no longer be
-- the current one; `RevertRole`; the messages that start a node; and a view change timer that runs out.
pub data Event : Type 0 where
  ds_block_arrives : Bool → Option (DsBlock × Sig2) → Option DsBlock → Event
  final_block_arrives : Bool → Option (TxBlock × Sig2) → Option TxBlock → ℕ → Option ℕ → Event
  consensus_completed pow_wait_done micro_blocks_done : RoleType → Event
  reverted : Bool → Event
  primary_set : ℕ → List Peer → Bool → Option InformDs → Event
  pow_started : List Peer → Bool → Option InformSharding → Event
  new_added : Event
  view_change_due : Event

-- The `ProcessDSBlock` of the current role; the committee's roles have none.
unfoldable pub ds_block_by_role :
    DutyEnv → RoleType → Bool → Option (DsBlock × Sig2) → Option DsBlock → Machine → Done
ds_block_by_role env idle genuine payload bare m = process_ds_block_idle env bare m
ds_block_by_role env lookup genuine payload bare m = process_ds_block_lookup env genuine payload m
ds_block_by_role env sharding_lead genuine payload bare m = process_ds_block env genuine payload m
ds_block_by_role env sharding_backup genuine payload bare m = process_ds_block env genuine payload m
ds_block_by_role env _ genuine payload bare m = none

-- The `ProcessFinalBlock` of the current role.
unfoldable pub final_block_by_role :
    DutyEnv
    → RoleType
    → Bool
    → Option (TxBlock × Sig2)
    → Option TxBlock
    → ℕ
    → Option ℕ
    → Machine
    → Done
final_block_by_role env idle genuine payload bare height mined m =
    process_final_block_idle env bare height mined m
final_block_by_role env lookup genuine payload bare height mined m =
    process_final_block_lookup env genuine payload m
final_block_by_role env sharding_lead genuine payload bare height mined m =
    process_final_block env sharding_lead genuine payload mined m
final_block_by_role env sharding_backup genuine payload bare height mined m =
    process_final_block env sharding_backup genuine payload mined m
final_block_by_role env _ genuine payload bare height mined m = none

unfoldable pub handle : DutyEnv → Event → Machine → Done
handle env (ds_block_arrives genuine payload bare) m =
    ds_block_by_role env m.role genuine payload bare m
handle env (final_block_arrives genuine payload bare height mined) m =
    final_block_by_role env m.role genuine payload bare height mined m
handle env (consensus_completed r) m = on_consensus_completed env r m
handle env (pow_wait_done r) m = wait4_pow_submission_done env r m
handle env (micro_blocks_done r) m = on_wait4_micro_block_submission_done env r m
handle env (reverted mined) m = revert_role env false mined m
handle env (primary_set addr connected mined inform) m =
    on_idle m.role (process_set_primary env addr connected mined inform m)
handle env (pow_started connected mined inform) m =
    on_idle m.role (process_start_pow env connected mined inform m)
handle env new_added m = on_idle m.role (process_new_add m)
handle env view_change_due m = handler_start_view_change env m

unfoldable pub after_event : Done → (Machine → Option Machine) → Option Machine
after_event none next = none
after_event (some (e, m)) next = next m

-- A run over events, whatever the errors; a panic or a call that never returns ends it.
unfoldable pub run : DutyEnv → List Event → Machine → Option Machine
run env [] m = some m
run env (e ∷ es) m = after_event (handle env e m) (run env es)
