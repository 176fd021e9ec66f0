-- ===== src/Roles/Machine/Steps/Runs.antt =====
-- Runs of a node.
use okchain.Prelude.{
  ℕ, suc, ◌≡◌, refl, Bool, true, false, List, [], ◌∷◌, Option, none, some, some_inj, subst,
}
use okchain.Roles.Types.{DsBlock, TxBlock}
use okchain.Roles.ViewChange.{
  RoleType, idle, lookup, sharding_lead, sharding_backup, ds_lead, ds_backup,
}
use okchain.Roles.States.{is_matched, MessageKind, StateType, process_msg}
use okchain.Roles.States.Laws.{IsFate, process_msg-IsFate}
use okchain.Roles.Machine.{Machine, DutyEnv, Done}
use okchain.Roles.Machine.Blocks.{Sig2}
use okchain.Roles.Machine.Steps.{
  Event, ds_block_arrives, final_block_arrives, consensus_completed, pow_wait_done,
  micro_blocks_done, reverted, primary_set, pow_started, new_added, view_change_due,
  ds_block_by_role, final_block_by_role, handle, after_event, run,
}
use okchain.Roles.Machine.Steps.Placed.{Placed, Keeps}
use okchain.Roles.Machine.Steps.Arrivals.{
  process_ds_block-Keeps, process_ds_block_idle-Keeps, process_ds_block_lookup-Keeps,
}
use okchain.Roles.Machine.Steps.Finals.{
  process_final_block-Keeps, process_final_block_idle-Keeps, process_final_block_lookup-Keeps,
}
use okchain.Roles.Machine.Steps.Ends.{
  wait4_pow_submission_done-Keeps, on_wait4_micro_block_submission_done-Keeps,
}
use okchain.Roles.Machine.Steps.Callbacks.{on_consensus_completed-Keeps}
use okchain.Roles.Machine.Steps.Reverts.{revert_role-Keeps}
use okchain.Roles.Machine.Steps.Starts.{
  process_set_primary-Keeps, process_start_pow-Keeps, process_new_add-Keeps, on_idle-Keeps,
}
use okchain.Roles.Machine.Steps.Changes.{handler_start_view_change-Keeps}

ds_block_by_role-Keeps :
    (env : DutyEnv) (r : RoleType) (genuine : Bool) (payload : Option (DsBlock × Sig2))
    (bare : Option DsBlock) (m : Machine)
    → Placed m
    → Keeps (ds_block_by_role env r genuine payload bare m)
unfolding ds_block_by_role
ds_block_by_role-Keeps env idle genuine payload bare m p = process_ds_block_idle-Keeps env bare m p
ds_block_by_role-Keeps env lookup genuine payload bare m p =
    process_ds_block_lookup-Keeps env genuine payload m p
ds_block_by_role-Keeps env sharding_lead genuine payload bare m p =
    process_ds_block-Keeps env genuine payload m p
ds_block_by_role-Keeps env sharding_backup genuine payload bare m p =
    process_ds_block-Keeps env genuine payload m p
ds_block_by_role-Keeps env ds_lead genuine payload bare m p = tt
ds_block_by_role-Keeps env ds_backup genuine payload bare m p = tt

final_block_by_role-Keeps :
    (env : DutyEnv) (r : RoleType) (m : Machine)
    → Placed m
    → (genuine : Bool) (payload : Option (TxBlock × Sig2)) (bare : Option TxBlock)
    → (height : ℕ) (mined : Option ℕ)
    → Keeps (final_block_by_role env r genuine payload bare height mined m)
unfolding final_block_by_role is_matched
final_block_by_role-Keeps env idle m p genuine payload bare height mined =
    process_final_block_idle-Keeps env bare height mined m p
final_block_by_role-Keeps env lookup m p genuine payload bare height mined =
    process_final_block_lookup-Keeps env genuine payload m p
final_block_by_role-Keeps env sharding_lead m p genuine payload bare height mined =
    process_final_block-Keeps env sharding_lead genuine payload mined m refl p
final_block_by_role-Keeps env sharding_backup m p genuine payload bare height mined =
    process_final_block-Keeps env sharding_backup genuine payload mined m refl p
final_block_by_role-Keeps env ds_lead m p genuine payload bare height mined = tt
final_block_by_role-Keeps env ds_backup m p genuine payload bare height mined = tt

handle-Keeps : (env : DutyEnv) (e : Event) (m : Machine) → Placed m → Keeps (handle env e m)
unfolding handle
handle-Keeps env (ds_block_arrives genuine payload bare) m p =
    ds_block_by_role-Keeps env m.role genuine payload bare m p
handle-Keeps env (final_block_arrives genuine payload bare height mined) m p =
    final_block_by_role-Keeps env m.role m p genuine payload bare height mined
handle-Keeps env (consensus_completed r) m p = on_consensus_completed-Keeps env r m p
handle-Keeps env (pow_wait_done r) m p = wait4_pow_submission_done-Keeps env r m p
handle-Keeps env (micro_blocks_done r) m p = on_wait4_micro_block_submission_done-Keeps env r m p
handle-Keeps env (reverted mined) m p = revert_role-Keeps env false mined m p
handle-Keeps env (primary_set addr connected mined inform) m p =
    on_idle-Keeps m.role _ (process_set_primary-Keeps env addr connected mined inform m p)
handle-Keeps env (pow_started connected mined inform) m p =
    on_idle-Keeps m.role _ (process_start_pow-Keeps env connected mined inform m p)
handle-Keeps env new_added m p = on_idle-Keeps m.role _ (process_new_add-Keeps m p)
handle-Keeps env view_change_due m p = handler_start_view_change-Keeps env m p

after_event-Placed :
    (d : Done) (next : Machine → Option Machine) (m' : Machine)
    → Keeps d
    → ((m1 : Machine) → Placed m1 → next m1 ≡ some m' → Placed m')
    → after_event d next ≡ some m'
    → Placed m'
unfolding after_event
after_event-Placed none next m' k h q = absurd cc
after_event-Placed (some (x, m1)) next m' k h q = h m1 k q

-- Runs keep the role objects in their states.
pub run-Placed :
    (env : DutyEnv) (es : List Event) (m m' : Machine)
    → Placed m
    → run env es m ≡ some m'
    → Placed m'
unfolding run
run-Placed env [] m m' p e = subst Placed (some_inj e) p
run-Placed env (ev ∷ es) m m' p e =
    after_event-Placed (handle env ev m) (run env es) m' (handle-Keeps env ev m p)
      (λ m1 p1 q. run-Placed env es m1 m' p1 q) e

-- A node in one of its role's states, where every message meets its fate.
pub IsSettled : Machine → Type 0
IsSettled m =
    (s : StateType) × (m.states m.role ≡ some s)
    × (is_matched m.role s ≡ true)
    × ((depth : ℕ) (k : MessageKind) → IsFate m.role s k (process_msg (suc depth) m.role s k))

Placed-IsSettled : (m : Machine) → Placed m → IsSettled m
unfolding IsSettled
Placed-IsSettled m p = go (m.states m.role) refl
  where
    go : (o : Option StateType) → m.states m.role ≡ o → IsSettled m
    go none e = absurd (p.current e)
    go (some s) e =
        let fits = p.matched m.role s e in
        (s, e, fits, λ depth k. process_msg-IsFate depth m.role s k fits)

-- A node whose role objects are in states of their roles, the current one in some state, has after
-- every run of events, view changes included, that neither panics nor hangs a current role in one of that role's states, whatever the
-- messages, the errors and their order. There a message is handed to a handler only if the role has
-- it, panics only if a role of the committee in a view change is sent a block, and is handed on
-- without an end only if a role of the committee that agrees on a block is sent one.
pub run-IsSettled :
    (env : DutyEnv) (es : List Event) (m m' : Machine)
    → Placed m
    → run env es m ≡ some m'
    → IsSettled m'
run-IsSettled env es m m' p e = Placed-IsSettled m' (run-Placed env es m m' p e)
