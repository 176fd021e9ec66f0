-- ===== src/Roles/Machine/Steps/Starts.antt =====
-- The start of a node keeps its role objects in their states.
use okchain.Prelude.{
  ℕ, refl, Bool, true, false, not, List, Option, none, some, ltb, ◌==◌, if_rule, length,
}
use okchain.Roles.Peers.{Peer}
use okchain.Roles.ViewChange.{
  RoleType, idle, lookup, sharding_lead, sharding_backup, ds_lead, ds_backup,
}
use okchain.Roles.States.{is_matched, wait4_pow_submission, waiting_dsblock}
use okchain.Roles.Registration.{InformDs, InformSharding}
use okchain.Roles.Machine.{Machine, DutyEnv, Done, update_leader, submit_pow}
use okchain.Roles.Machine.Start.{
  start_committee, set_primary_by, when_new, process_set_primary, submit_first, start_pow_by,
  process_start_pow, process_new_add, on_idle, with_committee, find_leader,
}
use okchain.Roles.Machine.Steps.Placed.{Placed, Keeps, change_role-Placed}
use okchain.Roles.Machine.Steps.Reverts.{revert_role-Keeps}

start_committee-Keeps :
    (lead : Bool) (found : Option Peer) (m : Machine)
    → Placed m
    → Keeps (start_committee lead found m)
unfolding start_committee is_matched update_leader
start_committee-Keeps true found m p = change_role-Placed ds_lead wait4_pow_submission m refl p
start_committee-Keeps false none m p = tt
start_committee-Keeps false (some q) m p =
    change_role-Placed ds_backup wait4_pow_submission m refl p

when_new-Keeps :
    (env : DutyEnv) (mined : Bool) (next : Done) (m : Machine)
    → Keeps next
    → Placed m
    → Keeps (when_new env mined next m)
unfolding when_new
when_new-Keeps env mined next m k p =
    if_rule Keeps m.registered _ _ (λ t. p)
      (λ f.
        if_rule Keeps (ltb 0 m.server.ds_current.block_number) _ _
          (λ t. revert_role-Keeps env true mined m p) (λ f'. k))

set_primary_by-Keeps :
    (addr : ℕ) (connected : List Peer) (inform : Option InformDs) (m : Machine)
    → Placed m
    → Keeps (set_primary_by addr connected inform m)
unfolding set_primary_by
set_primary_by-Keeps addr connected none m p = p
set_primary_by-Keeps addr connected (some inform) m p =
    if_rule Keeps (not (inform.ds_size == length inform.ds_list)) _ _ (λ t. p)
      (λ f.
        start_committee-Keeps (addr == inform.leader.name) (find_leader connected inform.leader)
          (with_committee connected m) p)

pub process_set_primary-Keeps :
    (env : DutyEnv) (addr : ℕ) (connected : List Peer) (mined : Bool) (inform : Option InformDs)
    (m : Machine)
    → Placed m
    → Keeps (process_set_primary env addr connected mined inform m)
unfolding process_set_primary
process_set_primary-Keeps env addr connected mined inform m p =
    when_new-Keeps env mined _ m (set_primary_by-Keeps addr connected inform m p) p

submit_first-Keeps :
    (env : DutyEnv) (mined : Bool) (m : Machine) → Placed m → Keeps (submit_first env mined m)
unfolding submit_first is_matched
submit_first-Keeps env mined m p =
    if_rule Keeps (not mined) _ _ (λ t. p)
      (λ f.
        if_rule Keeps (env.seals (submit_pow m.server.committee)) _ _
          (λ t. change_role-Placed sharding_backup waiting_dsblock m refl p) (λ f'. p))

start_pow_by-Keeps :
    (env : DutyEnv) (connected : List Peer) (mined : Bool) (inform : Option InformSharding)
    (m : Machine)
    → Placed m
    → Keeps (start_pow_by env connected mined inform m)
unfolding start_pow_by
start_pow_by-Keeps env connected mined none m p = p
start_pow_by-Keeps env connected mined (some inform) m p =
    if_rule Keeps (not (inform.sharding_size == length inform.sharding_list)) _ _ (λ t. p)
      (λ f. submit_first-Keeps env mined (with_committee connected m) p)

pub process_start_pow-Keeps :
    (env : DutyEnv) (connected : List Peer) (mined : Bool) (inform : Option InformSharding)
    (m : Machine)
    → Placed m
    → Keeps (process_start_pow env connected mined inform m)
unfolding process_start_pow
process_start_pow-Keeps env connected mined inform m p =
    when_new-Keeps env mined _ m (start_pow_by-Keeps env connected mined inform m p) p

pub process_new_add-Keeps : (m : Machine) → Placed m → Keeps (process_new_add m)
unfolding process_new_add
process_new_add-Keeps m p = if_rule Placed m.registered _ _ (λ t. p) (λ f. p)

pub on_idle-Keeps : (r : RoleType) (d : Done) → Keeps d → Keeps (on_idle r d)
unfolding on_idle
on_idle-Keeps idle d k = k
on_idle-Keeps lookup d k = tt
on_idle-Keeps sharding_lead d k = tt
on_idle-Keeps sharding_backup d k = tt
on_idle-Keeps ds_lead d k = tt
on_idle-Keeps ds_backup d k = tt
