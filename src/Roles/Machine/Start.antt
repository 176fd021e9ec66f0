-- ===== src/Roles/Machine/Start.antt =====
-- The start of a node: `ProcessSetPrimary`, `ProcessStartPoW` and `ProcessNewAdd` of
-- core/server/role/role_idle.go. An outer `none` is a panic.
use okchain.Prelude.{
  ℕ, Bool, true, false, not, List, Option, none, some, ltb, ◌==◌, if◌then◌else◌, length, get_elem?,
}
use okchain.Roles.Peers.{Peer, index}
use okchain.Roles.Types.{unmarshal_message, mine_failed, sign_message}
use okchain.Roles.ViewChange.{RoleType, idle, sharding_backup, ds_lead, ds_backup}
use okchain.Roles.States.{wait4_pow_submission, waiting_dsblock}
use okchain.Roles.Registration.{InformDs, InformSharding}
use okchain.Roles.Machine.{
  Machine, DutyEnv, Done, wait4_pow, submit_pow, change_role, update_leader, emit,
}
use okchain.Roles.Machine.Revert.{revert_role}

abbrev pub with_committee : List Peer → Machine → Machine
with_committee nodes m = record m { server = record m.server { committee = nodes } }

abbrev pub set_registered : Machine → Machine
set_registered m = record m { registered = true }

-- `Committee[Index(leader)]`
unfoldable pub find_leader : List Peer → Peer → Option Peer
find_leader committee leader = elim (index committee leader) [
  | none ↦ none
  | some i ↦ get_elem? committee i
]

-- A member of the committee starts, as the leader or as a backup, which panics without the leader
-- in its committee.
unfoldable pub start_committee : Bool → Option Peer → Machine → Done
start_committee true found m =
    some
      (none, emit (wait4_pow ds_lead) (set_registered (change_role ds_lead wait4_pow_submission m)))
start_committee false none m = none
start_committee false (some p) m = some (
  none,
  emit (wait4_pow ds_backup)
      (update_leader ds_backup p (set_registered (change_role ds_backup wait4_pow_submission m))),
)

-- The handler past its first two tests. `addr` is the own address; `connected` is the committee
-- that `UpdateRoleList` has left after its last call.
unfoldable pub set_primary_by : ℕ → List Peer → Option InformDs → Machine → Done
set_primary_by addr connected none m = some (some unmarshal_message, m)
set_primary_by addr connected (some inform) m =
    let started =
      start_committee (addr == inform.leader.name) (find_leader connected inform.leader)
        (with_committee connected m) in
    if not (inform.ds_size == length inform.ds_list) then some (none, m) else started

-- The tests that both handlers start with: a node that has registered does nothing, and one with
-- a DS block takes its role from its blocks, with the lock of the idle role held.
unfoldable pub when_new : DutyEnv → Bool → Done → Machine → Done
when_new env mined next m =
    let reverted = revert_role env true mined m in
    if m.registered
    then some (none, m)
    else if ltb 0 m.server.ds_current.block_number
    then reverted
    else next

-- `ProcessSetPrimary`
unfoldable pub process_set_primary :
    DutyEnv → ℕ → List Peer → Bool → Option InformDs → Machine → Done
process_set_primary env addr connected mined inform m =
    when_new env mined (set_primary_by addr connected inform m) m

-- The mining for the first DS block; `mined` is whether the miner gives no error.
unfoldable pub submit_first : DutyEnv → Bool → Machine → Done
submit_first env mined m =
    let pow = submit_pow m.server.committee in
    if not mined
    then some (some mine_failed, m)
    else if env.seals pow
    then some (none, emit pow (set_registered (change_role sharding_backup waiting_dsblock m)))
    else some (some sign_message, m)

unfoldable pub start_pow_by : DutyEnv → List Peer → Bool → Option InformSharding → Machine → Done
start_pow_by env connected mined none m = some (some unmarshal_message, m)
start_pow_by env connected mined (some inform) m =
    let started = submit_first env mined (with_committee connected m) in
    if not (inform.sharding_size == length inform.sharding_list) then some (none, m) else started

-- `ProcessStartPoW`
unfoldable pub process_start_pow :
    DutyEnv → List Peer → Bool → Option InformSharding → Machine → Done
process_start_pow env connected mined inform m =
    when_new env mined (start_pow_by env connected mined inform m) m

-- `ProcessNewAdd`
unfoldable pub process_new_add : Machine → Done
process_new_add m = some (none, if m.registered then m else set_registered m)

-- The three are methods of `RoleIdle` only.
unfoldable pub on_idle : RoleType → Done → Done
on_idle idle d = d
on_idle _ d = none
