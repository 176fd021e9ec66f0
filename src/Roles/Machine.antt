-- ===== src/Roles/Machine.antt =====
-- A node whose roles change: `ChangeRole` of core/server/peer.go, `ChangeState`, `onDsBlockReady`
-- and `onFinalBlockReady` of core/server/role/role_base.go, and the start of a micro block
-- consensus of the sharding roles. An outer `none` is a panic.
pub mod Blocks
pub mod Agree
pub mod Waits
pub mod Completed
pub mod Revert
pub mod Start
pub mod Changes
pub mod Steps
mod Examples
use okchain.Prelude.{
  ℕ, Bool, true, false, not, List, [], ◌∷◌, Option, none, some, leb, if◌then◌else◌,
}
use okchain.Bft.Types.{Bytes, ConsensusType, micro_block_consensus}
use okchain.Roles.Peers.{Peer}
use okchain.Roles.Sharding.{PeerEndpointMap, reset_sharding_map}
use okchain.Roles.Types.{
  DsBlock, TxBlock, MicroBlock, Server, RoleEnv, RoleError, duplicated_block, insert_block,
  sign_message,
}
use okchain.Roles.ViewChange.{
  VcBlock, RoleType, idle, lookup, sharding_lead, sharding_backup, ds_lead, ds_backup,
}
use okchain.Roles.States.{StateType}

-- What a handler sets off outside the node: a view change timer of the role's consensus, the
-- waiting for mining results, the signal that stops a timer, the announcement of a consensus to the
-- nodes, and the messages that are sent.
pub data Effect : Type 0 where
  wait_for_view_change wait4_pow : RoleType → Effect
  finished : Effect
  announce : ConsensusType → List Peer → Effect
  send_ds_block : DsBlock → Effect
  send_final_block : TxBlock → Effect
  submit_micro_block : MicroBlock → List Peer → Effect
  submit_pow : List Peer → Effect

-- The peer server with its current role, the state of each role object (nil before its first
-- `ChangeState`), the leader that the consensus backup of each role takes messages from, the
-- consensus handler's current and last stage type, `ConsensusData`, the two flags of `RoleIdle`, and what the handlers
-- have set off, the latest first.
pub record Machine : Type 0 where
  pub server : Server
  pub role : RoleType
  pub states : RoleType → Option StateType
  pub leaders : RoleType → Option Peer
  pub stage : ConsensusType
  pub last_stage_type : ConsensusType
  pub current_stage : ConsensusType
  pub last_stage : ConsensusType
  pub current_ds : Option DsBlock
  pub current_final : Option TxBlock
  pub current_micro : Option MicroBlock
  pub current_vc : Option VcBlock
  pub idle_pow_flag : Bool
  pub registered : Bool
  pub effects : List Effect

-- What the handlers use and do not implement: `inserts_ds` and `inserts_tx` are the verdicts of
-- `InsertBlock` of the two chains, given the current block; `ds_block_at` is `GetBlock` by hash and
-- number; `compose_micro_block` is `composeMicroblock` on the pool's transactions; `seals` is
-- whether a message is marshalled and signed without an error; `coinbase_of` is
-- `GetCoinbaseByPubkey`.
pub record DutyEnv : Type 0 where
  pub roles : RoleEnv
  pub inserts_ds : DsBlock → DsBlock → Bool
  pub inserts_tx : TxBlock → TxBlock → Bool
  pub ds_block_at : ℕ → ℕ → Option DsBlock
  pub compose_micro_block : Machine → MicroBlock
  pub seals : Effect → Bool
  pub coinbase_of : Bytes → Option Bytes

-- A handler's error, if any, and the node after it.
abbrev pub Done : Type 0
Done = Option (Option RoleError × Machine)

-- The test `a == b` of roles.
unfoldable pub same_role : RoleType → RoleType → Bool
same_role idle idle = true
same_role lookup lookup = true
same_role sharding_lead sharding_lead = true
same_role sharding_backup sharding_backup = true
same_role ds_lead ds_lead = true
same_role ds_backup ds_backup = true
same_role _ _ = false

unfoldable pub set_at : {A : Type 0} → (RoleType → Option A) → RoleType → A → RoleType → Option A
set_at f r a = λ q. if same_role q r then some a else f q

-- `ChangeState` of a role object; every state is in the container.
unfoldable pub change_state : RoleType → StateType → Machine → Machine
change_state r s m = record m { states = set_at m.states r s }

-- `ChangeRole`
unfoldable pub change_role : RoleType → StateType → Machine → Machine
change_role r s m = record (change_state r s m) { role = r }

-- `UpdateLeader` of the consensus backup of a role.
unfoldable pub update_leader : RoleType → Peer → Machine → Machine
update_leader r p m = record m { leaders = set_at m.leaders r p }

abbrev pub emit : Effect → Machine → Machine
emit e m = record m { effects = e ∷ m.effects }

abbrev pub with_stage : ConsensusType → Machine → Machine
with_stage c m = record m { stage = c }

abbrev pub with_sharding_nodes : List Peer → Machine → Machine
with_sharding_nodes nodes m = record m { server = record m.server { sharding_nodes = nodes } }

-- The node of `onDsBlockReady` once the block is in the chain.
unfoldable pub adopt_ds_block : DsBlock → PeerEndpointMap → Machine → Machine
adopt_ds_block b dealt m = record m {
  current_ds = some b;
  server = record m.server {
    ds_current = b;
    committee = b.committee;
    sharding_nodes = b.sharding_nodes;
    sharding_map = dealt;
  };
}

-- `onDsBlockReady`
unfoldable pub on_ds_block_ready : DutyEnv → DsBlock → Machine → Done
on_ds_block_ready env b m =
    let adopted : Done = elim (reset_sharding_map m.server.sharding_size b.sharding_nodes) [
      | none ↦ none
      | some dealt ↦ some (none, adopt_ds_block b dealt m)
    ] in
    if leb b.block_number m.server.ds_current.block_number
    then some (some duplicated_block, m)
    else if env.inserts_ds m.server.ds_current b
    then adopted
    else some (some insert_block, m)

-- `onFinalBlockReady`
unfoldable pub on_final_block_ready : DutyEnv → TxBlock → Machine → Option RoleError × Machine
on_final_block_ready env b m =
    let kept : Machine = record m { current_final = some b } in
    if env.inserts_tx m.server.tx_current b
    then (none, record kept { server = record m.server { tx_current = b } })
    else (some insert_block, kept)

-- `produceConsensusMessage` and `InitiateConsensus` of a leader that has its block.
unfoldable pub start_announce :
    DutyEnv → ConsensusType → List Peer → Machine → Option RoleError × Machine
start_announce env c nodes m =
    if env.seals (announce c nodes)
    then (none, emit (announce c nodes) m)
    else (some sign_message, m)

-- `OnMircoBlockConsensusStarted` of the sharding roles; the other roles panic.
unfoldable pub on_micro_block_consensus_started : DutyEnv → RoleType → Peer → Machine → Done
on_micro_block_consensus_started env sharding_lead p m =
    let m1 = with_stage micro_block_consensus (emit (wait_for_view_change sharding_lead) m) in
    some (
      start_announce env micro_block_consensus m1.server.sharding_nodes
        (record m1 { current_micro = some (env.compose_micro_block m1) }))
on_micro_block_consensus_started env sharding_backup p m = some (
  none,
  update_leader sharding_backup p
      (with_stage micro_block_consensus (emit (wait_for_view_change sharding_backup) m)),
)
on_micro_block_consensus_started env _ p m = none
