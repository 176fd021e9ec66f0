-- ===== src/Roles/ViewChange.antt =====
-- The view change of core/server/role: `GetNewLeader`, `StartViewChange` and `VerifyVCBlock` of
-- role_base.go, `composeVCBlock` of role_ds_base.go and role_sharding_base.go, and the four
-- `OnViewChangeConsensusStarted`. An outer `none` is a panic.
pub mod Shard
pub mod Committee
mod Examples
use okchain.Prelude.{
  ℕ, zero, suc, ◌+◌, ◌*◌, ◌/◌, ◌%◌, Bool, true, false, not, List, [], ◌∷◌, Option, none, some, ltb,
  ◌==◌, if◌then◌else◌, length, get_elem?,
}
use okchain.Prelude.Result.{Result, ok, err}
use okchain.Bft.Types.{
  ConsensusType, ConsensusType-discrete, ds_block_consensus, micro_block_consensus,
  final_block_consensus, view_change_consensus,
}
use okchain.Roles.Peers.{Peer, head_to_tail}
use okchain.Roles.Types.{
  Server, RoleError, not_enough_nodes, empty_block, verify_block, handle_in_current_state,
  compose_block,
}

-- `PeerRole_Type`
pub data RoleType : Type 0 where
  idle lookup sharding_lead sharding_backup ds_lead ds_backup : RoleType

-- `VCBlockHeader`, but for the time. `stage` is the text of a `ConsensusType`; `new_leader` may be
-- nil.
pub record VcBlock : Type 0 where
  pub view_change_ds_no : ℕ
  pub view_change_tx_no : ℕ
  pub stage : ConsensusType
  pub new_leader : Option Peer

-- A node: the peer server, the parts of its `ConsensusData` that the view change uses, its role, and
-- the leader that its consensus backup takes messages from.
pub record Node : Type 0 where
  pub server : Server
  pub current_vc : Option VcBlock
  pub current_stage : ConsensusType
  pub last_stage : ConsensusType
  pub role : RoleType
  pub leader : Option Peer

-- `&pb.PeerEndpoint{}`: 0 stands for what is empty.
abbrev pub empty_peer : Peer
empty_peer = record { name = 0; pubkey = 0; rest = 0 }

-- The loop of `getNewLeaderWhenNotViewChange` over the nodes of the shard, from the `i`-th on.
unfoldable pub after_round : List Peer → ℕ → ℕ → List Peer → Option Peer
after_round all round i [] = some empty_peer
after_round all round i (p ∷ ps) =
    if i == round then get_elem? all ((i + 1) % length all) else after_round all round (suc i) ps

-- What the loop divides the block number by: the sharding size, or the number of all the nodes where
-- they do not fill a shard. A division by zero panics, where the loop has a round.
unfoldable pub after_block : List Peer → ℕ → ℕ → Option (Option Peer)
after_block [] number divisor = some (some empty_peer)
after_block (p ∷ ps) number zero = none
after_block (p ∷ ps) number (suc d) = some (after_round (p ∷ ps) (number % suc d) 0 (p ∷ ps))

unfoldable pub micro_leader : Server → ℕ → Option (Option Peer)
micro_leader s zero = none
micro_leader s (suc k) =
    let nodes_num = length s.ds_current.sharding_nodes in
    after_block s.sharding_nodes s.tx_current.block_number
      (if nodes_num / suc k == 0 then nodes_num else suc k)

-- `getNewLeaderWhenNotViewChange`; the inner `none` is nil.
unfoldable pub leader_when_not_view_change : Server → ConsensusType → Option (Option Peer)
leader_when_not_view_change s ds_block_consensus =
    if ltb (length s.committee) 2 then some none else some (get_elem? s.committee 1)
leader_when_not_view_change s final_block_consensus =
    if ltb (length s.committee) 2 then some none else some (get_elem? s.committee 1)
leader_when_not_view_change s micro_block_consensus = micro_leader s s.sharding_size
leader_when_not_view_change s view_change_consensus = some (some empty_peer)

-- The loops of `GetNewLeader`: the node after the first one with this key, from the `i`-th on.
unfoldable pub after_key : List Peer → ℕ → ℕ → List Peer → Option Peer
after_key all key i [] = some empty_peer
after_key all key i (p ∷ ps) =
    if p.pubkey == key then get_elem? all ((i + 1) % length all) else after_key all key (suc i) ps

unfoldable pub leader_after_vc : Server → ConsensusType → Peer → Option Peer
leader_after_vc s ds_block_consensus l = after_key s.committee l.pubkey 0 s.committee
leader_after_vc s final_block_consensus l = after_key s.committee l.pubkey 0 s.committee
leader_after_vc s micro_block_consensus l = after_key s.sharding_nodes l.pubkey 0 s.sharding_nodes
leader_after_vc s view_change_consensus l = some empty_peer

-- `GetNewLeader` in a view change.
unfoldable pub leader_in_view_change : Server → ConsensusType → Option VcBlock → Option Peer
leader_in_view_change s last none = some empty_peer
leader_in_view_change s last (some b) = elim b.new_leader [
  | none ↦ some empty_peer
  | some l ↦ leader_after_vc s last l
]

-- `GetNewLeader`
unfoldable pub get_new_leader :
    Server → ConsensusType → ConsensusType → Option VcBlock → Option (Option Peer)
get_new_leader s ds_block_consensus last vc = leader_when_not_view_change s ds_block_consensus
get_new_leader s micro_block_consensus last vc = leader_when_not_view_change s micro_block_consensus
get_new_leader s final_block_consensus last vc = leader_when_not_view_change s final_block_consensus
get_new_leader s view_change_consensus last vc = some (leader_in_view_change s last vc)

-- `GetNewLeader` of a node's own stages and view change block.
abbrev pub own_new_leader : Node → Option (Option Peer)
own_new_leader n = get_new_leader n.server n.current_stage n.last_stage n.current_vc

-- The node with the view change block that names this leader.
unfoldable pub set_vc_block : Node → Option Peer → Node
set_vc_block n l = record n {
  current_vc = some (record {
    view_change_ds_no = n.server.ds_current.block_number;
    view_change_tx_no = n.server.tx_current.block_number;
    stage = n.last_stage;
    new_leader = l;
  });
}

unfoldable pub with_leader : Node → Option (Option Peer) → Option (Result RoleError Node)
with_leader n none = none
with_leader n (some l) = some (ok (set_vc_block n l))

-- `composeVCBlock` of the sharding roles.
unfoldable pub compose_vc_block_sharding : Node → Option (Result RoleError Node)
compose_vc_block_sharding n = with_leader n (own_new_leader n)

-- `composeVCBlock` of the committee's roles.
unfoldable pub compose_vc_block_ds : Node → Option (Result RoleError Node)
compose_vc_block_ds n =
    if ltb (length n.server.committee) 2
    then some (err not_enough_nodes)
    else with_leader n (own_new_leader n)

-- An error of `composeVCBlock`, as the caller returns it.
unfoldable pub compose_error :
    RoleError → Option (Result RoleError Node) → Option (Result RoleError Node)
compose_error e none = none
compose_error e (some (ok n)) = some (ok n)
compose_error e (some (err _)) = some (err e)

-- The committee with its head at its end; `none` is the panic on an empty committee.
unfoldable pub rotate_committee : Node → Option Node
rotate_committee n = elim (head_to_tail n.server.committee) [
  | none ↦ none
  | some committee ↦ some (record n { server = record n.server { committee = committee } })
]

-- `RoleDsLead.OnViewChangeConsensusStarted`, up to the announcement.
unfoldable pub started_ds_lead : Node → Option (Result RoleError Node)
started_ds_lead n = elim (rotate_committee n) [
  | none ↦ none
  | some n' ↦ compose_error handle_in_current_state (compose_vc_block_ds n')
]

-- `RoleDsBackup.OnViewChangeConsensusStarted`: `UpdateLeader` comes before the committee is turned.
unfoldable pub started_ds_backup : Node → Option (Result RoleError Node)
started_ds_backup n = elim (own_new_leader n) [
  | none ↦ none
  | some l ↦ elim (rotate_committee (record n { leader = l })) [
    | none ↦ none
    | some n' ↦ compose_error compose_block (compose_vc_block_ds n')
  ]
]

-- `RoleShardingLead.OnViewChangeConsensusStarted`, up to the announcement.
unfoldable pub started_sharding_lead : Node → Option (Result RoleError Node)
started_sharding_lead n = compose_vc_block_sharding n

-- `RoleShardingBackup.OnViewChangeConsensusStarted`
unfoldable pub started_sharding_backup : Node → Option (Result RoleError Node)
started_sharding_backup n = elim (own_new_leader n) [
  | none ↦ none
  | some l ↦ compose_error compose_block (compose_vc_block_sharding (record n { leader = l }))
]

-- The switch of `StartViewChange` on the last stage; `is_leader` is its test of the public keys.
unfoldable pub start_as : Bool → ConsensusType → Node → Option (Result RoleError Node)
start_as true ds_block_consensus n = started_ds_lead (record n { role = ds_lead })
start_as true final_block_consensus n = started_ds_lead (record n { role = ds_lead })
start_as true micro_block_consensus n = started_sharding_lead (record n { role = sharding_lead })
start_as true view_change_consensus n = some (ok n)
start_as false ds_block_consensus n = started_ds_backup (record n { role = ds_backup })
start_as false final_block_consensus n = started_ds_backup (record n { role = ds_backup })
start_as false micro_block_consensus n =
    started_sharding_backup (record n { role = sharding_backup })
start_as false view_change_consensus n = some (ok n)

-- What `StartViewChange` does with the new leader: nil panics.
unfoldable pub start_with : Node → Option (Option Peer) → Option (Result RoleError Node)
start_with n none = none
start_with n (some none) = none
start_with n (some (some l)) = start_as (l.pubkey == n.server.self_node.pubkey) n.last_stage n

-- `StartViewChange`
unfoldable pub start_view_change :
    Node → ConsensusType → ConsensusType → Option (Result RoleError Node)
start_view_change n current last =
    let n1 : Node = record n { current_stage = current; last_stage = last } in
    start_with n1 (own_new_leader n1)

-- The last test of `VerifyVCBlock`: nil on either side panics.
unfoldable pub check_vc_leader :
    VcBlock → Option Peer → Option (Option Peer) → Option (Result RoleError VcBlock)
check_vc_leader b none own = none
check_vc_leader b (some l) none = none
check_vc_leader b (some l) (some none) = none
check_vc_leader b (some l) (some (some l')) =
    if l.pubkey == l'.pubkey then some (ok b) else some (err verify_block)

-- The test of the stage in `VerifyVCBlock`.
unfoldable pub same_stage : ConsensusType → ConsensusType → Bool
same_stage a b = elim (ConsensusType-discrete a b) [ yes _ ↦ true | no _ ↦ false ]

-- `VerifyVCBlock` past the test of the own block.
unfoldable pub check_vc_block : Node → VcBlock → Option (Result RoleError VcBlock)
check_vc_block n b =
    if not (b.view_change_tx_no == n.server.tx_current.block_number)
    then some (err verify_block)
    else if not (b.view_change_ds_no == n.server.ds_current.block_number)
    then some (err verify_block)
    else if not (same_stage b.stage n.last_stage)
    then some (err verify_block)
    else check_vc_leader b b.new_leader (own_new_leader n)

-- `VerifyVCBlock` of a block that is read.
unfoldable pub verify_vc_block : Node → VcBlock → Option (Result RoleError VcBlock)
verify_vc_block n b = elim n.current_vc [
  | none ↦ some (err empty_block)
  | some _ ↦ check_vc_block n b
]
