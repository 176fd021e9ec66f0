-- ===== src/Roles/ViewChange/Shard.antt =====
-- The view changes of a shard.
pub mod Rounds
use okchain.Prelude.{
  ℕ, zero, suc, ◌+◌, ◌*◌, ◌/◌, ◌%◌, ◌≤◌, ◌<◌, ◌≡◌, ◌≢◌, refl, sym, ◌∙◌, subst, ap, Bool, true,
  false, not, List, [], ◌∷◌, Option, none, some, some_inj, ltb, ◌==◌, ==_iff, Bool-cases, inl, inr,
  if◌then◌else◌, length, get_elem?, arith,
}
use okchain.Prelude.Result.{Result, ok, err}
use okchain.Bft.Types.{
  ConsensusType, ConsensusType-discrete, micro_block_consensus, view_change_consensus,
}
use okchain.Roles.Peers.{Peer}
use okchain.Roles.Types.{Server, RoleError}
use okchain.Roles.ViewChange.{
  Node, VcBlock, RoleType, set_vc_block, own_new_leader, get_new_leader, with_leader,
  compose_vc_block_sharding, compose_error, started_sharding_lead, started_sharding_backup,
  start_as, start_with, start_view_change, micro_leader, leader_when_not_view_change,
  leader_in_view_change, leader_after_vc, after_key, check_vc_leader, check_vc_block, same_stage,
  verify_vc_block,
}

-- A node with its two stages set.
abbrev pub staged : Node → ConsensusType → ConsensusType → Node
staged n current last = record n { current_stage = current; last_stage = last }

-- A node of a shard after a view change has started with the leader `l`; the flag says whether it is
-- that leader.
abbrev pub shard_started : Bool → Node → Peer → Node
shard_started true n l = set_vc_block (record n { role = RoleType.sharding_lead }) (some l)
shard_started false n l =
    set_vc_block (record n { role = RoleType.sharding_backup; leader = some l }) (some l)

start_shard :
    (is_leader : Bool) (n : Node) (current : ConsensusType) (l : Peer)
    → own_new_leader (staged n current micro_block_consensus) ≡ some (some l)
    → start_as is_leader micro_block_consensus (staged n current micro_block_consensus)
      ≡ some (ok (shard_started is_leader (staged n current micro_block_consensus) l))
unfolding start_as started_sharding_lead started_sharding_backup compose_vc_block_sharding
    compose_error with_leader
start_shard true n current l h = cc h
start_shard false n current l h = cc h

pub start_view_change_shard :
    (n : Node) (current : ConsensusType) (l : Peer)
    → own_new_leader (staged n current micro_block_consensus) ≡ some (some l)
    → start_view_change n current micro_block_consensus
      ≡ some (
          ok (
            shard_started
              (l.pubkey == n.server.self_node.pubkey)
              (staged n current micro_block_consensus)
              l))
unfolding start_view_change start_with
start_view_change_shard n current l h =
    ap (start_with (staged n current micro_block_consensus)) h
    ∙ start_shard (l.pubkey == n.server.self_node.pubkey) n current l h

-- The view change block that names `l`.
abbrev pub vc_naming : Node → Peer → VcBlock
vc_naming n l = record {
  view_change_ds_no = n.server.ds_current.block_number;
  view_change_tx_no = n.server.tx_current.block_number;
  stage = n.last_stage;
  new_leader = some l;
}

pub shard_started_fields :
    (flag : Bool) (n : Node) (l : Peer)
    → ((shard_started flag n l).current_vc ≡ some (vc_naming n l))
      × ((shard_started flag n l).server ≡ n.server)
      × ((shard_started flag n l).current_stage ≡ n.current_stage)
      × ((shard_started flag n l).last_stage ≡ n.last_stage)
unfolding set_vc_block
shard_started_fields true n l = (refl, refl, refl, refl)
shard_started_fields false n l = (refl, refl, refl, refl)

same_stage_refl : (a : ConsensusType) → same_stage a a ≡ true
unfolding same_stage
same_stage_refl a =
    elim (ConsensusType-discrete a a) as (λ d. elim d [ yes _ ↦ true | no _ ↦ false ] ≡ true) [
      | yes _ ↦ refl
      | no ne ↦ absurd (ne refl)
    ]

check_vc_block_lem :
    (n : Node) (b : VcBlock)
    → b.stage ≡ n.last_stage
    → b.view_change_tx_no ≡ n.server.tx_current.block_number
    → b.view_change_ds_no ≡ n.server.ds_current.block_number
    → check_vc_block n b ≡ check_vc_leader b b.new_leader (own_new_leader n)
unfolding check_vc_block
check_vc_block_lem n b stage tx ds = ground (
  arith,
  same_stage_refl n.last_stage,
  ap (λ (x : ConsensusType). same_stage x n.last_stage) stage,
)

-- What a node answers to a block that names `l`, when it has the current block `c` and the blocks'
-- numbers and the stage are its own.
verify_naming :
    (n : Node) (b c : VcBlock) (l l' : Peer)
    → n.current_vc ≡ some c
    → b.stage ≡ n.last_stage
    → b.view_change_tx_no ≡ n.server.tx_current.block_number
    → b.view_change_ds_no ≡ n.server.ds_current.block_number
    → b.new_leader ≡ some l
    → own_new_leader n ≡ some (some l')
    → verify_vc_block n b
      ≡ (if l.pubkey == l'.pubkey then some (ok b) else some (err RoleError.verify_block))
unfolding check_vc_leader verify_vc_block
verify_naming n b c l l' vc stage tx ds named own =
    cc (vc, named, own, check_vc_block_lem n b stage tx ds)

own_started :
    (flag : Bool) (n : Node) (l : Peer)
    → own_new_leader (shard_started flag n l)
      ≡ get_new_leader n.server n.current_stage n.last_stage (some (vc_naming n l))
unfolding set_vc_block
own_started true n l = refl
own_started false n l = refl

-- What a node that has started a view change with the leader `l` answers to a block that names `l`,
-- if it would now choose `l'`.
pub verify_started :
    (flag : Bool) (n : Node) (b : VcBlock) (l l' : Peer)
    → b ≡ vc_naming n l
    → get_new_leader n.server n.current_stage n.last_stage (some (vc_naming n l)) ≡ some (some l')
    → verify_vc_block (shard_started flag n l) b
      ≡ (if l.pubkey == l'.pubkey then some (ok b) else some (err RoleError.verify_block))
verify_started flag n b l l' same next =
    let (vc, server, _, last) = shard_started_fields flag n l in
    verify_naming (shard_started flag n l) b (vc_naming n l) l l' vc (cc (same, last))
      (cc (same, server)) (cc (same, server)) (cc same) (own_started flag n l ∙ next)
