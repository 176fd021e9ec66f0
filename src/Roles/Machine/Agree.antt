-- ===== src/Roles/Machine/Agree.antt =====
-- Which role a node takes in its shard, and whom it follows there.
pub mod Indexes
pub mod Leaders
pub mod Turns
use okchain.Prelude.{
  ℕ, zero, suc, ◌≡◌, ◌≢◌, ◌⊎◌, inl, inr, refl, sym, ◌∙◌, ap, subst, Bool, true, false, List, [],
  ◌∷◌, Option, none, some, some_inj, if_rule, ◌==◌, get_elem?, arith, if◌then◌else◌, Option-cases,
}
use okchain.Bft.Types.{micro_block_consensus}
use okchain.Roles.Peers.{Peer, index}
use okchain.Roles.Sharding.{ShardInfo, init_sharding_node_info}
use okchain.Roles.Types.{DsBlock, TxBlock, RoleError, sign_message}
use okchain.Roles.ViewChange.{RoleType, sharding_lead, sharding_backup, ds_lead}
use okchain.Roles.States.{StateType, microblock_consensus, wait4_microblock_submission}
use okchain.Roles.Machine.{
  Machine, DutyEnv, Done, same_role, set_at, change_state, change_role, update_leader,
  start_announce, on_micro_block_consensus_started, with_sharding_nodes, announce,
}
use okchain.Roles.Machine.Blocks.{take_place, enter_shard, take_new_role, role_at, next_round}
use okchain.Roles.Machine.Agree.Indexes.{IsNamedOnce, index_get, index_miss, index_at, index_head}

-- The node agrees on a micro block with its shard: it leads it under its own name, or follows a
-- leader of another name.
pub record Follows (l : Peer) (m : Machine) : Type 0 where
  pub in_consensus : m.states m.role ≡ some microblock_consensus
  pub stage : m.stage ≡ micro_block_consensus
  pub duty :
      ((m.role ≡ sharding_lead) × (l.name ≡ m.server.self_node.name))
      ⊎ ((m.role ≡ sharding_backup)
          × (m.leaders sharding_backup ≡ some l)
          × (l.name ≢ m.server.self_node.name))

-- What a handler leaves follows this leader, if it does not panic.
abbrev pub FollowsAfter : Peer → Done → Type 0
FollowsAfter l none = Unit
FollowsAfter l (some (e, m)) = Follows l m

pub lead_Follows :
    (env : DutyEnv) (l : Peer) (m : Machine)
    → l.name ≡ m.server.self_node.name
    → FollowsAfter l (
        on_micro_block_consensus_started env sharding_lead l
          (change_role sharding_lead microblock_consensus m))
unfolding on_micro_block_consensus_started start_announce change_role change_state set_at same_role
lead_Follows env l m e =
    if_rule (λ (d : Option RoleError × Machine). Follows l d.1)
      (env.seals (announce micro_block_consensus m.server.sharding_nodes)) _ _
      (λ t. record { in_consensus = refl; stage = refl; duty = inl (refl, e) })
      (λ f. record { in_consensus = refl; stage = refl; duty = inl (refl, e) })

pub backup_Follows :
    (env : DutyEnv) (l : Peer) (m : Machine)
    → l.name ≢ m.server.self_node.name
    → FollowsAfter l (
        on_micro_block_consensus_started env sharding_backup l
          (change_role sharding_backup microblock_consensus m))
unfolding on_micro_block_consensus_started change_role change_state update_leader set_at same_role
backup_Follows env l m e = record { in_consensus = refl; stage = refl; duty = inr (refl, refl, e) }

take_place-Follows :
    (env : DutyEnv) (i : ℕ) (l : Peer) (ls : List Peer) (m : Machine)
    → index (l ∷ ls) m.server.self_node ≡ some i
    → FollowsAfter l (take_place env (some i) (l ∷ ls) m)
unfolding take_place
take_place-Follows env zero l ls m e =
    let (p, got, named) = index_get 0 (l ∷ ls) m.server.self_node e in
    lead_Follows env l m (ground (arith, some_inj got))
take_place-Follows env (suc i) l ls m e =
    backup_Follows env l m (λ n. absurd (ground (arith, index_head l ls m.server.self_node n)))

-- A node that enters a shard that it belongs to, and has not won the DS block, follows the head of
-- the shard's list.
pub take_new_role-Follows :
    (env : DutyEnv) (b : DsBlock) (m : Machine) (info : ShardInfo) (l : Peer) (ls : List Peer)
    (i : ℕ)
    → b.winner_pub_key ≢ m.server.self_node.pubkey
    → init_sharding_node_info env.roles.bls.sort_key m.server.sharding_size b.sharding_nodes
        m.server.self_node.pubkey
      ≡ some info
    → info.sharding_nodes ≡ l ∷ ls
    → index (l ∷ ls) m.server.self_node ≡ some i
    → FollowsAfter l (take_new_role env b m)
unfolding take_new_role enter_shard
take_new_role-Follows env b m info l ls i w d n e =
    if_rule (FollowsAfter l) (b.winner_pub_key == m.server.self_node.pubkey) _ _
      (λ t. absurd (w (ground arith)))
      (λ f. rw (d, n, e) (take_place-Follows env i l ls (with_sharding_nodes (l ∷ ls) m) e))

-- In the next round of micro blocks a node of the shard follows the node whose turn it is.
pub next_round-Follows :
    (env : DutyEnv) (round : ℕ) (m : Machine) (l : Peer)
    → IsNamedOnce m.server.sharding_nodes
    → get_elem? m.server.sharding_nodes round ≡ some l
    → FollowsAfter l (next_round env round m)
unfolding next_round role_at
next_round-Follows env round m l once g =
    let nodes : List Peer = m.server.sharding_nodes in
    let self : Peer = m.server.self_node in
    elim (Option-cases (index nodes self)) [
      | inl h ↦ rw (next_round, g, h) (backup_Follows env l m (index_miss round nodes self l h g))
      | inr (i, h) ↦
          rw (next_round, g, h)
            (if_rule
              (λ (r : RoleType).
                FollowsAfter l
                  (on_micro_block_consensus_started env r l (change_role r microblock_consensus m)))
              (i == round) sharding_lead sharding_backup
              (λ t.
                let (p, got, named) = index_get i nodes self h in
                lead_Follows env l m (ground arith))
              (λ f.
                backup_Follows env l m
                  (λ n. absurd (ground (arith, index_at round nodes self l once g n)))))
    ]
