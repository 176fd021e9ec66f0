-- ===== src/Roles/Machine/Revert/Resumes.antt =====
-- A node of a shard that starts again takes up its round under the leader of the others.
use native.Mathlib.Nat.{le-div_iff_mul-le}
use okchain.Prelude.{
  ℕ, zero, suc, ◌*◌, ◌/◌, ◌%◌, ◌<◌, ◌≡◌, ◌≢◌, ◌↔◌, inr, refl, sym, ◌∙◌, ap, subst, Bool, true,
  false, List, Option, none, some, if_rule, ◌==◌, ltb, length, get_elem?, arith, if◌then◌else◌, u64,
  lt→ltb,
}
use okchain.Roles.Peers.{Peer, has_peer}
use okchain.Roles.Sharding.{PeerEndpointMap, ShardInfo, init_sharding_node_info, reset_sharding_map}
use okchain.Roles.Types.{TxBlock, Server, RoleError}
use okchain.Roles.ViewChange.{RoleType, lookup, sharding_lead, sharding_backup}
use okchain.Roles.States.{microblock_consensus}
use okchain.Roles.Machine.{
  Machine, DutyEnv, Done, adopt_ds_block, same_role, set_at, change_state, change_role,
  update_leader, with_sharding_nodes, on_micro_block_consensus_started,
}
use okchain.Roles.Machine.Blocks.{enter_shard, rounds_of}
use okchain.Roles.Machine.Blocks.{Sig2, process_final_block}
use okchain.Roles.Machine.Agree.Indexes.{IsNamedOnce}
use okchain.Roles.Machine.Agree.Leaders.{SameLeader}
use okchain.Roles.Machine.Agree.Turns.{IsTurn, turn_Follows}
use okchain.Roles.Machine.Agree.{FollowsAfter, lead_Follows}
use okchain.Roles.Machine.Revert.{
  revert_blocks, revert_size, revert_round, revert_sharding, revert_as, revert_numbers, revert_role,
}

-- A node that is not a lookup node, has not won the current DS block and is not in the block's
-- committee, but is among the block's nodes, in the shard `info`; its current final block's number is
-- below the DS block's number times the sharding size, or times the number of the nodes where they
-- are fewer.
pub record IsShardNode (env : DutyEnv) (m : Machine) (info : ShardInfo) : Type 0 where
  pub dealt : PeerEndpointMap
  pub divided :
      reset_sharding_map m.server.sharding_size m.server.ds_current.sharding_nodes ≡ some dealt
  pub not_lookup : m.role ≢ lookup
  pub before_last :
      m.server.tx_current.block_number
      < u64 (m.server.ds_current.block_number * revert_size m.server)
  pub not_winner : m.server.self_node.pubkey ≢ m.server.ds_current.winner_pub_key
  pub outside : has_peer m.server.ds_current.committee m.server.self_node ≡ false
  pub member : has_peer m.server.ds_current.sharding_nodes m.server.self_node ≡ true
  pub shard :
      init_sharding_node_info env.roles.bls.sort_key m.server.sharding_size
        m.server.ds_current.sharding_nodes m.server.self_node.pubkey
      ≡ some info

rounds_of-revert_size : (s : Server) (d : ℕ) → rounds_of s ≡ some (suc d) → revert_size s ≡ suc d
unfolding rounds_of revert_size
rounds_of-revert_size s d e = go s.sharding_size (length s.ds_current.sharding_nodes) e
  where
    go :
        (size n : ℕ)
        → (elim size as (λ _. Option ℕ) [
          | zero ↦ none
          | suc k ↦ if n / suc k == 0 then (if n == 0 then none else some n) else some (suc k)
        ])
          ≡ some (suc d)
        → (if ltb n size then n else size) ≡ suc d
    go zero n h = absurd cc
    go (suc k) n h = ground (arith, le-div_iff_mul-le {k = suc k} {x = 1} {y = n} (omega arith))

again_Follows :
    (env : DutyEnv) (l : Peer) (m : Machine)
    → l.name ≢ m.server.self_node.name
    → FollowsAfter l (
        on_micro_block_consensus_started env sharding_backup l
          (update_leader sharding_backup l (change_role sharding_backup microblock_consensus m)))
unfolding on_micro_block_consensus_started change_role change_state update_leader set_at same_role
again_Follows env l m n = record { in_consensus = refl; stage = refl; duty = inr (refl, refl, n) }

revert_round-Follows :
    (env : DutyEnv) (l : Peer) (m : Machine)
    → (l.pubkey ≡ m.server.self_node.pubkey) ↔ (l.name ≡ m.server.self_node.name)
    → FollowsAfter l (revert_round env (some l) m)
unfolding revert_round
revert_round-Follows env l m same =
    if_rule (FollowsAfter l) (l.pubkey == m.server.self_node.pubkey)
      (on_micro_block_consensus_started env sharding_lead l
        (change_role sharding_lead microblock_consensus m))
      (on_micro_block_consensus_started env sharding_backup l
        (update_leader sharding_backup l (change_role sharding_backup microblock_consensus m)))
      (λ t. lead_Follows env l m (same.0 (ground arith)))
      (λ f. again_Follows env l m (λ n. absurd (ground (arith, same.1 n))))

-- The node of a shard, once the blocks are taken up again.
abbrev again : PeerEndpointMap → Machine → Machine
again dealt m = record (adopt_ds_block m.server.ds_current dealt m) {
  current_final = some m.server.tx_current;
}

revert_sharding_lem :
    (env : DutyEnv) (m : Machine) (info : ShardInfo) (dealt : PeerEndpointMap) (d : ℕ) (l : Peer)
    → init_sharding_node_info env.roles.bls.sort_key m.server.sharding_size
        m.server.ds_current.sharding_nodes m.server.self_node.pubkey
      ≡ some info
    → get_elem? info.sharding_nodes (m.server.tx_current.block_number % suc d) ≡ some l
    → revert_sharding (revert_round env) env (suc d) (again dealt m)
      ≡ revert_round env (some l) (with_sharding_nodes info.sharding_nodes (again dealt m))
unfolding revert_sharding enter_shard adopt_ds_block
revert_sharding_lem env m info dealt d l i g = rw (revert_sharding, i, g) refl

revert_as_lem :
    (env : DutyEnv) (locked mined : Bool) (m : Machine)
    → m.server.self_node.pubkey ≢ m.server.ds_current.winner_pub_key
    → has_peer m.server.committee m.server.self_node ≡ false
    → has_peer m.server.ds_current.sharding_nodes m.server.self_node ≡ true
    → revert_as env locked false mined m
      ≡ revert_sharding (revert_round env) env (revert_size m.server) m
unfolding revert_as
revert_as_lem env locked mined m w o h =
    let other = other_key m.server.self_node.pubkey m.server.ds_current.winner_pub_key w in
    rw (revert_as, other, o, h) refl
  where
    other_key : (x y : ℕ) → x ≢ y → (x == y) ≡ false
    other_key x y n = ground arith

revert_numbers_lem :
    (env : DutyEnv) (locked mined : Bool) (m : Machine)
    → m.server.tx_current.block_number
      < u64 (m.server.ds_current.block_number * revert_size m.server)
    → revert_numbers env locked mined m ≡ revert_as env locked false mined m
unfolding revert_numbers
revert_numbers_lem env locked mined m h =
    rw (revert_numbers, lt→ltb m.server.tx_current.block_number _ h) refl

revert_role_lem :
    (env : DutyEnv) (locked mined : Bool) (m : Machine) (dealt : PeerEndpointMap)
    → reset_sharding_map m.server.sharding_size m.server.ds_current.sharding_nodes ≡ some dealt
    → m.role ≢ lookup
    → revert_role env locked mined m ≡ revert_numbers env locked mined (again dealt m)
unfolding revert_role revert_blocks adopt_ds_block
revert_role_lem env locked mined m dealt d n = rw (revert_role, d) (go m.role n)
  where
    go :
        (r : RoleType)
        → r ≢ lookup
        → elim r as (λ _. Done) [
          | lookup ↦ some (none, again dealt m)
          | _ ↦ revert_numbers env locked mined (again dealt m)
        ]
          ≡ revert_numbers env locked mined (again dealt m)
    go lookup h = absurd (h refl)
    go _ h = refl

revert_role-Follows :
    (env : DutyEnv) (locked mined : Bool) (m : Machine) (info : ShardInfo) (d : ℕ) (l : Peer)
    → IsShardNode env m info
    → rounds_of m.server ≡ some (suc d)
    → get_elem? info.sharding_nodes (m.server.tx_current.block_number % suc d) ≡ some l
    → (l.pubkey ≡ m.server.self_node.pubkey) ↔ (l.name ≡ m.server.self_node.name)
    → FollowsAfter l (revert_role env locked mined m)
unfolding adopt_ds_block revert_size
revert_role-Follows env locked mined m info d l n r g same =
    let size = rounds_of-revert_size m.server d r in
    let m1 = again n.dealt m in
    let steps =
      revert_role_lem env locked mined m n.dealt n.divided n.not_lookup
      ∙ revert_numbers_lem env locked mined m1 n.before_last
      ∙ revert_as_lem env locked mined m1 n.not_winner n.outside n.member
      ∙ ap (λ (k : ℕ). revert_sharding (revert_round env) env k m1) size
      ∙ revert_sharding_lem env m info n.dealt d l n.shard g in
    subst (FollowsAfter l) (sym steps)
      (revert_round-Follows env l (with_sharding_nodes info.sharding_nodes m1) same)

-- A node that starts again after a final block and is done with `RevertRole` follows the same leader
-- as a node of its shard that is done with `ProcessFinalBlock` of that block. The restarted node is not
-- a lookup node, has not won the current DS block and is not in the block's committee, but is among
-- the block's nodes; the final block's number is below the DS block's number times the sharding
-- size, or times the number of the nodes where they are fewer, modulo 2 ^ 64. For the other node the
-- final block is signed, and its number is no multiple of what both divide it by for the round. Both
-- have the same nodes in their shard, with no name twice, and each node of the shard has the
-- restarted node's name exactly if it has its key.
pub revert_role-SameLeader :
    (env : DutyEnv) (locked mined : Bool) (r2 : RoleType) (b : TxBlock) (sig2 : Sig2)
    (mined2 : Option ℕ) (d : ℕ) (m1 m2 m1' m2' : Machine) (info : ShardInfo)
    (e1 e2 : Option RoleError)
    → IsShardNode env m1 info
    → rounds_of m1.server ≡ some (suc d)
    → m1.server.tx_current.block_number ≡ b.block_number
    → ((i : ℕ) (p : Peer)
        → get_elem? info.sharding_nodes i ≡ some p
        → (p.pubkey ≡ m1.server.self_node.pubkey) ↔ (p.name ≡ m1.server.self_node.name))
    → IsTurn env b sig2 m2 d
    → info.sharding_nodes ≡ m2.server.sharding_nodes
    → IsNamedOnce m2.server.sharding_nodes
    → revert_role env locked mined m1 ≡ some (e1, m1')
    → process_final_block env r2 true (some (b, sig2)) mined2 m2 ≡ some (e2, m2')
    → SameLeader m1' m2'
revert_role-SameLeader env locked mined r2 b sig2 mined2 d m1 m2 m1' m2' info e1 e2 n r number same
      t nodes once p1 p2 =
    let (l, g, f) = turn_Follows env r2 b sig2 mined2 d m2 m2' e2 t once p2 in
    let turn =
      ap (λ (k : ℕ). get_elem? info.sharding_nodes (k % suc d)) number
      ∙ ap (λ (ps : List Peer). get_elem? ps (b.block_number % suc d)) nodes
      ∙ g in
    record {
      leader = l;
      first =
          subst (FollowsAfter l) p1
            (revert_role-Follows env locked mined m1 info d l n r turn (same _ l turn));
      second = f;
    }
