-- ===== src/Roles/Machine/Agree/Leaders.antt =====
-- The nodes of a shard agree on who leads it.
use okchain.Prelude.{
  ℕ, zero, suc, ◌<◌, ◌≡◌, ◌≢◌, inl, inr, refl, sym, ◌∙◌, ap, subst, true, false, List, [], ◌∷◌,
  Option, none, some, some_inj, leb, arith, List-cases,
}
use okchain.Bft.Types.{Error}
use okchain.Roles.Peers.{Peer, index_from, index}
use okchain.Roles.Sharding.{PeerEndpointMap, ShardInfo, init_sharding_node_info, reset_sharding_map}
use okchain.Roles.Types.{DsBlock, RoleError}
use okchain.Roles.Machine.{Machine, DutyEnv, Done, adopt_ds_block, on_ds_block_ready}
use okchain.Roles.Machine.Blocks.{
  Sig2, verify_ds_block_multi_sign2, after_signatures, when_ready, take_new_role, process_ds_block,
}
use okchain.Roles.Machine.Agree.{Follows, FollowsAfter, take_new_role-Follows}

-- Two nodes follow one leader, and are one node if both lead.
pub record SameLeader (m1 m2 : Machine) : Type 0 where
  pub leader : Peer
  pub first : Follows leader m1
  pub second : Follows leader m2

-- A node takes the DS block into its chain.
pub record Accepts (env : DutyEnv) (b : DsBlock) (sig2 : Sig2) (m : Machine) : Type 0 where
  pub signed : verify_ds_block_multi_sign2 env b sig2 ≡ some none
  pub newer : m.server.ds_current.block_number < b.block_number
  pub inserted : env.inserts_ds m.server.ds_current b ≡ true
  pub dealt : PeerEndpointMap
  pub divided : reset_sharding_map m.server.sharding_size b.sharding_nodes ≡ some dealt

-- A node that has not won the block belongs to a shard with this list.
pub record Enters (env : DutyEnv) (b : DsBlock) (m : Machine) (info : ShardInfo) : Type 0 where
  pub not_winner : b.winner_pub_key ≢ m.server.self_node.pubkey
  pub shard :
      init_sharding_node_info env.roles.bls.sort_key m.server.sharding_size b.sharding_nodes
        m.server.self_node.pubkey
      ≡ some info
  pub place : ℕ
  pub placed : index info.sharding_nodes m.server.self_node ≡ some place

not_below : (x y : ℕ) → y < x → leb x y ≡ false
not_below x y h = ground arith

pub after_signatures_ok :
    {B : Type 0} (b : B) (sig2 : Sig2) (verify : B → Sig2 → Option (Option Error)) (next : B → Done)
    (m : Machine)
    → verify b sig2 ≡ some none
    → after_signatures true (some (b, sig2)) verify next m ≡ next b
unfolding after_signatures
after_signatures_ok b sig2 verify next m h = ground arith

ready_lem :
    (env : DutyEnv) (b : DsBlock) (sig2 : Sig2) (m : Machine) (a : Accepts env b sig2 m)
    → on_ds_block_ready env b m ≡ some (none, adopt_ds_block b a.dealt m)
unfolding on_ds_block_ready
ready_lem env b sig2 m a =
    let newer = not_below b.block_number m.server.ds_current.block_number a.newer in
    rw (on_ds_block_ready, newer, a.inserted, a.divided) refl

process_ds_block-take_new_role :
    (env : DutyEnv) (b : DsBlock) (sig2 : Sig2) (m : Machine) (a : Accepts env b sig2 m)
    → process_ds_block env true (some (b, sig2)) m
      ≡ take_new_role env b (adopt_ds_block b a.dealt m)
unfolding process_ds_block when_ready
process_ds_block-take_new_role env b sig2 m a =
    after_signatures_ok b sig2 (verify_ds_block_multi_sign2 env)
      (λ c. when_ready (on_ds_block_ready env c m) (take_new_role env c)) m a.signed
    ∙ ap (λ (d : Done). when_ready d (take_new_role env b)) (ready_lem env b sig2 m a)

empty_place : (nodes : List Peer) (e : Peer) (i : ℕ) → nodes ≡ [] → index nodes e ≢ some i
unfolding index index_from
empty_place [] e i h q = cc
empty_place (p ∷ ps) e i h q = cc

Follows-head :
    (env : DutyEnv) (b : DsBlock) (sig2 : Sig2) (m m' : Machine) (info : ShardInfo)
    (e : Option RoleError) (l : Peer) (ls : List Peer)
    → Accepts env b sig2 m
    → Enters env b m info
    → info.sharding_nodes ≡ l ∷ ls
    → process_ds_block env true (some (b, sig2)) m ≡ some (e, m')
    → Follows l m'
unfolding adopt_ds_block
Follows-head env b sig2 m m' info e l ls a n s r =
    subst (FollowsAfter l) (sym (process_ds_block-take_new_role env b sig2 m a) ∙ r) (
      take_new_role-Follows env b (adopt_ds_block b a.dealt m) info l ls n.place n.not_winner
        n.shard s
        (subst (λ (nodes : List Peer). index nodes m.server.self_node ≡ some n.place) s n.placed))

same_shard_lem :
    (sort_key : ℕ → ℕ) (size : ℕ) (nodes : List Peer) (k1 k2 : ℕ) (i1 i2 : ShardInfo)
    → init_sharding_node_info sort_key size nodes k1 ≡ some i1
    → init_sharding_node_info sort_key size nodes k2 ≡ some i2
    → i1.sharding_id ≡ i2.sharding_id
    → i1.sharding_nodes ≡ i2.sharding_nodes
unfolding init_sharding_node_info
same_shard_lem sort_key zero nodes k1 k2 i1 i2 e1 e2 same = absurd cc
same_shard_lem sort_key (suc s) nodes k1 k2 i1 i2 e1 e2 same =
    ground (arith, some_inj e1, some_inj e2)

-- Two nodes of one shard, neither of which has won the DS block, that take the block into their
-- chains and are done with `ProcessDSBlock`: they agree on a micro block with their shard under one
-- leader, which is the one of them that leads, if one does.
pub process_ds_block-SameLeader :
    (env : DutyEnv) (b : DsBlock) (sig2 : Sig2) (m1 m2 m1' m2' : Machine) (i1 i2 : ShardInfo)
    (e1 e2 : Option RoleError)
    → Accepts env b sig2 m1
    → Accepts env b sig2 m2
    → Enters env b m1 i1
    → Enters env b m2 i2
    → m1.server.sharding_size ≡ m2.server.sharding_size
    → i1.sharding_id ≡ i2.sharding_id
    → process_ds_block env true (some (b, sig2)) m1 ≡ some (e1, m1')
    → process_ds_block env true (some (b, sig2)) m2 ≡ some (e2, m2')
    → SameLeader m1' m2'
process_ds_block-SameLeader env b sig2 m1 m2 m1' m2' i1 i2 e1 e2 a1 a2 n1 n2 size id r1 r2 =
    let same =
      same_shard_lem env.roles.bls.sort_key m1.server.sharding_size b.sharding_nodes
        m1.server.self_node.pubkey m2.server.self_node.pubkey i1 i2 n1.shard (rw size n2.shard)
        id in
    elim (List-cases i1.sharding_nodes) [
      | inl e ↦ absurd (empty_place i1.sharding_nodes m1.server.self_node n1.place e n1.placed)
      | inr (l, ls, e) ↦ record {
        leader = l;
        first = Follows-head env b sig2 m1 m1' i1 e1 l ls a1 n1 e r1;
        second = Follows-head env b sig2 m2 m2' i2 e2 l ls a2 n2 (sym same ∙ e) r2;
      }
    ]
