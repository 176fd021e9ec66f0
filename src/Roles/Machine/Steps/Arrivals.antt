-- ===== src/Roles/Machine/Steps/Arrivals.antt =====
-- The handlers of DS blocks keep each role object in the states of its role.
use okchain.Prelude.{
  ℕ, zero, suc, refl, Bool, true, false, not, List, [], ◌∷◌, Option, none, some, if_rule,
  if◌then◌else◌, ◌==◌,
}
use okchain.Bft.Types.{Error}
use okchain.Roles.Peers.{Peer, index}
use okchain.Roles.Sharding.{init_sharding_node_info, ShardInfo}
use okchain.Roles.Types.{DsBlock}
use okchain.Roles.ViewChange.{idle, sharding_lead, sharding_backup, ds_lead}
use okchain.Roles.States.{is_matched, microblock_consensus, state_idle, wait4_microblock_submission}
use okchain.Roles.Machine.{
  Machine, DutyEnv, Done, change_role, with_sharding_nodes, on_ds_block_ready,
}
use okchain.Roles.Machine.Blocks.{
  Sig2, after_signatures, take_place, enter_shard, take_new_role, when_ready, process_ds_block,
  process_ds_block_lookup, take_place_idle, take_new_role_idle, process_ds_block_idle,
  verify_ds_block_multi_sign2,
}
use okchain.Roles.Machine.Steps.Placed.{
  Placed, Keeps, change_role-Placed, on_ds_block_ready-Keeps,
  on_micro_block_consensus_started-Keeps,
}

pub after_signatures-Keeps :
    {B : Type 0} (genuine : Bool) (payload : Option (B × Sig2))
    (verify : B → Sig2 → Option (Option Error)) (next : B → Done) (m : Machine)
    → Placed m
    → ((b : B) → Keeps (next b))
    → Keeps (after_signatures genuine payload verify next m)
unfolding after_signatures
after_signatures-Keeps false payload verify next m p h = p
after_signatures-Keeps true none verify next m p h = p
after_signatures-Keeps true (some (b, sig2)) verify next m p h = go (verify b sig2)
  where
    go :
        (v : Option (Option Error))
        → Keeps (elim v [ none ↦ none | some (some e) ↦ some (none, m) | some none ↦ next b ])
    go none = tt
    go (some none) = h b
    go (some (some e)) = p

pub when_ready-Keeps :
    (d : Done) (next : Machine → Done)
    → Keeps d
    → ((m : Machine) → Placed m → Keeps (next m))
    → Keeps (when_ready d next)
unfolding when_ready
when_ready-Keeps none next k h = tt
when_ready-Keeps (some (some e, m)) next k h = k
when_ready-Keeps (some (none, m)) next k h = h m k

take_place-Keeps :
    (env : DutyEnv) (i : Option ℕ) (nodes : List Peer) (m : Machine)
    → Placed m
    → Keeps (take_place env i nodes m)
unfolding take_place is_matched
take_place-Keeps env none nodes m p = change_role-Placed idle state_idle m refl p
take_place-Keeps env (some zero) [] m p = tt
take_place-Keeps env (some (suc i)) [] m p = tt
take_place-Keeps env (some zero) (q ∷ qs) m p =
    on_micro_block_consensus_started-Keeps env sharding_lead q
      (change_role sharding_lead microblock_consensus m)
      (change_role-Placed sharding_lead microblock_consensus m refl p)
take_place-Keeps env (some (suc i)) (q ∷ qs) m p =
    on_micro_block_consensus_started-Keeps env sharding_backup q
      (change_role sharding_backup microblock_consensus m)
      (change_role-Placed sharding_backup microblock_consensus m refl p)

-- A continuation on the node in its shard.
pub enter_shard-Keeps :
    (env : DutyEnv) (b : DsBlock) (m : Machine) (next : Machine → Done)
    → Placed m
    → ((m1 : Machine) → Placed m1 → Keeps (next m1))
    → Keeps (elim (enter_shard env b m) [ none ↦ none | some m1 ↦ next m1 ])
unfolding enter_shard
enter_shard-Keeps env b m next p h = go (
    init_sharding_node_info env.roles.bls.sort_key m.server.sharding_size b.sharding_nodes
      m.server.self_node.pubkey)
  where
    go :
        (o : Option ShardInfo)
        → Keeps
            (elim (elim o as (λ _. Option Machine) [
              | none ↦ none
              | some info ↦ some (with_sharding_nodes info.sharding_nodes m)
            ]) [ none ↦ none | some m1 ↦ next m1 ])
    go none = tt
    go (some info) = h (with_sharding_nodes info.sharding_nodes m) p

take_new_role-Keeps :
    (env : DutyEnv) (b : DsBlock) (m : Machine) → Placed m → Keeps (take_new_role env b m)
unfolding take_new_role is_matched
take_new_role-Keeps env b m p =
    if_rule Keeps (b.winner_pub_key == m.server.self_node.pubkey)
      (some (none, change_role ds_lead wait4_microblock_submission m))
      (elim (enter_shard env b m) [
        | none ↦ none
        | some m1 ↦
            take_place env (index m1.server.sharding_nodes m1.server.self_node)
              m1.server.sharding_nodes m1
      ])
      (λ t. change_role-Placed ds_lead wait4_microblock_submission m refl p)
      (λ f. enter_shard-Keeps env b m _ p (λ m1 p1.
        take_place-Keeps env (index m1.server.sharding_nodes m1.server.self_node)
          m1.server.sharding_nodes m1 p1))

pub process_ds_block-Keeps :
    (env : DutyEnv) (genuine : Bool) (payload : Option (DsBlock × Sig2)) (m : Machine)
    → Placed m
    → Keeps (process_ds_block env genuine payload m)
unfolding process_ds_block
process_ds_block-Keeps env genuine payload m p =
    after_signatures-Keeps genuine payload (verify_ds_block_multi_sign2 env) _ m p (λ b.
      when_ready-Keeps (on_ds_block_ready env b m) (take_new_role env b)
        (on_ds_block_ready-Keeps env b m p) (λ m1 p1. take_new_role-Keeps env b m1 p1))

take_place_idle-Keeps :
    (env : DutyEnv) (i : Option ℕ) (nodes : List Peer) (m : Machine)
    → Placed m
    → Keeps (take_place_idle env i nodes m)
unfolding take_place_idle
take_place_idle-Keeps env none nodes m p = p
take_place_idle-Keeps env (some i) nodes m p = take_place-Keeps env (some i) nodes m p

take_new_role_idle-Keeps :
    (env : DutyEnv) (b : DsBlock) (m : Machine) → Placed m → Keeps (take_new_role_idle env b m)
unfolding take_new_role_idle is_matched
take_new_role_idle-Keeps env b m p =
    let placed : Done = elim (enter_shard env b m) [
      | none ↦ none
      | some m1 ↦
          take_place_idle env (index m1.server.sharding_nodes m1.server.self_node)
            m1.server.sharding_nodes m1
    ] in
    let chosen : Done =
      if b.winner_pub_key == m.server.self_node.pubkey
      then some (none, change_role ds_lead wait4_microblock_submission m)
      else placed in
    if_rule Keeps (not m.idle_pow_flag) (some (none, m)) chosen (λ t. p)
      (λ f.
        if_rule Keeps (b.winner_pub_key == m.server.self_node.pubkey)
          (some (none, change_role ds_lead wait4_microblock_submission m)) placed
          (λ t. change_role-Placed ds_lead wait4_microblock_submission m refl p)
          (λ f'. enter_shard-Keeps env b m _ p (λ m1 p1.
            take_place_idle-Keeps env (index m1.server.sharding_nodes m1.server.self_node)
              m1.server.sharding_nodes m1 p1)))

pub process_ds_block_idle-Keeps :
    (env : DutyEnv) (bare : Option DsBlock) (m : Machine)
    → Placed m
    → Keeps (process_ds_block_idle env bare m)
unfolding process_ds_block_idle
process_ds_block_idle-Keeps env none m p = p
process_ds_block_idle-Keeps env (some b) m p =
    when_ready-Keeps (on_ds_block_ready env b m) (take_new_role_idle env b)
      (on_ds_block_ready-Keeps env b m p) (λ m1 p1. take_new_role_idle-Keeps env b m1 p1)

pub process_ds_block_lookup-Keeps :
    (env : DutyEnv) (genuine : Bool) (payload : Option (DsBlock × Sig2)) (m : Machine)
    → Placed m
    → Keeps (process_ds_block_lookup env genuine payload m)
unfolding process_ds_block_lookup
process_ds_block_lookup-Keeps env genuine payload m p =
    after_signatures-Keeps genuine payload (verify_ds_block_multi_sign2 env) _ m p
      (λ b. on_ds_block_ready-Keeps env b m p)
