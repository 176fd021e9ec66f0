-- ===== src/Roles/Machine/Steps/Finals.antt =====
-- The handlers of final blocks keep each role object in the states of its role.
use okchain.Prelude.{
  ℕ, zero, suc, ◌%◌, ◌≡◌, Bool, true, false, not, List, Option, none, some, if_rule, if◌then◌else◌,
  arith, ltb, ◌==◌, get_elem?, u64, max_uint64, ◌+◌,
}
use okchain.Roles.Peers.{Peer, index}
use okchain.Roles.Types.{TxBlock, RoleError}
use okchain.Roles.ViewChange.{RoleType}
use okchain.Roles.States.{is_matched, microblock_consensus, waiting_dsblock}
use okchain.Roles.Machine.{
  Machine, DutyEnv, submit_pow, emit, change_state, change_role, on_final_block_ready,
  on_micro_block_consensus_started,
}
use okchain.Roles.Machine.Blocks.{
  Sig2, rounds_of, after_mining, role_at, next_round, after_final_block, process_final_block,
  process_final_block_lookup, after_mining_idle, is_pow_round, after_final_block_idle,
  process_final_block_idle, verify_final_block_multi_sign2,
}
use okchain.Roles.Machine.Steps.Placed.{
  Placed, Keeps, Option_rule, change_state-Placed, change_role-Placed, on_final_block_ready-Placed,
  on_micro_block_consensus_started-Keeps,
}
use okchain.Roles.Machine.Steps.Arrivals.{after_signatures-Keeps}

-- Sending a mining result, where it can be.
sent_pow :
    (env : DutyEnv) (nodes : List Peer) (m m1 : Machine) (e : RoleError)
    → Placed m
    → Placed m1
    → Keeps (if env.seals (submit_pow nodes) then some (none, m1) else some (some e, m))
sent_pow env nodes m m1 e p p1 =
    if_rule Keeps (env.seals (submit_pow nodes)) (some (none, m1)) (some (some e, m)) (λ t. p1)
      (λ f. p)

after_mining-Keeps :
    (env : DutyEnv) (r : RoleType) (mined : Option ℕ) (m : Machine)
    → is_matched r waiting_dsblock ≡ true
    → Placed m
    → Keeps (after_mining env r mined m)
unfolding after_mining
after_mining-Keeps env r none m e p = p
after_mining-Keeps env r (some number) m e p =
    let pow = submit_pow m.server.committee in
    if_rule Keeps (not (m.server.ds_current.block_number == number)) (some (none, m))
      (if env.seals pow
        then some (none, change_state r waiting_dsblock (emit pow m))
        else some (some RoleError.sign_message, m))
      (λ t. p)
      (λ f.
        sent_pow env m.server.committee m (change_state r waiting_dsblock (emit pow m))
          RoleError.sign_message p (change_state-Placed r waiting_dsblock (emit pow m) e p))

role_at-matched :
    (i : Option ℕ) (round : ℕ) → is_matched (role_at i round) microblock_consensus ≡ true
unfolding role_at is_matched
role_at-matched i round = ground arith

next_round-Keeps :
    (env : DutyEnv) (round : ℕ) (m : Machine) → Placed m → Keeps (next_round env round m)
unfolding next_round
next_round-Keeps env round m p =
    let r = role_at (index m.server.sharding_nodes m.server.self_node) round in
    Option_rule Keeps (get_elem? m.server.sharding_nodes round) none
      (λ q. on_micro_block_consensus_started env r q (change_role r microblock_consensus m)) tt
      (λ q e.
        on_micro_block_consensus_started-Keeps env r q (change_role r microblock_consensus m) (
          change_role-Placed r microblock_consensus m
            (role_at-matched (index m.server.sharding_nodes m.server.self_node) round) p))

after_final_block-Keeps :
    (env : DutyEnv) (r : RoleType) (b : TxBlock) (mined : Option ℕ) (m : Machine)
    → is_matched r waiting_dsblock ≡ true
    → Placed m
    → Keeps (after_final_block env r b mined m)
unfolding after_final_block
after_final_block-Keeps env r b mined m e p = go (rounds_of m.server)
  where
    go :
        (o : Option ℕ)
        → Keeps (elim o [
          | none ↦ none
          | some zero ↦ none
          | some (suc d) ↦
              if b.block_number % suc d == 0
              then after_mining env r mined m
              else next_round env (b.block_number % suc d) m
        ])
    go none = tt
    go (some zero) = tt
    go (some (suc d)) =
        if_rule Keeps (b.block_number % suc d == 0) (after_mining env r mined m)
          (next_round env (b.block_number % suc d) m) (λ t. after_mining-Keeps env r mined m e p)
          (λ f. next_round-Keeps env (b.block_number % suc d) m p)

pub process_final_block-Keeps :
    (env : DutyEnv) (r : RoleType) (genuine : Bool) (payload : Option (TxBlock × Sig2))
    (mined : Option ℕ) (m : Machine)
    → is_matched r waiting_dsblock ≡ true
    → Placed m
    → Keeps (process_final_block env r genuine payload mined m)
unfolding process_final_block
process_final_block-Keeps env r genuine payload mined m e p =
    after_signatures-Keeps genuine payload (λ b. verify_final_block_multi_sign2 env m.server) _ m p
      (λ b.
        after_final_block-Keeps env r b mined (on_final_block_ready env b m).1 e
          (on_final_block_ready-Placed env b m p))

pub process_final_block_lookup-Keeps :
    (env : DutyEnv) (genuine : Bool) (payload : Option (TxBlock × Sig2)) (m : Machine)
    → Placed m
    → Keeps (process_final_block_lookup env genuine payload m)
unfolding process_final_block_lookup
process_final_block_lookup-Keeps env genuine payload m p =
    after_signatures-Keeps genuine payload (λ b. verify_final_block_multi_sign2 env m.server) _ m p
      (λ b. on_final_block_ready-Placed env b m p)

after_mining_idle-Keeps :
    (env : DutyEnv) (mined : Option ℕ) (m : Machine)
    → Placed m
    → Keeps (after_mining_idle env mined m)
unfolding after_mining_idle
after_mining_idle-Keeps env none m p = p
after_mining_idle-Keeps env (some number) m p =
    let pow = submit_pow m.server.ds_current.committee in
    if_rule Keeps (not (m.server.ds_current.block_number == number)) (some (none, m))
      (if env.seals pow
        then some (none, record (emit pow m) { idle_pow_flag = true })
        else some (some RoleError.sign_message, m))
      (λ t. p)
      (λ f.
        sent_pow env m.server.ds_current.committee m (record (emit pow m) { idle_pow_flag = true })
          RoleError.sign_message p p)

pub process_final_block_idle-Keeps :
    (env : DutyEnv) (bare : Option TxBlock) (height : ℕ) (mined : Option ℕ) (m : Machine)
    → Placed m
    → Keeps (process_final_block_idle env bare height mined m)
unfolding process_final_block_idle after_final_block_idle
process_final_block_idle-Keeps env none height mined m p = p
process_final_block_idle-Keeps env (some b) height mined m p =
    let m1 = (on_final_block_ready env b m).1 in
    let p1 = on_final_block_ready-Placed env b m p in
    if_rule Keeps (ltb m1.server.tx_current.block_number (u64 (height + max_uint64)))
      (some (none, m1))
      (elim (is_pow_round m1.server b.block_number) [
        | none ↦ none
        | some true ↦ after_mining_idle env mined m1
        | some false ↦ some (none, m1)
      ])
      (λ t. p1) (λ f. go m1 p1 (is_pow_round m1.server b.block_number))
  where
    go :
        (m1 : Machine)
        → Placed m1
        → (o : Option Bool)
        → Keeps (elim o [
          | none ↦ none
          | some true ↦ after_mining_idle env mined m1
          | some false ↦ some (none, m1)
        ])
    go m1 p1 none = tt
    go m1 p1 (some true) = after_mining_idle-Keeps env mined m1 p1
    go m1 p1 (some false) = p1
