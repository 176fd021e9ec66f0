-- ===== src/Roles/Machine/Agree/Turns.antt =====
-- After a final block the nodes of a shard agree on whose turn it is to lead.
use okchain.Prelude.{
  ℕ, suc, ◌%◌, ◌≡◌, ◌≢◌, inl, inr, refl, sym, ◌∙◌, ap, subst, true, List, Option, none, some,
  some_inj, if_rule, ◌==◌, get_elem?, arith, if◌then◌else◌, Option-cases,
}
use okchain.Roles.Peers.{Peer}
use okchain.Roles.Types.{TxBlock, RoleError, insert_block}
use okchain.Roles.ViewChange.{RoleType}
use okchain.Roles.Machine.{Machine, DutyEnv, on_final_block_ready}
use okchain.Roles.Machine.Blocks.{
  Sig2, verify_final_block_multi_sign2, rounds_of, next_round, after_mining, after_final_block,
  process_final_block,
}
use okchain.Roles.Machine.Agree.Indexes.{IsNamedOnce}
use okchain.Roles.Machine.Agree.{Follows, FollowsAfter, next_round-Follows}
use okchain.Roles.Machine.Agree.Leaders.{SameLeader, after_signatures_ok}

-- The final block is signed by the committee that the node knows, and is not the last one before a
-- DS block.
pub record IsTurn (env : DutyEnv) (b : TxBlock) (sig2 : Sig2) (m : Machine) (d : ℕ) : Type 0 where
  pub signed : verify_final_block_multi_sign2 env m.server sig2 ≡ some none
  pub rounds : rounds_of m.server ≡ some (suc d)
  pub not_due : b.block_number % suc d ≢ 0

-- What the insertion of a final block leaves as it is.
pub record SameShard (m m1 : Machine) : Type 0 where
  pub rounds : rounds_of m1.server ≡ rounds_of m.server
  pub nodes : m1.server.sharding_nodes ≡ m.server.sharding_nodes

pub on_final_block_ready-SameShard :
    (env : DutyEnv) (b : TxBlock) (m : Machine) → SameShard m (on_final_block_ready env b m).1
unfolding on_final_block_ready rounds_of
on_final_block_ready-SameShard env b m =
    let kept : Machine = record m { current_final = some b } in
    if_rule (λ (r : Option RoleError × Machine). SameShard m r.1)
      (env.inserts_tx m.server.tx_current b)
      (none, record kept { server = record m.server { tx_current = b } }) (some insert_block, kept)
      (λ t. record { rounds = refl; nodes = refl }) (λ f. record { rounds = refl; nodes = refl })

-- A round that has not panicked has a leader.
pub next_round_leader :
    (env : DutyEnv) (round : ℕ) (m m' : Machine) (e : Option RoleError)
    → IsNamedOnce m.server.sharding_nodes
    → next_round env round m ≡ some (e, m')
    → (l : Peer) × (get_elem? m.server.sharding_nodes round ≡ some l) × Follows l m'
unfolding next_round
next_round_leader env round m m' e once r =
    elim (Option-cases (get_elem? m.server.sharding_nodes round)) [
      | inl g ↦ absurd (no_leader g)
      | inr (l, g) ↦ (l, g, subst (FollowsAfter l) r (next_round-Follows env round m l once g))
    ]
  where
    no_leader : get_elem? m.server.sharding_nodes round ≢ none
    no_leader g = ground arith

turn_lem :
    (env : DutyEnv) (r : RoleType) (b : TxBlock) (mined : Option ℕ) (d : ℕ) (m : Machine)
    → rounds_of m.server ≡ some (suc d)
    → b.block_number % suc d ≢ 0
    → after_final_block env r b mined m ≡ next_round env (b.block_number % suc d) m
unfolding after_final_block
turn_lem env r b mined d m e n = rw (after_final_block, e) (not_zero (b.block_number % suc d) n)
  where
    not_zero :
        (x : ℕ)
        → x ≢ 0
        → (if x == 0 then after_mining env r mined m else next_round env (b.block_number % suc d) m)
          ≡ next_round env (b.block_number % suc d) m
    not_zero x h = ground arith

pub turn_Follows :
    (env : DutyEnv) (r : RoleType) (b : TxBlock) (sig2 : Sig2) (mined : Option ℕ) (d : ℕ)
    (m m' : Machine) (e : Option RoleError)
    → IsTurn env b sig2 m d
    → IsNamedOnce m.server.sharding_nodes
    → process_final_block env r true (some (b, sig2)) mined m ≡ some (e, m')
    → (l : Peer) × (get_elem? m.server.sharding_nodes (b.block_number % suc d) ≡ some l)
      × Follows l m'
unfolding process_final_block
turn_Follows env r b sig2 mined d m m' e t once p =
    let m1 = (on_final_block_ready env b m).1 in
    let same = on_final_block_ready-SameShard env b m in
    let ran =
      sym (
        after_signatures_ok b sig2 (λ c. verify_final_block_multi_sign2 env m.server)
          (λ c. after_final_block env r c mined (on_final_block_ready env c m).1) m t.signed
        ∙ turn_lem env r b mined d m1 (same.rounds ∙ t.rounds) t.not_due)
      ∙ p in
    let (l, g, f) =
      next_round_leader env (b.block_number % suc d) m1 m' e
        (subst IsNamedOnce (sym same.nodes) once) ran in
    (
      l,
      subst (λ (nodes : List Peer). get_elem? nodes (b.block_number % suc d) ≡ some l) same.nodes g,
      f,
    )

-- Two nodes of one shard that have the same list of its nodes, with no name twice, and are done
-- with `ProcessFinalBlock` of a signed block that is not the last one before a DS block: they agree
-- on the next micro block under one leader, which is the one of them that leads, if one does,
-- whether or not the insertion into their chains succeeds.
pub process_final_block-SameLeader :
    (env : DutyEnv) (r1 r2 : RoleType) (b : TxBlock) (sig2 : Sig2) (mined1 mined2 : Option ℕ)
    (d : ℕ) (m1 m2 m1' m2' : Machine) (e1 e2 : Option RoleError)
    → IsTurn env b sig2 m1 d
    → IsTurn env b sig2 m2 d
    → m1.server.sharding_nodes ≡ m2.server.sharding_nodes
    → IsNamedOnce m1.server.sharding_nodes
    → process_final_block env r1 true (some (b, sig2)) mined1 m1 ≡ some (e1, m1')
    → process_final_block env r2 true (some (b, sig2)) mined2 m2 ≡ some (e2, m2')
    → SameLeader m1' m2'
process_final_block-SameLeader env r1 r2 b sig2 mined1 mined2 d m1 m2 m1' m2' e1 e2 t1 t2 same once
      p1 p2 =
    let (l, g, f) = turn_Follows env r1 b sig2 mined1 d m1 m1' e1 t1 once p1 in
    let (l2, g2, f2) =
      turn_Follows env r2 b sig2 mined2 d m2 m2' e2 t2 (subst IsNamedOnce same once) p2 in
    record {
      leader = l;
      first = f;
      second =
          subst (λ (q : Peer). Follows q m2')
            (some_inj (
              sym g2
              ∙ ap (λ (nodes : List Peer). get_elem? nodes (b.block_number % suc d)) (sym same)
              ∙ g))
            f2;
    }
