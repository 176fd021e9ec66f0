-- ===== src/Roles/Machine/Examples.antt =====
-- Two nodes of a shard in the network of Roles.Samples, and a node of the committee.
use okchain.Prelude.{
  ℕ, zero, suc, ◌≡◌, ◌⊎◌, inl, inr, ◌↔◌, refl, true, false, List, [], ◌∷◌, none, some, some_inj,
  get_elem?, arith, subst,
}
use okchain.Bft.Types.{ds_block_consensus, ConsensusType-discrete}
use okchain.Bft.Quorum.{tolerance_size}
use okchain.Bft.Marks.{verify_multi_sign, marked_keys, check_marked}
use okchain.Roles.Peers.{Peer, index, index_from, has_peer, sort_by_pubkey, insert_by_pubkey}
use okchain.Roles.Sharding.{
  ShardInfo, init_sharding_node_info, own_shard, shard_nodes, reset_sharding_map, fill_map,
  append_at,
}
use okchain.Roles.Types.{DsBlock, TxBlock}
use okchain.Roles.Samples.{peer, current_ds, current_tx, micro_block, server, role_env}
use okchain.Roles.ViewChange.{
  RoleType, get_new_leader, leader_when_not_view_change, micro_leader, after_block, after_round,
  same_stage,
}
use okchain.Roles.Machine.Changes.{
  handler_start_view_change, role_start_view_change, take_view_change_role, view_change_role,
  on_view_change_consensus_started, compose_vc,
}
use okchain.Roles.States.{StateType, MessageKind, is_matched, process_msg}
use okchain.Roles.States.Laws.{IsFate, process_msg-IsFate}
use okchain.Roles.Machine.{
  Machine, DutyEnv, Done, change_role, change_state, set_at, same_role, update_leader,
  on_ds_block_ready, adopt_ds_block, on_final_block_ready, on_micro_block_consensus_started,
  start_announce,
}
use okchain.Roles.Machine.Blocks.{
  Sig2, process_ds_block, process_final_block, after_signatures, verify_ds_block_multi_sign2,
  verify_final_block_multi_sign2, check_committee_sign, when_ready, take_new_role, enter_shard,
  take_place, rounds_of, after_final_block, next_round, role_at,
}
use okchain.Roles.Machine.Agree.Indexes.{IsNamedOnce}
use okchain.Roles.Machine.Agree.Leaders.{SameLeader, Accepts, Enters, process_ds_block-SameLeader}
use okchain.Roles.Machine.Agree.Turns.{IsTurn, process_final_block-SameLeader}
use okchain.Roles.Machine.Revert.{
  revert_role, revert_blocks, revert_numbers, revert_as, revert_sharding, revert_round, revert_size,
}
use okchain.Roles.Machine.Revert.Resumes.{IsShardNode, revert_role-SameLeader}
use okchain.Roles.Machine.Steps.{
  Event, handle, after_event, run, ds_block_by_role, final_block_by_role,
}
use okchain.Roles.Machine.Steps.Placed.{Placed}
use okchain.Roles.Machine.Steps.Runs.{IsSettled, run-IsSettled}

abbrev env : DutyEnv
env = record {
  roles = role_env;
  inserts_ds = λ current b. true;
  inserts_tx = λ current b. true;
  ds_block_at = λ hash number. some current_ds;
  compose_micro_block = λ m. micro_block;
  seals = λ e. true;
  coinbase_of = λ key. some key;
}

-- A node of the first shard, waiting for a block.
abbrev shard_machine : ℕ → Machine
shard_machine n = record {
  server = record server { self_node = peer n; sharding_nodes = peer 11 ∷ peer 13 ∷ [] };
  role = RoleType.sharding_backup;
  states = set_at (λ r. none) RoleType.sharding_backup StateType.waiting_dsblock;
  leaders = λ r. none;
  stage = ds_block_consensus;
  last_stage_type = ds_block_consensus;
  current_stage = ds_block_consensus;
  last_stage = ds_block_consensus;
  current_ds = none;
  current_final = none;
  current_micro = none;
  current_vc = none;
  idle_pow_flag = false;
  registered = true;
  effects = [];
}

-- Three of the four members sign.
abbrev three_sign : Sig2
three_sign = record { bool_map = true ∷ true ∷ true ∷ false ∷ []; signature = 1206; signed = 7 }

abbrev next_ds : DsBlock
next_ds = record current_ds { block_number = 4 }

abbrev result : Machine → Done → Machine
result m none = m
result m (some (e, m')) = m'

abbrev after_ds : ℕ → Machine
after_ds n =
    result (shard_machine n)
      (process_ds_block env true (some (next_ds, three_sign)) (shard_machine n))

abbrev first_shard : ShardInfo
first_shard = record { sharding_id = 0; sharding_nodes = peer 11 ∷ peer 13 ∷ [] }

accepts : (n : ℕ) → Accepts env next_ds three_sign (shard_machine n)
unfolding verify_ds_block_multi_sign2 check_committee_sign verify_multi_sign marked_keys
    check_marked tolerance_size sort_by_pubkey insert_by_pubkey reset_sharding_map fill_map
    append_at
accepts n = record {
  signed = refl;
  newer = omega arith;
  inserted = refl;
  dealt = _;
  divided = refl;
}

after_ds_lem :
    (n : ℕ)
    → (n ≡ 11) ⊎ (n ≡ 13)
    → process_ds_block env true (some (next_ds, three_sign)) (shard_machine n)
      ≡ some (none, after_ds n)
unfolding process_ds_block after_signatures verify_ds_block_multi_sign2 check_committee_sign
    verify_multi_sign marked_keys check_marked tolerance_size sort_by_pubkey insert_by_pubkey
    when_ready on_ds_block_ready reset_sharding_map fill_map append_at adopt_ds_block take_new_role
    enter_shard init_sharding_node_info own_shard shard_nodes index index_from take_place
    on_micro_block_consensus_started start_announce
after_ds_lem n (inl e) = rw e refl
after_ds_lem n (inr e) = rw e refl

first-Enters : Enters env next_ds (shard_machine 11) first_shard
unfolding init_sharding_node_info own_shard shard_nodes sort_by_pubkey insert_by_pubkey index
    index_from
first-Enters = record { not_winner = λ e. cc; shard = refl; place = 0; placed = refl }

second-Enters : Enters env next_ds (shard_machine 13) first_shard
unfolding init_sharding_node_info own_shard shard_nodes sort_by_pubkey insert_by_pubkey index
    index_from
second-Enters = record { not_winner = λ e. cc; shard = refl; place = 1; placed = refl }

process_ds_block-SameLeader_example : SameLeader (after_ds 11) (after_ds 13)
process_ds_block-SameLeader_example =
    process_ds_block-SameLeader env next_ds three_sign (shard_machine 11) (shard_machine 13)
      (after_ds 11) (after_ds 13) first_shard first_shard none none (accepts 11) (accepts 13)
      first-Enters second-Enters refl refl (after_ds_lem 11 (inl refl)) (after_ds_lem 13 (inr refl))

abbrev next_tx : TxBlock
next_tx = record current_tx { block_number = 5 }

abbrev after_tx : ℕ → Machine
after_tx n = result (shard_machine n) (
    process_final_block env RoleType.sharding_backup true (some (next_tx, three_sign)) none
      (shard_machine n))

is_turn : (n : ℕ) → IsTurn env next_tx three_sign (shard_machine n) 1
unfolding verify_final_block_multi_sign2 check_committee_sign verify_multi_sign marked_keys
    check_marked tolerance_size sort_by_pubkey insert_by_pubkey rounds_of
is_turn n = record { signed = refl; rounds = refl; not_due = omega arith }

after_tx_lem :
    (n : ℕ)
    → (n ≡ 11) ⊎ (n ≡ 13)
    → process_final_block env RoleType.sharding_backup true
        (some (next_tx, three_sign))
        none
        (shard_machine n)
      ≡ some (none, after_tx n)
unfolding process_final_block after_signatures verify_final_block_multi_sign2 check_committee_sign
    verify_multi_sign marked_keys check_marked tolerance_size sort_by_pubkey insert_by_pubkey
    on_final_block_ready after_final_block rounds_of next_round role_at index index_from
    on_micro_block_consensus_started start_announce
after_tx_lem n (inl e) = rw e refl
after_tx_lem n (inr e) = rw e refl

named_once : IsNamedOnce (peer 11 ∷ peer 13 ∷ [])
unfolding IsNamedOnce
named_once zero zero p q g h e = refl
named_once (suc zero) (suc zero) p q g h e = refl
named_once zero (suc zero) p q g h e = absurd (ground (arith, some_inj g, some_inj h))
named_once (suc zero) zero p q g h e = absurd (ground (arith, some_inj g, some_inj h))
named_once (suc (suc i)) j p q g h e = absurd cc
named_once i (suc (suc j)) p q g h e = absurd cc

process_final_block-SameLeader_example : SameLeader (after_tx 11) (after_tx 13)
process_final_block-SameLeader_example =
    process_final_block-SameLeader env RoleType.sharding_backup RoleType.sharding_backup next_tx
      three_sign none none 1 (shard_machine 11) (shard_machine 13) (after_tx 11) (after_tx 13) none
      none (is_turn 11) (is_turn 13) refl named_once (after_tx_lem 11 (inl refl))
      (after_tx_lem 13 (inr refl))

-- The first node of the shard, started again after the final block.
abbrev restarted : Machine
restarted = record (shard_machine 11) {
  server = record (shard_machine 11).server { tx_current = next_tx };
}

abbrev after_revert : Machine
after_revert = result restarted (revert_role env false true restarted)

is_shard_node : IsShardNode env restarted first_shard
unfolding reset_sharding_map fill_map append_at revert_size has_peer init_sharding_node_info
    own_shard shard_nodes sort_by_pubkey insert_by_pubkey
is_shard_node = record {
  dealt = _;
  divided = refl;
  not_lookup = λ e. ground arith;
  before_last = omega arith;
  not_winner = λ e. omega (arith, e);
  outside = refl;
  member = refl;
  shard = refl;
}

restarted_rounds : rounds_of restarted.server ≡ some 2
unfolding rounds_of
restarted_rounds = refl

one_key :
    (i : ℕ) (p : Peer)
    → get_elem? first_shard.sharding_nodes i ≡ some p
    → (p.pubkey ≡ 11) ↔ (p.name ≡ 11)
one_key zero p g = (λ e. ground (arith, some_inj g), λ e. ground (arith, some_inj g))
one_key (suc zero) p g = (λ e. ground (arith, some_inj g), λ e. ground (arith, some_inj g))
one_key (suc (suc i)) p g = absurd cc

after_revert_lem : revert_role env false true restarted ≡ some (none, after_revert)
unfolding revert_role revert_blocks reset_sharding_map fill_map append_at adopt_ds_block
    revert_numbers revert_as revert_size revert_sharding revert_round has_peer enter_shard
    init_sharding_node_info own_shard shard_nodes sort_by_pubkey insert_by_pubkey change_role
    update_leader on_micro_block_consensus_started start_announce
after_revert_lem = refl

revert_role-SameLeader_example : SameLeader after_revert (after_tx 13)
revert_role-SameLeader_example =
    revert_role-SameLeader env false true RoleType.sharding_backup next_tx three_sign none 1
      restarted (shard_machine 13) after_revert (after_tx 13) first_shard none none is_shard_node
      restarted_rounds refl one_key (is_turn 13) refl named_once after_revert_lem
      (after_tx_lem 13 (inr refl))

abbrev events : List Event
events =
    Event.ds_block_arrives true (some (next_ds, three_sign)) none
    ∷ Event.final_block_arrives true (some (next_tx, three_sign)) none 0 none
    ∷ Event.view_change_due
    ∷ []

abbrev run_result : Machine
run_result = elim (run env events (shard_machine 11)) [ none ↦ shard_machine 11 | some m ↦ m ]

shard_machine-Placed : Placed (shard_machine 11)
unfolding set_at same_role is_matched
shard_machine-Placed = record { matched = λ r s e. only r s e; current = λ e. ground arith }
  where
    only :
        (r : RoleType) (s : StateType)
        → (shard_machine 11).states r ≡ some s
        → is_matched r s ≡ true
    only RoleType.sharding_backup s e =
        subst (λ t. is_matched RoleType.sharding_backup t ≡ true) (some_inj e) refl
    only _ s e = absurd cc

run_lem : run env events (shard_machine 11) ≡ some run_result
unfolding run handle after_event ds_block_by_role final_block_by_role process_ds_block
    after_signatures verify_ds_block_multi_sign2 check_committee_sign verify_multi_sign marked_keys
    check_marked tolerance_size sort_by_pubkey insert_by_pubkey when_ready on_ds_block_ready
    reset_sharding_map fill_map append_at adopt_ds_block take_new_role enter_shard
    init_sharding_node_info own_shard shard_nodes index index_from take_place change_role
    update_leader process_final_block verify_final_block_multi_sign2 on_final_block_ready
    after_final_block rounds_of next_round role_at on_micro_block_consensus_started start_announce
    change_state handler_start_view_change role_start_view_change take_view_change_role
    view_change_role on_view_change_consensus_started compose_vc get_new_leader
    leader_when_not_view_change micro_leader after_block after_round same_stage same_role
    ConsensusType-discrete
run_lem = refl

run-IsSettled_example : IsSettled run_result
run-IsSettled_example =
    run-IsSettled env events (shard_machine 11) run_result shard_machine-Placed run_lem

process_msg-IsFate_example :
    IsFate RoleType.ds_backup StateType.viewchange_consensus MessageKind.node_process_ds_block (
      process_msg 1 RoleType.ds_backup StateType.viewchange_consensus
        MessageKind.node_process_ds_block)
unfolding is_matched
process_msg-IsFate_example =
    process_msg-IsFate 0 RoleType.ds_backup StateType.viewchange_consensus
      MessageKind.node_process_ds_block refl
