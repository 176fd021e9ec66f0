-- ===== src/Roles/Machine/Blocks.antt =====
-- What a node outside the committee does with a finished block: `ProcessDSBlock` and
-- `ProcessFinalBlock` of role_sharding_base.go, role_idle.go and role_lookup.go in
-- core/server/role, with the checks of the second signature of core/server/peer.go. An outer
-- `none` is a panic.
use okchain.Prelude.{
  ℕ, zero, suc, ◌+◌, ◌-◌, ◌/◌, ◌%◌, Bool, true, false, not, List, [], ◌∷◌, Option, none, some, ltb,
  ◌==◌, if◌then◌else◌, length, get_elem?, map, u64, max_uint64,
}
use okchain.Bft.Types.{Bytes, Error, deserialize_failed}
use okchain.Bft.Quorum.{tolerance_size}
use okchain.Bft.Marks.{verify_multi_sign}
use okchain.Roles.Peers.{Peer, index, sort_by_pubkey}
use okchain.Roles.Sharding.{init_sharding_node_info}
use okchain.Roles.Types.{
  DsBlock, TxBlock, Server, verify_message, unmarshal_message, mine_failed, sign_message,
}
use okchain.Roles.ViewChange.{RoleType, idle, sharding_lead, sharding_backup, ds_lead}
use okchain.Roles.States.{
  wait4_microblock_submission, microblock_consensus, waiting_dsblock, state_idle,
}
use okchain.Roles.Machine.{
  Machine, DutyEnv, Done, submit_pow, change_state, change_role, emit, with_sharding_nodes,
  on_ds_block_ready, on_final_block_ready, on_micro_block_consensus_started,
}

-- `BoolMapSignature`, with the signature in the block's header, which it signs.
pub record Sig2 : Type 0 where
  pub bool_map : List Bool
  pub signature : Bytes
  pub signed : Bytes

-- The test of the second signature against a committee.
unfoldable pub check_committee_sign : DutyEnv → List Peer → Sig2 → Option (Option Error)
check_committee_sign env committee sig2 =
    let bls = env.roles.bls in
    let sorted = sort_by_pubkey bls.sort_key committee in
    let (sign, read) = bls.read_sig (some sig2.signature) in
    let checked =
      verify_multi_sign bls sig2.bool_map (map (λ (p : Peer). p.pubkey) sorted) sign sig2.signed
        (tolerance_size (length sorted)) in
    if read then checked else some (some deserialize_failed)

-- `VerifyDSBlockMultiSign2`; the first two blocks are not signed.
unfoldable pub verify_ds_block_multi_sign2 : DutyEnv → DsBlock → Sig2 → Option (Option Error)
verify_ds_block_multi_sign2 env b sig2 =
    let checked : Option (Option Error) =
      elim (env.ds_block_at b.previous_block_hash (b.block_number - 1)) [
        | none ↦ none
        | some parent ↦ check_committee_sign env parent.committee sig2
      ] in
    if ltb 1 b.block_number then checked else some none

-- `VerifyFinalBlockMultiSign2`
unfoldable pub verify_final_block_multi_sign2 : DutyEnv → Server → Sig2 → Option (Option Error)
verify_final_block_multi_sign2 env s sig2 = check_committee_sign env s.ds_current.committee sig2

-- What stands before the block in both handlers: `genuine` is `MessageVerify`, `payload` the block
-- and its signature where they can be read. A bad second signature is no error.
unfoldable pub after_signatures :
    {B : Type 0}
    → Bool
    → Option (B × Sig2)
    → (B → Sig2 → Option (Option Error))
    → (B → Done)
    → Machine
    → Done
after_signatures false payload verify next m = some (some verify_message, m)
after_signatures true none verify next m = some (some unmarshal_message, m)
after_signatures true (some (b, sig2)) verify next m = elim (verify b sig2) [
  | none ↦ none
  | some (some e) ↦ some (none, m)
  | some none ↦ next b
]

-- The role that a node takes by its place in its shard: the handler's last branch.
unfoldable pub take_place : DutyEnv → Option ℕ → List Peer → Machine → Done
take_place env none nodes m = some (none, change_role idle state_idle m)
take_place env (some i) [] m = none
take_place env (some zero) (p ∷ ps) m =
    on_micro_block_consensus_started env sharding_lead p
      (change_role sharding_lead microblock_consensus m)
take_place env (some (suc i)) (p ∷ ps) m =
    on_micro_block_consensus_started env sharding_backup p
      (change_role sharding_backup microblock_consensus m)

-- `initShardingNodeInfo`, of the node's list of its shard.
unfoldable pub enter_shard : DutyEnv → DsBlock → Machine → Option Machine
enter_shard env b m =
    elim (init_sharding_node_info env.roles.bls.sort_key m.server.sharding_size b.sharding_nodes
      m.server.self_node.pubkey) [
        | none ↦ none
        | some info ↦ some (with_sharding_nodes info.sharding_nodes m)
      ]

-- `ProcessDSBlock` of the sharding roles once the block is in the chain.
unfoldable pub take_new_role : DutyEnv → DsBlock → Machine → Done
take_new_role env b m =
    let placed : Done = elim (enter_shard env b m) [
      | none ↦ none
      | some m1 ↦
          take_place env (index m1.server.sharding_nodes m1.server.self_node)
            m1.server.sharding_nodes m1
    ] in
    if b.winner_pub_key == m.server.self_node.pubkey
    then some (none, change_role ds_lead wait4_microblock_submission m)
    else placed

-- A handler that goes on where `onDsBlockReady` gave no error.
unfoldable pub when_ready : Done → (Machine → Done) → Done
when_ready none next = none
when_ready (some (some e, m)) next = some (some e, m)
when_ready (some (none, m)) next = next m

-- `ProcessDSBlock` of `RoleShardingBase`.
unfoldable pub process_ds_block : DutyEnv → Bool → Option (DsBlock × Sig2) → Machine → Done
process_ds_block env genuine payload m =
    after_signatures genuine payload (verify_ds_block_multi_sign2 env)
      (λ b. when_ready (on_ds_block_ready env b m) (take_new_role env b)) m

-- `ProcessDSBlock` of `RoleLookup`.
unfoldable pub process_ds_block_lookup : DutyEnv → Bool → Option (DsBlock × Sig2) → Machine → Done
process_ds_block_lookup env genuine payload m =
    after_signatures genuine payload (verify_ds_block_multi_sign2 env)
      (λ b. on_ds_block_ready env b m) m

-- The branches of `RoleIdle.ProcessDSBlock` by the place in the shard: without one the role stays.
unfoldable pub take_place_idle : DutyEnv → Option ℕ → List Peer → Machine → Done
take_place_idle env none nodes m = some (none, record m { idle_pow_flag = false })
take_place_idle env (some i) nodes m = take_place env (some i) nodes m

unfoldable pub take_new_role_idle : DutyEnv → DsBlock → Machine → Done
take_new_role_idle env b m =
    let placed : Done = elim (enter_shard env b m) [
      | none ↦ none
      | some m1 ↦
          take_place_idle env (index m1.server.sharding_nodes m1.server.self_node)
            m1.server.sharding_nodes m1
    ] in
    if not m.idle_pow_flag
    then some (none, m)
    else if b.winner_pub_key == m.server.self_node.pubkey
    then some (none, change_role ds_lead wait4_microblock_submission m)
    else placed

-- `ProcessDSBlock` of `RoleIdle`: neither signature is checked.
unfoldable pub process_ds_block_idle : DutyEnv → Option DsBlock → Machine → Done
process_ds_block_idle env none m = some (some unmarshal_message, m)
process_ds_block_idle env (some b) m =
    when_ready (on_ds_block_ready env b m) (take_new_role_idle env b)

-- What the number of a final block is divided by: the sharding size, or the number of all the nodes
-- where they fill no shard. `none` is the panic of a division by zero.
unfoldable pub rounds_of : Server → Option ℕ
rounds_of s = elim s.sharding_size [
  | zero ↦ none
  | suc k ↦
      let nodes_num = length s.ds_current.sharding_nodes in
      if nodes_num / suc k == 0
      then (if nodes_num == 0 then none else some nodes_num)
      else some (suc k)
]

-- The end of the mining for the next DS block. `mined` is `none` where the miner fails, else the
-- number of the current DS block when it is done.
unfoldable pub after_mining : DutyEnv → RoleType → Option ℕ → Machine → Done
after_mining env r none m = some (some mine_failed, m)
after_mining env r (some number) m =
    let pow = submit_pow m.server.committee in
    if not (m.server.ds_current.block_number == number)
    then some (none, m)
    else if env.seals pow
    then some (none, change_state r waiting_dsblock (emit pow m))
    else some (some sign_message, m)

-- The role for the round of this number: the place in the shard decides.
unfoldable pub role_at : Option ℕ → ℕ → RoleType
role_at none round = sharding_backup
role_at (some i) round = if i == round then sharding_lead else sharding_backup

-- The next round of micro blocks; a shard that is too short panics.
unfoldable pub next_round : DutyEnv → ℕ → Machine → Done
next_round env round m =
    let r = role_at (index m.server.sharding_nodes m.server.self_node) round in
    elim (get_elem? m.server.sharding_nodes round) [
      | none ↦ none
      | some p ↦ on_micro_block_consensus_started env r p (change_role r microblock_consensus m)
    ]

-- `ProcessFinalBlock` of the sharding roles once the block is in the chain or has failed to be.
unfoldable pub after_final_block : DutyEnv → RoleType → TxBlock → Option ℕ → Machine → Done
after_final_block env r b mined m = elim (rounds_of m.server) [
  | none ↦ none
  | some zero ↦ none
  | some (suc d) ↦
      if b.block_number % suc d == 0
      then after_mining env r mined m
      else next_round env (b.block_number % suc d) m
]

-- `ProcessFinalBlock` of `RoleShardingBase`, called on the role `r`: the error of
-- `onFinalBlockReady` is dropped.
unfoldable pub process_final_block :
    DutyEnv → RoleType → Bool → Option (TxBlock × Sig2) → Option ℕ → Machine → Done
process_final_block env r genuine payload mined m =
    after_signatures genuine payload (λ b. verify_final_block_multi_sign2 env m.server)
      (λ b. after_final_block env r b mined (on_final_block_ready env b m).1) m

-- `ProcessFinalBlock` of `RoleLookup`.
unfoldable pub process_final_block_lookup :
    DutyEnv → Bool → Option (TxBlock × Sig2) → Machine → Done
process_final_block_lookup env genuine payload m =
    after_signatures genuine payload (λ b. verify_final_block_multi_sign2 env m.server)
      (λ b. some (on_final_block_ready env b m)) m

-- `RoleIdle.ProcessFinalBlock` in its last branch: it submits to the committee of the block.
unfoldable pub after_mining_idle : DutyEnv → Option ℕ → Machine → Done
after_mining_idle env none m = some (some mine_failed, m)
after_mining_idle env (some number) m =
    let pow = submit_pow m.server.ds_current.committee in
    if not (m.server.ds_current.block_number == number)
    then some (none, m)
    else if env.seals pow
    then some (none, record (emit pow m) { idle_pow_flag = true })
    else some (some sign_message, m)

-- The test for a new DS block, which an idle node makes without a division by zero.
unfoldable pub divides : ℕ → ℕ → Bool
divides zero n = false
divides (suc d) n = n % suc d == 0

unfoldable pub is_pow_round : Server → ℕ → Option Bool
is_pow_round s number = elim s.sharding_size [
  | zero ↦ none
  | suc k ↦
      let nodes_num = length s.ds_current.sharding_nodes in
      some (divides (if nodes_num / suc k == 0 then nodes_num else suc k) number)
]

-- `RoleIdle.ProcessFinalBlock` after the insertion; `max_height` is `MaxAvailableLedgerHeight`.
unfoldable pub after_final_block_idle : DutyEnv → TxBlock → ℕ → Option ℕ → Machine → Done
after_final_block_idle env b max_height mined m =
    let starts : Done = elim (is_pow_round m.server b.block_number) [
      | none ↦ none
      | some true ↦ after_mining_idle env mined m
      | some false ↦ some (none, m)
    ] in
    if ltb m.server.tx_current.block_number (u64 (max_height + max_uint64))
    then some (none, m)
    else starts

-- `ProcessFinalBlock` of `RoleIdle`: neither signature is checked.
unfoldable pub process_final_block_idle : DutyEnv → Option TxBlock → ℕ → Option ℕ → Machine → Done
process_final_block_idle env none max_height mined m = some (some unmarshal_message, m)
process_final_block_idle env (some b) max_height mined m =
    after_final_block_idle env b max_height mined (on_final_block_ready env b m).1
