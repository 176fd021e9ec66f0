-- ===== src/Rewards/Process.antt =====
-- `ApplyTransaction` and `Process` of core/state_processor.go, and `AsMsg` of
-- protos/transaction.go.
pub mod Laws
use okchain.Prelude.{
  ℕ, ◌+◌, ◌*◌, List, [], ◌∷◌, ◌++◌, Option, none, some, Bool, true, ◌==◌, if◌then◌else◌, u64,
}
use okchain.Prelude.Result.{Result, ok, err}
use okchain.Gas.Errors.{Error}
use okchain.Gas.Pool.{add_gas}
use okchain.Gas.Transition.{StateDb, Message, Evm, StateTransition, Outcome, apply_message}
use okchain.Rewards.Assign.{ShardReward, Header, assign_rwards}

-- The fields of `protos.Transaction` that are read. `sender` is the address of the sender's key.
pub record Transaction : Type 0 where
  pub sender : ℕ
  pub to_addr : Option ℕ
  pub nonce : ℕ
  pub gas_price : ℕ
  pub gas_limit : ℕ
  pub amount : ℕ
  pub payload : List ℕ

-- `AsMsg`: the gas limit and the gas price of the message are constants.
unfoldable pub as_msg : Transaction → Message
as_msg tx = record {
  from = tx.sender;
  to = tx.to_addr;
  gas_price = 1;
  gas = 10000000;
  value = tx.amount;
  nonce = tx.nonce;
  check_nonce = true;
  payload = tx.payload;
}

pub record Receipt : Type 0 where
  pub failed : Bool
  pub cumulative_gas_used : ℕ
  pub gas_used : ℕ

-- The variables of `Process`'s loop; `fees` is the map `gasFeeUsedShards`.
pub record Totals : Type 0 where
  pub gp : ℕ
  pub state : StateDb
  pub used_gas : ℕ
  pub fee_total : ℕ
  pub fees : List ShardReward
  pub receipts : List Receipt

-- The virtual machine set up for a transaction, `statedb.Finalise` and the peer's `GetShardId`, which
-- panics (`none`) where the chain has no DS block of the number.
pub record Env : Type 0 where
  pub evm : Transaction → Evm
  pub finalise : StateDb → StateDb
  pub get_shard_id : Transaction → ℕ → Option ℕ

-- `gasFeeUsedShards[shardId].Add(…)`
unfoldable pub add_fee : List ShardReward → ℕ → ℕ → List ShardReward
add_fee [] shard fee = record { shard_id = shard; gas_fee = fee } ∷ []
add_fee (x ∷ xs) shard fee =
    if x.shard_id == shard
    then record x { gas_fee = x.gas_fee + fee } ∷ xs
    else x ∷ add_fee xs shard fee

-- The part of the loop's body after a transaction of this shard went through. Its fee is a product
-- on uint64.
unfoldable pub record_fee : Env → Transaction → ℕ → Totals → Outcome → StateTransition → Totals
record_fee env tx shard t o st =
    let used = u64 (t.used_gas + o.used_gas) in
    let fee = u64 (o.used_gas * tx.gas_price) in
    record {
      gp = st.gp;
      state = env.finalise st.state;
      used_gas = used;
      fee_total = t.fee_total + fee;
      fees = add_fee t.fees shard fee;
      receipts =
          t.receipts
          ++ record { failed = o.failed; cumulative_gas_used = used; gas_used = o.used_gas } ∷ [];
    }

-- The test of `err` after `ApplyTransaction`. `none` is a panic.
unfoldable pub check_outcome :
    Env
    → Header
    → Transaction
    → Totals
    → Option (Outcome × StateTransition)
    → Option (Result Error Totals)
check_outcome env header tx t none = none
check_outcome env header tx t (some (o, st)) = elim o.error [
  | some e ↦ some (err e)
  | none ↦ elim (env.get_shard_id tx header.ds_block_num) [
    | none ↦ none
    | some shard ↦ some (ok (record_fee env tx shard t o st))
  ]
]

-- One round of the loop.
unfoldable pub process_tx : Env → Header → Totals → Transaction → Option (Result Error Totals)
process_tx env header t tx =
    check_outcome env header tx t (apply_message (env.evm tx) t.state (as_msg tx) t.gp)

unfoldable pub process_all : Env → Header → Totals → List Transaction → Option (Result Error Totals)
process_all env header t [] = some (ok t)
process_all env header t (tx ∷ txs) = elim (process_tx env header t tx) [
  | none ↦ none
  | some r ↦ elim r [ err e ↦ some (err e) | ok t' ↦ process_all env header t' txs ]
]

abbrev pub block_gas : ℕ
block_gas = 10000000000000000

unfoldable pub process_start : StateDb → Totals
process_start s = record {
  gp = block_gas;
  state = s;
  used_gas = 0;
  fee_total = 0;
  fees = [];
  receipts = [];
}

-- The end of `Process`.
unfoldable pub process_end : Header → Option (Result Error Totals) → Option (Result Error Totals)
process_end header none = none
process_end header (some (err e)) = some (err e)
process_end header (some (ok t)) = elim (assign_rwards header t.state t.fee_total t.fees) [
  | none ↦ none
  | some s ↦ some (ok (record t { state = s }))
]

unfoldable pub process : Env → Header → StateDb → List Transaction → Option (Result Error Totals)
process env header s txs = process_end header (process_all env header (process_start s) txs)
