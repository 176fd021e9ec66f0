-- ===== src/Rewards/Process/Laws.antt =====
-- What the loop of `Process` (core/state_processor.go) keeps in balance.
use native.Mathlib.Nat.{mul-le-mul_left}
use okchain.Prelude.{
  ◌≢◌, ◌⊎◌, length, ℕ, ◌+◌, ◌*◌, ◌≤◌, ◌<◌, ◌≡◌, refl, List, [], ◌∷◌, ◌++◌, Option, none, some, u64,
  arith, max_uint64, Option-cases, inl, inr,
}
use okchain.Prelude.Result.{Result, ok, err}
use okchain.Gas.Errors.{Error}
use okchain.Gas.Transition.{StateDb, StateTransition, Outcome, apply_message}
use okchain.Gas.Transition.PoolPays.{PoolPays, apply_message-PoolPays}
use okchain.Gas.Transition.{run_evm}
use okchain.Gas.Transition.Steps.{paid}
use okchain.Gas.Transition.Pays.{apply_message-Pays}
use okchain.Rewards.Assign.{yield_reward, ShardReward, Header, assign_rwards}
use okchain.Rewards.Assign.Credits.{sum_fees, HasLeads}
use okchain.Rewards.Assign.Laws.{Rewarded, assign_rwards-Rewarded}
use okchain.Rewards.Process.{
  Transaction, as_msg, Receipt, Totals, Env, add_fee, record_fee, check_outcome, process_tx,
  process_all, block_gas, process_start, process_end, process,
}

abbrev pub sum_receipts : List Receipt → ℕ
sum_receipts [] = 0
sum_receipts (r ∷ rs) = r.gas_used + sum_receipts rs

-- The gas taken from the pool is the gas of the receipts, and the fees are split among shards
-- with nothing lost.
pub record IsBalanced (t : Totals) : Type 0 where
  pub pool : t.gp + t.used_gas ≡ block_gas
  pub receipts : sum_receipts t.receipts ≡ t.used_gas
  pub fees : sum_fees t.fees ≡ t.fee_total

-- After a run that panics only where `Panics` holds.
abbrev pub EndsBalanced : Type 0 → Option (Result Error Totals) → Type 0
EndsBalanced Panics none = Panics
EndsBalanced Panics (some (err e)) = Unit
EndsBalanced Panics (some (ok t)) = IsBalanced t

-- `GetShardId` panics for one of the transactions.
abbrev pub NoShard : Env → Header → List Transaction → Type 0
NoShard env header [] = ⊥
NoShard env header (tx ∷ txs) =
    (env.get_shard_id tx header.ds_block_num ≡ none) ⊎ NoShard env header txs

sum_fees-add_fee :
    (xs : List ShardReward) (shard fee : ℕ) → sum_fees (add_fee xs shard fee) ≡ sum_fees xs + fee
unfolding add_fee
sum_fees-add_fee [] shard fee = omega arith
sum_fees-add_fee (x ∷ xs) shard fee = ground (arith, sum_fees-add_fee xs shard fee)

sum_receipts-append :
    (xs ys : List Receipt) → sum_receipts (xs ++ ys) ≡ sum_receipts xs + sum_receipts ys
sum_receipts-append [] ys = omega arith
sum_receipts-append (x ∷ xs) ys = omega (arith, sum_receipts-append xs ys)

record_fee-IsBalanced :
    (env : Env) (tx : Transaction) (shard : ℕ) (t : Totals) (o : Outcome) (st : StateTransition)
    → IsBalanced t
    → st.gp + o.used_gas ≡ t.gp
    → IsBalanced (record_fee env tx shard t o st)
unfolding record_fee
record_fee-IsBalanced env tx shard t o st b e =
    let fee = u64 (o.used_gas * tx.gas_price) in
    let last : Receipt = record {
      failed = o.failed;
      cumulative_gas_used = u64 (t.used_gas + o.used_gas);
      gas_used = o.used_gas;
    } in
    omega (arith, sum_fees-add_fee t.fees shard fee, sum_receipts-append t.receipts (last ∷ []))

check_outcome-EndsBalanced :
    (env : Env) (header : Header) (tx : Transaction) (t : Totals)
    (r : Option (Outcome × StateTransition))
    → IsBalanced t
    → PoolPays (as_msg tx) t.gp r
    → EndsBalanced
        (env.get_shard_id tx header.ds_block_num ≡ none)
        (check_outcome env header tx t r)
unfolding check_outcome
check_outcome-EndsBalanced env header tx t none b p = absurd p
check_outcome-EndsBalanced env header tx t (some (o, st)) b p = elim (Option-cases o.error) [
  | inl e ↦
      let paid_for = (rw e at p).0 in
      elim (Option-cases (env.get_shard_id tx header.ds_block_num)) [
        | inl g ↦ rw (e, g) refl
        | inr (shard, g) ↦ rw (e, g) (record_fee-IsBalanced env tx shard t o st b paid_for)
      ]
  | inr (x, e) ↦ rw e tt
]

process_tx-EndsBalanced :
    (env : Env) (header : Header) (t : Totals) (tx : Transaction)
    → IsBalanced t
    → EndsBalanced (env.get_shard_id tx header.ds_block_num ≡ none) (process_tx env header t tx)
unfolding process_tx
process_tx-EndsBalanced env header t tx b =
    check_outcome-EndsBalanced env header tx t _ b
      (apply_message-PoolPays (env.evm tx) t.state (as_msg tx) t.gp (omega (arith, b.pool)))

process_all-EndsBalanced :
    (env : Env) (header : Header) (t : Totals) (txs : List Transaction)
    → IsBalanced t
    → EndsBalanced (NoShard env header txs) (process_all env header t txs)
unfolding process_all
process_all-EndsBalanced env header t [] b = b
process_all-EndsBalanced env header t (tx ∷ txs) b =
    go (process_tx env header t tx) (process_tx-EndsBalanced env header t tx b)
      (λ t'. process_all-EndsBalanced env header t' txs)
  where
    go :
        (r : Option (Result Error Totals))
        → EndsBalanced (env.get_shard_id tx header.ds_block_num ≡ none) r
        → ((t' : Totals)
            → IsBalanced t'
            → EndsBalanced (NoShard env header txs) (process_all env header t' txs))
        → EndsBalanced (NoShard env header (tx ∷ txs)) (elim r [
          | none ↦ none
          | some q ↦ elim q [ err e ↦ some (err e) | ok t' ↦ process_all env header t' txs ]
        ])
    go none h rest = inl h
    go (some (err e)) h rest = tt
    go (some (ok t')) h rest = later (process_all env header t' txs) (rest t' h)
      where
        later :
            (q : Option (Result Error Totals))
            → EndsBalanced (NoShard env header txs) q
            → EndsBalanced (NoShard env header (tx ∷ txs)) q
        later none h' = inr h'
        later (some (err e)) h' = tt
        later (some (ok u)) h' = h'

pub process_all-IsBalanced :
    (env : Env) (header : Header) (s : StateDb) (txs : List Transaction)
    → EndsBalanced (NoShard env header txs) (process_all env header (process_start s) txs)
unfolding process_start
process_all-IsBalanced env header s txs =
    process_all-EndsBalanced env header (process_start s) txs (omega arith)

-- The end of a block whose loop ended at `t`: the state then owes credits for `total` more.
abbrev pub EndsRewarded : Totals → ℕ → Option (Result Error Totals) → Type 0
EndsRewarded t total none = ⊥
EndsRewarded t total (some (err e)) = ⊥
EndsRewarded t total (some (ok u)) =
    Rewarded t.state total (some u.state) × (u.used_gas ≡ t.used_gas) × (u.receipts ≡ t.receipts)

process_end-EndsRewarded :
    (header : Header) (t : Totals) (total : ℕ)
    → Rewarded t.state total (assign_rwards header t.state t.fee_total t.fees)
    → EndsRewarded t total (process_end header (some (ok t)))
unfolding process_end
process_end-EndsRewarded header t total h =
    elim (Option-cases (assign_rwards header t.state t.fee_total t.fees)) [
      | inl e ↦ absurd (rw e at h)
      | inr (u, e) ↦ rw (e, EndsRewarded, process_end) (rw e at h, refl, refl)
    ]

-- A block whose loop ends without an error, with a committee, a leader's address for each shard
-- that has fees, and fees that are positive or from at most one shard, is completed without a
-- panic: `Process` returns the gas and the receipts of the loop, and has added to the balances
-- exactly the fee total and the block's yield.
pub process-EndsRewarded :
    (env : Env) (header : Header) (s : StateDb) (txs : List Transaction) (t : Totals)
    → process_all env header (process_start s) txs ≡ some (ok t)
    → header.ds_coin_base ≢ []
    → HasLeads header.sharding_lead_coin_base t.fees
    → (0 < t.fee_total) ⊎ (length t.fees ≤ 1)
    → EndsRewarded t (t.fee_total + yield_reward header.block_number) (process env header s txs)
unfolding process
process-EndsRewarded env header s txs t e ne h pos =
    let balanced : IsBalanced t = rw e at (process_all-IsBalanced env header s txs) in
    rw e (
      process_end-EndsRewarded header t (t.fee_total + yield_reward header.block_number)
        (assign_rwards-Rewarded header t.state t.fee_total t.fees ne h balanced.fees pos))

-- `AsMsg` fixes the price at 1, and the fee is counted at the transaction's own price: the sender
-- of a transaction with a higher price, whose fee fits a uint64, keeps more than the fee leaves
-- room for. What it holds, what the virtual machine took and the fees together have grown.
pub record_fee_exceeds_payment :
    (env : Env) (tx : Transaction) (shard : ℕ) (t : Totals) (spent : ℕ) (o : Outcome)
    (st : StateTransition)
    → t.gp ≤ max_uint64
    → (run_evm (env.evm tx) (paid t.state (as_msg tx) t.gp)).state.balance tx.sender + spent
      ≡ (paid t.state (as_msg tx) t.gp).state.balance tx.sender
    → apply_message (env.evm tx) t.state (as_msg tx) t.gp ≡ some (o, st)
    → o.error ≡ none
    → 0 < o.used_gas
    → 1 < tx.gas_price
    → o.used_gas * tx.gas_price ≤ max_uint64
    → t.state.balance tx.sender + t.fee_total
      < st.state.balance tx.sender + spent + (record_fee env tx shard t o st).fee_total
unfolding record_fee as_msg
record_fee_exceeds_payment env tx shard t spent o st h sp e ok_ used price fits =
    let (pays, _) = apply_message-Pays (env.evm tx) t.state (as_msg tx) t.gp spent h sp e ok_ in
    let gap : o.used_gas * 2 ≤ o.used_gas * tx.gas_price =
      mul-le-mul_left o.used_gas (omega arith) in
    omega arith
