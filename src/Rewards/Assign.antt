-- ===== src/Rewards/Assign.antt =====
-- `sortByGasFee` and `assignRwards` of core/state_processor.go.
pub mod Credits
pub mod Laws
use mathlib.Core.Option
use okchain.Prelude.{
  ℕ, zero, suc, ◌+◌, ◌-◌, ◌*◌, ◌/◌, ◌^◌, ◌≡◌, List, [], ◌∷◌, ◌++◌, Option, none, some, leb, ◌==◌,
  if◌then◌else◌, length, get_elem?, u64,
}
use okchain.Gas.Transition.{StateDb, add_balance}

-- `ShardReward`
pub record ShardReward : Type 0 where
  pub shard_id : ℕ
  pub gas_fee : ℕ

-- The header's fields that `assignRwards` reads. Addresses are numbers.
pub record Header : Type 0 where
  pub block_number : ℕ
  pub ds_block_num : ℕ
  pub sharding_lead_coin_base : List ℕ
  pub ds_coin_base : List ℕ

-- `DAMPEDBLOCKS`
abbrev pub damped_blocks : ℕ
damped_blocks = 1576800

-- `50 * config.Okp`
abbrev pub first_yield : ℕ
first_yield = 500000000000

-- `sort.Sort` by `Less`, on the entries of the map in the order in which they come.
unfoldable pub insert_by_fee : ShardReward → List ShardReward → List ShardReward
insert_by_fee x [] = x ∷ []
insert_by_fee x (y ∷ ys) = if leb x.gas_fee y.gas_fee then x ∷ y ∷ ys else y ∷ insert_by_fee x ys

unfoldable pub sort_by_gas_fee : List ShardReward → List ShardReward
unfolding insert_by_fee
sort_by_gas_fee [] = []
sort_by_gas_fee (x ∷ xs) = insert_by_fee x (sort_by_gas_fee xs)

unfoldable pub yield_reward : ℕ → ℕ
yield_reward block_number = first_yield / 2 ^ (block_number / damped_blocks)

-- A call of `statedb.AddBalance`: the address and the amount.
abbrev pub Credit : Type 0
Credit = ℕ × ℕ

-- What an index out of range, or a division by zero, does: `none` is a panic.
abbrev pub checked_div : ℕ → ℕ → Option ℕ
checked_div a zero = none
checked_div a (suc b) = some (a / suc b)

infixl 5 ◌>>=◌
abbrev pub ◌>>=◌ : {A B : Type 0} → Option A → (A → Option B) → Option B
none >>= f = none
some a >>= f = f a

-- The loop over the sorted shards. Each but the last gets its percentage of `shards_total`, and
-- the last what `no_last`, the sum of the others' rewards, leaves of it.
unfoldable pub shard_credits : List ℕ → ℕ → ℕ → ℕ → List ShardReward → Option (List Credit)
shard_credits leads fee_total shards_total no_last [] = some []
shard_credits leads fee_total shards_total no_last (x ∷ []) = do
  lead ← get_elem? leads x.shard_id
  some ((lead, shards_total - no_last) ∷ [])
shard_credits leads fee_total shards_total no_last (x ∷ y ∷ rest) =
    let later =
      λ (reward : ℕ). shard_credits leads fee_total shards_total (no_last + reward) (y ∷ rest) in
    do
      percent ← checked_div (x.gas_fee * 100) fee_total
      let reward = shards_total * percent / 100
      lead ← get_elem? leads x.shard_id
      credits ← later reward
      some ((lead, reward) ∷ credits)

-- `shardAverageReward * shardsCnt`
unfoldable pub shards_reward_total : ℕ → ℕ → ℕ
shards_reward_total total cnt = cnt * (total * 10 / (11 + 10 * cnt))

-- The loop over the committee's backups: each gets `average`, the rest stays.
unfoldable pub backup_credits : ℕ → ℕ → List ℕ → ℕ × List Credit
backup_credits average left [] = (left, [])
backup_credits average left (a ∷ rest) =
    let (left', credits) = backup_credits average (left - average) rest in
    (left', (a, average) ∷ credits)

-- The committee's part: `DSCoinBase[0]` is the leader's address.
unfoldable pub ds_credits : ℕ → List ℕ → Option (List Credit)
unfolding backup_credits
ds_credits ds_total [] = none
ds_credits ds_total (leader ∷ backups) =
    let average = ds_total * 10 / (11 + 10 * length backups) in
    let (left, credits) = backup_credits average ds_total backups in
    some (credits ++ (leader, left) ∷ [])

-- The calls of `AddBalance` that `assignRwards` makes, in order.
unfoldable pub reward_credits : Header → ℕ → List ShardReward → Option (List Credit)
reward_credits header fee_total shards =
    let total = fee_total + yield_reward header.block_number in
    let shards_total = shards_reward_total total (length shards) in
    do
      shard_part ←
          shard_credits header.sharding_lead_coin_base fee_total shards_total 0
            (sort_by_gas_fee shards)
      ds_part ← ds_credits (total - shards_total) header.ds_coin_base
      some (shard_part ++ ds_part)

unfoldable pub apply_credits : StateDb → List Credit → StateDb
apply_credits s [] = s
apply_credits s ((a, x) ∷ credits) = apply_credits (add_balance s a x) credits

-- `assignRwards`
unfoldable pub assign_rwards : Header → StateDb → ℕ → List ShardReward → Option StateDb
assign_rwards header s fee_total shards =
    Option.map (apply_credits s) (reward_credits header fee_total shards)
