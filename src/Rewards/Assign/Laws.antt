-- ===== src/Rewards/Assign/Laws.antt =====
-- Conservation of the rewards of core/state_processor.go: what a block pays out is what it owes.
use mathlib.Core.Option
use okchain.Prelude.{
  ℕ, ◌+◌, ◌≤◌, ◌<◌, ◌≡◌, refl, ◌≢◌, List, [], ◌∷◌, Option, none, some, length, ◌⊎◌, arith,
}
use okchain.Rewards.Assign.Credits.{
  sum_fees, sum_credits, credited, HasLeads, PaysAll, length-sort, reward_credits-PaysAll,
}
use okchain.Gas.Transition.{StateDb, add_balance}
use okchain.Rewards.Assign.{
  ShardReward, Header, Credit, sort_by_gas_fee, yield_reward, shard_credits, shards_reward_total,
  reward_credits, apply_credits, assign_rwards,
}

apply_credits-balance :
    (s : StateDb) (cs : List Credit) (a : ℕ)
    → (apply_credits s cs).balance a ≡ s.balance a + credited a cs
unfolding apply_credits add_balance
apply_credits-balance s [] a = omega arith
apply_credits-balance s ((b, x) ∷ cs) a =
    ground (arith, apply_credits-balance (add_balance s b x) cs a)

-- A state that owes the credits of `cs`, which add up to `total`, and nothing else.
abbrev pub Rewarded : StateDb → ℕ → Option StateDb → Type 0
Rewarded s total none = ⊥
Rewarded s total (some t) =
    (cs : List Credit) × (sum_credits cs ≡ total)
    × ((a : ℕ) → t.balance a ≡ s.balance a + credited a cs)

map-Rewarded :
    (s : StateDb) (total : ℕ) (o : Option (List Credit))
    → PaysAll total o
    → Rewarded s total (Option.map (apply_credits s) o)
map-Rewarded s total none h = h
map-Rewarded s total (some cs) h = (cs, h, apply_credits-balance s cs)

-- A block with a committee, a leader's address for each shard, and fees that are positive or from
-- at most one shard, is paid for without a panic: the balances grow by credits that add up to
-- exactly the gas fees and the block's yield, whatever is lost by rounding down.
pub assign_rwards-Rewarded :
    (header : Header) (s : StateDb) (fee_total : ℕ) (shards : List ShardReward)
    → header.ds_coin_base ≢ []
    → HasLeads header.sharding_lead_coin_base shards
    → sum_fees shards ≡ fee_total
    → (0 < fee_total) ⊎ (length shards ≤ 1)
    → Rewarded s
        (fee_total + yield_reward header.block_number)
        (assign_rwards header s fee_total shards)
unfolding assign_rwards
assign_rwards-Rewarded header s f shards ne h eq pos =
    map-Rewarded s (f + yield_reward header.block_number) (reward_credits header f shards)
      (reward_credits-PaysAll header f shards ne h eq pos)

shard_credits-zero :
    (leads : List ℕ) (t n : ℕ) (xs : List ShardReward)
    → 2 ≤ length xs
    → shard_credits leads 0 t n xs ≡ none
unfolding shard_credits
shard_credits-zero leads t n [] h = absurd (omega arith)
shard_credits-zero leads t n (x ∷ []) h = absurd (omega arith)
shard_credits-zero leads t n (x ∷ y ∷ xs) h = refl

-- Where all the fees are zero, two shards or more stop the block with a division by zero.
pub assign_rwards-zero_fees :
    (header : Header) (s : StateDb) (shards : List ShardReward)
    → 2 ≤ length shards
    → assign_rwards header s 0 shards ≡ none
unfolding assign_rwards reward_credits
assign_rwards-zero_fees header s shards h = rw (
    shard_credits-zero header.sharding_lead_coin_base
      (shards_reward_total (0 + yield_reward header.block_number) (length shards)) 0
      (sort_by_gas_fee shards) (omega (arith, length-sort shards)))
