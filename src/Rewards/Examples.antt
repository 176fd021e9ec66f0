-- ===== src/Rewards/Examples.antt =====
-- Tests of the rewards, and their theorems at a small block.
use okchain.Prelude.{
  ◌+◌, ◌-◌, ◌≡◌, refl, inl, List, [], ◌∷◌, none, some, false, true, arith, if◌then◌else◌, ◌==◌,
}
use okchain.Prelude.Result.{ok}
use okchain.Gas.Transition.{
  StateDb, Evm, Outcome, StateTransition, apply_message, add_balance, sub_balance, set_nonce,
  transition_db, after_check, after_charge, settle, finish, refund_gas, refund_amount, run_evm,
  pre_check, charge_intrinsic, new_state_transition,
}
use okchain.Gas.Intrinsic.{count_non_zero, bump_gas, intrinsic_gas}
use okchain.Rewards.Assign.{
  ShardReward, Header, yield_reward, assign_rwards, reward_credits, sort_by_gas_fee, insert_by_fee,
  shard_credits, shards_reward_total, ds_credits, backup_credits,
}
use okchain.Rewards.Assign.Laws.{Rewarded, assign_rwards-Rewarded}
use okchain.Rewards.Process.{
  Transaction, Env, Totals, as_msg, add_fee, record_fee, check_outcome, process_tx, process_all,
  process_start, process,
}
use okchain.Rewards.Process.Laws.{EndsRewarded, process-EndsRewarded}

abbrev header : Header
header = record {
  block_number = 1576800;
  ds_block_num = 1;
  sharding_lead_coin_base = 51 ∷ 52 ∷ [];
  ds_coin_base = 60 ∷ 61 ∷ [];
}

abbrev shards : List ShardReward
shards = record { shard_id = 1; gas_fee = 700 } ∷ record { shard_id = 0; gas_fee = 300 } ∷ []

abbrev idle_shards : List ShardReward
idle_shards = record { shard_id = 1; gas_fee = 0 } ∷ record { shard_id = 0; gas_fee = 0 } ∷ []

abbrev world : StateDb
world = record { balance = λ a. if a == 1 then 20000000 else 0; nonce = λ a. 0; refund = 0 }

-- Of 250000001000 the shards get 161290323224, the fewer fees first, and the committee the rest.
reward_credits-shards :
    reward_credits header 1000 shards
    ≡ some ((51, 48387096967) ∷ (52, 112903226257) ∷ (61, 42242703702) ∷ (60, 46466974074) ∷ [])
unfolding reward_credits yield_reward sort_by_gas_fee insert_by_fee shard_credits
    shards_reward_total ds_credits backup_credits
reward_credits-shards = refl

assign_rwards-Rewarded_example :
    Rewarded world (1000 + yield_reward 1576800) (assign_rwards header world 1000 shards)
assign_rwards-Rewarded_example =
    assign_rwards-Rewarded header world 1000 shards (λ e. cc) (omega arith, (omega arith, tt)) refl
      (inl (omega arith))

-- A machine that burns 1000 gas.
abbrev evm : Evm
evm = record {
  create = λ s c d g v. record { ret = []; left_over_gas = g - 1000; vmerr = none; state = s };
  call = λ s c a d g v. record { ret = []; left_over_gas = g - 1000; vmerr = none; state = s };
  create_left = λ s c d g v. omega arith;
  call_left = λ s c a d g v. omega arith;
}

abbrev env : Env
env = record { evm = λ tx. evm; finalise = λ s. s; get_shard_id = λ tx n. some 1 }

abbrev transaction : Transaction
transaction = record {
  sender = 1;
  to_addr = some 2;
  nonce = 0;
  gas_price = 3;
  gas_limit = 30000;
  amount = 0;
  payload = [];
}

abbrev outcome : Outcome
outcome = record { ret = []; used_gas = 22000; failed = false; error = none }

abbrev final : StateTransition
final = record {
  gp = 9999999999978000;
  msg = record {
    from = 1;
    to = some 2;
    gas_price = 1;
    gas = 10000000;
    value = 0;
    nonce = 0;
    check_nonce = true;
    payload = [];
  };
  gas = 9978000;
  initial_gas = 10000000;
  state = add_balance (set_nonce (sub_balance world 1 10000000) 1 1) 1 9978000;
}

apply_message-final :
    apply_message evm world (as_msg transaction) 10000000000000000 ≡ some (outcome, final)
unfolding apply_message transition_db after_check after_charge settle finish refund_gas
    refund_amount run_evm pre_check charge_intrinsic intrinsic_gas bump_gas count_non_zero
    new_state_transition as_msg
apply_message-final = refl

abbrev after : Totals
after = record_fee env transaction 1 (process_start world) outcome final

process_all-after :
    process_all env header (process_start world) (transaction ∷ []) ≡ some (ok after)
unfolding process_all process_tx check_outcome process_start record_fee apply_message transition_db
    after_check after_charge settle finish refund_gas refund_amount run_evm pre_check
    charge_intrinsic intrinsic_gas bump_gas count_non_zero new_state_transition as_msg
process_all-after = refl

process-EndsRewarded_example :
    EndsRewarded after (66000 + yield_reward 1576800) (process env header world (transaction ∷ []))
unfolding record_fee process_start add_fee
process-EndsRewarded_example =
    process-EndsRewarded env header world (transaction ∷ []) after process_all-after (λ e. cc)
      (omega arith, tt) (inl (omega arith))
