-- ===== src/Gas/Examples.antt =====
-- Tests of the gas accounting, and its theorems at concrete messages.
use okchain.Prelude.{
  ◌==◌, ℕ, ◌+◌, ◌-◌, ◌≤◌, ◌≡◌, refl, [], ◌∷◌, none, some, true, false, ltb, if◌then◌else◌, arith,
}
use okchain.Prelude.Result.{ok}
use okchain.Gas.Errors.{vm_insufficient_balance}
use okchain.Gas.Intrinsic.{count_non_zero, bump_gas, intrinsic_gas}
use okchain.Gas.IntrinsicLaws.{intrinsic_gas-eq-cost}
use okchain.Gas.Transition.{
  Outcome, StateTransition, set_nonce, StateDb, Message, EvmResult, Evm, add_balance, sub_balance,
  new_state_transition, apply_message, transition_db, after_check, after_charge, settle, finish,
  refund_gas, refund_amount, run_evm, pre_check, charge_intrinsic,
}
use okchain.Gas.Transition.Steps.{paid}
use okchain.Gas.Transition.PoolPays.{PoolPays, apply_message-PoolPays}
use okchain.Gas.Transition.Pays.{Pays, apply_message-Pays}
use okchain.Gas.Transition.Refusals.{EndsFailed, apply_message-EndsFailed}

-- A machine that only moves the value, and burns 100 gas if it can.
abbrev transfer : StateDb → ℕ → ℕ → ℕ → ℕ → EvmResult
transfer s from to g v =
    if ltb (s.balance from) v
    then record { ret = []; left_over_gas = g; vmerr = some vm_insufficient_balance; state = s }
    else record {
      ret = [];
      left_over_gas = g - 100;
      vmerr = none;
      state = record s {
        balance = λ a.
            if a == from
            then s.balance from - v
            else if a == to
            then s.balance to + v
            else s.balance a;
      };
    }

transfer_left : (s : StateDb) (from to g v : ℕ) → (transfer s from to g v).left_over_gas ≤ g
transfer_left s from to g v = ground arith

abbrev evm : Evm
evm = record {
  create = λ s c d g v. transfer s c 99 g v;
  call = λ s c a d g v. transfer s c a g v;
  create_left = λ s c d g v. transfer_left s c 99 g v;
  call_left = λ s c a d g v. transfer_left s c a g v;
}

abbrev world : StateDb
world = record { balance = λ a. if a == 1 then 100000 else 5; nonce = λ a. 7; refund = 30 }

abbrev message : Message
message = record {
  from = 1;
  to = some 2;
  gas_price = 2;
  gas = 30000;
  value = 10;
  nonce = 7;
  check_nonce = true;
  payload = 0 ∷ 1 ∷ [];
}

abbrev too_dear : Message
too_dear = record message { value = 50000 }

intrinsic_gas-eq-cost_example : intrinsic_gas (0 ∷ 9 ∷ []) false true ≡ ok 21072
intrinsic_gas-eq-cost_example = intrinsic_gas-eq-cost (0 ∷ 9 ∷ []) false true (omega arith)

apply_message-PoolPays_example : PoolPays message 50000 (apply_message evm world message 50000)
apply_message-PoolPays_example = apply_message-PoolPays evm world message 50000 (omega arith)

-- What the machine leaves of `message`, and what the transition ends with: 21072 of gas for the
-- payload, 100 burnt, 30 refunded.
abbrev called : StateDb
called = (transfer (set_nonce (sub_balance world 1 60000) 1 8) 1 2 8928 10).state

abbrev outcome : Outcome
outcome = record { ret = []; used_gas = 21142; failed = false; error = none }

abbrev final : StateTransition
final = record {
  gp = 28858;
  msg = message;
  gas = 8858;
  initial_gas = 30000;
  state = add_balance called 1 17716;
}

apply_message-final : apply_message evm world message 50000 ≡ some (outcome, final)
unfolding apply_message transition_db after_check after_charge settle finish refund_gas
    refund_amount run_evm pre_check charge_intrinsic intrinsic_gas bump_gas count_non_zero
    new_state_transition
apply_message-final = refl

apply_message-Pays_example :
    Pays world message 10 (run_evm evm (paid world message 50000)) outcome final
unfolding run_evm pre_check charge_intrinsic intrinsic_gas bump_gas count_non_zero
    new_state_transition
apply_message-Pays_example =
    apply_message-Pays evm world message 50000 10 (omega arith) refl apply_message-final refl

apply_message-EndsFailed_example : EndsFailed (apply_message evm world too_dear 50000)
unfolding run_evm pre_check charge_intrinsic intrinsic_gas bump_gas count_non_zero
    new_state_transition
apply_message-EndsFailed_example =
    apply_message-EndsFailed evm world too_dear 50000 (omega arith) refl refl refl
