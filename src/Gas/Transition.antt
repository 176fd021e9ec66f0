-- ===== src/Gas/Transition.antt =====
-- core/state_transition.go: one message applied to the state.
pub mod Steps
pub mod PoolPays
pub mod Pays
pub mod Refusals
use okchain.Prelude.{
  ℕ, ◌+◌, ◌-◌, ◌*◌, ◌/◌, ◌%◌, ◌≤◌, ◌≡◌, List, [], Option, none, some, Bool, true, false, ltb, ◌==◌,
  if◌then◌else◌, u64,
}
use okchain.Prelude.Result.{Result, ok, err}
use okchain.Gas.Errors.{
  Error, nonce_too_high, nonce_too_low, insufficient_balance_for_gas, out_of_gas,
  is_insufficient_balance,
}
use okchain.Gas.Pool.{add_gas, sub_gas}
use okchain.Gas.Intrinsic.{intrinsic_gas}

-- What the transition reads and writes of `vm.StateDB`. Addresses are only compared, so they are
-- numbers. A balance is a `big.Int` that `buy_gas` tests before it is lowered.
pub record StateDb : Type 0 where
  pub balance : ℕ → ℕ
  pub nonce : ℕ → ℕ
  pub refund : ℕ

abbrev pub set_at : (ℕ → ℕ) → ℕ → ℕ → ℕ → ℕ
set_at f a v b = if b == a then v else f b

unfoldable pub add_balance : StateDb → ℕ → ℕ → StateDb
add_balance s a x = record s { balance = set_at s.balance a (s.balance a + x) }

unfoldable pub sub_balance : StateDb → ℕ → ℕ → StateDb
sub_balance s a x = record s { balance = set_at s.balance a (s.balance a - x) }

unfoldable pub set_nonce : StateDb → ℕ → ℕ → StateDb
set_nonce s a n = record s { nonce = set_at s.nonce a n }

-- The interface `Message`. `to` is nil for a contract creation.
pub record Message : Type 0 where
  pub from : ℕ
  pub to : Option ℕ
  pub gas_price : ℕ
  pub gas : ℕ
  pub value : ℕ
  pub nonce : ℕ
  pub check_nonce : Bool
  pub payload : List ℕ

-- What `evm.Create` and `evm.Call` return, with the state that they leave.
pub record EvmResult : Type 0 where
  pub ret : List ℕ
  pub left_over_gas : ℕ
  pub vmerr : Option Error
  pub state : StateDb

-- The virtual machine of core/vm: `create caller code gas value`, `call caller addr input gas
-- value`. What it documents of gas is that it returns what is left over of what it was given.
pub record Evm : Type 0 where
  pub create : StateDb → ℕ → List ℕ → ℕ → ℕ → EvmResult
  pub call : StateDb → ℕ → ℕ → List ℕ → ℕ → ℕ → EvmResult
  pub create_left :
      (s : StateDb) (c : ℕ) (d : List ℕ) (g v : ℕ) → (create s c d g v).left_over_gas ≤ g
  pub call_left :
      (s : StateDb) (c a : ℕ) (d : List ℕ) (g v : ℕ) → (call s c a d g v).left_over_gas ≤ g

-- `StateTransition`; its fields `gasPrice`, `value` and `data` are copies of the message's.
pub record StateTransition : Type 0 where
  pub gp : ℕ
  pub msg : Message
  pub gas : ℕ
  pub initial_gas : ℕ
  pub state : StateDb

unfoldable pub new_state_transition : StateDb → Message → ℕ → StateTransition
new_state_transition state msg gp = record {
  gp = gp;
  msg = msg;
  gas = 0;
  initial_gas = 0;
  state = state;
}

-- A method returns its error and the fields as it leaves them.
unfoldable pub buy_gas : StateTransition → Option Error × StateTransition
unfolding sub_gas sub_balance
buy_gas st =
    let mgval = st.msg.gas * st.msg.gas_price in
    if ltb (st.state.balance st.msg.from) mgval
    then (some insufficient_balance_for_gas, st)
    else elim (sub_gas st.gp st.msg.gas) [
      | err e ↦ (some e, st)
      | ok gp ↦ (
        none,
        record st {
          gp = gp;
          gas = u64 (st.gas + st.msg.gas);
          initial_gas = st.msg.gas;
          state = sub_balance st.state st.msg.from mgval;
        },
      )
    ]

unfoldable pub pre_check : StateTransition → Option Error × StateTransition
unfolding buy_gas
pre_check st =
    let nonce = st.state.nonce st.msg.from in
    if st.msg.check_nonce
    then (if ltb nonce st.msg.nonce
        then (some nonce_too_high, st)
        else if ltb st.msg.nonce nonce
        then (some nonce_too_low, st)
        else buy_gas st)
    else buy_gas st

unfoldable pub use_gas : StateTransition → ℕ → Option Error × StateTransition
use_gas st amount =
    if ltb st.gas amount then (some out_of_gas, st) else (none, record st { gas = st.gas - amount })

-- `initialGas - gas` on uint64
unfoldable pub gas_used : StateTransition → ℕ
gas_used st = u64 (st.initial_gas + 18446744073709551616 - st.gas)

-- The refund counter, capped to half of the gas used.
unfoldable pub refund_amount : StateTransition → ℕ
unfolding gas_used
refund_amount st =
    let half = gas_used st / 2 in if ltb st.state.refund half then st.state.refund else half

-- `none` is the panic of `AddGas`.
unfoldable pub refund_gas : StateTransition → Option StateTransition
unfolding add_gas
refund_gas st =
    let gas = u64 (st.gas + refund_amount st) in
    let state = add_balance st.state st.msg.from (gas * st.msg.gas_price) in
    elim (add_gas st.gp gas) [
      | none ↦ none
      | some gp ↦ some (record st { gp = gp; gas = gas; state = state })
    ]

-- The call of the virtual machine: `Create` for a message with no recipient, else the sender's
-- nonce is bumped and `Call` runs.
unfoldable pub run_evm : Evm → StateTransition → EvmResult
unfolding set_nonce
run_evm evm st = elim st.msg.to [
  | none ↦ evm.create st.state st.msg.from st.msg.payload st.gas st.msg.value
  | some to ↦
      let bumped = set_nonce st.state st.msg.from (u64 (st.state.nonce st.msg.from + 1)) in
      evm.call bumped st.msg.from to st.msg.payload st.gas st.msg.value
]

-- The values that `TransitionDb` returns.
pub record Outcome : Type 0 where
  pub ret : List ℕ
  pub used_gas : ℕ
  pub failed : Bool
  pub error : Option Error

abbrev failure : Error → Outcome
failure e = record { ret = []; used_gas = 0; failed = false; error = some e }

-- `refundGas` and the values returned after it.
unfoldable pub finish : StateTransition → List ℕ → Bool → Option (Outcome × StateTransition)
unfolding refund_gas
finish st ret failed = elim (refund_gas st) [
  | none ↦ none
  | some t ↦ some (record { ret = ret; used_gas = gas_used t; failed = failed; error = none }, t)
]

-- `TransitionDb` from the virtual machine's answer on. Its error is passed on only if it is
-- `core.ErrInsufficientBalance`.
unfoldable pub settle : StateTransition → EvmResult → Option (Outcome × StateTransition)
unfolding finish
settle st r =
    let st' = record st { gas = r.left_over_gas; state = r.state } in
    elim r.vmerr [
      | none ↦ finish st' r.ret false
      | some e ↦ if is_insufficient_balance e then some (failure e, st') else finish st' r.ret true
    ]

abbrev pub is_creation : Message → Bool
is_creation msg = elim msg.to [ none ↦ true | some _ ↦ false ]

unfoldable pub charge_intrinsic : StateTransition → Option Error × StateTransition
unfolding use_gas
charge_intrinsic st = elim (intrinsic_gas st.msg.payload (is_creation st.msg) true) [
  | err e ↦ (some e, st)
  | ok gas ↦ use_gas st gas
]

-- `TransitionDb` after the intrinsic gas is paid, and after `preCheck`.
unfoldable pub after_charge :
    Evm → Option Error × StateTransition → Option (Outcome × StateTransition)
after_charge evm (some e, st) = some (failure e, st)
after_charge evm (none, st) = settle st (run_evm evm st)

unfoldable pub after_check :
    Evm → Option Error × StateTransition → Option (Outcome × StateTransition)
after_check evm (some e, st) = some (failure e, st)
after_check evm (none, st) = after_charge evm (charge_intrinsic st)

-- `TransitionDb`; `none` is a panic.
unfoldable pub transition_db : Evm → StateTransition → Option (Outcome × StateTransition)
transition_db evm st = after_check evm (pre_check st)

unfoldable pub apply_message : Evm → StateDb → Message → ℕ → Option (Outcome × StateTransition)
apply_message evm state msg gp = transition_db evm (new_state_transition state msg gp)
