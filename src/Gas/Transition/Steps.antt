-- ===== src/Gas/Transition/Steps.antt =====
-- One lemma for each step of `TransitionDb` (core/state_transition.go).
use okchain.Prelude.{
  ℕ, ◌+◌, ◌-◌, ◌*◌, ◌≤◌, ◌≡◌, refl, inl, inr, List, Option, none, some, Bool, true, ltb, max_uint64,
  arith, Option-cases, Bool-cases,
}
use okchain.Prelude.Result.{Result-cases}
use okchain.Gas.Intrinsic.{intrinsic_gas}
use okchain.Gas.Errors.{Error}
use okchain.Gas.Transition.{
  StateDb, Message, Evm, StateTransition, is_creation, new_state_transition, pre_check, use_gas,
  gas_used, refund_amount, refund_gas, run_evm, finish, charge_intrinsic, add_balance, sub_balance,
}

-- The gas counters fit a uint64, and what is left of the gas bought can go back to the pool.
pub record IsFunded (st : StateTransition) : Type 0 where
  pub bounded : st.gp + st.initial_gas ≤ max_uint64
  pub within : st.gas ≤ st.initial_gas

pub gas_used_lem : (st : StateTransition) → IsFunded st → gas_used st + st.gas ≡ st.initial_gas
unfolding gas_used
gas_used_lem st h = ground arith

pub refund_amount-le :
    (st : StateTransition) → IsFunded st → st.gas + refund_amount st ≤ st.initial_gas
unfolding refund_amount
refund_amount-le st h = ground (arith, gas_used_lem st h)

pub refund_gas_lem :
    (st : StateTransition)
    → IsFunded st
    → let g = st.gas + refund_amount st in
      refund_gas st
      ≡ some (record st {
        gp = st.gp + g;
        gas = g;
        state = add_balance st.state st.msg.from (g * st.msg.gas_price);
      })
unfolding refund_gas
refund_gas_lem st h = ground (arith, refund_amount-le st h)

-- The transition after the checks and the payments that precede the virtual machine.
abbrev pub paid : StateDb → Message → ℕ → StateTransition
paid s msg gp = (charge_intrinsic (pre_check (new_state_transition s msg gp)).1).1

-- What the checks leave: a refusal changes nothing, and otherwise the gas has been bought.
abbrev pub Bought : StateDb → Message → ℕ → Option Error × StateTransition → Type 0
Bought s msg gp (some e, st) = st ≡ new_state_transition s msg gp
Bought s msg gp (none, st) =
    (st.gp + msg.gas ≡ gp)
    × (st.gas ≡ msg.gas)
    × (st.initial_gas ≡ msg.gas)
    × (st.msg ≡ msg)
    × (st.state ≡ sub_balance s msg.from (msg.gas * msg.gas_price))
    × (msg.gas * msg.gas_price ≤ s.balance msg.from)

pub pre_check-Bought :
    (s : StateDb) (msg : Message) (gp : ℕ)
    → gp ≤ max_uint64
    → Bought s msg gp (pre_check (new_state_transition s msg gp))
unfolding pre_check new_state_transition
pre_check-Bought s msg gp h = ground arith

-- Only the gas left is changed by `charge_intrinsic`, and it does not grow.
abbrev pub Charged : StateTransition → StateTransition → Type 0
Charged st t = (g : ℕ) × (g ≤ st.gas) × (t ≡ record st { gas = g })

pub charge_intrinsic-Charged : (st : StateTransition) → Charged st (charge_intrinsic st).1
unfolding charge_intrinsic use_gas
charge_intrinsic-Charged st =
    elim (Result-cases (intrinsic_gas st.msg.payload (is_creation st.msg) true)) [
      | inl (e, p) ↦ rw (p, charge_intrinsic) (st.gas, omega arith, refl)
      | inr (g, p) ↦
          rw (p, charge_intrinsic)
            (elim (Bool-cases (ltb st.gas g)) [
              | inl less ↦ rw less (st.gas, omega arith, refl)
              | inr more ↦ rw more (st.gas - g, omega arith, refl)
            ])
    ]

pub run_evm-left : (evm : Evm) (st : StateTransition) → (run_evm evm st).left_over_gas ≤ st.gas
unfolding run_evm
run_evm-left evm st = elim (Option-cases st.msg.to) [
  | inl p ↦ rw p (evm.create_left _ _ _ _ _)
  | inr (a, p) ↦ rw p (evm.call_left _ _ _ _ _ _)
]

pub finish_lem :
    (st : StateTransition) (ret : List ℕ) (failed : Bool)
    → IsFunded st
    → let g = st.gas + refund_amount st in
      finish st ret failed
      ≡ some (
        record { ret = ret; used_gas = st.initial_gas - g; failed = failed; error = none },
        record st {
          gp = st.gp + g;
          gas = g;
          state = add_balance st.state st.msg.from (g * st.msg.gas_price);
        },
      )
unfolding finish gas_used
finish_lem st ret failed h =
    rw (refund_gas_lem st h, finish) (ground (arith, refund_amount-le st h))
