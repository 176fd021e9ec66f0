-- ===== src/Gas/Transition/PoolPays.antt =====
-- What a message takes from the block's gas pool (core/state_transition.go).
use okchain.Prelude.{
  ℕ, ◌+◌, ◌≤◌, ◌≡◌, subst, Option, none, some, Bool, true, false, max_uint64, arith,
}
use okchain.Gas.Errors.{Error}
use okchain.Gas.Transition.{
  StateDb, Message, EvmResult, Evm, StateTransition, Outcome, new_state_transition, pre_check,
  run_evm, settle, charge_intrinsic, after_charge, after_check, transition_db, apply_message,
}
use okchain.Gas.Transition.Steps.{
  IsFunded, refund_amount-le, finish_lem, Bought, pre_check-Bought, Charged,
  charge_intrinsic-Charged, run_evm-left,
}

-- The gas that leaves the pool for a message, by how the message ended.
abbrev pub PoolPays : Message → ℕ → Option (Outcome × StateTransition) → Type 0
PoolPays msg gp none = ⊥
PoolPays msg gp (some (o, t)) = elim o.error [
  | none ↦ (t.gp + o.used_gas ≡ gp) × (o.used_gas ≤ msg.gas)
  | some _ ↦ (t.gp ≤ gp) × (gp ≤ t.gp + msg.gas)
]

settle-PoolPays :
    (gp : ℕ) (st : StateTransition) (r : EvmResult)
    → gp ≤ max_uint64
    → st.gp + st.msg.gas ≡ gp
    → st.initial_gas ≡ st.msg.gas
    → r.left_over_gas ≤ st.msg.gas
    → PoolPays st.msg gp (settle st r)
unfolding settle
settle-PoolPays gp st r h p q l =
    let st' = record st { gas = r.left_over_gas; state = r.state } in
    let funded : IsFunded st' = omega arith in
    let done = λ (failed : Bool). finish_lem st' r.ret failed funded in
    let le = refund_amount-le st' funded in ground (arith, done true, done false, le)

after_charge-PoolPays :
    (evm : Evm) (st : StateTransition) (gp : ℕ) (c : Option Error × StateTransition)
    → gp ≤ max_uint64
    → st.gp + st.msg.gas ≡ gp
    → st.gas ≡ st.msg.gas
    → st.initial_gas ≡ st.msg.gas
    → Charged st c.1
    → PoolPays st.msg gp (after_charge evm c)
unfolding after_charge
after_charge-PoolPays evm st gp (some e, t) h p q r (g, le, same) = ground arith
after_charge-PoolPays evm st gp (none, t) h p q r (g, le, same) =
    let u = record st { gas = g } in
    rw same (settle-PoolPays gp u (run_evm evm u) h p r (omega (arith, run_evm-left evm u)))

after_check-PoolPays :
    (evm : Evm) (s : StateDb) (msg : Message) (gp : ℕ) (c : Option Error × StateTransition)
    → gp ≤ max_uint64
    → Bought s msg gp c
    → PoolPays msg gp (after_check evm c)
unfolding after_check new_state_transition
after_check-PoolPays evm s msg gp (some e, st) h b = ground arith
after_check-PoolPays evm s msg gp (none, st) h b =
    subst (λ m. PoolPays m gp (after_charge evm (charge_intrinsic st))) b.3
      (after_charge-PoolPays evm st gp (charge_intrinsic st) h (ground arith) (ground arith)
        (ground arith) (charge_intrinsic-Charged st))

-- On a pool that fits a uint64 `ApplyMessage` never panics. If it returns no error, the pool has
-- been lowered by exactly the gas reported as used, which is at most the message's gas. If it
-- returns an error, the pool is lowered by at most the message's gas, and never raised.
pub apply_message-PoolPays :
    (evm : Evm) (s : StateDb) (msg : Message) (gp : ℕ)
    → gp ≤ max_uint64
    → PoolPays msg gp (apply_message evm s msg gp)
unfolding apply_message transition_db
apply_message-PoolPays evm s msg gp h =
    after_check-PoolPays evm s msg gp (pre_check (new_state_transition s msg gp)) h
      (pre_check-Bought s msg gp h)
