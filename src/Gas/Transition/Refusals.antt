-- ===== src/Gas/Transition/Refusals.antt =====
-- The errors of core/state_transition.go: those of the checks, and one that is lost.
use okchain.Prelude.{
  ℕ, ◌+◌, ◌*◌, ◌≤◌, ◌≡◌, sym, subst, ap, ◌∙◌, Option, none, some, ◌&&◌, true, ltb, if◌then◌else◌,
  max_uint64, arith,
}
use okchain.Gas.Errors.{
  Error, nonce_too_high, nonce_too_low, insufficient_balance_for_gas, gas_limit_reached,
  vm_insufficient_balance,
}
use okchain.Gas.Transition.{
  StateDb, Message, EvmResult, Evm, StateTransition, Outcome, new_state_transition, pre_check,
  run_evm, settle, charge_intrinsic, after_charge, after_check, transition_db, apply_message,
}
use okchain.Gas.Transition.Steps.{
  IsFunded, finish_lem, paid, Bought, pre_check-Bought, Charged, charge_intrinsic-Charged,
  run_evm-left,
}

-- The nonce test, the purchase of gas and the pool refuse a message with nothing changed: the
-- error is `ErrNonceTooHigh` or `ErrNonceTooLow` by the way in which a checked nonce differs,
-- else "insufficient balance to pay for gas" if the balance does not cover the gas, else
-- `ErrGasLimitReached` if the pool is short; in each other case the check passes.
pub pre_check_refusals :
    (s : StateDb) (msg : Message) (gp : ℕ)
    → let st = new_state_transition s msg gp in
      let nonce = s.nonce msg.from in
      let poor = ltb (s.balance msg.from) (msg.gas * msg.gas_price) in
      ((pre_check st).0 ≡ (
        if msg.check_nonce && ltb nonce msg.nonce
        then some nonce_too_high
        else if msg.check_nonce && ltb msg.nonce nonce
        then some nonce_too_low
        else if poor
        then some insufficient_balance_for_gas
        else if ltb gp msg.gas
        then some gas_limit_reached
        else none))
      × ((e : Error) → (pre_check st).0 ≡ some e → (pre_check st).1 ≡ st)
unfolding pre_check new_state_transition
pre_check_refusals s msg gp = (ground arith, λ e h. ground arith)

-- A message that ended as a failed transaction, with no error.
abbrev pub EndsFailed : Option (Outcome × StateTransition) → Type 0
EndsFailed none = ⊥
EndsFailed (some (o, t)) = (o.error ≡ none) × (o.failed ≡ true)

settle-EndsFailed :
    (st : StateTransition) (r : EvmResult)
    → st.gp + st.initial_gas ≤ max_uint64
    → r.left_over_gas ≤ st.initial_gas
    → r.vmerr ≡ some vm_insufficient_balance
    → EndsFailed (settle st r)
unfolding settle
settle-EndsFailed st r h l v =
    let st' = record st { gas = r.left_over_gas; state = r.state } in
    let funded : IsFunded st' = omega arith in ground (arith, finish_lem st' r.ret true funded)

after_charge-EndsFailed :
    (evm : Evm) (st : StateTransition) (c : Option Error × StateTransition)
    → st.gp + st.msg.gas ≤ max_uint64
    → st.gas ≡ st.msg.gas
    → st.initial_gas ≡ st.msg.gas
    → Charged st c.1
    → c.0 ≡ none
    → (run_evm evm c.1).vmerr ≡ some vm_insufficient_balance
    → EndsFailed (after_charge evm c)
unfolding after_charge
after_charge-EndsFailed evm st (some e, u) h eg ei c p v = absurd (ground arith)
after_charge-EndsFailed evm st (none, u) h eg ei (g, gle, same) p v =
    let w = record st { gas = g } in
    subst
      (λ u.
        (run_evm evm u).vmerr ≡ some vm_insufficient_balance
        → EndsFailed (settle u (run_evm evm u)))
      (sym same)
      (settle-EndsFailed w (run_evm evm w) (omega arith) (omega (arith, run_evm-left evm w))) v

after_check-EndsFailed :
    (evm : Evm) (s : StateDb) (msg : Message) (gp : ℕ) (c : Option Error × StateTransition)
    → gp ≤ max_uint64
    → Bought s msg gp c
    → c.0 ≡ none
    → (charge_intrinsic c.1).0 ≡ none
    → (run_evm evm (charge_intrinsic c.1).1).vmerr ≡ some vm_insufficient_balance
    → EndsFailed (after_check evm c)
unfolding after_check
after_check-EndsFailed evm s msg gp (some e, st) h b p q v = absurd (ground arith)
after_check-EndsFailed evm s msg gp (none, st) h b p q v =
    let gas = ap (λ (m : Message). m.gas) b.3 in
    after_charge-EndsFailed evm st (charge_intrinsic st) (omega arith) (b.1 ∙ sym gas)
      (b.2 ∙ sym gas) (charge_intrinsic-Charged st) q v

-- When the virtual machine answers a paid message with `vm.ErrInsufficientBalance`, `ApplyMessage`
-- does not return it: it ends as a failed transaction with no error. The test
-- `vmerr == ErrInsufficientBalance` compares with the other variable of that name, in core.
pub apply_message-EndsFailed :
    (evm : Evm) (s : StateDb) (msg : Message) (gp : ℕ)
    → gp ≤ max_uint64
    → (pre_check (new_state_transition s msg gp)).0 ≡ none
    → (charge_intrinsic (pre_check (new_state_transition s msg gp)).1).0 ≡ none
    → (run_evm evm (paid s msg gp)).vmerr ≡ some vm_insufficient_balance
    → EndsFailed (apply_message evm s msg gp)
unfolding apply_message transition_db
apply_message-EndsFailed evm s msg gp h p q v =
    after_check-EndsFailed evm s msg gp (pre_check (new_state_transition s msg gp)) h
      (pre_check-Bought s msg gp h) p q v
