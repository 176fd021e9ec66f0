-- ===== src/Gas/Transition/Pays.antt =====
-- What a message costs its sender (core/state_transition.go).
use okchain.Prelude.{
  ℕ, ◌+◌, ◌*◌, ◌≤◌, ◌≡◌, sym, subst, ap, ◌∙◌, ◌≢◌, Option, none, some, Bool, true, false,
  max_uint64, arith,
}
use okchain.Gas.Errors.{Error}
use okchain.Gas.Transition.{
  StateDb, Message, EvmResult, Evm, StateTransition, Outcome, new_state_transition, pre_check,
  run_evm, settle, charge_intrinsic, after_charge, after_check, transition_db, apply_message,
  add_balance, sub_balance,
}
use okchain.Gas.Transition.Steps.{
  IsFunded, refund_amount-le, finish_lem, paid, Bought, pre_check-Bought, Charged,
  charge_intrinsic-Charged, run_evm-left,
}

settle_pays :
    (st : StateTransition) (r : EvmResult) (o : Outcome) (t : StateTransition)
    → st.gp + st.initial_gas ≤ max_uint64
    → r.left_over_gas ≤ st.initial_gas
    → settle st r ≡ some (o, t)
    → o.error ≡ none
    → (t.state ≡ add_balance r.state st.msg.from (t.gas * st.msg.gas_price))
      × (o.used_gas + t.gas ≡ st.initial_gas)
unfolding settle
settle_pays st r o t h l p q =
    let st' = record st { gas = r.left_over_gas; state = r.state } in
    let funded : IsFunded st' = omega arith in
    let done = λ (failed : Bool). finish_lem st' r.ret failed funded in
    ground (arith, done true, done false, refund_amount-le st' funded)

-- What the sender and the others hold in the end, where the virtual machine took `spent`.
abbrev pub Pays : StateDb → Message → ℕ → EvmResult → Outcome → StateTransition → Type 0
Pays s msg spent r o t =
    (t.state.balance msg.from + o.used_gas * msg.gas_price + spent ≡ s.balance msg.from)
    × ((a : ℕ) → a ≢ msg.from → t.state.balance a ≡ r.state.balance a)

balance-settle :
    (s : StateDb) (spent : ℕ) (st : StateTransition) (r : EvmResult) (o : Outcome)
    (t : StateTransition)
    → st.initial_gas ≡ st.msg.gas
    → st.state ≡ sub_balance s st.msg.from (st.msg.gas * st.msg.gas_price)
    → st.msg.gas * st.msg.gas_price ≤ s.balance st.msg.from
    → r.state.balance st.msg.from + spent ≡ st.state.balance st.msg.from
    → t.state ≡ add_balance r.state st.msg.from (t.gas * st.msg.gas_price)
    → o.used_gas + t.gas ≡ st.initial_gas
    → Pays s st.msg spent r o t
unfolding add_balance sub_balance
balance-settle s spent st r o t ei es le sp et eu =
    let from = st.msg.from in
    let total = ap (λ (g : ℕ). g * st.msg.gas_price) (eu ∙ ei) in
    let before = ap (λ (x : StateDb). x.balance from) es in
    let after = λ (a : ℕ). ap (λ (x : StateDb). x.balance a) et in
    (ground (arith, total, before, after from), λ a ne. ground (arith, after a))

after_charge-Pays :
    (evm : Evm) (s : StateDb) (spent : ℕ) (st : StateTransition)
    (c : Option Error × StateTransition) (o : Outcome) (t : StateTransition)
    → st.gp + st.msg.gas ≤ max_uint64
    → st.gas ≡ st.msg.gas
    → st.initial_gas ≡ st.msg.gas
    → st.state ≡ sub_balance s st.msg.from (st.msg.gas * st.msg.gas_price)
    → st.msg.gas * st.msg.gas_price ≤ s.balance st.msg.from
    → Charged st c.1
    → (run_evm evm c.1).state.balance st.msg.from + spent ≡ c.1.state.balance st.msg.from
    → after_charge evm c ≡ some (o, t)
    → o.error ≡ none
    → Pays s st.msg spent (run_evm evm c.1) o t
unfolding after_charge
after_charge-Pays evm s spent st (some e, u) o t h eg ei es le c sp p q = absurd (ground arith)
after_charge-Pays evm s spent st (none, u) o t h eg ei es le (g, gle, same) sp p q =
    let v = record st { gas = g } in
    subst
      (λ u.
        (run_evm evm u).state.balance st.msg.from + spent ≡ u.state.balance st.msg.from
        → settle u (run_evm evm u) ≡ some (o, t)
        → o.error ≡ none
        → Pays s st.msg spent (run_evm evm u) o t)
      (sym same)
      (λ sp p q.
        let paying =
          settle_pays v (run_evm evm v) o t (omega arith) (omega (arith, run_evm-left evm v)) p q in
        balance-settle s spent v (run_evm evm v) o t ei es le sp paying.0 paying.1)
      sp p q

after_check-Pays :
    (evm : Evm) (s : StateDb) (msg : Message) (gp : ℕ) (spent : ℕ)
    (c : Option Error × StateTransition) (o : Outcome) (t : StateTransition)
    → gp ≤ max_uint64
    → Bought s msg gp c
    → (run_evm evm (charge_intrinsic c.1).1).state.balance msg.from + spent
      ≡ (charge_intrinsic c.1).1.state.balance msg.from
    → after_check evm c ≡ some (o, t)
    → o.error ≡ none
    → Pays s msg spent (run_evm evm (charge_intrinsic c.1).1) o t
unfolding after_check
after_check-Pays evm s msg gp spent (some e, st) o t h b sp p q = absurd (ground arith)
after_check-Pays evm s msg gp spent (none, st) o t h b sp p q =
    let from = ap (λ (m : Message). m.from) b.3 in
    subst
      (λ m.
        st.gp + m.gas ≡ gp
        → st.gas ≡ m.gas
        → st.initial_gas ≡ m.gas
        → st.state ≡ sub_balance s m.from (m.gas * m.gas_price)
        → m.gas * m.gas_price ≤ s.balance m.from
        → (run_evm evm (charge_intrinsic st).1).state.balance m.from + spent
          ≡ (charge_intrinsic st).1.state.balance m.from
        → after_charge evm (charge_intrinsic st) ≡ some (o, t)
        → o.error ≡ none
        → Pays s m spent (run_evm evm (charge_intrinsic st).1) o t)
      b.3
      (λ eg ea ei es le.
        after_charge-Pays evm s spent st (charge_intrinsic st) o t (omega arith) ea ei es le
          (charge_intrinsic-Charged st))
      b.0 b.1 b.2 b.4 b.5 sp p q

-- When no error is returned, the sender has paid for exactly the gas reported as used, at the
-- message's price, on top of what the virtual machine took from it; every other account holds
-- what the virtual machine left it.
pub apply_message-Pays :
    (evm : Evm) (s : StateDb) (msg : Message) (gp : ℕ) (spent : ℕ) {o : Outcome}
    {t : StateTransition}
    → gp ≤ max_uint64
    → (run_evm evm (paid s msg gp)).state.balance msg.from + spent
      ≡ (paid s msg gp).state.balance msg.from
    → apply_message evm s msg gp ≡ some (o, t)
    → o.error ≡ none
    → Pays s msg spent (run_evm evm (paid s msg gp)) o t
unfolding apply_message transition_db
apply_message-Pays evm s msg gp spent {o} {t} h e p q =
    after_check-Pays evm s msg gp spent (pre_check (new_state_transition s msg gp)) o t h
      (pre_check-Bought s msg gp h) e p q
