-- ===== src/Bft/Lead/Handle/Laws.antt =====
-- When the leader (consensus_lead.go) leaves a round.
use mathlib.Core.Logic.{if_pos, if_neg}
use okchain.Prelude.{
  if_rule, ap, sym, ◌∙◌, ℕ, ◌+◌, ◌≡◌, ◌≤◌, refl, Bool, true, false, Option, none, some, ◌==◌, arith,
  length,
}
use okchain.Prelude.Result.{Result, ok, err}
use okchain.Bft.Types.{
  BoolMapSignature, ConsensusState, ConsensusState-discrete, Error, Message, MessageType, Payload,
  final_collective_sig, broadcast_block,
}
use okchain.Bft.Env.{Env}
use okchain.Bft.Lead.{Lead}
use okchain.Bft.Lead.Keeps.{
  Keeps, AllKeep, verify_and_update-AllKeep, verify_sig2_and_update-Keeps, generate_bool_map-Keeps,
  compose_broadcast_block-AllKeep,
}
use okchain.Bft.Lead.Verify.{verify_and_update, verify_sig2_and_update}
use okchain.Bft.Lead.Collect.{generate_bool_map}
use okchain.Bft.Lead.Compose.{compose_final_collective_sig, compose_broadcast_block}
use okchain.Bft.Lead.Handle.{
  send_next, send_broadcast, send_collected, count_response, handle_response, keep_sign2,
  count_final_response, handle_final_response, second_tally,
}

-- What a handler has done to the leader, by the flag that it returns: the round was left at the
-- quorum, for `next`, with the counter reset and one message sent; or the state is as it was,
-- nothing was sent, and the counter has not gone down.
abbrev pub Advances : ConsensusState → ConsensusState → Lead → Option (Bool × Lead) → Type 0
Advances cur next l none = Unit
Advances cur next l (some (true, l')) =
    (l.state ≡ cur)
    × (l.counter + 1 ≡ l.tolerance)
    × (l'.state ≡ next)
    × (l'.counter ≡ 0)
    × (length l'.sent ≡ length l.sent + 1)
Advances cur next l (some (false, l')) =
    (l'.state ≡ l.state)
    × (l'.sent ≡ l.sent)
    × (l'.tolerance ≡ l.tolerance)
    × (l.counter ≤ l'.counter)

-- `m` is the leader at the quorum: counted, and otherwise as before.
record Reached (cur : ConsensusState) (l m : Lead) : Type 0 where
  entered : l.state ≡ cur
  state : m.state ≡ l.state
  counted : m.counter ≡ l.counter + 1
  quorum : m.counter ≡ m.tolerance
  tolerance : m.tolerance ≡ l.tolerance
  sent : m.sent ≡ l.sent

keep_Reached :
    {cur : ConsensusState} (l m m' : Lead) → Reached cur l m → Keeps m m' → Reached cur l m'
keep_Reached l m m' r k = record {
  entered = r.entered;
  state = k.state ∙ r.state;
  counted = k.counter ∙ r.counted;
  quorum = k.counter ∙ r.quorum ∙ sym k.tolerance;
  tolerance = k.tolerance ∙ r.tolerance;
  sent = k.sent ∙ r.sent;
}

send_next-Advances :
    (cur next : ConsensusState) (type : MessageType) (l : Lead) (c : Result Error Payload × Lead)
    → Reached cur l c.1
    → Advances cur next l (some (send_next next type c))
unfolding send_next
send_next-Advances cur next type l (err e, m) r = ground arith
send_next-Advances cur next type l (ok payload, m) r =
    (r.entered, ground arith, refl, refl, rw (← r.sent) (omega arith))

send_broadcast-Advances :
    (cur next : ConsensusState) (l m : Lead) (o : Option (Result Error Payload × Lead))
    → Reached cur l m
    → AllKeep m o
    → Advances cur next l (send_broadcast next o)
unfolding send_broadcast
send_broadcast-Advances cur next l m none r k = tt
send_broadcast-Advances cur next l m (some (c, m')) r k =
    send_next-Advances cur next broadcast_block l (c, m') (keep_Reached l m m' r k)

send_collected-Advances :
    (env : Env) (cur next : ConsensusState) (l m : Lead) (c : Option Error × Lead)
    → Reached cur l m
    → Keeps m c.1
    → Advances cur next l (send_collected env next c)
unfolding send_collected
send_collected-Advances env cur next l m (some e, m') r k = ground arith
send_collected-Advances env cur next l m (none, m') r k =
    if_rule (Advances cur next l) m'.shard_lead _ _
      (λ b.
        send_broadcast-Advances cur next l m' (compose_broadcast_block env none m') reached
          (compose_broadcast_block-AllKeep env none m'))
      (λ b.
        send_next-Advances cur next final_collective_sig l (compose_final_collective_sig env m', m')
          reached)
  where
    reached : Reached cur l m'
    reached = keep_Reached l m m' r k

count_response-Advances :
    (env : Env) (cur next : ConsensusState) (l : Lead) (o : Option (Option Error × Lead))
    → l.state ≡ cur
    → AllKeep l o
    → Advances cur next l (count_response env next o)
unfolding count_response
count_response-Advances env cur next l none h k = tt
count_response-Advances env cur next l (some (some e, m)) h k = ground arith
count_response-Advances env cur next l (some (none, m)) h k =
    let m' = record m { counter = m.counter + 1 } in
    if_rule (Advances cur next l) (m'.counter == m'.tolerance) _ _
      (λ b.
        send_collected-Advances env cur next l m' (generate_bool_map env m')
          (record {
            entered = h;
            state = k.state;
            counted = ap (λ (n : ℕ). n + 1) k.counter;
            quorum = ground arith;
            tolerance = k.tolerance;
            sent = k.sent;
          })
          (generate_bool_map-Keeps env m'))
      (λ b. (k.state, k.sent, k.tolerance, omega arith))

-- Where `handleResponse` does not panic, it reports the end of a round only in the state that the
-- round is in and with one response missing from the quorum; the leader then is in the next state,
-- has its counter reset, and has sent one message. Otherwise its state, its quorum and the messages
-- sent are as before, and its counter has not gone down.
pub handle_response-Advances :
    (env : Env) (cur next : ConsensusState) (msg : Message) (l : Lead)
    → Advances cur next l (handle_response env cur next msg l)
unfolding handle_response
handle_response-Advances env cur next msg l = elim (ConsensusState-discrete l.state cur) [
  | yes same ↦ rw (if_pos _ same) (
      count_response-Advances env cur next l (verify_and_update env msg l) same
        (verify_and_update-AllKeep env msg l))
  | no other ↦ rw (if_neg _ other) (refl, refl, refl, omega arith)
]

keep_sign2-Advances :
    (cur next : ConsensusState) (l : Lead) (sig2 : BoolMapSignature) (o : Option (Bool × Lead))
    → Advances cur next l o
    → Advances cur next l (keep_sign2 sig2 o)
unfolding keep_sign2
keep_sign2-Advances cur next l sig2 none h = tt
keep_sign2-Advances cur next l sig2 (some (false, m)) h = h
keep_sign2-Advances cur next l sig2 (some (true, m)) h = h

count_final_response-Advances :
    (env : Env) (cur next : ConsensusState) (l : Lead) (c : Option Error × Lead)
    → l.state ≡ cur
    → Keeps l c.1
    → Advances cur next l (count_final_response env next c)
unfolding count_final_response
count_final_response-Advances env cur next l (some e, m) h k = ground arith
count_final_response-Advances env cur next l (none, m) h k =
    if_rule (Advances cur next l) (m'.counter == m'.tolerance) _ _
      (λ b.
        if_rule (Advances cur next l) (second_tally env m').failed _ _
          (λ f. (k.state, k.sent, k.tolerance, omega arith))
          (λ f. keep_sign2-Advances cur next l _ _ (
            send_broadcast-Advances cur next l m' _
              (record {
                entered = h;
                state = k.state;
                counted = ap (λ (n : ℕ). n + 1) k.counter;
                quorum = ground arith;
                tolerance = k.tolerance;
                sent = k.sent;
              })
              (compose_broadcast_block-AllKeep env _ m'))))
      (λ b. (k.state, k.sent, k.tolerance, omega arith))
  where
    m' : Lead
    m' = record m { counter = m.counter + 1 }

-- Where `handleFinalResponse` does not panic, it reports the end of a round only in the state that
-- the round is in and with one response missing from the quorum; the leader then is in the next
-- state, has its counter reset, and has sent one message. Otherwise its state, its quorum and the
-- messages sent are as before, and its counter has not gone down.
pub handle_final_response-Advances :
    (env : Env) (cur next : ConsensusState) (msg : Message) (l : Lead)
    → Advances cur next l (handle_final_response env cur next msg l)
unfolding handle_final_response
handle_final_response-Advances env cur next msg l = elim (ConsensusState-discrete l.state cur) [
  | yes same ↦ rw (if_pos _ same) (
      count_final_response-Advances env cur next l (verify_sig2_and_update env msg l) same
        (verify_sig2_and_update-Keeps env msg l))
  | no other ↦ rw (if_neg _ other) (refl, refl, refl, omega arith)
]
