-- ===== src/Bft/Lead/Handle/Unsent.antt =====
-- The leader (consensus_lead.go) at the quorum where no message can be composed.
use mathlib.Core.Logic.{if_pos}
use okchain.Prelude.{
  ◌+◌, ◌==◌, ◌≡◌, ◌≤◌, ap, ◌∙◌, subst, Bool, true, false, Option, none, some, if_rule, arith,
  if◌then◌else◌,
}
use okchain.Prelude.Result.{Result, ok, err}
use okchain.Bft.Types.{
  Bytes, ConsensusState, Error, Message, MessageType, Payload, announce_done,
  final_collective_sig_done, broadcast_block_done, response, final_collective_sig, broadcast_block,
}
use okchain.Bft.Env.{Env}
use okchain.Bft.Lead.{Lead}
use okchain.Bft.Lead.Verify.{verify_and_update}
use okchain.Bft.Lead.Collect.{generate_bool_map}
use okchain.Bft.Lead.Compose.{compose_final_collective_sig, compose_broadcast_block}
use okchain.Bft.Lead.Keeps.{
  Keeps, AllKeep, verify_and_update-AllKeep, generate_bool_map-Keeps,
  compose_broadcast_block-AllKeep,
}
use okchain.Bft.Lead.Handle.{
  send_next, send_broadcast, send_collected, count_response, handle_response, end_response,
  process_message_response, has, drop_error, dispatch, process_consensus_msg,
}

-- The message is a genuine response of a backup in the first round, recorded, and the quorum's
-- last; but no message follows it: the collected signatures or the message could not be composed.
pub record IsUnsent (env : Env) (msg : Message) (from : Bytes) (l : Lead) : Type 0 where
  pub backup : has l.backup_nodes from ≡ true
  pub type : msg.type ≡ response
  pub authentic : env.message_verify msg ≡ true
  pub state : l.state ≡ announce_done
  pub voted : Lead
  pub recorded : verify_and_update env msg l ≡ some (none, voted)
  pub last : voted.counter + 1 ≡ voted.tolerance
  pub left : Lead
  pub unsent :
      send_collected env
        (if l.shard_lead then broadcast_block_done else final_collective_sig_done)
        (generate_bool_map env (record voted { counter = voted.counter + 1 }))
      ≡ some (false, left)

-- What is left where no message was sent.
abbrev Unmoved : Lead → Option (Bool × Lead) → Type 0
Unmoved l none = Unit
Unmoved l (some (true, m)) = Unit
Unmoved l (some (false, m)) = Keeps l m

trans_Keeps : (a b c : Lead) → Keeps a b → Keeps b c → Keeps a c
trans_Keeps a b c h k = record {
  state = k.state ∙ h.state;
  counter = k.counter ∙ h.counter;
  tolerance = k.tolerance ∙ h.tolerance;
  sent = k.sent ∙ h.sent;
  shard_lead = k.shard_lead ∙ h.shard_lead;
}

send_next-Unmoved :
    (next : ConsensusState) (type : MessageType) (l : Lead) (c : Result Error Payload × Lead)
    → Keeps l c.1
    → Unmoved l (some (send_next next type c))
unfolding send_next
send_next-Unmoved next type l (err e, m) k = k
send_next-Unmoved next type l (ok payload, m) k = tt

send_broadcast-Unmoved :
    (next : ConsensusState) (l m : Lead) (o : Option (Result Error Payload × Lead))
    → Keeps l m
    → AllKeep m o
    → Unmoved l (send_broadcast next o)
unfolding send_broadcast
send_broadcast-Unmoved next l m none h k = tt
send_broadcast-Unmoved next l m (some (c, m')) h k =
    send_next-Unmoved next broadcast_block l (c, m') (trans_Keeps l m m' h k)

send_collected-Unmoved :
    (env : Env) (next : ConsensusState) (l : Lead) (c : Option Error × Lead)
    → Keeps l c.1
    → Unmoved l (send_collected env next c)
unfolding send_collected
send_collected-Unmoved env next l (some e, m) k = k
send_collected-Unmoved env next l (none, m) k =
    if_rule (Unmoved l) m.shard_lead _ _
      (λ b.
        send_broadcast-Unmoved next l m (compose_broadcast_block env none m) k
          (compose_broadcast_block-AllKeep env none m))
      (λ b. send_next-Unmoved next final_collective_sig l (compose_final_collective_sig env m, m) k)

count_response_unsent :
    (env : Env) (next : ConsensusState) (voted left : Lead)
    → voted.counter + 1 ≡ voted.tolerance
    → send_collected env next (generate_bool_map env (record voted { counter = voted.counter + 1 }))
      ≡ some (false, left)
    → count_response env next (some (none, voted)) ≡ some (false, left)
unfolding count_response
count_response_unsent env next voted left last unsent =
    let full : (voted.counter + 1 == voted.tolerance) ≡ true = ground arith in
    rw (count_response, full) unsent

response_unsent :
    (env : Env) (msg : Message) (from : Bytes) (l : Lead)
    → (u : IsUnsent env msg from l) → process_message_response env msg l ≡ some (none, u.left)
unfolding process_message_response handle_response end_response
response_unsent env msg from l u =
    let next = if l.shard_lead then broadcast_block_done else final_collective_sig_done in
    let handled : handle_response env announce_done next msg l ≡ some (false, u.left) =
      rw (handle_response, if_pos _ u.state)
        (ap (count_response env next) u.recorded
          ∙ count_response_unsent env next u.voted u.left u.last u.unsent) in
    rw (process_message_response, u.authentic) (ap (end_response env) handled)

pub process_unsent :
    (env : Env) (msg : Message) (from : Bytes) (l : Lead)
    → (u : IsUnsent env msg from l) → process_consensus_msg env msg from l ≡ some (none, u.left)
unfolding process_consensus_msg dispatch drop_error
process_unsent env msg from l u =
    rw (process_consensus_msg, u.backup)
      (ap (λ (t : MessageType). dispatch env t msg l) u.type
        ∙ ap drop_error (response_unsent env msg from l u))

-- What is left is at the quorum, in the state and with the messages of before.
pub unsent_full :
    (env : Env) (msg : Message) (from : Bytes) (l : Lead)
    → (u : IsUnsent env msg from l)
    → (u.left.state ≡ l.state) × (u.left.sent ≡ l.sent) × (u.left.tolerance ≤ u.left.counter)
unsent_full env msg from l u =
    let voted = subst (AllKeep l) u.recorded (verify_and_update-AllKeep env msg l) in
    let counted : Lead = record u.voted { counter = u.voted.counter + 1 } in
    let next = if l.shard_lead then broadcast_block_done else final_collective_sig_done in
    let left = subst (Unmoved counted) u.unsent (
      send_collected-Unmoved env next counted (generate_bool_map env counted)
        (generate_bool_map-Keeps env counted)) in
    (
      left.state ∙ voted.state,
      left.sent ∙ voted.sent,
      ground (arith, left.tolerance, left.counter, u.last),
    )
