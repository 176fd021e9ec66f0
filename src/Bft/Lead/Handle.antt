-- ===== src/Bft/Lead/Handle.antt =====
-- The handlers of consensus_lead.go. `none` is a panic; of a goroutine's multicast only the message
-- is kept, its failure is logged by the source and has no effect.
pub mod Laws
pub mod Unsent
pub mod Runs
pub mod Replay
use mathlib.Core.Logic.{ite}
use okchain.Prelude.{
  ℕ, ◌+◌, Bool, true, false, List, [], ◌∷◌, Option, none, some, ◌==◌, if◌then◌else◌,
}
use okchain.Prelude.Result.{Result, ok, err}
use okchain.Bft.Types.{
  Bytes, BoolMapSignature, ConsensusState, ConsensusState-discrete, Error, Message, MessageType,
  Payload, verify_message, invalid_message, incorrect_message_source, announce_done,
  final_collective_sig_done, broadcast_block_done, final_collective_sig, broadcast_block, response,
  final_response,
}
use okchain.Bft.Env.{Env}
use okchain.Bft.Committee.{Tally, tally, sort_peers}
use okchain.Bft.Lead.{Lead}
use okchain.Bft.Lead.Verify.{verify_and_update, verify_sig2_and_update}
use okchain.Bft.Lead.Collect.{generate_bool_map}
use okchain.Bft.Lead.Compose.{compose_final_collective_sig, compose_broadcast_block}

-- The counter and the state are reset only where the message could be composed.
unfoldable pub send_next : ConsensusState → MessageType → Result Error Payload × Lead → Bool × Lead
send_next next type (err e, l) = (false, l)
send_next next type (ok payload, l) =
    (true, record l { counter = 0; state = next; sent = (type, payload) ∷ l.sent })

unfoldable pub send_broadcast :
    ConsensusState → Option (Result Error Payload × Lead) → Option (Bool × Lead)
send_broadcast next none = none
send_broadcast next (some composed) = some (send_next next broadcast_block composed)

-- `handleResponse` at the quorum, after `generateBoolMap`. A shard has one round of signatures.
unfoldable pub send_collected : Env → ConsensusState → Option Error × Lead → Option (Bool × Lead)
send_collected env next (some e, l) = some (false, l)
send_collected env next (none, l) =
    if l.shard_lead
    then send_broadcast next (compose_broadcast_block env none l)
    else some (send_next next final_collective_sig (compose_final_collective_sig env l, l))

-- `handleResponse` from the counter on.
unfoldable pub count_response :
    Env → ConsensusState → Option (Option Error × Lead) → Option (Bool × Lead)
count_response env next none = none
count_response env next (some (some e, l)) = some (false, l)
count_response env next (some (none, l)) =
    let l' = record l { counter = l.counter + 1 } in
    if l'.counter == l'.tolerance
    then send_collected env next (generate_bool_map env l')
    else some (false, l')

unfoldable pub handle_response :
    Env → ConsensusState → ConsensusState → Message → Lead → Option (Bool × Lead)
handle_response env cur next msg l =
    ite (ConsensusState-discrete l.state cur)
      (count_response env next (verify_and_update env msg l)) (some (false, l))

abbrev pub second_tally : Env → Lead → Tally
second_tally env l =
    tally env l.votes (sort_peers env l.committee)
      (record { bool_map = []; sign = env.zero_sig; key = env.zero_key; failed = false })

abbrev pub second_sign : Env → Tally → BoolMapSignature
second_sign env t = record { bool_map = t.bool_map; signature = env.serialize_sig t.sign }

unfoldable pub keep_sign2 : BoolMapSignature → Option (Bool × Lead) → Option (Bool × Lead)
keep_sign2 sig2 none = none
keep_sign2 sig2 (some (false, l)) = some (false, l)
keep_sign2 sig2 (some (true, l)) = some (true, record l { bool_map_sign2 = sig2 })

-- `handleFinalResponse` from the counter on.
unfoldable pub count_final_response :
    Env → ConsensusState → Option Error × Lead → Option (Bool × Lead)
count_final_response env next (some e, l) = some (false, l)
count_final_response env next (none, l) =
    let l' = record l { counter = l.counter + 1 } in
    let t = second_tally env l' in
    let sig2 = second_sign env t in
    let sent = keep_sign2 sig2 (send_broadcast next (compose_broadcast_block env (some sig2) l')) in
    if l'.counter == l'.tolerance
    then (if t.failed then some (false, l') else sent)
    else some (false, l')

unfoldable pub handle_final_response :
    Env → ConsensusState → ConsensusState → Message → Lead → Option (Bool × Lead)
handle_final_response env cur next msg l =
    ite (ConsensusState-discrete l.state cur)
      (count_final_response env next (verify_sig2_and_update env msg l)) (some (false, l))

-- The reset after a round, and the call of the role's `OnConsensusCompleted`.
abbrev pub reset : Lead → Lead
reset l = record l { counter = 0; votes = [] }

abbrev pub complete : Env → Option BoolMapSignature → Lead → Option Error × Lead
complete env sig2 l = (env.on_consensus_completed sig2, record l { completed = sig2 ∷ l.completed })

unfoldable pub end_response : Env → Option (Bool × Lead) → Option (Option Error × Lead)
end_response env none = none
end_response env (some (false, l)) = some (none, l)
end_response env (some (true, l)) =
    some (if l.shard_lead then complete env none (reset l) else (none, reset l))

unfoldable pub end_final_response : Env → Option (Bool × Lead) → Option (Option Error × Lead)
end_final_response env none = none
end_final_response env (some (false, l)) = some (none, l)
end_final_response env (some (true, l)) = some (complete env (some l.bool_map_sign2) (reset l))

unfoldable pub process_message_response : Env → Message → Lead → Option (Option Error × Lead)
process_message_response env msg l =
    let next = if l.shard_lead then broadcast_block_done else final_collective_sig_done in
    let handled = end_response env (handle_response env announce_done next msg l) in
    if env.message_verify msg then handled else some (some verify_message, l)

unfoldable pub process_message_final_response : Env → Message → Lead → Option (Option Error × Lead)
process_message_final_response env msg l =
    let handled =
      end_final_response env
        (handle_final_response env final_collective_sig_done broadcast_block_done msg l) in
    if env.message_verify msg then handled else some (some verify_message, l)

-- `PeerEndpointList.Has`
unfoldable pub has : List Bytes → Bytes → Bool
has [] p = false
has (q ∷ qs) p = let rest = has qs p in if q == p then true else rest

-- The error of a handler is dropped.
unfoldable pub drop_error : Option (Option Error × Lead) → Option (Option Error × Lead)
drop_error none = none
drop_error (some (e, l)) = some (none, l)

unfoldable pub dispatch : Env → MessageType → Message → Lead → Option (Option Error × Lead)
dispatch env response msg l = drop_error (process_message_response env msg l)
dispatch env final_response msg l = drop_error (process_message_final_response env msg l)
dispatch env _ msg l = some (some invalid_message, l)

-- `ProcessConsensusMsg`
unfoldable pub process_consensus_msg : Env → Message → Bytes → Lead → Option (Option Error × Lead)
process_consensus_msg env msg from l =
    if has l.backup_nodes from
    then dispatch env msg.type msg l
    else some (some incorrect_message_source, l)
