-- ===== src/Bft/Lead/Compose.antt =====
-- `composeFinalCollectiveSig` and `composeBroadCastBlock` of consensus_lead.go.
use okchain.Prelude.{Option, none, some, if◌then◌else◌}
use okchain.Bft.Types.{
  Block, BoolMapSignature, ConsensusType, Error, Payload, cal_state_root, marshal_message,
  seal_failed, final_collective_sig, broadcast_block, collective, plain, with_sig2,
  ds_block_consensus, micro_block_consensus, final_block_consensus, view_change_consensus,
}
use okchain.Prelude.Result.{Result, ok, err}
use okchain.Bft.Env.{Env}
use okchain.Bft.Lead.{Lead, current_block}

-- The first round's result, read from the block's header. A micro block has no case.
unfoldable pub collective_payload : Env → ConsensusType → Lead → Payload
collective_payload env micro_block_consensus l = Payload.empty
collective_payload env type l =
    let b = current_block type l in
    collective (record { bool_map = b.bool_map; signature = env.header_bytes b.signature })

unfoldable pub compose_final_collective_sig : Env → Lead → Result Error Payload
compose_final_collective_sig env l =
    let payload = collective_payload env l.current_type l in
    if env.seal final_collective_sig l.current_type payload then ok payload else err seal_failed

-- `multipleSig2.Serialize()` panics on the nil pointer that a shard's leader passes.
unfoldable pub attach :
    Block → Option BoolMapSignature → Lead → Option (Result Error Payload × Lead)
attach b none l = none
attach b (some sig2) l = some (ok (with_sig2 b sig2), l)

-- The block to broadcast. The state root and the gas of a final block are computed here.
unfoldable pub broadcast_payload :
    Env → ConsensusType → Option BoolMapSignature → Lead → Option (Result Error Payload × Lead)
broadcast_payload env ds_block_consensus sig2 l = attach l.ds_block sig2 l
broadcast_payload env micro_block_consensus sig2 l = some (ok (plain l.micro_block), l)
broadcast_payload env view_change_consensus sig2 l =
    if l.shard_lead then some (ok (plain l.vc_block), l) else attach l.vc_block sig2 l
broadcast_payload env final_block_consensus sig2 l = elim (env.calculate_state_root l.final_block) [
  | none ↦ some (err cal_state_root, l)
  | some (root, gas) ↦
      let b = record l.final_block { state_root = root; gas_used = gas } in
      attach b sig2 (record l { final_block = b })
]

-- A block that is not marshalled. The error of a final block is lost: it is assigned to the
-- variable of the inner scope, and the payload stays empty.
unfoldable pub not_marshalled : ConsensusType → Result Error Payload
not_marshalled final_block_consensus = ok Payload.empty
not_marshalled _ = err marshal_message

unfoldable pub marshal_broadcast : Env → ConsensusType → Payload → Result Error Payload
marshal_broadcast env type payload =
    if env.marshals payload then ok payload else not_marshalled type

-- The end of `composeBroadCastBlock`: the message around the bytes.
unfoldable pub seal_message : Env → Result Error Payload → Lead → Result Error Payload × Lead
seal_message env (err e) l = (err e, l)
seal_message env (ok payload) l =
    if env.seal broadcast_block l.current_type payload
    then (ok payload, l)
    else (err seal_failed, l)

unfoldable pub seal_broadcast : Env → Result Error Payload × Lead → Result Error Payload × Lead
seal_broadcast env (err e, l) = (err e, l)
seal_broadcast env (ok payload, l) =
    seal_message env (marshal_broadcast env l.current_type payload) l

unfoldable pub compose_broadcast_block :
    Env → Option BoolMapSignature → Lead → Option (Result Error Payload × Lead)
compose_broadcast_block env sig2 l = elim (broadcast_payload env l.current_type sig2 l) [
  | none ↦ none
  | some composed ↦ some (seal_broadcast env composed)
]
