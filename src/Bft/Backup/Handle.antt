-- ===== src/Bft/Backup/Handle.antt =====
-- The handlers of consensus_backup.go, and what they call of consense_handler.go.
use okchain.Prelude.{suc, ◌∷◌, Option, none, some, ◌==◌, if◌then◌else◌}
use okchain.Bft.Types.{
  Block, Bytes, Error, Message, MessageType, verify_message, verify_block, compose_message,
  invalid_message, incorrect_message_source, announce, response, final_collective_sig,
  final_response, broadcast_block,
}
use okchain.Bft.Env.{Env}
use okchain.Bft.Backup.{Backup, set_block}
use okchain.Bft.Backup.Sig1.{verify_block_sig1}
use okchain.Bft.Backup.Adopt.{verify_broadcast}

-- The methods of the interface `IRole` that a backup calls: `VerifyBlock`, with the current block
-- as it leaves it, and the two that compose a response.
pub record Role : Type 0 where
  pub verify_block : Message → Bytes → Backup → Option Error × Block
  pub compose_response : Backup → Option Bytes
  pub compose_final_response : Backup → Option Bytes

-- `send2Lead`, of a response that could be composed.
unfoldable pub answer : MessageType → Option Bytes → Backup → Option Error × Backup
answer type none b = (some compose_message, b)
answer type (some text) b = (none, record b { sent = (type, text) ∷ b.sent })

-- `processMessageAnnounce`
unfoldable pub process_message_announce :
    Env → Role → Message → Bytes → Backup → Option Error × Backup
process_message_announce env role msg from b =
    if env.message_verify msg
    then (let (failed, block) = role.verify_block msg from b in
        let b1 = set_block block b in
        elim failed [
          | some e ↦ (some verify_block, b1)
          | none ↦ answer response (role.compose_response b1) b1
        ])
    else (some verify_message, b)

-- `processMessageFinalCollectiveSig`
unfoldable pub process_message_final_collective_sig :
    Env → Role → Message → Backup → Option (Option Error × Backup)
process_message_final_collective_sig env role msg b =
    if env.message_verify msg
    then (elim (verify_block_sig1 env msg b) [
      | none ↦ none
      | some (some e, b1) ↦ some (some verify_message, b1)
      | some (none, b1) ↦ some (answer final_response (role.compose_final_response b1) b1)
    ])
    else some (some verify_message, b)

-- `processMessageBroadCastBlock`
unfoldable pub process_message_broadcast_block :
    Env → Message → Backup → Option (Option Error × Backup)
process_message_broadcast_block env msg b =
    if env.message_verify msg
    then (elim (verify_broadcast env msg b) [
      | none ↦ none
      | some (some e, b1) ↦ some (some verify_message, b1)
      | some (none, b1) ↦
          some (env.on_consensus_completed none, record b1 { completed = suc b1.completed })
    ])
    else some (some verify_message, b)

-- The errors of the handlers are dropped.
unfoldable pub ignore_error : Option (Option Error × Backup) → Option (Option Error × Backup)
ignore_error none = none
ignore_error (some (e, b)) = some (none, b)

unfoldable pub dispatch_backup :
    Env → Role → MessageType → Message → Bytes → Backup → Option (Option Error × Backup)
dispatch_backup env role announce msg from b =
    ignore_error (some (process_message_announce env role msg from b))
dispatch_backup env role final_collective_sig msg from b =
    ignore_error (process_message_final_collective_sig env role msg b)
dispatch_backup env role broadcast_block msg from b =
    ignore_error (process_message_broadcast_block env msg b)
dispatch_backup env role _ msg from b = some (some invalid_message, b)

-- `ProcessConsensusMsg` of a backup.
unfoldable pub process_backup_msg :
    Env → Role → Message → Bytes → Backup → Option (Option Error × Backup)
process_backup_msg env role msg from b =
    if b.leader == from
    then dispatch_backup env role msg.type msg from b
    else some (some incorrect_message_source, b)
