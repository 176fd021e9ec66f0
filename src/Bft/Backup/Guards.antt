-- ===== src/Bft/Backup/Guards.antt =====
-- What a backup has checked before it answers, or completes a round (consensus_backup.go).
use okchain.Prelude.{
  suc, ◌≡◌, ◌⊎◌, refl, sym, ap, subst, Bool, true, false, ◌∷◌, Option, none, some, some_inj, ◌==◌,
  ==_iff, if◌then◌else◌, Bool-cases, inl, inr,
}
use okchain.Bft.Types.{
  Bytes, Error, Message, MessageType, response, final_response, announce, final_collective_sig,
  broadcast_block, incorrect_message_source, verify_message, verify_block,
}
use okchain.Bft.Env.{Env}
use okchain.Bft.Backup.{Backup, set_block}
use okchain.Bft.Backup.Sig1.{verify_block_sig1}
use okchain.Bft.Backup.Adopt.{verify_broadcast}
use okchain.Bft.Backup.Laws.{IsSigned, verify_block_sig1-IsSigned}
use okchain.Bft.Backup.Quiet.{
  Quiet, refl_Quiet, set_block-Quiet, verify_block_sig1-Quiet, verify_broadcast-Quiet,
}
use okchain.Bft.Backup.Handle.{
  Role, answer, process_message_announce, process_message_final_collective_sig,
  process_message_broadcast_block, ignore_error, dispatch_backup, process_backup_msg,
}

-- What one message makes a backup do: nothing that others see, an answer in the first round once
-- its role accepts the announced block, one in the second round on a checked collective signature,
-- or the end of the round with a checked block.
pub data Act (env : Env) (role : Role) (msg : Message) (from : Bytes) (b : Backup)
    : Backup → Type 0 where
  idle : {b' : Backup} → Quiet b b' → Act env role msg from b b'
  respond :
      {text : Bytes} {b1 : Backup}
      → Quiet b b1
      → (role.verify_block msg from b).0 ≡ none
      → Act env role msg from b (record b1 { sent = (response, text) ∷ b1.sent })
  sign :
      {text : Bytes} {b1 : Backup}
      → Quiet b b1
      → IsSigned env msg b b1
      → Act env role msg from b (record b1 { sent = (final_response, text) ∷ b1.sent })
  finish :
      {b1 : Backup}
      → Quiet b b1
      → verify_broadcast env msg b ≡ some (none, b1)
      → Act env role msg from b (record b1 { completed = suc b1.completed })

abbrev Acts : Env → Role → Message → Bytes → Backup → Option (Option Error × Backup) → Type 0
Acts env role msg from b none = Unit
Acts env role msg from b (some (e, b')) = Act env role msg from b b'

ignore_error-Acts :
    (env : Env) (role : Role) (msg : Message) (from : Bytes) (b : Backup)
    (o : Option (Option Error × Backup))
    → Acts env role msg from b o
    → Acts env role msg from b (ignore_error o)
unfolding ignore_error
ignore_error-Acts env role msg from b none a = a
ignore_error-Acts env role msg from b (some (e, b')) a = a

answer-response :
    (env : Env) (role : Role) (msg : Message) (from : Bytes) (b b1 : Backup) (o : Option Bytes)
    → Quiet b b1
    → (role.verify_block msg from b).0 ≡ none
    → Act env role msg from b (answer response o b1).1
unfolding answer
answer-response env role msg from b b1 none q h = idle q
answer-response env role msg from b b1 (some text) q h = respond q h

answer-final_response :
    (env : Env) (role : Role) (msg : Message) (from : Bytes) (b b1 : Backup) (o : Option Bytes)
    → Quiet b b1
    → IsSigned env msg b b1
    → Act env role msg from b (answer final_response o b1).1
unfolding answer
answer-final_response env role msg from b b1 none q h = idle q
answer-final_response env role msg from b b1 (some text) q h = sign q h

process_message_announce-Act :
    (env : Env) (role : Role) (msg : Message) (from : Bytes) (b : Backup)
    → Act env role msg from b (process_message_announce env role msg from b).1
unfolding process_message_announce
process_message_announce-Act env role msg from b =
    go (env.message_verify msg) (role.verify_block msg from b).0 refl
  where
    b1 : Backup
    b1 = set_block (role.verify_block msg from b).1 b

    go :
        (t : Bool) (failed : Option Error)
        → (role.verify_block msg from b).0 ≡ failed
        → let r : Option Error × Backup =
            if t
            then (elim failed [
              | some e ↦ (some verify_block, b1)
              | none ↦ answer response (role.compose_response b1) b1
            ])
            else (some verify_message, b) in
          Act env role msg from b r.1
    go false failed h = idle (refl_Quiet b)
    go true none h = answer-response env role msg from b b1 _ (set_block-Quiet _ b) h
    go true (some e) h = idle (set_block-Quiet _ b)

process_message_final_collective_sig-Acts :
    (env : Env) (role : Role) (msg : Message) (from : Bytes) (b : Backup)
    → Acts env role msg from b (process_message_final_collective_sig env role msg b)
unfolding process_message_final_collective_sig
process_message_final_collective_sig-Acts env role msg from b =
    go (env.message_verify msg) (verify_block_sig1 env msg b) refl
  where
    go :
        (t : Bool) (o : Option (Option Error × Backup))
        → verify_block_sig1 env msg b ≡ o
        → Acts env role msg from b (
            if t
            then (elim o [
              | none ↦ none
              | some (some e, b1) ↦ some (some verify_message, b1)
              | some (none, b1) ↦ some (answer final_response (role.compose_final_response b1) b1)
            ])
            else some (some verify_message, b))
    go false o h = idle (refl_Quiet b)
    go true none h = tt
    go true (some (some e, b1)) h = idle (verify_block_sig1-Quiet env msg b (some e) b1 h)
    go true (some (none, b1)) h =
        answer-final_response env role msg from b b1 _ (verify_block_sig1-Quiet env msg b none b1 h)
          (verify_block_sig1-IsSigned env msg b b1 h)

process_message_broadcast_block-Acts :
    (env : Env) (role : Role) (msg : Message) (from : Bytes) (b : Backup)
    → Acts env role msg from b (process_message_broadcast_block env msg b)
unfolding process_message_broadcast_block
process_message_broadcast_block-Acts env role msg from b =
    go (env.message_verify msg) (verify_broadcast env msg b) refl
  where
    go :
        (t : Bool) (o : Option (Option Error × Backup))
        → verify_broadcast env msg b ≡ o
        → Acts env role msg from b (
            if t
            then (elim o [
              | none ↦ none
              | some (some e, b1) ↦ some (some verify_message, b1)
              | some (none, b1) ↦
                  some (env.on_consensus_completed none, record b1 { completed = suc b1.completed })
            ])
            else some (some verify_message, b))
    go false o h = idle (refl_Quiet b)
    go true none h = tt
    go true (some (some e, b1)) h = idle (verify_broadcast-Quiet env msg b (some e) b1 h)
    go true (some (none, b1)) h = finish (verify_broadcast-Quiet env msg b none b1 h) h

dispatch_backup-Acts :
    (env : Env) (role : Role) (type : MessageType) (msg : Message) (from : Bytes) (b : Backup)
    → Acts env role msg from b (dispatch_backup env role type msg from b)
unfolding dispatch_backup
dispatch_backup-Acts env role announce msg from b =
    ignore_error-Acts env role msg from b (some (process_message_announce env role msg from b))
      (process_message_announce-Act env role msg from b)
dispatch_backup-Acts env role final_collective_sig msg from b =
    ignore_error-Acts env role msg from b _
      (process_message_final_collective_sig-Acts env role msg from b)
dispatch_backup-Acts env role broadcast_block msg from b =
    ignore_error-Acts env role msg from b _
      (process_message_broadcast_block-Acts env role msg from b)
dispatch_backup-Acts env role _ msg from b = idle (refl_Quiet b)

-- Whatever message arrives from whatever endpoint, a backup that does not panic does one of four
-- things: it sends nothing and completes no round; or it sends one response, its role having
-- accepted the announced block; or it sends one final response, having checked the leader's
-- collective signature of its own block; or it completes the round, having checked the block that
-- it takes over. From another endpoint than the leader it changes nothing.
pub process_backup_msg-Act :
    (env : Env) (role : Role) (msg : Message) (from : Bytes) (b b' : Backup) (e : Option Error)
    → process_backup_msg env role msg from b ≡ some (e, b')
    → Act env role msg from b b' × ((b.leader ≡ from) ⊎ (b' ≡ b))
unfolding process_backup_msg
process_backup_msg-Act env role msg from b b' e h = elim (Bool-cases (b.leader == from)) [
  | inl t ↦
      let handled : dispatch_backup env role msg.type msg from b ≡ some (e, b') = rw t at h in
      let same = (==_iff b.leader from).0 t in
      (
        subst (Acts env role msg from b) handled
            (dispatch_backup-Acts env role msg.type msg from b),
        inl same,
      )
  | inr f ↦
      let refused : some (some incorrect_message_source, b) ≡ some (e, b') = rw f at h in
      let kept = ap (λ (p : Option Error × Backup). p.1) (some_inj refused) in
      (idle (subst (Quiet b) kept (refl_Quiet b)), inr (sym kept))
]
