-- ===== src/Bft/Lead/Verify.antt =====
-- `verifyAndUpdate` and `verifySig2AndUpdate` of consensus_lead.go: one response of a backup.
pub mod Laws
pub mod Final
use mathlib.Core.Logic.{ite}
use okchain.Prelude.{
  ℕ, Bool, true, false, not, ◌&&◌, ◌||◌, List, [], ◌∷◌, ◌++◌, Option, none, some, if◌then◌else◌,
}
use okchain.Prelude.Result.{Result, ok, err}
use okchain.Bft.Types.{
  Bytes, Block, Block-discrete, ConsensusType, Error, Message, unmarshal_message, verify_message,
  verify_block, get_coin_base, cannot_process, deserialize_failed, ds_block_consensus,
  micro_block_consensus, final_block_consensus, view_change_consensus,
}
use okchain.Bft.Env.{Env}
use okchain.Bft.Committee.{Vote, put_vote}
use okchain.Bft.Lead.{Lead, current_block, put_block}

-- A response names its sender's key, as `msg.Peer.Pubkey`.
abbrev pub sender_key : Env → Message → ℕ
sender_key env msg = (env.read_key msg.pubkey).0

-- The cases of `DSBlock`, `MicroBlock` and `VCBlock`: the block must be the leader's but for the
-- signature, which must verify.
unfoldable pub check_block : Env → ConsensusType → ℕ → Lead → Block → Result Error Bool
check_block env type key l block =
    ite (Block-discrete (current_block type l) (record block { signature = none }))
      (ok (env.bls_verify (env.read_sig block.signature).0 key (env.hash type block)))
      (err verify_block)

-- The case of `TxBlock`, `coinbase` being `l.final_block.ds_coin_base`. Its first entry is read
-- at once; on a block that differs the leader's list stays cut to two entries.
unfoldable pub check_final :
    Env → ℕ → Bytes → List Bytes → Bytes → Lead → Block → Result Error Bool × Lead
check_final env key c0 coinbase ptocoin l block =
    let l1 = record l { final_block = record l.final_block { ds_coin_base = c0 ∷ ptocoin ∷ [] } } in
    let txblock = record block { ds_coin_base = c0 ∷ [] } in
    let grown = record l.final_block { ds_coin_base = coinbase ++ ptocoin ∷ [] } in
    ite (Block-discrete l1.final_block (record block { signature = none }))
      (
        ok (
            env.bls_verify (env.read_sig block.signature).0 key
              (env.hash final_block_consensus txblock)),
        record l { final_block = grown },
      )
      (err verify_block, l1)

-- `none` is the panic of `coinbase[0]` on an empty list.
unfoldable pub check_tx_block : Env → ℕ → Lead → Block → Option (Result Error Bool × Lead)
check_tx_block env key l block = elim (env.coinbase_of (env.serialize_key key)) [
  | none ↦ some (err get_coin_base, l)
  | some ptocoin ↦ elim l.final_block.ds_coin_base [
    | [] ↦ none
    | c0 ∷ rest ↦ some (check_final env key c0 (c0 ∷ rest) ptocoin l block)
  ]
]

unfoldable pub check_response :
    Env → ConsensusType → ℕ → Lead → Block → Option (Result Error Bool × Lead)
check_response env final_block_consensus key l block = check_tx_block env key l block
check_response env ds_block_consensus key l block =
    some (check_block env ds_block_consensus key l block, l)
check_response env micro_block_consensus key l block =
    some (check_block env micro_block_consensus key l block, l)
check_response env view_change_consensus key l block =
    some (check_block env view_change_consensus key l block, l)

-- The writes to the three maps, or the error of a signature that does not verify.
unfoldable pub record_vote : Env → ℕ → ℕ → Result Error Bool × Lead → Option Error × Lead
record_vote env key sign (err e, l) = (some e, l)
record_vote env key sign (ok false, l) = (some verify_message, l)
record_vote env key sign (ok true, l) = (
  none,
  record l { votes = put_vote (record { voter = env.hex key; sign = sign; key = key }) l.votes },
)

unfoldable pub update_votes :
    Env → ℕ → ℕ → Option (Result Error Bool × Lead) → Option (Option Error × Lead)
update_votes env key sign none = none
update_votes env key sign (some checked) = some (record_vote env key sign checked)

-- `verifyAndUpdate`: its error and the leader as it leaves it.
unfoldable pub verify_and_update : Env → Message → Lead → Option (Option Error × Lead)
verify_and_update env msg l = elim (env.read_payload msg.payload) [
  | none ↦ some (some unmarshal_message, l)
  | some bytes ↦ elim (env.read_block l.current_type bytes) [
    | none ↦ some (some unmarshal_message, l)
    | some block ↦
        let key = sender_key env msg in
        update_votes env key (env.read_sig block.signature).0
          (check_response env l.current_type key l block)
  ]
]

-- Whether a consensus of this type is held among the shard's nodes, in one round.
abbrev pub in_shard : ConsensusType → Lead → Bool
in_shard micro_block_consensus l = true
in_shard view_change_consensus l = l.vc_block.stage_is_micro
in_shard ds_block_consensus l = false
in_shard final_block_consensus l = false

-- `verifySig2AndUpdate`: a second signature is on the first round's multi-signature.
unfoldable pub verify_sig2_and_update : Env → Message → Lead → Option Error × Lead
verify_sig2_and_update env msg l =
    let key = sender_key env msg in
    if in_shard l.current_type l
    then (some cannot_process, l)
    else elim (env.read_payload msg.payload) [
      | none ↦ (some unmarshal_message, l)
      | some bytes ↦
          let (sign, read) = env.read_sig (some bytes) in
          let first = env.header_bytes (current_block l.current_type l).signature in
          if read
          then record_vote env key sign (ok (env.bls_verify sign key first), l)
          else (some deserialize_failed, l)
    ]
