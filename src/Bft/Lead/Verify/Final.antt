-- ===== src/Bft/Lead/Verify/Final.antt =====
-- What `verifyAndUpdate` (consensus_lead.go) does to the leader's final block.
use mathlib.Core.Logic.{if_pos, if_neg}
use okchain.Prelude.{
  ◌≡◌, ◌≢◌, refl, sym, ap, ◌∙◌, subst, true, List, [], ◌∷◌, ◌++◌, Option, none, some, inl, inr,
  arith, Bool, Bool-cases, ℕ,
}
use okchain.Prelude.Result.{Result}
use okchain.Bft.Types.{
  Bytes, Block, Block-discrete, ConsensusType, Error, Message, verify_block, verify_message,
  final_block_consensus,
}
use okchain.Bft.Env.{Env}
use okchain.Bft.Committee.{put_vote}
use okchain.Bft.Lead.{Lead}
use okchain.Bft.Lead.Verify.{
  sender_key, check_final, check_tx_block, check_response, record_vote, update_votes,
  verify_and_update,
}
use okchain.Bft.Lead.Verify.Laws.{vote_of}

-- The leader's final block with its coinbase list cut to the first entry and the sender's, which a
-- response's block is compared with, and with the sender's coinbase appended.
abbrev pub cut_block : Lead → Bytes → Bytes → Block
cut_block l c0 p = record l.final_block { ds_coin_base = c0 ∷ p ∷ [] }

abbrev pub grown_block : Lead → Bytes → Block
grown_block l p = record l.final_block { ds_coin_base = l.final_block.ds_coin_base ++ p ∷ [] }

-- The signature of a response's block verifies on the block with the first coinbase alone.
abbrev pub IsSignedFinal : Env → ℕ → Block → Bytes → Type 0
IsSignedFinal env key block c0 =
    env.bls_verify (env.read_sig block.signature).0 key
      (env.hash final_block_consensus (record block { ds_coin_base = c0 ∷ [] }))
    ≡ true

-- After a response with this block, whose sender has the coinbase `p`: where it differs from the
-- cut block, the list stays cut; else it has grown, whether or not the signature verifies, and the
-- vote is recorded exactly if it does.
pub record IsTried (env : Env) (msg : Message) (block : Block) (c0 p : Bytes) (l : Lead)
    (e : Option Error) (l' : Lead) : Type 0 where
  pub differs :
      cut_block l c0 p ≢ record block { signature = none }
      → (e ≡ some verify_block) × (l' ≡ record l { final_block = cut_block l c0 p })
  pub forged :
      cut_block l c0 p ≡ record block { signature = none }
      → ¬ IsSignedFinal env (sender_key env msg) block c0
      → (e ≡ some verify_message) × (l' ≡ record l { final_block = grown_block l p })
  pub recorded :
      cut_block l c0 p ≡ record block { signature = none }
      → IsSignedFinal env (sender_key env msg) block c0
      → (e ≡ none)
        × (l' ≡ record l {
          final_block = grown_block l p;
          votes = put_vote (vote_of env msg block) l.votes;
        })

abbrev pub EndsTried :
    Env → Message → Block → Bytes → Bytes → Lead → Option (Option Error × Lead) → Type 0
EndsTried env msg block c0 p l none = ⊥
EndsTried env msg block c0 p l (some (e, l')) = IsTried env msg block c0 p l e l'

check_final-EndsTried :
    (env : Env) (msg : Message) (block : Block) (l : Lead) (c0 p : Bytes)
    → (let key = sender_key env msg in
        EndsTried env msg block c0 p l (
          update_votes env key
            (env.read_sig block.signature).0
            (some (check_final env key c0 l.final_block.ds_coin_base p l block))))
unfolding check_final update_votes record_vote
check_final-EndsTried env msg block l c0 p =
    let key = sender_key env msg in
    let sign = (env.read_sig block.signature).0 in
    let b =
      env.bls_verify sign key
        (env.hash final_block_consensus (record block { ds_coin_base = c0 ∷ [] })) in
    elim (Block-discrete (cut_block l c0 p) (record block { signature = none })) [
      | no other ↦ rw (if_neg _ other) (record {
        differs = λ d. (refl, refl);
        forged = λ same. absurd (other same);
        recorded = λ same. absurd (other same);
      })
      | yes same ↦ rw (if_pos _ same) (elim (Bool-cases b) [
        | inl good ↦
            rw (good, record_vote)
              (record {
                differs = λ d. absurd (d same);
                forged = λ q f. absurd (f good);
                recorded = λ q g. (refl, refl);
              })
        | inr bad ↦
            rw (bad, record_vote)
              (record {
                differs = λ d. absurd (d same);
                forged = λ q f. (refl, refl);
                recorded = λ q g. absurd (ground arith);
              })
      ])
    ]

check_tx_block_lem :
    (env : Env) (key : ℕ) (l : Lead) (block : Block) (c0 : Bytes) (rest : List Bytes) (p : Bytes)
    → env.coinbase_of (env.serialize_key key) ≡ some p
    → l.final_block.ds_coin_base ≡ c0 ∷ rest
    → check_tx_block env key l block
      ≡ some (check_final env key c0 l.final_block.ds_coin_base p l block)
unfolding check_tx_block
check_tx_block_lem env key l block c0 rest p hc h =
    rw (check_tx_block, hc)
      (ap with_list h
        ∙ ap (λ (cs : List Bytes). some (check_final env key c0 cs p l block)) (sym h))
  where
    with_list : List Bytes → Option (Result Error Bool × Lead)
    with_list [] = none
    with_list (c ∷ cs) = some (check_final env key c (c ∷ cs) p l block)

verify_and_update_final :
    (env : Env) (msg : Message) (l : Lead) (bytes : Bytes) (block : Block) (c0 : Bytes)
    (rest : List Bytes) (p : Bytes)
    → l.current_type ≡ final_block_consensus
    → env.read_payload msg.payload ≡ some bytes
    → env.read_block final_block_consensus bytes ≡ some block
    → env.coinbase_of (env.serialize_key (sender_key env msg)) ≡ some p
    → l.final_block.ds_coin_base ≡ c0 ∷ rest
    → (let key = sender_key env msg in
        verify_and_update env msg l
        ≡ update_votes env key
            (env.read_sig block.signature).0
            (some (check_final env key c0 l.final_block.ds_coin_base p l block)))
unfolding verify_and_update check_response
verify_and_update_final env msg l bytes block c0 rest p t hp hb hc h =
    let key = sender_key env msg in
    let sign = (env.read_sig block.signature).0 in
    let hb' : env.read_block l.current_type bytes ≡ some block =
      subst (λ (c : ConsensusType). env.read_block c bytes ≡ some block) (sym t) hb in
    let checked : check_response env l.current_type key l block
        ≡ some (check_final env key c0 l.final_block.ds_coin_base p l block) =
      ap (λ (c : ConsensusType). check_response env c key l block) t
      ∙ check_tx_block_lem env key l block c0 rest p hc h in
    rw (verify_and_update, hp, hb') (ap (update_votes env key sign) checked)

-- A response in the final block's consensus whose sender has a coinbase changes the coinbase list
-- of the leader's own block whatever comes of it. Where the block differs from the leader's with
-- the list cut to its first entry and the sender's, `verifyAndUpdate` fails and the list stays cut;
-- where it agrees, the sender's coinbase is appended, also when the signature does not verify, and
-- the vote is recorded exactly if it verifies on the block with the first coinbase alone. Nothing
-- else changes.
pub verify_and_update-EndsTried :
    (env : Env) (msg : Message) (l : Lead) (bytes : Bytes) (block : Block) (c0 : Bytes)
    (rest : List Bytes) (p : Bytes)
    → l.current_type ≡ final_block_consensus
    → env.read_payload msg.payload ≡ some bytes
    → env.read_block final_block_consensus bytes ≡ some block
    → env.coinbase_of (env.serialize_key (sender_key env msg)) ≡ some p
    → l.final_block.ds_coin_base ≡ c0 ∷ rest
    → EndsTried env msg block c0 p l (verify_and_update env msg l)
verify_and_update-EndsTried env msg l bytes block c0 rest p t hp hb hc h =
    subst (EndsTried env msg block c0 p l)
      (sym (verify_and_update_final env msg l bytes block c0 rest p t hp hb hc h))
      (check_final-EndsTried env msg block l c0 p)
