-- ===== src/Bft/Lead/Verify/Laws.antt =====
-- When `verifyAndUpdate` (consensus_lead.go) records a vote, and what it leaves alone.
use mathlib.Core.Logic.{if_pos}
use okchain.Prelude.{
  some_inj, ℕ, ◌≡◌, ◌≢◌, refl, sym, ap, Bool, true, false, Option, none, some, inl, inr, arith,
  Option-cases,
}
use okchain.Prelude.Result.{Result, ok, err}
use okchain.Bft.Types.{
  Bytes, Block, Block-discrete, ConsensusType, Error, Message, ds_block_consensus,
  micro_block_consensus, final_block_consensus, view_change_consensus,
}
use okchain.Bft.Env.{Env}
use okchain.Bft.Committee.{Vote, put_vote}
use okchain.Bft.Lead.{Lead, current_block}
use okchain.Bft.Lead.Verify.{
  sender_key, check_block, check_response, record_vote, update_votes, verify_and_update,
}

abbrev pub vote_of : Env → Message → Block → Vote
vote_of env msg block =
    let key = sender_key env msg in
    record { voter = env.hex key; sign = (env.read_sig block.signature).0; key = key }

-- A response that carries a valid signature of the leader's block, of a type other than the final
-- block's, whose vote needs the coinbase of its sender.
pub record IsValidVote (env : Env) (msg : Message) (block : Block) (type : ConsensusType)
    (own : Block) : Type 0 where
  pub bytes : Bytes
  pub payload : env.read_payload msg.payload ≡ some bytes
  pub decoded : env.read_block type bytes ≡ some block
  pub same : own ≡ record block { signature = none }
  pub signed :
      env.bls_verify (env.read_sig block.signature).0 (sender_key env msg) (env.hash type block)
      ≡ true

check_block-ok :
    (env : Env) (type : ConsensusType) (key : ℕ) (l : Lead) (block : Block) (b : Bool)
    → check_block env type key l block ≡ ok b
    → (current_block type l ≡ record block { signature = none })
      × (env.bls_verify (env.read_sig block.signature).0 key (env.hash type block) ≡ b)
unfolding check_block
check_block-ok env type key l block b h =
    elim (Block-discrete (current_block type l) (record block { signature = none })) [
      | yes p ↦ (p, ground arith)
      | no p ↦ absurd (ground arith)
    ]

check_block_same :
    (env : Env) (type : ConsensusType) (key : ℕ) (l : Lead) (block : Block)
    → current_block type l ≡ record block { signature = none }
    → check_block env type key l block
      ≡ ok (env.bls_verify (env.read_sig block.signature).0 key (env.hash type block))
unfolding check_block
check_block_same env type key l block same = rw (if_pos _ same)

check_response_lem :
    (env : Env) (type : ConsensusType) (key : ℕ) (l : Lead) (block : Block)
    → type ≢ final_block_consensus
    → check_response env type key l block ≡ some (check_block env type key l block, l)
unfolding check_response
check_response_lem env ds_block_consensus key l block ne = refl
check_response_lem env micro_block_consensus key l block ne = refl
check_response_lem env view_change_consensus key l block ne = refl
check_response_lem env final_block_consensus key l block ne = absurd (ne refl)

pub verify_and_update_valid :
    (env : Env) (msg : Message) (block : Block) (l : Lead)
    → l.current_type ≢ final_block_consensus
    → IsValidVote env msg block l.current_type (current_block l.current_type l)
    → verify_and_update env msg l
      ≡ some (none, record l { votes = put_vote (vote_of env msg block) l.votes })
unfolding verify_and_update update_votes record_vote
verify_and_update_valid env msg block l ne v =
    let key = sender_key env msg in
    rw (v.payload, verify_and_update, v.decoded)
      (rw (
        check_response_lem env l.current_type key l block ne,
        check_block_same env l.current_type key l block v.same,
        v.signed,
      ))

-- A recorded vote was valid, and only the votes have changed.
abbrev pub IsRecorded : Env → Message → Lead → Lead → Type 0
IsRecorded env msg l l' =
    (block : Block) × IsValidVote env msg block l.current_type (current_block l.current_type l)
    × (l' ≡ record l { votes = put_vote (vote_of env msg block) l.votes })

record_vote-none :
    (env : Env) (key sign : ℕ) (r : Result Error Bool) (l l' : Lead)
    → record_vote env key sign (r, l) ≡ (none, l')
    → (r ≡ ok true)
      × (l' ≡ record l {
        votes = put_vote (record { voter = env.hex key; sign = sign; key = key }) l.votes;
      })
unfolding record_vote
record_vote-none env key sign (err e) l l' h = absurd (ground arith)
record_vote-none env key sign (ok false) l l' h = absurd (ground arith)
record_vote-none env key sign (ok true) l l' h =
    (refl, sym (ap (λ (p : Option Error × Lead). p.1) h))

pub verify_and_update_sound :
    (env : Env) (msg : Message) (l l' : Lead)
    → l.current_type ≢ final_block_consensus
    → verify_and_update env msg l ≡ some (none, l')
    → IsRecorded env msg l l'
unfolding verify_and_update update_votes
verify_and_update_sound env msg l l' ne h = elim (Option-cases (env.read_payload msg.payload)) [
  | inl p ↦ absurd (ground arith)
  | inr (bytes, p) ↦ elim (Option-cases (env.read_block l.current_type bytes)) [
    | inl q ↦ absurd (ground arith)
    | inr (block, q) ↦
        let key = sender_key env msg in
        let sign = (env.read_sig block.signature).0 in
        let checked = check_response_lem env l.current_type key l block ne in
        let h' : update_votes env key sign (some (check_block env l.current_type key l block, l))
            ≡ some (none, l') =
          ground (arith, checked) in
        let r =
          record_vote-none env key sign (check_block env l.current_type key l block) l l'
            (some_inj h') in
        let ok_ = check_block-ok env l.current_type key l block true r.0 in
        (
          block,
          record { bytes = bytes; payload = p; decoded = q; same = ok_.0; signed = ok_.1 },
          r.1,
        )
  ]
]

-- In a consensus on another type of block than the final block, `verifyAndUpdate` records a vote
-- exactly for a message whose block is the leader's own but for the signature, with a signature
-- that verifies under the sender's key; it then changes the votes alone.
pub verify_and_update-IsRecorded :
    (env : Env) (msg : Message) (l : Lead)
    → l.current_type ≢ final_block_consensus
    → ((l' : Lead) → verify_and_update env msg l ≡ some (none, l') → IsRecorded env msg l l')
      × ((block : Block)
          → IsValidVote env msg block l.current_type (current_block l.current_type l)
          → verify_and_update env msg l
            ≡ some (none, record l { votes = put_vote (vote_of env msg block) l.votes }))
verify_and_update-IsRecorded env msg l ne = (
  λ l'. verify_and_update_sound env msg l l' ne,
  λ block. verify_and_update_valid env msg block l ne,
)
