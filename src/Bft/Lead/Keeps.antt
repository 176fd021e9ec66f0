-- ===== src/Bft/Lead/Keeps.antt =====
-- What the parts of the leader's handlers (consensus_lead.go) leave alone.
use okchain.Prelude.{
  ℕ, ◌≡◌, refl, Bool, true, false, List, [], ◌∷◌, Option, none, some, arith, if◌then◌else◌,
  Option-cases, inl, inr,
}
use okchain.Prelude.Result.{Result, ok, err}
use okchain.Bft.Types.{
  Bytes, Block, BoolMapSignature, ConsensusType, Error, Message, Payload, ds_block_consensus,
  micro_block_consensus, final_block_consensus, view_change_consensus,
}
use okchain.Bft.Env.{Env}
use okchain.Bft.Lead.{Lead, current_block, put_block}
use okchain.Bft.Lead.Verify.{
  sender_key, check_final, check_tx_block, check_response, record_vote, update_votes,
  verify_and_update, verify_sig2_and_update,
}
use okchain.Bft.Lead.Collect.{first_tally, signed_block, generate_bool_map}
use okchain.Bft.Lead.Compose.{
  attach, broadcast_payload, marshal_broadcast, seal_message, seal_broadcast,
  compose_broadcast_block,
}

-- The fields that decide on the round.
pub record Keeps (l l' : Lead) : Type 0 where
  pub state : l'.state ≡ l.state
  pub counter : l'.counter ≡ l.counter
  pub tolerance : l'.tolerance ≡ l.tolerance
  pub sent : l'.sent ≡ l.sent
  pub shard_lead : l'.shard_lead ≡ l.shard_lead

abbrev pub refl_keeps : (l : Lead) → Keeps l l
refl_keeps l = record {
  state = refl;
  counter = refl;
  tolerance = refl;
  sent = refl;
  shard_lead = refl;
}

abbrev pub AllKeep {ℓ} : {A : Type ℓ} → Lead → Option (A × Lead) → Type 0
AllKeep l none = Unit
AllKeep l (some (a, l')) = Keeps l l'

check_final-Keeps :
    (env : Env) (key : ℕ) (c0 : Bytes) (cs : List Bytes) (p : Bytes) (l : Lead) (block : Block)
    → Keeps l (check_final env key c0 cs p l block).1
unfolding check_final
check_final-Keeps env key c0 cs p l block = ground arith

record_vote-Keeps :
    (env : Env) (key sign : ℕ) (c : Result Error Bool × Lead) (l : Lead)
    → Keeps l c.1
    → Keeps l (record_vote env key sign c).1
unfolding record_vote
record_vote-Keeps env key sign (err e, m) l h = h
record_vote-Keeps env key sign (ok false, m) l h = h
record_vote-Keeps env key sign (ok true, m) l h = ground arith

if-AllKeep {ℓ} :
    {A : Type ℓ} (l : Lead) (b : Bool) (x y : Option (A × Lead))
    → AllKeep l x
    → AllKeep l y
    → AllKeep l (if b then x else y)
if-AllKeep l true x y h k = h
if-AllKeep l false x y h k = k

check_list-AllKeep :
    (env : Env) (key : ℕ) (p : Bytes) (l : Lead) (block : Block) (cs : List Bytes)
    → AllKeep l
        (elim cs [ [] ↦ none | c0 ∷ rest ↦ some (check_final env key c0 (c0 ∷ rest) p l block) ])
check_list-AllKeep env key p l block [] = tt
check_list-AllKeep env key p l block (c0 ∷ rest) =
    check_final-Keeps env key c0 (c0 ∷ rest) p l block

check_response-AllKeep :
    (env : Env) (type : ConsensusType) (key : ℕ) (l : Lead) (block : Block)
    → AllKeep l (check_response env type key l block)
unfolding check_response check_tx_block
check_response-AllKeep env ds_block_consensus key l block = refl_keeps l
check_response-AllKeep env micro_block_consensus key l block = refl_keeps l
check_response-AllKeep env view_change_consensus key l block = refl_keeps l
check_response-AllKeep env final_block_consensus key l block =
    elim (Option-cases (env.coinbase_of (env.serialize_key key))) [
      | inl e ↦ rw (e, check_tx_block) (refl_keeps l)
      | inr (p, e) ↦
          rw (e, check_tx_block) (check_list-AllKeep env key p l block l.final_block.ds_coin_base)
    ]

update_votes-AllKeep :
    (env : Env) (key sign : ℕ) (c : Option (Result Error Bool × Lead)) (l : Lead)
    → AllKeep l c
    → AllKeep l (update_votes env key sign c)
unfolding update_votes
update_votes-AllKeep env key sign none l h = tt
update_votes-AllKeep env key sign (some c) l h = record_vote-Keeps env key sign c l h

pub verify_and_update-AllKeep :
    (env : Env) (msg : Message) (l : Lead) → AllKeep l (verify_and_update env msg l)
unfolding verify_and_update
verify_and_update-AllKeep env msg l = elim (Option-cases (env.read_payload msg.payload)) [
  | inl p ↦ rw (p, verify_and_update) (refl_keeps l)
  | inr (bytes, p) ↦ elim (Option-cases (env.read_block l.current_type bytes)) [
    | inl q ↦ rw (p, verify_and_update, q) (refl_keeps l)
    | inr (block, q) ↦
        let key = sender_key env msg in
        rw (p, verify_and_update, q)
          (update_votes-AllKeep env key (env.read_sig block.signature).0 _ l
            (check_response-AllKeep env l.current_type key l block))
  ]
]

pub verify_sig2_and_update-Keeps :
    (env : Env) (msg : Message) (l : Lead) → Keeps l (verify_sig2_and_update env msg l).1
unfolding verify_sig2_and_update
verify_sig2_and_update-Keeps env msg l = elim (Option-cases (env.read_payload msg.payload)) [
  | inl p ↦ ground arith
  | inr (bytes, p) ↦
      let key = sender_key env msg in
      let sign = (env.read_sig (some bytes)).0 in
      let first = env.header_bytes (current_block l.current_type l).signature in
      ground (
        arith,
        record_vote-Keeps env key sign (ok (env.bls_verify sign key first), l) l (refl_keeps l),
      )
]

put_block-Keeps : (type : ConsensusType) (b : Block) (l : Lead) → Keeps l (put_block type b l)
put_block-Keeps type b l = ground arith

pub generate_bool_map-Keeps : (env : Env) (l : Lead) → Keeps l (generate_bool_map env l).1
unfolding generate_bool_map
generate_bool_map-Keeps env l = ground (
  arith,
  put_block-Keeps l.current_type
      (signed_block env (first_tally env l) (current_block l.current_type l)) l,
)

seal_message-Keeps :
    (env : Env) (r : Result Error Payload) (m l : Lead)
    → Keeps l m
    → Keeps l (seal_message env r m).1
unfolding seal_message
seal_message-Keeps env (err e) m l h = h
seal_message-Keeps env (ok payload) m l h = ground arith

seal_broadcast-Keeps :
    (env : Env) (c : Result Error Payload × Lead) (l : Lead)
    → Keeps l c.1
    → Keeps l (seal_broadcast env c).1
unfolding seal_broadcast
seal_broadcast-Keeps env (err e, m) l h = h
seal_broadcast-Keeps env (ok payload, m) l h =
    seal_message-Keeps env (marshal_broadcast env m.current_type payload) m l h

attach-AllKeep :
    (b : Block) (sig2 : Option BoolMapSignature) (l m : Lead)
    → Keeps l m
    → AllKeep l (attach b sig2 m)
unfolding attach
attach-AllKeep b none l m h = tt
attach-AllKeep b (some sig2) l m h = h

broadcast_payload-AllKeep :
    (env : Env) (type : ConsensusType) (sig2 : Option BoolMapSignature) (l : Lead)
    → AllKeep l (broadcast_payload env type sig2 l)
unfolding broadcast_payload
broadcast_payload-AllKeep env ds_block_consensus sig2 l =
    attach-AllKeep l.ds_block sig2 l l (refl_keeps l)
broadcast_payload-AllKeep env micro_block_consensus sig2 l = refl_keeps l
broadcast_payload-AllKeep env view_change_consensus sig2 l =
    if-AllKeep l l.shard_lead _ _ (refl_keeps l) (attach-AllKeep l.vc_block sig2 l l (refl_keeps l))
broadcast_payload-AllKeep env final_block_consensus sig2 l =
    elim (Option-cases (env.calculate_state_root l.final_block)) [
      | inl e ↦ rw (e, broadcast_payload) (refl_keeps l)
      | inr ((root, gas), e) ↦
          let b = record l.final_block { state_root = root; gas_used = gas } in
          rw (e, broadcast_payload)
            (attach-AllKeep b sig2 l (record l { final_block = b }) (ground arith))
    ]

seal_all-AllKeep :
    (env : Env) (o : Option (Result Error Payload × Lead)) (l : Lead)
    → AllKeep l o
    → AllKeep l (elim o [ none ↦ none | some composed ↦ some (seal_broadcast env composed) ])
seal_all-AllKeep env none l h = tt
seal_all-AllKeep env (some c) l h = seal_broadcast-Keeps env c l h

pub compose_broadcast_block-AllKeep :
    (env : Env) (sig2 : Option BoolMapSignature) (l : Lead)
    → AllKeep l (compose_broadcast_block env sig2 l)
unfolding compose_broadcast_block
compose_broadcast_block-AllKeep env sig2 l =
    seal_all-AllKeep env (broadcast_payload env l.current_type sig2 l) l
      (broadcast_payload-AllKeep env l.current_type sig2 l)
