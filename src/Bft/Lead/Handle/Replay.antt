-- ===== src/Bft/Lead/Handle/Replay.antt =====
-- A single backup can make up the leader's quorum (consensus_lead.go).
use okchain.Prelude.{
  ℕ, zero, suc, ◌+◌, ◌≡◌, ◌≢◌, ◌<◌, refl, sym, ap, Bool, true, false, List, [], ◌∷◌, map, Option,
  none, some, ◌==◌, if◌then◌else◌, arith, if_rule,
}
use mathlib.Core.Logic.{if_pos}
use mathlib.Core.Path.{subst}
use okchain.Bft.Types.{
  Block, ConsensusState, Error, Message, Payload, announce_done, final_collective_sig_done,
  broadcast_block_done, final_collective_sig, ds_block_consensus, final_block_consensus,
}
use okchain.Bft.Env.{Env}
use okchain.Bft.Committee.{Vote, put_vote, tally, sort_peers, Tally}
use okchain.Bft.Committee.Laws.{has_voted, AllReadable, tally_lem}
use okchain.Bft.Lead.{Lead, current_block}
use okchain.Bft.Lead.Verify.{verify_and_update}
use okchain.Bft.Lead.Verify.Laws.{vote_of, IsValidVote, verify_and_update_valid}
use okchain.Bft.Lead.Collect.{voters, signed_block, generate_bool_map}
use okchain.Bft.Lead.Compose.{compose_final_collective_sig, collective_payload}
use okchain.Bft.Lead.Handle.{
  send_next, send_collected, count_response, handle_response, end_response,
  process_message_response,
}

-- The same response, again and again.
abbrev pub repeat_response : Env → Message → ℕ → Lead → Option Lead
repeat_response env msg zero l = some l
repeat_response env msg (suc n) l = elim (process_message_response env msg l) [
  | none ↦ none
  | some r ↦ repeat_response env msg n r.1
]

-- A committee's leader in the first round on a directory service block, with a response of which
-- the signature is valid.
pub record IsCollecting (env : Env) (msg : Message) (block : Block) (l : Lead) : Type 0 where
  pub state : l.state ≡ announce_done
  pub type : l.current_type ≡ ds_block_consensus
  pub ds_lead : l.shard_lead ≡ false
  pub authentic : env.message_verify msg ≡ true
  pub valid : IsValidVote env msg block ds_block_consensus l.ds_block

-- One copy below the quorum counts, and adds no vote beyond the first copy's.
abbrev counted : Env → Message → Block → Lead → Lead
counted env msg block l = record l {
  votes = put_vote (vote_of env msg block) l.votes;
  counter = l.counter + 1;
}

accept :
    (env : Env) (msg : Message) (block : Block) (l : Lead)
    → IsCollecting env msg block l
    → verify_and_update env msg l
      ≡ some (none, record l { votes = put_vote (vote_of env msg block) l.votes })
accept env msg block l c =
    let ne : l.current_type ≢ final_block_consensus = λ e. absurd (ground (arith, c.type)) in
    let valid : IsValidVote env msg block l.current_type (current_block l.current_type l) =
      subst (λ t. IsValidVote env msg block t (current_block t l)) (sym c.type) c.valid in
    verify_and_update_valid env msg block l ne valid

handled :
    (env : Env) (next : ConsensusState) (msg : Message) (block : Block) (l : Lead)
    → IsCollecting env msg block l
    → handle_response env announce_done next msg l
      ≡ count_response env next
          (some (none, record l { votes = put_vote (vote_of env msg block) l.votes }))
unfolding handle_response
handled env next msg block l c = rw (if_pos _ c.state, accept env msg block l c)

count_below :
    (env : Env) (next : ConsensusState) (m : Lead)
    → m.counter + 1 < m.tolerance
    → count_response env next (some (none, m)) ≡ some (false, record m { counter = m.counter + 1 })
unfolding count_response
count_below env next m h =
    if_rule (λ r. r ≡ some (false, record m { counter = m.counter + 1 }))
      (m.counter + 1 == m.tolerance) _ _ (λ b. absurd (ground arith)) (λ b. refl)

response_below :
    (env : Env) (msg : Message) (block : Block) (l : Lead)
    → IsCollecting env msg block l
    → l.counter + 1 < l.tolerance
    → process_message_response env msg l ≡ some (none, counted env msg block l)
unfolding process_message_response end_response
response_below env msg block l c h =
    let next = if l.shard_lead then broadcast_block_done else final_collective_sig_done in
    let m = record l { votes = put_vote (vote_of env msg block) l.votes } in
    rw c.authentic (rw (handled env next msg block l c, count_below env next m h))

-- The first round has ended for the block's bool map `bits`.
abbrev pub EndsWith : List Bool → Lead → Type 0
EndsWith bits l' =
    (l'.state ≡ final_collective_sig_done) × (l'.ds_block.bool_map ≡ bits) × (l'.votes ≡ [])

collected :
    (env : Env) (m : Lead)
    → m.current_type ≡ ds_block_consensus
    → AllReadable env (sort_peers env m.committee)
    → (t : Tally) × (t.bool_map ≡ map (has_voted env m.votes) (sort_peers env m.committee))
      × (generate_bool_map env m ≡ (
        none,
        record m {
          ds_block = signed_block env t m.ds_block;
          final_sign = env.zero_sig;
          g_pubkey = env.zero_key;
        },
      ))
unfolding generate_bool_map voters
collected env m e h =
    let ps = sort_peers env m.committee in
    let t0 : Tally = record {
      bool_map = [];
      sign = m.final_sign;
      key = m.g_pubkey;
      failed = false;
    } in
    let t = tally env m.votes ps t0 in
    let lem = tally_lem env m.votes ps t0 h in
    (t, ap (λ (x : Tally). x.bool_map) lem, ground (arith, lem))

count_at :
    (env : Env) (next : ConsensusState) (m : Lead)
    → m.counter + 1 ≡ m.tolerance
    → count_response env next (some (none, m))
      ≡ send_collected env next (generate_bool_map env (record m { counter = m.counter + 1 }))
unfolding count_response
count_at env next m h =
    let m' = record m { counter = m.counter + 1 } in
    if_rule (λ r. r ≡ send_collected env next (generate_bool_map env m'))
      (m.counter + 1 == m.tolerance) _ _ (λ b. refl) (λ b. absurd (ground arith))

-- The leader when the first round's result is on its way.
abbrev sent_on : Env → ConsensusState → Lead → Lead
sent_on env next m = record m {
  counter = 0;
  state = next;
  sent = (final_collective_sig, collective_payload env m.current_type m) ∷ m.sent;
}

send_at :
    (env : Env) (next : ConsensusState) (m : Lead)
    → m.shard_lead ≡ false
    → ((p : Payload) → env.seal final_collective_sig m.current_type p ≡ true)
    → send_collected env next (none, m) ≡ some (true, sent_on env next m)
unfolding send_collected send_next compose_final_collective_sig
send_at env next m ds seal =
    if_rule (λ r. r ≡ some (true, sent_on env next m)) m.shard_lead _ _ (λ b. absurd (ground arith))
      (λ b. rw (seal (collective_payload env m.current_type m)))

end_at :
    (env : Env) (m : Lead)
    → m.shard_lead ≡ false
    → end_response env (some (true, m)) ≡ some (none, record m { counter = 0; votes = [] })
unfolding end_response
end_at env m ds =
    if_rule {A = Option Error × Lead}
      (λ r. some r ≡ some (none, record m { counter = 0; votes = [] })) m.shard_lead
      (
        env.on_consensus_completed none,
        record m { counter = 0; votes = []; completed = none ∷ m.completed },
      )
      (none, record m { counter = 0; votes = [] }) (λ b. absurd (ground arith)) (λ b. refl)

response_at :
    (env : Env) (msg : Message) (block : Block) (l : Lead)
    → IsCollecting env msg block l
    → l.counter + 1 ≡ l.tolerance
    → AllReadable env (sort_peers env l.committee)
    → ((p : Payload) → env.seal final_collective_sig ds_block_consensus p ≡ true)
    → (l' : Lead) × (process_message_response env msg l ≡ some (none, l'))
      × EndsWith
          (map
            (has_voted env (put_vote (vote_of env msg block) l.votes))
            (sort_peers env l.committee))
          l'
unfolding process_message_response
response_at env msg block l c q h seal =
    let next = if l.shard_lead then broadcast_block_done else final_collective_sig_done in
    let m0 = record l { votes = put_vote (vote_of env msg block) l.votes } in
    let m = record m0 { counter = l.counter + 1 } in
    let (t, bits, gen) = collected env m c.type h in
    let m' = record m {
      ds_block = signed_block env t m.ds_block;
      final_sign = env.zero_sig;
      g_pubkey = env.zero_key;
    } in
    let seal' : (p : Payload) → env.seal final_collective_sig m'.current_type p ≡ true =
      subst (λ y. (p : Payload) → env.seal final_collective_sig y p ≡ true) (sym c.type) seal in
    let last = sent_on env next m' in
    (
      record last { counter = 0; votes = [] },
      rw c.authentic (
          rw
            (
              handled env next msg block l c,
              count_at env next m0 q,
              gen,
              send_at env next m' c.ds_lead seal',
            )
            (end_at env last c.ds_lead)),
      (
        if_rule (λ s. s ≡ final_collective_sig_done) l.shard_lead _ _
            (λ b. absurd (ground (arith, c.ds_lead))) (λ b. refl),
        bits,
        refl,
      ),
    )

put_vote_again : (v : Vote) (vs : List Vote) → put_vote v (put_vote v vs) ≡ put_vote v vs
unfolding put_vote
put_vote_again v [] = ground arith
put_vote_again v (w ∷ ws) = ground (arith, put_vote_again v ws)

-- The leader counts responses, not voters. In the first round on a directory service block, with
-- a committee whose keys are readable and messages that can be sealed, as many copies of one valid
-- response as are missing from the quorum complete the round. The bool map then marks the members
-- that had voted before and the response's sender, and no one else.
pub repeat_response-EndsWith :
    (env : Env) (msg : Message) (block : Block) (n : ℕ) (l : Lead)
    → IsCollecting env msg block l
    → l.counter + suc n ≡ l.tolerance
    → AllReadable env (sort_peers env l.committee)
    → ((p : Payload) → env.seal final_collective_sig ds_block_consensus p ≡ true)
    → (l' : Lead) × (repeat_response env msg (suc n) l ≡ some l')
      × EndsWith
          (map
            (has_voted env (put_vote (vote_of env msg block) l.votes))
            (sort_peers env l.committee))
          l'
repeat_response-EndsWith env msg block zero l c q h seal =
    let (l', done, ends) = response_at env msg block l c (omega arith) h seal in
    (l', rw (done, repeat_response), ends)
repeat_response-EndsWith env msg block (suc n) l c q h seal =
    let l1 = counted env msg block l in
    let c1 : IsCollecting env msg block l1 = record {
      state = c.state;
      type = c.type;
      ds_lead = c.ds_lead;
      authentic = c.authentic;
      valid = c.valid;
    } in
    let (l', done, ends) = repeat_response-EndsWith env msg block n l1 c1 (omega arith) h seal in
    (
      l',
      rw (response_below env msg block l c (omega arith), repeat_response) done,
      rw (put_vote_again (vote_of env msg block) l.votes) at ends,
    )
