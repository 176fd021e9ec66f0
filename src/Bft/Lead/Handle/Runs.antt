-- ===== src/Bft/Lead/Handle/Runs.antt =====
-- The leader (consensus_lead.go) over any sequence of consensus messages.
use mathlib.Core.Path.{subst, subst₂}
use okchain.Prelude.{
  some_inj, ◌≡◌, ◌≤◌, ◌<◌, ◌⊎◌, inl, inr, ltb, Bool-cases, refl, sym, ap, ◌∙◌, Bool, true, false,
  List, [], ◌∷◌, Option, none, some, if◌then◌else◌, if_rule, arith,
}
use okchain.Bft.Types.{
  Bytes, ConsensusState, Error, Message, MessageType, announce_done, final_collective_sig_done,
  broadcast_block_done, response, final_response,
}
use okchain.Bft.Env.{Env}
use okchain.Bft.Lead.{Lead}
use okchain.Bft.Lead.Handle.Unsent.{IsUnsent, process_unsent, unsent_full}
use okchain.Bft.Lead.Handle.{
  end_response, end_final_response, process_message_response, process_message_final_response,
  complete, reset, has, drop_error, dispatch, process_consensus_msg,
}
use okchain.Bft.Lead.Handle.Laws.{
  Advances, handle_response-Advances, handle_final_response-Advances,
}

-- The messages are processed one after the other, each with the endpoint that it came from.
abbrev pub run : Env → List (Message × Bytes) → Lead → Option Lead
run env [] l = some l
run env ((msg, from) ∷ rest) l = elim (process_consensus_msg env msg from l) [
  | none ↦ none
  | some r ↦ run env rest r.1
]

-- How the state of a round moves: a shard's leader has one round of signatures, another two.
pub data Edge : ConsensusState → ConsensusState → Type 0 where
  stay : {s : ConsensusState} → Edge s s
  collect : Edge announce_done final_collective_sig_done
  broadcast_shard : Edge announce_done broadcast_block_done
  broadcast : Edge final_collective_sig_done broadcast_block_done

-- One message moves the state along an edge. At a counter that stands at the quorum or above,
-- nothing moves and nothing is sent.
pub record Step (l l' : Lead) : Type 0 where
  pub edge : Edge l.state l'.state
  pub stuck :
      (l.counter < l.tolerance)
      ⊎ ((l'.state ≡ l.state) × (l'.sent ≡ l.sent) × (l'.tolerance ≤ l'.counter))

unless_below {ℓ} :
    {A : Type ℓ} (l : Lead) → (l.tolerance ≤ l.counter → A) → (l.counter < l.tolerance) ⊎ A
unless_below l f = elim (Bool-cases (ltb l.counter l.tolerance)) [
  | inl low ↦ inl (ground arith)
  | inr full ↦ inr (f (ground arith))
]

abbrev pub Steps {ℓ} : {A : Type ℓ} → Lead → Option (A × Lead) → Type 0
Steps l none = Unit
Steps l (some (a, l')) = Step l l'

refl_Step : (l : Lead) → Step l l
refl_Step l = record { edge = stay; stuck = unless_below l (λ h. (refl, refl, h)) }

end_response-Steps :
    (env : Env) (next : ConsensusState) (l : Lead) (o : Option (Bool × Lead))
    → Edge announce_done next
    → Advances announce_done next l o
    → Steps l (end_response env o)
unfolding end_response
end_response-Steps env next l none e a = tt
end_response-Steps env next l (some (false, m)) e a = record {
  edge = subst (Edge l.state) (sym a.0) stay;
  stuck = unless_below l (λ h. (a.0, a.1, omega arith));
}
end_response-Steps env next l (some (true, m)) e a =
    if_rule {A = Option Error × Lead} (λ r. Steps l (some r)) m.shard_lead
      (complete env none (reset m)) (none, reset m)
      (λ b. moved (complete env none (reset m)).1 refl) (λ b. moved (reset m) refl)
  where
    moved : (x : Lead) → x.state ≡ m.state → Step l x
    moved x same = record {
      edge = subst₂ Edge (sym a.0) (sym (same ∙ a.2)) e;
      stuck = unless_below l (λ h. absurd (omega arith));
    }

end_final_response-Steps :
    (env : Env) (l : Lead) (o : Option (Bool × Lead))
    → Advances final_collective_sig_done broadcast_block_done l o
    → Steps l (end_final_response env o)
unfolding end_final_response
end_final_response-Steps env l none a = tt
end_final_response-Steps env l (some (false, m)) a = record {
  edge = subst (Edge l.state) (sym a.0) stay;
  stuck = unless_below l (λ h. (a.0, a.1, omega arith));
}
end_final_response-Steps env l (some (true, m)) a = record {
  edge = subst₂ Edge (sym a.0) (sym a.2) broadcast;
  stuck = unless_below l (λ h. absurd (omega arith));
}

drop_error-Steps :
    (l : Lead) (o : Option (Option Error × Lead)) → Steps l o → Steps l (drop_error o)
unfolding drop_error
drop_error-Steps l none h = tt
drop_error-Steps l (some (e, m)) h = h

first-Edge :
    (b : Bool) → Edge announce_done (if b then broadcast_block_done else final_collective_sig_done)
first-Edge true = broadcast_shard
first-Edge false = collect

response-Steps :
    (env : Env) (msg : Message) (l : Lead) → Steps l (process_message_response env msg l)
unfolding process_message_response
response-Steps env msg l =
    let next = if l.shard_lead then broadcast_block_done else final_collective_sig_done in
    if_rule (Steps l) (env.message_verify msg) _ _
      (λ b.
        end_response-Steps env next l _ (first-Edge l.shard_lead)
          (handle_response-Advances env announce_done next msg l))
      (λ b. refl_Step l)

final_response-Steps :
    (env : Env) (msg : Message) (l : Lead) → Steps l (process_message_final_response env msg l)
unfolding process_message_final_response
final_response-Steps env msg l =
    if_rule (Steps l) (env.message_verify msg) _ _
      (λ b.
        end_final_response-Steps env l _
          (handle_final_response-Advances env final_collective_sig_done broadcast_block_done msg l))
      (λ b. refl_Step l)

dispatch-Steps :
    (env : Env) (type : MessageType) (msg : Message) (l : Lead) → Steps l (dispatch env type msg l)
unfolding dispatch
dispatch-Steps env response msg l = drop_error-Steps l _ (response-Steps env msg l)
dispatch-Steps env final_response msg l = drop_error-Steps l _ (final_response-Steps env msg l)
dispatch-Steps env _ msg l = refl_Step l

-- Whatever message arrives from whatever endpoint, where the leader does not panic its state stays
-- or moves along an edge of the protocol, and a leader whose counter stands at the quorum or above
-- neither moves nor sends, and stays there.
pub process_consensus_msg-Steps :
    (env : Env) (msg : Message) (from : Bytes) (l : Lead)
    → Steps l (process_consensus_msg env msg from l)
unfolding process_consensus_msg
process_consensus_msg-Steps env msg from l =
    if_rule (Steps l) (has l.backup_nodes from) _ _ (λ b. dispatch-Steps env msg.type msg l)
      (λ b. refl_Step l)

run_stays :
    (env : Env) (msgs : List (Message × Bytes)) (l l' : Lead)
    → l.tolerance ≤ l.counter
    → run env msgs l ≡ some l'
    → (l'.state ≡ l.state) × (l'.sent ≡ l.sent)
run_stays env [] l l' h e =
    let same = some_inj e in
    (ap (λ (x : Lead). x.state) (sym same), ap (λ (x : Lead). x.sent) (sym same))
run_stays env ((msg, from) ∷ rest) l l' h e =
    go (process_consensus_msg env msg from l) (process_consensus_msg-Steps env msg from l)
      (λ m. run_stays env rest m l') e
  where
    go :
        (o : Option (Option Error × Lead))
        → Steps l o
        → ((m : Lead)
            → m.tolerance ≤ m.counter
            → run env rest m ≡ some l'
            → (l'.state ≡ m.state) × (l'.sent ≡ m.sent))
        → ◌≡◌ {A = Option Lead} (elim o [ none ↦ none | some r ↦ run env rest r.1 ]) (some l')
        → (l'.state ≡ l.state) × (l'.sent ≡ l.sent)
    go none st ih e = absurd (ground arith)
    go (some (err, m)) st ih e = elim st.stuck [
      | inl low ↦ absurd (omega arith)
      | inr (same, sent, full) ↦ (let (same', sent') = ih m full e in (same' ∙ same, sent' ∙ sent))
    ]

-- Where the quorum's last response in the first round is recorded but no message follows it, since
-- the collected signatures or the message could not be composed, the leader is stuck: after that
-- response, which is accepted without an error, and any further sequence of messages that it gets
-- through without a panic, it is still in the first round and has sent nothing more.
pub run_stuck :
    (env : Env) (msg : Message) (from : Bytes) (msgs : List (Message × Bytes)) (l l' : Lead)
    → IsUnsent env msg from l
    → run env ((msg, from) ∷ msgs) l ≡ some l'
    → (l'.state ≡ announce_done) × (l'.sent ≡ l.sent)
run_stuck env msg from msgs l l' u e =
    let (state, sent, full) = unsent_full env msg from l u in
    let rest : run env msgs u.left ≡ some l' =
      subst
        (λ (o : Option (Option Error × Lead)).
          ◌≡◌ {A = Option Lead} (elim o [ none ↦ none | some r ↦ run env msgs r.1 ]) (some l'))
        (process_unsent env msg from l u) e in
    let (state', sent') = run_stays env msgs u.left l' full rest in
    (state' ∙ state ∙ u.state, sent' ∙ sent)
