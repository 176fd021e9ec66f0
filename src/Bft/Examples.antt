-- ===== src/Bft/Examples.antt =====
-- The theorems on the leader at a committee of three, over a toy signature scheme.
use native.Mathlib.Decide.{ℕ_discrete}
use okchain.Prelude.{◌+◌, ◌*◌, ◌≡◌, ◌≢◌, refl, true, false, List, [], ◌∷◌, none, some, ◌==◌}
use okchain.Bft.Types.{
  Block-discrete, ConsensusState-discrete, Bytes, Block, BoolMapSignature, ConsensusType, Message,
  Payload, response, final_response, announce_done, broadcast_block_done, initial,
  final_collective_sig_done, ds_block_consensus, final_block_consensus, view_change_consensus,
  final_collective_sig,
}
use okchain.Bft.Env.{Env}
use okchain.Bft.Quorum.{tolerance_size}
use okchain.Bft.Committee.{Vote, put_vote, sort_peers, insert_peer}
use okchain.Bft.Lead.{Lead, initiate_consensus}
use okchain.Bft.Lead.Verify.{
  check_response, check_block, update_votes, record_vote, verify_and_update,
}
use okchain.Bft.Lead.Verify.Laws.{IsValidVote, IsRecorded, vote_of, verify_and_update-IsRecorded}
use okchain.Bft.Lead.Verify.Final.{EndsTried, verify_and_update-EndsTried}
use okchain.Bft.Lead.Collect.{voters, generate_bool_map}
use okchain.Bft.Lead.Collect.Laws.{multi_signed, generate_bool_map_lem}
use okchain.Bft.Lead.Handle.{
  has, dispatch, process_message_response, count_response, end_response, drop_error,
  process_consensus_msg, handle_response, handle_final_response, send_collected, send_next,
}
use okchain.Bft.Lead.Handle.Laws.{
  Advances, handle_response-Advances, handle_final_response-Advances,
}
use okchain.Bft.Lead.Handle.Runs.{run, Steps, process_consensus_msg-Steps, run_stuck}
use okchain.Bft.Lead.Handle.Unsent.{IsUnsent}
use okchain.Bft.Lead.Compose.{compose_final_collective_sig, collective_payload}
use okchain.Bft.Lead.Handle.Replay.{repeat_response, EndsWith, repeat_response-EndsWith}

abbrev blank : Block
blank = record {
  content = 7;
  stage_is_micro = false;
  ds_coin_base = 40 ∷ [];
  state_root = 0;
  gas_used = 0;
  bool_map = [];
  multi_pub_key = none;
  signature = none;
}

-- The response's block: the leader's, signed by 1005 = 5 * 200 + 5.
abbrev signed : Block
signed = record blank { signature = some 1005 }

-- A key is its bytes, and a signature under it is 201 times the key.
abbrev env : Env
env = record {
  read_key = λ b. (b, true);
  hex = λ k. k;
  zero_key = 0;
  add_key = λ a b. a + b;
  serialize_key = λ k. k;
  read_sig = λ o. elim o [ none ↦ (0, false) | some b ↦ (b, true) ];
  zero_sig = 0;
  add_sig = λ a b. a + b;
  serialize_sig = λ s. s;
  bls_verify = λ s k h. s == 201 * k;
  hash = λ t b. b.content;
  header_bytes = λ o. elim o [ none ↦ 0 | some b ↦ b ];
  sort_key = λ b. b;
  read_payload = λ b. some b;
  read_block = λ t b. some signed;
  read_collective = λ b. none;
  read_with_sig2 = λ t b. none;
  coinbase_of = λ k. some (k + 40);
  calculate_state_root = λ b. some (1, 2);
  message_verify = λ m. true;
  marshals = λ p. true;
  seal = λ t c p. true;
  on_consensus_completed = λ s. none;
}

abbrev idle : Lead
idle = record {
  state = initial;
  counter = 0;
  tolerance = 0;
  backup_nodes = [];
  votes = [];
  bool_map_sign2 = record { bool_map = []; signature = 0 };
  final_sign = 0;
  g_pubkey = 0;
  current_type = ds_block_consensus;
  shard_lead = false;
  ds_block = blank;
  micro_block = blank;
  final_block = blank;
  vc_block = blank;
  committee = 9 ∷ 5 ∷ 8 ∷ [];
  sharding_nodes = [];
  sent = [];
  completed = [];
}

abbrev collecting : Lead
collecting = record idle { state = announce_done; tolerance = 2; backup_nodes = 5 ∷ 8 ∷ 9 ∷ [] }

-- A round started for three nodes has a quorum of two.
initiate_consensus-idle :
    initiate_consensus Payload.empty (5 ∷ 8 ∷ 9 ∷ []) idle
    ≡ record collecting { sent = (okchain.Bft.Types.announce, Payload.empty) ∷ [] }
unfolding initiate_consensus tolerance_size
initiate_consensus-idle = refl

abbrev message : Message
message = record { type = response; pubkey = 5; payload = 3 }

message_valid : IsValidVote env message signed ds_block_consensus blank
message_valid = record { bytes = 3; payload = refl; decoded = refl; same = refl; signed = refl }

ne_final : ds_block_consensus ≢ final_block_consensus
ne_final e = cc

verify_and_update-IsRecorded_example :
    ((l' : Lead)
      → verify_and_update env message collecting ≡ some (none, l')
      → IsRecorded env message collecting l')
    × ((block : Block)
        → IsValidVote env message block ds_block_consensus blank
        → verify_and_update env message collecting
          ≡ some (
            none,
            record collecting {
              votes = okchain.Bft.Committee.put_vote (vote_of env message block) [];
            },
          ))
verify_and_update-IsRecorded_example = verify_and_update-IsRecorded env message collecting ne_final

-- The final block's consensus: the response's block, with the sender's coinbase 45, agrees with the
-- leader's.
abbrev final_env : Env
final_env = record env { read_block = λ t b. some (record signed { ds_coin_base = 40 ∷ 45 ∷ [] }) }

abbrev collecting_final : Lead
collecting_final = record collecting { current_type = final_block_consensus }

verify_and_update-EndsTried_example :
    EndsTried final_env message
      (record signed { ds_coin_base = 40 ∷ 45 ∷ [] })
      40
      45
      collecting_final
      (verify_and_update final_env message collecting_final)
verify_and_update-EndsTried_example =
    verify_and_update-EndsTried final_env message collecting_final 3
      (record signed { ds_coin_base = 40 ∷ 45 ∷ [] }) 40 [] 45 refl refl refl refl refl

abbrev voted : Lead
voted = record collecting { votes = record { voter = 5; sign = 1005; key = 5 } ∷ [] }

generate_bool_map_lem_example :
    generate_bool_map env voted ≡ (none, record voted { ds_block = multi_signed env voted blank })
unfolding voters sort_peers insert_peer
generate_bool_map_lem_example = generate_bool_map_lem env voted (refl, (refl, (refl, tt)))

handle_response-Advances_example :
    Advances announce_done final_collective_sig_done collecting
      (handle_response env announce_done final_collective_sig_done message collecting)
handle_response-Advances_example =
    handle_response-Advances env announce_done final_collective_sig_done message collecting

-- The second round at its last missing response.
abbrev second_message : Message
second_message = record { type = final_response; pubkey = 5; payload = 1005 }

abbrev second_round : Lead
second_round = record collecting { state = final_collective_sig_done; counter = 1 }

handle_final_response-Advances_example :
    Advances final_collective_sig_done broadcast_block_done second_round (
      handle_final_response env final_collective_sig_done broadcast_block_done second_message
        second_round)
handle_final_response-Advances_example =
    handle_final_response-Advances env final_collective_sig_done broadcast_block_done second_message
      second_round

process_consensus_msg-Steps_example :
    Steps collecting (process_consensus_msg env message 5 collecting)
process_consensus_msg-Steps_example = process_consensus_msg-Steps env message 5 collecting

repeat_response-EndsWith_example :
    (l' : Lead) × (repeat_response env message 2 collecting ≡ some l')
    × EndsWith (true ∷ false ∷ false ∷ []) l'
unfolding sort_peers insert_peer okchain.Bft.Committee.find_vote okchain.Bft.Committee.put_vote
repeat_response-EndsWith_example =
    repeat_response-EndsWith env message signed 1 collecting
      (record {
        state = refl;
        type = refl;
        ds_lead = refl;
        authentic = refl;
        valid = message_valid;
      })
      refl (refl, (refl, (refl, tt))) (λ p. refl)

-- No message can be signed, and one response is missing.
abbrev mute_env : Env
mute_env = record env { seal = λ t c p. false }

abbrev one_missing : Lead
one_missing = record collecting { counter = 1 }

abbrev recorded : Lead
recorded = record one_missing { votes = vote_of mute_env message signed ∷ [] }

one_missing-IsUnsent : IsUnsent mute_env message 5 one_missing
unfolding has verify_and_update update_votes record_vote check_response check_block put_vote
    Block-discrete ℕ_discrete send_collected generate_bool_map compose_final_collective_sig
    collective_payload voters sort_peers insert_peer send_next okchain.Bft.Committee.tally
    okchain.Bft.Committee.count_member okchain.Bft.Committee.find_vote
one_missing-IsUnsent = record {
  backup = refl;
  type = refl;
  authentic = refl;
  state = refl;
  voted = recorded;
  recorded = refl;
  last = refl;
  left = _;
  unsent = refl;
}

abbrev mute_end : Lead
mute_end = elim (run mute_env ((message, 5) ∷ (message, 5) ∷ []) one_missing) [
  | none ↦ one_missing
  | some l ↦ l
]

run_mute : run mute_env ((message, 5) ∷ (message, 5) ∷ []) one_missing ≡ some mute_end
unfolding process_consensus_msg dispatch process_message_response handle_response count_response
    verify_and_update update_votes record_vote check_response check_block put_vote end_response
    drop_error has ConsensusState-discrete Block-discrete ℕ_discrete send_collected send_next
    generate_bool_map compose_final_collective_sig collective_payload voters sort_peers insert_peer
    okchain.Bft.Committee.tally okchain.Bft.Committee.count_member okchain.Bft.Committee.find_vote
run_mute = refl

run_stuck_example :
    (mute_end.state ≡ announce_done)
    × (◌≡◌ {A = List (okchain.Bft.Types.MessageType × Payload)} mute_end.sent [])
run_stuck_example =
    run_stuck mute_env message 5 ((message, 5) ∷ []) one_missing mute_end one_missing-IsUnsent
      run_mute
