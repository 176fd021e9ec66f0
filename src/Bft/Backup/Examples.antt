-- ===== src/Bft/Backup/Examples.antt =====
-- The theorems on bool maps and backups at three nodes, over a toy signature scheme.
use okchain.Prelude.{
  ◌⊎◌, ℕ, ◌+◌, ◌*◌, ◌-◌, ◌/◌, ◌%◌, ◌≡◌, ◌≤◌, ◌<◌, refl, Bool, true, false, List, [], ◌∷◌, none,
  some, ◌==◌, arith, length,
}
use okchain.Bft.Types.{
  Block-discrete, Bytes, Block, ConsensusType, Message, broadcast_block, ds_block_consensus,
  micro_block_consensus,
}
use okchain.Bft.Env.{Env}
use native.Mathlib.Decide.{ℕ_discrete}
use okchain.Bft.Quorum.{tolerance_size}
use okchain.Bft.Committee.{sort_peers, insert_peer}
use okchain.Bft.Marks.{
  marked_keys, count_true, check_marked, verify_multi_sign, sum_keys, check_composed,
  multi_pubkey_verify,
}
use okchain.Bft.Marks.Laws.{marked_nodes, key_sum}
use okchain.Bft.Marks.Overlap.{both, verify_multi_sign-Overlap}
use okchain.Bft.Backup.{Backup, set_block, shard_expected, expected_signers, hashed_block}
use okchain.Bft.Backup.Sig1.{keep_sig1, check_sig1, verify_block_sig1}
use okchain.Bft.Backup.Adopt.{
  adopt, check_pub_key, compare_block, check_broadcast, prepare_own, read_broadcast,
  verify_broadcast, signer_nodes, check_sig2,
}
use okchain.Bft.Backup.Handle.{
  Role, process_message_broadcast_block, ignore_error, dispatch_backup, process_backup_msg,
}
use okchain.Bft.Backup.Guards.{Act, process_backup_msg-Act}
use okchain.Bft.Backup.Laws.{IsSigned, Strips, verify_block_sig1-IsSigned}
use okchain.Bft.Backup.Signers.{SecondSigned, Expected}
use okchain.Bft.Backup.Broadcast.{IsChecked, verify_broadcast-IsChecked}

abbrev blank : Block
blank = record {
  content = 7;
  stage_is_micro = false;
  ds_coin_base = [];
  state_root = 0;
  gas_used = 0;
  bool_map = [];
  multi_pub_key = none;
  signature = none;
}

abbrev first_two : List Bool
first_two = true ∷ true ∷ false ∷ []

abbrev last_two : List Bool
last_two = false ∷ true ∷ true ∷ []

abbrev nodes : List Bytes
nodes = 5 ∷ 6 ∷ 7 ∷ []

-- The block that 5 and 6 have signed, and the one that 5 alone has.
abbrev by_two : Block
by_two = record blank { bool_map = first_two; multi_pub_key = some 11; signature = some 2211 }

abbrev by_one : Block
by_one = record blank {
  bool_map = true ∷ false ∷ false ∷ [];
  multi_pub_key = some 5;
  signature = some 1005;
}

-- A key is its bytes, and a signature under it is 201 times the key.
abbrev env_of : Block → Env
env_of block = record {
  read_key = λ b. (b, true);
  hex = λ k. k;
  zero_key = 0;
  add_key = λ a b. a + b;
  serialize_key = λ k. k;
  read_sig = λ o. elim o [ none ↦ (0, false) | some b ↦ (b, true) ];
  zero_sig = 0;
  add_sig = λ a b. a + b;
  serialize_sig = λ s. s;
  bls_verify = λ s k h. s == 201 * k;
  hash = λ t b. b.content;
  header_bytes = λ o. elim o [ none ↦ 0 | some b ↦ b ];
  sort_key = λ b. b;
  read_payload = λ b. some b;
  read_block = λ t b. some block;
  read_collective = λ b. some (record { bool_map = first_two; signature = 2211 });
  read_with_sig2 = λ t b. none;
  coinbase_of = λ k. some (k + 40);
  calculate_state_root = λ b. some (1, 2);
  message_verify = λ m. true;
  marshals = λ p. true;
  seal = λ t c p. true;
  on_consensus_completed = λ s. none;
}

abbrev backup : ConsensusType → Backup
backup type = record {
  leader = 5;
  current_type = type;
  ds_block = blank;
  micro_block = blank;
  final_block = blank;
  vc_block = blank;
  committee = nodes;
  sharding_nodes = nodes;
  last_sharding_nodes = nodes;
  sharding_sum = 1;
  sent = [];
  completed = 0;
}

abbrev msg : Message
msg = record { type = broadcast_block; pubkey = 5; payload = 3 }

accepts_first :
    verify_multi_sign (env_of blank) first_two nodes 2211 7 (tolerance_size 3) ≡ some none
unfolding verify_multi_sign check_marked marked_keys tolerance_size
accepts_first = refl

accepts_last : verify_multi_sign (env_of blank) last_two nodes 2613 8 (tolerance_size 3) ≡ some none
unfolding verify_multi_sign check_marked marked_keys tolerance_size
accepts_last = refl

verify_multi_sign-Overlap_example :
    ((length nodes - 1) / 3 ≤ count_true (both first_two last_two))
    × ((length nodes % 3 ≡ 2) ⊎ ((length nodes - 1) / 3 < count_true (both first_two last_two)))
verify_multi_sign-Overlap_example =
    verify_multi_sign-Overlap (env_of blank) nodes first_two last_two 2211 7 2613 8 (omega arith)
      (omega arith) accepts_first accepts_last

abbrev signed : Backup
signed = record (backup ds_block_consensus) { ds_block = record blank { signature = some 2211 } }

accepts_sig1 :
    verify_block_sig1 (env_of blank) msg (backup ds_block_consensus) ≡ some (none, signed)
unfolding verify_block_sig1 check_sig1 keep_sig1 hashed_block marked_keys tolerance_size sort_peers
    insert_peer
accepts_sig1 = refl

verify_block_sig1-IsSigned_example : IsSigned (env_of blank) msg (backup ds_block_consensus) signed
verify_block_sig1-IsSigned_example =
    verify_block_sig1-IsSigned (env_of blank) msg (backup ds_block_consensus) signed accepts_sig1

IsChecked-one :
    IsChecked
      (env_of by_one)
      msg
      (backup micro_block_consensus)
      (backup micro_block_consensus)
      by_one
      2
unfolding expected_signers shard_expected tolerance_size read_broadcast check_sig2 prepare_own
    multi_pubkey_verify sum_keys check_composed hashed_block
IsChecked-one = record {
  bytes = 3;
  sig2 = none;
  hashed = by_one;
  decoded = refl;
  quorum = refl;
  read = refl;
  second = refl;
  prepared = refl;
  same = refl;
  composed = refl;
  of_block = refl;
  signed = refl;
}

accepts_two :
    verify_broadcast (env_of by_two) msg (backup micro_block_consensus)
    ≡ some (none, set_block by_two (backup micro_block_consensus))
unfolding verify_broadcast check_broadcast compare_block check_pub_key adopt expected_signers
    shard_expected tolerance_size read_broadcast check_sig2 prepare_own multi_pubkey_verify sum_keys
    check_composed hashed_block count_true Block-discrete ℕ_discrete
accepts_two = refl

verify_broadcast-IsChecked_example :
    (ready : Backup) × (block : Block) × (expected : ℕ) × (c : IsChecked
      (env_of by_two)
      msg
      (backup micro_block_consensus)
      ready
      block
      expected)
    × SecondSigned (env_of by_two) expected (backup micro_block_consensus) block c.sig2
    × Strips ready.current_type block c.hashed
    × Expected true (backup micro_block_consensus) expected
    × (expected ≤ count_true block.bool_map)
    × (((env_of by_two).read_key ((env_of by_two).header_bytes block.multi_pub_key)).0
        ≡ key_sum
            (env_of by_two)
            0
            (marked_nodes block.bool_map (signer_nodes (env_of by_two) ready)))
    × (set_block by_two (backup micro_block_consensus) ≡ set_block block ready)
verify_broadcast-IsChecked_example =
    verify_broadcast-IsChecked (env_of by_two) msg (backup micro_block_consensus)
      (set_block by_two (backup micro_block_consensus)) accepts_two

-- It accepts each announcement.
abbrev role : Role
role = record {
  verify_block = λ m from b. (none, blank);
  compose_response = λ b. some 1;
  compose_final_response = λ b. some 2;
}

abbrev finished : Backup
finished = record (set_block by_two (backup micro_block_consensus)) { completed = 1 }

finishes :
    process_backup_msg (env_of by_two) role msg 5 (backup micro_block_consensus)
    ≡ some (none, finished)
unfolding process_backup_msg dispatch_backup ignore_error process_message_broadcast_block
    verify_broadcast check_broadcast compare_block check_pub_key adopt expected_signers
    shard_expected tolerance_size read_broadcast check_sig2 prepare_own multi_pubkey_verify sum_keys
    check_composed hashed_block count_true Block-discrete ℕ_discrete
finishes = refl

process_backup_msg-Act_example :
    Act (env_of by_two) role msg 5 (backup micro_block_consensus) finished
    × (((backup micro_block_consensus).leader ≡ 5) ⊎ (finished ≡ backup micro_block_consensus))
process_backup_msg-Act_example =
    process_backup_msg-Act (env_of by_two) role msg 5 (backup micro_block_consensus) finished none
      finishes
