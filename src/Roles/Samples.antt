-- ===== src/Roles/Samples.antt =====
-- A small network: a committee of four, four nodes in two shards of two, and four mining results.
use okchain.Prelude.{ℕ, ◌+◌, ◌*◌, true, false, List, [], ◌∷◌, none, some, ◌==◌, if◌then◌else◌}
use okchain.Bft.Env.{Env}
use okchain.Bft.Types.{micro_block_consensus, ds_block_consensus}
use okchain.Roles.Peers.{Peer}
use okchain.Roles.Sharding.{PeerEndpointMap}
use okchain.Roles.Types.{PowSubmission, MicroBlock, DsBlock, TxBlock, Server, Message, RoleEnv}
use okchain.Roles.ViewChange.{Node, RoleType}

abbrev pub peer : ℕ → Peer
peer n = record { name = n; pubkey = n; rest = 0 }

abbrev pub members : List Peer
members = peer 1 ∷ peer 2 ∷ peer 3 ∷ peer 4 ∷ []

abbrev pub shard_peers : List Peer
shard_peers = peer 11 ∷ peer 12 ∷ peer 13 ∷ peer 14 ∷ []

-- The committee's map of the shards.
abbrev pub dealt : PeerEndpointMap
dealt =
    λ id. if id == 0 then peer 13 ∷ peer 11 ∷ [] else if id == 1 then peer 12 ∷ peer 14 ∷ [] else []

abbrev pub pow_of : ℕ → PowSubmission
pow_of n = record {
  block_num = 0;
  nonce = n;
  difficulty = 9;
  rand1 = 3;
  rand2 = 4;
  peer = peer n;
  public_key = n;
  coinbase = 0;
  result = 0;
}

abbrev pub pows : List PowSubmission
pows = pow_of 24 ∷ pow_of 23 ∷ pow_of 22 ∷ pow_of 21 ∷ []

abbrev pub current_ds : DsBlock
current_ds = record {
  version = 1;
  block_number = 3;
  pow_difficulty = 9;
  pow_submission_num = 4;
  winner_nonce = 1;
  winner_pub_key = 1;
  new_leader = peer 1;
  miner = peer 1;
  previous_block_hash = 0;
  sharding_sum = 2;
  sharding_nodes = shard_peers;
  committee = members;
}

abbrev pub current_tx : TxBlock
current_tx = record {
  ds_block_hash = 3;
  ds_block_num = 3;
  block_number = 4;
  version = 1;
  ds_coin_base = [];
  miner = peer 1;
  tx_num = 0;
  gas_used = 0;
  gas_limit = 8000000;
  sharding_lead_coin_base = [];
  number_of_micro_block = 0;
  transactions = [];
  micro_block_hashes = [];
  tx_root = 0;
  previous_block_hash = 0;
}

abbrev pub micro_block : MicroBlock
micro_block = record {
  ds_block_num = 3;
  ds_block_hash = 3;
  block_number = 5;
  version = 1;
  tx_num = 0;
  gas_used = 0;
  bool_map = true ∷ true ∷ [];
  multi_pub_key = 24;
  shard_id = 0;
  miner = peer 11;
  sharding_lead_coin_base = 0;
  transactions = [];
  tx_root = 0;
}

abbrev pub server : Server
server = record {
  self_node = peer 2;
  coin_base = 0;
  committee = members;
  sharding_nodes = shard_peers;
  sharding_map = dealt;
  pow_sub_list = pows;
  micro_block_list = [];
  ds_current = current_ds;
  tx_current = current_tx;
  sharding_size = 2;
  pow_difficulty = 9;
}

abbrev pub bls : Env
bls = record {
  read_key = λ b. (b, true);
  hex = λ k. k;
  zero_key = 0;
  add_key = λ a b. a + b;
  serialize_key = λ k. k;
  read_sig = λ o. elim o [ none ↦ (0, false) | some b ↦ (b, true) ];
  zero_sig = 0;
  add_sig = λ a b. a + b;
  serialize_sig = λ s. s;
  bls_verify = λ s k h. s == 201 * k;
  hash = λ t b. b.content;
  header_bytes = λ o. elim o [ none ↦ 0 | some b ↦ b ];
  sort_key = λ b. b;
  read_payload = λ b. some b;
  read_block = λ t b. none;
  read_collective = λ b. none;
  read_with_sig2 = λ t b. none;
  coinbase_of = λ k. some (k + 40);
  calculate_state_root = λ b. some (1, 2);
  message_verify = λ m. true;
  marshals = λ p. true;
  seal = λ t c p. true;
  on_consensus_completed = λ s. none;
}

-- Payload 0 is no submission; another payload is the mining result of the peer of that number, and a
-- micro block.
abbrev pub role_env : RoleEnv
role_env = record {
  bls = bls;
  ds_hash = λ b. b.block_number;
  tx_hash = λ b. b.block_number;
  read_pow = λ b. if b == 0 then none else some (pow_of b);
  pow_hash = λ p. p.nonce;
  read_micro_block = λ b. if b == 0 then none else some micro_block;
  micro_block_hash = λ b. b.shard_id;
  micro_header_hash = λ b. b.shard_id;
  verify_hash = λ m h. true;
  pub_key_text = λ b. some b;
  mining_seed = λ d t p k c. d + t + k + c;
  verify_pow = λ seed number difficulty result. (false, true);
  merkel_root = λ txs. 0;
}

abbrev pub message : Message
message = record { peer = peer 25; payload = 25; signature = 0 }

abbrev pub ds_node : Node
ds_node = record {
  server = server;
  current_vc = none;
  current_stage = ds_block_consensus;
  last_stage = ds_block_consensus;
  role = RoleType.ds_backup;
  leader = some (peer 1);
}

abbrev pub shard_node : Node
shard_node = record {
  server = record server { self_node = peer 12 };
  current_vc = none;
  current_stage = micro_block_consensus;
  last_stage = micro_block_consensus;
  role = RoleType.sharding_backup;
  leader = some (peer 11);
}
