-- ===== src/Roles/Compose.antt =====
-- `composeDSBlock` of core/server/role/role_ds_base.go and `verifyDSBlock` of role_ds_backup.go.
pub mod Laws
pub mod Checks
pub mod Shards
use okchain.Prelude.{
  ℕ, zero, suc, ◌+◌, ◌-◌, ◌*◌, ◌/◌, Bool, true, false, not, List, [], ◌∷◌, Option, none, some, ◌==◌,
  if◌then◌else◌, length, map, take, u32, u64,
}
use okchain.Prelude.Result.{Result, ok, err}
use okchain.Roles.Peers.{Peer, Peer-discrete, last_peer, enqueue_and_dequeue_tail}
use okchain.Roles.Types.{
  PowSubmission, DsBlock, Server, RoleEnv, RoleError, not_enough_pow, empty_pow_list, verify_block,
}

-- The submissions whose peers become sharding nodes, without the winner: up to the last full shard,
-- or all of them where no shard is full.
unfoldable pub kept_pows : ℕ → List PowSubmission → List PowSubmission
kept_pows total pows = if total == 0 then pows else take (total - 1) pows

unfoldable pub pow_peers : List PowSubmission → List Peer
pow_peers pows = map (λ (p : PowSubmission). p.peer) pows

-- `ShardingSum`
unfoldable pub sharding_sum_of : ℕ → ℕ
sharding_sum_of num = if num == 0 then 1 else u32 num

-- The block, from the winner, the other submissions, the number of full shards and the committee's
-- last member.
unfoldable pub make_ds_block :
    RoleEnv → Server → PowSubmission → List PowSubmission → ℕ → Peer → DsBlock
make_ds_block env s pow pows num last = record {
  version = 1;
  block_number = u64 (s.ds_current.block_number + 1);
  pow_difficulty = s.pow_difficulty;
  pow_submission_num = length (pow ∷ pows);
  winner_nonce = pow.nonce;
  winner_pub_key = pow.public_key;
  new_leader = pow.peer;
  miner = s.self_node;
  previous_block_hash = env.ds_hash s.ds_current;
  sharding_sum = sharding_sum_of num;
  sharding_nodes = last ∷ pow_peers (kept_pows (num * s.sharding_size) pows);
  committee = enqueue_and_dequeue_tail s.committee pow.peer;
}

-- `composeDSBlock`; `none` is a panic: of the division, or of the index -1 of an empty committee.
unfoldable pub compose_from :
    RoleEnv → Server → ℕ → List PowSubmission → Option Peer → Option (Result RoleError DsBlock)
compose_from env s size [] last = some (err not_enough_pow)
compose_from env s zero (pow ∷ pows) last = none
compose_from env s (suc k) (pow ∷ pows) none = none
compose_from env s (suc k) (pow ∷ pows) (some last) =
    some (ok (make_ds_block env s pow pows (length (pow ∷ pows) / suc k) last))

unfoldable pub compose_ds_block : RoleEnv → Server → Option (Result RoleError DsBlock)
compose_ds_block env s = compose_from env s s.sharding_size s.pow_sub_list (last_peer s.committee)

-- The loops of `verifyDSBlock` over the submissions but the winner's and the block's nodes but the
-- first; `none` is the panic of a list of nodes that is too short.
unfoldable pub nodes_match : List PowSubmission → List Peer → Option Bool
nodes_match [] nodes = some true
nodes_match (p ∷ ps) [] = none
nodes_match (p ∷ ps) (q ∷ qs) =
    let rest = nodes_match ps qs in if p.peer.name == q.name then rest else some false

-- Its last test, of the new leader; then the block becomes the role's current DS block.
unfoldable pub check_new_leader :
    PowSubmission → DsBlock → Option Bool → Option (Result RoleError DsBlock)
check_new_leader pow block none = none
check_new_leader pow block (some false) = some (err verify_block)
check_new_leader pow block (some true) = elim (Peer-discrete pow.peer block.new_leader) [
  | yes _ ↦ some (ok block)
  | no _ ↦ some (err verify_block)
]

-- Its tests of the nodes.
unfoldable pub check_nodes :
    ℕ
    → PowSubmission
    → List PowSubmission
    → DsBlock
    → List Peer
    → Option Peer
    → Option (Result RoleError DsBlock)
check_nodes total pow pows block [] last = none
check_nodes total pow pows block (q ∷ qs) none = none
check_nodes total pow pows block (q ∷ qs) (some last) =
    if q.name == last.name
    then check_new_leader pow block (nodes_match (kept_pows total pows) qs)
    else some (err verify_block)

-- Its tests of the header.
unfoldable pub header_fits : RoleEnv → Server → PowSubmission → DsBlock → Bool
header_fits env s pow block =
    if not (pow.public_key == block.winner_pub_key)
    then false
    else if not (pow.nonce == block.winner_nonce)
    then false
    else if not (u64 (s.ds_current.block_number + 1) == block.block_number)
    then false
    else if not (pow.difficulty == block.pow_difficulty)
    then false
    else block.previous_block_hash == env.ds_hash s.ds_current

unfoldable pub check_ds_block :
    RoleEnv → Server → DsBlock → ℕ → List PowSubmission → Option (Result RoleError DsBlock)
check_ds_block env s block size [] = some (err empty_pow_list)
check_ds_block env s block zero (pow ∷ pows) =
    if header_fits env s pow block then none else some (err verify_block)
check_ds_block env s block (suc k) (pow ∷ pows) =
    let num = length (pow ∷ pows) / suc k in
    if not (header_fits env s pow block)
    then some (err verify_block)
    else if not (sharding_sum_of num == block.sharding_sum)
    then some (err verify_block)
    else check_nodes (num * suc k) pow pows block block.sharding_nodes (last_peer s.committee)

-- `verifyDSBlock` of an announced block that is read; `ok` is the new current DS block.
unfoldable pub verify_ds_block : RoleEnv → Server → DsBlock → Option (Result RoleError DsBlock)
verify_ds_block env s block = check_ds_block env s block s.sharding_size s.pow_sub_list
