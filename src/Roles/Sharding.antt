-- ===== src/Roles/Sharding.antt =====
-- How a DS block's nodes are dealt to the shards, in core/server/role/role_base.go: the map that
-- the committee keeps, and the list that a node of a shard keeps of its own shard.
pub mod Deal
pub mod Sizes
pub mod Agree
use okchain.Prelude.{
  ℕ, zero, suc, ◌+◌, ◌-◌, ◌*◌, ◌/◌, ◌%◌, List, [], ◌∷◌, ◌++◌, Option, none, some, ◌==◌,
  if◌then◌else◌, length, u32,
}
use okchain.Roles.Peers.{Peer, sort_by_pubkey}

-- `PeerEndpointMap`: a missing key reads as the empty list.
abbrev pub PeerEndpointMap : Type 0
PeerEndpointMap = ℕ → List Peer

unfoldable pub append_at : PeerEndpointMap → ℕ → Peer → PeerEndpointMap
append_at m k p = λ j. if j == k then m j ++ p ∷ [] else m j

-- `for i := 1; i < shardingNodesTotal; i++`, with `k` rounds left and the nodes from `i` on.
unfoldable pub fill_map : ℕ → ℕ → ℕ → List Peer → PeerEndpointMap → PeerEndpointMap
fill_map num i zero nodes m = m
fill_map num i (suc k) [] m = m
fill_map num i (suc k) (p ∷ ps) m = fill_map num (suc i) k ps (append_at m (u32 (i % num)) p)

-- `resetShardingId2ShardingNodeListMap`. The division panics on a sharding size of 0; where no
-- shard is full the loop has no rounds.
unfoldable pub reset_sharding_map : ℕ → List Peer → Option PeerEndpointMap
reset_sharding_map zero nodes = none
reset_sharding_map (suc s) [] = some (λ _. [])
reset_sharding_map (suc s) (p ∷ ps) =
    let num = length (p ∷ ps) / suc s in
    let total = num * suc s in
    if total == 0
    then some (λ _. [])
    else some (append_at (fill_map num 1 (total - 1) ps (λ _. [])) 0 p)

-- The first loop of `initShardingNodeInfo`: the shard of the first node with this public key, or 0.
unfoldable pub own_shard : ℕ → ℕ → ℕ → List Peer → ℕ → ℕ
own_shard num total i [] pk = 0
own_shard num total i (p ∷ ps) pk =
    if p.pubkey == pk
    then (if total == 0 then 0 else u32 (i % num))
    else own_shard num total (suc i) ps pk

-- Its second loop: the nodes of the shard `id`.
unfoldable pub shard_nodes : ℕ → ℕ → ℕ → ℕ → List Peer → List Peer
shard_nodes num total id i [] = []
shard_nodes num total id i (p ∷ ps) =
    let rest = shard_nodes num total id (suc i) ps in
    if total == 0 then p ∷ rest else if u32 (i % num) == id then p ∷ rest else rest

-- What `initShardingNodeInfo` stores in the peer server.
pub record ShardInfo : Type 0 where
  pub sharding_id : ℕ
  pub sharding_nodes : List Peer

-- `initShardingNodeInfo`; `pk` is the node's own public key.
unfoldable pub init_sharding_node_info : (ℕ → ℕ) → ℕ → List Peer → ℕ → Option ShardInfo
init_sharding_node_info sort_key zero nodes pk = none
init_sharding_node_info sort_key (suc s) nodes pk =
    let num = length nodes / suc s in
    let total = num * suc s in
    let id = own_shard num total 0 nodes pk in
    some (record {
      sharding_id = id;
      sharding_nodes = sort_by_pubkey sort_key (shard_nodes num total id 0 nodes);
    })
