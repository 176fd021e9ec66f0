-- ===== src/Roles/Sharding/Agree.antt =====
-- The committee's list of a shard against the list that the nodes of the shard keep.
use mathlib.Core.List.Perm
use mathlib.Core.List.{perm_append_singleton, Perm, append_assoc, append-nil}
use native.Mathlib.Nat.{zero-mod}
use okchain.Prelude.{
  ℕ, zero, suc, ◌-◌, ◌*◌, ◌/◌, ◌%◌, ◌≤◌, ◌≡◌, sym, subst, ap, List, [], ◌∷◌, ◌++◌, some, some_inj,
  ◌==◌, if_rule, length, u32, arith,
}
use okchain.Roles.Peers.{Peer, sort_by_pubkey}
use okchain.Roles.Peers.Laws.{sort_by_pubkey-Perm}
use okchain.Roles.Sharding.{
  PeerEndpointMap, append_at, fill_map, reset_sharding_map, shard_nodes, own_shard, ShardInfo,
  init_sharding_node_info,
}
use okchain.Roles.Sharding.Deal.{reset_sharding_map-some}

≡→Perm : {l l' : List Peer} → l ≡ l' → Perm l l'
≡→Perm {l} h = subst (λ (k : List Peer). Perm l k) h (Perm.refl l)

fill_map_lem :
    (num total id i : ℕ) (nodes : List Peer) (m : PeerEndpointMap)
    → 1 ≤ total
    → fill_map num i (length nodes) nodes m id ≡ m id ++ shard_nodes num total id i nodes
unfolding fill_map shard_nodes append_at
fill_map_lem num total id i [] m h = sym (append-nil (m id))
fill_map_lem num total id i (p ∷ ps) m h = ground (
  arith,
  fill_map_lem num total id (suc i) ps (append_at m (u32 (i % num)) p) h,
  append_assoc (m id) (p ∷ []) (shard_nodes num total id (suc i) ps),
)

-- The first node is dealt last.
deal_first-Perm :
    (num total id : ℕ) (p : Peer) (ps : List Peer)
    → 1 ≤ total
    → Perm
        (shard_nodes num total id 0 (p ∷ ps))
        (append_at (fill_map num 1 (length ps) ps (λ _. [])) 0 p id)
unfolding shard_nodes append_at
deal_first-Perm num total id p ps h =
    let rest : List Peer = shard_nodes num total id 1 ps in
    let filled = fill_map_lem num total id 1 ps (λ _. []) h in
    if_rule (λ (l : List Peer). Perm (shard_nodes num total id 0 (p ∷ ps)) l) (id == 0) _ _
      (λ t.
        Perm.trans
          (≡→Perm {l = shard_nodes num total id 0 (p ∷ ps)} {l' = p ∷ rest}
            (ground (arith, zero-mod num)))
          (Perm.trans (Perm.symm (perm_append_singleton p rest))
            (≡→Perm (ap (λ (l : List Peer). l ++ p ∷ []) (sym filled)))))
      (λ f.
        Perm.trans
          (≡→Perm {l = shard_nodes num total id 0 (p ∷ ps)} {l' = rest}
            (ground (arith, zero-mod num)))
          (≡→Perm (sym filled)))

-- Where the DS block has no node beyond the full shards, the list that a node keeps of its shard
-- is, up to the order, the list that the committee has under that shard's number.
pub init_sharding_node_info-Agrees :
    (sort_key : ℕ → ℕ) (size : ℕ) (nodes : List Peer) (pk : ℕ) (m : PeerEndpointMap)
    (info : ShardInfo)
    → size ≤ length nodes
    → length nodes / size * size ≡ length nodes
    → reset_sharding_map size nodes ≡ some m
    → init_sharding_node_info sort_key size nodes pk ≡ some info
    → Perm info.sharding_nodes (m info.sharding_id)
unfolding init_sharding_node_info
init_sharding_node_info-Agrees sort_key zero nodes pk m info f t e i = absurd cc
init_sharding_node_info-Agrees sort_key (suc s) [] pk m info f t e i = absurd (omega arith)
init_sharding_node_info-Agrees sort_key (suc s) (p ∷ ps) pk m info f t e i =
    let num : ℕ = length (p ∷ ps) / suc s in go num t (reset_sharding_map-some s p ps m f e) i
  where
    go :
        (num : ℕ)
        → num * suc s ≡ length (p ∷ ps)
        → m ≡ append_at (fill_map num 1 (num * suc s - 1) ps (λ _. [])) 0 p
        → (let id = own_shard num (num * suc s) 0 (p ∷ ps) pk in
            let list = shard_nodes num (num * suc s) id 0 (p ∷ ps) in
            let made : ShardInfo = record {
              sharding_id = id;
              sharding_nodes = sort_by_pubkey sort_key list;
            } in
            some made)
          ≡ some info
        → Perm info.sharding_nodes (m info.sharding_id)
    go num t e i =
        let id : ℕ = own_shard num (num * suc s) 0 (p ∷ ps) pk in
        let list : List Peer = shard_nodes num (num * suc s) id 0 (p ∷ ps) in
        subst (λ (made : ShardInfo). Perm made.sharding_nodes (m made.sharding_id)) (some_inj i)
          (subst (λ (m' : PeerEndpointMap). Perm (sort_by_pubkey sort_key list) (m' id)) (sym e)
            (subst
              (λ (k : ℕ).
                Perm (sort_by_pubkey sort_key list)
                  (append_at (fill_map num 1 k ps (λ _. [])) 0 p id))
              {x = length ps} {y = num * suc s - 1} (omega arith)
              (Perm.trans (sort_by_pubkey-Perm sort_key list)
                (deal_first-Perm num (num * suc s) id p ps (omega arith)))))
