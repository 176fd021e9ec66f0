-- ===== src/Roles/Compose/Shards.antt =====
-- The shards of a composed DS block.
use native.Mathlib.Nat.{div-eq_of_eq-mul_left}
use mathlib.Core.List.{Perm}
use okchain.Prelude.{
  ℕ, zero, suc, ◌-◌, ◌*◌, ◌/◌, ◌≤◌, ◌<◌, ◌≡◌, refl, ap, List, [], ◌∷◌, Option, some, ◌==◌, if_rule,
  length, take, u32_mod, arith, ◌∙◌, sym, subst, List, take, ◌*◌,
}
use okchain.Prelude.Result.{ok}
use okchain.Roles.Peers.{Peer}
use okchain.Roles.Sharding.{PeerEndpointMap, reset_sharding_map}
use okchain.Roles.Sharding.Deal.{FullShards_lem, all_shards, reset_sharding_map-Perm}
use okchain.Roles.Sharding.Sizes.{reset_sharding_map-length}
use okchain.Roles.Types.{PowSubmission, DsBlock, Server, RoleEnv}
use okchain.Roles.Compose.{kept_pows, pow_peers, sharding_sum_of, make_ds_block, compose_ds_block}
use okchain.Roles.Compose.Laws.{Composed, compose_ds_block-Composed, take-length}

length-pow_peers : (pows : List PowSubmission) → length (pow_peers pows) ≡ length pows
unfolding pow_peers
length-pow_peers [] = refl
length-pow_peers (p ∷ ps) = omega (arith, length-pow_peers ps)

length-take_le : {A : Type 0} (n : ℕ) (xs : List A) → n ≤ length xs → length (take n xs) ≡ n
length-take_le zero xs h = refl
length-take_le (suc n) [] h = absurd (omega arith)
length-take_le (suc n) (x ∷ xs) h = omega (arith, length-take_le n xs (omega arith))

length-kept_pows :
    (total : ℕ) (pows : List PowSubmission)
    → 1 ≤ total
    → total ≤ suc (length pows)
    → suc (length (pow_peers (kept_pows total pows))) ≡ total
unfolding kept_pows
length-kept_pows total pows h l =
    if_rule (λ (kept : List PowSubmission). suc (length (pow_peers kept)) ≡ total) (total == 0) pows
      (take (total - 1) pows) (λ t. absurd (ground arith))
      (λ _. omega (
        arith,
        length-pow_peers (take (total - 1) pows),
        length-take_le (total - 1) pows (omega arith),
      ))

reset_sharding_map_total :
    (size : ℕ) (nodes : List Peer)
    → 1 ≤ size
    → (m : PeerEndpointMap) × (reset_sharding_map size nodes ≡ some m)
unfolding reset_sharding_map
reset_sharding_map_total zero nodes h = absurd (omega arith)
reset_sharding_map_total (suc s) [] h = (_, refl)
reset_sharding_map_total (suc s) (p ∷ ps) h =
    if_rule (λ (o : Option PeerEndpointMap). (m : PeerEndpointMap) × (o ≡ some m))
      (length (p ∷ ps) / suc s * suc s == 0) _ _ (λ _. (_, refl)) (λ _. (_, refl))

size_le : (num size : ℕ) → 1 ≤ num → size ≤ num * size
size_le zero size h = absurd (omega arith)
size_le (suc num) size h = omega arith

sharding_sum_small : (num : ℕ) → 1 ≤ num → num < u32_mod → sharding_sum_of num ≡ num
unfolding sharding_sum_of
sharding_sum_small num h l = ground arith

-- The nodes of a block that was composed from submissions enough for a shard fill its shards.
pub composed_nodes :
    (env : RoleEnv) (s : Server) (block : DsBlock)
    → compose_ds_block env s ≡ some (ok block)
    → s.sharding_size ≤ length s.pow_sub_list
    → length s.pow_sub_list < u32_mod
    → (1 ≤ s.sharding_size)
      × (s.sharding_size ≤ length block.sharding_nodes)
      × (length block.sharding_nodes < u32_mod)
      × (length block.sharding_nodes ≡ block.sharding_sum * s.sharding_size)
      × (length block.sharding_nodes / s.sharding_size ≡ block.sharding_sum)
unfolding Composed make_ds_block
composed_nodes env s block h f l = go (compose_ds_block-Composed env s block h)
  where
    go :
        Composed env s block
        → (1 ≤ s.sharding_size)
          × (s.sharding_size ≤ length block.sharding_nodes)
          × (length block.sharding_nodes < u32_mod)
          × (length block.sharding_nodes ≡ block.sharding_sum * s.sharding_size)
          × (length block.sharding_nodes / s.sharding_size ≡ block.sharding_sum)
    go (pow, pows, last, k, g, _, e, b) =
        let num : ℕ = length (pow ∷ pows) / suc k in
        let counted : length s.pow_sub_list ≡ suc (length pows) = ap length g in
        let (pos, fits, ge) =
          FullShards_lem k (length (pow ∷ pows)) (omega (arith, e, f, counted)) in
        let filled : suc (length (pow_peers (kept_pows (num * suc k) pows))) ≡ num * suc k =
          length-kept_pows (num * suc k) pows (omega (arith, ge, pos)) (omega (arith, fits)) in
        let sum : sharding_sum_of num ≡ num =
          sharding_sum_small num pos (omega (arith, ge, fits, counted, l)) in
        rw (b, e)
          (
            omega arith,
            omega (arith, filled, size_le num (suc k) pos),
            omega (arith, filled, fits, counted, l),
            rw (filled, sum),
            rw (filled, sum)
                (div-eq_of_eq-mul_left {n = suc k} {m = num * suc k} {k = num} (omega arith) refl),
          )

-- Where the submissions fill a shard, the map that the committee makes from a composed block has as
-- many nodes in every shard that the header counts as the sharding size says, and these shards together
-- have the block's nodes, each as often as the block has it.
pub compose_ds_block-FillsShards :
    (env : RoleEnv) (s : Server) (block : DsBlock) (id : ℕ)
    → compose_ds_block env s ≡ some (ok block)
    → s.sharding_size ≤ length s.pow_sub_list
    → length s.pow_sub_list < u32_mod
    → id < block.sharding_sum
    → (m : PeerEndpointMap) × (reset_sharding_map s.sharding_size block.sharding_nodes ≡ some m)
      × (length (m id) ≡ s.sharding_size)
      × Perm (all_shards block.sharding_sum m) block.sharding_nodes
compose_ds_block-FillsShards env s block id h f l b =
    let (pos, fits, small, total, sum) = composed_nodes env s block h f l in
    let (m, made) = reset_sharding_map_total s.sharding_size block.sharding_nodes pos in
    let nodes : List Peer = block.sharding_nodes in
    (
      m,
      made,
      reset_sharding_map-length s.sharding_size nodes m id pos fits (omega (arith, small)) made
          (omega (arith, sum, b)),
      subst (λ (num : ℕ). Perm (all_shards num m) nodes) sum
          (subst (λ (dealt : List Peer). Perm (all_shards (length nodes / s.sharding_size) m) dealt)
            (ap (λ (k : ℕ). take k nodes) (ap (λ (k : ℕ). k * s.sharding_size) sum ∙ sym total)
              ∙ take-length nodes)
            (reset_sharding_map-Perm s.sharding_size nodes m pos fits (omega (arith, small)) made)),
    )
