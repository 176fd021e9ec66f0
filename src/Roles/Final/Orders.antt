-- ===== src/Roles/Final/Orders.antt =====
-- Two nodes that compose a final block from the same micro blocks, received in different orders.
use mathlib.Core.List.Perm
use mathlib.Core.List.{Perm, foldr, append_assoc, append-nil}
use native.Mathlib.Decide.{ℕ_discrete}
use okchain.Prelude.{
  ℕ, suc, ◌+◌, ◌<◌, ◌≡◌, refl, ◌∙◌, sym, List, [], ◌∷◌, ◌++◌, map, u32, u64, u32_mod, u64_mod,
  arith,
}
use okchain.Prelude.Result.{Result, ok}
use okchain.Roles.Types.{MicroBlock, TxBlock, Server, RoleEnv, RoleError}
use okchain.Roles.Final.{
  add_micro_block, add_micro_blocks, start_final_block, compose_final_from, compose_final_block,
  verify_final_block,
}
use okchain.Roles.Final.Laws.{verify_final_block_iff}

-- The sum of the transactions' numbers, and the number of the blocks.
abbrev pub tx_sum : List MicroBlock → ℕ
tx_sum ms = foldr (λ (m : MicroBlock) (n : ℕ). m.tx_num + n) 0 ms

abbrev pub block_count : List MicroBlock → ℕ
block_count ms = foldr (λ (m : MicroBlock) (n : ℕ). suc n) 0 ms

-- What the loop computes.
add_micro_blocks_lem :
    (env : RoleEnv) (b : TxBlock) (ms : List MicroBlock)
    → b.tx_num < u64_mod
    → b.number_of_micro_block < u32_mod
    → let c = add_micro_blocks env b ms in
      (c.tx_num ≡ u64 (b.tx_num + tx_sum ms))
      × (c.number_of_micro_block ≡ u32 (b.number_of_micro_block + block_count ms))
      × (c.micro_block_hashes ≡ b.micro_block_hashes ++ map env.micro_header_hash ms)
      × (c.sharding_lead_coin_base
          ≡ b.sharding_lead_coin_base ++ map (λ (m : MicroBlock). m.sharding_lead_coin_base) ms)
      × (c.ds_block_num ≡ b.ds_block_num)
      × (c.previous_block_hash ≡ b.previous_block_hash)
unfolding add_micro_blocks add_micro_block
add_micro_blocks_lem env b [] t n =
    (omega arith, omega arith, sym (append-nil _), sym (append-nil _), refl, refl)
add_micro_blocks_lem env b (m ∷ ms) t n =
    let (sum, number, hashes, coinbases, ds, previous) =
      add_micro_blocks_lem env (add_micro_block env b m) ms (omega arith) (omega arith) in
    (
      omega (arith, sum),
      omega (arith, number),
      hashes ∙ append_assoc b.micro_block_hashes (env.micro_header_hash m ∷ []) _,
      coinbases ∙ append_assoc b.sharding_lead_coin_base (m.sharding_lead_coin_base ∷ []) _,
      ds,
      previous,
    )

tx_sum-Perm : (ms ns : List MicroBlock) → Perm ms ns → tx_sum ms ≡ tx_sum ns
tx_sum-Perm ms ns p =
    Perm.foldr-eq (hlevel ℕ_discrete) (λ (m : MicroBlock) (n : ℕ). m.tx_num + n)
      (λ a b x. omega arith) p 0

block_count-Perm : (ms ns : List MicroBlock) → Perm ms ns → block_count ms ≡ block_count ns
block_count-Perm ms ns p =
    Perm.foldr-eq (hlevel ℕ_discrete) (λ (m : MicroBlock) (n : ℕ). suc n) (λ a b x. refl) p 0

-- Every micro block names the DS block `n`.
abbrev pub AllNumbered : ℕ → List MicroBlock → Type 0
AllNumbered n [] = Unit
AllNumbered n (m ∷ ms) = (m.ds_block_num ≡ n) × AllNumbered n ms

ok_final_inj : {a b : TxBlock} → ◌≡◌ {A = Result RoleError TxBlock} (ok a) (ok b) → a ≡ b
ok_final_inj h = cc

composed_fields :
    (env : RoleEnv) (s : Server) (ms : List MicroBlock) (b : TxBlock) (n : ℕ)
    → compose_final_from env s ms ≡ ok b
    → AllNumbered n ms
    → (b.tx_num ≡ u64 (tx_sum ms))
      × (b.number_of_micro_block ≡ u32 (block_count ms))
      × (b.micro_block_hashes ≡ map env.micro_header_hash ms)
      × (b.sharding_lead_coin_base ≡ map (λ (m : MicroBlock). m.sharding_lead_coin_base) ms)
      × (b.ds_block_num ≡ n)
      × (b.previous_block_hash ≡ env.tx_hash s.tx_current)
      × (env.merkel_root b.transactions ≡ b.tx_root)
unfolding compose_final_from start_final_block
composed_fields env s [] b n h a = absurd cc
composed_fields env s (m ∷ ms) b n h a =
    let start : TxBlock = start_final_block env s m in
    let (sum, number, hashes, coinbases, ds, previous) =
      add_micro_blocks_lem env start (m ∷ ms) (omega arith) (omega arith) in
    rw⁻¹ (ok_final_inj h)
      (omega (arith, sum), omega (arith, number), hashes, coinbases, ds ∙ a.0, previous, refl)

-- Two nodes with the same current transaction block, whose lists of micro blocks are the same up to
-- the order and name one DS block, agree on the final block: the second accepts the block that the
-- first composed, against the one that it composed itself.
pub verify_final_block-compose_final_block :
    (env : RoleEnv) (s s' : Server) (b own : TxBlock) (n : ℕ)
    → compose_final_block env s ≡ ok b
    → compose_final_block env s' ≡ ok own
    → Perm s'.micro_block_list s.micro_block_list
    → AllNumbered n s.micro_block_list
    → AllNumbered n s'.micro_block_list
    → s'.tx_current ≡ s.tx_current
    → verify_final_block env own b ≡ ok b
unfolding compose_final_block
verify_final_block-compose_final_block env s s' b own n h h' p a a' same =
    let (sum, number, hashes, coinbases, ds, previous, root) =
      composed_fields env s s.micro_block_list b n h a in
    let (sum', number', hashes', coinbases', ds', previous', root') =
      composed_fields env s' s'.micro_block_list own n h' a' in
    (verify_final_block_iff env own b).1 (
      rw (hashes, hashes') (Perm.map env.micro_header_hash p),
      rw (coinbases, coinbases') (Perm.map (λ (m : MicroBlock). m.sharding_lead_coin_base) p),
      rw (number, number', block_count-Perm s'.micro_block_list s.micro_block_list p),
      rw (sum, sum', tx_sum-Perm s'.micro_block_list s.micro_block_list p),
      cc (ds, ds'),
      cc (previous, previous', same),
      root,
    )
