-- ===== src/Roles/TxShard/Laws.antt =====
-- The shards divide the transactions among them.
use mathlib.Core.List.Perm
use mathlib.Core.List.{perm_middle, Perm}
use native.Mathlib.Nat.{mod-lt}
use okchain.Prelude.{
  some, ℕ, zero, suc, ◌≤◌, ◌<◌, ◌≡◌, ◌≢◌, ◌↔◌, sym, subst, true, List, [], ◌∷◌, ◌++◌, ◌==◌,
  Bool-cases, inl, inr, u32_mod, arith,
}
use okchain.Roles.TxShard.{
  TxEnv, correspond_shard_id, is_filtered, filter_txs, is_tx_validated, get_shard_id,
}

correspond_shard_id-lt : (addr n : ℕ) → 1 ≤ n → n < u32_mod → correspond_shard_id addr n < n
unfolding correspond_shard_id
correspond_shard_id-lt addr n h l = ground (arith, mod-lt addr h)

module _ {T : Type 0} (env : TxEnv T) (n : ℕ) where
  -- What the shards below `m` keep of these transactions, in the order of the shards.
  abbrev pub kept_below : ℕ → List T → List T
  kept_below zero txs = []
  kept_below (suc m) txs = kept_below m txs ++ filter_txs env m n txs

  filter_txs_other :
      (m : ℕ) (tx : T) (txs : List T)
      → m ≢ correspond_shard_id (env.sender tx) n
      → filter_txs env m n (tx ∷ txs) ≡ filter_txs env m n txs
  unfolding filter_txs is_filtered
  filter_txs_other m tx txs h = ground arith

  filter_txs_own :
      (m : ℕ) (tx : T) (txs : List T)
      → m ≡ correspond_shard_id (env.sender tx) n
      → filter_txs env m n (tx ∷ txs) ≡ tx ∷ filter_txs env m n txs
  unfolding filter_txs is_filtered
  filter_txs_own m tx txs h = ground arith

  kept_below_other :
      (m : ℕ) (tx : T) (txs : List T)
      → m ≤ correspond_shard_id (env.sender tx) n
      → kept_below m (tx ∷ txs) ≡ kept_below m txs
  kept_below_other zero tx txs h = cc
  kept_below_other (suc m) tx txs h =
      rw (kept_below_other m tx txs (omega arith), filter_txs_other m tx txs (ground arith))

  kept_below_own :
      (m : ℕ) (tx : T) (txs : List T)
      → correspond_shard_id (env.sender tx) n < m
      → Perm (kept_below m (tx ∷ txs)) (tx ∷ kept_below m txs)
  kept_below_own zero tx txs h = absurd (omega arith)
  kept_below_own (suc m) tx txs h = elim (Bool-cases (m == correspond_shard_id (env.sender tx) n)) [
    | inl t ↦
        rw (kept_below_other m tx txs (ground arith), filter_txs_own m tx txs (ground arith))
          (perm_middle (kept_below m txs) (filter_txs env m n txs))
    | inr f ↦
        rw (filter_txs_other m tx txs (ground arith))
          (Perm.append_right (filter_txs env m n txs) (kept_below_own m tx txs (ground arith)))
  ]

  kept_below_nil : (m : ℕ) → kept_below m [] ≡ []
  unfolding filter_txs
  kept_below_nil zero = cc
  kept_below_nil (suc m) = cc (kept_below_nil m)

-- With one shard or more, every transaction is kept by exactly one of the shards, as often as it is
-- listed: the lists that the shards keep make up the whole list.
pub filter_txs-Perm :
    {T : Type 0} (env : TxEnv T) (n : ℕ) (txs : List T)
    → 1 ≤ n
    → n < u32_mod
    → Perm (kept_below env n n txs) txs
filter_txs-Perm env n [] h l =
    subst (λ (k : List _). Perm k []) (sym (kept_below_nil env n n)) (Perm.refl [])
filter_txs-Perm env n (tx ∷ txs) h l =
    Perm.trans (kept_below_own env n n tx txs (correspond_shard_id-lt (env.sender tx) n h l))
      (Perm.cons tx (filter_txs-Perm env n txs h l))

-- A shard takes a transaction exactly if its signature verifies without an error and its shard is the
-- one that `GetShardId` gives for a DS block with as many shards as the current one.
pub is_tx_validated_iff :
    {T : Type 0} (env : TxEnv T) (id n ds_num : ℕ) (tx : T)
    → env.sharding_sum_at ds_num ≡ some n
    → (is_tx_validated env id n tx ≡ true)
      ↔ ((env.verify_hash tx ≡ (true, true)) × (some id ≡ get_shard_id env tx ds_num))
unfolding is_tx_validated is_filtered get_shard_id correspond_shard_id
is_tx_validated_iff env id n ds_num tx e = rw (get_shard_id, e) (ground arith)
