-- ===== src/Roles/MicroBlocks/Agreed.antt =====
-- What a shard's nodes make of each other's blocks.
use okchain.Prelude.{
  ℕ, ◌≡◌, ◌≢◌, ◌↔◌, refl, sym, true, List, [], ◌∷◌, some, ◌==◌, arith, Bool-cases, inl, inr, zero,
  suc, get_elem?, some_inj, subst, ap, ◌∙◌,
}
use okchain.Prelude.Result.{ok}
use okchain.Roles.Types.{Tx, DsBlock, MicroBlock, Server}
use okchain.Roles.TxShard.{filter_txs, is_filtered, is_tx_validated, correspond_shard_id}
use okchain.Roles.MicroBlocks.{
  PoolEnv, compose_microblock, all_validated, check_micro_fields, verify_micro_block,
}

-- What a backup has found of a block that it accepts.
pub record IsAccepted (env : PoolEnv) (id : ℕ) (s : Server) (b : MicroBlock) : Type 0 where
  pub shard : b.shard_id ≡ id
  pub number : b.ds_block_num ≡ s.ds_current.block_number
  pub hash : b.ds_block_hash ≡ env.roles.ds_hash s.ds_current
  pub validated : all_validated env id s.ds_current.sharding_sum b.transactions ≡ true
  pub root : env.roles.merkel_root b.transactions ≡ b.tx_root

check_micro_fields_iff :
    (env : PoolEnv) (id : ℕ) (s : Server) (b : MicroBlock)
    → (check_micro_fields env id s b ≡ ok b) ↔ IsAccepted env id s b
unfolding check_micro_fields
check_micro_fields_iff env id s b = (
  λ h. record {
    shard = ground arith;
    number = ground arith;
    hash = ground arith;
    validated = ground arith;
    root = ground arith;
  },
  λ a. ground (arith, a.shard, a.number, a.hash, a.validated, a.root),
)

-- The transactions of one shard among these have good signatures.
pub AreSigned : PoolEnv → ℕ → ℕ → List Tx → Type 0
AreSigned env id n txs =
    (i : ℕ) (tx : Tx)
    → get_elem? txs i ≡ some tx
    → correspond_shard_id (env.txs.sender tx) n ≡ id
    → env.txs.verify_hash tx ≡ (true, true)

filtered_cons :
    (env : PoolEnv) (id n : ℕ) (tx : Tx) (txs : List Tx)
    → (all_validated env id n (filter_txs env.txs id n (tx ∷ txs)) ≡ true) ↔ (
        (correspond_shard_id (env.txs.sender tx) n ≡ id → env.txs.verify_hash tx ≡ (true, true))
        × (all_validated env id n (filter_txs env.txs id n txs) ≡ true))
unfolding all_validated filter_txs is_tx_validated is_filtered
filtered_cons env id n tx txs =
    elim (Bool-cases (id == correspond_shard_id (env.txs.sender tx) n)) [
      | inl t ↦
          ((λ h. (λ c. ground arith, ground arith)), λ (f, h). ground (arith, f (ground arith)))
      | inr f ↦ ((λ h. (λ c. absurd (ground arith), ground arith)), λ (g, h). ground arith)
    ]

all_validated_filtered :
    (env : PoolEnv) (id n : ℕ) (txs : List Tx)
    → (all_validated env id n (filter_txs env.txs id n txs) ≡ true) ↔ AreSigned env id n txs
unfolding AreSigned all_validated filter_txs
all_validated_filtered env id n [] = (λ h i tx g. absurd cc, λ h. refl)
all_validated_filtered env id n (tx ∷ txs) =
    let (there, back) = all_validated_filtered env id n txs in
    let (split, join) = filtered_cons env id n tx txs in
    (λ h. at_place (split h).0 (there (split h).1), λ h. join (h 0 tx refl, back (λ i. h (suc i))))
  where
    at_place :
        (correspond_shard_id (env.txs.sender tx) n ≡ id → env.txs.verify_hash tx ≡ (true, true))
        → AreSigned env id n txs
        → AreSigned env id n (tx ∷ txs)
    at_place f r zero t g own =
        subst (λ (u : Tx). env.txs.verify_hash u ≡ (true, true)) (some_inj g)
          (f (ap (λ (u : Tx). correspond_shard_id (env.txs.sender u) n) (some_inj g) ∙ own))
    at_place f r (suc i) t g own = r i t g own

all_validated_get :
    (env : PoolEnv) (id n : ℕ) (txs : List Tx) (i : ℕ) (tx : Tx)
    → all_validated env id n txs ≡ true
    → get_elem? txs i ≡ some tx
    → is_tx_validated env.txs id n tx ≡ true
unfolding all_validated
all_validated_get env id n [] i tx h g = absurd cc
all_validated_get env id n (t ∷ txs) zero tx h g = ground (arith, some_inj g)
all_validated_get env id n (t ∷ txs) (suc i) tx h g =
    all_validated_get env id n txs i tx (ground arith) g

validated_shard :
    (env : PoolEnv) (id n : ℕ) (tx : Tx)
    → is_tx_validated env.txs id n tx ≡ true
    → (id ≡ correspond_shard_id (env.txs.sender tx) n) × (env.txs.verify_hash tx ≡ (true, true))
unfolding is_tx_validated is_filtered
validated_shard env id n tx h = (ground arith, ground arith)

ok_same :
    (env : PoolEnv) (id : ℕ) (s : Server) (b c : MicroBlock)
    → verify_micro_block env id s (some b) ≡ ok c
    → IsAccepted env id s b
unfolding verify_micro_block check_micro_fields
ok_same env id s b c h = record {
  shard = ground arith;
  number = ground arith;
  hash = ground arith;
  validated = ground arith;
  root = ground arith;
}

pub record AreApart (env : PoolEnv) (tx tx' : Tx) : Type 0 where
  pub first_signed : env.txs.verify_hash tx ≡ (true, true)
  pub second_signed : env.txs.verify_hash tx' ≡ (true, true)
  pub senders : env.txs.sender tx ≢ env.txs.sender tx'

-- Where the backups of two shards accept a micro block each, with DS blocks that name as many
-- shards, all transactions of both have good signatures, and no sender has a transaction in both.
pub verify_micro_block-AreApart :
    (env : PoolEnv) (id id' : ℕ) (s s' : Server) (b b' c c' : MicroBlock) (i j : ℕ) (tx tx' : Tx)
    → id ≢ id'
    → s.ds_current.sharding_sum ≡ s'.ds_current.sharding_sum
    → verify_micro_block env id s (some b) ≡ ok c
    → verify_micro_block env id' s' (some b') ≡ ok c'
    → get_elem? b.transactions i ≡ some tx
    → get_elem? b'.transactions j ≡ some tx'
    → AreApart env tx tx'
verify_micro_block-AreApart env id id' s s' b b' c c' i j tx tx' n shards h h' g g' =
    let a = ok_same env id s b c h in
    let a' = ok_same env id' s' b' c' h' in
    let (own, sign) =
      validated_shard env id _ tx (all_validated_get env id _ b.transactions i tx a.validated g) in
    let (own', sign') =
      validated_shard env id' _ tx'
        (all_validated_get env id' _ b'.transactions j tx' a'.validated g') in
    record {
      first_signed = sign;
      second_signed = sign';
      senders = λ e. n (cc (own, own', shards, e));
    }

-- A backup accepts the micro block that the leader of its shard composes under the same DS block if
-- and only if all pending transactions of the shard have good signatures: the leader takes those of
-- the shard without a look at their signatures.
pub verify_micro_block-compose_microblock :
    (env : PoolEnv) (id : ℕ) (l s : Server) (pending : List Tx)
    → l.ds_current ≡ s.ds_current
    → (verify_micro_block env id s (some (compose_microblock env id l pending))
        ≡ ok (compose_microblock env id l pending))
      ↔ AreSigned env id s.ds_current.sharding_sum pending
unfolding verify_micro_block compose_microblock
verify_micro_block-compose_microblock env id l s pending e =
    let b = compose_microblock env id l pending in
    let (there, back) = check_micro_fields_iff env id s b in
    let (read, made) = all_validated_filtered env id s.ds_current.sharding_sum pending in
    let under : ℕ → Type 0 = λ k.
      all_validated env id s.ds_current.sharding_sum (filter_txs env.txs id k pending) ≡ true in
    let sums = ap (λ (d : DsBlock). d.sharding_sum) e in
    (
      λ h. read (subst under sums ((there h).validated)),
      λ h. back (record {
        shard = refl;
        number = ap (λ (d : DsBlock). d.block_number) e;
        hash = ap env.roles.ds_hash e;
        validated = subst under (sym sums) (made h);
        root = refl;
      }),
    )
