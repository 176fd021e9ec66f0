-- ===== src/Pool/TxList/Laws.antt =====
-- Adding a transaction to the list of an account.
use okchain.Prelude.{
  ℕ, ◌+◌, ◌*◌, ◌/◌, ◌≤◌, ◌<◌, ◌≡◌, ◌↔◌, Bool, true, false, Option, none, some, ◌==◌, if◌then◌else◌,
  u64_mod, arith,
}
use okchain.Pool.SortedMap.{Transaction, get}
use okchain.Pool.SortedMap.Laws.{IsSynced}
use okchain.Pool.SortedMap.Laws.Puts.{put-IsPut}
use okchain.Pool.TxList.{TxList, cost, take_in}

-- The map and its heap are in step, and no transaction of the list exceeds the caps.
pub record IsTxList (l : TxList) : Type 0 where
  pub synced : IsSynced l.txs
  pub cost_capped : (k : ℕ) (tx : Transaction) → get k l.txs ≡ some tx → cost tx ≤ l.costcap
  pub gas_capped : (k : ℕ) (tx : Transaction) → get k l.txs ≡ some tx → tx.gas_limit ≤ l.gascap

-- The price outbids that of each transaction of the list under this nonce.
pub Outbids : Transaction → ℕ → TxList → Type 0
Outbids tx price_bump l =
    (old : Transaction)
    → get tx.nonce l.txs ≡ some old
    → (old.gas_price < tx.gas_price) × (old.gas_price * (100 + price_bump) / 100 ≤ tx.gas_price)

-- The answer of `Add`, and the list after it.
pub record IsAdded (tx : Transaction) (price_bump : ℕ) (l : TxList)
    (r : Bool × Option Transaction × TxList) : Type 0 where
  pub answer : (r.0 ≡ true) ↔ Outbids tx price_bump l
  pub refused : r.0 ≡ false → (r.1 ≡ none) × (r.2 ≡ l)
  pub replaced : r.0 ≡ true → r.1 ≡ get tx.nonce l.txs
  pub holds :
      r.0 ≡ true → (k : ℕ) → get k r.2.txs ≡ (if k == tx.nonce then some tx else get k l.txs)
  pub well_formed : IsTxList r.2

pub take_in-IsTxList :
    (tx : Transaction) (l : TxList) → tx.nonce < u64_mod → IsTxList l → IsTxList (take_in tx l)
unfolding take_in
take_in-IsTxList tx l w s =
    let p = put-IsPut tx l.txs w s.synced in
    record {
      synced = p.synced;
      cost_capped = λ k t e. ground (arith, p.holds k, s.cost_capped k t);
      gas_capped = λ k t e. ground (arith, p.holds k, s.gas_capped k t);
    }
