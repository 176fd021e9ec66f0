-- ===== src/Pool/TxList.antt =====
-- `txList` of core/txpool/tx_list.go: the transactions of an account.
-- `100 + int64(priceBump)` is taken not to overflow.
pub mod Laws
pub mod Filters
use okchain.Prelude.{
  ℕ, ◌+◌, ◌*◌, ◌/◌, Bool, true, false, ◌&&◌, ◌||◌, List, [], ◌∷◌, max_uint64, Option, none, some,
  ltb, leb, if◌then◌else◌,
}
use okchain.Pool.SortedMap.{Transaction, SortedMap, get, put, remove, filter}

pub record TxList : Type 0 where
  pub strict : Bool
  pub txs : SortedMap
  pub costcap : ℕ
  pub gascap : ℕ

-- `Cost` of protos/transaction.go, on big integers.
unfoldable pub cost : Transaction → ℕ
cost tx = tx.gas_price * tx.gas_limit + tx.amount

-- The new transaction pays too little to take the place of the old one.
unfoldable pub is_underpaid : Transaction → Transaction → ℕ → Bool
is_underpaid old tx price_bump =
    leb tx.gas_price old.gas_price || ltb tx.gas_price (old.gas_price * (100 + price_bump) / 100)

unfoldable pub take_in : Transaction → TxList → TxList
take_in tx l = record l {
  txs = put tx l.txs;
  costcap = if ltb l.costcap (cost tx) then cost tx else l.costcap;
  gascap = if ltb l.gascap tx.gas_limit then tx.gas_limit else l.gascap;
}

unfoldable pub add : Transaction → ℕ → TxList → Bool × Option Transaction × TxList
add tx price_bump l = elim (get tx.nonce l.txs) [
  | none ↦ (true, none, take_in tx l)
  | some old ↦
      if is_underpaid old tx price_bump then (false, none, l) else (true, some old, take_in tx l)
]

-- The loop of `Filter` over what was removed.
unfoldable pub lowest_nonce : ℕ → List Transaction → ℕ
lowest_nonce lowest [] = lowest
lowest_nonce lowest (tx ∷ txs) = lowest_nonce (if ltb tx.nonce lowest then tx.nonce else lowest) txs

-- The end of `Filter`: the transactions after a gap that it has made in a strict list go, too.
unfoldable pub filter_gapped :
    List Transaction → TxList → (List Transaction × List Transaction) × TxList
filter_gapped [] l = (([], []), l)
filter_gapped (tx ∷ txs) l =
    let gapped = filter (λ t. ltb (lowest_nonce max_uint64 (tx ∷ txs)) t.nonce) l.txs in
    if l.strict then ((tx ∷ txs, gapped.0), record l { txs = gapped.1 }) else ((tx ∷ txs, []), l)

unfoldable pub filter_above : ℕ → ℕ → TxList → (List Transaction × List Transaction) × TxList
filter_above cost_limit gas_limit l =
    let above = filter (λ tx. ltb gas_limit tx.gas_limit) l.txs in
    if leb l.costcap cost_limit && leb l.gascap gas_limit
    then (([], []), l)
    else filter_gapped above.0
        (record l { txs = above.1; costcap = cost_limit; gascap = gas_limit })

unfoldable pub remove_tx : Transaction → TxList → (Bool × List Transaction) × TxList
remove_tx tx l =
    let r = remove tx.nonce l.txs in
    let gapped = filter (λ t. ltb tx.nonce t.nonce) r.1 in
    if r.0
    then (if l.strict
        then ((true, gapped.0), record l { txs = gapped.1 })
        else ((true, []), record l { txs = r.1 }))
    else ((false, []), l)
