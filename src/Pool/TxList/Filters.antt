-- ===== src/Pool/TxList/Filters.antt =====
-- What `Filter` and `Remove` of txList leave in the list.
use okchain.Prelude.{
  ℕ, ◌≤◌, ◌≡◌, Bool, false, ◌&&◌, Option, none, some, List, [], ◌∷◌, if_rule, ltb, leb, max_uint64,
  arith,
}
use okchain.Pool.SortedMap.{Transaction, get, filter}
use okchain.Pool.SortedMap.Laws.{IsSynced}
use okchain.Pool.SortedMap.Laws.Filters.{unless, filter-IsFiltered}
use okchain.Pool.TxList.{TxList, lowest_nonce, filter_gapped, filter_above}
use okchain.Pool.TxList.Laws.{IsTxList}

-- The map is in step with its heap, and no transaction exceeds the gas limit.
pub record IsGasCapped (gas_limit : ℕ) (l : TxList) : Type 0 where
  pub synced : IsSynced l.txs
  pub capped : (k : ℕ) (tx : Transaction) → get k l.txs ≡ some tx → tx.gas_limit ≤ gas_limit

abbrev Filtered : Type 0
Filtered = (List Transaction × List Transaction) × TxList

unless_kept :
    (leaves : Transaction → Bool) (o : Option Transaction) (tx : Transaction)
    → unless leaves o ≡ some tx
    → (o ≡ some tx) × (leaves tx ≡ false)
unless_kept leaves none tx e = absurd (ground arith)
unless_kept leaves (some t) tx e = ground arith

filter-IsGasCapped :
    (leaves : Transaction → Bool) (gas_limit : ℕ) (l : TxList)
    → IsGasCapped gas_limit l
    → IsGasCapped gas_limit (record l { txs = (filter leaves l.txs).1 })
filter-IsGasCapped leaves gas_limit l c =
    let f = filter-IsFiltered leaves l.txs c.synced in
    record {
      synced = f.synced;
      capped =
          λ k tx e. ground (arith, f.holds k, unless_kept leaves (get k l.txs) tx, c.capped k tx);
    }

filter_gapped-IsGasCapped :
    (gas_limit : ℕ) (txs : List Transaction) (l : TxList)
    → IsGasCapped gas_limit l
    → IsGasCapped gas_limit (filter_gapped txs l).1
unfolding filter_gapped
filter_gapped-IsGasCapped gas_limit [] l c = c
filter_gapped-IsGasCapped gas_limit (tx ∷ txs) l c =
    let after : Transaction → Bool = λ t. ltb (lowest_nonce max_uint64 (tx ∷ txs)) t.nonce in
    if_rule (λ (r : Filtered). IsGasCapped gas_limit r.1) l.strict
      ((tx ∷ txs, (filter after l.txs).0), record l { txs = (filter after l.txs).1 })
      ((tx ∷ txs, []), l) (λ t. filter-IsGasCapped after gas_limit l c) (λ f. c)

-- The list between the two filters.
abbrev lower : ℕ → ℕ → TxList → TxList
lower cost_limit gas_limit l = record l {
  txs = (filter (λ tx. ltb gas_limit tx.gas_limit) l.txs).1;
  costcap = cost_limit;
  gascap = gas_limit;
}

pub filter_above-IsGasCapped :
    (cost_limit gas_limit : ℕ) (l : TxList)
    → IsTxList l
    → IsGasCapped gas_limit (filter_above cost_limit gas_limit l).1
unfolding filter_above
filter_above-IsGasCapped cost_limit gas_limit l s =
    let above : Transaction → Bool = λ tx. ltb gas_limit tx.gas_limit in
    let f = filter-IsFiltered above l.txs s.synced in
    if_rule (λ (r : Filtered). IsGasCapped gas_limit r.1)
      (leb l.costcap cost_limit && leb l.gascap gas_limit) (([], []), l)
      (filter_gapped (filter above l.txs).0 (lower cost_limit gas_limit l))
      (λ e. record { synced = s.synced; capped = λ k tx h. ground (arith, s.gas_capped k tx) })
      (λ e.
        filter_gapped-IsGasCapped gas_limit (filter above l.txs).0 (lower cost_limit gas_limit l)
          (record {
            synced = f.synced;
            capped = λ k tx h. ground (arith, f.holds k, unless_kept above (get k l.txs) tx);
          }))
