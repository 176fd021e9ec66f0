-- ===== src/Pool/Examples.antt =====
-- A pool of one account with gaps between its nonces.
use okchain.Prelude.{◌≡◌, refl, true, some, [], ◌∷◌, ℕ, arith}
use okchain.Pool.SortedMap.{
  Transaction, SortedMap, new_tx_sorted_map, put, lookup, store, delete, push_nonce, forward, ready,
  pop_run, pop_below,
}
use okchain.Pool.SortedMap.Laws.{IsSynced, IsReady, new_tx_sorted_map-IsSynced, ready-IsReady}
use okchain.Pool.SortedMap.Laws.Puts.{put-IsPut}
use okchain.Pool.TxList.{TxList, take_in}

abbrev tx_of : ℕ → Transaction
tx_of n = record { nonce = n; gas_price = 100; gas_limit = 21000; amount = 7 }

abbrev with_gap : SortedMap
with_gap = put (tx_of 5) (put (tx_of 9) (put (tx_of 4) new_tx_sorted_map))

with_gap-IsSynced : IsSynced with_gap
with_gap-IsSynced =
    let m = put (tx_of 4) new_tx_sorted_map in
    (put-IsPut (tx_of 5) (put (tx_of 9) m) (omega arith)
      (put-IsPut (tx_of 9) m (omega arith)
        (put-IsPut (tx_of 4) new_tx_sorted_map (omega arith)
          new_tx_sorted_map-IsSynced).synced).synced).synced

-- 4 and 5 are ready, 9 waits behind the gap.
ready_run : (ready 6 with_gap).0 ≡ some (tx_of 4) ∷ some (tx_of 5) ∷ []
unfolding ready pop_run put push_nonce lookup store delete new_tx_sorted_map
ready_run = refl

forward_run : (forward 9 with_gap).0 ≡ some (tx_of 4) ∷ some (tx_of 5) ∷ []
unfolding forward pop_below put push_nonce lookup store delete new_tx_sorted_map
forward_run = refl

ready-IsReady_example : IsReady 6 with_gap (ready 6 with_gap)
ready-IsReady_example = ready-IsReady 6 with_gap with_gap-IsSynced

abbrev empty_list : TxList
empty_list = record { strict = true; txs = new_tx_sorted_map; costcap = 0; gascap = 0 }

abbrev one_pending : TxList
one_pending = take_in (tx_of 4) empty_list
