-- ===== src/Pool/SortedMap/Laws/Puts.antt =====
-- Putting a transaction into the map and taking one out.
use okchain.Prelude.{
  ℕ, ◌<◌, ◌≡◌, refl, Bool, none, some, List, ◌==◌, if◌then◌else◌, u64_mod, arith, inl, inr,
  Option-cases,
}
use okchain.Pool.SortedMap.{
  Transaction, SortedMap, Items, lookup, store, push_nonce, remove_nonce, delete, get, put, remove,
}
use okchain.Pool.SortedMap.Laws.Nonces.{
  is_some, lookup-delete, delete-IsDistinct, store-IsDistinct, lookup-store, holds_nonce-push_nonce,
  push_nonce-IsAscending, holds_nonce-remove_nonce, remove_nonce-IsAscending,
}
use okchain.Pool.SortedMap.Laws.Popping.{IsIndexed}
use okchain.Pool.SortedMap.Laws.{IsSynced}

-- After `Put` of this transaction.
pub record IsPut (tx : Transaction) (m after : SortedMap) : Type 0 where
  pub synced : IsSynced after
  pub holds : (k : ℕ) → get k after ≡ (if k == tx.nonce then some tx else get k m)

-- After `Remove` of this nonce, with its answer.
pub record IsRemoved (n : ℕ) (m : SortedMap) (r : Bool × SortedMap) : Type 0 where
  pub synced : IsSynced r.1
  pub answer : r.0 ≡ is_some (get n m)
  pub holds : (k : ℕ) → get k r.1 ≡ (if k == n then none else get k m)

push_IsIndexed :
    (tx : Transaction) (ns : List ℕ) (items : Items)
    → IsIndexed ns items
    → lookup tx.nonce items ≡ none
    → IsIndexed (push_nonce tx.nonce ns) (store tx.nonce tx items)
push_IsIndexed tx ns items i e = record {
  distinct = store-IsDistinct tx.nonce tx items i.distinct;
  ascending = push_nonce-IsAscending tx.nonce ns (ground (arith, i.in_step tx.nonce)) i.ascending;
  in_step = λ k.
      ground (
        arith,
        i.in_step k,
        holds_nonce-push_nonce k tx.nonce ns,
        lookup-store k tx.nonce tx items,
      );
}

replace_IsIndexed :
    (tx old : Transaction) (ns : List ℕ) (items : Items)
    → IsIndexed ns items
    → lookup tx.nonce items ≡ some old
    → IsIndexed ns (store tx.nonce tx items)
replace_IsIndexed tx old ns items i e = record {
  distinct = store-IsDistinct tx.nonce tx items i.distinct;
  ascending = i.ascending;
  in_step = λ k. ground (arith, i.in_step k, lookup-store k tx.nonce tx items);
}

delete-IsIndexed :
    (n : ℕ) (ns : List ℕ) (items : Items)
    → IsIndexed ns items
    → IsIndexed (remove_nonce n ns) (delete n items)
delete-IsIndexed n ns items i = record {
  distinct = delete-IsDistinct n items i.distinct;
  ascending = remove_nonce-IsAscending n ns i.ascending;
  in_step = λ k.
      ground
        (arith, i.in_step k, holds_nonce-remove_nonce k n ns i.ascending, lookup-delete k n items);
}

store_own_nonce :
    (tx : Transaction) (m : SortedMap)
    → IsSynced m
    → (k : ℕ) (t : Transaction) → lookup k (store tx.nonce tx m.items) ≡ some t
    → t.nonce ≡ k
store_own_nonce tx m s k t e = ground (arith, lookup-store k tx.nonce tx m.items, s.own_nonce k t)

pub put-IsPut :
    (tx : Transaction) (m : SortedMap) → tx.nonce < u64_mod → IsSynced m → IsPut tx m (put tx m)
unfolding put get
put-IsPut tx m w s = elim (Option-cases (lookup tx.nonce m.items)) [
  | inl e ↦
      rw (put, e)
        (record {
          synced = record {
            indexed = push_IsIndexed tx m.index m.items s.indexed e;
            own_nonce = store_own_nonce tx m s;
            words = λ k h. ground (arith, s.words k, holds_nonce-push_nonce k tx.nonce m.index);
          };
          holds = λ k. lookup-store k tx.nonce tx m.items;
        })
  | inr (old, e) ↦
      rw (put, e)
        (record {
          synced = record {
            indexed = replace_IsIndexed tx old m.index m.items s.indexed e;
            own_nonce = store_own_nonce tx m s;
            words = s.words;
          };
          holds = λ k. lookup-store k tx.nonce tx m.items;
        })
]

pub remove-IsRemoved : (n : ℕ) (m : SortedMap) → IsSynced m → IsRemoved n m (remove n m)
unfolding remove get
remove-IsRemoved n m s = elim (Option-cases (lookup n m.items)) [
  | inl e ↦ rw (remove, e) (record { synced = s; answer = rw e refl; holds = λ k. ground arith })
  | inr (tx, e) ↦
      rw (remove, e)
        (record {
          synced = record {
            indexed = delete-IsIndexed n m.index m.items s.indexed;
            own_nonce = λ k tx e. ground (arith, lookup-delete k n m.items, s.own_nonce k tx);
            words = λ k e.
                ground (arith, s.words k, holds_nonce-remove_nonce k n m.index s.indexed.ascending);
          };
          answer = rw e refl;
          holds = λ k. lookup-delete k n m.items;
        })
]
