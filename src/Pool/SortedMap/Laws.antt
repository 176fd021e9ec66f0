-- ===== src/Pool/SortedMap/Laws.antt =====
-- What the operations of `txSortedMap` do to the map while the heap of nonces is in step with it.
pub mod Filters
pub mod Nonces
pub mod Popping
pub mod Puts
pub mod Runs
use okchain.Prelude.{
  ℕ, zero, suc, ◌+◌, ◌≤◌, ◌<◌, ◌≡◌, ◌≢◌, refl, sym, ◌∙◌, ap, Bool, true, false, ◌&&◌, Option, none,
  some, List, [], ◌∷◌, ◌++◌, map, ltb, leb, ◌==◌, if◌then◌else◌, if_rule, u64_mod, arith, ◌⊎◌, inl,
  inr, Option-cases, List-cases, length,
}
use okchain.Pool.SortedMap.{
  Transaction, Items, SortedMap, Popped, lookup, new_tx_sorted_map, get, put, forward, remove,
  ready, pop_below, pop_run,
}
use okchain.Pool.SortedMap.Laws.Nonces.{
  is_some, holds_nonce, IsAscending, IsDistinct, lookup-delete, lookup-store,
  holds_nonce-push_nonce, push_nonce-IsAscending, holds_nonce-remove_nonce,
  remove_nonce-IsAscending,
}
use okchain.Pool.SortedMap.Laws.Popping.{
  IsIndexed, Pops, nonces_below, run_from, pop_below-Pops, pop_run-Pops,
}
use okchain.Pool.SortedMap.Laws.Runs.{
  count_up, run_from-count_up, holds_nonce-count_up, after_run, holds_nonce-nonces_below, has_right,
  has_left,
}

-- The heap holds the nonces of the map, each once and each a word, and each transaction of the
-- map is kept under its own nonce.
pub record IsSynced (m : SortedMap) : Type 0 where
  pub indexed : IsIndexed m.index m.items
  pub own_nonce : (k : ℕ) (tx : Transaction) → lookup k m.items ≡ some tx → tx.nonce ≡ k
  pub words : (k : ℕ) → holds_nonce k m.index ≡ true → k < u64_mod

pub new_tx_sorted_map-IsSynced : IsSynced new_tx_sorted_map
unfolding IsDistinct new_tx_sorted_map lookup holds_nonce IsAscending
new_tx_sorted_map-IsSynced = record {
  indexed = record { ascending = tt; distinct = tt; in_step = λ k. refl };
  own_nonce = λ k tx h. absurd (ground arith);
  words = λ k h. absurd (ground arith);
}

-- What is left after nonces have been popped.
left_IsSynced :
    (taken : List ℕ) (m : SortedMap) (p : Popped) (cache : Option (List Transaction))
    → IsSynced m
    → Pops taken m.index m.items p
    → IsSynced (record { items = p.items; index = p.index; cache = cache })
left_IsSynced taken m p cache s h = record {
  indexed = h.indexed;
  own_nonce = λ k tx e. ground (arith, h.keeps k, s.own_nonce k tx);
  words = λ k e. ground (arith, s.words k, h.splits, has_right k taken p.index);
}

-- After `Forward` to this threshold.
pub record IsForwarded (t : ℕ) (m : SortedMap) (r : List (Option Transaction) × SortedMap)
    : Type 0 where
  pub synced : IsSynced r.1
  pub kept : (k : ℕ) → get k r.1 ≡ (if ltb k t then none else get k m)
  pub returned : r.0 ≡ map (λ k. get k m) (nonces_below t m.index)

below_keeps :
    (t k : ℕ) (m : SortedMap)
    → IsSynced m
    → (p : Popped) → Pops (nonces_below t m.index) m.index m.items p
    → lookup k p.items ≡ (if ltb k t then none else lookup k m.items)
below_keeps t k m s p h = elim (Option-cases (lookup k m.items)) [
  | inl e ↦ ground (arith, h.keeps k)
  | inr (tx, e) ↦ ground (
    arith,
    h.keeps k,
    holds_nonce-nonces_below k t m.index s.indexed.ascending,
    s.indexed.in_step k,
  )
]

-- `Forward` on a map that is in step with its heap returns the transactions below the threshold, in
-- the order of their nonces, leaves every other
-- transaction where it was, and keeps the heap ascending and in step with the map.
pub forward-IsForwarded : (t : ℕ) (m : SortedMap) → IsSynced m → IsForwarded t m (forward t m)
unfolding forward get
forward-IsForwarded t m s =
    let p = pop_below-Pops t m.index m.items s.indexed in
    record {
      synced = left_IsSynced (nonces_below t m.index) m (pop_below t m.index m.items) _ s p;
      kept = λ k. below_keeps t k m s (pop_below t m.index m.items) p;
      returned = p.removes;
    }

-- The transactions from `first` on, `len` of them, have left the map together.
pub record IsRun (first len : ℕ) (m : SortedMap) (r : List (Option Transaction) × SortedMap)
    : Type 0 where
  pub not_empty : 1 ≤ len
  pub least : (k : ℕ) (tx : Transaction) → get k m ≡ some tx → first ≤ k
  pub held : (k : ℕ) → first ≤ k → k < first + len → get k m ≢ none
  pub longest : get (first + len) m ≡ none
  pub returned : r.0 ≡ map (λ k. get k m) (count_up first len)
  pub kept : (k : ℕ) → get k r.1 ≡ (if leb first k && ltb k (first + len) then none else get k m)
  pub synced : IsSynced r.1

-- After `Ready` from this nonce on: nothing where no transaction is due.
pub IsReady : ℕ → SortedMap → List (Option Transaction) × SortedMap → Type 0
IsReady start m r =
    ((r ≡ ([], m)) × ((k : ℕ) (tx : Transaction) → get k m ≡ some tx → start < k))
    ⊎ ((first : ℕ) × (first ≤ start) × (len : ℕ) × IsRun first len m r)

least_nonce :
    (k : ℕ) (tx : Transaction) (n : ℕ) (ns : List ℕ) (items : Items)
    → IsIndexed (n ∷ ns) items
    → lookup k items ≡ some tx
    → n ≤ k
unfolding holds_nonce IsAscending
least_nonce k tx n ns items i e = ground (arith, i.in_step k, i.ascending.0 k)

not_held :
    (k : ℕ) (ns : List ℕ) (items : Items)
    → IsIndexed ns items
    → holds_nonce k ns ≡ false
    → lookup k items ≡ none
not_held k ns items i h = elim (Option-cases (lookup k items)) [
  | inl e ↦ e
  | inr (tx, e) ↦ absurd (ground (arith, i.in_step k))
]

first_least : (k n : ℕ) (ns : List ℕ) → IsAscending (n ∷ ns) → holds_nonce k (n ∷ ns) ≡ true → n ≤ k
unfolding holds_nonce IsAscending
first_least k n ns a e = ground (arith, a.0 k)

not_empty_run : (n : ℕ) (ns : List ℕ) → 1 ≤ length (run_from n (n ∷ ns))
not_empty_run n ns =
    if_rule (λ xs. 1 ≤ length xs) (n == n) (n ∷ run_from (n + 1) ns) [] (λ e. ground arith)
      (λ e. ground arith)

abbrev map_of : Items → List ℕ → Option (List Transaction) → SortedMap
map_of items ns cache = record { items = items; index = ns; cache = cache }

pop_run-IsRun :
    (n : ℕ) (ns : List ℕ) (items : Items) (cache : Option (List Transaction))
    → IsSynced (map_of items (n ∷ ns) cache)
    → (let p = pop_run n (n ∷ ns) items in
        IsRun n
          (length (run_from n (n ∷ ns)))
          (map_of items (n ∷ ns) cache)
          (p.removed, map_of p.items p.index none))
unfolding get holds_nonce
pop_run-IsRun n ns items cache s =
    let i = s.indexed in
    let p = pop_run-Pops n (n ∷ ns) items i s.words in
    record {
      not_empty = not_empty_run n ns;
      least = λ k tx e. least_nonce k tx n ns items i e;
      held = λ k low high e. ground (
        arith,
        i.in_step k,
        p.splits,
        has_left k (run_from n (n ∷ ns)) (pop_run n (n ∷ ns) items).index,
        run_from-count_up n (n ∷ ns),
        holds_nonce-count_up k n (length (run_from n (n ∷ ns))),
      );
      longest =
          not_held (n + length (run_from n (n ∷ ns))) (n ∷ ns) items i
            (after_run n (n ∷ ns) i.ascending (λ k e. first_least k n ns i.ascending e));
      returned = rw (sym (run_from-count_up n (n ∷ ns))) (p.removes);
      kept = λ k. ground (
        arith,
        p.keeps k,
        run_from-count_up n (n ∷ ns),
        holds_nonce-count_up k n (length (run_from n (n ∷ ns))),
      );
      synced =
          left_IsSynced (run_from n (n ∷ ns)) (map_of items (n ∷ ns) cache)
            (pop_run n (n ∷ ns) items) none s p;
    }

ready_lem :
    (start : ℕ) (items : Items) (ns : List ℕ) (cache : Option (List Transaction))
    → IsSynced (map_of items ns cache)
    → IsReady start (map_of items ns cache) (ready start (map_of items ns cache))
unfolding ready get holds_nonce IsReady
ready_lem start items [] cache s =
    inl (refl, λ k tx e. absurd (ground (arith, s.indexed.in_step k)))
ready_lem start items (n ∷ ns) cache s =
    if_rule (IsReady start (map_of items (n ∷ ns) cache)) (ltb start n)
      ([], map_of items (n ∷ ns) cache)
      (let p = pop_run n (n ∷ ns) items in (p.removed, map_of p.items p.index none))
      (λ e. inl (refl, λ k tx h. ground (arith, least_nonce k tx n ns items s.indexed h)))
      (λ e. inr (n, ground arith, length (run_from n (n ∷ ns)), pop_run-IsRun n ns items cache s))

-- `Ready` on a map that is in step with its heap returns nothing and changes nothing where each
-- nonce of the map exceeds the start. Otherwise it returns the longest run of consecutive nonces
-- from the least nonce of the map on, at least one, each held by the map, whatever the wrap-around of the counter at
-- 2 ^ 64; these transactions and no others leave the map, which stays in step with its heap.
pub ready-IsReady : (start : ℕ) (m : SortedMap) → IsSynced m → IsReady start m (ready start m)
ready-IsReady start m s = ready_lem start m.items m.index m.cache s
