-- ===== src/Pool/SortedMap.antt =====
-- `txSortedMap` of core/txpool/tx_list.go: a map from nonces to transactions with a heap of its
-- nonces. The heap of container/heap is kept in the order in which `Pop` gives its elements.
pub mod Laws
use okchain.Prelude.{
  ℕ, ◌+◌, Bool, true, false, ◌||◌, not, Option, none, some, List, [], ◌∷◌, length, drop, ltb, ◌==◌,
  if◌then◌else◌, u64,
}

pub record Transaction : Type 0 where
  pub nonce : ℕ
  pub gas_price : ℕ
  pub gas_limit : ℕ
  pub amount : ℕ

-- The Go map: each key stands before what was stored under it earlier.
abbrev pub Items : Type 0
Items = List (ℕ × Transaction)

unfoldable pub lookup : ℕ → Items → Option Transaction
lookup k [] = none
lookup k ((n, tx) ∷ items) = if k == n then some tx else lookup k items

unfoldable pub delete : ℕ → Items → Items
delete k [] = []
delete k ((n, tx) ∷ items) = let rest = delete k items in if k == n then rest else (n, tx) ∷ rest

unfoldable pub store : ℕ → Transaction → Items → Items
store n tx items = (n, tx) ∷ delete n items

-- `heap.Push` on the heap of nonces.
unfoldable pub push_nonce : ℕ → List ℕ → List ℕ
push_nonce n [] = n ∷ []
push_nonce n (x ∷ xs) = let rest = push_nonce n xs in if ltb n x then n ∷ x ∷ xs else x ∷ rest

-- The loop of `Remove` over the heap: the first element equal to the nonce goes.
unfoldable pub remove_nonce : ℕ → List ℕ → List ℕ
remove_nonce n [] = []
remove_nonce n (x ∷ xs) = let rest = remove_nonce n xs in if x == n then xs else x ∷ rest

pub record SortedMap : Type 0 where
  pub items : Items
  pub index : List ℕ
  pub cache : Option (List Transaction)

unfoldable pub new_tx_sorted_map : SortedMap
new_tx_sorted_map = record { items = []; index = []; cache = none }

unfoldable pub get : ℕ → SortedMap → Option Transaction
get nonce m = lookup nonce m.items

unfoldable pub put : Transaction → SortedMap → SortedMap
put tx m = record {
  items = store tx.nonce tx m.items;
  index = elim (lookup tx.nonce m.items) [
    | none ↦ push_nonce tx.nonce m.index
    | some old ↦ m.index
  ];
  cache = none;
}

-- What a loop that pops nonces off the heap has removed, and what it leaves.
pub record Popped : Type 0 where
  pub removed : List (Option Transaction)
  pub index : List ℕ
  pub items : Items

unfoldable pub pop_below : ℕ → List ℕ → Items → Popped
pop_below threshold [] items = record { removed = []; index = []; items = items }
pop_below threshold (n ∷ ns) items =
    let rest = pop_below threshold ns (delete n items) in
    if ltb n threshold
    then record { removed = lookup n items ∷ rest.removed; index = rest.index; items = rest.items }
    else record { removed = []; index = n ∷ ns; items = items }

-- A removed entry is `none` where the heap holds a nonce that the map does not.
unfoldable pub forward : ℕ → SortedMap → List (Option Transaction) × SortedMap
forward threshold m =
    let p = pop_below threshold m.index m.items in
    (
      p.removed,
      record {
        items = p.items;
        index = p.index;
        cache = elim m.cache [ none ↦ none | some txs ↦ some (drop (length p.removed) txs) ];
      },
    )

unfoldable pub remove : ℕ → SortedMap → Bool × SortedMap
remove nonce m = elim (lookup nonce m.items) [
  | none ↦ (false, m)
  | some tx ↦ (
    true,
    record { items = delete nonce m.items; index = remove_nonce nonce m.index; cache = none },
  )
]

-- The loop of `Ready`: pops while the least nonce is the one that comes next.
unfoldable pub pop_run : ℕ → List ℕ → Items → Popped
pop_run next [] items = record { removed = []; index = []; items = items }
pop_run next (n ∷ ns) items =
    let rest = pop_run (u64 (next + 1)) ns (delete next items) in
    if n == next
    then record {
      removed = lookup next items ∷ rest.removed;
      index = rest.index;
      items = rest.items;
    }
    else record { removed = []; index = n ∷ ns; items = items }

unfoldable pub ready : ℕ → SortedMap → List (Option Transaction) × SortedMap
ready start m = elim m.index [
  | [] ↦ ([], m)
  | n ∷ ns ↦
      if ltb start n
      then ([], m)
      else (let p = pop_run n (n ∷ ns) m.items in
          (p.removed, record { items = p.items; index = p.index; cache = none }))
]

-- The first loop of `Filter`: the transactions that leave the map, and the map that is left.
unfoldable pub split_items : (Transaction → Bool) → Items → List Transaction × Items
split_items leaves [] = ([], [])
split_items leaves ((n, tx) ∷ items) =
    let rest = split_items leaves items in
    if leaves tx then (tx ∷ rest.0, rest.1) else (rest.0, (n, tx) ∷ rest.1)

-- The heap that `heap.Init` makes of the keys.
unfoldable pub rebuild : Items → List ℕ
rebuild [] = []
rebuild ((n, tx) ∷ items) = push_nonce n (rebuild items)

unfoldable pub filter : (Transaction → Bool) → SortedMap → List Transaction × SortedMap
filter leaves m =
    let s = split_items leaves m.items in
    (
      s.0,
      elim s.0 [
        | [] ↦ record m { items = s.1 }
        | tx ∷ txs ↦ record { items = s.1; index = rebuild s.1; cache = none }
      ],
    )
