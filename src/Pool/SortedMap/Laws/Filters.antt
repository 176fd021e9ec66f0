-- ===== src/Pool/SortedMap/Laws/Filters.antt =====
-- `Filter` of core/txpool/tx_list.go takes out what it is asked to, and rebuilds the heap.
use okchain.Prelude.{
  ℕ, ◌<◌, ◌≡◌, refl, sym, ap, ◌∙◌, Bool, true, Option, none, some, List, [], ◌∷◌, if◌then◌else◌,
  if_rule, u64_mod, arith, inl, inr, Option-cases, List-cases,
}
use okchain.Pool.SortedMap.{
  Transaction, Items, SortedMap, lookup, get, split_items, rebuild, filter,
}
use okchain.Pool.SortedMap.Laws.Nonces.{
  is_some, holds_nonce, IsAscending, IsDistinct, holds_nonce-push_nonce, push_nonce-IsAscending,
}
use okchain.Pool.SortedMap.Laws.{IsSynced}

-- What is left of an entry.
abbrev pub unless : (Transaction → Bool) → Option Transaction → Option Transaction
unless leaves none = none
unless leaves (some tx) = if leaves tx then none else some tx

-- After `Filter` with this test.
pub record IsFiltered (leaves : Transaction → Bool) (m after : SortedMap) : Type 0 where
  pub synced : IsSynced after
  pub holds : (k : ℕ) → get k after ≡ unless leaves (get k m)

holds_nonce-rebuild :
    (k : ℕ) (items : Items) → holds_nonce k (rebuild items) ≡ is_some (lookup k items)
unfolding holds_nonce rebuild lookup
holds_nonce-rebuild k [] = refl
holds_nonce-rebuild k ((n, tx) ∷ items) =
    ground (arith, holds_nonce-push_nonce k n (rebuild items), holds_nonce-rebuild k items)

rebuild-IsAscending : (items : Items) → IsDistinct items → IsAscending (rebuild items)
unfolding IsDistinct rebuild IsAscending
rebuild-IsAscending [] d = tt
rebuild-IsAscending ((n, tx) ∷ items) d =
    push_nonce-IsAscending n (rebuild items) (ground (arith, holds_nonce-rebuild n items, d.0))
      (rebuild-IsAscending items d.1)

lookup-split_items :
    (k : ℕ) (leaves : Transaction → Bool) (items : Items)
    → IsDistinct items
    → lookup k (split_items leaves items).1 ≡ unless leaves (lookup k items)
unfolding lookup split_items IsDistinct
lookup-split_items k leaves [] d = refl
lookup-split_items k leaves ((n, tx) ∷ items) d =
    ground (arith, lookup-split_items k leaves items d.1, d.0)

split_items-IsDistinct :
    (leaves : Transaction → Bool) (items : Items)
    → IsDistinct items
    → IsDistinct (split_items leaves items).1
unfolding split_items IsDistinct
split_items-IsDistinct leaves [] d = d
split_items-IsDistinct leaves ((n, tx) ∷ items) d =
    if_rule (λ (s : List Transaction × Items). IsDistinct s.1) (leaves tx)
      (tx ∷ (split_items leaves items).0, (split_items leaves items).1)
      ((split_items leaves items).0, (n, tx) ∷ (split_items leaves items).1)
      (λ e. split_items-IsDistinct leaves items d.1)
      (λ e. (
        ground (arith, lookup-split_items n leaves items d.1, d.0),
        split_items-IsDistinct leaves items d.1,
      ))

-- Where nothing leaves, the map is as it was.
split_items-nil :
    (leaves : Transaction → Bool) (items : Items)
    → (split_items leaves items).0 ≡ []
    → (split_items leaves items).1 ≡ items
unfolding split_items
split_items-nil leaves [] e = refl
split_items-nil leaves ((n, tx) ∷ items) e = ground (arith, split_items-nil leaves items)

unless-some :
    (leaves : Transaction → Bool) (o : Option Transaction) (tx : Transaction)
    → unless leaves o ≡ some tx
    → o ≡ some tx
unless-some leaves none tx e = e
unless-some leaves (some t) tx e = ground arith

split_items_kept :
    (k : ℕ) (tx : Transaction) (leaves : Transaction → Bool) (items : Items)
    → IsDistinct items
    → lookup k (split_items leaves items).1 ≡ some tx
    → lookup k items ≡ some tx
split_items_kept k tx leaves items d e =
    unless-some leaves (lookup k items) tx (sym (lookup-split_items k leaves items d) ∙ e)

left_word :
    (k : ℕ) (leaves : Transaction → Bool) (m : SortedMap)
    → IsSynced m
    → holds_nonce k (rebuild (split_items leaves m.items).1) ≡ true
    → k < u64_mod
left_word k leaves m s e = elim (Option-cases (lookup k (split_items leaves m.items).1)) [
  | inl n ↦ absurd (ground (arith, holds_nonce-rebuild k (split_items leaves m.items).1))
  | inr (tx, h) ↦ ground (
    arith,
    split_items_kept k tx leaves m.items s.indexed.distinct h,
    s.indexed.in_step k,
    s.words k,
  )
]

same_IsFiltered :
    (leaves : Transaction → Bool) (m : SortedMap)
    → IsSynced m
    → (split_items leaves m.items).1 ≡ m.items
    → (split_items leaves m.items).0 ≡ []
    → IsFiltered leaves m (filter leaves m).1
unfolding filter get
same_IsFiltered leaves m s same e =
    rw (filter, e, same)
      (record {
        synced = s;
        holds =
            λ k. ap (lookup k) (sym same) ∙ lookup-split_items k leaves m.items s.indexed.distinct;
      })

rebuilt_IsFiltered :
    (leaves : Transaction → Bool) (m : SortedMap)
    → IsSynced m
    → (let left = (split_items leaves m.items).1 in
        IsFiltered leaves m (record { items = left; index = rebuild left; cache = none }))
unfolding get
rebuilt_IsFiltered leaves m s =
    let left = (split_items leaves m.items).1 in
    record {
      synced = record {
        indexed = record {
          ascending =
              rebuild-IsAscending left (split_items-IsDistinct leaves m.items s.indexed.distinct);
          distinct = split_items-IsDistinct leaves m.items s.indexed.distinct;
          in_step = λ k. holds_nonce-rebuild k left;
        };
        own_nonce =
            λ k tx e. s.own_nonce k tx (split_items_kept k tx leaves m.items s.indexed.distinct e);
        words = λ k e. left_word k leaves m s e;
      };
      holds = λ k. lookup-split_items k leaves m.items s.indexed.distinct;
    }

pub filter-IsFiltered :
    (leaves : Transaction → Bool) (m : SortedMap)
    → IsSynced m
    → IsFiltered leaves m (filter leaves m).1
unfolding filter get
filter-IsFiltered leaves m s = elim (List-cases (split_items leaves m.items).0) [
  | inl e ↦ same_IsFiltered leaves m s (split_items-nil leaves m.items e) e
  | inr (tx, txs, e) ↦ rw (filter, e) (rebuilt_IsFiltered leaves m s)
]
