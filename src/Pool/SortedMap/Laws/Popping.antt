-- ===== src/Pool/SortedMap/Laws/Popping.antt =====
-- The loops that pop nonces off the heap, over a heap and a map that are in step.
use okchain.Prelude.{
  ℕ, ◌+◌, ◌<◌, ◌≡◌, refl, subst, ap, Bool, true, false, Option, none, List, [], ◌∷◌, ◌++◌, map, ltb,
  ◌==◌, if◌then◌else◌, u64, u64_mod, arith,
}
use okchain.Pool.SortedMap.{Transaction, Items, Popped, lookup, delete, pop_below, pop_run}
use okchain.Pool.SortedMap.Laws.Nonces.{
  is_some, holds_nonce, IsAscending, IsDistinct, delete-IsDistinct, lookup-delete,
}

-- The heap holds the keys of the map, each once.
pub record IsIndexed (ns : List ℕ) (items : Items) : Type 0 where
  pub ascending : IsAscending ns
  pub distinct : IsDistinct items
  pub in_step : (k : ℕ) → holds_nonce k ns ≡ is_some (lookup k items)

-- These nonces have been popped, in this order, with their transactions.
pub record Pops (taken ns : List ℕ) (items : Items) (p : Popped) : Type 0 where
  pub splits : ns ≡ taken ++ p.index
  pub removes : p.removed ≡ map (λ k. lookup k items) taken
  pub keeps : (k : ℕ) → lookup k p.items ≡ (if holds_nonce k taken then none else lookup k items)
  pub indexed : IsIndexed p.index p.items

pop_IsIndexed :
    (n : ℕ) (ns : List ℕ) (items : Items) → IsIndexed (n ∷ ns) items → IsIndexed ns (delete n items)
unfolding IsAscending holds_nonce
pop_IsIndexed n ns items i = record {
  ascending = i.ascending.1;
  distinct = delete-IsDistinct n items i.distinct;
  in_step = λ k. ground (arith, i.in_step k, lookup-delete k n items, i.ascending.0 k);
}

map_agree :
    (f g : ℕ → Option Transaction) (ns : List ℕ)
    → ((k : ℕ) → holds_nonce k ns ≡ true → f k ≡ g k)
    → map f ns ≡ map g ns
unfolding holds_nonce
map_agree f g [] h = refl
map_agree f g (n ∷ ns) h =
    rw (h n (ground arith), map_agree f g ns (λ k e. h k (ground arith))) refl

holds_nonce-append :
    (k : ℕ) (xs ys : List ℕ) → holds_nonce k xs ≡ true → holds_nonce k (xs ++ ys) ≡ true
unfolding holds_nonce
holds_nonce-append k [] ys h = cc
holds_nonce-append k (x ∷ xs) ys h = ground (arith, holds_nonce-append k xs ys)

stop_Pops :
    (ns : List ℕ) (items : Items)
    → IsIndexed ns items
    → Pops [] ns items (record { removed = []; index = ns; items = items })
unfolding holds_nonce
stop_Pops ns items i = record { splits = refl; removes = refl; keeps = λ k. refl; indexed = i }

step_Pops :
    (n : ℕ) (taken ns : List ℕ) (items : Items) (rest : Popped)
    → IsIndexed (n ∷ ns) items
    → Pops taken ns (delete n items) rest
    → Pops
        (n ∷ taken)
        (n ∷ ns)
        items
        (record { removed = lookup n items ∷ rest.removed; index = rest.index; items = rest.items })
unfolding IsAscending holds_nonce
step_Pops n taken ns items rest i p = record {
  splits = ap (λ xs. n ∷ xs) p.splits;
  removes = rw (p.removes) (
      ap (λ txs. lookup n items ∷ txs)
        (map_agree (λ k. lookup k (delete n items)) (λ k. lookup k items) taken
          (λ k e. ground (
            arith,
            lookup-delete k n items,
            i.ascending.0 k,
            p.splits,
            holds_nonce-append k taken rest.index e,
          ))));
  keeps = λ k. ground (arith, p.keeps k, lookup-delete k n items);
  indexed = p.indexed;
}

-- The nonces at the head of the heap below the threshold.
abbrev pub nonces_below : ℕ → List ℕ → List ℕ
nonces_below t [] = []
nonces_below t (n ∷ ns) = let rest = nonces_below t ns in if ltb n t then n ∷ rest else []

-- The nonces at the head of the heap that follow each other from `next`.
abbrev pub run_from : ℕ → List ℕ → List ℕ
run_from next [] = []
run_from next (n ∷ ns) = let rest = run_from (next + 1) ns in if n == next then n ∷ rest else []

if_Pops :
    (b : Bool) (xs ys ns : List ℕ) (items : Items) (p q : Popped)
    → (b ≡ true → Pops xs ns items p)
    → (b ≡ false → Pops ys ns items q)
    → Pops (if b then xs else ys) ns items (if b then p else q)
if_Pops true xs ys ns items p q h k = h refl
if_Pops false xs ys ns items p q h k = k refl

pub pop_below-Pops :
    (t : ℕ) (ns : List ℕ) (items : Items)
    → IsIndexed ns items
    → Pops (nonces_below t ns) ns items (pop_below t ns items)
unfolding pop_below
pop_below-Pops t [] items i = stop_Pops [] items i
pop_below-Pops t (n ∷ ns) items i =
    let p = pop_below t ns (delete n items) in
    if_Pops (ltb n t) (n ∷ nonces_below t ns) [] (n ∷ ns) items
      (record { removed = lookup n items ∷ p.removed; index = p.index; items = p.items })
      (record { removed = []; index = n ∷ ns; items = items })
      (λ h.
        step_Pops n (nonces_below t ns) ns items p i
          (pop_below-Pops t ns (delete n items) (pop_IsIndexed n ns items i)))
      (λ h. stop_Pops (n ∷ ns) items i)

-- Only the last nonce of an ascending heap can be the greatest word.
next_word :
    (n : ℕ) (ns : List ℕ) (items : Items)
    → IsAscending (n ∷ ns)
    → ((k : ℕ) → holds_nonce k (n ∷ ns) ≡ true → k < u64_mod)
    → pop_run (u64 (n + 1)) ns items ≡ pop_run (n + 1) ns items
unfolding pop_run IsAscending holds_nonce
next_word n [] items a h = refl
next_word n (m ∷ ms) items a h =
    ap (λ w. pop_run w (m ∷ ms) items) (next_lem (ground (arith, a.0 m, h m)))
  where
    next_lem : n + 1 < u64_mod → u64 (n + 1) ≡ n + 1
    next_lem l = omega arith

-- One round of the loop that continues.
abbrev pop_first : ℕ → List ℕ → Items → Popped
pop_first next ns items =
    let p = pop_run (u64 (next + 1)) ns (delete next items) in
    record { removed = lookup next items ∷ p.removed; index = p.index; items = p.items }

step_run :
    (n : ℕ) (ns : List ℕ) (items : Items)
    → IsIndexed (n ∷ ns) items
    → ((k : ℕ) → holds_nonce k (n ∷ ns) ≡ true → k < u64_mod)
    → Pops (run_from (n + 1) ns) ns (delete n items) (pop_run (n + 1) ns (delete n items))
    → Pops (n ∷ run_from (n + 1) ns) (n ∷ ns) items (pop_first n ns items)
step_run n ns items i h p =
    step_Pops n (run_from (n + 1) ns) ns items (pop_run (u64 (n + 1)) ns (delete n items)) i
      (rw (next_word n ns (delete n items) i.ascending h) p)

tail_bound :
    (k n : ℕ) (ns : List ℕ)
    → (holds_nonce k (n ∷ ns) ≡ true → k < u64_mod)
    → holds_nonce k ns ≡ true
    → k < u64_mod
unfolding holds_nonce
tail_bound k n ns h e = h (ground arith)

pub pop_run-Pops :
    (next : ℕ) (ns : List ℕ) (items : Items)
    → IsIndexed ns items
    → ((k : ℕ) → holds_nonce k ns ≡ true → k < u64_mod)
    → Pops (run_from next ns) ns items (pop_run next ns items)
unfolding pop_run
pop_run-Pops next [] items i h = stop_Pops [] items i
pop_run-Pops next (n ∷ ns) items i h =
    if_Pops (n == next) (n ∷ run_from (next + 1) ns) [] (n ∷ ns) items (pop_first next ns items)
      (record { removed = []; index = n ∷ ns; items = items })
      (λ e.
        subst (λ w. Pops (n ∷ run_from (w + 1) ns) (n ∷ ns) items (pop_first w ns items))
          (ground arith)
          (step_run n ns items i h (
            pop_run-Pops (n + 1) ns (delete n items) (pop_IsIndexed n ns items i)
              (λ k e. tail_bound k n ns (h k) e))))
      (λ e. stop_Pops (n ∷ ns) items i)
