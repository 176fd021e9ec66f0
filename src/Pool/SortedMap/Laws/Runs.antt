-- ===== src/Pool/SortedMap/Laws/Runs.antt =====
-- Which nonces the loops over the heap take.
use okchain.Prelude.{
  ℕ, zero, suc, ◌+◌, ◌≤◌, ◌≡◌, refl, true, false, ◌&&◌, List, [], ◌∷◌, ◌++◌, ltb, leb, ◌==◌,
  if_rule, length, arith,
}
use okchain.Pool.SortedMap.Laws.Nonces.{holds_nonce, IsAscending}
use okchain.Pool.SortedMap.Laws.Popping.{nonces_below, run_from}

-- `first`, `first + 1` and so on.
abbrev pub count_up : ℕ → ℕ → List ℕ
count_up first zero = []
count_up first (suc len) = first ∷ count_up (first + 1) len

pub holds_nonce-count_up :
    (k first len : ℕ) → holds_nonce k (count_up first len) ≡ (leb first k && ltb k (first + len))
unfolding holds_nonce
holds_nonce-count_up k first zero = ground arith
holds_nonce-count_up k first (suc len) = ground (arith, holds_nonce-count_up k (first + 1) len)

pub run_from-count_up :
    (next : ℕ) (ns : List ℕ) → run_from next ns ≡ count_up next (length (run_from next ns))
run_from-count_up next [] = refl
run_from-count_up next (n ∷ ns) =
    if_rule (λ xs. xs ≡ count_up next (length xs)) (n == next) (n ∷ run_from (next + 1) ns) []
      (λ e. ground (arith, run_from-count_up (next + 1) ns)) (λ e. refl)

run_on :
    (next n : ℕ) (ns : List ℕ) (len : ℕ)
    → n ≡ next
    → holds_nonce (next + 1 + len) ns ≡ false
    → holds_nonce (next + suc len) (n ∷ ns) ≡ false
unfolding holds_nonce
run_on next n ns len e h = ground arith

-- The nonce after the run is not on the heap.
pub after_run :
    (next : ℕ) (ns : List ℕ)
    → IsAscending ns
    → ((k : ℕ) → holds_nonce k ns ≡ true → next ≤ k)
    → holds_nonce (next + length (run_from next ns)) ns ≡ false
unfolding holds_nonce IsAscending
after_run next [] a h = refl
after_run next (n ∷ ns) a h =
    if_rule (λ xs. holds_nonce (next + length xs) (n ∷ ns) ≡ false) (n == next)
      (n ∷ run_from (next + 1) ns) []
      (λ e.
        run_on next n ns (length (run_from (next + 1) ns)) (ground arith)
          (after_run (next + 1) ns a.1 (λ k m. ground (arith, a.0 k))))
      (λ e. ground (arith, a.0 next, h n))

pub holds_nonce-nonces_below :
    (k t : ℕ) (ns : List ℕ)
    → IsAscending ns
    → holds_nonce k (nonces_below t ns) ≡ (ltb k t && holds_nonce k ns)
unfolding holds_nonce IsAscending
holds_nonce-nonces_below k t [] a = ground arith
holds_nonce-nonces_below k t (n ∷ ns) a = ground (arith, a.0 k, holds_nonce-nonces_below k t ns a.1)

pub has_right : (k : ℕ) (xs ys : List ℕ) → holds_nonce k ys ≡ true → holds_nonce k (xs ++ ys) ≡ true
unfolding holds_nonce
has_right k [] ys h = h
has_right k (x ∷ xs) ys h = ground (arith, has_right k xs ys)

pub has_left : (k : ℕ) (xs ys : List ℕ) → holds_nonce k xs ≡ true → holds_nonce k (xs ++ ys) ≡ true
unfolding holds_nonce
has_left k [] ys h = absurd (ground arith)
has_left k (x ∷ xs) ys h = ground (arith, has_left k xs ys)
