-- ===== src/Pool/SortedMap/Laws/Nonces.antt =====
-- The primitive operations on the map and on the heap of nonces.
use okchain.Prelude.{
  ℕ, ◌<◌, ◌≡◌, refl, Bool, true, false, ◌||◌, ◌&&◌, not, Option, none, some, List, [], ◌∷◌, ltb,
  ◌==◌, if◌then◌else◌, if_rule, arith,
}
use okchain.Pool.SortedMap.{Transaction, Items, lookup, delete, store, push_nonce, remove_nonce}

abbrev pub is_some : Option Transaction → Bool
is_some none = false
is_some (some tx) = true

-- The nonce stands on the heap.
unfoldable pub holds_nonce : ℕ → List ℕ → Bool
holds_nonce k [] = false
holds_nonce k (n ∷ ns) = (k == n) || holds_nonce k ns

unfoldable pub IsAscending : List ℕ → Type 0
IsAscending [] = Unit
IsAscending (n ∷ ns) = ((k : ℕ) → holds_nonce k ns ≡ true → n < k) × IsAscending ns

pub lookup-delete :
    (k n : ℕ) (items : Items)
    → lookup k (delete n items) ≡ (if k == n then none else lookup k items)
unfolding lookup delete
lookup-delete k n [] = ground arith
lookup-delete k n ((j, tx) ∷ items) = ground (arith, lookup-delete k n items)

pub lookup-store :
    (k n : ℕ) (tx : Transaction) (items : Items)
    → lookup k (store n tx items) ≡ (if k == n then some tx else lookup k items)
unfolding lookup store
lookup-store k n tx items = ground (arith, lookup-delete k n items)

pub holds_nonce-push_nonce :
    (k n : ℕ) (ns : List ℕ) → holds_nonce k (push_nonce n ns) ≡ ((k == n) || holds_nonce k ns)
unfolding holds_nonce push_nonce
holds_nonce-push_nonce k n [] = refl
holds_nonce-push_nonce k n (x ∷ xs) = ground (arith, holds_nonce-push_nonce k n xs)

above_cons :
    (k n x : ℕ) (xs : List ℕ)
    → n < x
    → ((k : ℕ) → holds_nonce k xs ≡ true → x < k)
    → holds_nonce k (x ∷ xs) ≡ true
    → n < k
unfolding holds_nonce
above_cons k n x xs l a e = ground (arith, a k)

above_push :
    (k n x : ℕ) (xs : List ℕ)
    → ((k : ℕ) → holds_nonce k xs ≡ true → x < k)
    → x < n
    → holds_nonce k (push_nonce n xs) ≡ true
    → x < k
above_push k n x xs a l e = ground (arith, a k, holds_nonce-push_nonce k n xs)

pub holds_nonce-remove_nonce :
    (k n : ℕ) (ns : List ℕ)
    → IsAscending ns
    → holds_nonce k (remove_nonce n ns) ≡ (not (k == n) && holds_nonce k ns)
unfolding IsAscending holds_nonce remove_nonce
holds_nonce-remove_nonce k n [] a = ground arith
holds_nonce-remove_nonce k n (x ∷ xs) a = ground (arith, a.0 k, holds_nonce-remove_nonce k n xs a.1)

pub push_nonce-IsAscending :
    (n : ℕ) (ns : List ℕ)
    → holds_nonce n ns ≡ false
    → IsAscending ns
    → IsAscending (push_nonce n ns)
unfolding IsAscending holds_nonce push_nonce
push_nonce-IsAscending n [] h a = ((λ k e. absurd (ground arith)), tt)
push_nonce-IsAscending n (x ∷ xs) h a =
    if_rule IsAscending (ltb n x) (n ∷ x ∷ xs) (x ∷ push_nonce n xs)
      (λ t. ((λ k e. above_cons k n x xs (ground arith) a.0 e), a))
      (λ f. (
        (λ k e. above_push k n x xs a.0 (ground arith) e),
        push_nonce-IsAscending n xs (ground arith) a.1,
      ))

above_remove :
    (k n x : ℕ) (xs : List ℕ)
    → IsAscending (x ∷ xs)
    → holds_nonce k (remove_nonce n xs) ≡ true
    → x < k
unfolding IsAscending
above_remove k n x xs a e = ground (arith, a.0 k, holds_nonce-remove_nonce k n xs a.1)

pub remove_nonce-IsAscending :
    (n : ℕ) (ns : List ℕ) → IsAscending ns → IsAscending (remove_nonce n ns)
unfolding IsAscending holds_nonce remove_nonce
remove_nonce-IsAscending n [] a = a
remove_nonce-IsAscending n (x ∷ xs) a =
    if_rule IsAscending (x == n) xs (x ∷ remove_nonce n xs) (λ t. a.1)
      (λ f. ((λ k e. above_remove k n x xs a e), remove_nonce-IsAscending n xs a.1))

-- No key of the map stands in the list twice.
unfoldable pub IsDistinct : Items → Type 0
IsDistinct [] = Unit
IsDistinct ((n, tx) ∷ items) = (lookup n items ≡ none) × IsDistinct items

pub delete-IsDistinct : (k : ℕ) (items : Items) → IsDistinct items → IsDistinct (delete k items)
unfolding IsDistinct delete
delete-IsDistinct k [] d = d
delete-IsDistinct k ((n, tx) ∷ items) d =
    if_rule IsDistinct (k == n) (delete k items) ((n, tx) ∷ delete k items)
      (λ e. delete-IsDistinct k items d.1)
      (λ e. (ground (arith, lookup-delete n k items, d.0), delete-IsDistinct k items d.1))

pub store-IsDistinct :
    (n : ℕ) (tx : Transaction) (items : Items) → IsDistinct items → IsDistinct (store n tx items)
unfolding IsDistinct store
store-IsDistinct n tx items d =
    (ground (arith, lookup-delete n n items), delete-IsDistinct n items d)
