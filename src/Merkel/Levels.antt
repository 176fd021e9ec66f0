-- ===== src/Merkel/Levels.antt =====
-- The levels of a tree shrink to one node in the rounds of the loop.
use okchain.Prelude.{
  ℕ, zero, suc, ◌*◌, ◌%◌, ◌≤◌, ◌≡◌, refl, ap, ◌∙◌, List, [], ◌∷◌, some, length, arith, not, ◌==◌,
  if_rule,
}
use okchain.Merkel.{MerkleNode, append_last, make_even, new_inner, pair_up, climb}

pub length-append_last :
    {A : Type 0} (x : A) (xs : List A) → length (append_last (x ∷ xs)) ≡ suc (suc (length xs))
unfolding append_last
length-append_last x [] = refl
length-append_last x (y ∷ ys) = omega (arith, length-append_last y ys)

-- The list is made even, and at most one longer.
pub record IsMadeEven {A : Type 0} (xs ys : List A) : Type 0 where
  pub even : length ys % 2 ≡ 0
  pub least : length xs ≤ length ys
  pub most : length ys ≤ suc (length xs)

pub make_even-IsMadeEven : {A : Type 0} (xs : List A) → IsMadeEven xs (make_even xs)
unfolding make_even append_last
make_even-IsMadeEven [] = record { even = refl; least = omega arith; most = omega arith }
make_even-IsMadeEven (x ∷ xs) =
    if_rule (IsMadeEven (x ∷ xs)) (not (length (x ∷ xs) % 2 == 0)) (append_last (x ∷ xs)) (x ∷ xs)
      (λ t. record {
        even = ground (arith, length-append_last x xs);
        least = omega (arith, length-append_last x xs);
        most = omega (arith, length-append_last x xs);
      })
      (λ f. record { even = ground arith; least = omega arith; most = omega arith })

module _ {B : Type 0} (sha256 : List B → List B) where
  -- A level of an even length is paired up.
  pub pair_up_halves :
      (ns : List (MerkleNode B))
      → length ns % 2 ≡ 0
      → (ms : List (MerkleNode B)) × (pair_up sha256 ns ≡ some ms) × (2 * length ms ≡ length ns)
  unfolding pair_up
  pair_up_halves [] e = ([], refl, refl)
  pair_up_halves (l ∷ []) e = absurd (omega (arith, e))
  pair_up_halves (l ∷ r ∷ ns) e =
      let (ms, p, h) = pair_up_halves ns (omega (arith, e)) in
      (new_inner sha256 l r ∷ ms, rw (pair_up, p) refl, omega (arith, h))

  climb_step :
      (k : ℕ) (ns ms : List (MerkleNode B))
      → pair_up sha256 ns ≡ some ms
      → climb sha256 (suc k) ns ≡ climb sha256 k (make_even ms)
  unfolding climb
  climb_step k ns ms p = rw (climb, p) refl

  climb_none : (xs : List (MerkleNode B)) → climb sha256 0 xs ≡ some xs
  unfolding climb
  climb_none xs = refl

  one_doubled :
      (ms : List (MerkleNode B)) → length ms ≡ 1 → (n : MerkleNode B) × (make_even ms ≡ n ∷ n ∷ [])
  unfolding make_even append_last
  one_doubled [] e = absurd (omega (arith, e))
  one_doubled (n ∷ []) e = (n, refl)
  one_doubled (n ∷ m ∷ ms) e = absurd (omega (arith, e))

  -- With as many rounds as half the nodes, the last level is one node, twice.
  pub climb_ends :
      (k : ℕ) (ns : List (MerkleNode B))
      → length ns % 2 ≡ 0
      → 2 ≤ length ns
      → length ns ≤ 2 * suc k
      → (n : MerkleNode B) × (climb sha256 (suc k) ns ≡ some (n ∷ n ∷ []))
  climb_ends zero ns e low high =
      let (ms, p, h) = pair_up_halves ns e in
      let (n, q) = one_doubled ms (omega (arith, h, low, high)) in
      (n, climb_step 0 ns ms p ∙ climb_none (make_even ms) ∙ ap some q)
  climb_ends (suc k) ns e low high =
      let (ms, p, h) = pair_up_halves ns e in
      let even = make_even-IsMadeEven ms in
      let (n, q) =
        climb_ends k (make_even ms) even.even (omega (arith, h, low, even.least, even.even))
          (omega (arith, h, high, even.most, even.even)) in
      (n, climb_step (suc k) ns ms p ∙ q)
