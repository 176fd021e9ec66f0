-- ===== src/Merkel/Examples.antt =====
-- Trees over a hash without collisions: bytes are lists of numbers, and the first byte of a hash
-- holds all that is hashed.
use native.Mathlib.Decide.{ℕ_discrete}
use okchain.Prelude.{ℕ, ◌≡◌, ◌↔◌, refl, true, List, [], ◌∷◌, ◌++◌, none, some, length}
use okchain.Merkel.{
  append_last, make_even, repeat, new_leaf, new_inner, pair_up, climb, first_node, new_merkle_tree,
  compute_merkel_root, verify_merkel_root,
}
use okchain.Merkel.Lists.{∷_inj, append_inj}
use okchain.Merkel.Verified.{verify_merkel_root_iff}

abbrev pack : List (List ℕ) → List ℕ
pack [] = []
pack (x ∷ xs) = length x ∷ (x ++ pack xs)

pack_inj : (xs ys : List (List ℕ)) → pack xs ≡ pack ys → xs ≡ ys
pack_inj [] [] h = refl
pack_inj [] (y ∷ ys) h = absurd cc
pack_inj (x ∷ xs) [] h = absurd cc
pack_inj (x ∷ xs) (y ∷ ys) h =
    let (n, t) = ∷_inj h in
    let (p, q) = append_inj x (pack xs) y (pack ys) n t in cc (p, pack_inj xs ys q)

abbrev hashed : List (List ℕ) → List (List ℕ)
hashed xs = pack xs ∷ repeat [] 31

hashed_inj : (xs ys : List (List ℕ)) → hashed xs ≡ hashed ys → xs ≡ ys
hashed_inj xs ys h = pack_inj xs ys ((∷_inj h).0)

Text-discrete : Discrete (List (List ℕ))
Text-discrete = hlevel ℕ_discrete

abbrev tx_hash : ℕ → List (List ℕ)
tx_hash n = (n ∷ []) ∷ []

tx_hash_inj : (m n : ℕ) → tx_hash m ≡ tx_hash n → m ≡ n
tx_hash_inj m n h = (∷_inj ((∷_inj h).0)).0

abbrev three : List ℕ
three = 5 ∷ 6 ∷ 7 ∷ []

abbrev repeated : List ℕ
repeated = 5 ∷ 6 ∷ 7 ∷ 7 ∷ []

abbrev root : List (List ℕ)
root = elim (compute_merkel_root hashed [] tx_hash three) [ none ↦ [] | some r ↦ r ]

root_lem : compute_merkel_root hashed [] tx_hash three ≡ some root
unfolding compute_merkel_root new_merkle_tree make_even append_last climb pair_up new_leaf new_inner
    first_node
root_lem = refl

same_size : length (make_even repeated) ≡ length (make_even three)
unfolding make_even append_last
same_size = refl

-- The last transaction twice has the same root.
verify_merkel_root_iff_example :
    (verify_merkel_root hashed Text-discrete [] tx_hash repeated root ≡ some true)
    ↔ (make_even repeated ≡ make_even three)
verify_merkel_root_iff_example =
    verify_merkel_root_iff hashed Text-discrete [] tx_hash repeated three root hashed_inj
      (λ x. refl) tx_hash_inj same_size root_lem

repeated_verifies : verify_merkel_root hashed Text-discrete [] tx_hash repeated root ≡ some true
unfolding make_even append_last
repeated_verifies =
    (verify_merkel_root_iff hashed Text-discrete [] tx_hash repeated three root hashed_inj
        (λ x. refl) tx_hash_inj same_size root_lem).1
      refl
