-- ===== src/Merkel/Roots.antt =====
-- What a root tells of the data below it.
use okchain.Prelude.{
  ℕ, zero, suc, ◌/◌, ◌%◌, ◌≤◌, ◌≡◌, ◌↔◌, refl, sym, ap, subst, ◌∙◌, List, [], ◌∷◌, Option, none,
  some, some_inj, length, map, arith,
}
use okchain.Merkel.{
  MerkleNode, leaf, repeat, data_of, append_last, make_even, new_leaf, pair_up, climb, first_node,
  new_merkle_tree,
}
use okchain.Merkel.Lists.{∷_inj, make_even_inj, map_inj, make_even-map, length-map}
use okchain.Merkel.Pairs.{Sized, leaves-Sized, make_even-Sized, pair_up-IsPaired, pair_up_inj}
use okchain.Merkel.Levels.{make_even-IsMadeEven, climb_ends}

module _ {B : Type 0} (sha256 : List B → List B) where
  climb_cases :
      (k : ℕ) (ns ends : List (MerkleNode B))
      → climb sha256 (suc k) ns ≡ some ends
      → (ms : List (MerkleNode B)) × (pair_up sha256 ns ≡ some ms)
        × (climb sha256 k (make_even ms) ≡ some ends)
  unfolding climb
  climb_cases k ns ends h = go (pair_up sha256 ns) refl h
    where
      go :
          (o : Option (List (MerkleNode B)))
          → pair_up sha256 ns ≡ o
          → elim o as (λ _. Option (List (MerkleNode B))) [
            | none ↦ none
            | some ms ↦ climb sha256 k (make_even ms)
          ]
            ≡ some ends
          → (ms : List (MerkleNode B)) × (pair_up sha256 ns ≡ some ms)
            × (climb sha256 k (make_even ms) ≡ some ends)
      go none e q = absurd cc
      go (some ms) e q = (ms, e, q)

  length-make_even :
      (xs ys : List (MerkleNode B))
      → length xs ≡ length ys
      → length (make_even xs) ≡ length (make_even ys)
  length-make_even xs ys e =
      let a = make_even-IsMadeEven xs in
      let b = make_even-IsMadeEven ys in
      omega (arith, e, a.even, a.least, a.most, b.even, b.least, b.most)

  -- The last levels are alike only if the first ones are.
  climb_inj :
      (k : ℕ) (ns ns' ends ends' : List (MerkleNode B))
      → ((x y : List B) → sha256 x ≡ sha256 y → x ≡ y)
      → ((x : List B) → length (sha256 x) ≡ 32)
      → Sized sha256 ns
      → Sized sha256 ns'
      → length ns ≡ length ns'
      → climb sha256 k ns ≡ some ends
      → climb sha256 k ns' ≡ some ends'
      → map data_of ends ≡ map data_of ends'
      → map data_of ns ≡ map data_of ns'
  unfolding climb
  climb_inj zero ns ns' ends ends' free w s s' e c c' h =
      ap (map data_of) (some_inj c) ∙ h ∙ ap (map data_of) (sym (some_inj c'))
  climb_inj (suc k) ns ns' ends ends' free w s s' e c c' h =
      let (ms, p, q) = climb_cases k ns ends c in
      let (ms', p', q') = climb_cases k ns' ends' c' in
      let low = pair_up-IsPaired sha256 ns ms p in
      let low' = pair_up-IsPaired sha256 ns' ms' p' in
      let same : length ms ≡ length ms' = omega (arith, e, low.halves, low'.halves) in
      let above =
        climb_inj k (make_even ms) (make_even ms') ends ends' free w
          (make_even-Sized sha256 ms (low.sized w)) (make_even-Sized sha256 ms' (low'.sized w))
          (length-make_even ms ms' same) q q' h in
      pair_up_inj sha256 free ns ns' ms ms' s s' p p' e (
        make_even_inj (map data_of ms) (map data_of ms')
          (length-map data_of ms ∙ same ∙ sym (length-map data_of ms'))
          (make_even-map data_of ms ∙ above ∙ sym (make_even-map data_of ms')))

  -- The tree of data that is not empty.
  pub record IsBuilt (digit : B) (ds : List (List B)) (n : MerkleNode B) : Type 0 where
    pub built : new_merkle_tree sha256 digit ds ≡ some n
    pub ends :
        climb sha256 (length (make_even ds) / 2) (map (new_leaf sha256) (make_even ds))
        ≡ some (n ∷ n ∷ [])

  -- The loop ends with one node, and no level has an odd length.
  pub new_merkle_tree-IsBuilt :
      (digit : B) (d : List B) (ds : List (List B)) → (n : MerkleNode B) × IsBuilt digit (d ∷ ds) n
  unfolding new_merkle_tree first_node
  new_merkle_tree-IsBuilt digit d ds =
      let even = make_even-IsMadeEven (d ∷ ds) in
      let leaves = map (new_leaf sha256) (make_even (d ∷ ds)) in
      let size = length-map (new_leaf sha256) (make_even (d ∷ ds)) in
      let (k, half) =
        half_suc (length (make_even (d ∷ ds))) even.even (omega (arith, even.least)) in
      let (n, c) =
        climb_ends sha256 k leaves (omega (arith, size, even.even))
          (omega (arith, size, even.even, even.least)) (omega (arith, size, half, even.even)) in
      let c' = subst (λ j. climb sha256 j leaves ≡ some (n ∷ n ∷ [])) (sym half) c in
      (n, record { built = ap first_node c'; ends = c' })
    where
      half_suc : (m : ℕ) → m % 2 ≡ 0 → 1 ≤ m → (k : ℕ) × (m / 2 ≡ suc k)
      half_suc zero e l = absurd (omega (arith, l))
      half_suc (suc zero) e l = absurd (omega (arith, e))
      half_suc (suc (suc m)) e l = (m / 2, omega arith)

leaf_data :
    {B : Type 0} (sha256 : List B → List B) (ds : List (List B))
    → map data_of (map (new_leaf sha256) ds) ≡ map sha256 ds
unfolding new_leaf
leaf_data sha256 [] = refl
leaf_data sha256 (d ∷ ds) = cc (leaf_data sha256 ds)

ends_compared :
    {B : Type 0} (sha256 : List B → List B) (xs ys : List (List B)) (n m : MerkleNode B)
    → ((x y : List B) → sha256 x ≡ sha256 y → x ≡ y)
    → ((x : List B) → length (sha256 x) ≡ 32)
    → length xs ≡ length ys
    → climb sha256 (length xs / 2) (map (new_leaf sha256) xs) ≡ some (n ∷ n ∷ [])
    → climb sha256 (length ys / 2) (map (new_leaf sha256) ys) ≡ some (m ∷ m ∷ [])
    → (data_of n ≡ data_of m) ↔ (xs ≡ ys)
ends_compared sha256 xs ys n m free w e c c' =
    let leaves = map (new_leaf sha256) xs in
    let leaves' = map (new_leaf sha256) ys in
    let d = subst (λ (k : ℕ). climb sha256 (k / 2) leaves' ≡ some (m ∷ m ∷ [])) (sym e) c' in
    (
      λ h. map_inj sha256 xs ys free (
          sym (leaf_data sha256 xs)
          ∙ climb_inj sha256 (length xs / 2) leaves leaves' (n ∷ n ∷ []) (m ∷ m ∷ []) free w
              (leaves-Sized sha256 xs w) (leaves-Sized sha256 ys w)
              (length-map _ xs ∙ e ∙ sym (length-map _ ys)) c d (ap (λ (b : List _). b ∷ b ∷ []) h)
          ∙ leaf_data sha256 ys),
      λ h. ap data_of (
          (∷_inj (
            some_inj (
              sym c
              ∙ ap (λ (zs : List _). climb sha256 (length xs / 2) (map (new_leaf sha256) zs)) h
              ∙ d))).0),
    )

-- Two trees: both are built, and their roots tell what their leaves tell.
pub record AreCompared {B : Type 0} (sha256 : List B → List B) (digit : B) (ds es : List (List B))
    : Type 0 where
  pub first : MerkleNode B
  pub second : MerkleNode B
  pub built_first : new_merkle_tree sha256 digit ds ≡ some first
  pub built_second : new_merkle_tree sha256 digit es ≡ some second
  pub compared : (data_of first ≡ data_of second) ↔ (make_even ds ≡ make_even es)

pub new_merkle_tree-AreCompared :
    {B : Type 0} (sha256 : List B → List B) (digit : B) (ds es : List (List B))
    → ((x y : List B) → sha256 x ≡ sha256 y → x ≡ y)
    → ((x : List B) → length (sha256 x) ≡ 32)
    → length (make_even ds) ≡ length (make_even es)
    → AreCompared sha256 digit ds es
unfolding new_merkle_tree make_even append_last
new_merkle_tree-AreCompared sha256 digit [] [] free w e = record {
  first = leaf (repeat digit 32);
  second = leaf (repeat digit 32);
  built_first = refl;
  built_second = refl;
  compared = (λ h. refl, λ h. refl);
}
new_merkle_tree-AreCompared sha256 digit [] (x ∷ es) free w e =
    absurd (omega (arith, e, (make_even-IsMadeEven (x ∷ es)).least))
new_merkle_tree-AreCompared sha256 digit (x ∷ ds) [] free w e =
    absurd (omega (arith, e, (make_even-IsMadeEven (x ∷ ds)).least))
new_merkle_tree-AreCompared sha256 digit (x ∷ ds) (y ∷ es) free w e =
    let (n, t) = new_merkle_tree-IsBuilt sha256 digit x ds in
    let (m, u) = new_merkle_tree-IsBuilt sha256 digit y es in
    record {
      first = n;
      second = m;
      built_first = t.built;
      built_second = u.built;
      compared =
          ends_compared sha256 (make_even (x ∷ ds)) (make_even (y ∷ es)) n m free w e t.ends u.ends;
    }
