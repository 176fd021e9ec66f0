-- ===== src/Merkel/Pairs.antt =====
-- A level determines the level below it.
use okchain.Prelude.{
  ◌*◌, ◌%◌, ◌≡◌, refl, sym, ap, subst, ◌∙◌, List, [], ◌∷◌, Option, none, some, some_inj, length,
  map, arith, not, ◌==◌, if_rule,
}
use okchain.Merkel.{MerkleNode, data_of, append_last, make_even, new_leaf, new_inner, pair_up}
use okchain.Merkel.Lists.{∷_inj, append_inj}

module _ {B : Type 0} (sha256 : List B → List B) where
  -- The data of all nodes are as long as a hash.
  abbrev pub Sized : List (MerkleNode B) → Type 0
  Sized [] = Unit
  Sized (n ∷ ns) = (length (data_of n) ≡ 32) × Sized ns

  pub leaves-Sized :
      (ds : List (List B))
      → ((x : List B) → length (sha256 x) ≡ 32)
      → Sized (map (new_leaf sha256) ds)
  unfolding new_leaf
  leaves-Sized [] w = tt
  leaves-Sized (d ∷ ds) w = (w d, leaves-Sized ds w)

  append_last-Sized : (ns : List (MerkleNode B)) → Sized ns → Sized (append_last ns)
  unfolding append_last
  append_last-Sized [] s = tt
  append_last-Sized (n ∷ []) (p, s) = (p, (p, tt))
  append_last-Sized (n ∷ m ∷ ns) (p, s) = (p, append_last-Sized (m ∷ ns) s)

  pub make_even-Sized : (ns : List (MerkleNode B)) → Sized ns → Sized (make_even ns)
  unfolding make_even
  make_even-Sized ns s =
      if_rule Sized (not (length ns % 2 == 0)) (append_last ns) ns (λ t. append_last-Sized ns s)
        (λ f. s)

  -- What a level tells of the one below it.
  pub record IsPaired (ns ms : List (MerkleNode B)) : Type 0 where
    pub halves : 2 * length ms ≡ length ns
    pub sized : ((x : List B) → length (sha256 x) ≡ 32) → Sized ms

  pair_up_cons :
      (l r : MerkleNode B) (ns ms : List (MerkleNode B))
      → pair_up sha256 (l ∷ r ∷ ns) ≡ some ms
      → (rest : List (MerkleNode B)) × (pair_up sha256 ns ≡ some rest)
        × (ms ≡ new_inner sha256 l r ∷ rest)
  unfolding pair_up
  pair_up_cons l r ns ms h = go (pair_up sha256 ns) refl h
    where
      go :
          (o : Option (List (MerkleNode B)))
          → pair_up sha256 ns ≡ o
          → elim o as (λ _. Option (List (MerkleNode B))) [
            | none ↦ none
            | some rest ↦ some (new_inner sha256 l r ∷ rest)
          ]
            ≡ some ms
          → (rest : List (MerkleNode B)) × (pair_up sha256 ns ≡ some rest)
            × (ms ≡ new_inner sha256 l r ∷ rest)
      go none e q = absurd cc
      go (some rest) e q = (rest, e, sym (some_inj q))

  pub pair_up-IsPaired :
      (ns ms : List (MerkleNode B)) → pair_up sha256 ns ≡ some ms → IsPaired ns ms
  unfolding pair_up new_inner
  pair_up-IsPaired [] ms h =
      subst (IsPaired []) (some_inj h) (record { halves = refl; sized = λ w. tt })
  pair_up-IsPaired (l ∷ []) ms h = absurd cc
  pair_up-IsPaired (l ∷ r ∷ ns) ms h =
      let (rest, p, q) = pair_up_cons l r ns ms h in
      let below = pair_up-IsPaired ns rest p in
      subst (IsPaired (l ∷ r ∷ ns)) (sym q)
        (record { halves = omega (arith, below.halves); sized = λ w. (w _, below.sized w) })

  module _ (collision_free : (x y : List B) → sha256 x ≡ sha256 y → x ≡ y) where
    pub pair_up_inj :
        (ns ns' ms ms' : List (MerkleNode B))
        → Sized ns
        → Sized ns'
        → pair_up sha256 ns ≡ some ms
        → pair_up sha256 ns' ≡ some ms'
        → length ns ≡ length ns'
        → map data_of ms ≡ map data_of ms'
        → map data_of ns ≡ map data_of ns'
    unfolding pair_up new_inner
    pair_up_inj [] [] ms ms' s s' p p' e h = refl
    pair_up_inj [] (l ∷ ns') ms ms' s s' p p' e h = absurd (omega (arith, e))
    pair_up_inj (l ∷ ns) [] ms ms' s s' p p' e h = absurd (omega (arith, e))
    pair_up_inj (l ∷ []) (l' ∷ ns') ms ms' s s' p p' e h = absurd cc
    pair_up_inj (l ∷ r ∷ ns) (l' ∷ []) ms ms' s s' p p' e h = absurd cc
    pair_up_inj (l ∷ r ∷ ns) (l' ∷ r' ∷ ns') ms ms' (s1, (s2, s)) (t1, (t2, t)) p p' e h =
        let (rest, q, m) = pair_up_cons l r ns ms p in
        let (rest', q', m') = pair_up_cons l' r' ns' ms' p' in
        let (top, below) = ∷_inj (ap (map data_of) (sym m) ∙ h ∙ ap (map data_of) m') in
        let (a, b) =
          append_inj (data_of l) (data_of r) (data_of l') (data_of r') (omega (arith, s1, t1))
            (collision_free _ _ top) in
        cc (a, b, pair_up_inj ns ns' rest rest' s t q q' (omega (arith, e)) below)
