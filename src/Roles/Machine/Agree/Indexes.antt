-- ===== src/Roles/Machine/Agree/Indexes.antt =====
-- `Index` of protos/peerendpoint.go against the places of a list.
use okchain.Prelude.{
  ℕ, zero, suc, ◌+◌, ◌≡◌, ◌≢◌, refl, List, [], ◌∷◌, none, some, subst, Option-cases, ◌==◌,
  get_elem?, arith, Bool-cases, inl, inr,
}
use okchain.Roles.Peers.{Peer, index_from, index}

-- No name stands at two places.
unfoldable pub IsNamedOnce : List Peer → Type 0
IsNamedOnce ps =
    (i j : ℕ) (p q : Peer)
    → get_elem? ps i ≡ some p
    → get_elem? ps j ≡ some q
    → p.name ≡ q.name
    → i ≡ j

index_from_get :
    (k i : ℕ) (ps : List Peer) (e : Peer)
    → index_from k ps e ≡ some i
    → (j : ℕ) × (i ≡ k + j) × (p : Peer) × (get_elem? ps j ≡ some p) × (p.name ≡ e.name)
unfolding index_from
index_from_get k i [] e h = absurd cc
index_from_get k i (p ∷ ps) e h = elim (Bool-cases (p.name == e.name)) [
  | inl t ↦ (0, ground arith, p, refl, ground arith)
  | inr f ↦
      let (j, here, q, got, named) = index_from_get (suc k) i ps e (ground arith) in
      (suc j, omega (arith, here), q, got, named)
]

index_from_miss :
    (k j : ℕ) (ps : List Peer) (e p : Peer)
    → index_from k ps e ≡ none
    → get_elem? ps j ≡ some p
    → p.name ≢ e.name
unfolding index_from
index_from_miss k zero (q ∷ ps) e p h g = ground arith
index_from_miss k (suc j) (q ∷ ps) e p h g = index_from_miss (suc k) j ps e p (ground arith) g
index_from_miss k j [] e p h g = absurd cc

-- The place that `Index` gives has the name, and where it gives none no place has it.
pub index_get :
    (i : ℕ) (ps : List Peer) (e : Peer)
    → index ps e ≡ some i
    → (p : Peer) × (get_elem? ps i ≡ some p) × (p.name ≡ e.name)
unfolding index
index_get i ps e h =
    let (j, here, p, got, named) = index_from_get 0 i ps e h in
    (p, subst (λ n. get_elem? ps n ≡ some p) (omega (arith, here)) got, named)

pub index_miss :
    (j : ℕ) (ps : List Peer) (e p : Peer)
    → index ps e ≡ none
    → get_elem? ps j ≡ some p
    → p.name ≢ e.name
unfolding index
index_miss j ps e p h g = index_from_miss 0 j ps e p h g

pub index_at :
    (j : ℕ) (ps : List Peer) (e p : Peer)
    → IsNamedOnce ps
    → get_elem? ps j ≡ some p
    → p.name ≡ e.name
    → index ps e ≡ some j
unfolding IsNamedOnce
index_at j ps e p once g n = elim (Option-cases (index ps e)) [
  | inl h ↦ absurd (index_miss j ps e p h g n)
  | inr (i, h) ↦
      let (q, got, named) = index_get i ps e h in
      subst (λ k. index ps e ≡ some k) (once i j q p got g (ground arith)) h
]

pub index_head :
    (p : Peer) (ps : List Peer) (e : Peer) → p.name ≡ e.name → index (p ∷ ps) e ≡ some 0
unfolding index index_from
index_head p ps e h = ground arith
