-- ===== src/Roles/ViewChange/Shard/Rounds.antt =====
-- One view change of a shard, and a second one before the first has ended.
use native.Mathlib.Nat.{mod-lt, mod-eq_of_lt, mod_self}
use okchain.Prelude.{
  ℕ, zero, suc, ◌+◌, ◌%◌, ◌≤◌, ◌<◌, ◌≡◌, ◌≢◌, refl, sym, ◌∙◌, ap, Bool, List, [], ◌∷◌, Option, some,
  some_inj, ◌==◌, ==_iff, Bool-cases, inl, inr, length, get_elem?, arith,
}
use okchain.Prelude.Result.{ok, err}
use okchain.Bft.Types.{micro_block_consensus, view_change_consensus}
use okchain.Roles.Peers.{Peer}
use okchain.Roles.Types.{Server, RoleError}
use okchain.Roles.ViewChange.{
  Node, VcBlock, own_new_leader, get_new_leader, start_view_change, micro_leader,
  leader_when_not_view_change, leader_in_view_change, leader_after_vc, after_key, verify_vc_block,
}
use okchain.Roles.ViewChange.Shard.{
  staged, shard_started, start_view_change_shard, vc_naming, shard_started_fields, verify_started,
}

-- Two entries of a list with the same public key are one entry.
abbrev pub DistinctKeys : List Peer → Type 0
DistinctKeys ps =
    (i j : ℕ) (p q : Peer)
    → get_elem? ps i ≡ some p
    → get_elem? ps j ≡ some q
    → p.pubkey ≡ q.pubkey
    → i ≡ j

after_key_found :
    (all : List Peer) (i j : ℕ) (ps : List Peer) (p : Peer)
    → DistinctKeys ps
    → get_elem? ps j ≡ some p
    → after_key all p.pubkey i ps ≡ get_elem? all ((i + j + 1) % length all)
unfolding after_key
after_key_found all i j [] p d h = absurd cc
after_key_found all i zero (q ∷ qs) p d h = let same : q ≡ p = some_inj h in ground (arith, same)
after_key_found all i (suc j) (q ∷ qs) p d h = elim (Bool-cases (q.pubkey == p.pubkey)) [
  | inl t ↦ absurd (omega (arith, d 0 (suc j) q p refl h ((==_iff _ _).0 t)))
  | inr f ↦
      let later =
        after_key_found all (suc i) j qs p
          (λ a b x y g k e. omega (arith, d (suc a) (suc b) x y g k e)) h in
      let shift : suc i + j + 1 ≡ i + suc j + 1 = omega arith in
      ground (
        arith,
        later,
        ap (λ (x : ℕ). get_elem? all (x % length all)) {x = suc i + j + 1} {y = i + suc j + 1}
            shift,
      )
]

get_elem?-some : (ps : List Peer) (i : ℕ) → i < length ps → (p : Peer) × (get_elem? ps i ≡ some p)
get_elem?-some [] i h = absurd (omega arith)
get_elem?-some (p ∷ ps) zero h = (p, refl)
get_elem?-some (p ∷ ps) (suc i) h = get_elem?-some ps i (omega arith)

get_elem?-lt : (ps : List Peer) (i : ℕ) (p : Peer) → get_elem? ps i ≡ some p → i < length ps
get_elem?-lt [] i p h = absurd cc
get_elem?-lt (q ∷ ps) zero p h = omega arith
get_elem?-lt (q ∷ ps) (suc i) p h = omega (arith, get_elem?-lt ps i p h)

next_ne : (i n : ℕ) → i < n → 2 ≤ n → (i + 1) % n ≢ i
next_ne i n h l e = elim (Bool-cases (i + 1 == n)) [
  | inl t ↦
      let full : i + 1 ≡ n = (==_iff _ _).0 t in
      omega (arith, e, mod_self n, ap (λ (x : ℕ). x % n) full)
  | inr f ↦ omega (arith, e, mod-eq_of_lt {n = i + 1} {m = n} (ground arith))
]

micro_leader_same :
    (s t : Server) (k : ℕ)
    → t.sharding_nodes ≡ s.sharding_nodes
    → t.ds_current ≡ s.ds_current
    → t.tx_current ≡ s.tx_current
    → micro_leader t k ≡ micro_leader s k
unfolding micro_leader
micro_leader_same s t zero nodes ds tx = refl
micro_leader_same s t (suc k) nodes ds tx = cc (nodes, ds, tx)

-- In a first view change of a shard, two nodes that have the same nodes and the same blocks compose
-- the same view change block; it names the node after the round's leader, and each of them accepts
-- the other's.
pub first_view_change :
    (n m : Node) (l : Peer)
    → micro_leader n.server n.server.sharding_size ≡ some (some l)
    → m.server.sharding_nodes ≡ n.server.sharding_nodes
    → m.server.ds_current ≡ n.server.ds_current
    → m.server.tx_current ≡ n.server.tx_current
    → m.server.sharding_size ≡ n.server.sharding_size
    → (n' : Node) × (m' : Node) × (b : VcBlock) × (start_view_change n micro_block_consensus
          micro_block_consensus
        ≡ some (ok n'))
      × (start_view_change m micro_block_consensus micro_block_consensus ≡ some (ok m'))
      × (n'.current_vc ≡ some b)
      × (m'.current_vc ≡ some b)
      × (b.new_leader ≡ some l)
      × (verify_vc_block m' b ≡ some (ok b))
unfolding get_new_leader leader_when_not_view_change
first_view_change n m l h nodes ds tx size =
    let n1 : Node = staged n micro_block_consensus micro_block_consensus in
    let m1 : Node = staged m micro_block_consensus micro_block_consensus in
    let is_n : Bool = l.pubkey == n.server.self_node.pubkey in
    let is_m : Bool = l.pubkey == m.server.self_node.pubkey in
    let own : micro_leader m.server m.server.sharding_size ≡ some (some l) =
      ap (micro_leader m.server) size
      ∙ micro_leader_same n.server m.server n.server.sharding_size nodes ds tx
      ∙ h in
    let block : vc_naming m1 l ≡ vc_naming n1 l = cc (ds, tx) in
    (
      shard_started is_n n1 l,
      shard_started is_m m1 l,
      vc_naming n1 l,
      start_view_change_shard n micro_block_consensus l h,
      start_view_change_shard m micro_block_consensus l own,
      (shard_started_fields is_n n1 l).0,
      (shard_started_fields is_m m1 l).0 ∙ ap some block,
      refl,
      verify_started is_m m1 (vc_naming n1 l) l l (sym block) own ∙ ground arith,
    )

after_named :
    (s : Server) (c : VcBlock) (i : ℕ) (l : Peer)
    → c.new_leader ≡ some l
    → get_elem? s.sharding_nodes i ≡ some l
    → DistinctKeys s.sharding_nodes
    → (vc : Option VcBlock) → vc ≡ some c
    → leader_in_view_change s micro_block_consensus vc
      ≡ get_elem? s.sharding_nodes ((i + 1) % length s.sharding_nodes)
unfolding leader_in_view_change leader_after_vc
after_named s c i l named at distinct vc e = cc (
  e,
  named,
  after_key_found s.sharding_nodes 0 i s.sharding_nodes l distinct at,
  ap (λ (x : ℕ). get_elem? s.sharding_nodes (x % length s.sharding_nodes)) {x = 0 + i + 1}
      {y = i + 1} (omega arith),
)

-- In a further view change of a shard of two nodes or more with distinct keys, whose current view
-- change block names the `i`-th node, a node composes a block that names the next one, and then
-- refuses that very block.
pub second_view_change :
    (n : Node) (c : VcBlock) (i : ℕ) (l : Peer)
    → n.current_vc ≡ some c
    → c.new_leader ≡ some l
    → get_elem? n.server.sharding_nodes i ≡ some l
    → DistinctKeys n.server.sharding_nodes
    → 2 ≤ length n.server.sharding_nodes
    → (n' : Node) × (b : VcBlock) × (l' : Peer) × (start_view_change n view_change_consensus
          micro_block_consensus
        ≡ some (ok n'))
      × (n'.current_vc ≡ some b)
      × (b.new_leader ≡ some l')
      × (get_elem? n.server.sharding_nodes ((i + 1) % length n.server.sharding_nodes) ≡ some l')
      × (verify_vc_block n' b ≡ some (err RoleError.verify_block))
unfolding get_new_leader
second_view_change n c i l vc named at distinct two =
    let nodes : List Peer = n.server.sharding_nodes in
    let n1 : Node = staged n view_change_consensus micro_block_consensus in
    let len : ℕ = length nodes in
    let j : ℕ = (i + 1) % len in
    let k : ℕ = (j + 1) % len in
    let (l1, at1) = get_elem?-some nodes j (mod-lt (i + 1) (omega (arith, two))) in
    let (l2, at2) = get_elem?-some nodes k (mod-lt (j + 1) (omega (arith, two))) in
    let flag : Bool = l1.pubkey == n.server.self_node.pubkey in
    let first : own_new_leader n1 ≡ some (some l1) =
      ap some (after_named n.server c i l named at distinct n.current_vc vc ∙ at1) in
    let next : get_new_leader n1.server n1.current_stage n1.last_stage (some (vc_naming n1 l1))
        ≡ some (some l2) =
      ap some (after_named n.server (vc_naming n1 l1) j l1 refl at1 distinct _ refl ∙ at2) in
    let differ : l1.pubkey ≢ l2.pubkey =
      λ e. next_ne j len (get_elem?-lt nodes j l1 at1) two (sym (distinct j k l1 l2 at1 at2 e)) in
    (
      shard_started flag n1 l1,
      vc_naming n1 l1,
      l1,
      start_view_change_shard n view_change_consensus l1 first,
      (shard_started_fields flag n1 l1).0,
      refl,
      at1,
      verify_started flag n1 (vc_naming n1 l1) l1 l2 refl next ∙ ground (arith, differ),
    )
