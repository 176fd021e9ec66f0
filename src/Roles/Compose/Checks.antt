-- ===== src/Roles/Compose/Checks.antt =====
-- What a backup's check of a DS block accepts.
use okchain.Prelude.{
  ℕ, zero, suc, ◌+◌, ◌*◌, ◌/◌, ◌≡◌, refl, ◌∙◌, sym, ap, Bool, true, false, List, [], ◌∷◌, ◌++◌,
  Option, none, some, some_inj, ◌==◌, Bool-cases, inl, inr, length, get_elem?, u64, arith,
}
use okchain.Prelude.Result.{Result, ok, err}
use okchain.Roles.Peers.{Peer, Peer-discrete, last_peer}
use okchain.Roles.Types.{PowSubmission, DsBlock, Server, RoleEnv, RoleError}
use okchain.Roles.Compose.{
  kept_pows, pow_peers, sharding_sum_of, make_ds_block, compose_ds_block, nodes_match,
  check_new_leader, check_nodes, header_fits, check_ds_block, verify_ds_block,
}
use okchain.Roles.Compose.Laws.{Composed, compose_ds_block-Composed}

nodes_match_self : (pows : List PowSubmission) → nodes_match pows (pow_peers pows) ≡ some true
unfolding nodes_match pow_peers
nodes_match_self [] = refl
nodes_match_self (p ∷ ps) = ground (arith, nodes_match_self ps)

check_new_leader_self :
    (pow : PowSubmission) (block : DsBlock)
    → pow.peer ≡ block.new_leader
    → check_new_leader pow block (some true) ≡ some (ok block)
unfolding check_new_leader
check_new_leader_self pow block h =
    elim (Peer-discrete pow.peer block.new_leader)
      as (λ d.
        ◌≡◌ {A = Option (Result RoleError DsBlock)}
          (elim d [ yes _ ↦ some (ok block) | no _ ↦ some (err RoleError.verify_block) ])
          (some (ok block))) [ yes _ ↦ refl | no ne ↦ absurd (ne h) ]

check_nodes_self :
    (total : ℕ) (pow : PowSubmission) (pows : List PowSubmission) (block : DsBlock) (last : Peer)
    → pow.peer ≡ block.new_leader
    → check_nodes total pow pows block (last ∷ pow_peers (kept_pows total pows)) (some last)
      ≡ some (ok block)
unfolding check_nodes
check_nodes_self total pow pows block last h =
    ground (arith, nodes_match_self (kept_pows total pows), check_new_leader_self pow block h)

header_fits_self :
    (env : RoleEnv) (s : Server) (pow : PowSubmission) (block : DsBlock)
    → pow.public_key ≡ block.winner_pub_key
    → pow.nonce ≡ block.winner_nonce
    → u64 (s.ds_current.block_number + 1) ≡ block.block_number
    → pow.difficulty ≡ block.pow_difficulty
    → block.previous_block_hash ≡ env.ds_hash s.ds_current
    → header_fits env s pow block ≡ true
unfolding header_fits
header_fits_self env s pow block a b c d e = ground arith

check_ds_block_self :
    (env : RoleEnv) (s : Server) (pow : PowSubmission) (pows : List PowSubmission) (block : DsBlock)
    (k : ℕ)
    → header_fits env s pow block ≡ true
    → sharding_sum_of (length (pow ∷ pows) / suc k) ≡ block.sharding_sum
    → check_ds_block env s block (suc k) (pow ∷ pows)
      ≡ check_nodes
          (length (pow ∷ pows) / suc k * suc k)
          pow
          pows
          block
          block.sharding_nodes
          (last_peer s.committee)
unfolding check_ds_block
check_ds_block_self env s pow pows block k h e = ground arith

-- A block that the leader composed passes the check of a backup that has the same submissions, the
-- same committee, the same current DS block and the same sharding size, if the winner's submission
-- names the leader's difficulty; it becomes the backup's current DS block.
pub verify_ds_block-compose_ds_block :
    (env : RoleEnv) (s s' : Server) (block : DsBlock) (pow : PowSubmission)
    → compose_ds_block env s ≡ some (ok block)
    → s'.pow_sub_list ≡ s.pow_sub_list
    → s'.committee ≡ s.committee
    → s'.ds_current ≡ s.ds_current
    → s'.sharding_size ≡ s.sharding_size
    → get_elem? s.pow_sub_list 0 ≡ some pow
    → pow.difficulty ≡ s.pow_difficulty
    → verify_ds_block env s' block ≡ some (ok block)
unfolding Composed make_ds_block verify_ds_block
verify_ds_block-compose_ds_block env s s' block pow h a b c d first diff =
    go (compose_ds_block-Composed env s block h)
  where
    go : Composed env s block → verify_ds_block env s' block ≡ some (ok block)
    go (pow', pows, last, k, f, g, e, made) =
        let num : ℕ = length (pow' ∷ pows) / suc k in
        let same : pow ≡ pow' =
          some_inj (sym first ∙ ap (λ (l : List PowSubmission). get_elem? l 0) f) in
        let made' : block ≡ make_ds_block env s pow' pows num last = made in
        let header : header_fits env s' pow' block ≡ true =
          header_fits_self env s' pow' block (rw made) (rw made) (rw (made, c))
            (rw made (cc (same, diff))) (rw (made, c)) in
        let nodes : block.sharding_nodes ≡ last ∷ pow_peers (kept_pows (num * suc k) pows) =
          rw (made, e) in
        cc (
          a,
          f,
          d,
          e,
          b,
          g,
          nodes,
          check_ds_block_self env s' pow' pows block k header (rw made),
          check_nodes_self (num * suc k) pow' pows block last (rw made),
        )

nodes_match-append :
    (pows : List PowSubmission) (nodes more : List Peer)
    → nodes_match pows nodes ≡ some true
    → nodes_match pows (nodes ++ more) ≡ some true
unfolding nodes_match
nodes_match-append [] nodes more h = refl
nodes_match-append (p ∷ ps) [] more h = absurd cc
nodes_match-append (p ∷ ps) (q ∷ qs) more h = elim (Bool-cases (p.peer.name == q.name)) [
  | inl t ↦ ground (arith, nodes_match-append ps qs more (ground arith))
  | inr f ↦ absurd (ground arith)
]

-- The block with another committee, and with more sharding nodes.
abbrev pub altered : DsBlock → List Peer → List Peer → DsBlock
altered block committee more = record block {
  committee = committee;
  sharding_nodes = block.sharding_nodes ++ more;
}

check_new_leader-ok :
    (pow : PowSubmission) (block block' : DsBlock) (o : Option Bool)
    → check_new_leader pow block o ≡ some (ok block')
    → (o ≡ some true) × (pow.peer ≡ block.new_leader)
unfolding check_new_leader
check_new_leader-ok pow block block' none h = absurd cc
check_new_leader-ok pow block block' (some false) h = absurd cc
check_new_leader-ok pow block block' (some true) h = go (Peer-discrete pow.peer block.new_leader) h
  where
    go :
        (d : Dec (pow.peer ≡ block.new_leader))
        → (elim d [ yes _ ↦ some (ok block) | no _ ↦ some (err RoleError.verify_block) ])
          ≡ some (ok block')
        → (some true ≡ some true) × (pow.peer ≡ block.new_leader)
    go (yes e) h = (refl, e)
    go (no _) h = absurd cc

check_nodes-altered :
    (total : ℕ) (pow : PowSubmission) (pows : List PowSubmission) (block : DsBlock)
    (nodes : List Peer) (last : Option Peer) (committee more : List Peer)
    → check_nodes total pow pows block nodes last ≡ some (ok block)
    → check_nodes total pow pows (altered block committee more) (nodes ++ more) last
      ≡ some (ok (altered block committee more))
unfolding check_nodes
check_nodes-altered total pow pows block [] last committee more h = absurd cc
check_nodes-altered total pow pows block (q ∷ qs) none committee more h = absurd cc
check_nodes-altered total pow pows block (q ∷ qs) (some last) committee more h =
    elim (Bool-cases (q.name == last.name)) [
      | inl t ↦
          let inner =
            check_new_leader-ok pow block block (nodes_match (kept_pows total pows) qs)
              (ground arith) in
          ground (
            arith,
            nodes_match-append (kept_pows total pows) qs more inner.0,
            check_new_leader_self pow (altered block committee more) inner.1,
          )
      | inr f ↦ absurd (ground arith)
    ]

header_fits-altered :
    (env : RoleEnv) (s : Server) (pow : PowSubmission) (block : DsBlock)
    (committee more : List Peer)
    → header_fits env s pow (altered block committee more) ≡ header_fits env s pow block
unfolding header_fits
header_fits-altered env s pow block committee more = refl

check_ds_block-altered :
    (env : RoleEnv) (s : Server) (block : DsBlock) (committee more : List Peer) (size : ℕ)
    (pows : List PowSubmission)
    → check_ds_block env s block size pows ≡ some (ok block)
    → check_ds_block env s (altered block committee more) size pows
      ≡ some (ok (altered block committee more))
unfolding check_ds_block
check_ds_block-altered env s block committee more size [] h = absurd cc
check_ds_block-altered env s block committee more zero (pow ∷ pows) h =
    elim (Bool-cases (header_fits env s pow block)) [
      | inl t ↦ absurd (ground arith)
      | inr f ↦ absurd (ground arith)
    ]
check_ds_block-altered env s block committee more (suc k) (pow ∷ pows) h =
    let num : ℕ = length (pow ∷ pows) / suc k in
    elim (Bool-cases (header_fits env s pow block)) [
      | inl t ↦ elim (Bool-cases (sharding_sum_of num == block.sharding_sum)) [
        | inl e ↦ ground (
          arith,
          header_fits-altered env s pow block committee more,
          check_nodes-altered (num * suc k) pow pows block block.sharding_nodes
              (last_peer s.committee) committee more (ground arith),
        )
        | inr e ↦ absurd (ground arith)
      ]
      | inr f ↦ absurd (ground arith)
    ]

-- A block that passes a backup's check still passes with any other committee and with any more
-- sharding nodes, and becomes the backup's current DS block in that form.
pub verify_ds_block-altered :
    (env : RoleEnv) (s : Server) (block : DsBlock) (committee more : List Peer)
    → verify_ds_block env s block ≡ some (ok block)
    → verify_ds_block env s (altered block committee more)
      ≡ some (ok (altered block committee more))
unfolding verify_ds_block
verify_ds_block-altered env s block committee more h =
    check_ds_block-altered env s block committee more s.sharding_size s.pow_sub_list h
