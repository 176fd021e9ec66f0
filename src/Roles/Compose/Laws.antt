-- ===== src/Roles/Compose/Laws.antt =====
-- What the committee's new DS block does to the nodes.
use mathlib.Core.List.Perm
use mathlib.Core.List.{perm_append_comm, Perm, append_assoc}
use native.Mathlib.Nat.{div-eq_of_lt}
use okchain.Roles.Sharding.Deal.{FullShards_lem}
use okchain.Prelude.{
  ℕ, zero, suc, ◌*◌, get_elem?, ◌/◌, ◌≡◌, refl, sym, subst, ap, ◌∙◌, List, [], ◌∷◌, ◌++◌, Option,
  none, some, length, arith, if◌then◌else◌, if_rule, map, take, ltb, ltb→lt, ◌*◌, ◌-◌, ◌/◌, ap,
  subst, sym,
}
use okchain.Prelude.Result.{Result, ok}
use okchain.Roles.Peers.{Peer, drop_tail, last_peer, enqueue_and_dequeue_tail}
use okchain.Roles.Peers.Laws.{drop_tail-append}
use okchain.Roles.Types.{PowSubmission, DsBlock, Server, RoleEnv, RoleError}
use okchain.Roles.Compose.{kept_pows, pow_peers, make_ds_block, compose_from, compose_ds_block}

-- A composed block has a winner, other submissions, a last member of the committee and a sharding size.
unfoldable pub Composed : RoleEnv → Server → DsBlock → Type 0
Composed env s block =
    (pow : PowSubmission) × (pows : List PowSubmission) × (last : Peer) × (k : ℕ) × (s.pow_sub_list
      ≡ pow ∷ pows)
    × (last_peer s.committee ≡ some last)
    × (s.sharding_size ≡ suc k)
    × (block ≡ make_ds_block env s pow pows (length (pow ∷ pows) / suc k) last)

ok_inj :
    {a b : DsBlock}
    → ◌≡◌ {A = Option (Result RoleError DsBlock)} (some (ok a)) (some (ok b))
    → a ≡ b
ok_inj h = cc

pub compose_ds_block-Composed :
    (env : RoleEnv) (s : Server) (block : DsBlock)
    → compose_ds_block env s ≡ some (ok block)
    → Composed env s block
unfolding compose_ds_block compose_from Composed
compose_ds_block-Composed env s block h =
    go s.sharding_size s.pow_sub_list (last_peer s.committee) refl refl refl h
  where
    go :
        (size : ℕ) (pows : List PowSubmission) (last : Option Peer)
        → s.sharding_size ≡ size
        → s.pow_sub_list ≡ pows
        → last_peer s.committee ≡ last
        → compose_from env s size pows last ≡ some (ok block)
        → Composed env s block
    go size [] last e f g h = absurd cc
    go zero (pow ∷ pows) last e f g h = absurd cc
    go (suc k) (pow ∷ pows) none e f g h = absurd cc
    go (suc k) (pow ∷ pows) (some last) e f g h = (pow, pows, last, k, f, g, e, sym (ok_inj h))

enqueue_and_dequeue_tail_lem :
    (ps : List Peer) (e last : Peer)
    → last_peer ps ≡ some last
    → enqueue_and_dequeue_tail ps e ≡ e ∷ drop_tail ps
unfolding enqueue_and_dequeue_tail drop_tail last_peer
enqueue_and_dequeue_tail_lem [] e last h = absurd cc
enqueue_and_dequeue_tail_lem (p ∷ []) e last h = refl
enqueue_and_dequeue_tail_lem (p ∷ q ∷ ps) e last h = refl

length-drop_tail :
    {A : Type 0} (ps : List A) (q : A)
    → last_peer ps ≡ some q
    → suc (length (drop_tail ps)) ≡ length ps
unfolding drop_tail last_peer
length-drop_tail [] q h = absurd cc
length-drop_tail (p ∷ []) q h = refl
length-drop_tail (p ∷ r ∷ ps) q h = omega (arith, length-drop_tail (r ∷ ps) q h)

-- How many of `n` submissions a block keeps: those of the full shards, or all where no shard is full.
abbrev pub kept_count : ℕ → ℕ → ℕ
kept_count size n = if ltb n size then n else n / size * size

-- The peers of the submissions that a block keeps.
abbrev pub accepted : ℕ → List PowSubmission → List Peer
accepted size pows = map (λ (p : PowSubmission). p.peer) (take (kept_count size (length pows)) pows)

pub take-length : {A : Type 0} (xs : List A) → take (length xs) xs ≡ xs
take-length [] = refl
take-length (x ∷ xs) = cc (take-length xs)

kept_pows_lem :
    (k : ℕ) (pow : PowSubmission) (pows : List PowSubmission)
    → pow ∷ kept_pows (length (pow ∷ pows) / suc k * suc k) pows
      ≡ take (kept_count (suc k) (length (pow ∷ pows))) (pow ∷ pows)
unfolding kept_pows
kept_pows_lem k pow pows =
    let n : ℕ = length (pow ∷ pows) in
    let total : ℕ = n / suc k * suc k in
    if_rule (λ (count : ℕ). pow ∷ kept_pows total pows ≡ take count (pow ∷ pows)) (ltb n (suc k)) n
      total
      (λ few.
        let none_full : n / suc k ≡ 0 = div-eq_of_lt (ltb→lt n (suc k) few) in
        ground (arith, ap (λ (num : ℕ). num * suc k) none_full, take-length pows))
      (λ enough.
        let (pos, _, ge) = FullShards_lem k n (ground (arith, enough)) in
        ground (
          arith,
          pos,
          ge,
          ap (λ (count : ℕ). take count (pow ∷ pows)) {x = suc (total - 1)} {y = total}
              (omega (arith, pos, ge)),
        ))

made-Perm :
    (ps : List Peer) (e last : Peer) (kept : List Peer)
    → last_peer ps ≡ some last
    → Perm (enqueue_and_dequeue_tail ps e ++ last ∷ kept) ((e ∷ kept) ++ ps)
made-Perm ps e last kept h = rw (enqueue_and_dequeue_tail_lem ps e last h) (
    Perm.cons e (
      subst (λ (l : List Peer). Perm l (kept ++ ps))
        (ap (λ (l : List Peer). l ++ kept) (sym (drop_tail-append ps last h))
          ∙ append_assoc (drop_tail ps) (last ∷ []) kept)
        (perm_append_comm ps kept)))

-- The committee has its length and the winner at its head, and each member of it and each accepted
-- submitter is in one of the two lists.
pub IsReassigned : Server → DsBlock → Type 0
IsReassigned s block =
    (length block.committee ≡ length s.committee)
    × (get_elem? block.committee 0 ≡ some block.new_leader)
    × Perm (block.committee ++ block.sharding_nodes)
        (accepted s.sharding_size s.pow_sub_list ++ s.committee)

-- A composed block puts the winner at the head of the committee, keeps the committee's length, and
-- moves every member of the committee and every accepted submitter to exactly one of its two lists.
pub compose_ds_block-IsReassigned :
    (env : RoleEnv) (s : Server) (block : DsBlock)
    → compose_ds_block env s ≡ some (ok block)
    → IsReassigned s block
unfolding Composed make_ds_block pow_peers IsReassigned
compose_ds_block-IsReassigned env s block h = go (compose_ds_block-Composed env s block h)
  where
    go : Composed env s block → IsReassigned s block
    go (pow, pows, last, k, f, g, e, b) =
        let same = enqueue_and_dequeue_tail_lem s.committee pow.peer last g in
        rw (b, f, e)
          (
            omega (arith, ap length same, length-drop_tail s.committee last g),
            ap (λ (l : List Peer). get_elem? l 0) same,
            subst
                (λ (kept : List PowSubmission).
                  Perm
                    (enqueue_and_dequeue_tail s.committee pow.peer
                      ++ last ∷ pow_peers (kept_pows (length (pow ∷ pows) / suc k * suc k) pows))
                    (map (λ (p : PowSubmission). p.peer) kept ++ s.committee))
                (kept_pows_lem k pow pows) (made-Perm s.committee pow.peer last _ g),
          )
