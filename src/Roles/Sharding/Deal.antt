-- ===== src/Roles/Sharding/Deal.antt =====
-- Every node of the full shards is dealt to one shard.
use mathlib.Core.List.Perm
use mathlib.Core.List.{perm_middle, perm_append_singleton, Perm, append_assoc, append-nil}
use okchain.Prelude.{
  ℕ, zero, suc, ◌-◌, ◌*◌, ◌/◌, ◌%◌, ◌≤◌, ◌<◌, ◌≡◌, sym, subst, Bool, true, false, List, [], ◌∷◌,
  ◌++◌, some, some_inj, ◌==◌, if◌then◌else◌, if_rule, length, take, u32, u32_mod, arith,
}
use native.Mathlib.Nat.{mod-lt, div-add-mod', le-div_iff_mul-le}
use okchain.Roles.Peers.{Peer}
use okchain.Roles.Sharding.{PeerEndpointMap, append_at, fill_map, reset_sharding_map}

-- The nodes of the shards below `n`, in the order of the shards.
abbrev pub all_shards : ℕ → PeerEndpointMap → List Peer
all_shards zero m = []
all_shards (suc n) m = all_shards n m ++ m n

Perm_append_nil : (ps : List Peer) → Perm (ps ++ []) ps
Perm_append_nil ps = subst (λ (l : List Peer). Perm l ps) (sym (append-nil ps)) (Perm.refl ps)

all_shards-append_ge :
    (n : ℕ) (m : PeerEndpointMap) (k : ℕ) (p : Peer)
    → n ≤ k
    → all_shards n (append_at m k p) ≡ all_shards n m
unfolding append_at
all_shards-append_ge zero m k p h = cc
all_shards-append_ge (suc n) m k p h = ground (arith, all_shards-append_ge n m k p (omega arith))

all_shards-append :
    (n : ℕ) (m : PeerEndpointMap) (k : ℕ) (p : Peer)
    → k < n
    → Perm (all_shards n (append_at m k p)) (p ∷ all_shards n m)
unfolding append_at
all_shards-append zero m k p h = absurd (omega arith)
all_shards-append (suc n) m k p h =
    if_rule
      (λ (last : List Peer).
        Perm (all_shards n (append_at m k p) ++ last) (p ∷ (all_shards n m ++ m n)))
      (n == k) _ _
      (λ t.
        subst (λ (l : List Peer). Perm (l ++ (m n ++ p ∷ [])) (p ∷ (all_shards n m ++ m n)))
          (sym (all_shards-append_ge n m k p (ground arith)))
          (subst (λ (l : List Peer). Perm l (p ∷ (all_shards n m ++ m n)))
            (append_assoc (all_shards n m) (m n) (p ∷ []))
            (perm_append_singleton p (all_shards n m ++ m n))))
      (λ f. Perm.append_right (m n) (all_shards-append n m k p (ground arith)))

pub u32_small : (num i : ℕ) → 1 ≤ num → num ≤ u32_mod → u32 (i % num) ≡ i % num
u32_small num i h l = omega (arith, mod-lt i h)

fill_map-Perm :
    (num i k : ℕ) (nodes : List Peer) (m : PeerEndpointMap)
    → 1 ≤ num
    → num ≤ u32_mod
    → Perm (all_shards num (fill_map num i k nodes m)) (all_shards num m ++ take k nodes)
unfolding fill_map
fill_map-Perm num i zero nodes m h l = Perm.symm (Perm_append_nil _)
fill_map-Perm num i (suc k) [] m h l = Perm.symm (Perm_append_nil _)
fill_map-Perm num i (suc k) (p ∷ ps) m h l =
    let m1 : PeerEndpointMap = append_at m (u32 (i % num)) p in
    Perm.trans (fill_map-Perm num (suc i) k ps m1 h l) (
      Perm.trans
        (Perm.append_right (take k ps)
          (all_shards-append num m _ p (omega (arith, u32_small num i h l, mod-lt i h))))
        (Perm.symm (perm_middle (all_shards num m) (take k ps))))

all_shards-empty : (n : ℕ) → all_shards n (λ _. []) ≡ []
all_shards-empty zero = cc
all_shards-empty (suc n) = cc (all_shards-empty n)

total-le : (len s : ℕ) → len / suc s * suc s ≤ len
total-le len s = omega (arith, div-add-mod' len (suc s))

pub mul_ge : (num s : ℕ) → num ≤ num * suc s
mul_ge zero s = omega arith
mul_ge (suc num) s = omega (arith, mul_ge num s)

num_pos : (len s : ℕ) → suc s ≤ len → 1 ≤ len / suc s
num_pos len s f = (le-div_iff_mul-le {k = suc s} {x = 1} {y = len} (omega arith)).1 (omega arith)

-- The number of full shards, where there is one.
abbrev pub FullShards : ℕ → ℕ → ℕ → Type 0
FullShards num size len = (1 ≤ num) × (num * size ≤ len) × (num ≤ num * size)

pub FullShards_lem : (s len : ℕ) → suc s ≤ len → FullShards (len / suc s) (suc s) len
FullShards_lem s len f = (num_pos len s f, total-le len s, mul_ge _ s)

-- The map where a shard is full.
pub reset_sharding_map-some :
    (s : ℕ) (p : Peer) (ps : List Peer) (m : PeerEndpointMap)
    → suc s ≤ length (p ∷ ps)
    → reset_sharding_map (suc s) (p ∷ ps) ≡ some m
    → let num = length (p ∷ ps) / suc s in
      m ≡ append_at (fill_map num 1 (num * suc s - 1) ps (λ _. [])) 0 p
unfolding reset_sharding_map
reset_sharding_map-some s p ps m f e =
    let full = FullShards_lem s (length (p ∷ ps)) f in
    go _ _ (length (p ∷ ps) / suc s * suc s) (length (p ∷ ps) / suc s * suc s == 0)
      (λ i. length (p ∷ ps) / suc s * suc s == 0) (omega (arith, full.0, full.2)) e
  where
    go :
        (x y : PeerEndpointMap) (t : ℕ) (b : Bool)
        → (t == 0) ≡ b
        → 1 ≤ t
        → (if b then some x else some y) ≡ some m
        → m ≡ y
    go x y t true h l e = absurd (ground arith)
    go x y t false h l e = sym (some_inj e)

-- With nodes enough for a shard, and at most `u32_mod` of them, every node up to the last full
-- shard is in exactly one list of the committee's map of shards, as often as the DS block has it.
pub reset_sharding_map-Perm :
    (size : ℕ) (nodes : List Peer) (m : PeerEndpointMap)
    → 1 ≤ size
    → size ≤ length nodes
    → length nodes ≤ u32_mod
    → reset_sharding_map size nodes ≡ some m
    → let num = length nodes / size in Perm (all_shards num m) (take (num * size) nodes)
reset_sharding_map-Perm zero nodes m h f l e = absurd (omega arith)
reset_sharding_map-Perm (suc s) [] m h f l e = absurd (omega arith)
reset_sharding_map-Perm (suc s) (p ∷ ps) m h f l e =
    let num : ℕ = length (p ∷ ps) / suc s in
    let (pos, fits, ge) = FullShards_lem s (length (p ∷ ps)) f in
    go num pos (omega (arith, fits, ge)) ge (reset_sharding_map-some s p ps m f e)
  where
    go :
        (num : ℕ)
        → 1 ≤ num
        → num ≤ u32_mod
        → num ≤ num * suc s
        → m ≡ append_at (fill_map num 1 (num * suc s - 1) ps (λ _. [])) 0 p
        → Perm (all_shards num m) (take (num * suc s) (p ∷ ps))
    go num pos l ge e =
        let filled : PeerEndpointMap = fill_map num 1 (num * suc s - 1) ps (λ _. []) in
        subst (λ (m' : PeerEndpointMap). Perm (all_shards num m') (take (num * suc s) (p ∷ ps)))
          (sym e)
          (subst (λ (k : ℕ). Perm (all_shards num (append_at filled 0 p)) (take k (p ∷ ps)))
            {x = suc (num * suc s - 1)} {y = num * suc s} (omega arith)
            (Perm.trans (all_shards-append num filled 0 p (omega arith)) (
              Perm.cons p (
                subst
                  (λ (l : List Peer). Perm (all_shards num filled) (l ++ take (num * suc s - 1) ps))
                  (all_shards-empty num)
                  (fill_map-Perm num 1 (num * suc s - 1) ps (λ _. []) pos l)))))
