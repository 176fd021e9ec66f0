-- ===== src/Roles/Sharding/Sizes.antt =====
-- How many nodes each shard gets.
use native.Mathlib.Nat.{zero-mod, mod-eq_of_lt, mul-add-mod_self_right}
use okchain.Prelude.{
  ℕ, zero, suc, ◌+◌, ◌-◌, ◌*◌, ◌/◌, ◌%◌, ◌≤◌, ◌<◌, ◌≡◌, refl, ◌∙◌, sym, subst, List, [], ◌∷◌, some,
  ◌==◌, leb, if◌then◌else◌, length, length-append, u32, u32_mod, arith,
}
use okchain.Roles.Peers.{Peer}
use okchain.Roles.Sharding.{PeerEndpointMap, append_at, fill_map, reset_sharding_map}
use okchain.Roles.Sharding.Deal.{
  u32_small, reset_sharding_map-some, FullShards, FullShards_lem, mul_ge,
}

-- How many of the `k` numbers from `i` on leave `id` modulo `num`.
abbrev pub count_mod : ℕ → ℕ → ℕ → ℕ → ℕ
count_mod num id i zero = 0
count_mod num id i (suc k) = (if i % num == id then 1 else 0) + count_mod num id (suc i) k

count_mod_at : (num id i j k l : ℕ) → i ≡ j → k ≡ l → count_mod num id i k ≡ count_mod num id j l
count_mod_at num id i j k l h e = cc

count_mod-add :
    (num id i a b : ℕ)
    → count_mod num id i (a + b) ≡ count_mod num id i a + count_mod num id (i + a) b
count_mod-add num id i zero b = omega (
  arith,
  count_mod_at num id i i (0 + b) b refl (omega arith),
  count_mod_at num id (i + 0) i b b (omega arith) refl,
)
count_mod-add num id i (suc a) b = omega (
  arith,
  count_mod-add num id (suc i) a b,
  count_mod_at num id i i (suc a + b) (suc (a + b)) refl (omega arith),
  count_mod_at num id (suc i + a) (i + suc a) b b (omega arith) refl,
)

-- A part of one run of `num` numbers, from its `r`-th number to its end.
count_mod_run :
    (num id q r k : ℕ)
    → id < num
    → r + k ≡ num
    → count_mod num id (q * num + r) k ≡ (if leb r id then 1 else 0)
count_mod_run num id q r zero h e = ground arith
count_mod_run num id q r (suc k) h e =
    let low : (q * num + r) % num ≡ r =
      mul-add-mod_self_right q num r ∙ mod-eq_of_lt (omega arith) in
    ground (
      arith,
      count_mod_run num id q (suc r) k h (omega arith),
      count_mod_at num id (q * num + suc r) (suc (q * num + r)) k k (omega arith) refl,
      low,
    )

count_mod_runs : (num id q n : ℕ) → id < num → count_mod num id (q * num) (n * num) ≡ n
count_mod_runs num id q zero h = ground arith
count_mod_runs num id q (suc n) h =
    let first : count_mod num id (q * num + 0) num ≡ 1 =
      count_mod_run num id q 0 num h (omega arith) ∙ ground arith in
    omega (
      arith,
      first,
      count_mod_runs num id (suc q) n h,
      count_mod-add num id (q * num) num (n * num),
      count_mod_at num id (q * num + 0) (q * num) num num (omega arith) refl,
      count_mod_at num id (q * num) (q * num) (suc n * num) (num + n * num) refl (omega arith),
      count_mod_at num id (q * num + num) (suc q * num) (n * num) (n * num) (omega arith) refl,
    )

length-append_at :
    (m : PeerEndpointMap) (k : ℕ) (p : Peer) (id : ℕ)
    → length (append_at m k p id) ≡ length (m id) + (if k == id then 1 else 0)
unfolding append_at
length-append_at m k p id = ground (arith, length-append (m id) (p ∷ []))

length-fill_map :
    (num i k : ℕ) (nodes : List Peer) (m : PeerEndpointMap) (id : ℕ)
    → 1 ≤ num
    → num ≤ u32_mod
    → k ≤ length nodes
    → length (fill_map num i k nodes m id) ≡ length (m id) + count_mod num id i k
unfolding fill_map
length-fill_map num i zero nodes m id h l f = omega arith
length-fill_map num i (suc k) [] m id h l f = absurd (omega arith)
length-fill_map num i (suc k) (p ∷ ps) m id h l f =
    let m1 : PeerEndpointMap = append_at m (u32 (i % num)) p in
    ground (
      arith,
      length-fill_map num (suc i) k ps m1 id h l (omega arith),
      length-append_at m (u32 (i % num)) p id,
      u32_small num i h l,
    )

first_lem :
    (num id s : ℕ)
    → 1 ≤ num
    → id < num
    → (if 0 == id then 1 else 0) + count_mod num id 1 (num * suc s - 1) ≡ suc s
first_lem num id s pos b =
    let all : count_mod num id (0 * num) (suc s * num)
        ≡ count_mod num id 0 (suc (num * suc s - 1)) =
      count_mod_at num id (0 * num) 0 (suc s * num) (suc (num * suc s - 1)) (omega arith)
        (omega (arith, mul_ge num s)) in
    ground (arith, count_mod_runs num id 0 (suc s) b, all, zero-mod num)

-- Every full shard of the committee's map has as many nodes as the sharding size says.
pub reset_sharding_map-length :
    (size : ℕ) (nodes : List Peer) (m : PeerEndpointMap) (id : ℕ)
    → 1 ≤ size
    → size ≤ length nodes
    → length nodes ≤ u32_mod
    → reset_sharding_map size nodes ≡ some m
    → id < length nodes / size
    → length (m id) ≡ size
reset_sharding_map-length zero nodes m id h f l e b = absurd (omega arith)
reset_sharding_map-length (suc s) [] m id h f l e b = absurd (omega arith)
reset_sharding_map-length (suc s) (p ∷ ps) m id h f l e b =
    let num : ℕ = length (p ∷ ps) / suc s in
    go num (FullShards_lem s (length (p ∷ ps)) f) b (reset_sharding_map-some s p ps m f e)
  where
    go :
        (num : ℕ)
        → FullShards num (suc s) (length (p ∷ ps))
        → id < num
        → m ≡ append_at (fill_map num 1 (num * suc s - 1) ps (λ _. [])) 0 p
        → length (m id) ≡ suc s
    go num (pos, fits, ge) b e =
        let filled : PeerEndpointMap = fill_map num 1 (num * suc s - 1) ps (λ _. []) in
        let first : (if 0 == id then 1 else 0) + count_mod num id 1 (num * suc s - 1) ≡ suc s =
          first_lem num id s pos b in
        subst (λ (m' : PeerEndpointMap). length (m' id) ≡ suc s) (sym e)
          (omega (
            arith,
            first,
            length-append_at filled 0 p id,
            length-fill_map num 1 (num * suc s - 1) ps (λ _. []) id pos (omega (arith, fits, ge, l))
                (omega (arith, fits)),
          ))
