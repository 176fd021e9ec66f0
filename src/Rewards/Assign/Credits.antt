-- ===== src/Rewards/Assign/Credits.antt =====
-- The credits of a block (core/state_processor.go) add up to the fees and the yield.
use native.Mathlib.Nat.{div-add-mod, mul-le-mul_left, mul-le-mul_right, le_of_mul-le-mul_right}
use okchain.Prelude.{
  ℕ, zero, suc, ◌+◌, ◌-◌, ◌*◌, ◌/◌, ◌≤◌, ◌<◌, ◌≡◌, refl, sym, subst, ◌≢◌, List, [], ◌∷◌, ◌++◌,
  Option, none, some, leb, ◌==◌, if◌then◌else◌, length, get_elem?, inl, inr, ◌⊎◌, arith, Bool-cases,
}
use okchain.Rewards.Assign.{
  ShardReward, Header, Credit, insert_by_fee, sort_by_gas_fee, yield_reward, ◌>>=◌, shard_credits,
  shards_reward_total, backup_credits, ds_credits, reward_credits,
}

abbrev pub sum_fees : List ShardReward → ℕ
sum_fees [] = 0
sum_fees (x ∷ xs) = x.gas_fee + sum_fees xs

abbrev pub sum_credits : List Credit → ℕ
sum_credits [] = 0
sum_credits ((_, x) ∷ cs) = x + sum_credits cs

-- What a list of credits gives to one address.
abbrev pub credited : ℕ → List Credit → ℕ
credited a [] = 0
credited a ((b, x) ∷ cs) = (if a == b then x else 0) + credited a cs

-- Every shard has a leader's address in the header.
abbrev pub HasLeads : List ℕ → List ShardReward → Type 0
HasLeads leads [] = Unit
HasLeads leads (x ∷ xs) = (x.shard_id < length leads) × HasLeads leads xs

sum_fees-insert :
    (x : ShardReward) (ys : List ShardReward)
    → sum_fees (insert_by_fee x ys) ≡ x.gas_fee + sum_fees ys
unfolding insert_by_fee
sum_fees-insert x [] = refl
sum_fees-insert x (y ∷ ys) = ground (arith, sum_fees-insert x ys)

sum_fees-sort : (xs : List ShardReward) → sum_fees (sort_by_gas_fee xs) ≡ sum_fees xs
unfolding sort_by_gas_fee
sum_fees-sort [] = refl
sum_fees-sort (x ∷ xs) = omega (arith, sum_fees-insert x (sort_by_gas_fee xs), sum_fees-sort xs)

length-insert :
    (x : ShardReward) (ys : List ShardReward) → length (insert_by_fee x ys) ≡ suc (length ys)
unfolding insert_by_fee
length-insert x [] = refl
length-insert x (y ∷ ys) = ground (arith, length-insert x ys)

pub length-sort : (xs : List ShardReward) → length (sort_by_gas_fee xs) ≡ length xs
unfolding sort_by_gas_fee
length-sort [] = refl
length-sort (x ∷ xs) = omega (arith, length-insert x (sort_by_gas_fee xs), length-sort xs)

insert-HasLeads :
    (leads : List ℕ) (x : ShardReward) (ys : List ShardReward)
    → x.shard_id < length leads
    → HasLeads leads ys
    → HasLeads leads (insert_by_fee x ys)
unfolding insert_by_fee
insert-HasLeads leads x [] h hs = (h, tt)
insert-HasLeads leads x (y ∷ ys) h hs = elim (Bool-cases (leb x.gas_fee y.gas_fee)) [
  | inl p ↦ rw p (h, hs)
  | inr p ↦ rw p (hs.0, insert-HasLeads leads x ys h hs.1)
]

sort-HasLeads :
    (leads : List ℕ) (xs : List ShardReward)
    → HasLeads leads xs
    → HasLeads leads (sort_by_gas_fee xs)
unfolding sort_by_gas_fee
sort-HasLeads leads [] h = tt
sort-HasLeads leads (x ∷ xs) h =
    insert-HasLeads leads x (sort_by_gas_fee xs) h.0 (sort-HasLeads leads xs h.1)

div-mul-le : (a b : ℕ) → a / b * b ≤ a
div-mul-le a b = omega (arith, div-add-mod a b)

-- A percentage of the total, rounded down twice, is at most the exact share.
reward-le : (t fee f : ℕ) → t * (fee * 100 / f) / 100 * f ≤ t * fee
reward-le t fee f =
    let p = fee * 100 / f in
    let r = t * p / 100 in
    let r_le : r * 100 ≤ t * p = div-mul-le (t * p) 100 in
    let scaled : r * 100 * f ≤ t * p * f = mul-le-mul_right f r_le in
    let p_le : t * (p * f) ≤ t * (fee * 100) = mul-le-mul_left t (div-mul-le (fee * 100) f) in
    omega arith

get_elem?-some : (xs : List ℕ) (i : ℕ) → i < length xs → (a : ℕ) × (get_elem? xs i ≡ some a)
get_elem?-some [] i h = elim h [ ]
get_elem?-some (x ∷ xs) zero h = (x, refl)
get_elem?-some (x ∷ xs) (suc i) h = get_elem?-some xs i (omega arith)

shards_reward_total-le : (total cnt : ℕ) → shards_reward_total total cnt ≤ total
unfolding shards_reward_total
shards_reward_total-le total cnt = omega (arith, div-mul-le (total * 10) (11 + 10 * cnt))

-- `no_last * fee_total` is at most the exact shares of the shards already paid.
abbrev Covered : ℕ → ℕ → ℕ → List ShardReward → Type 0
Covered fee_total shards_total no_last xs =
    no_last * fee_total + shards_total * sum_fees xs ≤ shards_total * fee_total

-- With a positive fee total the loop pays exactly what is left of the shards' total.
abbrev pub PaysAll : ℕ → Option (List Credit) → Type 0
PaysAll total none = ⊥
PaysAll total (some cs) = sum_credits cs ≡ total

pay-PaysAll :
    (a r n t : ℕ) (o : Option (List Credit))
    → n + r ≤ t
    → PaysAll (t - (n + r)) o
    → PaysAll (t - n) (o >>= λ cs. some ((a, r) ∷ cs))
pay-PaysAll a r n t none le h = h
pay-PaysAll a r n t (some cs) le h = omega arith

shard_credits-PaysAll :
    (leads : List ℕ) (f t n : ℕ) (x : ShardReward) (xs : List ShardReward)
    → n ≤ t
    → (0 < f) ⊎ (xs ≡ [])
    → Covered f t n (x ∷ xs)
    → HasLeads leads (x ∷ xs)
    → PaysAll (t - n) (shard_credits leads f t n (x ∷ xs))
unfolding shard_credits
shard_credits-PaysAll leads f t n x [] le pos c h =
    let (a, e) = get_elem?-some leads x.shard_id h.0 in rw e (omega arith)
shard_credits-PaysAll leads zero t n x (y ∷ ys) le pos c h = absurd (ground arith)
shard_credits-PaysAll leads (suc f) t n x (y ∷ ys) le pos c h =
    let (a, e) = get_elem?-some leads x.shard_id h.0 in
    let r = t * (x.gas_fee * 100 / suc f) / 100 in
    let r_le : r * suc f ≤ t * x.gas_fee = reward-le t x.gas_fee (suc f) in
    let c' : Covered (suc f) t (n + r) (y ∷ ys) = omega arith in
    let le' : n + r ≤ t = le_of_mul-le-mul_right {k = suc f} (omega arith) (omega arith) in
    let ih = shard_credits-PaysAll leads (suc f) t (n + r) y ys le' (inl (omega arith)) c' h.1 in
    rw e (pay-PaysAll a r n t (shard_credits leads (suc f) t (n + r) (y ∷ ys)) le' ih)

sum_credits-append :
    (xs ys : List Credit) → sum_credits (xs ++ ys) ≡ sum_credits xs + sum_credits ys
sum_credits-append [] ys = omega arith
sum_credits-append (x ∷ xs) ys = omega (arith, sum_credits-append xs ys)

backup_credits_lem :
    (average left : ℕ) (xs : List ℕ)
    → average * length xs ≤ left
    → (backup_credits average left xs).0 + sum_credits (backup_credits average left xs).1 ≡ left
unfolding backup_credits
backup_credits_lem average left [] h = omega arith
backup_credits_lem average left (x ∷ xs) h =
    omega (arith, backup_credits_lem average (left - average) xs (omega arith))

ds_credits-PaysAll : (total : ℕ) (xs : List ℕ) → xs ≢ [] → PaysAll total (ds_credits total xs)
unfolding ds_credits
ds_credits-PaysAll total [] ne = absurd (ne refl)
ds_credits-PaysAll total (leader ∷ xs) ne =
    let average = total * 10 / (11 + 10 * length xs) in
    let credits = (backup_credits average total xs).1 in
    let left = (backup_credits average total xs).0 in
    let le : average * length xs ≤ total =
      omega (arith, div-mul-le (total * 10) (11 + 10 * length xs)) in
    omega (
      arith,
      backup_credits_lem average total xs le,
      sum_credits-append credits ((leader, left) ∷ []),
    )

join-PaysAll :
    (m n : ℕ) (a b : Option (List Credit))
    → PaysAll m a
    → PaysAll n b
    → PaysAll (m + n) (a >>= λ xs. b >>= λ ys. some (xs ++ ys))
join-PaysAll m n none b p q = p
join-PaysAll m n (some xs) none p q = q
join-PaysAll m n (some xs) (some ys) p q = omega (arith, sum_credits-append xs ys)

empty_of_length : (xs : List ShardReward) → suc (length xs) ≤ 1 → xs ≡ []
empty_of_length [] h = refl
empty_of_length (x ∷ xs) h = absurd (omega arith)

sorted-PaysAll :
    (leads : List ℕ) (f t : ℕ) (xs : List ShardReward)
    → (0 < f) ⊎ (length xs ≤ 1)
    → sum_fees xs ≤ f
    → (length xs ≡ 0 → t ≡ 0)
    → HasLeads leads xs
    → PaysAll t (shard_credits leads f t 0 xs)
unfolding shard_credits
sorted-PaysAll leads f t [] pos le z h = sym (z refl)
sorted-PaysAll leads f t (x ∷ xs) pos le z h =
    let pos' : (0 < f) ⊎ (xs ≡ []) = elim pos [
      | inl p ↦ inl p
      | inr q ↦ inr (empty_of_length xs q)
    ] in
    let scaled : t * sum_fees (x ∷ xs) ≤ t * f = mul-le-mul_left t le in
    let all = shard_credits-PaysAll leads f t 0 x xs (omega arith) pos' (omega arith) h in
    subst (λ m. PaysAll m (shard_credits leads f t 0 (x ∷ xs))) (omega arith) all

shards_reward_total-zero : (total cnt : ℕ) → cnt ≡ 0 → shards_reward_total total cnt ≡ 0
unfolding shards_reward_total
shards_reward_total-zero total cnt h = rw h (omega arith)

pub reward_credits-PaysAll :
    (header : Header) (fee_total : ℕ) (shards : List ShardReward)
    → header.ds_coin_base ≢ []
    → HasLeads header.sharding_lead_coin_base shards
    → sum_fees shards ≡ fee_total
    → (0 < fee_total) ⊎ (length shards ≤ 1)
    → PaysAll
        (fee_total + yield_reward header.block_number)
        (reward_credits header fee_total shards)
unfolding reward_credits
reward_credits-PaysAll header f shards ne h eq pos =
    let sorted = sort_by_gas_fee shards in
    let total = f + yield_reward header.block_number in
    let t = shards_reward_total total (length shards) in
    let len = length-sort shards in
    let fees = sum_fees-sort shards in
    let few : (0 < f) ⊎ (length sorted ≤ 1) = elim pos [
      | inl p ↦ inl p
      | inr q ↦ inr (omega arith)
    ] in
    let shard_part =
      sorted-PaysAll header.sharding_lead_coin_base f t sorted few (omega arith)
        (λ z. shards_reward_total-zero total (length shards) (omega arith))
        (sort-HasLeads header.sharding_lead_coin_base shards h) in
    let ds_part = ds_credits-PaysAll (total - t) header.ds_coin_base ne in
    subst (λ m. PaysAll m (reward_credits header f shards))
      (omega (arith, shards_reward_total-le total (length shards)))
      (join-PaysAll t (total - t) _ _ shard_part ds_part)
