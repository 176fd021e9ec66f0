-- ===== src/Roles/GasLimit/Laws.antt =====
-- Where the gas limit goes.
use okchain.Prelude.{
  ℕ, ◌+◌, ◌-◌, ◌/◌, ◌≤◌, ◌<◌, ◌≡◌, refl, subst, ◌⊎◌, inl, inr, List, [], ◌∷◌, ltb, arith,
  if◌then◌else◌, if_rule, length, u64, u64_mod,
}
use okchain.Roles.GasLimit.{
  gas_limit_bound_divisor, min_gas_limit, miner_gas_floor, u64_sub, clamp_limit, calc_gas_limit,
}

-- A limit that is the floor, or lies between the parent's and the floor and is `decay` away from the
-- parent's.
abbrev pub IsBetween : ℕ → ℕ → ℕ → Type 0
IsBetween parent decay limit =
    (limit ≡ miner_gas_floor)
    ⊎ (((limit ≡ parent + decay) × (limit ≤ miner_gas_floor))
        ⊎ ((limit + decay ≡ parent) × (miner_gas_floor ≤ limit)))

low_limit :
    (parent decay : ℕ)
    → parent + decay < u64_mod
    → let raised = u64 (parent + decay) in
      IsBetween parent decay (if ltb miner_gas_floor raised then miner_gas_floor else raised)
low_limit parent decay fits =
    let raised : ℕ = u64 (parent + decay) in
    if_rule (IsBetween parent decay) (ltb miner_gas_floor raised) miner_gas_floor raised
      (λ _. inl refl) (λ h. inr (inl (omega arith, ground arith)))

high_limit :
    (parent decay : ℕ)
    → parent < u64_mod
    → decay ≤ parent
    → let lowered = u64_sub parent decay in
      IsBetween parent decay (if ltb lowered miner_gas_floor then miner_gas_floor else lowered)
high_limit parent decay fits le =
    let lowered : ℕ = u64_sub parent decay in
    if_rule (IsBetween parent decay) (ltb lowered miner_gas_floor) miner_gas_floor lowered
      (λ _. inl refl) (λ h. inr (inr (omega arith, ground arith)))

clamp_limit-IsBetween :
    (parent decay limit : ℕ)
    → parent + decay < u64_mod
    → decay ≤ parent
    → IsBetween parent decay (clamp_limit parent decay limit)
unfolding clamp_limit
clamp_limit-IsBetween parent decay limit fits le =
    if_rule (IsBetween parent decay) (ltb limit miner_gas_floor) _ _
      (λ _. low_limit parent decay fits)
      (λ low.
        if_rule (IsBetween parent decay) (ltb miner_gas_floor limit) _ limit
          (λ _. high_limit parent decay (omega arith) le) (λ high. inl (ground arith)))

-- From a gas limit that is at least the divisor and whose sum with its thousandth fits a `uint64`, the
-- next limit is 8,000,000, or it goes from the parent's towards that, and not past it, by the parent's
-- limit divided by 1024, less 1; whatever the gas used is.
pub calc_gas_limit-IsBetween :
    (parent gas_used : ℕ)
    → 1024 ≤ parent
    → parent + parent / 1024 < u64_mod
    → IsBetween parent (parent / 1024 - 1) (calc_gas_limit parent gas_used)
unfolding calc_gas_limit
calc_gas_limit-IsBetween parent gas_used l h =
    subst
      (λ (decay : ℕ). IsBetween parent (parent / 1024 - 1) (
        clamp_limit parent decay (
          let limit =
            u64 (u64_sub parent decay + u64 (gas_used + gas_used / 2) / gas_limit_bound_divisor) in
          if ltb limit min_gas_limit then min_gas_limit else limit)))
      {x = parent / 1024 - 1} {y = u64_sub (parent / 1024) 1} (omega arith)
      (clamp_limit-IsBetween parent (parent / 1024 - 1) _ (omega arith) (omega arith))

-- The limit after the blocks that used these amounts of gas.
abbrev pub limit_after : ℕ → List ℕ → ℕ
limit_after limit [] = limit
limit_after limit (gas_used ∷ rest) = limit_after (calc_gas_limit limit gas_used) rest

-- After as many blocks as the first limit is away from 8,000,000, or more, the limit is 8,000,000, if
-- the first one is at least 2048 and at most half of `uint64`; whatever gas the blocks use.
pub limit_after-settles :
    (limit : ℕ) (used : List ℕ)
    → 2048 ≤ limit
    → limit ≤ 9223372036854775808
    → (limit - miner_gas_floor) + (miner_gas_floor - limit) ≤ length used
    → limit_after limit used ≡ miner_gas_floor
limit_after-settles limit [] l h f = omega arith
limit_after-settles limit (gas_used ∷ rest) l h f =
    let later = limit_after-settles (calc_gas_limit limit gas_used) rest in
    elim (calc_gas_limit-IsBetween limit gas_used (omega arith) (omega arith)) [
      | inl same ↦ later (omega arith) (omega arith) (omega arith)
      | inr (inl (up, le)) ↦ later (omega arith) (omega arith) (omega arith)
      | inr (inr (down, le)) ↦ later (omega arith) (omega arith) (omega arith)
    ]
