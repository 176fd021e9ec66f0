-- ===== src/Roles/GasLimit.antt =====
-- `calcGasLimit` of core/server/role/role_ds_base.go.
pub mod Laws
use okchain.Prelude.{
  ℕ, zero, suc, ◌+◌, ◌-◌, ◌*◌, ◌/◌, ◌%◌, ◌≤◌, ◌<◌, ◌≡◌, sym, subst, ◌⊎◌, inl, inr, Bool-cases, ltb,
  arith, if◌then◌else◌, if_rule, u64, u64_mod,
}

-- `GasLimitBoundDivisor`
abbrev pub gas_limit_bound_divisor : ℕ
gas_limit_bound_divisor = 1024

-- `MinGasLimit`
abbrev pub min_gas_limit : ℕ
min_gas_limit = 5000

-- `MinerGasFloor`, which is also `MinerGasCeil`.
abbrev pub miner_gas_floor : ℕ
miner_gas_floor = 8000000

-- `a - b` on `uint64`.
abbrev pub u64_sub : ℕ → ℕ → ℕ
u64_sub a b = u64 (a + u64_mod - b)

-- The range tests at the end.
unfoldable pub clamp_limit : ℕ → ℕ → ℕ → ℕ
clamp_limit parent decay limit =
    if ltb limit miner_gas_floor
    then (let raised = u64 (parent + decay) in
        if ltb miner_gas_floor raised then miner_gas_floor else raised)
    else if ltb miner_gas_floor limit
    then (let lowered = u64_sub parent decay in
        if ltb lowered miner_gas_floor then miner_gas_floor else lowered)
    else limit

-- `calcGasLimit`, of the parent's gas limit and its gas used.
unfoldable pub calc_gas_limit : ℕ → ℕ → ℕ
calc_gas_limit parent gas_used =
    let contrib = u64 (gas_used + gas_used / 2) / gas_limit_bound_divisor in
    let decay = u64_sub (parent / gas_limit_bound_divisor) 1 in
    let limit = u64 (u64_sub parent decay + contrib) in
    clamp_limit parent decay (if ltb limit min_gas_limit then min_gas_limit else limit)
