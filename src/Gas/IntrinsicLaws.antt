-- ===== src/Gas/IntrinsicLaws.antt =====
-- `intrinsic_gas` against the price list read byte by byte.
use native.Mathlib.Nat.{zero-add}
use okchain.Prelude.{
  ℕ, suc, ◌+◌, ◌-◌, ◌*◌, ◌<◌, ◌≤◌, ◌≡◌, List, [], ◌∷◌, Bool, ◌&&◌, ltb, ◌==◌, if◌then◌else◌, length,
  u64, u64_mod, max_uint64, arith, lt→ltb,
}
use okchain.Prelude.Result.{ok, err}
use okchain.Gas.Errors.{out_of_gas}
use okchain.Gas.Intrinsic.{
  tx_gas, tx_gas_contract_creation, tx_data_zero_gas, tx_data_non_zero_gas, count_non_zero,
  bump_gas, intrinsic_gas,
}

abbrev pub byte_cost : ℕ → ℕ
byte_cost byt = if byt == 0 then tx_data_zero_gas else tx_data_non_zero_gas

abbrev pub payload_cost : List ℕ → ℕ
payload_cost [] = 0
payload_cost (byt ∷ rest) = byte_cost byt + payload_cost rest

abbrev pub base_cost : Bool → Bool → ℕ
base_cost contract_creation homestead =
    if contract_creation && homestead then tx_gas_contract_creation else tx_gas

-- The plain count, without the wrap of `nz++`.
abbrev non_zeros : List ℕ → ℕ
non_zeros [] = 0
non_zeros (byt ∷ rest) = if byt == 0 then non_zeros rest else suc (non_zeros rest)

count_non_zero_lem :
    (xs : List ℕ) (nz : ℕ) → nz + length xs < u64_mod → count_non_zero xs nz ≡ nz + non_zeros xs
unfolding count_non_zero
count_non_zero_lem [] nz h = omega arith
count_non_zero_lem (x ∷ xs) nz h =
    ground (arith, count_non_zero_lem xs nz, count_non_zero_lem xs (u64 (nz + 1)))

non_zeros-le : (xs : List ℕ) → non_zeros xs ≤ length xs
non_zeros-le [] = omega arith
non_zeros-le (x ∷ xs) = ground (arith, non_zeros-le xs)

payload_cost_lem :
    (xs : List ℕ) → payload_cost xs ≡ 68 * non_zeros xs + 4 * (length xs - non_zeros xs)
payload_cost_lem [] = omega arith
payload_cost_lem (x ∷ xs) = ground (arith, payload_cost_lem xs, non_zeros-le xs)

bump_gas_lem :
    (gas size nz : ℕ)
    → gas ≤ max_uint64
    → nz ≤ size
    → bump_gas gas size nz ≡ (
        let cost = gas + (68 * nz + 4 * (size - nz)) in
        if ltb max_uint64 cost then err out_of_gas else ok cost)
unfolding bump_gas
bump_gas_lem gas size nz h k = ground arith

base_cost-le : (c e : Bool) → base_cost c e ≤ max_uint64
base_cost-le c e = ground arith

-- For data of less than 2 ^ 64 bytes, `intrinsic_gas` is the base price (53000 for a creation
-- under Homestead, else 21000) plus 4 for each zero byte and 68 for each other byte where this
-- sum fits a uint64, and it is `ErrOutOfGas` exactly where the sum does not: no step wraps.
pub intrinsic_gas-eq-cost :
    (payload : List ℕ) (contract_creation homestead : Bool)
    → length payload < u64_mod
    → intrinsic_gas payload contract_creation homestead ≡ (
        let cost = base_cost contract_creation homestead + payload_cost payload in
        if ltb max_uint64 cost then err out_of_gas else ok cost)
unfolding intrinsic_gas
intrinsic_gas-eq-cost [] c e h = ground arith
intrinsic_gas-eq-cost (x ∷ xs) c e h =
    let len = length (x ∷ xs) in
    let nz = non_zeros (x ∷ xs) in
    let base : ℕ = base_cost c e in
    rw (lt→ltb 0 len (omega arith), count_non_zero_lem (x ∷ xs) 0 (omega arith), zero-add)
      (rw (payload_cost_lem (x ∷ xs))
        (bump_gas_lem base len nz (base_cost-le c e) (non_zeros-le (x ∷ xs))))
