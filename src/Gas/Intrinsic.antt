-- ===== src/Gas/Intrinsic.antt =====
-- `IntrinsicGas` of core/state_transition.go, with the prices of config/protocol_params.go.
use okchain.Prelude.{
  ℕ, ◌+◌, ◌-◌, ◌*◌, ◌/◌, List, [], ◌∷◌, Bool, ◌&&◌, ltb, ◌==◌, if◌then◌else◌, length, u64,
  max_uint64,
}
use okchain.Prelude.Result.{Result, ok, err}
use okchain.Gas.Errors.{Error, out_of_gas}

abbrev pub tx_gas : ℕ
tx_gas = 21000

abbrev pub tx_gas_contract_creation : ℕ
tx_gas_contract_creation = 53000

abbrev pub tx_data_zero_gas : ℕ
tx_data_zero_gas = 4

abbrev pub tx_data_non_zero_gas : ℕ
tx_data_non_zero_gas = 68

-- The loop over the bytes; `nz` counts those that are not zero.
unfoldable pub count_non_zero : List ℕ → ℕ → ℕ
count_non_zero [] nz = nz
count_non_zero (byt ∷ rest) nz = count_non_zero rest (if byt == 0 then nz else u64 (nz + 1))

-- The body of `if len(data) > 0`, for `size` bytes of which `nz` are not zero.
unfoldable pub bump_gas : ℕ → ℕ → ℕ → Result Error ℕ
bump_gas gas size nz =
    if ltb ((max_uint64 - gas) / tx_data_non_zero_gas) nz
    then err out_of_gas
    else let gas' = u64 (gas + u64 (nz * tx_data_non_zero_gas)) in
      let z = size - nz in
      if ltb ((max_uint64 - gas') / tx_data_zero_gas) z
      then err out_of_gas
      else ok (u64 (gas' + u64 (z * tx_data_zero_gas)))

unfoldable pub intrinsic_gas : List ℕ → Bool → Bool → Result Error ℕ
intrinsic_gas payload contract_creation homestead =
    let gas = if contract_creation && homestead then tx_gas_contract_creation else tx_gas in
    if ltb 0 (length payload)
    then bump_gas gas (length payload) (count_non_zero payload 0)
    else ok gas
