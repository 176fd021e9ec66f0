-- ===== src/Gas/Pool.antt =====
-- core/gaspool.go: the gas left for the transactions of a block.
use okchain.Prelude.{ℕ, ◌+◌, ◌-◌, Option, none, some, ltb, if◌then◌else◌, u64, max_uint64}
use okchain.Prelude.Result.{Result, ok, err}
use okchain.Gas.Errors.{Error, gas_limit_reached}

-- `AddGas`; `none` is its panic.
unfoldable pub add_gas : ℕ → ℕ → Option ℕ
add_gas gp amount = if ltb (max_uint64 - amount) gp then none else some (u64 (gp + amount))

-- `SubGas`
unfoldable pub sub_gas : ℕ → ℕ → Result Error ℕ
sub_gas gp amount = if ltb gp amount then err gas_limit_reached else ok (gp - amount)
