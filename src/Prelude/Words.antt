-- ===== src/Prelude/Words.antt =====
-- Go's `uint64`: a number below 2 ^ 64, whose arithmetic wraps.
use Prim.Native.Nat.{ℕ, ◌%◌}

abbrev pub u64_mod : ℕ
u64_mod = 18446744073709551616

-- `math.MaxUint64`
abbrev pub max_uint64 : ℕ
max_uint64 = 18446744073709551615

abbrev pub u64 : ℕ → ℕ
u64 n = n % u64_mod

-- Go's `uint32`.
abbrev pub u32_mod : ℕ
u32_mod = 4294967296

abbrev pub u32 : ℕ → ℕ
u32 n = n % u32_mod
