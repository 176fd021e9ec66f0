-- ===== src/Bft/Quorum.antt =====
-- The quorum of core/server/consensus/blspbft: `ToleranceFraction` of the nodes but one, and one.
use okchain.Prelude.{
  ℕ, zero, suc, ◌+◌, ◌-◌, ◌*◌, ◌/◌, ◌%◌, ◌≤◌, ◌<◌, ◌≡◌, ◌⊎◌, inl, inr, ◌==◌, Bool-cases, arith,
}

-- `int(math.Floor(float64(n-1)*ToleranceFraction)) + 1`, and the same with the 1 added before the
-- rounding. For the lengths of lists at hand the float64 product rounds to the exact thousandths;
-- at no nodes it is -0.667, which gives 0.
unfoldable pub tolerance_size : ℕ → ℕ
tolerance_size zero = 0
tolerance_size (suc k) = k * 667 / 1000 + 1

-- Up to 3000 nodes, with `f` a third of the others rounded down: `n - f` honest nodes suffice for
-- the quorum, and two quorums share at least `f` nodes, and more than `f` unless `n` is 2 modulo 3.
pub tolerance_size_bounds :
    (n : ℕ)
    → 1 ≤ n
    → n ≤ 3000
    → let f = (n - 1) / 3 in
      (tolerance_size n + f ≤ n)
      × (n + f ≤ 2 * tolerance_size n)
      × ((n % 3 ≡ 2) ⊎ (n + f < 2 * tolerance_size n))
unfolding tolerance_size
tolerance_size_bounds (suc k) h l = (
  omega arith,
  omega arith,
  elim (Bool-cases (suc k % 3 == 2)) [ inl r ↦ inl (ground arith) | inr r ↦ inr (ground arith) ],
)
tolerance_size_bounds zero h l = absurd (omega arith)
