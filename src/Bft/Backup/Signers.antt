-- ===== src/Bft/Backup/Signers.antt =====
-- The second signature, and the number of signers that a backup expects (consensus_backup.go).
use okchain.Prelude.{
  ℕ, zero, suc, ◌<◌, ◌/◌, ◌≡◌, sym, Bool, true, false, Option, none, some, some_inj, length, arith,
  Bool-cases, inl, inr,
}
use okchain.Bft.Types.{Block, BoolMapSignature}
use okchain.Bft.Env.{Env}
use okchain.Bft.Quorum.{tolerance_size}
use okchain.Bft.Committee.{sort_peers}
use okchain.Bft.Marks.{verify_multi_sign}
use okchain.Bft.Backup.{Backup, is_sharding, shard_expected, expected_signers}
use okchain.Bft.Backup.Adopt.{check_sig2}

-- A second signature is read and passes `VerifyMultiSignByBoolMap` on the block's first one, with the
-- committee in its order of the keys and the expected number of signers.
abbrev pub SecondSigned : Env → ℕ → Backup → Block → Option BoolMapSignature → Type 0
SecondSigned env expected b block none = Unit
SecondSigned env expected b block (some sig2) =
    ((env.read_sig (some sig2.signature)).1 ≡ true)
    × (verify_multi_sign env sig2.bool_map (sort_peers env b.committee)
          (env.read_sig (some sig2.signature)).0 (env.header_bytes block.signature) expected
        ≡ some none)

pub check_sig2-SecondSigned :
    (env : Env) (expected : ℕ) (b : Backup) (block : Block) (sig2 : Option BoolMapSignature)
    → check_sig2 env expected b block sig2 ≡ some none
    → SecondSigned env expected b block sig2
unfolding check_sig2
check_sig2-SecondSigned env expected b block none h = tt
check_sig2-SecondSigned env expected b block (some sig2) h =
    elim (Bool-cases (env.read_sig (some sig2.signature)).1) [
      | inl t ↦ (t, rw t at h)
      | inr f ↦ absurd (ground arith)
    ]

-- The signers that are expected: by the committee's size, or in a shard by the nodes of a shard.
abbrev pub Expected : Bool → Backup → ℕ → Type 0
Expected false b expected = expected ≡ tolerance_size (length b.committee)
Expected true b expected =
    (0 < b.sharding_sum)
    × (expected ≡ tolerance_size (length b.last_sharding_nodes / b.sharding_sum))

pub expected_signers-Expected :
    (b : Backup) (expected : ℕ)
    → expected_signers b ≡ some expected
    → Expected (is_sharding b) b expected
unfolding expected_signers shard_expected
expected_signers-Expected b expected h = go (is_sharding b) h
  where
    in_shard :
        (n sum : ℕ)
        → shard_expected n sum ≡ some expected
        → (0 < sum) × (expected ≡ tolerance_size (n / sum))
    in_shard n zero e = absurd (ground arith)
    in_shard n (suc k) e = (omega arith, sym (some_inj e))

    go :
        (t : Bool)
        → ◌≡◌ {A = Option ℕ}
            (elim t [
              | true ↦ shard_expected (length b.last_sharding_nodes) b.sharding_sum
              | false ↦ some (tolerance_size (length b.committee))
            ])
            (some expected)
        → Expected t b expected
    go false e = sym (some_inj e)
    go true e = in_shard (length b.last_sharding_nodes) b.sharding_sum e
