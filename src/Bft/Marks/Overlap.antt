-- ===== src/Bft/Marks/Overlap.antt =====
-- Two bool maps that the nodes accept mark common nodes.
use okchain.Prelude.{
  ◌⊎◌, inl, inr, ℕ, ◌+◌, ◌-◌, ◌/◌, ◌%◌, ◌≤◌, ◌<◌, ◌≡◌, Bool, true, false, List, [], ◌∷◌, none, some,
  length, arith,
}
use okchain.Bft.Types.{Bytes}
use okchain.Bft.Env.{Env}
use okchain.Bft.Quorum.{tolerance_size, tolerance_size_bounds}
use okchain.Bft.Marks.{count_true, verify_multi_sign}
use okchain.Bft.Marks.Laws.{verify_multi_sign_iff}

-- The nodes that both bool maps mark.
abbrev pub both : List Bool → List Bool → List Bool
both [] cs = []
both (b ∷ bs) [] = []
both (true ∷ bs) (c ∷ cs) = c ∷ both bs cs
both (false ∷ bs) (c ∷ cs) = false ∷ both bs cs

count_true-both :
    (bs cs : List Bool)
    → length bs ≡ length cs
    → count_true bs + count_true cs ≤ length bs + count_true (both bs cs)
unfolding count_true
count_true-both [] [] h = omega arith
count_true-both [] (c ∷ cs) h = absurd (omega arith)
count_true-both (b ∷ bs) [] h = absurd (omega arith)
count_true-both (true ∷ bs) (true ∷ cs) h = omega (arith, count_true-both bs cs (omega arith))
count_true-both (true ∷ bs) (false ∷ cs) h = omega (arith, count_true-both bs cs (omega arith))
count_true-both (false ∷ bs) (true ∷ cs) h = omega (arith, count_true-both bs cs (omega arith))
count_true-both (false ∷ bs) (false ∷ cs) h = omega (arith, count_true-both bs cs (omega arith))

-- Of two signatures that `VerifyMultiSignByBoolMap` accepts from one committee of `n` members, `n`
-- between 1 and 3000, with the quorum expected, on whatever messages, at least `(n - 1) / 3`
-- members are marked in both, and more than that unless `n` is 2 modulo 3.
pub verify_multi_sign-Overlap :
    (env : Env) (committee : List Bytes) (bs cs : List Bool) (sign1 hash1 sign2 hash2 : ℕ)
    → 1 ≤ length committee
    → length committee ≤ 3000
    → verify_multi_sign env bs committee sign1 hash1 (tolerance_size (length committee)) ≡ some none
    → verify_multi_sign env cs committee sign2 hash2 (tolerance_size (length committee)) ≡ some none
    → ((length committee - 1) / 3 ≤ count_true (both bs cs))
      × ((length committee % 3 ≡ 2) ⊎ ((length committee - 1) / 3 < count_true (both bs cs)))
verify_multi_sign-Overlap env committee bs cs sign1 hash1 sign2 hash2 low high first second =
    let (len1, count1, _) = (verify_multi_sign_iff env bs committee sign1 hash1 _).0 first in
    let (len2, count2, _) = (verify_multi_sign_iff env cs committee sign2 hash2 _).0 second in
    let (_, bound, strict) = tolerance_size_bounds (length committee) low high in
    let shared = count_true-both bs cs (omega arith) in
    (omega arith, elim strict [ inl r ↦ inl r | inr more ↦ inr (omega arith) ])
