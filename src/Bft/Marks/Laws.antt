-- ===== src/Bft/Marks/Laws.antt =====
-- What an accepted bool map shows.
use okchain.Prelude.{
  ℕ, ◌+◌, ◌≡◌, ◌≤◌, ◌↔◌, sym, ◌∙◌, Bool, true, false, List, [], ◌∷◌, none, some, ◌==◌, length,
  arith, Bool-cases, inl, inr, ==_iff,
}
use okchain.Bft.Types.{Bytes, not_enough}
use okchain.Bft.Env.{Env}
use okchain.Bft.Marks.{Marked, marked_keys, count_true, check_marked, verify_multi_sign}

-- The nodes that a bool map marks, in order.
abbrev pub marked_nodes : List Bool → List Bytes → List Bytes
marked_nodes [] ps = []
marked_nodes (true ∷ bits) [] = []
marked_nodes (false ∷ bits) [] = marked_nodes bits []
marked_nodes (true ∷ bits) (p ∷ ps) = p ∷ marked_nodes bits ps
marked_nodes (false ∷ bits) (p ∷ ps) = marked_nodes bits ps

abbrev pub key_sum : Env → ℕ → List Bytes → ℕ
key_sum env acc [] = acc
key_sum env acc (p ∷ ps) = key_sum env (env.add_key acc (env.read_key p).0) ps

marked_keys_lem :
    (env : Env) (bits : List Bool) (ps : List Bytes) (m : Marked)
    → length bits ≤ length ps
    → marked_keys env bits ps m
      ≡ some (record {
        key = key_sum env m.key (marked_nodes bits ps);
        counter = m.counter + count_true bits;
      })
unfolding marked_keys count_true
marked_keys_lem env [] ps m h = ground arith
marked_keys_lem env (b ∷ bits) [] m h = absurd (omega arith)
marked_keys_lem env (false ∷ bits) (p ∷ ps) m h = marked_keys_lem env bits ps m (omega arith)
marked_keys_lem env (true ∷ bits) (p ∷ ps) m h = ground (
  arith,
  marked_keys_lem env bits ps
      (record { key = env.add_key m.key (env.read_key p).0; counter = m.counter + 1 }),
)

-- The check of what the loop found, for any sum and any number of marks.
check_marked_iff :
    (env : Env) (sign : ℕ) (hash : Bytes) (expected key n : ℕ)
    → (check_marked env sign hash expected (some (record { key = key; counter = n })) ≡ some none)
      ↔ ((expected ≤ n) × (env.bls_verify sign key hash ≡ true))
unfolding check_marked
check_marked_iff env sign hash expected key n = elim (Bool-cases (env.bls_verify sign key hash)) [
  | inl t ↦ ground arith
  | inr f ↦ ground arith
]

verify_multi_sign-other_length :
    (env : Env) (bits : List Bool) (committee : List Bytes) (sign : ℕ) (hash : Bytes) (expected : ℕ)
    → (length bits == length committee) ≡ false
    → verify_multi_sign env bits committee sign hash expected ≡ some (some not_enough)
unfolding verify_multi_sign
verify_multi_sign-other_length env bits committee sign hash expected f = ground arith

verify_multi_sign-same_length :
    (env : Env) (bits : List Bool) (committee : List Bytes) (sign : ℕ) (hash : Bytes) (expected : ℕ)
    → (length bits == length committee) ≡ true
    → verify_multi_sign env bits committee sign hash expected
      ≡ check_marked env sign hash expected (
          some (record {
            key = key_sum env env.zero_key (marked_nodes bits committee);
            counter = 0 + count_true bits;
          }))
unfolding verify_multi_sign
verify_multi_sign-same_length env bits committee sign hash expected t =
    let same_length = (==_iff (length bits) (length committee)).0 t in
    let loop =
      marked_keys_lem env bits committee (record { key = env.zero_key; counter = 0 })
        (omega arith) in
    rw (t, loop)

-- `VerifyMultiSignByBoolMap` never panics, and accepts exactly the bool maps of the committee's
-- length that mark at least the expected number of members, with a signature that verifies under
-- the sum of the keys of just those members.
pub verify_multi_sign_iff :
    (env : Env) (bits : List Bool) (committee : List Bytes) (sign : ℕ) (hash : Bytes) (expected : ℕ)
    → (verify_multi_sign env bits committee sign hash expected ≡ some none) ↔ (
        (length bits ≡ length committee)
        × (expected ≤ count_true bits)
        × (env.bls_verify sign (key_sum env env.zero_key (marked_nodes bits committee)) hash
            ≡ true))
verify_multi_sign_iff env bits committee sign hash expected =
    elim (Bool-cases (length bits == length committee)) [
      | inl t ↦
          (let same = verify_multi_sign-same_length env bits committee sign hash expected t in
            let checked =
              check_marked_iff env sign hash expected
                (key_sum env env.zero_key (marked_nodes bits committee)) (0 + count_true bits) in
            (
              (λ h.
                  let shown = checked.0 (sym same ∙ h) in
                  ((==_iff _ _).0 t, omega (arith, shown.0), shown.1)),
              (λ h. same ∙ checked.1 (omega (arith, h.1), h.2)),
            ))
      | inr f ↦
          (let other = verify_multi_sign-other_length env bits committee sign hash expected f in
            ((λ h. absurd cc), (λ h. absurd (ground arith))))
    ]
