-- ===== src/Bft/Marks.antt =====
-- The checks of a bool map against the nodes that it marks: `VerifyMultiSignByBoolMap` of
-- core/server/peer.go, `BlsMultiPubkeyVerify` of protos/block.go, and the counts in
-- core/server/consensus/blspbft/consensus_backup.go. `none` is a panic, of an index out of range.
pub mod Laws
pub mod Sums
pub mod Overlap
use okchain.Prelude.{
  ℕ, suc, ◌+◌, Bool, true, false, List, [], ◌∷◌, Option, none, some, ltb, ◌==◌, if◌then◌else◌,
  length,
}
use okchain.Bft.Types.{Bytes, Error, not_enough, verify_message, pub_key_string, bls_pub_key_verify}
use okchain.Bft.Env.{Env}

-- The sum of the keys of the marked nodes, and their number.
pub record Marked : Type 0 where
  pub key : ℕ
  pub counter : ℕ

-- The loop `for i := 0; i < len(boolMap); i++`, which ignores the errors of `Deserialize`.
unfoldable pub marked_keys : Env → List Bool → List Bytes → Marked → Option Marked
marked_keys env [] nodes m = some m
marked_keys env (false ∷ bits) [] m = marked_keys env bits [] m
marked_keys env (false ∷ bits) (p ∷ ps) m = marked_keys env bits ps m
marked_keys env (true ∷ bits) [] m = none
marked_keys env (true ∷ bits) (p ∷ ps) m =
    marked_keys env bits ps
      (record { key = env.add_key m.key (env.read_key p).0; counter = m.counter + 1 })

-- The loop at the end of `verifyBlock`.
unfoldable pub count_true : List Bool → ℕ
count_true [] = 0
count_true (true ∷ bits) = suc (count_true bits)
count_true (false ∷ bits) = count_true bits

-- The test after the loop of `VerifyMultiSignByBoolMap`.
unfoldable pub check_marked : Env → ℕ → Bytes → ℕ → Option Marked → Option (Option Error)
check_marked env sign hash expected none = none
check_marked env sign hash expected (some m) =
    if ltb m.counter expected
    then some (some not_enough)
    else if env.bls_verify sign m.key hash
    then some none
    else some (some verify_message)

-- `VerifyMultiSignByBoolMap`
unfoldable pub verify_multi_sign :
    Env → List Bool → List Bytes → ℕ → Bytes → ℕ → Option (Option Error)
verify_multi_sign env bits committee sign hash expected =
    let marked = marked_keys env bits committee (record { key = env.zero_key; counter = 0 }) in
    if length bits == length committee
    then check_marked env sign hash expected marked
    else some (some not_enough)

-- The loop of `BlsMultiPubkeyVerify` over the nodes; the inner `none` is its early return.
unfoldable pub sum_keys : Env → List Bool → List Bytes → ℕ → Option (Option ℕ)
sum_keys env bits [] key = some (some key)
sum_keys env [] (p ∷ ps) key = none
sum_keys env (false ∷ bits) (p ∷ ps) key = sum_keys env bits ps key
sum_keys env (true ∷ bits) (p ∷ ps) key =
    let rest = sum_keys env bits ps (env.add_key key (env.read_key p).0) in
    if (env.read_key p).1 then rest else some none

unfoldable pub check_composed : Env → Bytes → Option (Option ℕ) → Option (Option Error)
check_composed env composed none = none
check_composed env composed (some none) = some (some pub_key_string)
check_composed env composed (some (some key)) =
    if (env.read_key composed).1
    then (if key == (env.read_key composed).0 then some none else some (some bls_pub_key_verify))
    else some (some pub_key_string)

-- `BlsMultiPubkeyVerify`
unfoldable pub multi_pubkey_verify : Env → List Bool → List Bytes → Bytes → Option (Option Error)
multi_pubkey_verify env bits nodes composed =
    check_composed env composed (sum_keys env bits nodes env.zero_key)
