-- ===== src/Merkel/Verified.antt =====
-- What a block's root of transactions shows (protos/tx_merkel.go).
use mathlib.Core.Logic.{ite}
use okchain.Prelude.{◌≡◌, ◌↔◌, refl, sym, ap, ◌∙◌, true, false, List, some, some_inj, length, map}
use okchain.Merkel.{
  MerkleNode, data_of, make_even, new_merkle_tree, compute_merkel_root, verify_merkel_root,
}
use okchain.Merkel.Lists.{map_inj, make_even-map, length-map}
use okchain.Merkel.Roots.{new_merkle_tree-AreCompared}

ite_iff : {P : Type 0} (d : Dec P) → (some (ite d true false) ≡ some true) ↔ P
ite_iff (yes p) = (λ h. p, λ p'. refl)
ite_iff (no n) = (λ h. absurd cc, λ p. absurd (n p))

module _ {B : Type 0} {T : Type 0} (sha256 : List B → List B) (same : Discrete (List B)) (digit : B)
    (hash : T → List B) where
  compute_merkel_root_lem :
      (txs : List T) (n : MerkleNode B)
      → new_merkle_tree sha256 digit (map hash txs) ≡ some n
      → compute_merkel_root sha256 digit hash txs ≡ some (data_of n)
  unfolding compute_merkel_root
  compute_merkel_root_lem txs n b = rw (compute_merkel_root, b) refl

  verify_merkel_root_lem :
      (txs : List T) (r root : List B)
      → compute_merkel_root sha256 digit hash txs ≡ some r
      → (verify_merkel_root sha256 same digit hash txs root ≡ some true) ↔ (r ≡ root)
  unfolding verify_merkel_root
  verify_merkel_root_lem txs r root c = rw (verify_merkel_root, c) (ite_iff (same r root))

  hashes_iff :
      (txs own : List T)
      → ((s t : T) → hash s ≡ hash t → s ≡ t)
      → (make_even (map hash txs) ≡ make_even (map hash own)) ↔ (make_even txs ≡ make_even own)
  hashes_iff txs own free = (
    λ h.
        map_inj hash (make_even txs) (make_even own) free
          (sym (make_even-map hash txs) ∙ h ∙ make_even-map hash own),
    λ h. make_even-map hash txs ∙ ap (map hash) h ∙ sym (make_even-map hash own),
  )

  length_hashes : (txs : List T) → length (make_even (map hash txs)) ≡ length (make_even txs)
  length_hashes txs = ap length (make_even-map hash txs) ∙ length-map hash (make_even txs)

-- Against the root of a block's transactions, with hashes of 32 bytes and no collisions, the root of
-- other transactions verifies, in a call that does not panic, if and only if they are the same, or
-- differ only in the last one of a list of odd length being there twice: for lists that are as long
-- once those of odd length have got their last entry a second time.
pub verify_merkel_root_iff :
    {B : Type 0} {T : Type 0} (sha256 : List B → List B) (same : Discrete (List B)) (digit : B)
    (hash : T → List B) (txs own : List T) (root : List B)
    → ((x y : List B) → sha256 x ≡ sha256 y → x ≡ y)
    → ((x : List B) → length (sha256 x) ≡ 32)
    → ((s t : T) → hash s ≡ hash t → s ≡ t)
    → length (make_even txs) ≡ length (make_even own)
    → compute_merkel_root sha256 digit hash own ≡ some root
    → (verify_merkel_root sha256 same digit hash txs root ≡ some true)
      ↔ (make_even txs ≡ make_even own)
verify_merkel_root_iff sha256 same digit hash txs own root free w tx_free e c =
    let size = length_hashes sha256 same digit hash in
    let trees =
      new_merkle_tree-AreCompared sha256 digit (map hash txs) (map hash own) free w
        (size txs ∙ e ∙ sym (size own)) in
    let first = compute_merkel_root_lem sha256 same digit hash txs trees.first trees.built_first in
    let second =
      compute_merkel_root_lem sha256 same digit hash own trees.second trees.built_second in
    let (there, back) = verify_merkel_root_lem sha256 same digit hash txs _ root first in
    let (read, made) = hashes_iff sha256 same digit hash txs own tx_free in
    let own_root : root ≡ data_of trees.second = some_inj (sym c ∙ second) in
    (
      λ h. read (trees.compared.0 (there h ∙ own_root)),
      λ h. back (trees.compared.1 (made h) ∙ sym own_root),
    )
