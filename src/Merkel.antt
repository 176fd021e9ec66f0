-- ===== src/Merkel.antt =====
-- The Merkle tree of crypto/merkel/merkel.go, and the root of a block's transactions in
-- protos/tx_merkel.go. An outer `none` is a panic.
pub mod Levels
pub mod Lists
pub mod Pairs
pub mod Roots
pub mod Verified
mod Examples
use mathlib.Core.Logic.{ite}
use okchain.Prelude.{
  Bool, true, false, ℕ, zero, suc, ◌/◌, ◌%◌, List, [], ◌∷◌, ◌++◌, Option, none, some, map, length,
  ◌==◌, not, if◌then◌else◌,
}

-- `MerkleNode`, with its `Data`; a leaf has no children.
pub data MerkleNode (B : Type 0) : Type 0 where
  leaf : List B → MerkleNode B
  inner : MerkleNode B → MerkleNode B → List B → MerkleNode B

abbrev pub data_of : {B : Type 0} → MerkleNode B → List B
data_of (leaf d) = d
data_of (inner l r d) = d

-- `append(xs, xs[len(xs)-1])`, of a list that is not empty.
unfoldable pub append_last : {A : Type 0} → List A → List A
append_last [] = []
append_last (x ∷ []) = x ∷ x ∷ []
append_last (x ∷ y ∷ xs) = x ∷ append_last (y ∷ xs)

-- A list of an odd length gets its last entry a second time.
unfoldable pub make_even : {A : Type 0} → List A → List A
make_even xs = if not (length xs % 2 == 0) then append_last xs else xs

-- `strings.Repeat`, of one byte.
abbrev pub repeat : {B : Type 0} → B → ℕ → List B
repeat b zero = []
repeat b (suc n) = b ∷ repeat b n

-- `&nodes[0]`
unfoldable pub first_node : {A : Type 0} → Option (List A) → Option A
first_node none = none
first_node (some []) = none
first_node (some (n ∷ ns)) = some n

-- `sha256` is `Sum256`.
module _ {B : Type 0} (sha256 : List B → List B) where
  -- `NewMerkleNode` of data.
  unfoldable pub new_leaf : List B → MerkleNode B
  new_leaf d = leaf (sha256 d)

  -- `NewMerkleNode` of two nodes.
  unfoldable pub new_inner : MerkleNode B → MerkleNode B → MerkleNode B
  new_inner l r = inner l r (sha256 (data_of l ++ data_of r))

  -- The loop over a level; a level of an odd length panics.
  unfoldable pub pair_up : List (MerkleNode B) → Option (List (MerkleNode B))
  pair_up [] = some []
  pair_up (l ∷ []) = none
  pair_up (l ∷ r ∷ ns) = elim (pair_up ns) [ none ↦ none | some ms ↦ some (new_inner l r ∷ ms) ]

  -- The loop from the bottom to the top, with the rounds that are left.
  unfoldable pub climb : ℕ → List (MerkleNode B) → Option (List (MerkleNode B))
  climb zero ns = some ns
  climb (suc k) ns = elim (pair_up ns) [ none ↦ none | some ms ↦ climb k (make_even ms) ]

  -- `NewMerkleTree`, its root node; `digit` is the character 0.
  unfoldable pub new_merkle_tree : B → List (List B) → Option (MerkleNode B)
  new_merkle_tree digit [] = some (leaf (repeat digit 32))
  new_merkle_tree digit (d ∷ ds) =
      let even = make_even (d ∷ ds) in first_node (climb (length even / 2) (map new_leaf even))

  -- `ComputeMerkelRoot`; `hash` is the transaction's `Hash`.
  unfoldable pub compute_merkel_root : {T : Type 0} → B → (T → List B) → List T → Option (List B)
  compute_merkel_root digit hash txs = elim (new_merkle_tree digit (map hash txs)) [
    | none ↦ none
    | some n ↦ some (data_of n)
  ]

  -- `VerifyMerkelRoot`; `same` is `DeepEqual`.
  unfoldable pub verify_merkel_root :
      {T : Type 0} → Discrete (List B) → B → (T → List B) → List T → List B → Option Bool
  verify_merkel_root same digit hash txs root = elim (compute_merkel_root digit hash txs) [
    | none ↦ none
    | some r ↦ some (ite (same r root) true false)
  ]
