-- ===== src/Bft/Backup/Adopt.antt =====
-- `verifyBlock` of consensus_backup.go: the block that the leader broadcasts at the end.
use mathlib.Core.Logic.{ite}
use okchain.Prelude.{
  ℕ, Bool, true, false, List, [], ◌∷◌, Option, none, some, ltb, leb, if◌then◌else◌,
}
use native.Mathlib.Decide.{ℕ_discrete}
use okchain.Bft.Types.{
  Bytes, Block, Block-discrete, BoolMapSignature, Error, Message, unmarshal_message, verify_message,
  verify_block, bls_pub_key_verify, check_coin_base, cal_state_root, deserialize_failed,
  ds_block_consensus, micro_block_consensus, final_block_consensus, view_change_consensus,
}
use okchain.Bft.Env.{Env}
use okchain.Bft.Committee.{sort_peers}
use okchain.Bft.Marks.{count_true, verify_multi_sign, multi_pubkey_verify}
use okchain.Bft.Backup.{Backup, own_block, set_block, is_sharding, expected_signers, hashed_block}

-- `sort.Strings` on the hexadecimal texts of coinbases.
unfoldable pub insert_bytes : Bytes → List Bytes → List Bytes
insert_bytes x [] = x ∷ []
insert_bytes x (y ∷ ys) = let rest = insert_bytes x ys in if leb x y then x ∷ y ∷ ys else y ∷ rest

unfoldable pub sort_bytes : List Bytes → List Bytes
sort_bytes [] = []
sort_bytes (x ∷ xs) = insert_bytes x (sort_bytes xs)

-- The loop of `CheckCoinBase2`: the coinbases of the marked nodes. The outer `none` is a panic of
-- an index, the inner one the early return on a key that the cache lacks.
unfoldable pub marked_coinbases : Env → List Bool → List Bytes → Option (Option (List Bytes))
marked_coinbases env [] nodes = some (some [])
marked_coinbases env (false ∷ bits) [] = marked_coinbases env bits []
marked_coinbases env (false ∷ bits) (p ∷ ps) = marked_coinbases env bits ps
marked_coinbases env (true ∷ bits) [] = none
marked_coinbases env (true ∷ bits) (p ∷ ps) =
    let rest = marked_coinbases env bits ps in
    elim (env.coinbase_of p) [
      | none ↦ some none
      | some cb ↦ elim rest [
        | none ↦ none
        | some none ↦ some none
        | some (some cbs) ↦ some (some (cb ∷ cbs))
      ]
    ]

-- `CheckCoinBase2` of protos/block.go; `Bytes-discrete` is its `DeepEqual` of the sorted texts.
unfoldable pub Bytes-discrete : Discrete (List Bytes)
Bytes-discrete = hlevel ℕ_discrete

unfoldable pub check_coin_base2 : Env → List Bytes → Block → Option (Option Error)
check_coin_base2 env nodes block = elim block.ds_coin_base [
  | [] ↦ none
  | c0 ∷ rest ↦ elim (marked_coinbases env block.bool_map nodes) [
    | none ↦ none
    | some none ↦ some (some check_coin_base)
    | some (some cbs) ↦
        ite (Bytes-discrete (sort_bytes (c0 ∷ cbs)) (sort_bytes (c0 ∷ rest))) (some none)
          (some (some check_coin_base))
  ]
]

-- The block of the payload and, where there are two rounds, the second signature.
unfoldable pub read_broadcast : Env → Bytes → Backup → Option (Block × Option BoolMapSignature)
read_broadcast env bytes b = elim (is_sharding b) [
  | true ↦ elim (env.read_block b.current_type bytes) [
    | none ↦ none
    | some block ↦ some (block, none)
  ]
  | false ↦ elim (env.read_with_sig2 b.current_type bytes) [
    | none ↦ none
    | some (block, sig2) ↦ some (block, some sig2)
  ]
]

-- The second signature is on the first one.
unfoldable pub check_sig2 :
    Env → ℕ → Backup → Block → Option BoolMapSignature → Option (Option Error)
check_sig2 env expected b block none = some none
check_sig2 env expected b block (some sig2) =
    let (sign, read) = env.read_sig (some sig2.signature) in
    let nodes = sort_peers env b.committee in
    let verified =
      verify_multi_sign env sig2.bool_map nodes sign (env.header_bytes block.signature) expected in
    if read then verified else some (some deserialize_failed)

abbrev pub stripped : Block → Block
stripped block = record block { signature = none; multi_pub_key = none; bool_map = [] }

-- The own final block takes the coinbases of the leader's, and its state root is computed.
unfoldable pub complete_final : Env → Block → Backup → Option (Option Error × Backup)
complete_final env block b = elim (check_coin_base2 env (sort_peers env b.committee) block) [
  | none ↦ none
  | some (some e) ↦ some (some e, b)
  | some none ↦
      let own = record (own_block b) { ds_coin_base = block.ds_coin_base } in
      elim (env.calculate_state_root own) [
        | none ↦ some (some cal_state_root, set_block own b)
        | some (root, gas) ↦
            some (none, set_block (record own { state_root = root; gas_used = gas }) b)
      ]
]

abbrev pub cleared : Backup → Backup
cleared b = set_block (record (own_block b) { signature = none }) b

unfoldable pub prepare_own : Env → Block → Backup → Option (Option Error × Backup)
prepare_own env block b = elim b.current_type [
  | ds_block_consensus ↦ some (none, cleared b)
  | micro_block_consensus ↦ some (none, cleared b)
  | final_block_consensus ↦ complete_final env block (cleared b)
  | view_change_consensus ↦ some (none, cleared b)
]

abbrev pub signer_nodes : Env → Backup → List Bytes
signer_nodes env b = elim (is_sharding b) [
  | true ↦ b.sharding_nodes
  | false ↦ sort_peers env b.committee
]

-- The signature's check, and the count of the signers after the block is set.
unfoldable pub adopt : Env → ℕ → Block → Backup → Option Block → Option (Option Error × Backup)
adopt env expected block b none = none
adopt env expected block b (some hashed) =
    let key = (env.read_key (env.header_bytes block.multi_pub_key)).0 in
    let counted = if ltb (count_true block.bool_map) expected then some verify_block else none in
    some (
      if env.bls_verify (env.read_sig block.signature).0 key (env.hash b.current_type hashed)
      then (counted, set_block block b)
      else (some verify_message, b))

unfoldable pub check_pub_key :
    Env → ℕ → Block → Backup → Option (Option Error) → Option (Option Error × Backup)
check_pub_key env expected block b none = none
check_pub_key env expected block b (some (some e)) = some (some bls_pub_key_verify, b)
check_pub_key env expected block b (some none) =
    adopt env expected block b (hashed_block b.current_type block)

unfoldable pub compare_block :
    Env → ℕ → Block → Option (Option Error × Backup) → Option (Option Error × Backup)
compare_block env expected block none = none
compare_block env expected block (some (some e, b)) = some (some e, b)
compare_block env expected block (some (none, b)) =
    let composed =
      multi_pubkey_verify env block.bool_map (signer_nodes env b)
        (env.header_bytes block.multi_pub_key) in
    ite (Block-discrete (own_block b) (stripped block))
      (check_pub_key env expected block b composed) (some (some verify_block, b))

unfoldable pub check_broadcast :
    Env → ℕ → Block → Backup → Option (Option Error) → Option (Option Error × Backup)
check_broadcast env expected block b none = none
check_broadcast env expected block b (some (some e)) = some (some e, b)
check_broadcast env expected block b (some none) =
    compare_block env expected block (prepare_own env block b)

-- `verifyBlock`: its error and the backup as it leaves it.
unfoldable pub verify_broadcast : Env → Message → Backup → Option (Option Error × Backup)
verify_broadcast env msg b = elim (env.read_payload msg.payload) [
  | none ↦ some (some unmarshal_message, b)
  | some bytes ↦ elim (expected_signers b) [
    | none ↦ none
    | some expected ↦ elim (read_broadcast env bytes b) [
      | none ↦ some (some unmarshal_message, b)
      | some (block, sig2) ↦
          check_broadcast env expected block b (check_sig2 env expected b block sig2)
    ]
  ]
]
