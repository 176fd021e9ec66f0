-- ===== src/Roles/Submit.antt =====
-- The lists of submissions of protos/peerendpoint.go, and the committee's handlers that fill them,
-- `ProcessPoWSubmission` and `ProcessMicroBlockSubmission` of core/server/role/role_ds_base.go.
pub mod Distinct
pub mod Refused
pub mod Checked
use okchain.Prelude.{
  ℕ, zero, suc, ◌+◌, ◌*◌, ◌/◌, ◌%◌, ◌^◌, Bool, true, false, not, List, [], ◌∷◌, ◌++◌, Option, none,
  some, ltb, leb, ◌==◌, if◌then◌else◌, length, map, u32, u64,
}
use okchain.Bft.Types.{Bytes, Error as BftError}
use okchain.Bft.Quorum.{tolerance_size}
use okchain.Bft.Marks.{count_true, multi_pubkey_verify}
use okchain.Roles.Peers.{Peer, sort_by_pubkey}
use okchain.Roles.Sharding.{PeerEndpointMap}
use okchain.Roles.Types.{
  PowSubmission, MicroBlock, DsBlock, Server, Message, RoleEnv, RoleError, unmarshal_message,
  duplicated_message, verify_block, verify_message, pub_key_convert, verify_mine,
  bls_pub_key_verify,
}

-- `SyncPowSubmissions.Has` and `SyncMicroBlockSubmissions.Has`.
unfoldable pub has_pow : List PowSubmission → Peer → Bool
has_pow [] e = false
has_pow (p ∷ ps) e = if p.peer.pubkey == e.pubkey then true else has_pow ps e

unfoldable pub has_micro_block : List MicroBlock → Peer → Bool
has_micro_block [] e = false
has_micro_block (b ∷ bs) e = if b.miner.pubkey == e.pubkey then true else has_micro_block bs e

-- The number by which `ByNounce.Less` compares: the product and the sum wrap.
unfoldable pub pow_rank : RoleEnv → PowSubmission → ℕ
pow_rank env p = u64 (p.nonce * 10000 + env.bls.sort_key p.public_key / 2 ^ 48 % 4096)

-- `SyncPowSubmissions.Sort`: the highest number first.
unfoldable pub insert_pow : RoleEnv → PowSubmission → List PowSubmission → List PowSubmission
insert_pow env p [] = p ∷ []
insert_pow env p (q ∷ qs) =
    if leb (pow_rank env q) (pow_rank env p) then p ∷ q ∷ qs else q ∷ insert_pow env p qs

unfoldable pub sort_pow : RoleEnv → List PowSubmission → List PowSubmission
sort_pow env [] = []
sort_pow env (p ∷ ps) = insert_pow env p (sort_pow env ps)

-- An early return: the server stays as it is.
abbrev pub refuse : Server → RoleError → Server × Option RoleError
refuse s e = (s, some e)

-- The two appends at the end of `ProcessPoWSubmission`.
abbrev pub accept_pow : Server → Message → PowSubmission → Server × Option RoleError
accept_pow s msg pow = (
  record s {
    pow_sub_list = s.pow_sub_list ++ pow ∷ [];
    sharding_nodes = s.sharding_nodes ++ msg.peer ∷ [];
  },
  none,
)

-- `ProcessPoWSubmission` from the mining result on: only the error of `Verify` is tested.
unfoldable pub append_pow :
    RoleEnv → Server → Message → PowSubmission → ℕ → Server × Option RoleError
append_pow env s msg pow key_text =
    let seed =
      env.mining_seed (env.ds_hash s.ds_current) (env.tx_hash s.tx_current) pow.peer key_text
        pow.coinbase in
    if (env.verify_pow seed pow.block_num s.pow_difficulty pow.result).1
    then accept_pow s msg pow
    else refuse s verify_mine

-- `ProcessPoWSubmission` of a submission that is read.
unfoldable pub check_pow : RoleEnv → Server → Message → PowSubmission → Server × Option RoleError
unfolding append_pow
check_pow env s msg pow =
    if has_pow s.pow_sub_list pow.peer
    then refuse s duplicated_message
    else if not (pow.rand1 == env.ds_hash s.ds_current)
    then refuse s verify_block
    else if not (pow.rand2 == env.tx_hash s.tx_current)
    then refuse s verify_block
    else if not (env.verify_hash msg (env.pow_hash pow))
    then refuse s verify_message
    else elim (env.pub_key_text pow.peer.pubkey) [
      | none ↦ refuse s pub_key_convert
      | some text ↦ append_pow env s msg pow text
    ]

-- `ProcessPoWSubmission`
unfoldable pub process_pow_submission : RoleEnv → Server → Message → Server × Option RoleError
unfolding check_pow
process_pow_submission env s msg = elim (env.read_pow msg.payload) [
  | none ↦ refuse s unmarshal_message
  | some pow ↦ check_pow env s msg pow
]

-- `sort.Sort` of one shard's list, in the map.
unfoldable pub sort_shard : (ℕ → ℕ) → PeerEndpointMap → ℕ → PeerEndpointMap
sort_shard sort_key m id = λ j. if j == id then sort_by_pubkey sort_key (m j) else m j

-- How many marks a micro block needs; `none` is the panic of a division by zero.
unfoldable pub micro_expected : DsBlock → Option ℕ
micro_expected block = elim block.sharding_sum [
  | zero ↦ none
  | suc n ↦ some (
      if suc n == 1
      then tolerance_size (length block.sharding_nodes)
      else tolerance_size (length block.sharding_nodes / suc n))
]

-- The end of `ProcessMicroBlockSubmission`; `on_done` is the role's
-- `onWait4MicroBlockSubmissionDone`.
unfoldable pub append_micro_block :
    (Server → Server × Option RoleError) → Server → Message → MicroBlock → Server × Option RoleError
append_micro_block on_done s msg block =
    if has_micro_block s.micro_block_list msg.peer
    then refuse s duplicated_message
    else let s1 : Server = record s { micro_block_list = s.micro_block_list ++ block ∷ [] } in
      if u32 (length s1.micro_block_list) == s1.ds_current.sharding_sum
      then on_done s1
      else (s1, none)

-- The verdict of `BlsMultiPubkeyVerify`, as the handler reads it.
unfoldable pub key_error : Option (Option BftError) → Option (Option RoleError)
key_error none = none
key_error (some none) = some none
key_error (some (some e)) = some (some bls_pub_key_verify)

unfoldable pub count_error :
    RoleEnv → List Bool → List Peer → Bytes → Option ℕ → Option (Option RoleError)
count_error env bits nodes composed none = none
count_error env bits nodes composed (some expected) =
    if ltb (count_true bits) expected
    then some (some verify_block)
    else key_error (multi_pubkey_verify env.bls bits (map (λ (p : Peer). p.pubkey) nodes) composed)

-- Its checks of the bool map against the sorted nodes of the shard; `none` is a panic.
unfoldable pub marks_error :
    RoleEnv → List Bool → List Peer → Bytes → Option ℕ → Option (Option RoleError)
marks_error env bits nodes composed expected =
    if length bits == length nodes
    then count_error env bits nodes composed expected
    else some (some verify_block)

-- What follows the checks.
unfoldable pub after_checks :
    (Server → Server × Option RoleError)
    → Server
    → Message
    → MicroBlock
    → Option (Option RoleError)
    → Option (Server × Option RoleError)
after_checks on_done s msg block none = none
after_checks on_done s msg block (some (some e)) = some (refuse s e)
after_checks on_done s msg block (some none) = some (append_micro_block on_done s msg block)

-- `ProcessMicroBlockSubmission` from the sorting on.
unfoldable pub check_marks :
    RoleEnv
    → (Server → Server × Option RoleError)
    → Server
    → Message
    → MicroBlock
    → Option (Server × Option RoleError)
check_marks env on_done s msg block =
    let s1 : Server = record s {
      sharding_map = sort_shard env.bls.sort_key s.sharding_map block.shard_id;
    } in
    after_checks on_done s1 msg block (
      marks_error env block.bool_map (s1.sharding_map block.shard_id) block.multi_pub_key
        (micro_expected s1.ds_current))

-- `ProcessMicroBlockSubmission` of a block that is read.
unfoldable pub check_micro_block :
    RoleEnv
    → (Server → Server × Option RoleError)
    → Server
    → Message
    → MicroBlock
    → Option (Server × Option RoleError)
check_micro_block env on_done s msg block =
    if not (block.ds_block_num == s.ds_current.block_number)
    then some (refuse s verify_block)
    else if not (block.ds_block_hash == env.ds_hash s.ds_current)
    then some (refuse s verify_block)
    else if not (env.verify_hash msg (env.micro_block_hash block))
    then some (refuse s verify_message)
    else check_marks env on_done s msg block

-- `ProcessMicroBlockSubmission`; `none` is a panic.
unfoldable pub process_micro_block_submission :
    RoleEnv
    → (Server → Server × Option RoleError)
    → Server
    → Message
    → Option (Server × Option RoleError)
process_micro_block_submission env on_done s msg = elim (env.read_micro_block msg.payload) [
  | none ↦ some (refuse s unmarshal_message)
  | some block ↦ check_micro_block env on_done s msg block
]
