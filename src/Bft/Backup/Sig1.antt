-- ===== src/Bft/Backup/Sig1.antt =====
-- `verifyBlockSig1` of consensus_backup.go: the leader's collective signature of the first round.
use okchain.Prelude.{ℕ, Option, none, some, ltb, if◌then◌else◌, length}
use okchain.Bft.Types.{
  Block, BoolMapSignature, Error, Message, unmarshal_message, verify_message, cannot_process,
  deserialize_failed, not_enough,
}
use okchain.Bft.Env.{Env}
use okchain.Bft.Quorum.{tolerance_size}
use okchain.Bft.Committee.{sort_peers}
use okchain.Bft.Marks.{Marked, marked_keys}
use okchain.Bft.Backup.{Backup, own_block, set_block, is_sharding, hashed_block}

-- The switch at the end: a signature that verifies is kept in the own block.
unfoldable pub keep_sig1 :
    Env → BoolMapSignature → ℕ → ℕ → Backup → Option Block → Option (Option Error × Backup)
keep_sig1 env sig1 sign key b none = none
keep_sig1 env sig1 sign key b (some hashed) = some (
    if env.bls_verify sign key (env.hash b.current_type hashed)
    then (none, set_block (record (own_block b) { signature = some sig1.signature }) b)
    else (some verify_message, b))

unfoldable pub check_sig1 :
    Env → BoolMapSignature → Backup → Option Marked → Option (Option Error × Backup)
check_sig1 env sig1 b none = none
check_sig1 env sig1 b (some m) =
    let (sign, read) = env.read_sig (some sig1.signature) in
    let kept = keep_sig1 env sig1 sign m.key b (hashed_block b.current_type (own_block b)) in
    if ltb m.counter (tolerance_size (length b.committee))
    then some (some not_enough, b)
    else if read
    then kept
    else some (some deserialize_failed, b)

abbrev pub no_marks : Env → Marked
no_marks env = record { key = env.zero_key; counter = 0 }

-- `verifyBlockSig1`: its error and the backup as it leaves it. `none` is a panic, of a bool map
-- that marks more nodes than there are or of a final block without a coinbase.
unfoldable pub verify_block_sig1 : Env → Message → Backup → Option (Option Error × Backup)
verify_block_sig1 env msg b =
    if is_sharding b then some (some cannot_process, b) else elim (env.read_payload msg.payload) [
      | none ↦ some (some unmarshal_message, b)
      | some bytes ↦ elim (env.read_collective bytes) [
        | none ↦ some (some unmarshal_message, b)
        | some sig1 ↦
            check_sig1 env sig1 b
              (marked_keys env sig1.bool_map (sort_peers env b.committee) (no_marks env))
      ]
    ]
