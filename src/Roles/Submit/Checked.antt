-- ===== src/Roles/Submit/Checked.antt =====
-- What the committee knows of a micro block that it adds.
use okchain.Prelude.{
  ℕ, ◌≤◌, ◌≡◌, refl, ◌⊎◌, inl, inr, Bool, true, false, not, List, [], ◌∷◌, ◌++◌, Option, none, some,
  ◌==◌, Bool-cases, ltb, arith, if◌then◌else◌, length, map, u32,
}
use okchain.Bft.Types.{Bytes, Error}
use okchain.Bft.Marks.{count_true, multi_pubkey_verify}
use okchain.Bft.Marks.Laws.{marked_nodes, key_sum}
use okchain.Bft.Marks.Sums.{multi_pubkey_verify-key_sum}
use okchain.Roles.Peers.{Peer}
use okchain.Roles.Types.{MicroBlock, DsBlock, Server, Message, RoleEnv, RoleError}
use okchain.Roles.Submit.{
  sort_shard, micro_expected, marks_error, count_error, key_error, after_checks, check_micro_block,
  check_marks, append_micro_block, process_micro_block_submission, refuse, has_micro_block,
}

-- A bool map over the nodes of a shard: it is as long as they are many, it marks enough of them, and
-- the composed key is the sum of the keys of those that it marks.
abbrev pub IsSigned : RoleEnv → DsBlock → List Peer → MicroBlock → Type 0
IsSigned env ds nodes block =
    let keys = map (λ (p : Peer). p.pubkey) nodes in
    (length block.bool_map ≡ length nodes)
    × ((expected : ℕ) × (micro_expected ds ≡ some expected)
        × (expected ≤ count_true block.bool_map))
    × ((env.bls.read_key block.multi_pub_key).0
        ≡ key_sum env.bls env.bls.zero_key (marked_nodes block.bool_map keys))

key_error-none : (o : Option (Option Error)) → key_error o ≡ some none → o ≡ some none
unfolding key_error
key_error-none none h = absurd cc
key_error-none (some none) h = refl
key_error-none (some (some e)) h = absurd cc

count_error-none :
    (env : RoleEnv) (bits : List Bool) (nodes : List Peer) (composed : Bytes) (expected : Option ℕ)
    → count_error env bits nodes composed expected ≡ some none
    → ((n : ℕ) × (expected ≡ some n) × (n ≤ count_true bits))
      × (multi_pubkey_verify env.bls bits (map (λ (p : Peer). p.pubkey) nodes) composed ≡ some none)
unfolding count_error
count_error-none env bits nodes composed none h = absurd cc
count_error-none env bits nodes composed (some n) h = elim (Bool-cases (ltb (count_true bits) n)) [
  | inl t ↦ absurd (ground arith)
  | inr f ↦ ((n, refl, ground arith), key_error-none _ (ground arith))
]

marks_error-none :
    (env : RoleEnv) (ds : DsBlock) (nodes : List Peer) (block : MicroBlock)
    → marks_error env block.bool_map nodes block.multi_pub_key (micro_expected ds) ≡ some none
    → IsSigned env ds nodes block
unfolding marks_error
marks_error-none env ds nodes block h = elim (Bool-cases (length block.bool_map == length nodes)) [
  | inl t ↦
      let counted =
        count_error-none env block.bool_map nodes block.multi_pub_key (micro_expected ds)
          (ground arith) in
      (
        ground arith,
        counted.0,
        multi_pubkey_verify-key_sum env.bls block.bool_map _ block.multi_pub_key counted.1,
      )
  | inr f ↦ absurd (ground arith)
]

-- What a handled micro block leaves: a block is added only if the bool map and the composed key fit
-- the shard's nodes, it names the current DS block, and no block is there that the sender mined.
abbrev pub Added : RoleEnv → Server → Message → MicroBlock → Type 0
Added env s msg block =
    (block.ds_block_num ≡ s.ds_current.block_number)
    × (block.ds_block_hash ≡ env.ds_hash s.ds_current)
    × (env.verify_hash msg (env.micro_block_hash block) ≡ true)
    × (has_micro_block s.micro_block_list msg.peer ≡ false)
    × IsSigned env s.ds_current
        (sort_shard env.bls.sort_key s.sharding_map block.shard_id block.shard_id) block

-- The server with the shard's list sorted and the block added.
abbrev pub with_block : RoleEnv → Server → MicroBlock → Server
with_block env s block = record s {
  sharding_map = sort_shard env.bls.sort_key s.sharding_map block.shard_id;
  micro_block_list = s.micro_block_list ++ block ∷ [];
}

unfoldable pub IsHandled :
    RoleEnv
    → (Server → Server × Option RoleError)
    → Server
    → Message
    → Option (Server × Option RoleError)
    → Type 0
IsHandled env on_done s msg o =
    (o ≡ none)
    ⊎ (((s' : Server) × (e : RoleError) × (o ≡ some (s', some e))
          × (s'.micro_block_list ≡ s.micro_block_list))
        ⊎ ((block : MicroBlock) × (env.read_micro_block msg.payload ≡ some block)
            × Added env s msg block
            × (let s1 = with_block env s block in
                o
                ≡ some (
                    if u32 (length s1.micro_block_list) == s.ds_current.sharding_sum
                    then on_done s1
                    else (s1, none)))))

unread-IsHandled :
    (env : RoleEnv) (on_done : Server → Server × Option RoleError) (s : Server) (msg : Message)
    → IsHandled env on_done s msg (some (refuse s RoleError.unmarshal_message))
unfolding IsHandled
unread-IsHandled env on_done s msg = inr (inl (s, RoleError.unmarshal_message, refl, refl))

module _ (env : RoleEnv) (on_done : Server → Server × Option RoleError) (s : Server) (msg : Message)
    (block : MicroBlock) where
  refuse-IsHandled :
      (s' : Server) (e : RoleError)
      → s'.micro_block_list ≡ s.micro_block_list
      → IsHandled env on_done s msg (some (refuse s' e))
  unfolding IsHandled
  refuse-IsHandled s' e h = inr (inl (s', e, refl, h))

  guard-IsHandled :
      (b : Bool) (e : RoleError) (rest : Option (Server × Option RoleError))
      → (b ≡ false → IsHandled env on_done s msg rest)
      → IsHandled env on_done s msg (if b then some (refuse s e) else rest)
  guard-IsHandled true e rest h = refuse-IsHandled s e refl
  guard-IsHandled false e rest h = h refl

  append-IsHandled :
      env.read_micro_block msg.payload ≡ some block
      → Added env s msg block
      → IsHandled env on_done s msg (
          some (
            append_micro_block on_done
              (record s {
                sharding_map = sort_shard env.bls.sort_key s.sharding_map block.shard_id;
              })
              msg
              block))
  unfolding IsHandled append_micro_block
  append-IsHandled r a = inr (inr (block, r, a, rw a.3))

  again-IsHandled :
      has_micro_block s.micro_block_list msg.peer ≡ true
      → IsHandled env on_done s msg (
          some (
            append_micro_block on_done
              (record s {
                sharding_map = sort_shard env.bls.sort_key s.sharding_map block.shard_id;
              })
              msg
              block))
  unfolding append_micro_block
  again-IsHandled e = rw e (refuse-IsHandled _ RoleError.duplicated_message refl)

  after_checks-IsHandled :
      (o : Option (Option RoleError))
      → (o ≡ some none
          → IsHandled env on_done s msg (
              some (
                append_micro_block on_done
                  (record s {
                    sharding_map = sort_shard env.bls.sort_key s.sharding_map block.shard_id;
                  })
                  msg
                  block)))
      → IsHandled env on_done s msg (
          after_checks on_done
            (record s { sharding_map = sort_shard env.bls.sort_key s.sharding_map block.shard_id })
            msg
            block
            o)
  unfolding after_checks IsHandled
  after_checks-IsHandled none h = inl refl
  after_checks-IsHandled (some (some e)) h = refuse-IsHandled _ e refl
  after_checks-IsHandled (some none) h = h refl

  check_marks-IsHandled :
      env.read_micro_block msg.payload ≡ some block
      → block.ds_block_num ≡ s.ds_current.block_number
      → block.ds_block_hash ≡ env.ds_hash s.ds_current
      → env.verify_hash msg (env.micro_block_hash block) ≡ true
      → IsHandled env on_done s msg (check_marks env on_done s msg block)
  unfolding check_marks
  check_marks-IsHandled r num hash signed = after_checks-IsHandled _ (λ ok.
      new_sender (has_micro_block s.micro_block_list msg.peer) refl
        (marks_error-none env s.ds_current _ block ok))
    where
      new_sender :
          (b : Bool)
          → has_micro_block s.micro_block_list msg.peer ≡ b
          → IsSigned env s.ds_current
              (sort_shard env.bls.sort_key s.sharding_map block.shard_id block.shard_id)
              block
          → IsHandled env on_done s msg (
              some (
                append_micro_block on_done
                  (record s {
                    sharding_map = sort_shard env.bls.sort_key s.sharding_map block.shard_id;
                  })
                  msg
                  block))
      new_sender true e ok = again-IsHandled e
      new_sender false e ok = append-IsHandled r (num, hash, signed, e, ok)

  check_micro_block-IsHandled :
      env.read_micro_block msg.payload ≡ some block
      → IsHandled env on_done s msg (check_micro_block env on_done s msg block)
  unfolding check_micro_block
  check_micro_block-IsHandled r =
      guard-IsHandled (not (block.ds_block_num == s.ds_current.block_number)) RoleError.verify_block
        _
        (λ num.
          guard-IsHandled (not (block.ds_block_hash == env.ds_hash s.ds_current))
            RoleError.verify_block _
            (λ hash.
              guard-IsHandled (not (env.verify_hash msg (env.micro_block_hash block)))
                RoleError.verify_message _
                (λ signed.
                  check_marks-IsHandled r (ground (arith, num)) (ground (arith, hash))
                    (ground (arith, signed)))))

-- The committee handles a micro block in one of three ways: it panics; it gives an error and its list
-- of micro blocks stays; or the block is added, names the current DS block, is signed by its sender,
-- who mined none of the blocks that are there, and has a bool map that fits the shard's sorted nodes,
-- marks at least the quorum, and has the sum of the marked keys as its key. Then the role goes on if
-- there are as many blocks as shards.
pub process_micro_block_submission-IsHandled :
    (env : RoleEnv) (on_done : Server → Server × Option RoleError) (s : Server) (msg : Message)
    → IsHandled env on_done s msg (process_micro_block_submission env on_done s msg)
unfolding process_micro_block_submission
process_micro_block_submission-IsHandled env on_done s msg =
    go (env.read_micro_block msg.payload) refl
  where
    go :
        (o : Option MicroBlock)
        → env.read_micro_block msg.payload ≡ o
        → IsHandled env on_done s msg (elim o [
          | none ↦ some (refuse s RoleError.unmarshal_message)
          | some block ↦ check_micro_block env on_done s msg block
        ])
    go none r = unread-IsHandled env on_done s msg
    go (some block) r = check_micro_block-IsHandled env on_done s msg block r
