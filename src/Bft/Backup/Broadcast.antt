-- ===== src/Bft/Backup/Broadcast.antt =====
-- When a backup takes over the block of the leader's last message (`verifyBlock`).
use mathlib.Core.Logic.{if_pos, if_neg}
use okchain.Prelude.{
  ℕ, ◌≤◌, ◌≡◌, refl, sym, ap, true, Option, none, some, some_inj, ltb, if◌then◌else◌, arith,
  Bool-cases, Option-cases, inl, inr,
}
use okchain.Bft.Types.{
  Bytes, Block, Block-discrete, BoolMapSignature, Error, Message, verify_block, verify_message,
  bls_pub_key_verify,
}
use okchain.Bft.Env.{Env}
use okchain.Bft.Marks.{count_true, multi_pubkey_verify}
use okchain.Bft.Marks.Laws.{marked_nodes, key_sum}
use okchain.Bft.Marks.Sums.{multi_pubkey_verify-key_sum}
use okchain.Bft.Backup.{Backup, own_block, set_block, hashed_block, expected_signers}
use okchain.Bft.Backup.{is_sharding}
use okchain.Bft.Backup.Signers.{
  SecondSigned, check_sig2-SecondSigned, Expected, expected_signers-Expected,
}
use okchain.Bft.Backup.Laws.{failed≢done, Strips, hashed_block-Strips}
use okchain.Bft.Backup.Adopt.{
  stripped, adopt, check_pub_key, compare_block, check_broadcast, prepare_own, read_broadcast,
  verify_broadcast, signer_nodes, check_sig2,
}

-- All checks of `verifyBlock` but the count of the signers; `ready` is the backup once its own
-- block is ready to be compared.
pub record IsChecked (env : Env) (msg : Message) (b ready : Backup) (block : Block) (expected : ℕ)
    : Type 0 where
  pub bytes : Bytes
  pub sig2 : Option BoolMapSignature
  pub hashed : Block
  pub decoded : env.read_payload msg.payload ≡ some bytes
  pub quorum : expected_signers b ≡ some expected
  pub read : read_broadcast env bytes b ≡ some (block, sig2)
  pub second : check_sig2 env expected b block sig2 ≡ some none
  pub prepared : prepare_own env block b ≡ some (none, ready)
  pub same : own_block ready ≡ stripped block
  pub composed :
      multi_pubkey_verify env block.bool_map
        (signer_nodes env ready)
        (env.header_bytes block.multi_pub_key)
      ≡ some none
  pub of_block : hashed_block ready.current_type block ≡ some hashed
  pub signed :
      env.bls_verify
        (env.read_sig block.signature).0
        (env.read_key (env.header_bytes block.multi_pub_key)).0
        (env.hash ready.current_type hashed)
      ≡ true

-- Once all checks but the count of the signers have passed, `verifyBlock` replaces the own block by
-- the leader's, and only then refuses a block with fewer signers than expected: the error does not
-- undo the replacement.
pub verify_broadcast_replaces :
    (env : Env) (msg : Message) (b ready : Backup) (block : Block) (expected : ℕ)
    → IsChecked env msg b ready block expected
    → verify_broadcast env msg b
      ≡ some (
        (if ltb (count_true block.bool_map) expected then some verify_block else none),
        set_block block ready,
      )
unfolding verify_broadcast check_broadcast compare_block check_pub_key adopt
verify_broadcast_replaces env msg b ready block expected c =
    rw (verify_broadcast, c.decoded, verify_broadcast, c.quorum, verify_broadcast, c.read)
      (rw (c.second, c.prepared)
        (rw (compare_block, if_pos _ c.same, c.composed, c.of_block) (rw (c.signed))))

adopt-none :
    (env : Env) (expected : ℕ) (block : Block) (b b' : Backup) (o : Option Block)
    → adopt env expected block b o ≡ some (none, b')
    → (hashed : Block) × (o ≡ some hashed)
      × (env.bls_verify
            (env.read_sig block.signature).0
            (env.read_key (env.header_bytes block.multi_pub_key)).0
            (env.hash b.current_type hashed)
          ≡ true)
      × (expected ≤ count_true block.bool_map)
      × (b' ≡ set_block block b)
unfolding adopt
adopt-none env expected block b b' none h = absurd cc
adopt-none env expected block b b' (some hashed) h =
    let verified =
      env.bls_verify (env.read_sig block.signature).0
        (env.read_key (env.header_bytes block.multi_pub_key)).0 (env.hash b.current_type hashed) in
    elim (Bool-cases verified) [
      | inl t ↦ elim (Bool-cases (ltb (count_true block.bool_map) expected)) [
        | inl few ↦ absurd (failed≢done verify_block _ _ (rw (t, few) at h))
        | inr enough ↦ (
          hashed,
          refl,
          t,
          ground arith,
          ap (λ (p : Option Error × Backup). p.1) (some_inj (sym (rw (t, enough) at h))),
        )
      ]
      | inr f ↦ absurd (failed≢done verify_message _ _ (rw f at h))
    ]

check_pub_key-none :
    (env : Env) (expected : ℕ) (block : Block) (b b' : Backup) (o : Option (Option Error))
    → check_pub_key env expected block b o ≡ some (none, b')
    → (o ≡ some none)
      × (adopt env expected block b (hashed_block b.current_type block) ≡ some (none, b'))
unfolding check_pub_key
check_pub_key-none env expected block b b' none h = absurd cc
check_pub_key-none env expected block b b' (some (some e)) h =
    absurd (failed≢done bls_pub_key_verify _ _ h)
check_pub_key-none env expected block b b' (some none) h = (refl, h)

compare_block-none :
    (env : Env) (expected : ℕ) (block : Block) (b' : Backup) (o : Option (Option Error × Backup))
    → compare_block env expected block o ≡ some (none, b')
    → (ready : Backup) × (o ≡ some (none, ready))
      × (own_block ready ≡ stripped block)
      × (check_pub_key env expected block ready (
            multi_pubkey_verify env block.bool_map
              (signer_nodes env ready)
              (env.header_bytes block.multi_pub_key))
          ≡ some (none, b'))
unfolding compare_block
compare_block-none env expected block b' none h = absurd cc
compare_block-none env expected block b' (some (some e, b)) h = absurd (failed≢done e _ _ h)
compare_block-none env expected block b' (some (none, b)) h =
    elim (Block-discrete (own_block b) (stripped block)) [
      | yes same ↦ (b, refl, same, rw (if_pos _ same) at h)
      | no other ↦ absurd (failed≢done verify_block _ _ (rw (if_neg _ other) at h))
    ]

check_broadcast-none :
    (env : Env) (expected : ℕ) (block : Block) (b b' : Backup) (o : Option (Option Error))
    → check_broadcast env expected block b o ≡ some (none, b')
    → (o ≡ some none)
      × (compare_block env expected block (prepare_own env block b) ≡ some (none, b'))
unfolding check_broadcast
check_broadcast-none env expected block b b' none h = absurd cc
check_broadcast-none env expected block b b' (some (some e)) h = absurd (failed≢done e _ _ h)
check_broadcast-none env expected block b b' (some none) h = (refl, h)

read_broadcast-none :
    (env : Env) (msg : Message) (b b' : Backup)
    → verify_broadcast env msg b ≡ some (none, b')
    → (bytes : Bytes) × (expected : ℕ) × (block : Block) × (sig2 : Option BoolMapSignature)
      × (env.read_payload msg.payload ≡ some bytes)
      × (expected_signers b ≡ some expected)
      × (read_broadcast env bytes b ≡ some (block, sig2))
      × (check_broadcast env expected block b (check_sig2 env expected b block sig2)
          ≡ some (none, b'))
unfolding verify_broadcast
read_broadcast-none env msg b b' h = elim (Option-cases (env.read_payload msg.payload)) [
  | inl p ↦ absurd (ground arith)
  | inr (bytes, p) ↦ elim (Option-cases (expected_signers b)) [
    | inl q ↦ absurd (ground arith)
    | inr (expected, q) ↦ elim (Option-cases (read_broadcast env bytes b)) [
      | inl r ↦ absurd (ground arith)
      | inr ((block, sig2), r) ↦ (bytes, expected, block, sig2, p, q, r, ground arith)
    ]
  ]
]

-- Where `verifyBlock` succeeds, the message held a block that equals the backup's own, once this is
-- ready to be compared, but for signature, composed key and bool map; the second signature, where
-- there is one, verifies on the first one by `VerifyMultiSignByBoolMap` over the committee; the block's signature verifies under its composed key, which is the
-- sum of the keys of just the nodes that its bool map marks, at least a quorum of the committee, or
-- of a shard's nodes in a shard; it is on the block without the later coinbases of a final block; and
-- the backup has taken over that block.
pub verify_broadcast-IsChecked :
    (env : Env) (msg : Message) (b b' : Backup)
    → verify_broadcast env msg b ≡ some (none, b')
    → (ready : Backup) × (block : Block) × (expected : ℕ) × (c : IsChecked env msg b ready block
        expected)
      × SecondSigned env expected b block c.sig2
      × Strips ready.current_type block c.hashed
      × Expected (is_sharding b) b expected
      × (expected ≤ count_true block.bool_map)
      × ((env.read_key (env.header_bytes block.multi_pub_key)).0
          ≡ key_sum env env.zero_key (marked_nodes block.bool_map (signer_nodes env ready)))
      × (b' ≡ set_block block ready)
verify_broadcast-IsChecked env msg b b' h =
    let (bytes, expected, block, sig2, decoded, quorum, read, h1) =
      read_broadcast-none env msg b b' h in
    let (second, h2) = check_broadcast-none env expected block b b' _ h1 in
    let (ready, prepared, same, h3) = compare_block-none env expected block b' _ h2 in
    let (composed, h4) = check_pub_key-none env expected block ready b' _ h3 in
    let (hashed, of_block, signed, enough, taken) = adopt-none env expected block ready b' _ h4 in
    let checked : IsChecked env msg b ready block expected = record {
      bytes = bytes;
      sig2 = sig2;
      hashed = hashed;
      decoded = decoded;
      quorum = quorum;
      read = read;
      second = second;
      prepared = prepared;
      same = same;
      composed = composed;
      of_block = of_block;
      signed = signed;
    } in
    (
      ready,
      block,
      expected,
      checked,
      check_sig2-SecondSigned env expected b block sig2 second,
      hashed_block-Strips ready.current_type block hashed of_block,
      expected_signers-Expected b expected quorum,
      enough,
      multi_pubkey_verify-key_sum env block.bool_map _ _ composed,
      taken,
    )
