-- ===== src/Bft/Backup/Laws.antt =====
-- What a backup has checked of a collective signature, or of a block that it takes over.
use okchain.Prelude.{
  List, [], ◌∷◌, List-cases, ℕ, ◌≤◌, ◌≡◌, refl, sym, ap, subst, Bool, true, false, Option, none,
  some, some_inj, ltb, if◌then◌else◌, length, arith, Option-cases, inl, inr,
}
use okchain.Bft.Types.{
  ConsensusType, ds_block_consensus, micro_block_consensus, final_block_consensus,
  view_change_consensus, cannot_process, Bytes, Block, BoolMapSignature, Error, Message,
}
use okchain.Bft.Env.{Env}
use okchain.Bft.Quorum.{tolerance_size}
use okchain.Bft.Committee.{sort_peers}
use okchain.Bft.Marks.{Marked, marked_keys, count_true}
use okchain.Bft.Marks.Laws.{marked_nodes, key_sum}
use okchain.Bft.Marks.Sums.{marked_keys-some}
use okchain.Bft.Backup.{Backup, own_block, set_block, is_sharding, hashed_block}
use okchain.Bft.Backup.Sig1.{keep_sig1, check_sig1, no_marks, verify_block_sig1}

-- `hashed` is the block, of whose coinbases a final block keeps the first alone.
abbrev pub Strips : ConsensusType → Block → Block → Type 0
Strips final_block_consensus block hashed =
    (c0 : Bytes) × (rest : List Bytes) × (block.ds_coin_base ≡ c0 ∷ rest)
    × (hashed ≡ record block { ds_coin_base = c0 ∷ [] })
Strips ds_block_consensus block hashed = hashed ≡ block
Strips micro_block_consensus block hashed = hashed ≡ block
Strips view_change_consensus block hashed = hashed ≡ block

pub hashed_block-Strips :
    (type : ConsensusType) (block hashed : Block)
    → hashed_block type block ≡ some hashed
    → Strips type block hashed
unfolding hashed_block
hashed_block-Strips final_block_consensus block hashed h = elim (List-cases block.ds_coin_base) [
  | inl e ↦ absurd (ground arith)
  | inr (c0, rest, e) ↦ (c0, rest, e, sym (some_inj (rw e at h)))
]
hashed_block-Strips ds_block_consensus block hashed h = sym (some_inj h)
hashed_block-Strips micro_block_consensus block hashed h = sym (some_inj h)
hashed_block-Strips view_change_consensus block hashed h = sym (some_inj h)

-- What `verifyBlockSig1` has shown of `sig1` where it succeeds, and its one change.
pub record IsSigned (env : Env) (msg : Message) (b b' : Backup) : Type 0 where
  pub bytes : Bytes
  pub sig1 : BoolMapSignature
  pub hashed : Block
  pub decoded : env.read_payload msg.payload ≡ some bytes
  pub read : env.read_collective bytes ≡ some sig1
  pub enough : tolerance_size (length b.committee) ≤ count_true sig1.bool_map
  pub of_own : hashed_block b.current_type (own_block b) ≡ some hashed
  pub strips : Strips b.current_type (own_block b) hashed
  pub verified :
      env.bls_verify
        (env.read_sig (some sig1.signature)).0
        (key_sum env env.zero_key (marked_nodes sig1.bool_map (sort_peers env b.committee)))
        (env.hash b.current_type hashed)
      ≡ true
  pub kept : b' ≡ set_block (record (own_block b) { signature = some sig1.signature }) b

pub failed≢done {ℓ} :
    {A : Type ℓ} (e : Error) (y z : A)
    → ¬ (◌≡◌ {A = Option (Option Error × A)} (some (some e, y)) (some (none, z)))
failed≢done e y z h = cc

-- A test that guards a success.
if-none {ℓ} :
    {A : Type ℓ} (e : Error) (t : Bool) (x y z : A)
    → ◌≡◌ {A = Option (Option Error × A)}
        (some (if t then (none, x) else (some e, y)))
        (some (none, z))
    → (t ≡ true) × (z ≡ x)
if-none e true x y z h = (refl, sym (ap (λ p. p.1) (some_inj h)))
if-none e false x y z h = absurd (failed≢done e _ _ h)

guard-none {ℓ} :
    {A : Type ℓ} (e : Error) (t : Bool) (y z : A) (r : Option (Option Error × A))
    → (if t then some (some e, y) else r) ≡ some (none, z)
    → (t ≡ false) × (r ≡ some (none, z))
guard-none e false y z r h = (refl, h)
guard-none e true y z r h = absurd (failed≢done e _ _ h)

require-none {ℓ} :
    {A : Type ℓ} (e : Error) (t : Bool) (y z : A) (r : Option (Option Error × A))
    → (if t then r else some (some e, y)) ≡ some (none, z)
    → (t ≡ true) × (r ≡ some (none, z))
require-none e true y z r h = (refl, h)
require-none e false y z r h = absurd (failed≢done e _ _ h)

keep_sig1-none :
    (env : Env) (sig1 : BoolMapSignature) (sign key : ℕ) (b b' : Backup) (o : Option Block)
    → keep_sig1 env sig1 sign key b o ≡ some (none, b')
    → (hashed : Block) × (o ≡ some hashed)
      × (env.bls_verify sign key (env.hash b.current_type hashed) ≡ true)
      × (b' ≡ set_block (record (own_block b) { signature = some sig1.signature }) b)
unfolding keep_sig1
keep_sig1-none env sig1 sign key b b' none h = absurd cc
keep_sig1-none env sig1 sign key b b' (some hashed) h =
    let (t, same) = if-none _ (env.bls_verify sign key (env.hash b.current_type hashed)) _ _ _ h in
    (hashed, refl, t, same)

check_sig1-none :
    (env : Env) (sig1 : BoolMapSignature) (b b' : Backup) (o : Option Marked)
    → check_sig1 env sig1 b o ≡ some (none, b')
    → (m : Marked) × (hashed : Block) × (o ≡ some m)
      × (tolerance_size (length b.committee) ≤ m.counter)
      × (hashed_block b.current_type (own_block b) ≡ some hashed)
      × (env.bls_verify
            (env.read_sig (some sig1.signature)).0
            m.key
            (env.hash b.current_type hashed)
          ≡ true)
      × (b' ≡ set_block (record (own_block b) { signature = some sig1.signature }) b)
unfolding check_sig1
check_sig1-none env sig1 b b' none h = absurd cc
check_sig1-none env sig1 b b' (some m) h =
    let (enough, h1) = guard-none _ (ltb m.counter (tolerance_size (length b.committee))) _ _ _ h in
    let (_, h2) = require-none _ (env.read_sig (some sig1.signature)).1 _ _ _ h1 in
    let (hashed, of_own, verified, kept) = keep_sig1-none env sig1 _ m.key b b' _ h2 in
    (m, hashed, refl, ground arith, of_own, verified, kept)

-- Where `verifyBlockSig1` succeeds, the message carried a signature of the own block, without the
-- later coinbases of a final block, under the sum of the keys of just the committee's members that
-- its bool map marks, at least a quorum in number; and the backup has changed in nothing but its own
-- block, which holds that signature.
pub verify_block_sig1-IsSigned :
    (env : Env) (msg : Message) (b b' : Backup)
    → verify_block_sig1 env msg b ≡ some (none, b')
    → IsSigned env msg b b'
unfolding verify_block_sig1
verify_block_sig1-IsSigned env msg b b' h = elim (Option-cases (env.read_payload msg.payload)) [
  | inl p ↦ absurd (ground arith)
  | inr (bytes, p) ↦ elim (Option-cases (env.read_collective bytes)) [
    | inl q ↦ absurd (ground arith)
    | inr (sig1, q) ↦
        (let checked =
            check_sig1 env sig1 b
              (marked_keys env sig1.bool_map (sort_peers env b.committee) (no_marks env)) in
          let (_, h1) =
            guard-none cannot_process (is_sharding b) b b' checked (ground (arith, h)) in
          let (m, hashed, marks, enough, of_own, verified, kept) =
            check_sig1-none env sig1 b b' _ h1 in
          let sum = marked_keys-some env sig1.bool_map _ (no_marks env) m marks in
          record {
            bytes = bytes;
            sig1 = sig1;
            hashed = hashed;
            decoded = p;
            read = q;
            enough = ground (arith, sum, enough);
            of_own = of_own;
            strips = hashed_block-Strips b.current_type (own_block b) hashed of_own;
            verified =
                subst
                  (λ (n : Marked).
                    env.bls_verify (env.read_sig (some sig1.signature)).0 n.key
                      (env.hash b.current_type hashed)
                    ≡ true)
                  sum verified;
            kept = kept;
          })
  ]
]
