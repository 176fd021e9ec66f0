-- ===== src/Bft/Backup/Quiet.antt =====
-- What the checks of a backup leave alone: what it has sent, and the rounds that it has completed.
use mathlib.Core.Logic.{ite, if_pos, if_neg}
use okchain.Prelude.{
  ℕ, ◌≡◌, refl, sym, subst, ap, some_inj, ◌∙◌, Bool, true, false, Option, none, some, if◌then◌else◌,
  if_rule,
}
use okchain.Bft.Types.{
  Block, Block-discrete, BoolMapSignature, Error, Message, ds_block_consensus,
  micro_block_consensus, final_block_consensus, view_change_consensus, cal_state_root,
}
use okchain.Bft.Env.{Env}
use okchain.Bft.Committee.{sort_peers}
use okchain.Bft.Marks.{Marked}
use okchain.Bft.Backup.{Backup, own_block, set_block, is_sharding, expected_signers}
use okchain.Bft.Backup.Sig1.{keep_sig1, check_sig1, verify_block_sig1}
use okchain.Bft.Backup.Adopt.{
  adopt, check_pub_key, compare_block, check_broadcast, complete_final, prepare_own, read_broadcast,
  verify_broadcast, cleared, check_coin_base2, stripped,
}

pub record Quiet (b b' : Backup) : Type 0 where
  pub sent : b'.sent ≡ b.sent
  pub completed : b'.completed ≡ b.completed

pub refl_Quiet : (b : Backup) → Quiet b b
refl_Quiet b = record { sent = refl; completed = refl }

pub trans_Quiet : {b1 b2 b3 : Backup} → Quiet b1 b2 → Quiet b2 b3 → Quiet b1 b3
trans_Quiet q r = record { sent = r.sent ∙ q.sent; completed = r.completed ∙ q.completed }

-- Of a check, whatever its error.
abbrev pub AllQuiet : Backup → Option (Option Error × Backup) → Type 0
AllQuiet b o = (e : Option Error) (b' : Backup) → o ≡ some (e, b') → Quiet b b'

none-AllQuiet : (b : Backup) → AllQuiet b none
none-AllQuiet b e b' h = absurd cc

some-AllQuiet : {b b1 : Backup} {e1 : Option Error} → Quiet b b1 → AllQuiet b (some (e1, b1))
some-AllQuiet {b} q e b' h =
    subst (Quiet b) (ap (λ (p : Option Error × Backup). p.1) (some_inj h)) q

stay-AllQuiet : {b : Backup} {e1 : Option Error} → AllQuiet b (some (e1, b))
stay-AllQuiet {b} = some-AllQuiet (refl_Quiet b)

if_AllQuiet :
    {b : Backup} (t : Bool) {x y : Option (Option Error × Backup)}
    → AllQuiet b x
    → AllQuiet b y
    → AllQuiet b (if t then x else y)
if_AllQuiet true q r = q
if_AllQuiet false q r = r

elim_AllQuiet {ℓ} :
    {A : Type ℓ} {b : Backup} (o : Option A) {x : Option (Option Error × Backup)}
    {f : A → Option (Option Error × Backup)}
    → AllQuiet b x
    → ((a : A) → AllQuiet b (f a))
    → AllQuiet b (elim o [ none ↦ x | some a ↦ f a ])
elim_AllQuiet none q r = q
elim_AllQuiet (some a) q r = r a

by_type :
    (P : Backup → Type 0) (block : Block) (b : Backup)
    → P (record b { ds_block = block })
    → P (record b { micro_block = block })
    → P (record b { final_block = block })
    → P (record b { vc_block = block })
    → P (set_block block b)
by_type P block b p q r s =
    elim b.current_type
      as (λ t. P (elim t [
        | ds_block_consensus ↦ record b { ds_block = block }
        | micro_block_consensus ↦ record b { micro_block = block }
        | final_block_consensus ↦ record b { final_block = block }
        | view_change_consensus ↦ record b { vc_block = block }
      ])) [
        | ds_block_consensus ↦ p
        | micro_block_consensus ↦ q
        | final_block_consensus ↦ r
        | view_change_consensus ↦ s
      ]

pub set_block-Quiet : (block : Block) (b : Backup) → Quiet b (set_block block b)
set_block-Quiet block b =
    let q : (b' : Backup) → b'.sent ≡ b.sent → b'.completed ≡ b.completed → Quiet b b' =
      λ b' s c. record { sent = s; completed = c } in
    by_type (Quiet b) block b (q _ refl refl) (q _ refl refl) (q _ refl refl) (q _ refl refl)

keep_sig1-Quiet :
    (env : Env) (sig1 : BoolMapSignature) (sign key : ℕ) (b : Backup) (o : Option Block)
    → AllQuiet b (keep_sig1 env sig1 sign key b o)
unfolding keep_sig1
keep_sig1-Quiet env sig1 sign key b none = none-AllQuiet b
keep_sig1-Quiet env sig1 sign key b (some hashed) =
    if_rule (λ (r : Option Error × Backup). AllQuiet b (some r))
      (env.bls_verify sign key (env.hash b.current_type hashed)) _ _
      (λ t. some-AllQuiet (set_block-Quiet _ b)) (λ t. stay-AllQuiet)

check_sig1-Quiet :
    (env : Env) (sig1 : BoolMapSignature) (b : Backup) (o : Option Marked)
    → AllQuiet b (check_sig1 env sig1 b o)
unfolding check_sig1
check_sig1-Quiet env sig1 b none = none-AllQuiet b
check_sig1-Quiet env sig1 b (some m) =
    if_AllQuiet _ stay-AllQuiet (if_AllQuiet _ (keep_sig1-Quiet env sig1 _ m.key b _) stay-AllQuiet)

pub verify_block_sig1-Quiet :
    (env : Env) (msg : Message) (b : Backup) → AllQuiet b (verify_block_sig1 env msg b)
unfolding verify_block_sig1
verify_block_sig1-Quiet env msg b = if_AllQuiet (is_sharding b) stay-AllQuiet (
    elim_AllQuiet (env.read_payload msg.payload) stay-AllQuiet (λ bytes.
      elim_AllQuiet (env.read_collective bytes) stay-AllQuiet
        (λ sig1. check_sig1-Quiet env sig1 b _)))

ite-AllQuiet {ℓ} :
    {A : Type ℓ} {b : Backup} (d : Dec A) {x y : Option (Option Error × Backup)}
    → AllQuiet b x
    → AllQuiet b y
    → AllQuiet b (ite d x y)
ite-AllQuiet {b = b} (yes p) {x = x} {y = y} q r = subst (AllQuiet b) (sym (if_pos (yes p) p x y)) q
ite-AllQuiet {b = b} (no n) {x = x} {y = y} q r = subst (AllQuiet b) (sym (if_neg (no n) n x y)) r

-- A check that starts where a quiet one has ended.
then-AllQuiet :
    {b b1 : Backup} {o : Option (Option Error × Backup)} → Quiet b b1 → AllQuiet b1 o → AllQuiet b o
then-AllQuiet q r e b' h = trans_Quiet q (r e b' h)

adopt-Quiet :
    (env : Env) (expected : ℕ) (block : Block) (b : Backup) (o : Option Block)
    → AllQuiet b (adopt env expected block b o)
unfolding adopt
adopt-Quiet env expected block b none = none-AllQuiet b
adopt-Quiet env expected block b (some hashed) =
    if_rule (λ (r : Option Error × Backup). AllQuiet b (some r))
      (env.bls_verify (env.read_sig block.signature).0
        (env.read_key (env.header_bytes block.multi_pub_key)).0 (env.hash b.current_type hashed))
      _ _ (λ t. some-AllQuiet (set_block-Quiet block b)) (λ t. stay-AllQuiet)

check_pub_key-Quiet :
    (env : Env) (expected : ℕ) (block : Block) (b : Backup) (o : Option (Option Error))
    → AllQuiet b (check_pub_key env expected block b o)
unfolding check_pub_key
check_pub_key-Quiet env expected block b none = none-AllQuiet b
check_pub_key-Quiet env expected block b (some (some e)) = stay-AllQuiet
check_pub_key-Quiet env expected block b (some none) = adopt-Quiet env expected block b _

compare_block-Quiet :
    (env : Env) (expected : ℕ) (block : Block) (b : Backup) (o : Option (Option Error × Backup))
    → AllQuiet b o
    → AllQuiet b (compare_block env expected block o)
unfolding compare_block
compare_block-Quiet env expected block b none q = none-AllQuiet b
compare_block-Quiet env expected block b (some (some e, b1)) q = q
compare_block-Quiet env expected block b (some (none, b1)) q = then-AllQuiet (q none b1 refl) (
    ite-AllQuiet (Block-discrete (own_block b1) (stripped block))
      (check_pub_key-Quiet env expected block b1 _) stay-AllQuiet)

complete_final-Quiet :
    (env : Env) (block : Block) (b : Backup) → AllQuiet b (complete_final env block b)
unfolding complete_final
complete_final-Quiet env block b = go (check_coin_base2 env (sort_peers env b.committee) block)
  where
    own : Block
    own = record (own_block b) { ds_coin_base = block.ds_coin_base }

    go :
        (o : Option (Option Error))
        → AllQuiet b (elim o [
          | none ↦ none
          | some (some e) ↦ some (some e, b)
          | some none ↦ elim (env.calculate_state_root own) [
            | none ↦ some (some cal_state_root, set_block own b)
            | some (root, gas) ↦
                some (none, set_block (record own { state_root = root; gas_used = gas }) b)
          ]
        ])
    go none = none-AllQuiet b
    go (some (some e)) = stay-AllQuiet
    go (some none) =
        elim_AllQuiet (env.calculate_state_root own) (some-AllQuiet (set_block-Quiet own b))
          (λ r. some-AllQuiet (set_block-Quiet _ b))

prepare_own-Quiet : (env : Env) (block : Block) (b : Backup) → AllQuiet b (prepare_own env block b)
unfolding prepare_own
prepare_own-Quiet env block b =
    let plain : AllQuiet b (some (none, cleared b)) = some-AllQuiet (set_block-Quiet _ b) in
    let final : AllQuiet b (complete_final env block (cleared b)) =
      then-AllQuiet (set_block-Quiet _ b) (complete_final-Quiet env block (cleared b)) in
    elim b.current_type
      as (λ t. AllQuiet b (elim t [
        | ds_block_consensus ↦ some (none, cleared b)
        | micro_block_consensus ↦ some (none, cleared b)
        | final_block_consensus ↦ complete_final env block (cleared b)
        | view_change_consensus ↦ some (none, cleared b)
      ])) [
        | ds_block_consensus ↦ plain
        | micro_block_consensus ↦ plain
        | final_block_consensus ↦ final
        | view_change_consensus ↦ plain
      ]

check_broadcast-Quiet :
    (env : Env) (expected : ℕ) (block : Block) (b : Backup) (o : Option (Option Error))
    → AllQuiet b (check_broadcast env expected block b o)
unfolding check_broadcast
check_broadcast-Quiet env expected block b none = none-AllQuiet b
check_broadcast-Quiet env expected block b (some (some e)) = stay-AllQuiet
check_broadcast-Quiet env expected block b (some none) =
    compare_block-Quiet env expected block b _ (prepare_own-Quiet env block b)

pub verify_broadcast-Quiet :
    (env : Env) (msg : Message) (b : Backup) → AllQuiet b (verify_broadcast env msg b)
unfolding verify_broadcast
verify_broadcast-Quiet env msg b =
    elim_AllQuiet (env.read_payload msg.payload) stay-AllQuiet (λ bytes.
      elim_AllQuiet (expected_signers b) (none-AllQuiet b) (λ expected.
        elim_AllQuiet (read_broadcast env bytes b) stay-AllQuiet
          (λ r. check_broadcast-Quiet env expected r.0 b _)))
