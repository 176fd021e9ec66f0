-- ===== src/Roles/Final/Laws.antt =====
-- What a backup's check of a final block accepts.
use mathlib.Core.List.Perm
use mathlib.Core.List.{Perm, foldr}
use native.Mathlib.Decide.{ℕ_discrete}
use okchain.Prelude.{
  ◌≡◌, ◌↔◌, refl, ◌∙◌, sym, subst, ap, true, false, List, [], ◌∷◌, leb, if_rule, arith,
}
use okchain.Prelude.Result.{ok}
use okchain.Bft.Types.{Bytes}
use okchain.Bft.Backup.Adopt.{Bytes-discrete, insert_bytes, sort_bytes}
use okchain.Roles.Types.{TxBlock, RoleEnv}
use okchain.Roles.Final.{same_texts, verify_final_block}

insert_bytes-Perm : (x : Bytes) (xs : List Bytes) → Perm (insert_bytes x xs) (x ∷ xs)
unfolding insert_bytes
insert_bytes-Perm x [] = Perm.refl _
insert_bytes-Perm x (y ∷ ys) =
    if_rule (λ l. Perm l (x ∷ y ∷ ys)) (leb x y) (x ∷ y ∷ ys) (y ∷ insert_bytes x ys)
      (λ _. Perm.refl _) (λ _. Perm.trans (Perm.cons y (insert_bytes-Perm x ys)) (Perm.swap x y ys))

sort_bytes-Perm : (xs : List Bytes) → Perm (sort_bytes xs) xs
unfolding sort_bytes
sort_bytes-Perm [] = Perm.refl _
sort_bytes-Perm (x ∷ xs) =
    Perm.trans (insert_bytes-Perm x (sort_bytes xs)) (Perm.cons x (sort_bytes-Perm xs))

insert_bytes_comm :
    (x y : Bytes) (xs : List Bytes)
    → insert_bytes x (insert_bytes y xs) ≡ insert_bytes y (insert_bytes x xs)
unfolding insert_bytes
insert_bytes_comm x y [] = ground arith
insert_bytes_comm x y (z ∷ zs) = ground (arith, insert_bytes_comm x y zs)

sort_bytes-foldr : (xs : List Bytes) → sort_bytes xs ≡ foldr insert_bytes [] xs
unfolding sort_bytes
sort_bytes-foldr [] = refl
sort_bytes-foldr (x ∷ xs) = ap (insert_bytes x) (sort_bytes-foldr xs)

sort_bytes_iff : (xs ys : List Bytes) → (sort_bytes xs ≡ sort_bytes ys) ↔ Perm xs ys
sort_bytes_iff xs ys = (
  λ e.
      Perm.trans (Perm.symm (sort_bytes-Perm xs))
        (subst (λ (l : List Bytes). Perm l ys) (sym e) (sort_bytes-Perm ys)),
  λ p.
      sort_bytes-foldr xs
      ∙ Perm.foldr-eq (hlevel ℕ_discrete) insert_bytes insert_bytes_comm p []
      ∙ sym (sort_bytes-foldr ys),
)

same_texts_iff : (xs ys : List Bytes) → (same_texts xs ys ≡ true) ↔ Perm xs ys
unfolding same_texts
same_texts_iff xs ys =
    elim (Bytes-discrete (sort_bytes xs) (sort_bytes ys))
      as (λ d. (elim d [ yes _ ↦ true | no _ ↦ false ] ≡ true) ↔ Perm xs ys) [
        | yes e ↦ (λ _. (sort_bytes_iff xs ys).0 e, λ _. refl)
        | no ne ↦ (λ h. absurd cc, λ p. absurd (ne ((sort_bytes_iff xs ys).1 p)))
      ]

verify_final_block_tests :
    (env : RoleEnv) (own b : TxBlock)
    → (verify_final_block env own b ≡ ok b) ↔ (
        (same_texts own.micro_block_hashes b.micro_block_hashes ≡ true)
        × (same_texts own.sharding_lead_coin_base b.sharding_lead_coin_base ≡ true)
        × (b.number_of_micro_block ≡ own.number_of_micro_block)
        × (b.tx_num ≡ own.tx_num)
        × (b.ds_block_num ≡ own.ds_block_num)
        × (b.previous_block_hash ≡ own.previous_block_hash)
        × (env.merkel_root b.transactions ≡ b.tx_root))
unfolding verify_final_block
verify_final_block_tests env own b = ground arith

-- A block that agrees with the own one in these fields, and whose root fits its transactions.
abbrev pub Agrees : RoleEnv → TxBlock → TxBlock → Type 0
Agrees env own b =
    Perm own.micro_block_hashes b.micro_block_hashes
    × Perm own.sharding_lead_coin_base b.sharding_lead_coin_base
    × (b.number_of_micro_block ≡ own.number_of_micro_block)
    × (b.tx_num ≡ own.tx_num)
    × (b.ds_block_num ≡ own.ds_block_num)
    × (b.previous_block_hash ≡ own.previous_block_hash)
    × (env.merkel_root b.transactions ≡ b.tx_root)

-- A backup accepts a final block exactly if its micro block hashes and its coinbases are those of the
-- own block in some order, its numbers of micro blocks and transactions, its DS block number and its
-- previous hash are those of the own block, and its root is the root of its own transactions; the
-- transactions, the gas used and the gas limit are not compared.
pub verify_final_block_iff :
    (env : RoleEnv) (own b : TxBlock) → (verify_final_block env own b ≡ ok b) ↔ Agrees env own b
verify_final_block_iff env own b =
    let tests = verify_final_block_tests env own b in
    let hashes = same_texts_iff own.micro_block_hashes b.micro_block_hashes in
    let coinbases = same_texts_iff own.sharding_lead_coin_base b.sharding_lead_coin_base in
    (
      λ h. let (x, y, n, t, d, p, r) = tests.0 h in (hashes.0 x, coinbases.0 y, n, t, d, p, r),
      λ a. let (x, y, n, t, d, p, r) = a in tests.1 (hashes.1 x, coinbases.1 y, n, t, d, p, r),
    )
