-- ===== src/Roles/Peers/Laws.antt =====
-- Permutations of lists of peers.
use mathlib.Core.List.Perm
use mathlib.Core.List.{Perm}
use okchain.Prelude.{ℕ, ◌≡◌, List, [], ◌∷◌, ◌++◌, some, if_rule}
use okchain.Roles.Peers.{Peer, drop_tail, last_peer, insert_by_pubkey, sort_by_pubkey}

insert_by_pubkey-Perm :
    (sort_key : ℕ → ℕ) (p : Peer) (ps : List Peer) → Perm (insert_by_pubkey sort_key p ps) (p ∷ ps)
unfolding insert_by_pubkey
insert_by_pubkey-Perm sort_key p [] = Perm.refl _
insert_by_pubkey-Perm sort_key p (q ∷ qs) =
    if_rule (λ l. Perm l (p ∷ q ∷ qs)) _ _ _ (λ _. Perm.refl _)
      (λ _. Perm.trans (Perm.cons q (insert_by_pubkey-Perm sort_key p qs)) (Perm.swap p q qs))

pub sort_by_pubkey-Perm : (sort_key : ℕ → ℕ) (ps : List Peer) → Perm (sort_by_pubkey sort_key ps) ps
unfolding sort_by_pubkey
sort_by_pubkey-Perm sort_key [] = Perm.refl _
sort_by_pubkey-Perm sort_key (p ∷ ps) =
    Perm.trans (insert_by_pubkey-Perm sort_key p _) (Perm.cons p (sort_by_pubkey-Perm sort_key ps))

pub drop_tail-append :
    {A : Type 0} (ps : List A) (q : A) → last_peer ps ≡ some q → drop_tail ps ++ q ∷ [] ≡ ps
unfolding drop_tail last_peer
drop_tail-append [] q h = absurd cc
drop_tail-append (p ∷ []) q h = cc
drop_tail-append (p ∷ r ∷ ps) q h = cc (drop_tail-append (r ∷ ps) q h)
