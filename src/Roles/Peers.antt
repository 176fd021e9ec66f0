-- ===== src/Roles/Peers.antt =====
-- `PeerEndpointList` of protos/peerendpoint.go: the lists of nodes.
pub mod Laws
use native.Mathlib.Decide.{ℕ_discrete}
use okchain.Prelude.{
  ℕ, zero, suc, Bool, true, false, List, [], ◌∷◌, ◌++◌, Option, none, some, leb, ◌==◌,
  if◌then◌else◌,
}

-- `PeerEndpoint`: `name` is `Id.Name`, `rest` is all that is left of it.
pub record Peer : Type 0 where
  pub name : ℕ
  pub pubkey : ℕ
  pub rest : ℕ

-- `reflect.DeepEqual` on peers.
unfoldable pub Peer-discrete : Discrete Peer
Peer-discrete = hlevel ℕ_discrete

-- `Has`: by the public key.
unfoldable pub has_peer : List Peer → Peer → Bool
has_peer [] e = false
has_peer (p ∷ ps) e = if p.pubkey == e.pubkey then true else has_peer ps e

-- `Index`: by the name; `none` is -1.
unfoldable pub index_from : ℕ → List Peer → Peer → Option ℕ
index_from i [] e = none
index_from i (p ∷ ps) e = if p.name == e.name then some i else index_from (suc i) ps e

unfoldable pub index : List Peer → Peer → Option ℕ
index ps e = index_from 0 ps e

-- `list[0:list.Length()-1]`, for a list that is not empty.
unfoldable pub drop_tail : {A : Type 0} → List A → List A
drop_tail [] = []
drop_tail (p ∷ []) = []
drop_tail (p ∷ q ∷ ps) = p ∷ drop_tail (q ∷ ps)

-- `list[len(list)-1]`; `none` is the panic on an empty list.
unfoldable pub last_peer : {A : Type 0} → List A → Option A
last_peer [] = none
last_peer (p ∷ []) = some p
last_peer (p ∷ q ∷ ps) = last_peer (q ∷ ps)

-- `EnqueueAndDequeueTail`
unfoldable pub enqueue_and_dequeue_tail : List Peer → Peer → List Peer
enqueue_and_dequeue_tail [] e = e ∷ []
enqueue_and_dequeue_tail (p ∷ []) e = e ∷ []
enqueue_and_dequeue_tail (p ∷ q ∷ ps) e = e ∷ drop_tail (p ∷ q ∷ ps)

-- `append(list[1:len(list)], list[0])`, of the view change; `none` is the panic on an empty list.
unfoldable pub head_to_tail : List Peer → Option (List Peer)
head_to_tail [] = none
head_to_tail (p ∷ ps) = some (ps ++ p ∷ [])

-- `sort.Sort(pb.ByPubkey{…})`: `sort_key` is the number in the first eight bytes of a public key.
unfoldable pub insert_by_pubkey : (ℕ → ℕ) → Peer → List Peer → List Peer
insert_by_pubkey sort_key p [] = p ∷ []
insert_by_pubkey sort_key p (q ∷ qs) =
    if leb (sort_key p.pubkey) (sort_key q.pubkey)
    then p ∷ q ∷ qs
    else q ∷ insert_by_pubkey sort_key p qs

unfoldable pub sort_by_pubkey : (ℕ → ℕ) → List Peer → List Peer
sort_by_pubkey sort_key [] = []
sort_by_pubkey sort_key (p ∷ ps) = insert_by_pubkey sort_key p (sort_by_pubkey sort_key ps)
