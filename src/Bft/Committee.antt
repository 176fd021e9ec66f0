-- ===== src/Bft/Committee.antt =====
-- The loops over the sorted committee in core/server/consensus/blspbft: which members have voted,
-- and the sums of the voters' signatures and keys.
pub mod Laws
use okchain.Prelude.{
  ℕ, Bool, true, false, List, [], ◌∷◌, ◌++◌, Option, none, some, leb, ◌==◌, if◌then◌else◌,
}
use okchain.Bft.Types.{Bytes}
use okchain.Bft.Env.{Env}

-- An entry of `publicKey2MsgMap`, `signMap` and `pubKeyMap`, which are written together. `voter`
-- is the key's hexadecimal text.
pub record Vote : Type 0 where
  pub voter : ℕ
  pub sign : ℕ
  pub key : ℕ

unfoldable pub find_vote : ℕ → List Vote → Option Vote
find_vote h [] = none
find_vote h (v ∷ vs) = if v.voter == h then some v else find_vote h vs

unfoldable pub put_vote : Vote → List Vote → List Vote
put_vote v [] = v ∷ []
put_vote v (w ∷ ws) = if w.voter == v.voter then v ∷ ws else w ∷ put_vote v ws

-- `sort.Sort(pb.ByPubkey{…})`: by the number in the first eight bytes of the key.
unfoldable pub insert_peer : Env → Bytes → List Bytes → List Bytes
insert_peer env p [] = p ∷ []
insert_peer env p (q ∷ qs) =
    if leb (env.sort_key p) (env.sort_key q) then p ∷ q ∷ qs else q ∷ insert_peer env p qs

unfoldable pub sort_peers : Env → List Bytes → List Bytes
sort_peers env [] = []
sort_peers env (p ∷ ps) = insert_peer env p (sort_peers env ps)

-- The variables of the loops; `failed` is the early return on a key that has no text.
pub record Tally : Type 0 where
  pub bool_map : List Bool
  pub sign : ℕ
  pub key : ℕ
  pub failed : Bool

-- One round: a member that has voted is marked, and its signature and key are added.
unfoldable pub count_member : Env → List Vote → Bytes → Tally → Tally
count_member env votes p t = elim (find_vote (env.hex (env.read_key p).0) votes) [
  | none ↦ record t { bool_map = t.bool_map ++ false ∷ [] }
  | some v ↦ record t {
    bool_map = t.bool_map ++ true ∷ [];
    sign = env.add_sig t.sign v.sign;
    key = env.add_key t.key v.key;
  }
]

unfoldable pub tally : Env → List Vote → List Bytes → Tally → Tally
tally env votes [] t = t
tally env votes (p ∷ ps) t =
    let rest = tally env votes ps (count_member env votes p t) in
    if (env.read_key p).1 then rest else record t { failed = true }
