-- ===== src/Bft/Committee/Laws.antt =====
-- What the loops over the committee compute.
use okchain.Prelude.{ℕ, Bool, true, false, List, [], ◌∷◌, ◌++◌, none, some, ◌≡◌, arith, map, ◌≢◌}
use mathlib.Core.List.{append_assoc, append-nil}
use okchain.Bft.Types.{Bytes}
use okchain.Bft.Env.{Env}
use okchain.Bft.Committee.{Vote, find_vote, put_vote, Tally, count_member, tally}

-- Whether a member's vote is on record.
abbrev pub has_voted : Env → List Vote → Bytes → Bool
has_voted env votes p = elim (find_vote (env.hex (env.read_key p).0) votes) [
  | none ↦ false
  | some _ ↦ true
]

-- The votes of the members that have voted, in the members' order.
abbrev pub member_votes : Env → List Vote → List Bytes → List Vote
member_votes env votes [] = []
member_votes env votes (p ∷ ps) = elim (find_vote (env.hex (env.read_key p).0) votes) [
  | none ↦ member_votes env votes ps
  | some v ↦ v ∷ member_votes env votes ps
]

abbrev pub add_signs : Env → ℕ → List Vote → ℕ
add_signs env acc [] = acc
add_signs env acc (v ∷ vs) = add_signs env (env.add_sig acc v.sign) vs

abbrev pub add_keys : Env → ℕ → List Vote → ℕ
add_keys env acc [] = acc
add_keys env acc (v ∷ vs) = add_keys env (env.add_key acc v.key) vs

-- Every key of the list has a text.
abbrev pub AllReadable : Env → List Bytes → Type 0
AllReadable env [] = Unit
AllReadable env (p ∷ ps) = ((env.read_key p).1 ≡ true) × AllReadable env ps

pub find_vote-put_self : (v : Vote) (vs : List Vote) → find_vote v.voter (put_vote v vs) ≡ some v
unfolding find_vote put_vote
find_vote-put_self v [] = ground arith
find_vote-put_self v (w ∷ ws) = ground (arith, find_vote-put_self v ws)

pub find_vote-put_ne :
    (h : ℕ) (v : Vote) (vs : List Vote) → v.voter ≢ h → find_vote h (put_vote v vs) ≡ find_vote h vs
unfolding find_vote put_vote
find_vote-put_ne h v [] ne = ground arith
find_vote-put_ne h v (w ∷ ws) ne = ground (arith, find_vote-put_ne h v ws ne)

-- Over readable keys the loop marks exactly the members that have voted, and adds exactly their
-- signatures and keys.
pub tally_lem :
    (env : Env) (votes : List Vote) (ps : List Bytes) (t : Tally)
    → AllReadable env ps
    → tally env votes ps t ≡ (
        let vs = member_votes env votes ps in
        record t {
          bool_map = t.bool_map ++ map (has_voted env votes) ps;
          sign = add_signs env t.sign vs;
          key = add_keys env t.key vs;
        })
unfolding tally count_member
tally_lem env votes [] t h = rw append-nil
tally_lem env votes (p ∷ ps) t h = ground (
  arith,
  tally_lem env votes ps (count_member env votes p t) h.1,
  append_assoc t.bool_map (true ∷ []) (map (has_voted env votes) ps),
  append_assoc t.bool_map (false ∷ []) (map (has_voted env votes) ps),
)
