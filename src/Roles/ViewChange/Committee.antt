-- ===== src/Roles/ViewChange/Committee.antt =====
-- The view changes of the committee.
use native.Mathlib.Nat.{mod-eq_of_lt}
use okchain.Prelude.{
  ◌+◌, ◌%◌, ◌≤◌, ◌≡◌, ◌≢◌, refl, ◌∙◌, ap, Bool, true, false, List, [], ◌∷◌, ◌++◌, Option, some,
  length-append, ◌==◌, if◌then◌else◌, length, get_elem?, arith,
}
use okchain.Prelude.Result.{ok}
use okchain.Bft.Types.{ConsensusType, ds_block_consensus, view_change_consensus}
use okchain.Roles.Peers.{Peer, head_to_tail}
use okchain.Roles.Types.{Server}
use okchain.Roles.ViewChange.{
  Node, VcBlock, RoleType, set_vc_block, own_new_leader, get_new_leader, with_leader,
  compose_vc_block_ds, compose_error, rotate_committee, started_ds_lead, started_ds_backup,
  start_as, start_with, start_view_change, leader_when_not_view_change, leader_in_view_change,
  leader_after_vc, after_key,
}

-- A node of the committee after a view change has started: the flag says whether it is the leader.
abbrev pub ds_started : Bool → Node → Peer → List Peer → Peer → Node
ds_started true n leader committee named =
    set_vc_block
      (record n { role = RoleType.ds_lead; server = record n.server { committee = committee } })
      (some named)
ds_started false n leader committee named =
    set_vc_block
      (record n {
        role = RoleType.ds_backup;
        leader = some leader;
        server = record n.server { committee = committee };
      })
      (some named)

rotate_committee_lem :
    (n : Node) (head : Peer) (rest : List Peer)
    → n.server.committee ≡ head ∷ rest
    → rotate_committee n
      ≡ some (record n { server = record n.server { committee = rest ++ head ∷ [] } })
unfolding rotate_committee head_to_tail
rotate_committee_lem n head rest h = cc h

compose_ds_lem :
    (n : Node) (l : Option Peer)
    → 2 ≤ length n.server.committee
    → own_new_leader n ≡ some l
    → compose_vc_block_ds n ≡ some (ok (set_vc_block n l))
unfolding compose_vc_block_ds with_leader
compose_ds_lem n l h own = ground (arith, own)

start_ds :
    (flag : Bool) (n : Node) (leader head second named : Peer) (rest : List Peer)
    → n.last_stage ≡ ds_block_consensus
    → n.server.committee ≡ head ∷ second ∷ rest
    → own_new_leader n ≡ some (some leader)
    → get_new_leader
        (record n.server { committee = second ∷ rest ++ head ∷ [] })
        n.current_stage
        n.last_stage
        n.current_vc
      ≡ some (some named)
    → start_as flag ds_block_consensus n
      ≡ some (ok (ds_started flag n leader (second ∷ rest ++ head ∷ []) named))
unfolding start_as started_ds_lead started_ds_backup compose_error
start_ds true n leader head second named rest last committee own next = cc (
  rotate_committee_lem (record n { role = RoleType.ds_lead }) head (second ∷ rest) committee,
  compose_ds_lem
      (record n {
        role = RoleType.ds_lead;
        server = record n.server { committee = second ∷ rest ++ head ∷ [] };
      })
      (some named) (omega (arith, length-append rest (head ∷ []))) next,
)
start_ds false n leader head second named rest last committee own next = cc (
  own,
  rotate_committee_lem (record n { role = RoleType.ds_backup; leader = some leader }) head
      (second ∷ rest) committee,
  compose_ds_lem
      (record n {
        role = RoleType.ds_backup;
        leader = some leader;
        server = record n.server { committee = second ∷ rest ++ head ∷ [] };
      })
      (some named) (omega (arith, length-append rest (head ∷ []))) next,
)

ds_started_fields :
    (flag : Bool) (n : Node) (leader : Peer) (committee : List Peer) (named : Peer)
    → let n' = ds_started flag n leader committee named in
      (n'.role ≡ (if flag then RoleType.ds_lead else RoleType.ds_backup))
      × (n'.server ≡ record n.server { committee = committee })
      × ((b : VcBlock) × (n'.current_vc ≡ some b) × (b.new_leader ≡ some named))
unfolding set_vc_block
ds_started_fields true n leader committee named = (refl, refl, (_, refl, refl))
ds_started_fields false n leader committee named = (refl, refl, (_, refl, refl))

after_first :
    (a b : Peer) (rest : List Peer) → after_key (a ∷ b ∷ rest) a.pubkey 0 (a ∷ b ∷ rest) ≡ some b
unfolding after_key
after_first a b rest =
    let place : (0 + 1) % length (a ∷ b ∷ rest) ≡ 1 = mod-eq_of_lt (omega arith) in
    ground (arith, ap (get_elem? (a ∷ b ∷ rest)) place)

after_second :
    (a b c : Peer) (rest : List Peer)
    → a.pubkey ≢ b.pubkey
    → after_key (a ∷ b ∷ c ∷ rest) b.pubkey 0 (a ∷ b ∷ c ∷ rest) ≡ some c
unfolding after_key
after_second a b c rest ne =
    let place : (1 + 1) % length (a ∷ b ∷ c ∷ rest) ≡ 2 = mod-eq_of_lt (omega arith) in
    ground (arith, ap (get_elem? (a ∷ b ∷ c ∷ rest)) place)

leader_named :
    (s : Server) (vc : Option VcBlock) (b : VcBlock) (l : Peer)
    → vc ≡ some b
    → b.new_leader ≡ some l
    → leader_in_view_change s ds_block_consensus vc ≡ after_key s.committee l.pubkey 0 s.committee
unfolding leader_in_view_change leader_after_vc
leader_named s vc b l e named = cc (e, named)

start_view_change_ds :
    (n : Node) (current : ConsensusType) (leader head second named : Peer) (rest : List Peer)
    → let n1 : Node = record n { current_stage = current; last_stage = ds_block_consensus } in
      n.server.committee ≡ head ∷ second ∷ rest
      → own_new_leader n1 ≡ some (some leader)
      → get_new_leader
          (record n.server { committee = second ∷ rest ++ head ∷ [] })
          current
          ds_block_consensus
          n.current_vc
        ≡ some (some named)
      → start_view_change n current ds_block_consensus
        ≡ some (
            ok (
              ds_started
                (leader.pubkey == n.server.self_node.pubkey)
                n1
                leader
                (second ∷ rest ++ head ∷ [])
                named))
unfolding start_view_change start_with
start_view_change_ds n current leader head second named rest h own next =
    let n1 : Node = record n { current_stage = current; last_stage = ds_block_consensus } in
    ap (start_with n1) own
    ∙ start_ds (leader.pubkey == n.server.self_node.pubkey) n1 leader head second named rest refl h
        own next

-- In a committee of four or more whose second and third members have different keys, a first view
-- change in a DS block consensus makes the second member the leader, but the view change block names
-- the third; a second view change makes the fourth member the leader, but the head of the committee is
-- then the third.
pub committee_view_changes :
    (n : Node) (c0 c1 c2 c3 : Peer) (rest : List Peer)
    → n.server.committee ≡ c0 ∷ c1 ∷ c2 ∷ c3 ∷ rest
    → c1.pubkey ≢ c2.pubkey
    → (n1 : Node) × (n2 : Node) × (b : VcBlock) × (start_view_change n ds_block_consensus
          ds_block_consensus
        ≡ some (ok n1))
      × (n1.role ≡ (
          if c1.pubkey == n.server.self_node.pubkey then RoleType.ds_lead else RoleType.ds_backup))
      × (n1.server.committee ≡ c1 ∷ c2 ∷ c3 ∷ rest ++ c0 ∷ [])
      × (n1.current_vc ≡ some b)
      × (b.new_leader ≡ some c2)
      × (start_view_change n1 view_change_consensus ds_block_consensus ≡ some (ok n2))
      × (n2.role ≡ (
          if c3.pubkey == n.server.self_node.pubkey then RoleType.ds_lead else RoleType.ds_backup))
      × (n2.server.committee ≡ c2 ∷ c3 ∷ (rest ++ c0 ∷ []) ++ c1 ∷ [])
unfolding get_new_leader leader_when_not_view_change
committee_view_changes n c0 c1 c2 c3 rest h ne =
    let s : Node = record n {
      current_stage = ds_block_consensus;
      last_stage = ds_block_consensus;
    } in
    let turned : List Peer = c1 ∷ c2 ∷ c3 ∷ rest ++ c0 ∷ [] in
    let flag : Bool = c1.pubkey == n.server.self_node.pubkey in
    let n1 : Node = ds_started flag s c1 turned c2 in
    let (role, server, (b, vc, named)) = ds_started_fields flag s c1 turned c2 in
    let committee : n1.server.committee ≡ turned = cc server in
    let flag' : Bool = c3.pubkey == n1.server.self_node.pubkey in
    let s' : Node = record n1 {
      current_stage = view_change_consensus;
      last_stage = ds_block_consensus;
    } in
    let turned' : List Peer = c2 ∷ c3 ∷ (rest ++ c0 ∷ []) ++ c1 ∷ [] in
    let second : own_new_leader s' ≡ some (some c3) = ap some (
      leader_named n1.server n1.current_vc b c2 vc named
      ∙ cc committee
      ∙ after_second c1 c2 c3 (rest ++ c0 ∷ []) ne) in
    let fields = ds_started_fields flag' s' c3 turned' c3 in
    (
      n1,
      ds_started flag' s' c3 turned' c3,
      b,
      start_view_change_ds n ds_block_consensus c1 c0 c1 c2 (c2 ∷ c3 ∷ rest) h (ground (arith, h))
          (ground arith),
      role,
      committee,
      vc,
      named,
      start_view_change_ds n1 view_change_consensus c3 c1 c2 c3 (c3 ∷ rest ++ c0 ∷ []) committee
          second
          (ap some (
            leader_named _ n1.current_vc b c2 vc named
            ∙ after_first c2 c3 ((rest ++ c0 ∷ []) ++ c1 ∷ []))),
      fields.0 ∙ cc server,
      cc (fields.1),
    )
