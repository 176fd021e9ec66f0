-- ===== src/Roles/ViewChange/Examples.antt =====
-- The view changes of a shard of four and of a committee of four.
use okchain.Prelude.{ℕ, zero, suc, ◌+◌, ◌%◌, ◌≡◌, refl, [], ◌∷◌, some, get_elem?, arith}
use okchain.Prelude.Result.{ok, err}
use okchain.Bft.Types.{ds_block_consensus, micro_block_consensus, view_change_consensus}
use okchain.Roles.Peers.{Peer}
use okchain.Roles.Types.{RoleError}
use okchain.Roles.ViewChange.{Node, VcBlock, RoleType, start_view_change, verify_vc_block}
use okchain.Roles.ViewChange.Shard.Rounds.{DistinctKeys, second_view_change}
use okchain.Roles.ViewChange.Committee.{committee_view_changes}
use okchain.Roles.Samples.{peer, shard_peers, ds_node, shard_node}

abbrev other_node : Node
other_node = record shard_node { server = record shard_node.server { self_node = peer 14 } }

abbrev named_block : VcBlock
named_block = record {
  view_change_ds_no = 3;
  view_change_tx_no = 4;
  stage = micro_block_consensus;
  new_leader = some (peer 12);
}

abbrev changing : Node
changing = record other_node { current_vc = some named_block }

key_at : (i : ℕ) (p : Peer) → get_elem? shard_peers i ≡ some p → p.pubkey ≡ 11 + i
key_at zero p h = cc h
key_at (suc zero) p h = cc h
key_at (suc (suc zero)) p h = cc h
key_at (suc (suc (suc zero))) p h = cc h
key_at (suc (suc (suc (suc i)))) p h = absurd cc

shard_peers-DistinctKeys : DistinctKeys shard_peers
shard_peers-DistinctKeys i j p q g h e = omega (arith, key_at i p g, key_at j q h)

second_view_change_example :
    (n' : Node) × (b : VcBlock) × (l' : Peer) × (start_view_change changing view_change_consensus
        micro_block_consensus
      ≡ some (ok n'))
    × (n'.current_vc ≡ some b)
    × (b.new_leader ≡ some l')
    × (get_elem? shard_peers ((1 + 1) % 4) ≡ some l')
    × (verify_vc_block n' b ≡ some (err RoleError.verify_block))
second_view_change_example =
    second_view_change changing named_block 1 (peer 12) refl refl refl shard_peers-DistinctKeys
      (omega arith)

committee_view_changes_example :
    (n1 : Node) × (n2 : Node) × (b : VcBlock) × (start_view_change ds_node ds_block_consensus
        ds_block_consensus
      ≡ some (ok n1))
    × (n1.role ≡ RoleType.ds_lead)
    × (n1.server.committee ≡ peer 2 ∷ peer 3 ∷ peer 4 ∷ peer 1 ∷ [])
    × (n1.current_vc ≡ some b)
    × (b.new_leader ≡ some (peer 3))
    × (start_view_change n1 view_change_consensus ds_block_consensus ≡ some (ok n2))
    × (n2.role ≡ RoleType.ds_backup)
    × (n2.server.committee ≡ peer 3 ∷ peer 4 ∷ peer 1 ∷ peer 2 ∷ [])
committee_view_changes_example =
    committee_view_changes ds_node (peer 1) (peer 2) (peer 3) (peer 4) [] refl (ground arith)
