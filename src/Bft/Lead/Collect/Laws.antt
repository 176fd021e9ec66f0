-- ===== src/Bft/Lead/Collect/Laws.antt =====
-- The block after `generateBoolMap` (consensus_lead.go).
use okchain.Prelude.{◌≡◌, false, [], map, none, some}
use okchain.Bft.Types.{Block}
use okchain.Bft.Env.{Env}
use okchain.Bft.Committee.Laws.{
  has_voted, member_votes, add_signs, add_keys, AllReadable, tally_lem,
}
use okchain.Bft.Lead.{Lead, current_block, put_block}
use okchain.Bft.Lead.Collect.{voters, generate_bool_map}

-- The block with the marks, the sum of the signatures and the sum of the keys of the nodes that
-- have voted, in the nodes' order.
abbrev pub multi_signed : Env → Lead → Block → Block
multi_signed env l b =
    let vs = member_votes env l.votes (voters env l) in
    record b {
      bool_map = map (has_voted env l.votes) (voters env l);
      signature = some (env.serialize_sig (add_signs env l.final_sign vs));
      multi_pub_key = some (env.serialize_key (add_keys env l.g_pubkey vs));
    }

-- Over nodes with readable keys `generateBoolMap` succeeds for each type of consensus: the current
-- block gets a mark for each node that has voted, and the sums of exactly those nodes' signatures
-- and keys, from the globals on, which are zero afterwards. Nothing else changes.
pub generate_bool_map_lem :
    (env : Env) (l : Lead)
    → AllReadable env (voters env l)
    → generate_bool_map env l ≡ (
      none,
      record (put_block l.current_type (multi_signed env l (current_block l.current_type l)) l) {
        final_sign = env.zero_sig;
        g_pubkey = env.zero_key;
      },
    )
unfolding generate_bool_map
generate_bool_map_lem env l h = rw (
    tally_lem env l.votes (voters env l)
      (record { bool_map = []; sign = l.final_sign; key = l.g_pubkey; failed = false }) h)
