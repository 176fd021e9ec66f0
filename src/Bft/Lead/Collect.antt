-- ===== src/Bft/Lead/Collect.antt =====
-- `generateBoolMap` of consensus_lead.go: the first round's multi-signature is put in the block.
pub mod Laws
use okchain.Prelude.{ℕ, Bool, true, false, List, [], Option, none, some, if◌then◌else◌}
use okchain.Bft.Types.{Bytes, Block, ConsensusType, Error, pub_key_string}
use okchain.Bft.Env.{Env}
use okchain.Bft.Committee.{Tally, tally, sort_peers}
use okchain.Bft.Lead.{Lead, current_block, put_block}
use okchain.Bft.Lead.Verify.{in_shard}

-- The nodes whose votes are counted, in the order of the bool map.
unfoldable pub voters : Env → Lead → List Bytes
voters env l = if in_shard l.current_type l then l.sharding_nodes else sort_peers env l.committee

-- The loop starts from the globals.
abbrev pub first_tally : Env → Lead → Tally
first_tally env l =
    tally env l.votes (voters env l)
      (record { bool_map = []; sign = l.final_sign; key = l.g_pubkey; failed = false })

abbrev pub signed_block : Env → Tally → Block → Block
signed_block env t b = record b {
  bool_map = t.bool_map;
  signature = some (env.serialize_sig t.sign);
  multi_pub_key = some (env.serialize_key t.key);
}

-- On an error the globals keep the sums so far; at the end they are set to zero.
unfoldable pub generate_bool_map : Env → Lead → Option Error × Lead
generate_bool_map env l =
    let t = first_tally env l in
    if t.failed
    then (some pub_key_string, record l { final_sign = t.sign; g_pubkey = t.key })
    else (
      none,
      record (put_block l.current_type (signed_block env t (current_block l.current_type l)) l) {
        final_sign = env.zero_sig;
        g_pubkey = env.zero_key;
      },
    )
