-- ===== src/Roles/Submit/Refused.antt =====
-- The committee's micro block submissions where the nodes do not fill a shard.
use native.Mathlib.Nat.{div-eq_of_lt}
use okchain.Prelude.{
  ℕ, zero, suc, ◌*◌, ◌/◌, ◌≤◌, ◌<◌, ◌≡◌, refl, sym, ap, Bool, true, false, not, List, [], ◌∷◌,
  Option, none, some, some_inj, ◌==◌, arith, if◌then◌else◌, if_rule, length,
}
use okchain.Bft.Types.{Bytes}
use okchain.Bft.Quorum.{tolerance_size}
use okchain.Bft.Marks.{count_true}
use okchain.Roles.Peers.{Peer, sort_by_pubkey}
use okchain.Roles.Sharding.{PeerEndpointMap, reset_sharding_map}
use okchain.Roles.Types.{DsBlock, MicroBlock, Server, Message, RoleEnv, RoleError}
use okchain.Roles.Submit.{
  sort_shard, micro_expected, marks_error, count_error, after_checks, check_micro_block,
  check_marks, process_micro_block_submission, refuse,
}

reset_sharding_map_few :
    (size : ℕ) (nodes : List Peer) (m : PeerEndpointMap)
    → length nodes < size
    → reset_sharding_map size nodes ≡ some m
    → (id : ℕ) → m id ≡ []
unfolding reset_sharding_map
reset_sharding_map_few size nodes m few e id = go size nodes few e
  where
    empty :
        (other : PeerEndpointMap) (b : Bool)
        → b ≡ true
        → (if b then some (λ _. []) else some other) ≡ some m
        → m id ≡ []
    empty other true t e = ap (λ (f : PeerEndpointMap). f id) (sym (some_inj e))
    empty other false t e = absurd cc

    go :
        (size : ℕ) (nodes : List Peer)
        → length nodes < size
        → reset_sharding_map size nodes ≡ some m
        → m id ≡ []
    go zero nodes few e = absurd (omega arith)
    go (suc s) [] few e = ap (λ (f : PeerEndpointMap). f id) (sym (some_inj e))
    go (suc s) (p ∷ ps) few e =
        let none_full : length (p ∷ ps) / suc s ≡ 0 = div-eq_of_lt few in
        empty _ (length (p ∷ ps) / suc s * suc s == 0)
          (ground (arith, ap (λ (k : ℕ). k * suc s) none_full)) e

-- A result that keeps the list of micro blocks and is an error.
abbrev pub IsRefusal : Server → Option (Server × Option RoleError) → Type 0
IsRefusal s o =
    (s' : Server) × (e : RoleError) × (o ≡ some (s', some e))
    × (s'.micro_block_list ≡ s.micro_block_list)

marks_error_few :
    (env : RoleEnv) (bits : List Bool) (composed : Bytes) (k : ℕ)
    → marks_error env bits [] composed (some (suc k)) ≡ some (some RoleError.verify_block)
unfolding marks_error count_error count_true
marks_error_few env [] composed k = ground arith
marks_error_few env (b ∷ bits) composed k = ground arith

tolerance_size_pos : (n : ℕ) → 1 ≤ n → (k : ℕ) × (tolerance_size n ≡ suc k)
unfolding tolerance_size
tolerance_size_pos zero h = absurd (omega arith)
tolerance_size_pos (suc k) h = (k * 667 / 1000, omega arith)

micro_expected_one :
    (block : DsBlock)
    → block.sharding_sum ≡ 1
    → micro_expected block ≡ some (tolerance_size (length block.sharding_nodes))
unfolding micro_expected
micro_expected_one block h = rw h

sort_shard_empty :
    (sort_key : ℕ → ℕ) (m : PeerEndpointMap) (id : ℕ) → m id ≡ [] → sort_shard sort_key m id id ≡ []
unfolding sort_shard sort_by_pubkey
sort_shard_empty sort_key m id h =
    if_rule (λ (l : List Peer). l ≡ []) (id == id) (sort_by_pubkey sort_key (m id)) (m id)
      (λ _. rw h) (λ _. h)

check_marks-IsRefusal :
    (env : RoleEnv) (on_done : Server → Server × Option RoleError) (s : Server) (msg : Message)
    (block : MicroBlock)
    → s.sharding_map block.shard_id ≡ []
    → s.ds_current.sharding_sum ≡ 1
    → 1 ≤ length s.ds_current.sharding_nodes
    → IsRefusal s (check_marks env on_done s msg block)
unfolding check_marks after_checks
check_marks-IsRefusal env on_done s msg block h one some_node =
    let (k, size) = tolerance_size_pos (length s.ds_current.sharding_nodes) some_node in
    let refused : marks_error env block.bool_map
          (sort_shard env.bls.sort_key s.sharding_map block.shard_id block.shard_id)
          block.multi_pub_key (micro_expected s.ds_current)
        ≡ some (some RoleError.verify_block) =
      rw (
        sort_shard_empty env.bls.sort_key s.sharding_map block.shard_id h,
        micro_expected_one s.ds_current one,
        size,
        marks_error_few,
      ) in
    let s1 : Server = record s {
      sharding_map = sort_shard env.bls.sort_key s.sharding_map block.shard_id;
    } in
    (s1, RoleError.verify_block, rw refused, refl)

guard-IsRefusal :
    (s : Server) (b : Bool) (e : RoleError) (rest : Option (Server × Option RoleError))
    → IsRefusal s rest
    → IsRefusal s (if b then some (refuse s e) else rest)
guard-IsRefusal s true e rest h = (s, e, refl, refl)
guard-IsRefusal s false e rest h = h

-- With fewer nodes than the sharding size the committee's map of shards is empty, and every
-- submission of a micro block is refused: the result is an error, and no micro block is added.
pub process_micro_block_submission-IsRefusal :
    (env : RoleEnv) (on_done : Server → Server × Option RoleError) (s : Server) (msg : Message)
    → 1 ≤ length s.ds_current.sharding_nodes
    → length s.ds_current.sharding_nodes < s.sharding_size
    → s.ds_current.sharding_sum ≡ 1
    → reset_sharding_map s.sharding_size s.ds_current.sharding_nodes ≡ some s.sharding_map
    → IsRefusal s (process_micro_block_submission env on_done s msg)
unfolding process_micro_block_submission check_micro_block
process_micro_block_submission-IsRefusal env on_done s msg some_node few one made =
    elim (env.read_micro_block msg.payload)
      as (λ o. IsRefusal s (elim o [
        | none ↦ some (refuse s RoleError.unmarshal_message)
        | some block ↦ check_micro_block env on_done s msg block
      ])) [
        | none ↦ (s, RoleError.unmarshal_message, refl, refl)
        | some block ↦
            guard-IsRefusal s (not (block.ds_block_num == s.ds_current.block_number))
              RoleError.verify_block _
              (guard-IsRefusal s (not (block.ds_block_hash == env.ds_hash s.ds_current))
                RoleError.verify_block _
                (guard-IsRefusal s (not (env.verify_hash msg (env.micro_block_hash block)))
                  RoleError.verify_message _
                  (check_marks-IsRefusal env on_done s msg block
                    (reset_sharding_map_few s.sharding_size s.ds_current.sharding_nodes
                      s.sharding_map few made block.shard_id)
                    one some_node)))
      ]
