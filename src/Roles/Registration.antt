-- ===== src/Roles/Registration.antt =====
-- The start of the network at the lookup node: `ProcessRegister` of core/server/role/role_lookup.go,
-- with what it sends. An outer `none` is a panic.
pub mod Fits
pub mod SameDs
mod Examples
use okchain.Prelude.{
  ℕ, ◌+◌, Bool, true, false, List, [], ◌∷◌, ◌++◌, Option, none, some, ltb, ◌==◌, if◌then◌else◌,
  length, take, drop,
}
use okchain.Roles.Peers.{Peer, index}

-- `InformDs`
pub record InformDs : Type 0 where
  pub leader : Peer
  pub ds_size : ℕ
  pub ds_list : List Peer

-- `InformSharding`, but for the parameters of the mining.
pub record InformSharding : Type 0 where
  pub sharding_size : ℕ
  pub ds_list : List Peer
  pub sharding_list : List Peer

-- The messages DS_SetPrimary, Node_ProcessStartPoW and Node_NewAdd, with the node that they go to.
pub data Notice : Type 0 where
  set_primary : Peer → InformDs → Notice
  start_pow : Peer → InformSharding → Notice
  new_add : Peer → Notice

-- `informDsBackup`: a list that is shorter than the committee is sent as it is.
unfoldable pub inform_ds_backup : ℕ → List Peer → Peer → Option Notice
inform_ds_backup ds_size [] to = none
inform_ds_backup ds_size (p ∷ ps) to =
    let all = p ∷ ps in
    let up = if ltb (length all) ds_size then length all else ds_size in
    some (set_primary to (record { leader = p; ds_size = ds_size; ds_list = take up all }))

-- `informSharding`, where more nodes than the committee's have registered.
unfoldable pub inform_sharding : ℕ → ℕ → List Peer → Peer → Notice
inform_sharding sharding_size ds_size rps to = start_pow to (record {
  sharding_size = sharding_size;
  ds_list = take ds_size rps;
  sharding_list = drop ds_size rps;
})

-- What a node at this place is sent.
unfoldable pub notice_at : ℕ → ℕ → List Peer → Peer → Option ℕ → Option (Option Notice)
notice_at sharding_size ds_size rps from none = some none
notice_at sharding_size ds_size rps from (some i) =
    let to_ds : Option (Option Notice) = elim (inform_ds_backup ds_size rps from) [
      | none ↦ none
      | some n ↦ some (some n)
    ] in
    if ltb i ds_size
    then to_ds
    else if ltb i (sharding_size + ds_size)
    then some (some (inform_sharding sharding_size ds_size rps from))
    else some none

unfoldable pub register : ℕ → ℕ → List Peer → Peer → Option (List Peer × Option Notice)
register sharding_size ds_size rps from =
    elim (notice_at sharding_size ds_size rps from (index rps from)) [
      | none ↦ none
      | some n ↦ some (rps, n)
    ]

-- `ProcessRegister`, with the registered peers: their list afterwards, and what is sent. Errors of
-- encoding and sending change nothing and are left out.
unfoldable pub process_register : ℕ → ℕ → List Peer → Peer → Option (List Peer × Option Notice)
process_register sharding_size ds_size rps from =
    let again = register sharding_size ds_size rps from in
    let added = register sharding_size ds_size (rps ++ from ∷ []) from in
    elim (index rps from) [
      | some i ↦ again
      | none ↦
          if length rps == sharding_size + ds_size then some (rps, some (new_add from)) else added
    ]

unfoldable pub keep_notice : Option Notice → List Notice → List Notice
keep_notice none ns = ns
keep_notice (some n) ns = n ∷ ns

-- One registration after the other: the registered peers, and all that is sent, in order.
unfoldable pub register_all : ℕ → ℕ → List Peer → List Peer → Option (List Peer × List Notice)
register_all sharding_size ds_size rps [] = some (rps, [])
register_all sharding_size ds_size rps (from ∷ rest) =
    elim (process_register sharding_size ds_size rps from) [
      | none ↦ none
      | some (rps', n) ↦ elim (register_all sharding_size ds_size rps' rest) [
        | none ↦ none
        | some (rps'', ns) ↦ some (rps'', keep_notice n ns)
      ]
    ]
