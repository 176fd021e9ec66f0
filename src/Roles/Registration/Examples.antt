-- ===== src/Roles/Registration/Examples.antt =====
-- Three nodes register, one of them twice, for a committee of two.
use okchain.Prelude.{◌≡◌, refl, List, [], ◌∷◌, none, some, get_elem?}
use okchain.Roles.Peers.{Peer, index, index_from}
use okchain.Roles.Samples.{peer}
use okchain.Roles.Registration.{
  InformDs, Notice, set_primary, inform_ds_backup, inform_sharding, notice_at, register,
  process_register, keep_notice, register_all,
}
use okchain.Roles.Registration.SameDs.{register_all-SameDs}

abbrev nodes : List Peer
nodes = peer 1 ∷ peer 2 ∷ peer 1 ∷ peer 3 ∷ []

abbrev notices : List Notice
notices = elim (register_all 1 2 [] nodes) [ none ↦ [] | some (rps, ns) ↦ ns ]

abbrev inform : InformDs
inform = record { leader = peer 1; ds_size = 2; ds_list = peer 1 ∷ peer 2 ∷ [] }

registered : register_all 1 2 [] nodes ≡ some (peer 1 ∷ peer 2 ∷ peer 3 ∷ [], notices)
unfolding register_all process_register register notice_at inform_ds_backup inform_sharding index
    index_from keep_notice
registered = refl

second_notice : get_elem? notices 1 ≡ some (set_primary (peer 2) inform)
unfolding register_all process_register register notice_at inform_ds_backup inform_sharding index
    index_from keep_notice
second_notice = refl

third_notice : get_elem? notices 2 ≡ some (set_primary (peer 1) inform)
unfolding register_all process_register register notice_at inform_ds_backup inform_sharding index
    index_from keep_notice
third_notice = refl

register_all-SameDs_example :
    (inform ≡ inform) × (get_elem? (peer 1 ∷ peer 2 ∷ peer 3 ∷ []) 0 ≡ some (peer 1))
register_all-SameDs_example =
    register_all-SameDs 1 2 [] (peer 1 ∷ peer 2 ∷ peer 3 ∷ []) nodes notices 1 2 (peer 2) (peer 1)
      inform inform registered second_notice third_notice refl refl
