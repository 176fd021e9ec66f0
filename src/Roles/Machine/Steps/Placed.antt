-- ===== src/Roles/Machine/Steps/Placed.antt =====
-- Each role object stays in the states of its role: what the handlers' parts keep.
use okchain.Prelude.{◌≡◌, ◌≢◌, refl, true, Option, none, some, if_rule, arith, leb}
use okchain.Roles.Peers.{Peer}
use okchain.Roles.Sharding.{reset_sharding_map}
use okchain.Roles.Types.{DsBlock, TxBlock, RoleError}
use okchain.Roles.ViewChange.{
  RoleType, idle, lookup, sharding_lead, sharding_backup, ds_lead, ds_backup,
}
use okchain.Roles.States.{StateType, is_matched}
use okchain.Roles.Machine.{
  Machine, DutyEnv, Done, same_role, set_at, change_state, change_role, on_ds_block_ready,
  on_final_block_ready, on_micro_block_consensus_started, start_announce, update_leader,
  adopt_ds_block,
}

-- Each role object that has a state has one of its role, and the current one has a state.
pub record IsPlaced (states : RoleType → Option StateType) (role : RoleType) : Type 0 where
  pub matched : (r : RoleType) (s : StateType) → states r ≡ some s → is_matched r s ≡ true
  pub current : states role ≢ none

abbrev pub Placed : Machine → Type 0
Placed m = IsPlaced m.states m.role

-- What a handler leaves is placed, if it does not panic.
abbrev pub Keeps : Done → Type 0
Keeps none = Unit
Keeps (some (e, m)) = Placed m

pub Option_rule :
    {A : Type 0} {B : Type 0} (P : B → Type 0) (o : Option A) (n : B) (f : A → B)
    → P n
    → ((a : A) → o ≡ some a → P (f a))
    → P (elim o [ none ↦ n | some a ↦ f a ])
Option_rule P none n f h k = h
Option_rule P (some a) n f h k = k a refl

pub same_role_eq : (q r : RoleType) → same_role q r ≡ true → q ≡ r
unfolding same_role
same_role_eq q r h = ground arith

same_role_refl : (r : RoleType) → same_role r r ≡ true
unfolding same_role
same_role_refl r = ground arith

pub change_state-Placed :
    (r : RoleType) (s : StateType) (m : Machine)
    → is_matched r s ≡ true
    → Placed m
    → Placed (change_state r s m)
unfolding change_state set_at
change_state-Placed r s m e p = record {
  matched = λ q t h. ground (arith, same_role_eq q r, p.matched q t);
  current = λ h. ground (arith, p.current);
}

pub change_role-Placed :
    (r : RoleType) (s : StateType) (m : Machine)
    → is_matched r s ≡ true
    → Placed m
    → Placed (change_role r s m)
unfolding change_state change_role set_at
change_role-Placed r s m e p = record {
  matched = λ q t h. ground (arith, same_role_eq q r, p.matched q t);
  current = λ h. ground (arith, same_role_refl r);
}

pub on_ds_block_ready-Keeps :
    (env : DutyEnv) (b : DsBlock) (m : Machine) → Placed m → Keeps (on_ds_block_ready env b m)
unfolding on_ds_block_ready adopt_ds_block
on_ds_block_ready-Keeps env b m p =
    if_rule Keeps (leb b.block_number m.server.ds_current.block_number) _ _ (λ t. p)
      (λ f.
        if_rule Keeps (env.inserts_ds m.server.ds_current b) _ _
          (λ t.
            Option_rule Keeps (reset_sharding_map m.server.sharding_size b.sharding_nodes) none
              (λ dealt. some (none, adopt_ds_block b dealt m)) tt (λ dealt e. p))
          (λ f. p))

pub on_final_block_ready-Placed :
    (env : DutyEnv) (b : TxBlock) (m : Machine) → Placed m → Placed (on_final_block_ready env b m).1
unfolding on_final_block_ready
on_final_block_ready-Placed env b m p =
    if_rule (λ (d : Option RoleError × Machine). Placed d.1) (env.inserts_tx m.server.tx_current b)
      _ _ (λ t. p) (λ f. p)

pub on_micro_block_consensus_started-Keeps :
    (env : DutyEnv) (r : RoleType) (q : Peer) (m : Machine)
    → Placed m
    → Keeps (on_micro_block_consensus_started env r q m)
unfolding on_micro_block_consensus_started start_announce update_leader
on_micro_block_consensus_started-Keeps env sharding_lead q m p =
    if_rule (λ (d : Option RoleError × Machine). Placed d.1) _ _ _ (λ t. p) (λ f. p)
on_micro_block_consensus_started-Keeps env sharding_backup q m p = p
on_micro_block_consensus_started-Keeps env idle q m p = tt
on_micro_block_consensus_started-Keeps env lookup q m p = tt
on_micro_block_consensus_started-Keeps env ds_lead q m p = tt
on_micro_block_consensus_started-Keeps env ds_backup q m p = tt
