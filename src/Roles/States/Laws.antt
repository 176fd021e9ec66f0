-- ===== src/Roles/States/Laws.antt =====
-- What becomes of a message in each state that a role is ever in.
use okchain.Prelude.{
  ℕ, zero, suc, ◌≡◌, ◌≢◌, ◌↔◌, refl, Bool, true, false, ◌&&◌, Option, none, some, arith,
}
use okchain.Roles.ViewChange.{RoleType, ds_lead, ds_backup}
use okchain.Roles.States.{
  StateType, MessageKind, Handler, Dispatch, call, ignored, panicked, again, state_process_msg,
  process_consensus, process_blocks, process_idle, process_lookup, has_method, process_msg,
  is_matched, node_process_ds_block, node_process_final_block, viewchange_consensus,
  dsblock_consensus, finalblock_consensus,
}

-- The message carries a DS block or a final block.
abbrev pub is_block : MessageKind → Bool
is_block node_process_ds_block = true
is_block node_process_final_block = true
is_block _ = false

-- A role of the committee.
abbrev pub is_ds : RoleType → Bool
is_ds ds_lead = true
is_ds ds_backup = true
is_ds _ = false

-- The committee agrees on a block of its own.
abbrev pub in_ds_consensus : StateType → Bool
in_ds_consensus dsblock_consensus = true
in_ds_consensus finalblock_consensus = true
in_ds_consensus _ = false

abbrev pub in_view_change : StateType → Bool
in_view_change viewchange_consensus = true
in_view_change _ = false

again_iff :
    (s : StateType) (k : MessageKind)
    → (state_process_msg s k ≡ again) ↔ ((in_ds_consensus s && is_block k) ≡ true)
unfolding state_process_msg process_consensus process_blocks process_idle process_lookup
again_iff s k = ground arith

matched_lem :
    (r : RoleType) (s : StateType) (k : MessageKind)
    → is_matched r s ≡ true
    → state_process_msg s k ≢ panicked
unfolding state_process_msg process_consensus process_blocks process_idle process_lookup is_matched
matched_lem r s k m = ground arith

ignored_lem :
    (s : StateType) (k : MessageKind)
    → state_process_msg s k ≡ ignored
    → (in_view_change s && is_block k) ≡ false
unfolding state_process_msg process_consensus process_blocks process_idle process_lookup
ignored_lem s k e = ground arith

method_iff :
    (r : RoleType) (s : StateType) (k : MessageKind) (h : Handler)
    → is_matched r s ≡ true
    → state_process_msg s k ≡ call h
    → (has_method r h ≡ false) ↔ ((is_ds r && in_view_change s && is_block k) ≡ true)
unfolding state_process_msg process_consensus process_blocks process_idle process_lookup is_matched
    has_method
method_iff r s k h m e = ground arith

-- What becomes of a message, for a given limit on the calls inside each other.
pub record IsFate (r : RoleType) (s : StateType) (k : MessageKind) (p : Option Dispatch)
    : Type 0 where
  pub loops : (p ≡ none) ↔ ((in_ds_consensus s && is_block k) ≡ true)
  pub panics : (p ≡ some panicked) ↔ ((is_ds r && in_view_change s && is_block k) ≡ true)
  pub handled : (h : Handler) → p ≡ some (call h) → has_method r h ≡ true

loop_lem :
    (depth : ℕ) (r : RoleType) (s : StateType) (k : MessageKind)
    → state_process_msg s k ≡ again
    → process_msg depth r s k ≡ none
unfolding process_msg
loop_lem zero r s k e = refl
loop_lem (suc depth) r s k e = ground (arith, loop_lem depth r s k e)

-- A message to a role in a state that it is ever in, with any limit on the calls of `ProcessMsg`
-- inside each other: the call does not return within the limit if and only if the role agrees on a
-- DS block or a final block and the message carries a block; it panics if and only if a role of the
-- committee is in a view change and the message carries a block; and a handler is only called
-- where the role has it.
pub process_msg-IsFate :
    (depth : ℕ) (r : RoleType) (s : StateType) (k : MessageKind)
    → is_matched r s ≡ true
    → IsFate r s k (process_msg (suc depth) r s k)
unfolding process_msg
process_msg-IsFate depth r s k m = go (state_process_msg s k) refl
  where
    go : (d : Dispatch) → state_process_msg s k ≡ d → IsFate r s k (process_msg (suc depth) r s k)
    go again e = record {
      loops = ground (arith, again_iff s k, loop_lem (suc depth) r s k e);
      panics = ground (arith, again_iff s k, loop_lem (suc depth) r s k e);
      handled = λ h q. absurd (ground (arith, loop_lem (suc depth) r s k e));
    }
    go panicked e = absurd (matched_lem r s k m e)
    go ignored e = record {
      loops = ground (arith, again_iff s k);
      panics = ground (arith, ignored_lem s k e);
      handled = λ h q. ground arith;
    }
    go (call h) e = record {
      loops = ground (arith, again_iff s k);
      panics = ground (arith, method_iff r s k h m e);
      handled = λ h' q. ground (arith, method_iff r s k h m e);
    }
