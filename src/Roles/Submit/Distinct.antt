-- ===== src/Roles/Submit/Distinct.antt =====
-- The committee's list of mining results.
use okchain.Prelude.{
  ℕ, ◌+◌, ◌≡◌, refl, sym, subst, ◌⊎◌, inl, inr, Bool, true, false, not, List, [], ◌∷◌, ◌++◌, Option,
  none, some, ◌==◌, arith, if◌then◌else◌, if_rule, Bool-cases, length, length-append,
}
use okchain.Roles.Peers.{Peer}
use okchain.Roles.Types.{PowSubmission, Server, Message, RoleEnv, RoleError}
use okchain.Roles.Submit.{
  has_pow, append_pow, check_pow, process_pow_submission, refuse, accept_pow,
}

-- No two entries come from one public key.
abbrev pub AllDistinct : List PowSubmission → Type 0
AllDistinct [] = Unit
AllDistinct (p ∷ ps) = (has_pow ps p.peer ≡ false) × AllDistinct ps

has_pow-append :
    (ps : List PowSubmission) (q : PowSubmission) (e : Peer)
    → has_pow ps e ≡ false
    → (q.peer.pubkey == e.pubkey) ≡ false
    → has_pow (ps ++ q ∷ []) e ≡ false
unfolding has_pow
has_pow-append [] q e h n = ground arith
has_pow-append (p ∷ ps) q e h n = elim (Bool-cases (p.peer.pubkey == e.pubkey)) [
  | inl t ↦ absurd (ground arith)
  | inr f ↦ ground (arith, has_pow-append ps q e (ground arith) n)
]

append-AllDistinct :
    (ps : List PowSubmission) (q : PowSubmission)
    → AllDistinct ps
    → has_pow ps q.peer ≡ false
    → AllDistinct (ps ++ q ∷ [])
unfolding has_pow
append-AllDistinct [] q d h = (refl, tt)
append-AllDistinct (p ∷ ps) q d h = elim (Bool-cases (p.peer.pubkey == q.peer.pubkey)) [
  | inl t ↦ absurd (ground arith)
  | inr f ↦
      (has_pow-append ps q p.peer d.0 (ground arith), append-AllDistinct ps q d.1 (ground arith))
]

-- A handler's result: the server is as before and there is an error, or the submission and its
-- sender are the last entries of the two lists.
AtMostOne : Server → Message → Server × Option RoleError → Type 0
AtMostOne s msg r =
    ((r.0 ≡ s) × ((e : RoleError) × (r.1 ≡ some e)))
    ⊎ ((pow : PowSubmission) × (has_pow s.pow_sub_list pow.peer ≡ false)
        × (r ≡ accept_pow s msg pow))

refuse-AtMostOne : (s : Server) (msg : Message) (e : RoleError) → AtMostOne s msg (refuse s e)
unfolding AtMostOne
refuse-AtMostOne s msg e = inl (refl, (e, refl))

accept_pow-AtMostOne :
    (s : Server) (msg : Message) (pow : PowSubmission)
    → has_pow s.pow_sub_list pow.peer ≡ false
    → AtMostOne s msg (accept_pow s msg pow)
unfolding AtMostOne
accept_pow-AtMostOne s msg pow h = inr (pow, h, refl)

append_pow-AtMostOne :
    (env : RoleEnv) (s : Server) (msg : Message) (pow : PowSubmission) (text : ℕ)
    → has_pow s.pow_sub_list pow.peer ≡ false
    → AtMostOne s msg (append_pow env s msg pow text)
unfolding append_pow
append_pow-AtMostOne env s msg pow text h =
    let seed : ℕ =
      env.mining_seed (env.ds_hash s.ds_current) (env.tx_hash s.tx_current) pow.peer text
        pow.coinbase in
    if_rule (AtMostOne s msg) (env.verify_pow seed pow.block_num s.pow_difficulty pow.result).1
      (accept_pow s msg pow) (refuse s RoleError.verify_mine)
      (λ _. accept_pow-AtMostOne s msg pow h) (λ _. refuse-AtMostOne s msg _)

guard-AtMostOne :
    (s : Server) (msg : Message) (b : Bool) (e : RoleError) (rest : Server × Option RoleError)
    → (b ≡ false → AtMostOne s msg rest)
    → AtMostOne s msg (if b then refuse s e else rest)
guard-AtMostOne s msg true e rest h = refuse-AtMostOne s msg e
guard-AtMostOne s msg false e rest h = h refl

check_pow-AtMostOne :
    (env : RoleEnv) (s : Server) (msg : Message) (pow : PowSubmission)
    → AtMostOne s msg (check_pow env s msg pow)
unfolding check_pow
check_pow-AtMostOne env s msg pow =
    guard-AtMostOne s msg (has_pow s.pow_sub_list pow.peer) RoleError.duplicated_message _ (λ h.
      guard-AtMostOne s msg (not (pow.rand1 == env.ds_hash s.ds_current)) RoleError.verify_block _
        (λ _.
          guard-AtMostOne s msg (not (pow.rand2 == env.tx_hash s.tx_current)) RoleError.verify_block
            _
            (λ _.
              guard-AtMostOne s msg (not (env.verify_hash msg (env.pow_hash pow)))
                RoleError.verify_message _
                (λ _.
                  elim (env.pub_key_text pow.peer.pubkey)
                    as (λ o. AtMostOne s msg (elim o [
                      | none ↦ refuse s RoleError.pub_key_convert
                      | some text ↦ append_pow env s msg pow text
                    ])) [
                      | none ↦ refuse-AtMostOne s msg _
                      | some text ↦ append_pow-AtMostOne env s msg pow text h
                    ]))))

process_pow_submission-AtMostOne :
    (env : RoleEnv) (s : Server) (msg : Message)
    → AtMostOne s msg (process_pow_submission env s msg)
unfolding process_pow_submission
process_pow_submission-AtMostOne env s msg =
    elim (env.read_pow msg.payload)
      as (λ o. AtMostOne s msg (elim o [
        | none ↦ refuse s RoleError.unmarshal_message
        | some pow ↦ check_pow env s msg pow
      ])) [ none ↦ refuse-AtMostOne s msg _ | some pow ↦ check_pow-AtMostOne env s msg pow ]

-- One entry for a public key, and as many new sharding nodes as new entries.
abbrev pub Kept : Server → Server → Type 0
Kept s s' =
    AllDistinct s'.pow_sub_list
    × (length s'.sharding_nodes + length s.pow_sub_list
        ≡ length s.sharding_nodes + length s'.pow_sub_list)

-- A handled mining result leaves at most one entry for each public key, if there was at most one
-- before, and adds as many sharding nodes as entries.
pub process_pow_submission-AllDistinct :
    (env : RoleEnv) (s : Server) (msg : Message)
    → AllDistinct s.pow_sub_list
    → Kept s (process_pow_submission env s msg).0
unfolding AtMostOne
process_pow_submission-AllDistinct env s msg d =
    go (process_pow_submission env s msg) (process_pow_submission-AtMostOne env s msg)
  where
    go : (r : Server × Option RoleError) → AtMostOne s msg r → Kept s r.0
    go r (inl (same, _)) = subst (Kept s) (sym same) (d, omega arith)
    go r (inr (pow, new, h)) =
        subst (λ (r' : Server × Option RoleError). Kept s r'.0) (sym h)
          (
            append-AllDistinct s.pow_sub_list pow d new,
            omega (
              arith,
              length-append s.pow_sub_list (pow ∷ []),
              length-append s.sharding_nodes (msg.peer ∷ []),
            ),
          )
