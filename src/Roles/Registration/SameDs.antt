-- ===== src/Roles/Registration/SameDs.antt =====
-- The nodes of the committee start with one list of it, under one leader.
use okchain.Prelude.{
  ℕ, zero, suc, ◌+◌, ◌≡◌, refl, sym, subst, ◌∙◌, List, [], ◌∷◌, ◌++◌, Option, none, some, some_inj,
  ◌==◌, if◌then◌else◌, if_rule, length, get_elem?,
}
use okchain.Roles.Peers.{Peer, index}
use okchain.Roles.Registration.{
  InformDs, Notice, set_primary, new_add, notice_at, register, process_register, keep_notice,
  register_all,
}
use okchain.Roles.Registration.Fits.{
  Extends, IsOf, Fits, FitsAny, append_nil, Extends-trans, notice_at-Fits,
}

-- What one registration leaves: the list goes on, and what is sent fits every list that goes on
-- from there.
pub record Registers (d : ℕ) (rps rps' : List Peer) (o : Option Notice) : Type 0 where
  pub grows : Extends rps rps'
  pub fits : (final : List Peer) → Extends rps' final → FitsAny d final o

register-Registers :
    (k d : ℕ) (rps rps' : List Peer) (from : Peer) (o : Option Notice)
    → register k d rps from ≡ some (rps', o)
    → Registers d rps rps' o
unfolding register Extends
register-Registers k d rps rps' from o = go (notice_at k d rps from (index rps from)) refl
  where
    go :
        (q : Option (Option Notice))
        → notice_at k d rps from (index rps from) ≡ q
        → elim q as (λ _. Option (List Peer × Option Notice)) [
          | none ↦ none
          | some n ↦ some (rps, n)
        ]
          ≡ some (rps', o)
        → Registers d rps rps' o
    go none p h = absurd cc
    go (some n) p h =
        subst (λ (r : List Peer × Option Notice). Registers d rps r.0 r.1) (some_inj h)
          (record {
            grows = ([], sym (append_nil rps));
            fits = λ final e. notice_at-Fits k d rps from (index rps from) n final p e;
          })

process_register-Registers :
    (k d : ℕ) (rps rps' : List Peer) (from : Peer) (o : Option Notice)
    → process_register k d rps from ≡ some (rps', o)
    → Registers d rps rps' o
unfolding process_register Extends
process_register-Registers k d rps rps' from o = go (index rps from)
  where
    go :
        (q : Option ℕ)
        → elim q as (λ _. Option (List Peer × Option Notice)) [
          | some i ↦ register k d rps from
          | none ↦
              if length rps == k + d
              then some (rps, some (new_add from))
              else register k d (rps ++ from ∷ []) from
        ]
          ≡ some (rps', o)
        → Registers d rps rps' o
    go (some i) h = register-Registers k d rps rps' from o h
    go none h =
        if_rule
          (λ (r : Option (List Peer × Option Notice)). r ≡ some (rps', o) → Registers d rps rps' o)
          (length rps == k + d) _ _
          (λ t q.
            subst (λ (r : List Peer × Option Notice). Registers d rps r.0 r.1) (some_inj q)
              (record { grows = ([], sym (append_nil rps)); fits = λ final e. tt }))
          (λ f q.
            let r = register-Registers k d (rps ++ from ∷ []) rps' from o q in
            record {
              grows = Extends-trans rps (rps ++ from ∷ []) rps' (from ∷ [], refl) r.grows;
              fits = r.fits;
            })
          h

abbrev pub AllFit : ℕ → List Peer → List Notice → Type 0
AllFit d final [] = Unit
AllFit d final (n ∷ ns) = Fits d final n × AllFit d final ns

keep_notice-AllFit :
    (d : ℕ) (final : List Peer) (o : Option Notice) (ns : List Notice)
    → FitsAny d final o
    → AllFit d final ns
    → AllFit d final (keep_notice o ns)
unfolding keep_notice
keep_notice-AllFit d final none ns f a = a
keep_notice-AllFit d final (some n) ns f a = (f, a)

register_all-AllFit :
    (k d : ℕ) (rps final : List Peer) (froms : List Peer) (ns : List Notice)
    → register_all k d rps froms ≡ some (final, ns)
    → Extends rps final × AllFit d final ns
unfolding register_all Extends
register_all-AllFit k d rps final [] ns h =
    subst (λ (r : List Peer × List Notice). Extends rps r.0 × AllFit d r.0 r.1) (some_inj h)
      (([], sym (append_nil rps)), tt)
register_all-AllFit k d rps final (from ∷ rest) ns h =
    go (λ rps1 rps2 ns' q. register_all-AllFit k d rps1 rps2 rest ns' q)
      (process_register k d rps from) refl h
  where
    Below : Type 0
    Below =
        (rps1 rps2 : List Peer) (ns' : List Notice)
        → register_all k d rps1 rest ≡ some (rps2, ns')
        → Extends rps1 rps2 × AllFit d rps2 ns'

    after :
        Below
        → (rps1 : List Peer) (o : Option Notice) (q : Option (List Peer × List Notice))
        → Registers d rps rps1 o
        → register_all k d rps1 rest ≡ q
        → elim q as (λ _. Option (List Peer × List Notice)) [
          | none ↦ none
          | some (rps'', ns') ↦ some (rps'', keep_notice o ns')
        ]
          ≡ some (final, ns)
        → Extends rps final × AllFit d final ns
    after below rps1 o none r p h = absurd cc
    after below rps1 o (some (rps2, ns')) r p h =
        let (grows, fits) = below rps1 rps2 ns' p in
        subst (λ (r : List Peer × List Notice). Extends rps r.0 × AllFit d r.0 r.1) (some_inj h)
          (
            Extends-trans rps rps1 rps2 r.grows grows,
            keep_notice-AllFit d rps2 o ns' (r.fits rps2 grows) fits,
          )

    go :
        Below
        → (q : Option (List Peer × Option Notice)) → process_register k d rps from ≡ q
        → elim q as (λ _. Option (List Peer × List Notice)) [
          | none ↦ none
          | some (rps', n) ↦ elim (register_all k d rps' rest) [
            | none ↦ none
            | some (rps'', ns') ↦ some (rps'', keep_notice n ns')
          ]
        ]
          ≡ some (final, ns)
        → Extends rps final × AllFit d final ns
    go below none p h = absurd cc
    go below (some (rps1, o)) p h =
        after below rps1 o (register_all k d rps1 rest)
          (process_register-Registers k d rps rps1 from o p) refl h

AllFit-get :
    (d : ℕ) (final : List Peer) (ns : List Notice) (i : ℕ) (n : Notice)
    → AllFit d final ns
    → get_elem? ns i ≡ some n
    → Fits d final n
AllFit-get d final [] i n a g = absurd cc
AllFit-get d final (m ∷ ns) zero n (f, a) g = subst (Fits d final) (some_inj g) f
AllFit-get d final (m ∷ ns) (suc i) n (f, a) g = AllFit-get d final ns i n a g

-- In a run of registrations that does not panic, whatever their order and their repetitions, two
-- messages that name the committee to a node with the complete list of it, as many nodes as they
-- say, are the same: the same leader and the same list. The leader is the node that
-- registered first.
pub register_all-SameDs :
    (k d : ℕ) (rps final : List Peer) (froms : List Peer) (ns : List Notice) (i j : ℕ) (p q : Peer)
    (m m' : InformDs)
    → register_all k d rps froms ≡ some (final, ns)
    → get_elem? ns i ≡ some (set_primary p m)
    → get_elem? ns j ≡ some (set_primary q m')
    → length m.ds_list ≡ m.ds_size
    → length m'.ds_list ≡ m'.ds_size
    → (m ≡ m') × (get_elem? final 0 ≡ some m.leader)
register_all-SameDs k d rps final froms ns i j p q m m' h g g' full full' =
    let (grows, fits) = register_all-AllFit k d rps final froms ns h in
    let a : IsOf d final m = AllFit-get d final ns i (set_primary p m) fits g in
    let b : IsOf d final m' = AllFit-get d final ns j (set_primary q m') fits g' in
    (
      same (some_inj (sym a.head ∙ b.head)) (a.size ∙ sym b.size)
          (a.listed full ∙ sym (b.listed full')),
      a.head,
    )
  where
    same : m.leader ≡ m'.leader → m.ds_size ≡ m'.ds_size → m.ds_list ≡ m'.ds_list → m ≡ m'
    same x y z = cc (x, y, z)
