-- ===== src/Roles/Registration/Fits.antt =====
-- What a message to a node of the committee says of it.
use okchain.Prelude.{
  ℕ, zero, suc, ◌+◌, ◌≤◌, ◌≡◌, refl, sym, ap, subst, ◌∙◌, List, [], ◌∷◌, ◌++◌, Option, none, some,
  some_inj, ltb, if◌then◌else◌, if_rule, length, take, get_elem?, arith,
}
use okchain.Roles.Peers.{Peer}
use okchain.Roles.Registration.{
  InformDs, Notice, set_primary, inform_ds_backup, inform_sharding, notice_at,
}

-- A list that goes on.
unfoldable pub Extends : List Peer → List Peer → Type 0
Extends rps final = (extra : List Peer) × (final ≡ rps ++ extra)

-- What the message says of the committee is so for these registered peers: the head leads, and
-- the list, where it is complete, is the one of the first of them.
pub record IsOf (ds_size : ℕ) (final : List Peer) (m : InformDs) : Type 0 where
  pub size : m.ds_size ≡ ds_size
  pub head : get_elem? final 0 ≡ some m.leader
  pub listed : length m.ds_list ≡ m.ds_size → m.ds_list ≡ take ds_size final

abbrev pub Fits : ℕ → List Peer → Notice → Type 0
Fits ds_size final (set_primary to m) = IsOf ds_size final m
Fits ds_size final _ = Unit

abbrev pub FitsAny : ℕ → List Peer → Option Notice → Type 0
FitsAny ds_size final none = Unit
FitsAny ds_size final (some n) = Fits ds_size final n

take-append : {A : Type 0} (n : ℕ) (xs ys : List A) → n ≤ length xs → take n (xs ++ ys) ≡ take n xs
take-append zero xs ys h = refl
take-append (suc n) [] ys h = absurd (omega (arith, h))
take-append (suc n) (x ∷ xs) ys h = cc (take-append n xs ys (omega (arith, h)))

append_assoc : {A : Type 0} (xs ys zs : List A) → (xs ++ ys) ++ zs ≡ xs ++ (ys ++ zs)
append_assoc [] ys zs = refl
append_assoc (x ∷ xs) ys zs = cc (append_assoc xs ys zs)

pub append_nil : {A : Type 0} (xs : List A) → xs ++ [] ≡ xs
append_nil [] = refl
append_nil (x ∷ xs) = cc (append_nil xs)

length-take : {A : Type 0} (n : ℕ) (xs : List A) → length (take n xs) ≤ length xs
length-take zero xs = omega arith
length-take (suc n) [] = omega arith
length-take (suc n) (x ∷ xs) = omega (arith, length-take n xs)

pub Extends-trans : (a b c : List Peer) → Extends a b → Extends b c → Extends a c
unfolding Extends
Extends-trans a b c (x, p) (y, q) =
    (x ++ y, q ∙ ap (λ (l : List Peer). l ++ y) p ∙ append_assoc a x y)

inform_ds_backup-Fits :
    (d : ℕ) (rps : List Peer) (to : Peer) (n : Notice) (final : List Peer)
    → inform_ds_backup d rps to ≡ some n
    → Extends rps final
    → Fits d final n
unfolding inform_ds_backup Extends
inform_ds_backup-Fits d [] to n final h e = absurd cc
inform_ds_backup-Fits d (p ∷ ps) to n final h (extra, e) =
    subst (Fits d final) (some_inj h) (record {
      size = refl;
      head = ap (λ (l : List Peer). get_elem? l 0) e;
      listed = λ full. go full;
    })
  where
    up : ℕ
    up = if ltb (length (p ∷ ps)) d then length (p ∷ ps) else d

    go : length (take up (p ∷ ps)) ≡ d → take up (p ∷ ps) ≡ take d final
    go full =
        let room : d ≤ length (p ∷ ps) = omega (arith, full, length-take up (p ∷ ps)) in
        let whole : up ≡ d = ground (arith, room) in
        ap (λ (k : ℕ). take k (p ∷ ps)) whole
        ∙ sym (take-append d (p ∷ ps) extra room)
        ∙ ap (take d) (sym e)

pub notice_at-Fits :
    (k d : ℕ) (rps : List Peer) (from : Peer) (place : Option ℕ) (o : Option Notice)
    (final : List Peer)
    → notice_at k d rps from place ≡ some o
    → Extends rps final
    → FitsAny d final o
unfolding notice_at inform_sharding
notice_at-Fits k d rps from none o final h e = subst (FitsAny d final) (some_inj h) tt
notice_at-Fits k d rps from (some i) o final h e =
    if_rule (λ (r : Option (Option Notice)). r ≡ some o → FitsAny d final o) (ltb i d) _ _
      (λ t. at_ds (inform_ds_backup d rps from) refl)
      (λ f.
        if_rule (λ (r : Option (Option Notice)). r ≡ some o → FitsAny d final o) (ltb i (k + d)) _ _
          (λ t q. subst (FitsAny d final) (some_inj q) tt)
          (λ f' q. subst (FitsAny d final) (some_inj q) tt))
      h
  where
    at_ds :
        (q : Option Notice)
        → inform_ds_backup d rps from ≡ q
        → elim q as (λ _. Option (Option Notice)) [ none ↦ none | some n ↦ some (some n) ] ≡ some o
        → FitsAny d final o
    at_ds none p q = absurd cc
    at_ds (some n) p q =
        subst (FitsAny d final) (some_inj q) (inform_ds_backup-Fits d rps from n final p e)
