-- ===== src/Bft/Marks/Sums.antt =====
-- The sums of the keys of the nodes that a bool map marks, where the loops succeed.
use okchain.Prelude.{
  ℕ, ◌+◌, ◌==◌, ==_iff, ◌≡◌, sym, ap, Bool, true, false, List, [], ◌∷◌, Option, none, some,
  some_inj, arith, Bool-cases, inl, inr,
}
use okchain.Bft.Types.{Bytes}
use okchain.Bft.Env.{Env}
use okchain.Bft.Marks.{
  Marked, marked_keys, count_true, sum_keys, check_composed, multi_pubkey_verify,
}
use okchain.Bft.Marks.Laws.{marked_nodes, key_sum}

pub marked_keys-some :
    (env : Env) (bits : List Bool) (ps : List Bytes) (m m' : Marked)
    → marked_keys env bits ps m ≡ some m'
    → m' ≡ record {
      key = key_sum env m.key (marked_nodes bits ps);
      counter = m.counter + count_true bits;
    }
unfolding marked_keys count_true
marked_keys-some env [] ps m m' h = ground arith
marked_keys-some env (true ∷ bits) [] m m' h = absurd cc
marked_keys-some env (false ∷ bits) [] m m' h = marked_keys-some env bits [] m m' h
marked_keys-some env (false ∷ bits) (p ∷ ps) m m' h = marked_keys-some env bits ps m m' h
marked_keys-some env (true ∷ bits) (p ∷ ps) m m' h =
    let m1 : Marked = record {
      key = env.add_key m.key (env.read_key p).0;
      counter = m.counter + 1;
    } in
    ground (arith, marked_keys-some env bits ps m1 m' h)

sum_keys-some :
    (env : Env) (bits : List Bool) (ps : List Bytes) (key sum : ℕ)
    → sum_keys env bits ps key ≡ some (some sum)
    → sum ≡ key_sum env key (marked_nodes bits ps)
unfolding sum_keys
sum_keys-some env [] [] key sum h = sym (some_inj (some_inj h))
sum_keys-some env (true ∷ bits) [] key sum h = sym (some_inj (some_inj h))
sum_keys-some env (false ∷ bits) [] key sum h = sum_keys-some env bits [] key sum h
sum_keys-some env [] (p ∷ ps) key sum h = absurd cc
sum_keys-some env (false ∷ bits) (p ∷ ps) key sum h = sum_keys-some env bits ps key sum h
sum_keys-some env (true ∷ bits) (p ∷ ps) key sum h = elim (Bool-cases (env.read_key p).1) [
  | inl t ↦ sum_keys-some env bits ps (env.add_key key (env.read_key p).0) sum (ground arith)
  | inr f ↦ absurd (ground arith)
]

check_composed-none :
    (env : Env) (composed : Bytes) (o : Option (Option ℕ))
    → check_composed env composed o ≡ some none
    → o ≡ some (some (env.read_key composed).0)
unfolding check_composed
check_composed-none env composed none h = absurd cc
check_composed-none env composed (some none) h = absurd cc
check_composed-none env composed (some (some key)) h = elim (Bool-cases (env.read_key composed).1) [
  | inl t ↦ elim (Bool-cases (key == (env.read_key composed).0)) [
    | inl same ↦ ap (λ (k : ℕ). some (some k)) ((==_iff _ _).0 same)
    | inr f ↦ absurd (ground arith)
  ]
  | inr f ↦ absurd (ground arith)
]

-- An accepted composed key is the sum of the keys of the marked nodes.
pub multi_pubkey_verify-key_sum :
    (env : Env) (bits : List Bool) (ps : List Bytes) (composed : Bytes)
    → multi_pubkey_verify env bits ps composed ≡ some none
    → (env.read_key composed).0 ≡ key_sum env env.zero_key (marked_nodes bits ps)
unfolding multi_pubkey_verify
multi_pubkey_verify-key_sum env bits ps composed h =
    sum_keys-some env bits ps env.zero_key _ (check_composed-none env composed _ h)
