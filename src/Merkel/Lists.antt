-- ===== src/Merkel/Lists.antt =====
-- Lists made even, and lists of lists joined.
use okchain.Prelude.{
  ◌%◌, ◌≡◌, refl, ap, List, [], ◌∷◌, ◌++◌, length, map, arith, not, ◌==◌, inl, inr, Bool-cases,
}
use okchain.Merkel.{append_last, make_even}

abbrev pub list_head : {A : Type 0} → A → List A → A
list_head a [] = a
list_head a (x ∷ xs) = x

abbrev pub list_tail : {A : Type 0} → List A → List A
list_tail [] = []
list_tail (x ∷ xs) = xs

pub ∷_inj : {A : Type 0} {x y : A} {xs ys : List A} → x ∷ xs ≡ y ∷ ys → (x ≡ y) × (xs ≡ ys)
∷_inj {x = x} h = (ap (list_head x) h, ap list_tail h)

pub append_inj :
    {A : Type 0} (xs ys zs ws : List A)
    → length xs ≡ length zs
    → xs ++ ys ≡ zs ++ ws
    → (xs ≡ zs) × (ys ≡ ws)
append_inj [] ys [] ws e h = (refl, h)
append_inj [] ys (z ∷ zs) ws e h = absurd (omega (arith, e))
append_inj (x ∷ xs) ys [] ws e h = absurd (omega (arith, e))
append_inj (x ∷ xs) ys (z ∷ zs) ws e h =
    let (p, q) = ∷_inj h in
    let (r, s) = append_inj xs ys zs ws (omega (arith, e)) q in (cc (p, r), s)

pub append_last_inj :
    {A : Type 0} (xs ys : List A)
    → length xs ≡ length ys
    → append_last xs ≡ append_last ys
    → xs ≡ ys
unfolding append_last
append_last_inj [] [] e h = refl
append_last_inj [] (y ∷ ys) e h = absurd (omega (arith, e))
append_last_inj (x ∷ xs) [] e h = absurd (omega (arith, e))
append_last_inj (x ∷ []) (y ∷ []) e h = cc ((∷_inj h).0)
append_last_inj (x ∷ []) (y ∷ z ∷ ys) e h = absurd (omega (arith, e))
append_last_inj (x ∷ w ∷ xs) (y ∷ []) e h = absurd (omega (arith, e))
append_last_inj (x ∷ w ∷ xs) (y ∷ z ∷ ys) e h =
    let (p, q) = ∷_inj h in cc (p, append_last_inj (w ∷ xs) (z ∷ ys) (omega (arith, e)) q)

pub make_even_inj :
    {A : Type 0} (xs ys : List A) → length xs ≡ length ys → make_even xs ≡ make_even ys → xs ≡ ys
unfolding make_even
make_even_inj xs ys e h = elim (Bool-cases (not (length xs % 2 == 0))) [
  | inl t ↦ append_last_inj xs ys e (ground (arith, h, t, e))
  | inr f ↦ ground (arith, h, f, e)
]

pub append_last-map :
    {A : Type 0} {B : Type 0} (f : A → B) (xs : List A)
    → append_last (map f xs) ≡ map f (append_last xs)
unfolding append_last
append_last-map f [] = refl
append_last-map f (x ∷ []) = refl
append_last-map f (x ∷ y ∷ xs) = cc (append_last-map f (y ∷ xs))

pub length-map : {A : Type 0} {B : Type 0} (f : A → B) (xs : List A) → length (map f xs) ≡ length xs
length-map f [] = refl
length-map f (x ∷ xs) = omega (arith, length-map f xs)

pub make_even-map :
    {A : Type 0} {B : Type 0} (f : A → B) (xs : List A)
    → make_even (map f xs) ≡ map f (make_even xs)
unfolding make_even
make_even-map f xs = elim (Bool-cases (not (length xs % 2 == 0))) [
  | inl t ↦ ground (arith, t, length-map f xs, append_last-map f xs)
  | inr n ↦ ground (arith, n, length-map f xs)
]

pub map_inj :
    {A : Type 0} {B : Type 0} (f : A → B) (xs ys : List A)
    → ((x y : A) → f x ≡ f y → x ≡ y)
    → map f xs ≡ map f ys
    → xs ≡ ys
map_inj f [] [] i h = refl
map_inj f [] (y ∷ ys) i h = absurd cc
map_inj f (x ∷ xs) [] i h = absurd cc
map_inj f (x ∷ xs) (y ∷ ys) i h = let (p, q) = ∷_inj h in cc (i x y p, map_inj f xs ys i q)
