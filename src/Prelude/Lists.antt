-- ===== src/Prelude/Lists.antt =====
-- Lists measured by native numbers, and predicates that hold of every element or of every pair.
use Prim.Native.Nat.{ℕ, zero, suc, ◌+◌, ◌-◌, ◌≤◌, min}
use mathlib.Core.Path.{◌≡◌, refl, ap}
use mathlib.Core.List.{List, [], ◌∷◌, ◌++◌, map, reverse, reverse_aux, reverse-cons}
use native.Mathlib.Omega.{arith}

module _ {ℓ} {A : Type ℓ} where
  abbrev pub length : List A → ℕ
  length [] = 0
  length (x ∷ xs) = suc (length xs)

  abbrev pub take : ℕ → List A → List A
  take zero xs = []
  take (suc n) [] = []
  take (suc n) (x ∷ xs) = x ∷ take n xs

  abbrev pub drop : ℕ → List A → List A
  drop zero xs = xs
  drop (suc n) [] = []
  drop (suc n) (x ∷ xs) = drop n xs

  pub length-append : (xs ys : List A) → length (xs ++ ys) ≡ length xs + length ys
  length-append [] ys = omega arith
  length-append (x ∷ xs) ys = omega (arith, length-append xs ys)

  pub length-take : (n : ℕ) (xs : List A) → length (take n xs) ≡ min n (length xs)
  length-take zero xs = omega arith
  length-take (suc n) [] = omega arith
  length-take (suc n) (x ∷ xs) = omega (arith, length-take n xs)

  pub take-append-drop : (n : ℕ) (xs : List A) → take n xs ++ drop n xs ≡ xs
  take-append-drop zero xs = refl
  take-append-drop (suc n) [] = refl
  take-append-drop (suc n) (x ∷ xs) = ap (◌∷◌ x) (take-append-drop n xs)

-- Predicates by recursion on the list compute to tuples, which the tactics read and build.
abbrev pub All {ℓ κ} : {A : Type ℓ} → (A → Type κ) → List A → Type κ
All P [] = Unit
All P (x ∷ xs) = P x × All P xs

abbrev pub Pairwise {ℓ κ} : {A : Type ℓ} → (A → A → Type κ) → List A → Type κ
Pairwise R [] = Unit
Pairwise R (x ∷ xs) = All (R x) xs × Pairwise R xs

module _ {ℓ κ κ'} {A : Type ℓ} {P : A → Type κ} {Q : A → Type κ'} where
  pub All-imp : ((x : A) → P x → Q x) → (xs : List A) → All P xs → All Q xs
  All-imp f [] h = tt
  All-imp f (x ∷ xs) h = (f x h.0, All-imp f xs h.1)

module _ {ℓ κ} {A : Type ℓ} (P : A → Type κ) where
  pub All_all : ((x : A) → P x) → (xs : List A) → All P xs
  All_all f [] = tt
  All_all f (x ∷ xs) = (f x, All_all f xs)

  pub All-append : (xs ys : List A) → All P xs → All P ys → All P (xs ++ ys)
  All-append [] ys hx hy = hy
  All-append (x ∷ xs) ys hx hy = (hx.0, All-append xs ys hx.1 hy)

module _ {ℓ κ κ'} {A : Type ℓ} (P : A → Type κ) (Q : A → Type κ') where
  pub All-and : (xs : List A) → All P xs → All Q xs → All (λ x. P x × Q x) xs
  All-and [] h k = tt
  All-and (x ∷ xs) h k = ((h.0, k.0), All-and xs h.1 k.1)

module _ {ℓ ℓ' κ κ'} {A : Type ℓ} {B : Type ℓ'} (P : A → Type κ) (Q : B → Type κ') where
  pub All-map :
      (f : A → B) → ((x : A) → P x → Q (f x)) → (xs : List A) → All P xs → All Q (map f xs)
  All-map f h [] p = tt
  All-map f h (x ∷ xs) p = (h x p.0, All-map f h xs p.1)

module _ {ℓ ℓ' κ κ' κ''} {A : Type ℓ} {B : Type ℓ'} (P : A → Type κ) (R : A → A → Type κ')
    (S : B → B → Type κ'') where
  pub Pairwise-map :
      (f : A → B)
      → ((x y : A) → P x → P y → R x y → S (f x) (f y))
      → (xs : List A) → All P xs
      → Pairwise R xs
      → Pairwise S (map f xs)
  Pairwise-map f h [] p r = tt
  Pairwise-map f h (x ∷ xs) p r = (
    All-map (λ y. P y × R x y) (S (f x)) f (λ y q. h x y p.0 q.0 q.1) xs
        (All-and P (R x) xs p.1 r.0),
    Pairwise-map f h xs p.1 r.1,
  )

module _ {ℓ κ} {A : Type ℓ} (R : A → A → Type κ) where
  pub Pairwise-snoc :
      (xs : List A) (y : A) → Pairwise R xs → All (λ x. R x y) xs → Pairwise R (xs ++ y ∷ [])
  Pairwise-snoc [] y p h = (tt, tt)
  Pairwise-snoc (x ∷ xs) y p h =
      (All-append (R x) xs (y ∷ []) p.0 (h.0, tt), Pairwise-snoc xs y p.1 h.1)

module _ {ℓ κ κ'} {A : Type ℓ} (R : A → A → Type κ) (S : A → A → Type κ') where
  pub Pairwise-imp : ((x y : A) → R x y → S x y) → (xs : List A) → Pairwise R xs → Pairwise S xs
  Pairwise-imp f [] h = tt
  Pairwise-imp f (x ∷ xs) h = (All-imp (f x) xs h.0, Pairwise-imp f xs h.1)

module _ {ℓ} {A : Type ℓ} where
  pub take-take-suc : (n : ℕ) (xs : List A) → take n (take (suc n) xs) ≡ take n xs
  take-take-suc zero xs = refl
  take-take-suc (suc n) [] = refl
  take-take-suc (suc n) (x ∷ xs) = ap (◌∷◌ x) (take-take-suc n xs)

  pub length-drop : (n : ℕ) (xs : List A) → length (drop n xs) ≡ length xs - n
  length-drop zero xs = omega arith
  length-drop (suc n) [] = omega arith
  length-drop (suc n) (x ∷ xs) = omega (arith, length-drop n xs)

  pub take_all : (n : ℕ) (xs : List A) → length xs ≤ n → take n xs ≡ xs
  take_all zero [] h = refl
  take_all zero (x ∷ xs) h = absurd (omega arith)
  take_all (suc n) [] h = refl
  take_all (suc n) (x ∷ xs) h = ap (◌∷◌ x) (take_all n xs (omega arith))

module _ {ℓ κ} {A : Type ℓ} {B : Type κ} (f : A → B) where
  pub take-map : (n : ℕ) (xs : List A) → take n (map f xs) ≡ map f (take n xs)
  take-map zero xs = refl
  take-map (suc n) [] = refl
  take-map (suc n) (x ∷ xs) = ap (◌∷◌ (f x)) (take-map n xs)

  pub drop-map : (n : ℕ) (xs : List A) → drop n (map f xs) ≡ map f (drop n xs)
  drop-map zero xs = refl
  drop-map (suc n) [] = refl
  drop-map (suc n) (x ∷ xs) = drop-map n xs

  reverse_aux-map : (xs ys : List A) → reverse_aux (map f xs) (map f ys) ≡ map f (reverse_aux xs ys)
  reverse_aux-map [] ys = refl
  reverse_aux-map (x ∷ xs) ys = reverse_aux-map xs (x ∷ ys)

  pub reverse-map : (xs : List A) → reverse (map f xs) ≡ map f (reverse xs)
  reverse-map xs = reverse_aux-map xs []

-- Two lists of the same length, whose elements are related in their order.
abbrev pub Zip {ℓ ℓ'} : {A : Type ℓ} {B : Type ℓ'} → (A → B → Type 0) → List A → List B → Type 0
Zip R [] [] = Unit
Zip R [] (y ∷ ys) = ⊥
Zip R (x ∷ xs) [] = ⊥
Zip R (x ∷ xs) (y ∷ ys) = R x y × Zip R xs ys

module _ {ℓ ℓ'} {A : Type ℓ} {B : Type ℓ'} {R S : A → B → Type 0} where
  pub Zip-imp :
      ((x : A) (y : B) → R x y → S x y) → (xs : List A) (ys : List B) → Zip R xs ys → Zip S xs ys
  Zip-imp f [] [] z = tt
  Zip-imp f [] (y ∷ ys) z = absurd z
  Zip-imp f (x ∷ xs) [] z = absurd z
  Zip-imp f (x ∷ xs) (y ∷ ys) z = (f x y z.0, Zip-imp f xs ys z.1)

module _ {ℓ} {A B C : Type ℓ} (R : A → B → Type 0) (S : B → C → Type 0) (T : A → C → Type 0) where
  pub Zip-compose :
      ((x : A) (y : B) (z : C) → R x y → S y z → T x z)
      → (xs : List A) (ys : List B) (zs : List C) → Zip R xs ys
      → Zip S ys zs
      → Zip T xs zs
  Zip-compose f [] [] [] r s = tt
  Zip-compose f [] [] (z ∷ zs) r s = absurd s
  Zip-compose f [] (y ∷ ys) zs r s = absurd r
  Zip-compose f (x ∷ xs) [] zs r s = absurd r
  Zip-compose f (x ∷ xs) (y ∷ ys) [] r s = absurd s
  Zip-compose f (x ∷ xs) (y ∷ ys) (z ∷ zs) r s = (f x y z r.0 s.0, Zip-compose f xs ys zs r.1 s.1)

module _ {ℓ} {A : Type ℓ} {B : Type ℓ} (P : A → Type 0) (R S : A → B → Type 0) where
  pub Zip-All :
      ((x : A) (y : B) → P x → R x y → S x y)
      → (xs : List A) (ys : List B) → All P xs
      → Zip R xs ys
      → Zip S xs ys
  Zip-All f [] [] p z = tt
  Zip-All f [] (y ∷ ys) p z = absurd z
  Zip-All f (x ∷ xs) [] p z = absurd z
  Zip-All f (x ∷ xs) (y ∷ ys) p z = (f x y p.0 z.0, Zip-All f xs ys p.1 z.1)

module _ {ℓ ℓ'} {A : Type ℓ} {B : Type ℓ'} (R : A → B → Type 0) (Q : B → Type 0) where
  pub Zip-right :
      ((x : A) (y : B) → R x y → Q y) → (xs : List A) (ys : List B) → Zip R xs ys → All Q ys
  Zip-right f [] [] z = tt
  Zip-right f [] (y ∷ ys) z = absurd z
  Zip-right f (x ∷ xs) [] z = absurd z
  Zip-right f (x ∷ xs) (y ∷ ys) z = (f x y z.0, Zip-right f xs ys z.1)

-- A function that leads back from every element leads back from the list.
module _ {ℓ} {A : Type 0} {B : Type ℓ} (g : B → A) where
  pub Zip-map : (xs : List A) (ys : List B) → Zip (λ x y. g y ≡ x) xs ys → map g ys ≡ xs
  Zip-map [] [] z = refl
  Zip-map [] (y ∷ ys) z = absurd z
  Zip-map (x ∷ xs) [] z = absurd z
  Zip-map (x ∷ xs) (y ∷ ys) z = let rest = Zip-map xs ys z.1 in rw (z.0, rest) refl

module _ {ℓ} {A : Type ℓ} where
  pub map_identity : (xs : List A) → map (λ x. x) xs ≡ xs
  map_identity [] = refl
  map_identity (x ∷ xs) = ap (◌∷◌ x) (map_identity xs)

module _ {ℓ ℓ' ℓ''} {A : Type ℓ} {B : Type ℓ'} {C : Type ℓ''} (g : B → C) (f : A → B) where
  pub map-map : (xs : List A) → map g (map f xs) ≡ map (λ x. g (f x)) xs
  map-map [] = refl
  map-map (x ∷ xs) = ap (◌∷◌ (g (f x))) (map-map xs)

module _ {ℓ} {A B : Type ℓ} (R : A → B → Type 0) (P : A → Type 0) (Q : B → Type 0) where
  pub All-Zip :
      ((x : A) (y : B) → R x y → P x → Q y)
      → (xs : List A) (ys : List B) → Zip R xs ys
      → All P xs
      → All Q ys
  All-Zip f [] [] z a = tt
  All-Zip f [] (y ∷ ys) z a = absurd z
  All-Zip f (x ∷ xs) [] z a = absurd z
  All-Zip f (x ∷ xs) (y ∷ ys) z a = (f x y z.0 a.0, All-Zip f xs ys z.1 a.1)

module _ {ℓ} {A B : Type ℓ} (R : A → B → Type 0) (P : A → A → Type 0) (Q : B → B → Type 0) where
  pub Pairwise-Zip :
      ((x x' : A) (y y' : B) → R x y → R x' y' → P x x' → Q y y')
      → (xs : List A) (ys : List B) → Zip R xs ys
      → Pairwise P xs
      → Pairwise Q ys
  Pairwise-Zip f [] [] z a = tt
  Pairwise-Zip f [] (y ∷ ys) z a = absurd z
  Pairwise-Zip f (x ∷ xs) [] z a = absurd z
  Pairwise-Zip f (x ∷ xs) (y ∷ ys) z a = (
    All-Zip R (P x) (Q y) (λ x' y' r. f x x' y y' z.0 r) xs ys z.1 a.0,
    Pairwise-Zip f xs ys z.1 a.1,
  )

module _ {ℓ} {A : Type ℓ} {B : Type 0} (g : A → B) where
  pub map-Zip : (xs ys : List A) → Zip (λ x y. g y ≡ g x) xs ys → map g ys ≡ map g xs
  map-Zip [] [] z = refl
  map-Zip [] (y ∷ ys) z = absurd z
  map-Zip (x ∷ xs) [] z = absurd z
  map-Zip (x ∷ xs) (y ∷ ys) z = let rest = map-Zip xs ys z.1 in rw (z.0, rest) refl

module _ {ℓ κ} {A : Type ℓ} (P : A → Type κ) where
  pub All-reverse : (xs : List A) → All P xs → All P (reverse xs)
  All-reverse [] h = tt
  All-reverse (x ∷ xs) h =
      rw (reverse-cons x xs) (All-append P (reverse xs) (x ∷ []) (All-reverse xs h.1) (h.0, tt))
