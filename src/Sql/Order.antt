-- ===== src/Sql/Order.antt =====
-- ORDER BY puts the rows in order, and goes well with WHERE.
use fingerprint_hub.Prelude.{
  ℕ, ◌≤◌, ◌<◌, ◌≡◌, ◌≢◌, refl, sym, All-and, ◌∙◌, ap, Bool, true, ◌||◌, List, [], ◌∷◌, arith, leb,
  leb→le, All, All-imp, Pairwise, Bool-cases, inl, inr, if◌then◌else◌,
}
use native.Mathlib.Nat.{le_trans}
use fingerprint_hub.Sql.{select, exists, insert_by, order_by}
use fingerprint_hub.Sql.Rows.{All-select}

module _ {ℓ} {A : Type ℓ} (key : A → ℕ) where
  abbrev pub IsSorted : List A → Type 0
  IsSorted = Pairwise (λ a b. key a ≤ key b)

  All-insert_by {κ} :
      (P : A → Type κ) (x : A) (ys : List A) → P x → All P ys → All P (insert_by key x ys)
  unfolding insert_by
  All-insert_by P x [] h a = (h, tt)
  All-insert_by P x (y ∷ ys) h a = elim (Bool-cases (leb (key x) (key y))) [
    | inl e ↦ rw e (h, a)
    | inr e ↦ rw e (a.0, All-insert_by P x ys h a.1)
  ]

  pub All-order_by {κ} : (P : A → Type κ) (xs : List A) → All P xs → All P (order_by key xs)
  unfolding order_by
  All-order_by P [] a = tt
  All-order_by P (x ∷ xs) a = All-insert_by P x (order_by key xs) a.0 (All-order_by P xs a.1)

  insert_by-IsSorted : (x : A) (ys : List A) → IsSorted ys → IsSorted (insert_by key x ys)
  unfolding insert_by
  insert_by-IsSorted x [] s = (tt, tt)
  insert_by-IsSorted x (y ∷ ys) s = elim (Bool-cases (leb (key x) (key y))) [
    | inl e ↦ rw e (
      (leb→le (key x) (key y) e, All-imp (λ z h. le_trans (leb→le (key x) (key y) e) h) ys s.0),
      s,
    )
    | inr e ↦
        rw e
          (All-insert_by (λ z. key y ≤ key z) x ys (ground arith) s.0, insert_by-IsSorted x ys s.1)
  ]

  pub order_by-IsSorted : (xs : List A) → IsSorted (order_by key xs)
  unfolding order_by
  order_by-IsSorted [] = tt
  order_by-IsSorted (x ∷ xs) = insert_by-IsSorted x (order_by key xs) (order_by-IsSorted xs)

  Pairwise-insert_by {κ} :
      (R : A → A → Type κ)
      → ((a b : A) → R a b → R b a)
      → (x : A) (ys : List A) → All (R x) ys
      → Pairwise R ys
      → Pairwise R (insert_by key x ys)
  unfolding insert_by
  Pairwise-insert_by R flip x [] a p = (tt, tt)
  Pairwise-insert_by R flip x (y ∷ ys) a p = elim (Bool-cases (leb (key x) (key y))) [
    | inl e ↦ rw e (a, p)
    | inr e ↦
        rw e (All-insert_by (R y) x ys (flip x y a.0) p.0, Pairwise-insert_by R flip x ys a.1 p.1)
  ]

  -- What holds of every two rows, in either order, holds of the ordered rows.
  pub Pairwise-order_by {κ} :
      (R : A → A → Type κ)
      → ((a b : A) → R a b → R b a)
      → (xs : List A) → Pairwise R xs
      → Pairwise R (order_by key xs)
  unfolding order_by
  Pairwise-order_by R flip [] p = tt
  Pairwise-order_by R flip (x ∷ xs) p =
      Pairwise-insert_by R flip x (order_by key xs) (All-order_by (R x) xs p.0)
        (Pairwise-order_by R flip xs p.1)

  insert_by_least :
      (x : A) (ys : List A) → All (λ y. key x ≤ key y) ys → insert_by key x ys ≡ x ∷ ys
  unfolding insert_by
  insert_by_least x [] a = refl
  insert_by_least x (y ∷ ys) a = ground (arith, a.0)

  select-insert_by :
      (p : A → Bool) (x : A) (ys : List A)
      → IsSorted ys
      → select p (insert_by key x ys) ≡ (if p x then insert_by key x (select p ys) else select p ys)
  unfolding select insert_by
  select-insert_by p x [] s = ground arith
  select-insert_by p x (y ∷ ys) s = elim (Bool-cases (leb (key x) (key y))) [
    | inl e ↦ elim (Bool-cases (p x)) [
      | inl f ↦
          rw (e, f)
            (sym (
              insert_by_least x (select p (y ∷ ys))
                (All-select (λ z. key x ≤ key z) p (y ∷ ys) (above e))))
      | inr f ↦ rw (e, f) refl
    ]
    | inr e ↦ ground (arith, e, select-insert_by p x ys s.1)
  ]
    where
      above : leb (key x) (key y) ≡ true → All (λ z. key x ≤ key z) (y ∷ ys)
      above e = let l = leb→le (key x) (key y) e in (l, All-imp (λ z h. le_trans l h) ys s.0)

  -- WHERE may be read before or after ORDER BY.
  pub select-order_by :
      (p : A → Bool) (xs : List A) → select p (order_by key xs) ≡ order_by key (select p xs)
  unfolding order_by select
  select-order_by p [] = refl
  select-order_by p (x ∷ xs) =
      select-insert_by p x (order_by key xs) (order_by-IsSorted xs)
      ∙ ground (arith, select-order_by p xs)

module _ {ℓ} {A : Type ℓ} (key : A → ℕ) where
  exists-insert_by :
      (p : A → Bool) (x : A) (ys : List A) → exists p (insert_by key x ys) ≡ (p x || exists p ys)
  unfolding exists insert_by
  exists-insert_by p x [] = refl
  exists-insert_by p x (y ∷ ys) = ground (arith, exists-insert_by p x ys)

  pub exists-order_by : (p : A → Bool) (xs : List A) → exists p (order_by key xs) ≡ exists p xs
  unfolding order_by exists
  exists-order_by p [] = refl
  exists-order_by p (x ∷ xs) =
      exists-insert_by p x (order_by key xs) ∙ ap (λ b. p x || b) (exists-order_by p xs)

  pub order_by_empty : (xs : List A) → order_by key xs ≡ [] → xs ≡ []
  order_by_empty [] h = refl
  order_by_empty (x ∷ xs) h = absurd (never (exists-order_by (λ _. true) (x ∷ xs)))
    where
      never : exists (λ _. true) (order_by key (x ∷ xs)) ≡ exists (λ _. true) (x ∷ xs) → ⊥
      never e = unfold exists in cc (h, e)

-- Rows with different keys are in strict order.
pub strictly_sorted {ℓ} :
    {A : Type ℓ} (key : A → ℕ) (xs : List A)
    → IsSorted key xs
    → Pairwise (λ a b. key a ≢ key b) xs
    → Pairwise (λ a b. key a < key b) xs
strictly_sorted key [] s d = tt
strictly_sorted key (x ∷ xs) s d = (
  All-imp (λ y h. omega (arith, h.0, h.1)) xs
      (All-and (λ y. key x ≤ key y) (λ y. key x ≢ key y) xs s.0 d.0),
  strictly_sorted key xs s.1 d.1,
)
