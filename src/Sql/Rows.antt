-- ===== src/Sql/Rows.antt =====
-- Which rows the statements read, change and keep.
use fingerprint_hub.Prelude.{
  suc, if◌then◌else◌, Pairwise, ◌≤◌, ◌||◌, map, length, ap, false, ◌≡◌, refl, Bool, true, none,
  some, List, [], ◌∷◌, ◌++◌, arith, All, Bool-cases, inl, inr, subst,
}
use fingerprint_hub.Sql.{select, fetch_one, exists, update, delete}

module _ {ℓ} {A : Type ℓ} where
  pub select-append :
      (p : A → Bool) (xs ys : List A) → select p (xs ++ ys) ≡ select p xs ++ select p ys
  unfolding select
  select-append p [] ys = refl
  select-append p (x ∷ xs) ys = ground (arith, select-append p xs ys)

  -- An UPDATE that keeps what the condition reads does not change which rows are selected.
  pub select-update :
      (p q : A → Bool) (f : A → A) (xs : List A)
      → ((x : A) → q (f x) ≡ q x)
      → select q (update p f xs) ≡ update p f (select q xs)
  unfolding select update
  select-update p q f [] h = refl
  select-update p q f (x ∷ xs) h = ground (arith, h x, select-update p q f xs h)

  pub fetch_one-append_none :
      (p : A → Bool) (xs ys : List A)
      → fetch_one p xs ≡ none
      → fetch_one p (xs ++ ys) ≡ fetch_one p ys
  unfolding fetch_one
  fetch_one-append_none p [] ys h = refl
  fetch_one-append_none p (x ∷ xs) ys h = ground (arith, fetch_one-append_none p xs ys)

  pub fetch_one-append_some :
      (p : A → Bool) (xs ys : List A) (x : A)
      → fetch_one p xs ≡ some x
      → fetch_one p (xs ++ ys) ≡ some x
  unfolding fetch_one
  fetch_one-append_some p [] ys x h = cc
  fetch_one-append_some p (y ∷ xs) ys x h = ground (arith, fetch_one-append_some p xs ys x)

  pub fetch_one_holds : (p : A → Bool) (xs : List A) (x : A) → fetch_one p xs ≡ some x → p x ≡ true
  unfolding fetch_one
  fetch_one_holds p [] x h = cc
  fetch_one_holds p (y ∷ xs) x h = ground (arith, fetch_one_holds p xs x)

  pub fetch_one-All {κ} :
      (P : A → Type κ) (p : A → Bool) (xs : List A) {x : A}
      → fetch_one p xs ≡ some x
      → All P xs
      → P x
  unfolding fetch_one
  fetch_one-All P p [] h a = cc
  fetch_one-All P p (y ∷ xs) {x} h a = elim (Bool-cases (p y)) [
    | inl e ↦ let s : y ≡ x = ground arith in subst P s a.0
    | inr e ↦ fetch_one-All P p xs (ground arith) a.1
  ]

module _ {ℓ} {A : Type ℓ} where
  pub exists-append :
      (p : A → Bool) (xs ys : List A) → exists p (xs ++ ys) ≡ (exists p xs || exists p ys)
  unfolding exists
  exists-append p [] ys = refl
  exists-append p (x ∷ xs) ys = ground (arith, exists-append p xs ys)

  -- An UPDATE that keeps what the condition reads does not change whether there is a row.
  pub exists-update :
      (q p : A → Bool) (f : A → A) (xs : List A)
      → ((x : A) → q (f x) ≡ q x)
      → exists q (update p f xs) ≡ exists q xs
  unfolding exists update
  exists-update q p f [] h = refl
  exists-update q p f (x ∷ xs) h = ground (arith, h x, exists-update q p f xs h)

  -- A row that meets the condition is there if and only if a fetch finds one.
  pub fetch_one-exists :
      (p : A → Bool) (xs : List A) → exists p xs ≡ true → (x : A) × (fetch_one p xs ≡ some x)
  unfolding fetch_one exists
  fetch_one-exists p [] h = cc
  fetch_one-exists p (y ∷ xs) h = elim (Bool-cases (p y)) [
    | inl e ↦ (y, ground arith)
    | inr e ↦ let (x, r) = fetch_one-exists p xs (ground arith) in (x, ground (arith, r))
  ]

  pub fetch_one-none : (p : A → Bool) (xs : List A) → exists p xs ≡ false → fetch_one p xs ≡ none
  unfolding fetch_one exists
  fetch_one-none p [] h = refl
  fetch_one-none p (y ∷ xs) h = ground (arith, fetch_one-none p xs)

  pub exists_of_fetch :
      (p : A → Bool) (xs : List A) (x : A) → fetch_one p xs ≡ some x → exists p xs ≡ true
  unfolding fetch_one exists
  exists_of_fetch p [] x h = cc
  exists_of_fetch p (y ∷ xs) x h = ground (arith, exists_of_fetch p xs x)

  pub not_exists_of_none :
      (p : A → Bool) (xs : List A) → fetch_one p xs ≡ none → exists p xs ≡ false
  unfolding fetch_one exists
  not_exists_of_none p [] h = refl
  not_exists_of_none p (y ∷ xs) h = ground (arith, not_exists_of_none p xs)

  pub not_exists : (p : A → Bool) (xs : List A) → All (λ x. p x ≡ false) xs → exists p xs ≡ false
  unfolding exists
  not_exists p [] h = refl
  not_exists p (x ∷ xs) h = ground (arith, h.0, not_exists p xs h.1)

  pub not_exists_all :
      (p : A → Bool) (xs : List A) → exists p xs ≡ false → All (λ x. p x ≡ false) xs
  unfolding exists
  not_exists_all p [] h = tt
  not_exists_all p (x ∷ xs) h = (ground arith, not_exists_all p xs (ground arith))

  pub exists_append_self :
      (p : A → Bool) (xs : List A) (x : A) → p x ≡ true → exists p (xs ++ x ∷ []) ≡ true
  exists_append_self p xs x h = rw exists-append (unfold exists in ground arith)

  pub exists_append_left :
      (p : A → Bool) (xs ys : List A) → exists p xs ≡ true → exists p (xs ++ ys) ≡ true
  exists_append_left p xs ys h = rw exists-append (rw h)

  -- An UPDATE of the row that a fetch finds: the fetch then finds the updated row.
  pub fetch_one-update :
      (q p : A → Bool) (f : A → A) (xs : List A) (x : A)
      → ((y : A) → q (f y) ≡ q y)
      → fetch_one q xs ≡ some x
      → fetch_one q (update p f xs) ≡ some (if p x then f x else x)
  unfolding fetch_one update
  fetch_one-update q p f [] x h e = cc
  fetch_one-update q p f (y ∷ xs) x h e = ground (arith, h y, h x, fetch_one-update q p f xs x h)

  pub fetch_one-update-none :
      (q p : A → Bool) (f : A → A) (xs : List A)
      → ((y : A) → q (f y) ≡ q y)
      → fetch_one q xs ≡ none
      → fetch_one q (update p f xs) ≡ none
  unfolding fetch_one update
  fetch_one-update-none q p f [] h e = refl
  fetch_one-update-none q p f (y ∷ xs) h e = ground (arith, h y, fetch_one-update-none q p f xs h)

  pub select-select_imp :
      (p q : A → Bool) (xs : List A)
      → ((x : A) → p x ≡ true → q x ≡ true)
      → select p (select q xs) ≡ select p xs
  unfolding select
  select-select_imp p q [] h = refl
  select-select_imp p q (x ∷ xs) h = ground (arith, h x, select-select_imp p q xs h)

  pub select_nothing : (p : A → Bool) (xs : List A) → All (λ x. p x ≡ false) xs → select p xs ≡ []
  unfolding select
  select_nothing p [] h = refl
  select_nothing p (x ∷ xs) h = ground (arith, h.0, select_nothing p xs h.1)

  pub select-delete_self : (p : A → Bool) (xs : List A) → select p (delete p xs) ≡ []
  unfolding select delete
  select-delete_self p [] = refl
  select-delete_self p (x ∷ xs) = ground (arith, select-delete_self p xs)

  -- A predicate of every row holds of the selected rows, which meet the condition too.
  pub All-select {κ} :
      (P : A → Type κ) (p : A → Bool) (xs : List A) → All P xs → All P (select p xs)
  unfolding select
  All-select P p [] h = tt
  All-select P p (x ∷ xs) h = elim (Bool-cases (p x)) [
    | inl e ↦ rw e (h.0, All-select P p xs h.1)
    | inr e ↦ rw e (All-select P p xs h.1)
  ]

  pub All-select_holds : (p : A → Bool) (xs : List A) → All (λ x. p x ≡ true) (select p xs)
  unfolding select
  All-select_holds p [] = tt
  All-select_holds p (x ∷ xs) = elim (Bool-cases (p x)) [
    | inl e ↦ rw e (e, All-select_holds p xs)
    | inr e ↦ rw e (All-select_holds p xs)
  ]

  pub Pairwise-select {κ} :
      (R : A → A → Type κ) (p : A → Bool) (xs : List A) → Pairwise R xs → Pairwise R (select p xs)
  unfolding select
  Pairwise-select R p [] h = tt
  Pairwise-select R p (x ∷ xs) h = elim (Bool-cases (p x)) [
    | inl e ↦ rw e (All-select (R x) p xs h.0, Pairwise-select R p xs h.1)
    | inr e ↦ rw e (Pairwise-select R p xs h.1)
  ]

  -- An UPDATE that meets no row changes nothing.
  pub update_nothing :
      (p : A → Bool) (f : A → A) (xs : List A) → exists p xs ≡ false → update p f xs ≡ xs
  unfolding exists update
  update_nothing p f [] h = refl
  update_nothing p f (x ∷ xs) h = ground (arith, update_nothing p f xs)

  -- What holds of the rows after an UPDATE, from what the rows that it met and missed had.
  pub All-update {κ κ'} :
      (P : A → Type κ) (Q : A → Type κ') (p : A → Bool) (f : A → A)
      → ((x : A) → p x ≡ true → P x → Q (f x))
      → ((x : A) → p x ≡ false → P x → Q x)
      → (xs : List A) → All P xs
      → All Q (update p f xs)
  unfolding update
  All-update P Q p f h k [] a = tt
  All-update P Q p f h k (x ∷ xs) a = elim (Bool-cases (p x)) [
    | inl e ↦ rw e (h x e a.0, All-update P Q p f h k xs a.1)
    | inr e ↦ rw e (k x e a.0, All-update P Q p f h k xs a.1)
  ]

  pub length-select-le : (p : A → Bool) (xs : List A) → length (select p xs) ≤ length xs
  unfolding select
  length-select-le p [] = omega arith
  length-select-le p (x ∷ xs) = ground (arith, length-select-le p xs)

module _ {ℓ κ} {A : Type ℓ} {B : Type κ} where
  -- A column that an UPDATE leaves alone, of rows that it leaves selected.
  pub map-select-update :
      (g : A → B) (p q : A → Bool) (f : A → A) (xs : List A)
      → ((x : A) → p (f x) ≡ p x)
      → ((x : A) → g (f x) ≡ g x)
      → map g (select p (update q f xs)) ≡ map g (select p xs)
  unfolding select update
  map-select-update g p q f [] h k = refl
  map-select-update g p q f (x ∷ xs) h k =
      ground (arith, h x, k x, map-select-update g p q f xs h k)

  pub length-map : (g : A → B) (xs : List A) → length (map g xs) ≡ length xs
  length-map g [] = refl
  length-map g (x ∷ xs) = ap suc (length-map g xs)

pub exists-map {ℓ κ} :
    {A : Type ℓ} {B : Type κ} (p : B → Bool) (f : A → B) (xs : List A)
    → exists p (map f xs) ≡ exists (λ x. p (f x)) xs
unfolding exists
exists-map p f [] = refl
exists-map p f (x ∷ xs) = ap (λ b. p (f x) || b) (exists-map p f xs)

pub select-map {ℓ κ} :
    {A : Type ℓ} {B : Type κ} (p : B → Bool) (f : A → B) (xs : List A)
    → select p (map f xs) ≡ map f (select (λ x. p (f x)) xs)
unfolding select
select-map p f [] = refl
select-map p f (x ∷ xs) = ground (arith, select-map p f xs)
