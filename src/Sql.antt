-- ===== src/Sql.antt =====
-- The SQL statements that the store issues, over a table as the list of its rows in the order of
-- insertion: SELECT and DELETE by a condition, UPDATE in place, COUNT, ORDER BY.
pub mod Rows
pub mod Order
pub mod Distinct
pub mod Kept
use fingerprint_hub.Prelude.{
  ℕ, Bool, true, false, not, ◌||◌, Option, none, some, List, [], ◌∷◌, map, leb, ◌==◌, length,
  if◌then◌else◌,
}

module _ {ℓ} {A : Type ℓ} where
  -- `SELECT … WHERE p`
  unfoldable pub select : (A → Bool) → List A → List A
  select p [] = []
  select p (x ∷ xs) = let rest = select p xs in if p x then x ∷ rest else rest

  -- `fetchone()` of a SELECT by a unique key
  unfoldable pub fetch_one : (A → Bool) → List A → Option A
  fetch_one p [] = none
  fetch_one p (x ∷ xs) = let rest = fetch_one p xs in if p x then some x else rest

  -- `EXISTS (SELECT … WHERE p)`
  unfoldable pub exists : (A → Bool) → List A → Bool
  exists p [] = false
  exists p (x ∷ xs) = p x || exists p xs

  -- `SELECT COUNT(*) … WHERE p`, and the `rowcount` of an UPDATE or a DELETE under `p`
  unfoldable pub count : (A → Bool) → List A → ℕ
  unfolding select
  count p xs = length (select p xs)

  -- `UPDATE … SET f WHERE p`
  unfoldable pub update : (A → Bool) → (A → A) → List A → List A
  update p f = map (λ x. if p x then f x else x)

  -- `DELETE FROM … WHERE p`
  unfoldable pub delete : (A → Bool) → List A → List A
  unfolding select
  delete p = select (λ x. not (p x))

  -- `ORDER BY key ASC`, by insertion
  unfoldable pub insert_by : (A → ℕ) → A → List A → List A
  insert_by key x [] = x ∷ []
  insert_by key x (y ∷ ys) =
      let rest = insert_by key x ys in if leb (key x) (key y) then x ∷ y ∷ ys else y ∷ rest

  unfoldable pub order_by : (A → ℕ) → List A → List A
  unfolding insert_by
  order_by key [] = []
  order_by key (x ∷ xs) = insert_by key x (order_by key xs)

-- `SELECT DISTINCT`, of a column of numbers
unfoldable pub distinct : List ℕ → List ℕ
unfolding select
distinct [] = []
distinct (x ∷ xs) = x ∷ select (λ y. not (x == y)) (distinct xs)

-- `COUNT(DISTINCT column)`
unfoldable pub count_distinct : List ℕ → ℕ
unfolding distinct
count_distinct xs = length (distinct xs)
