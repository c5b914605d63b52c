-- ===== src/Sql/Kept.antt =====
-- What UPDATEs and DELETEs leave, and in which form.
use fingerprint_hub.Prelude.{
  ◌≡◌, refl, ap, Bool, true, false, ◌&&◌, List, [], ◌∷◌, arith, Bool-cases, inl, inr,
}
use fingerprint_hub.Sql.{select, update}

-- Rows that neither a DELETE nor an UPDATE meets.
pub select-kept {ℓ} :
    {A : Type ℓ} (q p : A → Bool) (f : A → A) (xs : List A)
    → ((x : A) → q x ≡ true → p x ≡ false)
    → ((x : A) → q (f x) ≡ q x)
    → select q (update p f xs) ≡ select q xs
unfolding select update
select-kept q p f [] h k = refl
select-kept q p f (x ∷ xs) h k = elim (Bool-cases (q x)) [
  | inl e ↦ rw (h x e, e) (ap (◌∷◌ x) (select-kept q p f xs h k))
  | inr e ↦ elim (Bool-cases (p x)) [
    | inl g ↦ rw (g, k x, e) (select-kept q p f xs h k)
    | inr g ↦ rw (g, e) (select-kept q p f xs h k)
  ]
]

pub select-select {ℓ} :
    {A : Type ℓ} (p q : A → Bool) (xs : List A)
    → select p (select q xs) ≡ select (λ x. q x && p x) xs
unfolding select
select-select p q [] = refl
select-select p q (x ∷ xs) = ground (arith, select-select p q xs)
