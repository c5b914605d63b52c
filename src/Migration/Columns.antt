-- ===== src/Migration/Columns.antt =====
-- One column that the migration of alembic/versions/0002_privacy_hardening.py rewrites: what happens
-- to each row.
use fingerprint_hub.Prelude.{
  ℕ, zero, suc, ◌≡◌, refl, Str, Option, none, some, List, [], ◌∷◌, Zip, Zip-imp, All, All-imp, map,
  Result, ok, ◌>>=◌, Result-bind,
}
use fingerprint_hub.Migration.{Column, rewrite_row, rewrite_column}

module _ {A : Type 0} (c : Column A) where
  abbrev Step : (ℕ → Str → Result (Option Str)) → A → A → Type 0
  Step f r r' = (i : ℕ) × (rewrite_row (f i) c r ≡ ok r')

  -- Each row comes of the row in its place, with its own nonce.
  pub rewrite_column-Zip :
      (f : ℕ → Str → Result (Option Str)) (rows rows' : List A)
      → rewrite_column f c rows ≡ ok rows'
      → Zip (λ r r'. (i : ℕ) × (rewrite_row (f i) c r ≡ ok r')) rows rows'
  rewrite_column-Zip f [] rows' h =
      let same : [] ≡ rows' = unfold rewrite_column in cc in rw (← same) tt
  rewrite_column-Zip f (r ∷ rows) rows' h =
      let (r', e, h₁) =
        Result-bind (rewrite_row (f zero) c r)
          (λ s. rewrite_column (λ i. f (suc i)) c rows >>= (λ ss. ok (s ∷ ss))) rows'
          (unfold rewrite_column in h) in
      let (rest, e', h₂) =
        Result-bind (rewrite_column (λ i. f (suc i)) c rows) (λ ss. ok (r' ∷ ss)) rows' h₁ in
      let same : r' ∷ rest ≡ rows' = cc in
      rw (← same) (
        (zero, e),
        Zip-imp {R = Step (λ i. f (suc i))} {S = Step f} (λ x y z. (suc z.0, z.1)) rows rest
            (rewrite_column-Zip (λ i. f (suc i)) rows rest e'),
      )

  rewrite_column_step :
      (f : ℕ → Str → Result (Option Str)) (r r' : A) (rows rows' : List A)
      → rewrite_row (f zero) c r ≡ ok r'
      → rewrite_column (λ i. f (suc i)) c rows ≡ ok rows'
      → rewrite_column f c (r ∷ rows) ≡ ok (r' ∷ rows')
  rewrite_column_step f r r' rows rows' e e' =
      unfold rewrite_column in rw (e, e', rewrite_column) refl

  -- Where `g` says what becomes of every row, whatever its nonce, it says what becomes of the column.
  pub rewrite_column-map :
      (f : ℕ → Str → Result (Option Str)) (g : A → A) (rows : List A)
      → All (λ r. (i : ℕ) → rewrite_row (f i) c r ≡ ok (g r)) rows
      → rewrite_column f c rows ≡ ok (map g rows)
  rewrite_column-map f g [] h = unfold rewrite_column in refl
  rewrite_column-map f g (r ∷ rows) h = rewrite_column_step f r (g r) rows (map g rows) (h.0 zero) (
      rewrite_column-map (λ i. f (suc i)) g rows
        (All-imp {P = λ s. (i : ℕ) → rewrite_row (f i) c s ≡ ok (g s)}
          {Q = λ s. (i : ℕ) → rewrite_row (f (suc i)) c s ≡ ok (g s)} (λ s k i. k (suc i)) rows
          h.1))

  pub rewrite_row_null :
      (f : Str → Result (Option Str)) (r : A) → c.value r ≡ none → rewrite_row f c r ≡ ok r
  rewrite_row_null f r e = unfold rewrite_row in rw (e, rewrite_row) refl

  pub rewrite_row_value :
      (f : Str → Result (Option Str)) (r : A) (v : Str)
      → c.value r ≡ some v
      → rewrite_row f c r ≡ (f v >>= (λ w. ok (c.set w r)))
  rewrite_row_value f r v e = unfold rewrite_row in rw (e, rewrite_row) refl
