-- ===== src/Sql/Distinct.antt =====
-- COUNT(DISTINCT column) counts a value once, however often it stands there.
use fingerprint_hub.Prelude.{
  ℕ, ◌+◌, ◌≡◌, refl, Bool, not, List, [], ◌∷◌, ◌++◌, arith, length-append, if◌then◌else◌, ◌==◌,
}
use mathlib.Core.List.{append-nil}
use fingerprint_hub.Sql.{select, exists, distinct, count_distinct}
use fingerprint_hub.Sql.Rows.{select-append}

distinct-snoc :
    (xs : List ℕ) (c : ℕ)
    → distinct (xs ++ c ∷ [])
      ≡ (if exists (λ x. x == c) xs then distinct xs else distinct xs ++ c ∷ [])
unfolding distinct exists select
distinct-snoc [] c = refl
distinct-snoc (x ∷ xs) c =
    let q : ℕ → Bool = λ y. not (x == y) in
    ground (
      arith,
      distinct-snoc xs c,
      select-append q (distinct xs) (c ∷ []),
      append-nil (select q (distinct xs)),
    )

-- A value at the end counts if it does not stand before.
pub count_distinct-snoc :
    (xs : List ℕ) (c : ℕ)
    → count_distinct (xs ++ c ∷ [])
      ≡ (if exists (λ x. x == c) xs then count_distinct xs else count_distinct xs + 1)
unfolding count_distinct
count_distinct-snoc xs c = ground (arith, distinct-snoc xs c, length-append (distinct xs) (c ∷ []))
