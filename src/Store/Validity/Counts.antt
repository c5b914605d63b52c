-- ===== src/Store/Validity/Counts.antt =====
-- How the statements on the flags and the hits change the counts of a row.
use fingerprint_hub.Prelude.{
  ℕ, not, ◌+◌, ◌≤◌, ◌<◌, ◌≡◌, ◌≢◌, ap, Bool, true, false, List, [], ◌∷◌, ◌++◌, map, arith, All,
  All-imp, Bool-cases, inl, inr, if◌then◌else◌,
}
use mathlib.Core.List.{append-nil}
use fingerprint_hub.Schema.{Fingerprint, Hit, Flag}
use fingerprint_hub.Store.Keys.{has_id, hit_of, flag_of}
use fingerprint_hub.Store.Flags.{flaggers, has_flagger, insert_flag}
use fingerprint_hub.Sql.{select, exists, count, count_distinct, distinct, delete, update}
use fingerprint_hub.Sql.Rows.{
  select-append, select_nothing, select-select_imp, select-delete_self, map-select-update,
  not_exists,
}

flag_of_ne : (k : ℕ) (f : Flag) → k ≢ f.fingerprint_id → flag_of k f ≡ false
unfolding flag_of
flag_of_ne k f h = ground arith

select-insert_flag_ne :
    (k : ℕ) (f : Flag) (flags : List Flag)
    → k ≢ f.fingerprint_id
    → select (flag_of k) (insert_flag f flags) ≡ select (flag_of k) flags
unfolding insert_flag
select-insert_flag_ne k f flags h =
    elim (Bool-cases (exists (has_flagger f.fingerprint_id f.consumer_id) flags)) [
      | inl e ↦ rw e
      | inr e ↦
          rw (
            e,
            select-append,
            select_nothing (flag_of k) (f ∷ []) (flag_of_ne k f h, tt),
            append-nil,
          )
    ]

-- A flag of another row does not count.
pub flaggers-insert_ne :
    (k : ℕ) (f : Flag) (flags : List Flag)
    → k ≢ f.fingerprint_id
    → flaggers k (insert_flag f flags) ≡ flaggers k flags
unfolding flaggers
flaggers-insert_ne k f flags h =
    ap (λ fs. count_distinct (map (λ f. f.consumer_id) fs)) (select-insert_flag_ne k f flags h)

-- Rows that no flag refers to have no flaggers.
pub flaggers_none :
    (k : ℕ) (flags : List Flag) → All (λ f. flag_of k f ≡ false) flags → flaggers k flags ≡ 0
unfolding flaggers count_distinct distinct
flaggers_none k flags h = rw (select_nothing (flag_of k) flags h)

pub flaggers-delete_self : (k : ℕ) (flags : List Flag) → flaggers k (delete (flag_of k) flags) ≡ 0
unfolding flaggers count_distinct distinct
flaggers-delete_self k flags = rw select-delete_self

pub flaggers-delete_ne :
    (k j : ℕ) (flags : List Flag) → k ≢ j → flaggers k (delete (flag_of j) flags) ≡ flaggers k flags
unfolding flaggers delete flag_of
flaggers-delete_ne k j flags h =
    rw (select-select_imp (flag_of k) (λ f. not (flag_of j f)) flags (λ f e. ground arith))

-- An UPDATE of flags that keeps their two keys keeps the count.
pub flaggers-update :
    (k : ℕ) (p : Flag → Bool) (g : Flag → Flag) (flags : List Flag)
    → ((f : Flag) → flag_of k (g f) ≡ flag_of k f)
    → ((f : Flag) → (g f).consumer_id ≡ f.consumer_id)
    → flaggers k (update p g flags) ≡ flaggers k flags
unfolding flaggers
flaggers-update k p g flags h e =
    ap count_distinct (map-select-update (λ f. f.consumer_id) (flag_of k) p g flags h e)

-- The flags of a row that is kept are kept.
pub flaggers-select :
    (k : ℕ) (q : Flag → Bool) (flags : List Flag)
    → ((f : Flag) → flag_of k f ≡ true → q f ≡ true)
    → flaggers k (select q flags) ≡ flaggers k flags
unfolding flaggers
flaggers-select k q flags h =
    ap (λ fs. count_distinct (map (λ f. f.consumer_id) fs))
      (select-select_imp (flag_of k) q flags h)

-- Fewer hits, fewer of a row.
pub count-select-le :
    (k : ℕ) (q : Hit → Bool) (hits : List Hit)
    → count (hit_of k) (select q hits) ≤ count (hit_of k) hits
unfolding count select
count-select-le k q [] = omega arith
count-select-le k q (x ∷ hits) = ground (arith, count-select-le k q hits)

pub count-append :
    (k : ℕ) (hits : List Hit) (h : Hit)
    → count (hit_of k) (hits ++ h ∷ []) ≡ count (hit_of k) hits + (if hit_of k h then 1 else 0)
unfolding count select
count-append k [] h = ground arith
count-append k (x ∷ hits) h = ground (arith, count-append k hits h)

pub count_none :
    (k : ℕ) (hits : List Hit) → All (λ h. hit_of k h ≡ false) hits → count (hit_of k) hits ≡ 0
unfolding count
count_none k hits h = rw (select_nothing (hit_of k) hits h)

-- The id that the sequence gives next is not in use.
pub unused :
    (n : ℕ) (rows : List Fingerprint) → All (λ r. r.id < n) rows → exists (has_id n) rows ≡ false
unfolding has_id
unused n rows h = not_exists (has_id n) rows (All-imp (λ r l. ground arith) rows h)
