-- ===== src/Store/Effects/Statistics.antt =====
-- `stats`: the totals and the groups.
use fingerprint_hub.Prelude.{
  ℕ, suc, ◌+◌, ◌∙◌, ◌≡◌, refl, ap, Str, str_eq, str_eq_refl, str_eq_iff, Bool, true, false, List,
  [], ◌∷◌, map, length, arith, Bool-cases, inl, inr, ◌⊎◌, if◌then◌else◌,
}
use fingerprint_hub.Schema.{
  Status, active, hidden, deleted, is_active, is_hidden, is_deleted, Fingerprint, Db,
}
use fingerprint_hub.Store.Browse.{tally, group_count, Stats, stats}
use fingerprint_hub.Sql.{select, count}
use fingerprint_hub.Sql.Rows.{length-map}

-- The count of a group, which is 0 if there is none.
abbrev pub group_of : Str → List (Str × ℕ) → ℕ
group_of key [] = 0
group_of key ((k, n) ∷ groups) = if str_eq k key then n else group_of key groups

-- The counts of all groups together.
abbrev pub total : List (Str × ℕ) → ℕ
total [] = 0
total ((k, n) ∷ groups) = n + total groups

tally-total : (key : Str) (groups : List (Str × ℕ)) → total (tally key groups) ≡ suc (total groups)
unfolding tally
tally-total key [] = refl
tally-total key ((k, n) ∷ groups) = elim (Bool-cases (str_eq k key)) [
  | inl e ↦ rw e (omega arith)
  | inr e ↦ rw e (omega (arith, tally-total key groups))
]

group_count-total : (keys : List Str) → total (group_count keys) ≡ length keys
unfolding group_count
group_count-total [] = refl
group_count-total (key ∷ keys) =
    tally-total key (group_count keys) ∙ ap suc (group_count-total keys)

tally-group :
    (other key : Str) (groups : List (Str × ℕ))
    → group_of other (tally key groups)
      ≡ (if str_eq key other then suc (group_of other groups) else group_of other groups)
unfolding tally
tally-group other key [] = elim (Bool-cases (str_eq key other)) [
  | inl e ↦ rw e refl
  | inr e ↦ rw e refl
]
tally-group other key ((k, n) ∷ groups) = elim (Bool-cases (str_eq k key)) [
  | inl e ↦
      let same : k ≡ key = (str_eq_iff k key).0 e in
      elim (Bool-cases (str_eq k other)) [
        | inl f ↦ rw (e, ← same, f) (omega arith)
        | inr f ↦ rw (e, ← same, f) refl
      ]
  | inr e ↦ elim (Bool-cases (str_eq k other)) [
    | inl f ↦ rw (e, f, apart e f) refl
    | inr f ↦ rw (e, f) (tally-group other key groups)
  ]
]
  where
    apart : str_eq k key ≡ false → str_eq k other ≡ true → str_eq key other ≡ false
    apart e f = elim (Bool-cases (str_eq key other)) [
      | inl g ↦
          let a : k ≡ other = (str_eq_iff k other).0 f in
          let b : key ≡ other = (str_eq_iff key other).0 g in absurd (cc (e, a, b, str_eq_refl k))
      | inr g ↦ g
    ]

group_count-group :
    (key : Str) (keys : List Str) → group_of key (group_count keys) ≡ count (λ k. str_eq k key) keys
unfolding group_count count select
group_count-group key [] = refl
group_count-group key (k ∷ keys) = elim (Bool-cases (str_eq k key)) [
  | inl e ↦ tally-group key k (group_count keys) ∙ rw e (ap suc (group_count-group key keys))
  | inr e ↦ tally-group key k (group_count keys) ∙ rw e (group_count-group key keys)
]

abbrev Is : Bool → Bool → Bool → Status → Type 0
Is a h d s = (is_active s ≡ a) × (is_hidden s ≡ h) × (is_deleted s ≡ d)

Status-cases :
    (s : Status) → Is true false false s ⊎ (Is false true false s ⊎ Is false false true s)
Status-cases active = inl (refl, refl, refl)
Status-cases hidden = inr (inl (refl, refl, refl))
Status-cases deleted = inr (inr (refl, refl, refl))

count-statuses :
    (rows : List Fingerprint)
    → count (λ r. is_active r.status) rows
        + count (λ r. is_hidden r.status) rows
        + count (λ r. is_deleted r.status) rows
      ≡ length rows
unfolding count select
count-statuses [] = refl
count-statuses (r ∷ rows) = elim (Status-cases r.status) [
  | inl (a, h, d) ↦ ground (arith, a, h, d, count-statuses rows)
  | inr (inl (a, h, d)) ↦ ground (arith, a, h, d, count-statuses rows)
  | inr (inr (a, h, d)) ↦ ground (arith, a, h, d, count-statuses rows)
]

count-map :
    (key : Str) (f : Fingerprint → Str) (rows : List Fingerprint)
    → count (λ k. str_eq k key) (map f rows) ≡ count (λ r. str_eq (f r) key) rows
unfolding count select
count-map key f [] = refl
count-map key f (r ∷ rows) = ground (arith, count-map key f rows)

-- What the statistics say of the rows.
pub record IsAccurate (db : Db) (s : Stats) : Type 0 where
  pub statuses : s.total_active + s.total_hidden + s.total_deleted ≡ length db.fingerprints
  pub categories : total s.by_category ≡ s.total_active
  pub provenances : total s.by_provenance ≡ s.total_active
  pub category :
      (key : Str)
      → group_of key s.by_category
        ≡ count (λ r. str_eq r.category key) (select (λ r. is_active r.status) db.fingerprints)
  pub provenance :
      (key : Str)
      → group_of key s.by_provenance
        ≡ count (λ r. str_eq r.provenance key) (select (λ r. is_active r.status) db.fingerprints)

-- The three totals add up to the number of rows; the groups by category and by provenance each add up
-- to the number of active rows, and the group of a text counts the active rows that have it.
pub stats-IsAccurate : (db : Db) → IsAccurate db (stats db)
unfolding stats
stats-IsAccurate db = record {
  statuses = count-statuses db.fingerprints;
  categories = grouped (λ r. r.category);
  provenances = grouped (λ r. r.provenance);
  category = λ key. counted key (λ r. r.category);
  provenance = λ key. counted key (λ r. r.provenance);
}
  where
    live : List Fingerprint
    live = select (λ r. is_active r.status) db.fingerprints

    grouped :
        (f : Fingerprint → Str)
        → total (group_count (map f live)) ≡ count (λ r. is_active r.status) db.fingerprints
    grouped f = group_count-total (map f live) ∙ length-map f live ∙ unfold count in refl

    counted :
        (key : Str) (f : Fingerprint → Str)
        → group_of key (group_count (map f live)) ≡ count (λ r. str_eq (f r) key) live
    counted key f = group_count-group key (map f live) ∙ count-map key f live
