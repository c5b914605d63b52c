-- ===== src/Store/Feed/Records.antt =====
-- Which records the feed has of a row.
use fingerprint_hub.Prelude.{
  ℕ, ◌<◌, ◌≡◌, ◌≢◌, refl, sym, ap, ◌∙◌, subst, Bool, true, false, not, ◌&&◌, none, some, List, [],
  ◌∷◌, arith, map, ltb, All, All-imp, All-map, All-and, Pairwise, Bool-cases, Option-cases, inl,
  inr, ◌==◌,
}
use mathlib.Core.Option.{some-injective}
use fingerprint_hub.Schema.{Fingerprint, Db}
use fingerprint_hub.Store.Keys.{has_id}
use fingerprint_hub.Store.Feed.{PeerRecord, sync_columns, in_feed, feed, last_seq}
use fingerprint_hub.Store.Feed.Replica.{unfiltered}
use fingerprint_hub.Store.Validity.{IsValid, Differ}
use fingerprint_hub.Store.Validity.Updates.{has_id-ne}
use fingerprint_hub.Store.Freshness.{find_self}
use fingerprint_hub.Sql.{select, fetch_one, exists, order_by}
use fingerprint_hub.Sql.Rows.{
  exists-map, All-select, All-select_holds, not_exists_all, not_exists_of_none,
}
use fingerprint_hub.Sql.Order.{All-order_by, exists-order_by, order_by_empty}

pub in_feed_iff :
    (requester since : ℕ) (r : Fingerprint)
    → in_feed requester unfiltered since r
      ≡ (ltb since r.sync_seq && not (r.consumer_id == requester))
unfolding in_feed
in_feed_iff requester since r = ground arith

module _ (requester since : ℕ) (db : Db) where
  abbrev rows : List PeerRecord
  rows = feed requester unfiltered since db

  pub feed-All :
      (P : Fingerprint → Type 0) (Q : PeerRecord → Type 0)
      → ((s : Fingerprint) → in_feed requester unfiltered since s ≡ true → P s → Q (sync_columns s))
      → All P db.fingerprints
      → All Q rows
  unfolding feed
  feed-All P Q f a =
      All-map (λ s. (in_feed requester unfiltered since s ≡ true) × P s) Q sync_columns
        (λ s h. f s h.0 h.1) _
        (All-order_by (λ r. r.sync_seq) (λ s. (in_feed requester unfiltered since s ≡ true) × P s) _
          (All-and (λ s. in_feed requester unfiltered since s ≡ true) P _
            (All-select_holds (in_feed requester unfiltered since) db.fingerprints)
            (All-select P (in_feed requester unfiltered since) db.fingerprints a)))

-- The row that an id finds is the only one with it.
pub unique_found :
    (k : ℕ) (rows : List Fingerprint) (r : Fingerprint)
    → Pairwise Differ rows
    → fetch_one (has_id k) rows ≡ some r
    → All (λ s. s.id ≡ k → s ≡ r) rows
unique_found k rows r d h =
    All-imp
      (λ s e i. some-injective s r (sym (subst (λ j. fetch_one (has_id j) rows ≡ some s) i e) ∙ h))
      rows (find_self rows d)

exists-select :
    (p q : Fingerprint → Bool) (xs : List Fingerprint) (x : Fingerprint)
    → fetch_one p xs ≡ some x
    → q x ≡ true
    → exists p (select q xs) ≡ true
unfolding exists select fetch_one
exists-select p q [] x h e = cc
exists-select p q (y ∷ xs) x h e = ground (arith, exists-select p q xs x, e)

exists_in_feed :
    (requester since : ℕ) (db : Db) (id : ℕ) (r : Fingerprint)
    → fetch_one (has_id id) db.fingerprints ≡ some r
    → in_feed requester unfiltered since r ≡ true
    → exists (λ p. p.id == id) (feed requester unfiltered since db) ≡ true
unfolding feed sync_columns has_id
exists_in_feed requester since db id r h e =
    exists-map (λ p. p.id == id) sync_columns
      (order_by (λ r. r.sync_seq) (select (in_feed requester unfiltered since) db.fingerprints))
    ∙ exists-order_by (λ r. r.sync_seq) (has_id id)
        (select (in_feed requester unfiltered since) db.fingerprints)
    ∙ exists-select (has_id id) (in_feed requester unfiltered since) db.fingerprints r h e

module _ (requester since : ℕ) (db : Db) (v : IsValid db) (id : ℕ) where
  -- A row that is in the feed has its record there, and no other record has its id.
  pub feed_met :
      (r : Fingerprint)
      → fetch_one (has_id id) db.fingerprints ≡ some r
      → in_feed requester unfiltered since r ≡ true
      → All (λ p. p.id ≡ id → p ≡ sync_columns r) (rows requester since db)
        × (exists (λ p. p.id == id) (rows requester since db) ≡ true)
  feed_met r h e = (
    feed-All requester since db (λ s. s.id ≡ id → s ≡ r) (λ p. p.id ≡ id → p ≡ sync_columns r)
        (λ s _ u i. ap sync_columns (u (unfold sync_columns in i)))
        (unique_found id db.fingerprints r v.distinct_rows h),
    exists_in_feed requester since db id r h e,
  )

  pub feed_missed :
      ((r : Fingerprint)
        → fetch_one (has_id id) db.fingerprints ≡ some r
        → in_feed requester unfiltered since r ≡ false)
      → All (λ p. p.id ≢ id) (rows requester since db)
  feed_missed h = elim (Option-cases (fetch_one (has_id id) db.fingerprints)) [
    | inl f ↦
        feed-All requester since db (λ s. s.id ≢ id) (λ p. p.id ≢ id)
          (λ s _ u. unfold sync_columns in u)
          (All-imp (λ s k. has_id-ne id s k) db.fingerprints (absent f))
    | inr (r, f) ↦
        feed-All requester since db (λ s. s.id ≡ id → s ≡ r) (λ p. p.id ≢ id)
          (λ s e u i. let k : s ≡ r = u (unfold sync_columns in i) in cc (k, e, h r f))
          (unique_found id db.fingerprints r v.distinct_rows f)
  ]
    where
      absent :
          fetch_one (has_id id) db.fingerprints ≡ none
          → All (λ s. has_id id s ≡ false) db.fingerprints
      absent f =
          not_exists_all (has_id id) db.fingerprints
            (not_exists_of_none (has_id id) db.fingerprints f)

select_empty {ℓ} :
    {A : Type ℓ} (p : A → Bool) (xs : List A) → select p xs ≡ [] → All (λ x. p x ≡ false) xs
unfolding select
select_empty p [] h = tt
select_empty p (x ∷ xs) h = elim (Bool-cases (p x)) [
  | inl e ↦ absurd (ground arith)
  | inr e ↦ (e, select_empty p xs (ground arith))
]

map_empty {ℓ κ} : {A : Type ℓ} {B : Type κ} (f : A → B) (xs : List A) → map f xs ≡ [] → xs ≡ []
map_empty f [] h = refl
map_empty f (x ∷ xs) h = cc

-- Where the feed is empty, no row is in it.
pub feed_empty :
    (requester since : ℕ) (db : Db)
    → feed requester unfiltered since db ≡ []
    → All (λ r. in_feed requester unfiltered since r ≡ false) db.fingerprints
unfolding feed
feed_empty requester since db h =
    select_empty (in_feed requester unfiltered since) db.fingerprints
      (order_by_empty (λ r. r.sync_seq) _ (map_empty sync_columns _ h))

pub last_seq-lt :
    (since : ℕ) (rows : List PeerRecord) (n : ℕ)
    → since < n
    → All (λ r. r.sync_seq < n) rows
    → last_seq since rows < n
unfolding last_seq
last_seq-lt since [] n h a = h
last_seq-lt since (r ∷ rows) n h a = last_seq-lt r.sync_seq rows n a.0 a.1
