-- ===== src/Store/Effects/Unchanged.antt =====
-- Statements that leave the columns of the feed alone leave every feed alone.
use fingerprint_hub.Prelude.{ℕ, ◌≡◌, refl, ap, ◌∙◌, Bool, List, [], ◌∷◌, arith, map, if◌then◌else◌}
use fingerprint_hub.Schema.{Fingerprint, Db}
use fingerprint_hub.Store.Feed.{sync_columns, Triple, in_feed, feed}
use fingerprint_hub.Sql.{select, update, insert_by, order_by}
use fingerprint_hub.Sql.Rows.{select-update}

map-update {ℓ κ} :
    {A : Type ℓ} {B : Type κ} (f : A → B) (p : A → Bool) (g : A → A) (xs : List A)
    → ((x : A) → f (g x) ≡ f x)
    → map f (update p g xs) ≡ map f xs
unfolding update
map-update f p g [] h = refl
map-update f p g (x ∷ xs) h = ground (arith, h x, map-update f p g xs h)

module _ {ℓ} {A : Type ℓ} (key : A → ℕ) (p : A → Bool) (g : A → A)
    (h : (x : A) → key (g x) ≡ key x) where
  insert_by-update :
      (x : A) (ys : List A)
      → insert_by key (if p x then g x else x) (update p g ys) ≡ update p g (insert_by key x ys)
  unfolding insert_by update
  insert_by-update x [] = ground arith
  insert_by-update x (y ∷ ys) = ground (arith, h x, h y, insert_by-update x ys)

  pub order_by-update : (xs : List A) → order_by key (update p g xs) ≡ update p g (order_by key xs)
  unfolding order_by update
  order_by-update [] = refl
  order_by-update (x ∷ xs) =
      ap (insert_by key (if p x then g x else x)) (order_by-update xs)
      ∙ insert_by-update x (order_by key xs)

-- The feed reads only the columns that it returns, and the owner.
in_feed-columns :
    (requester since : ℕ) (t : Triple) (r s : Fingerprint)
    → r.consumer_id ≡ s.consumer_id
    → sync_columns r ≡ sync_columns s
    → in_feed requester t since r ≡ in_feed requester t since s
unfolding in_feed sync_columns
in_feed-columns requester since t r s o e = ground (arith, o, e)

-- A change of columns that the feed and its condition do not read.
pub feed-change :
    (requester since : ℕ) (t : Triple) (p : Fingerprint → Bool) (g : Fingerprint → Fingerprint)
    (db db' : Db)
    → ((r : Fingerprint) → in_feed requester t since (g r) ≡ in_feed requester t since r)
    → ((r : Fingerprint) → sync_columns (g r) ≡ sync_columns r)
    → db'.fingerprints ≡ update p g db.fingerprints
    → feed requester t since db' ≡ feed requester t since db
unfolding feed
feed-change requester since t p g db db' o e h =
    ap (λ rs. map sync_columns (order_by (λ r. r.sync_seq) (select (in_feed requester t since) rs)))
      h
    ∙ ap (λ rs. map sync_columns (order_by (λ r. r.sync_seq) rs))
        (select-update p (in_feed requester t since) g db.fingerprints o)
    ∙ ap (map sync_columns) (
        order_by-update (λ r. r.sync_seq) p g (λ r. seq_of r)
          (select (in_feed requester t since) db.fingerprints))
    ∙ map-update sync_columns p g
        (order_by (λ r. r.sync_seq) (select (in_feed requester t since) db.fingerprints)) e
  where
    seq_of : (r : Fingerprint) → (g r).sync_seq ≡ r.sync_seq
    seq_of r = unfold sync_columns in ground (arith, e r)

pub feed-update :
    (requester since : ℕ) (t : Triple) (p : Fingerprint → Bool) (g : Fingerprint → Fingerprint)
    (db db' : Db)
    → ((r : Fingerprint) → (g r).consumer_id ≡ r.consumer_id)
    → ((r : Fingerprint) → sync_columns (g r) ≡ sync_columns r)
    → db'.fingerprints ≡ update p g db.fingerprints
    → feed requester t since db' ≡ feed requester t since db
feed-update requester since t p g db db' o e h =
    feed-change requester since t p g db db'
      (λ r. in_feed-columns requester since t (g r) r (o r) (e r)) e h
