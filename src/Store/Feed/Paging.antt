-- ===== src/Store/Feed/Paging.antt =====
-- The pages of `sync`: what one page holds, and that a client which follows `next_since` while
-- `has_more` receives the whole feed, each row once and in order.
use fingerprint_hub.Prelude.{
  ℕ, ltb→lt, take-take-suc, take_all, Pairwise-imp, zero, suc, ◌+◌, ◌≤◌, ◌<◌, ◌≡◌, ◌≢◌, refl, sym,
  ap, ◌∙◌, Bool, true, ◌&&◌, List, [], ◌∷◌, ◌++◌, arith, map, ltb, length, take, drop, length-take,
  All, All-imp, All_all, Pairwise, Pairwise-map, if◌then◌else◌,
}
use native.Mathlib.Numerals.{add-one}
use fingerprint_hub.Schema.{Fingerprint, Db}
use fingerprint_hub.Store.Feed.{
  PeerRecord, sync_columns, Triple, visible, in_feed, feed, last_seq, Page, cut_page, sync,
}
use fingerprint_hub.Store.Validity.{IsValid, Differ}
use fingerprint_hub.Sql.{select, order_by}
use fingerprint_hub.Sql.Rows.{select-map, Pairwise-select, All-select_holds, select-select_imp}
use fingerprint_hub.Sql.Order.{
  order_by-IsSorted, Pairwise-order_by, select-order_by, strictly_sorted,
}

-- All that the requester may ever see, in the order of the feed.
unfoldable pub catalog : ℕ → Triple → Db → List PeerRecord
catalog requester t db =
    map sync_columns (order_by (λ r. r.sync_seq) (select (visible requester t) db.fingerprints))

abbrev pub after : ℕ → PeerRecord → Bool
after since r = ltb since r.sync_seq

abbrev pub IsStrict : List PeerRecord → Type 0
IsStrict = Pairwise (λ r s. r.sync_seq < s.sync_seq)

select-and {ℓ} :
    {A : Type ℓ} (p q : A → Bool) (xs : List A)
    → select (λ x. p x && q x) xs ≡ select p (select q xs)
unfolding select
select-and p q [] = refl
select-and p q (x ∷ xs) = ground (arith, select-and p q xs)

-- The feed after a cursor is the rest of the catalog.
pub feed-catalog :
    (requester : ℕ) (t : Triple) (since : ℕ) (db : Db)
    → feed requester t since db ≡ select (after since) (catalog requester t db)
unfolding feed catalog in_feed
feed-catalog requester t since db =
    ap (λ xs. map sync_columns (order_by (λ r. r.sync_seq) xs))
      (select-and (λ r. ltb since r.sync_seq) (visible requester t) db.fingerprints)
    ∙ ap (map sync_columns) (
        sym (
          select-order_by (λ r. r.sync_seq) (λ r. ltb since r.sync_seq)
            (select (visible requester t) db.fingerprints)))
    ∙ sym (
        select-map (after since) sync_columns
          (order_by (λ r. r.sync_seq) (select (visible requester t) db.fingerprints)))

pub catalog-IsStrict :
    (requester : ℕ) (t : Triple) (db : Db) → IsValid db → IsStrict (catalog requester t db)
unfolding catalog
catalog-IsStrict requester t db v =
    Pairwise-map (λ r. Unit {0}) (λ r s. r.sync_seq < s.sync_seq) (λ r s. r.sync_seq < s.sync_seq)
      sync_columns (λ r s _ _ h. unfold sync_columns in h) rows
      (All_all (λ r. Unit {0}) (λ r. tt) rows)
      (strictly_sorted (λ r. r.sync_seq) rows
        (order_by-IsSorted (λ r. r.sync_seq) (select (visible requester t) db.fingerprints))
        (Pairwise-order_by (λ r. r.sync_seq) (λ r s. r.sync_seq ≢ s.sync_seq) (λ r s h e. h (sym e))
          _
          (Pairwise-select (λ r s. r.sync_seq ≢ s.sync_seq) (visible requester t) db.fingerprints
            (Pairwise-imp Differ (λ r s. r.sync_seq ≢ s.sync_seq) (λ r s d. d.seqs) db.fingerprints
              v.distinct_rows))))
  where
    rows : List Fingerprint
    rows = order_by (λ r. r.sync_seq) (select (visible requester t) db.fingerprints)

drop_all {ℓ} : {A : Type ℓ} (xs : List A) → drop (length xs) xs ≡ []
drop_all [] = refl
drop_all (x ∷ xs) = drop_all xs

last_seq-ge :
    (since n : ℕ) (rows : List PeerRecord)
    → All (λ r. since < r.sync_seq) rows
    → IsStrict rows
    → since ≤ last_seq since (take n rows)
unfolding last_seq
last_seq-ge since zero rows a s = omega arith
last_seq-ge since (suc n) [] a s = omega arith
last_seq-ge since (suc n) (r ∷ rows) a s = omega (arith, a.0, last_seq-ge r.sync_seq n rows s.0 s.1)

select_all {ℓ} :
    {A : Type ℓ} (p : A → Bool) (xs : List A) → All (λ x. p x ≡ true) xs → select p xs ≡ xs
unfolding select
select_all p [] h = refl
select_all p (x ∷ xs) h = ground (arith, h.0, select_all p xs h.1)

-- Of rows in strict order, those after the last of a page are those that the page left.
after_page :
    (since n : ℕ) (rows : List PeerRecord)
    → All (λ r. since < r.sync_seq) rows
    → IsStrict rows
    → select (after (last_seq since (take n rows))) rows ≡ drop n rows
unfolding last_seq select
after_page since zero rows a s =
    select_all (after since) rows (All-imp (λ r h. ground (arith, h)) rows a)
after_page since (suc n) [] a s = refl
after_page since (suc n) (r ∷ rows) a s =
    ground (arith, last_seq-ge r.sync_seq n rows s.0 s.1, after_page r.sync_seq n rows s.0 s.1)

module _ (requester : ℕ) (t : Triple) (db : Db) (v : IsValid db) where
  pub feed-after : (since : ℕ) → All (λ r. since < r.sync_seq) (feed requester t since db)
  feed-after since = rw (feed-catalog requester t since db) (
      All-imp (λ r h. ltb→lt since r.sync_seq h) _
        (All-select_holds (after since) (catalog requester t db)))

  pub feed-IsStrict : (since : ℕ) → IsStrict (feed requester t since db)
  feed-IsStrict since = rw (feed-catalog requester t since db) (
      Pairwise-select (λ r s. r.sync_seq < s.sync_seq) (after since) (catalog requester t db)
        (catalog-IsStrict requester t db v))

  feed-later :
      (since next : ℕ)
      → since ≤ next
      → feed requester t next db ≡ select (after next) (feed requester t since db)
  feed-later since next le =
      feed-catalog requester t next db
      ∙ sym (
          ap (select (after next)) (feed-catalog requester t since db)
          ∙ select-select_imp (after next) (after since) (catalog requester t db)
              (λ r h. ground arith))

  -- After the last record of the feed there is none.
  pub feed_done :
      (since : ℕ) → feed requester t (last_seq since (feed requester t since db)) db ≡ []
  feed_done since = rw (← take_all n (feed requester t since db) (omega arith)) (
      feed-later since (last_seq since (take n (feed requester t since db)))
        (last_seq-ge since n _ (feed-after since) (feed-IsStrict since))
      ∙ after_page since n _ (feed-after since) (feed-IsStrict since)
      ∙ drop_all (feed requester t since db))
    where
      n : ℕ
      n = length (feed requester t since db)

  module _ (since limit : ℕ) where
    abbrev page : Page
    page = sync requester since limit t db

    -- A page holds the first `limit` records of the feed, which come in strict order of `sync_seq` and
    -- all after the cursor; `has_more` says whether there are more; the cursor does not go back; and the
    -- feed after `next_since` is exactly what the page left.
    pub sync_page :
        (page.rows ≡ take limit (feed requester t since db))
        × (page.has_more ≡ ltb limit (length (feed requester t since db)))
        × (feed requester t page.next_since db ≡ drop limit (feed requester t since db))
        × (since ≤ page.next_since)
        × IsStrict (feed requester t since db)
        × All (λ r. since < r.sync_seq) (feed requester t since db)
    unfolding sync cut_page
    sync_page = (
      cut,
      ground (arith, length-take (limit + 1) (feed requester t since db)),
      rw cut (
          feed-later since _ (last_seq-ge since limit _ (feed-after since) (feed-IsStrict since))
          ∙ after_page since limit _ (feed-after since) (feed-IsStrict since)),
      rw cut (last_seq-ge since limit _ (feed-after since) (feed-IsStrict since)),
      feed-IsStrict since,
      feed-after since,
    )
      where
        cut :
            take limit (take (limit + 1) (feed requester t since db))
            ≡ take limit (feed requester t since db)
        cut = rw add-one (take-take-suc limit (feed requester t since db))

-- The client of the documentation: request a page, and again from `next_since` while `has_more`.
unfoldable pub pull : ℕ → ℕ → ℕ → ℕ → Triple → Db → List PeerRecord
pull zero requester since limit t db = []
pull (suc fuel) requester since limit t db =
    let page = sync requester since limit t db in
    let rest = pull fuel requester page.next_since limit t db in
    page.rows ++ (if page.has_more then rest else [])
