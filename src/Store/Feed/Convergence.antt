-- ===== src/Store/Feed/Convergence.antt =====
-- A client that pulls and applies the feed converges to the rows that its peers share.
use fingerprint_hub.Prelude.{
  ℕ, ◌≤◌, ◌<◌, ◌≡◌, ◌≢◌, refl, sym, ap, ◌∙◌, subst, true, false, none, some, List, arith, All,
  All-imp, Bool-cases, Option-cases, inl, inr, if◌then◌else◌, ◌==◌,
}
use mathlib.Core.Option.{some-injective}
use mathlib.Core.Path.{ap₂}
use fingerprint_hub.Schema.{Fingerprint, Db}
use fingerprint_hub.Store.Keys.{has_id}
use fingerprint_hub.Store.Feed.{PeerRecord, sync_columns, in_feed, feed, last_seq}
use fingerprint_hub.Store.Feed.Paging.{feed_done}
use fingerprint_hub.Store.Feed.Replica.{
  Cache, keep, apply_feed, unfiltered, shared, peer_view, apply_missed, apply_met,
}
use fingerprint_hub.Store.Feed.Records.{
  in_feed_iff, feed-All, feed_met, feed_missed, feed_empty, last_seq-lt,
}
use fingerprint_hub.Store.Validity.{IsValid}
use fingerprint_hub.Store.Freshness.{IsNew, IsFresh, Follows, found-id}
use fingerprint_hub.Sql.{fetch_one, exists}
use fingerprint_hub.Sql.Rows.{fetch_one-All, not_exists, fetch_one-none, not_exists_of_none}

-- The cache holds what the peers share, and everything that they have is at or below the cursor.
pub record InSync (requester : ℕ) (cache : Cache) (cursor : ℕ) (db : Db) : Type 0 where
  pub view : (id : ℕ) → cache id ≡ peer_view requester db id
  pub seen : All (λ r. r.consumer_id ≢ requester → r.sync_seq ≤ cursor) db.fingerprints
  pub below : cursor < db.next_sync_seq

shared_own :
    (requester : ℕ) (r : Fingerprint) → r.consumer_id ≡ requester → shared requester (some r) ≡ none
unfolding shared
shared_own requester r e = ground arith

shared_other :
    (requester : ℕ) (r : Fingerprint)
    → r.consumer_id ≢ requester
    → shared requester (some r) ≡ keep (sync_columns r)
unfolding shared
shared_other requester r e = ground arith

shared_same :
    (requester : ℕ) (r s : Fingerprint)
    → r.consumer_id ≡ s.consumer_id
    → sync_columns r ≡ sync_columns s
    → shared requester (some r) ≡ shared requester (some s)
unfolding shared
shared_same requester r s o e =
    ap₂ (λ c p. if c == requester then none else keep p) o (unfold sync_columns in e)

module _ (requester since : ℕ) (cache : Cache) (db db' : Db) (v : IsValid db) (v' : IsValid db')
    (f : Follows db db') (now : InSync requester cache since db) where
  abbrev fresh : List PeerRecord
  fresh = feed requester unfiltered since db'

  found_before :
      (id : ℕ) (r row : Fingerprint)
      → fetch_one (has_id id) db'.fingerprints ≡ some r
      → fetch_one (has_id r.id) db.fingerprints ≡ some row
      → peer_view requester db id ≡ shared requester (some row)
  unfolding peer_view
  found_before id r row h w = ap (shared requester) (
      subst (λ i. fetch_one (has_id i) db.fingerprints ≡ some row)
        (found-id id db'.fingerprints r h) w)

  not_before :
      (id : ℕ) (r : Fingerprint)
      → fetch_one (has_id id) db'.fingerprints ≡ some r
      → IsNew db r
      → peer_view requester db id ≡ none
  unfolding peer_view
  not_before id r h n =
      rw
        (fetch_one-none (has_id id) db.fingerprints (
          not_exists (has_id id) db.fingerprints (
            All-imp
              (λ s k.
                below_new s (omega (arith, k.id_below, n.new_id, found-id id db'.fingerprints r h)))
              db.fingerprints v.rows)))
        (unfold shared in refl)
    where
      below_new : (s : Fingerprint) → s.id ≢ id → has_id id s ≡ false
      below_new s k = unfold has_id in ground arith

  -- A row of the client's own was its own before, if it was there.
  own_before :
      (id : ℕ) (r : Fingerprint)
      → fetch_one (has_id id) db'.fingerprints ≡ some r
      → IsFresh db r
      → r.consumer_id ≡ requester
      → peer_view requester db id ≡ none
  own_before id r h (inl n) e = not_before id r h n
  own_before id r h (inr (inl n)) e =
      found_before id r n.owned.row h n.owned.found
      ∙ shared_own requester n.owned.row (n.owned.owner ∙ e)
  own_before id r h (inr (inr w)) e =
      found_before id r w.row h w.found ∙ shared_own requester w.row (w.owner ∙ e)

  -- A row that the cursor has passed is as it was.
  passed_before :
      (id : ℕ) (r : Fingerprint)
      → fetch_one (has_id id) db'.fingerprints ≡ some r
      → IsFresh db r
      → r.sync_seq ≤ since
      → peer_view requester db id ≡ shared requester (some r)
  passed_before id r h (inl n) e = absurd (omega (arith, n.new_seq, now.below))
  passed_before id r h (inr (inl n)) e = absurd (omega (arith, n.new_seq, now.below))
  passed_before id r h (inr (inr w)) e =
      found_before id r w.row h w.found ∙ shared_same requester w.row r w.owner w.columns

  missed_view :
      (id : ℕ) (r : Fingerprint)
      → fetch_one (has_id id) db'.fingerprints ≡ some r
      → in_feed requester unfiltered since r ≡ false
      → peer_view requester db id ≡ shared requester (some r)
  missed_view id r h e =
      let fresh : IsFresh db r = fetch_one-All (IsFresh db) (has_id id) db'.fingerprints h f.rows in
      elim (Bool-cases (r.consumer_id == requester)) [
        | inl o ↦
            own_before id r h fresh (ground arith) ∙ sym (shared_own requester r (ground arith))
        | inr o ↦ passed_before id r h fresh (ground (arith, in_feed_iff requester since r))
      ]

  module _
      (kept : (id : ℕ) (r : PeerRecord)
        → peer_view requester db id ≡ some r
        → exists (has_id id) db'.fingerprints ≡ true) where
    gone_view :
        (id : ℕ) → fetch_one (has_id id) db'.fingerprints ≡ none → peer_view requester db id ≡ none
    gone_view id h = elim (Option-cases (peer_view requester db id)) [
      | inl e ↦ e
      | inr (r, e) ↦ absurd (cc (kept id r e, not_exists_of_none (has_id id) db'.fingerprints h))
    ]

    converges_at : (id : ℕ) → apply_feed cache fresh id ≡ peer_view requester db' id
    unfolding peer_view
    converges_at id = elim (Option-cases (fetch_one (has_id id) db'.fingerprints)) [
      | inl h ↦ rw h (
          apply_missed cache fresh id (feed_missed requester since db' v' id (λ r k. cc (h, k)))
          ∙ now.view id
          ∙ gone_view id h
          ∙ unfold shared in refl)
      | inr (r, h) ↦ elim (Bool-cases (in_feed requester unfiltered since r)) [
        | inl e ↦
            let (all, there) = feed_met requester since db' v' id r h e in
            rw h (
              apply_met cache fresh id (sync_columns r) all there
              ∙ sym (shared_other requester r (ground (arith, in_feed_iff requester since r))))
        | inr e ↦ rw h (
            apply_missed cache fresh id (
              feed_missed requester since db' v' id
                (λ s k. let i : r ≡ s = some-injective r s (sym h ∙ k) in rw (← i) e))
            ∙ now.view id
            ∙ missed_view id r h e)
      ]
    ]

-- From a client in sync with `db`, and any later database: the client pulls the feed after its cursor,
-- without a filter, applies it and moves the cursor to the last record. It is then in sync with the
-- later database: its cache is exactly the active rows of its peers, unless a row that it held has
-- been purged meanwhile.
pub apply_feed-InSync :
    (requester since : ℕ) (cache : Cache) (db db' : Db)
    → IsValid db
    → IsValid db'
    → Follows db db'
    → InSync requester cache since db
    → ((id : ℕ) (r : PeerRecord)
        → peer_view requester db id ≡ some r
        → exists (has_id id) db'.fingerprints ≡ true)
    → InSync requester
        (apply_feed cache (feed requester unfiltered since db'))
        (last_seq since (feed requester unfiltered since db'))
        db'
apply_feed-InSync requester since cache db db' v v' f now kept = record {
  view = converges_at requester since cache db db' v v' f now kept;
  seen =
      All-imp (λ r e o. unfold in_feed in ground (arith, e, o)) db'.fingerprints
        (feed_empty requester (last_seq since (feed requester unfiltered since db')) db'
          (feed_done requester unfiltered db' v' since));
  below =
      last_seq-lt since (feed requester unfiltered since db') db'.next_sync_seq
        (omega (arith, now.below, f.seq_grows))
        (feed-All requester since db' (λ r. r.sync_seq < db'.next_sync_seq)
          (λ p. p.sync_seq < db'.next_sync_seq) (λ s _ h. unfold sync_columns in h)
          (All-imp (λ r k. k.seq_below) db'.fingerprints v'.rows));
}
