-- ===== src/Store/Feed/Replica.antt =====
-- The client of docs/API.md: it keeps the active rows of its peers by id, applies each record of
-- the feed, and drops what comes hidden or deleted.
use fingerprint_hub.Prelude.{
  ℕ, ◌≡◌, ◌≢◌, refl, ap, ◌∙◌, ◌⊎◌, true, false, Option, none, some, List, [], ◌∷◌, arith, All,
  Bool-cases, inl, inr, if◌then◌else◌, ◌==◌,
}
use mathlib.Core.List.{foldl}
use fingerprint_hub.Schema.{is_active, Fingerprint, Db}
use fingerprint_hub.Store.Keys.{has_id}
use fingerprint_hub.Store.Feed.{PeerRecord, sync_columns, Triple}
use fingerprint_hub.Sql.{fetch_one, exists}

abbrev pub Cache : Type 0
Cache = ℕ → Option PeerRecord

abbrev pub keep : PeerRecord → Option PeerRecord
keep r = if is_active r.status then some r else none

unfoldable pub apply_record : Cache → PeerRecord → Cache
apply_record cache r id = if r.id == id then keep r else cache id

unfoldable pub apply_feed : Cache → List PeerRecord → Cache
unfolding apply_record
apply_feed = foldl apply_record

-- No compatibility filter.
abbrev pub unfiltered : Triple
unfiltered = record { algorithm = none; algorithm_version = none; normalization_version = none }

-- What the cache should hold: the active rows of the others.
unfoldable pub shared : ℕ → Option Fingerprint → Option PeerRecord
unfolding sync_columns
shared requester none = none
shared requester (some r) = if r.consumer_id == requester then none else keep (sync_columns r)

unfoldable pub peer_view : ℕ → Db → Cache
unfolding shared fetch_one has_id
peer_view requester db id = shared requester (fetch_one (has_id id) db.fingerprints)

pub apply_missed :
    (cache : Cache) (rows : List PeerRecord) (id : ℕ)
    → All (λ r. r.id ≢ id) rows
    → apply_feed cache rows id ≡ cache id
unfolding apply_feed
apply_missed cache [] id h = refl
apply_missed cache (r ∷ rows) id h =
    apply_missed (apply_record cache r) rows id h.1 ∙ ground (arith, h.0)

-- All records of an id are one record, and that is what the cache holds once it was applied.
apply_settled :
    (cache : Cache) (rows : List PeerRecord) (id : ℕ) (p : PeerRecord)
    → All (λ r. r.id ≡ id → r ≡ p) rows
    → cache id ≡ keep p
    → apply_feed cache rows id ≡ keep p
unfolding apply_feed
apply_settled cache [] id p h e = e
apply_settled cache (r ∷ rows) id p h e =
    apply_settled (apply_record cache r) rows id p h.1 (applied (Bool-cases (r.id == id)))
  where
    applied : ((r.id == id) ≡ true) ⊎ ((r.id == id) ≡ false) → apply_record cache r id ≡ keep p
    applied (inl f) = rw (f, apply_record) (ap keep (h.0 (ground arith)))
    applied (inr f) = rw (f, apply_record) e

pub apply_met :
    (cache : Cache) (rows : List PeerRecord) (id : ℕ) (p : PeerRecord)
    → All (λ r. r.id ≡ id → r ≡ p) rows
    → exists (λ r. r.id == id) rows ≡ true
    → apply_feed cache rows id ≡ keep p
unfolding apply_feed exists
apply_met cache [] id p h e = cc
apply_met cache (r ∷ rows) id p h e = elim (Bool-cases (r.id == id)) [
  | inl f ↦
      unfold apply_feed in
      apply_settled (apply_record cache r) rows id p h.1
        (rw (f, apply_record) (ap keep (h.0 (ground arith))))
  | inr f ↦ apply_met (apply_record cache r) rows id p h.1 (ground arith)
]
