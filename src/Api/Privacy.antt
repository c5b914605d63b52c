-- ===== src/Api/Privacy.antt =====
-- What an answer can depend on: of the rows of others, only the columns that peers share.
pub mod Listing
pub mod Endpoints
use fingerprint_hub.Prelude.{
  ℕ, suc, ◌+◌, ◌≡◌, ◌≢◌, ◌∙◌, refl, sym, ap, Str, codes, Option, none, some, Bool, true, false, not,
  ◌||◌, ◌&&◌, ◌==◌, List, [], ◌∷◌, map, take, drop, take-map, drop-map, reverse-map, length, arith,
  Bool-cases, Option-cases, inl, inr, if◌then◌else◌, Result, ok, raise, ◌>>=◌,
}
use mathlib.Core.Option as Option
use fingerprint_hub.Prelude.Int.{ℤ, pos, negsuc}
use fingerprint_hub.Cipher.{Cipher}
use fingerprint_hub.Schema.{Status, is_hidden, is_deleted, Consumer, Fingerprint, Db}
use fingerprint_hub.Sql.{fetch_one, select, order_by, update}
use fingerprint_hub.Sql.Rows.{select-update, length-map}
use fingerprint_hub.Store.Keys.{has_id}
use fingerprint_hub.Store.Feed.{Triple, sync_columns, in_feed, feed, sync}
use fingerprint_hub.Store.Browse as browse
use fingerprint_hub.Store.Effects.Unchanged.{feed-change, order_by-update}
use fingerprint_hub.Api.Messages.{Request, ServiceConfig, Reply, Detail, peer_detail, detail}
use fingerprint_hub.Api.Access.{has_scope}
use fingerprint_hub.Api.Views.{can_see_secrets, detail_fp, details}
use fingerprint_hub.Api.Reading.{
  read_sync, get_live, get_row, show, read_one, list_rows, show_rows, not_found,
}

-- The row as a consumer may know it: as it is for an admin and for its owner; for others, with
-- another owner, without secrets, times and counts.
abbrev pub blank : Consumer → Fingerprint → Fingerprint
blank consumer r = record r {
  consumer_id = suc consumer.id;
  source_guild_id = none;
  reason = none;
  source_url = none;
  added_at_ms = 0;
  updated_at_ms = 0;
  hit_count = 0;
  last_hit_at_ms = none;
  auto_added = false;
  provenance = [];
  flag_count = 0;
}

abbrev pub redact : Consumer → Fingerprint → Fingerprint
redact consumer r = if can_see_secrets consumer r then r else blank consumer r

-- The tables with every row redacted, without the hits and the flags.
abbrev pub redacted : Consumer → Db → Db
redacted consumer db = record db {
  fingerprints = map (redact consumer) db.fingerprints;
  hits = [];
  flags = [];
}

module _ (consumer : Consumer) where
  pub not_own : (r : Fingerprint) → can_see_secrets consumer r ≡ false → r.consumer_id ≢ consumer.id
  unfolding can_see_secrets
  not_own r h e = ground arith

  pub redact-columns : (r : Fingerprint) → sync_columns (redact consumer r) ≡ sync_columns r
  unfolding sync_columns
  redact-columns r = elim (Bool-cases (can_see_secrets consumer r)) [
    | inl e ↦ rw e refl
    | inr e ↦ rw e refl
  ]

  pub redact-in_feed :
      (t : Triple) (since : ℕ) (r : Fingerprint)
      → in_feed consumer.id t since (redact consumer r) ≡ in_feed consumer.id t since r
  unfolding in_feed
  redact-in_feed t since r = elim (Bool-cases (can_see_secrets consumer r)) [
    | inl e ↦ rw e refl
    | inr e ↦ rw e (ground (arith, not_own r e))
  ]

  pub feed-redacted :
      (t : Triple) (since : ℕ) (db : Db)
      → feed consumer.id t since (redacted consumer db) ≡ feed consumer.id t since db
  feed-redacted t since db =
      feed-change consumer.id since t (λ _. true) (redact consumer) db (redacted consumer db)
        (redact-in_feed t since) redact-columns (unfold update in refl)

  -- Only the columns of a row that stay decide whether and how it is shown.
  redact-see :
      (r : Fingerprint) → can_see_secrets consumer (redact consumer r) ≡ can_see_secrets consumer r
  redact-see r = elim (Bool-cases (can_see_secrets consumer r)) [
    | inl e ↦ rw e e
    | inr e ↦ rw e (blank-see e)
  ]
    where
      blank-see :
          can_see_secrets consumer r ≡ false → can_see_secrets consumer (blank consumer r) ≡ false
      blank-see e = unfold can_see_secrets in ground arith

  detail_fp_peer :
      (c : Cipher) (r : Fingerprint)
      → can_see_secrets consumer r ≡ false
      → detail_fp c consumer r ≡ ok (peer_detail (sync_columns r))
  detail_fp_peer c r e = unfold detail_fp in rw (e, detail_fp) refl

  pub detail_fp-redact :
      (c : Cipher) (r : Fingerprint)
      → detail_fp c consumer (redact consumer r) ≡ detail_fp c consumer r
  detail_fp-redact c r = elim (Bool-cases (can_see_secrets consumer r)) [
    | inl e ↦ ap (detail_fp c consumer) (rw e refl)
    | inr e ↦
        detail_fp_peer c (redact consumer r) (redact-see r ∙ e)
        ∙ ap (λ p. ok (peer_detail p)) (redact-columns r)
        ∙ sym (detail_fp_peer c r e)
  ]

  pub redact-status : (r : Fingerprint) → (redact consumer r).status ≡ r.status
  redact-status r = unfold sync_columns in ap (λ p. p.status) (redact-columns r)

  abbrev shown : Status → Bool → Result Detail → Result Reply
  shown s sees d = if is_hidden s && not sees then ok not_found else d >>= (λ a. ok (detail a))

  show_parts :
      (c : Cipher) (r : Fingerprint)
      → show c consumer r ≡ shown r.status (can_see_secrets consumer r) (detail_fp c consumer r)
  unfolding show
  show_parts c r = refl

  pub show-redact :
      (c : Cipher) (r : Fingerprint) → show c consumer (redact consumer r) ≡ show c consumer r
  show-redact c r =
      show_parts c (redact consumer r)
      ∙ rw (redact-status r, redact-see r, detail_fp-redact c r) refl
      ∙ sym (show_parts c r)

  -- The row of an id is the redacted row of that id.
  redact-id : (id : ℕ) (r : Fingerprint) → has_id id (redact consumer r) ≡ has_id id r
  redact-id id r =
      let same : (redact consumer r).id ≡ r.id =
        unfold sync_columns in ap (λ p. p.id) (redact-columns r) in
      unfold has_id in rw same refl

  fetch_one-redact :
      (id : ℕ) (rows : List Fingerprint)
      → fetch_one (has_id id) (map (redact consumer) rows)
        ≡ Option.map (redact consumer) (fetch_one (has_id id) rows)
  unfolding fetch_one
  fetch_one-redact id [] = refl
  fetch_one-redact id (r ∷ rows) = elim (Bool-cases (has_id id r)) [
    | inl e ↦ rw (redact-id id r, e) refl
    | inr e ↦ rw (redact-id id r, e) (fetch_one-redact id rows)
  ]

  abbrev live_of : Option Fingerprint → Option Fingerprint
  live_of none = none
  live_of (some r) = if is_deleted r.status then none else some r

  get_live_pos :
      (n : ℕ) (db : Db) → get_live (pos n) db ≡ live_of (fetch_one (has_id n) db.fingerprints)
  unfolding get_live get_row browse.get
  get_live_pos n db = elim (Option-cases (fetch_one (has_id n) db.fingerprints)) [
    | inl e ↦ rw (e, get_live, get_row, browse.get) refl
    | inr (r, e) ↦ rw (e, get_live, get_row, browse.get) refl
  ]

  live_of-redact :
      (o : Option Fingerprint)
      → live_of (Option.map (redact consumer) o) ≡ Option.map (redact consumer) (live_of o)
  live_of-redact none = refl
  live_of-redact (some r) = elim (Bool-cases (is_deleted r.status)) [
    | inl f ↦ rw (redact-status r, f) refl
    | inr f ↦ rw (redact-status r, f) refl
  ]

  pub get_live-redact :
      (id : ℤ) (db : Db)
      → get_live id (redacted consumer db) ≡ Option.map (redact consumer) (get_live id db)
  get_live-redact (negsuc n) db = unfold get_live get_row in refl
  get_live-redact (pos n) db =
      get_live_pos n (redacted consumer db)
      ∙ ap live_of (fetch_one-redact n db.fingerprints)
      ∙ live_of-redact (fetch_one (has_id n) db.fingerprints)
      ∙ ap (Option.map (redact consumer)) (sym (get_live_pos n db))

  -- The statement of the list.
  pub details-redact :
      (c : Cipher) (rows : List Fingerprint)
      → details c consumer (map (redact consumer) rows) ≡ details c consumer rows
  unfolding details
  details-redact c [] = refl
  details-redact c (r ∷ rows) = rw (detail_fp-redact c r, details-redact c rows) refl
