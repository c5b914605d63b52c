-- ===== src/Store/Effects/Hitting.antt =====
-- `report_hit`: the count, the row and the feeds.
use fingerprint_hub.Prelude.{
  ℕ, ◌+◌, ◌∙◌, ◌≡◌, refl, Str, Option, some, true, false, List, [], ◌∷◌, ◌++◌, Bool-cases, inl, inr,
  ok,
}
use fingerprint_hub.Prelude.Int.{ℤ}
use fingerprint_hub.Cipher.{Cipher}
use fingerprint_hub.Schema.{is_deleted, Fingerprint, Db}
use fingerprint_hub.Store.Keys.{has_id}
use fingerprint_hub.Store.Hits.{counted, fits_integer, hit_count_of, record_hit, report_hit}
use fingerprint_hub.Store.Hits.Branches.{report_hit_branches}
use fingerprint_hub.Store.Feed.{Triple, feed, sync_columns}
use fingerprint_hub.Store.Effects.Unchanged.{feed-update}
use fingerprint_hub.Sql.{fetch_one, update}
use fingerprint_hub.Sql.Rows.{fetch_one-update, fetch_one_holds}

has_id-counted : (id now_ms : ℕ) (r : Fingerprint) → has_id id (counted now_ms r) ≡ has_id id r
unfolding has_id counted
has_id-counted id now_ms r = refl

module _ (c : Cipher) (nonce : List ℕ) (id consumer_id : ℕ) (guild_id : Option Str)
    (distance : Option ℤ) (now_ms : ℕ) (db : Db) where
  abbrev hit_state : Db
  hit_state = (report_hit c nonce id consumer_id guild_id distance now_ms db).1

  record_hit-found :
      (fp : Fingerprint) (guild : Option Str)
      → fetch_one (has_id id) db.fingerprints ≡ some fp
      → fits_integer distance ≡ true
      → ((record_hit id consumer_id guild distance now_ms db).0 ≡ ok (some (fp.hit_count + 1)))
        × (fetch_one (has_id id) (record_hit id consumer_id guild distance now_ms db).1.fingerprints
            ≡ some (counted now_ms fp))
        × ((record_hit id consumer_id guild distance now_ms db).1.hits
            ≡ db.hits
              ++ record {
                fingerprint_id = id;
                consumer_id = consumer_id;
                guild_id = guild;
                distance = distance;
                hit_at_ms = now_ms;
              }
                ∷ [])
  unfolding record_hit hit_count_of
  record_hit-found fp guild h fits =
      let u : fetch_one (has_id id) (update (has_id id) (counted now_ms) db.fingerprints)
          ≡ some (counted now_ms fp) =
        fetch_one-update (has_id id) (has_id id) (counted now_ms) db.fingerprints fp
          (has_id-counted id now_ms) h
        ∙ rw (fetch_one_holds (has_id id) db.fingerprints fp h) refl in
      (rw (fits, u, hit_count_of) refl, rw fits u, rw fits refl)

  -- A hit on a row that is there and not deleted, with a distance that the column can hold: the new
  -- count is one more than the old one, the row has that count and the time of the hit and is otherwise
  -- as it was, and one hit is recorded, whose location is what `encrypt` made of the one that was sent.
  pub report_hit-found :
      (fp : Fingerprint) (guild : Option Str)
      → fetch_one (has_id id) db.fingerprints ≡ some fp
      → is_deleted fp.status ≡ false
      → fits_integer distance ≡ true
      → c.encrypt nonce guild_id ≡ ok guild
      → ((report_hit c nonce id consumer_id guild_id distance now_ms db).0
          ≡ ok (some (fp.hit_count + 1)))
        × (fetch_one (has_id id) hit_state.fingerprints
            ≡ some (record fp { hit_count = fp.hit_count + 1; last_hit_at_ms = some now_ms }))
        × (hit_state.hits
            ≡ db.hits
              ++ record {
                fingerprint_id = id;
                consumer_id = consumer_id;
                guild_id = guild;
                distance = distance;
                hit_at_ms = now_ms;
              }
                ∷ [])
  report_hit-found fp guild h live fits e =
      let (a, b, d) = record_hit-found fp guild h fits in
      let same : report_hit c nonce id consumer_id guild_id distance now_ms db
          ≡ record_hit id consumer_id guild distance now_ms db =
        unfold report_hit in rw (h, report_hit, live, e) refl in
      unfold counted in rw (same, hit_state) (a, b, d)

  -- No hit changes what any consumer sees in the feed from any cursor, under any filter; a hit on a
  -- missing or deleted row changes nothing at all.
  pub feed-report_hit :
      (requester since : ℕ) (t : Triple)
      → feed requester t since hit_state ≡ feed requester t since db
  feed-report_hit requester since t =
      elim (report_hit_branches c nonce id consumer_id guild_id distance now_ms db) [
        | inl m ↦ rw (m.result, hit_state)
        | inr (inl m) ↦ rw (m.result, hit_state)
        | inr (inr m) ↦ rw (m.result, hit_state) (unmoved m.guild)
      ]
    where
      unmoved :
          (guild : Option Str)
          → feed requester t since (record_hit id consumer_id guild distance now_ms db).1
            ≡ feed requester t since db
      unmoved guild = elim (Bool-cases (fits_integer distance)) [
        | inl e ↦
            feed-update requester since t (has_id id) (counted now_ms) db
              (record_hit id consumer_id guild distance now_ms db).1 (λ r. unfold counted in refl)
              (λ r. unfold counted sync_columns in refl) (unfold record_hit in rw e refl)
        | inr e ↦ unfold record_hit in rw e refl
      ]
