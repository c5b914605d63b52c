-- ===== src/Store/Validity/Reports.antt =====
-- `report_hit` keeps the tables valid.
use fingerprint_hub.Prelude.{
  ℕ, ◌≡◌, refl, Str, Option, true, false, List, [], ◌∷◌, ◌++◌, arith, All-append, Bool-cases, inl,
  inr,
}
use fingerprint_hub.Prelude.Int.{ℤ}
use fingerprint_hub.Cipher.{Cipher}
use fingerprint_hub.Schema.{Fingerprint, Hit, Flag, Db}
use fingerprint_hub.Store.Keys.{has_id, hit_of}
use fingerprint_hub.Store.Hits.{counted, fits_integer, record_hit, report_hit}
use fingerprint_hub.Store.Hits.Branches.{report_hit_branches}
use fingerprint_hub.Store.Validity.{IsValid, RowOk}
use fingerprint_hub.Store.Validity.Counts.{count-append}
use fingerprint_hub.Store.Validity.Updates.{SameKey, update-IsValid, has_id-eq}
use fingerprint_hub.Sql.{exists}
use fingerprint_hub.Sql.Rows.{exists_of_fetch}

counted-SameKey : (now_ms : ℕ) (r : Fingerprint) → SameKey r (counted now_ms r)
unfolding counted
counted-SameKey now_ms r = record { id = refl; phash_hex = refl; consumer_id = refl }

module _ (id now_ms next_id next : ℕ) (flags : List Flag) (hits : List Hit) (h : Hit)
    (here : h.fingerprint_id ≡ id) (r : Fingerprint) (k : RowOk next_id next flags hits r) where
  counted-RowOk : RowOk next_id next flags (hits ++ h ∷ []) (counted now_ms r)
  unfolding counted
  counted-RowOk = record {
    id_below = k.id_below;
    seq_below = k.seq_below;
    flags_counted = k.flags_counted;
    hits_counted = ground (arith, count-append r.id hits h, k.hits_counted);
  }

  uncounted-RowOk : has_id id r ≡ false → RowOk next_id next flags (hits ++ h ∷ []) r
  unfolding has_id hit_of
  uncounted-RowOk e = record {
    id_below = k.id_below;
    seq_below = k.seq_below;
    flags_counted = k.flags_counted;
    hits_counted = ground (arith, count-append r.id hits h, k.hits_counted);
  }

module _ (id consumer_id : ℕ) (guild_id : Option Str) (distance : Option ℤ) (now_ms : ℕ) where
  record_hit-IsValid :
      (db : Db)
      → IsValid db
      → exists (has_id id) db.fingerprints ≡ true
      → IsValid (record_hit id consumer_id guild_id distance now_ms db).1
  unfolding record_hit
  record_hit-IsValid db v there = elim (Bool-cases (fits_integer distance)) [
    | inl e ↦ rw e (
        update-IsValid db v (has_id id) (counted now_ms) id (has_id-eq id) (counted-SameKey now_ms)
          (λ r. inl refl) db.next_sync_seq db.flags (db.hits ++ hit ∷ [])
          (λ r _ k. counted-RowOk id now_ms _ _ db.flags db.hits hit refl r k)
          (λ r e k. uncounted-RowOk id now_ms _ _ db.flags db.hits hit refl r k e) v.distinct_flags
          v.flags_refer
          (All-append (λ h. exists (has_id h.fingerprint_id) db.fingerprints ≡ true) db.hits
            (hit ∷ []) v.hits_refer (there, tt)))
    | inr e ↦ rw e v
  ]
    where
      hit : Hit
      hit = record {
        fingerprint_id = id;
        consumer_id = consumer_id;
        guild_id = guild_id;
        distance = distance;
        hit_at_ms = now_ms;
      }

module _ (id consumer_id : ℕ) (guild_id : Option Str) (distance : Option ℤ) (now_ms : ℕ) where
  -- From a valid database `report_hit` leads to a valid one on every branch, an exception included.
  pub report_hit-IsValid :
      (c : Cipher) (nonce : List ℕ) (db : Db)
      → IsValid db
      → IsValid (report_hit c nonce id consumer_id guild_id distance now_ms db).1
  report_hit-IsValid c nonce db v =
      elim (report_hit_branches c nonce id consumer_id guild_id distance now_ms db) [
        | inl m ↦ rw m.result v
        | inr (inl m) ↦ rw m.result v
        | inr (inr m) ↦ rw m.result (
            record_hit-IsValid id consumer_id m.guild distance now_ms db v
              (exists_of_fetch (has_id id) db.fingerprints m.row m.found))
      ]
