-- ===== src/Store/Validity/Deletion.antt =====
-- `soft_delete` keeps the tables valid.
use fingerprint_hub.Prelude.{ℕ, ◌+◌, ◌≡◌, refl, true, arith, Bool-cases, inl, inr}
use fingerprint_hub.Schema.{Fingerprint, Db}
use fingerprint_hub.Store.Delete.{is_live, tombstone, soft_delete}
use fingerprint_hub.Store.Validity.{IsValid}
use fingerprint_hub.Store.Validity.Updates.{SameKey, RowOk-later, update-IsValid}
use fingerprint_hub.Sql.{exists}
use fingerprint_hub.Sql.Rows.{update_nothing}

module _ (id now_ms : ℕ) where
  is_live-id : (r : Fingerprint) → is_live id r ≡ true → r.id ≡ id
  unfolding is_live
  is_live-id r h = ground arith

  tombstone-SameKey : (n : ℕ) (r : Fingerprint) → SameKey r (tombstone now_ms n r)
  unfolding tombstone
  tombstone-SameKey n r = record { id = refl; phash_hex = refl; consumer_id = refl }

  -- From a valid database `soft_delete` leads to a valid one, whether or not it changes a row.
  pub soft_delete-IsValid : (db : Db) → IsValid db → IsValid (soft_delete id now_ms db).1
  unfolding soft_delete
  soft_delete-IsValid db v = elim (Bool-cases (exists (is_live id) db.fingerprints)) [
    | inl e ↦ rw e (
        update-IsValid db v (is_live id) (tombstone now_ms db.next_sync_seq) id is_live-id
          (tombstone-SameKey db.next_sync_seq) (λ r. inr refl) (db.next_sync_seq + 1) db.flags
          db.hits
          (λ r _ h. record {
            id_below = h.id_below;
            seq_below = omega arith;
            flags_counted = h.flags_counted;
            hits_counted = h.hits_counted;
          })
          (λ r _ h. RowOk-later h) v.distinct_flags v.flags_refer v.hits_refer)
    | inr e ↦ rw (e, update_nothing (is_live id) (tombstone now_ms db.next_sync_seq) _ e) v
  ]
