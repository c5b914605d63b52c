-- ===== src/Store/Validity/Purging.antt =====
-- `apply_retention` keeps the tables valid, statement by statement.
use fingerprint_hub.Prelude.{
  ℕ, ◌≡◌, sym, ◌∙◌, refl, Bool, true, not, List, [], ◌∷◌, arith, All, All-imp, All-and,
  Pairwise-map, Bool-cases, inl, inr, if◌then◌else◌,
}
use fingerprint_hub.Prelude.Int.{ℤ}
use native.Mathlib.Nat.{le_trans}
use fingerprint_hub.Schema.{Fingerprint, Hit, Flag, Db}
use fingerprint_hub.Store.Keys.{has_id, flag_of}
use fingerprint_hub.Store.Flags.{has_flagger}
use fingerprint_hub.Store.Retention.{
  Periods, tombstone_before, clear_reason, anonymize, has_negative, metadata_outlives_row,
  purge_tombstones, purge, apply_retention,
}
use fingerprint_hub.Store.Validity.{IsValid, RowOk, Differ, FlagsDiffer}
use fingerprint_hub.Store.Validity.Counts.{flaggers-update, flaggers-select, count-select-le}
use fingerprint_hub.Store.Validity.Updates.{SameKey, Differ-keys, refers-update}
use fingerprint_hub.Sql.{select, exists, update, delete}
use fingerprint_hub.Sql.Rows.{All-update, All-select, All-select_holds, Pairwise-select}

delete_hits-IsValid :
    (p : Hit → Bool) (db : Db) → IsValid db → IsValid (record db { hits = delete p db.hits })
unfolding delete
delete_hits-IsValid p db v = record {
  rows =
      All-imp
        (λ r k. record {
          id_below = k.id_below;
          seq_below = k.seq_below;
          flags_counted = k.flags_counted;
          hits_counted = le_trans (count-select-le r.id (λ h. not (p h)) db.hits) k.hits_counted;
        })
        db.fingerprints v.rows;
  distinct_rows = v.distinct_rows;
  distinct_flags = v.distinct_flags;
  flags_refer = v.flags_refer;
  hits_refer =
      All-select (λ h. exists (has_id h.fingerprint_id) db.fingerprints ≡ true) (λ h. not (p h))
        db.hits v.hits_refer;
}

clear_reasons-IsValid :
    (p : Flag → Bool) (db : Db)
    → IsValid db
    → IsValid (record db { flags = update p clear_reason db.flags })
clear_reasons-IsValid p db v = record {
  rows =
      All-imp
        (λ r k. record {
          id_below = k.id_below;
          seq_below = k.seq_below;
          flags_counted =
              k.flags_counted
              ∙ sym (
                  flaggers-update r.id p clear_reason db.flags
                    (λ f. unfold flag_of clear_reason in refl) (λ f. unfold clear_reason in refl));
          hits_counted = k.hits_counted;
        })
        db.fingerprints v.rows;
  distinct_rows = v.distinct_rows;
  distinct_flags =
      unfold update in
      Pairwise-map (λ f. Unit {0}) FlagsDiffer FlagsDiffer (λ f. if p f then clear_reason f else f)
        (λ f g _ _ h. cleared f g h) db.flags (All-imp (λ f _. tt) db.flags v.flags_refer)
        v.distinct_flags;
  flags_refer =
      All-update (λ f. exists (has_id f.fingerprint_id) db.fingerprints ≡ true)
        (λ f. exists (has_id f.fingerprint_id) db.fingerprints ≡ true) p clear_reason
        (λ f _ h. unfold clear_reason in h) (λ f _ h. h) db.flags v.flags_refer;
  hits_refer = v.hits_refer;
}
  where
    cleared :
        (f g : Flag)
        → FlagsDiffer f g
        → FlagsDiffer (if p f then clear_reason f else f) (if p g then clear_reason g else g)
    cleared f g h = unfold clear_reason has_flagger in ground arith

-- Each row is there under its own id.
pub self_refer : (rows : List Fingerprint) → All (λ r. exists (has_id r.id) rows ≡ true) rows
unfolding exists
self_refer [] = tt
self_refer (x ∷ rows) =
    (unfold has_id in ground arith, All-imp (λ r h. ground (arith, h)) rows (self_refer rows))

purge_tombstones-IsValid : (at : ℤ) (db : Db) → IsValid db → IsValid (purge_tombstones at db)
unfolding purge_tombstones delete
purge_tombstones-IsValid at db v = record {
  rows =
      All-imp
        (λ r k. record {
          id_below = k.0.id_below;
          seq_below = k.0.seq_below;
          flags_counted =
              k.0.flags_counted
              ∙ sym (
                  flaggers-select r.id (λ f. exists (has_id f.fingerprint_id) kept) db.flags
                    (λ f e. of_kept f r e k.1));
          hits_counted =
              le_trans (count-select-le r.id (λ h. exists (has_id h.fingerprint_id) kept) db.hits)
                k.0.hits_counted;
        })
        kept
        (All-and (RowOk db.next_fingerprint_id db.next_sync_seq db.flags db.hits)
          (λ r. exists (has_id r.id) kept ≡ true) kept
          (All-select (RowOk db.next_fingerprint_id db.next_sync_seq db.flags db.hits) keep
            db.fingerprints v.rows)
          (self_refer kept));
  distinct_rows = Pairwise-select Differ keep db.fingerprints v.distinct_rows;
  distinct_flags =
      Pairwise-select FlagsDiffer (λ f. exists (has_id f.fingerprint_id) kept) db.flags
        v.distinct_flags;
  flags_refer = All-select_holds (λ f. exists (has_id f.fingerprint_id) kept) db.flags;
  hits_refer = All-select_holds (λ h. exists (has_id h.fingerprint_id) kept) db.hits;
}
  where
    keep : Fingerprint → Bool
    keep = λ r. not (tombstone_before at r)

    kept : List Fingerprint
    kept = select keep db.fingerprints

    of_kept :
        (f : Flag) (r : Fingerprint)
        → flag_of r.id f ≡ true
        → exists (has_id r.id) kept ≡ true
        → exists (has_id f.fingerprint_id) kept ≡ true
    of_kept f r e h = let i : f.fingerprint_id ≡ r.id = unfold flag_of in ground arith in rw i h

anonymize-IsValid :
    (p : Fingerprint → Bool) (db : Db)
    → IsValid db
    → IsValid (record db { fingerprints = update p anonymize db.fingerprints })
anonymize-IsValid p db v = record {
  rows =
      All-update (RowOk db.next_fingerprint_id db.next_sync_seq db.flags db.hits)
        (RowOk db.next_fingerprint_id db.next_sync_seq db.flags db.hits) p anonymize
        (λ r _ k.
          unfold anonymize in
          record {
            id_below = k.id_below;
            seq_below = k.seq_below;
            flags_counted = k.flags_counted;
            hits_counted = k.hits_counted;
          })
        (λ r _ k. k) db.fingerprints v.rows;
  distinct_rows =
      unfold update in
      Pairwise-map (λ r. Unit {0}) Differ Differ (λ r. if p r then anonymize r else r)
        (λ r s _ _ h.
          Differ-keys r s (if p r then anonymize r else r) (if p s then anonymize s else s) (kept r)
            (kept s) h (λ e. h.seqs (cc (kept_seq r, kept_seq s, e))))
        db.fingerprints (All-imp (λ r _. tt) db.fingerprints v.rows) v.distinct_rows;
  distinct_flags = v.distinct_flags;
  flags_refer =
      refers-update (λ f. f.fingerprint_id) p anonymize db.fingerprints same db.flags v.flags_refer;
  hits_refer =
      refers-update (λ h. h.fingerprint_id) p anonymize db.fingerprints same db.hits v.hits_refer;
}
  where
    same : (r : Fingerprint) → SameKey r (anonymize r)
    same r = unfold anonymize in record { id = refl; phash_hex = refl; consumer_id = refl }

    kept : (r : Fingerprint) → SameKey r (if p r then anonymize r else r)
    kept r = elim (Bool-cases (p r)) [
      | inl e ↦ rw e (same r)
      | inr e ↦ rw e (record { id = refl; phash_hex = refl; consumer_id = refl })
    ]

    kept_seq : (r : Fingerprint) → (if p r then anonymize r else r).sync_seq ≡ r.sync_seq
    kept_seq r = unfold anonymize in ground arith

purge-IsValid : (now_ms : ℕ) (p : Periods) (db : Db) → IsValid db → IsValid (purge now_ms p db).1
unfolding purge
purge-IsValid now_ms p db v =
    anonymize-IsValid _ _
      (purge_tombstones-IsValid _ _ (clear_reasons-IsValid _ _ (delete_hits-IsValid _ db v)))

-- From a valid database a retention run leads to a valid one, whether it is applied, previewed
-- or refused.
pub apply_retention-IsValid :
    (now_ms : ℕ) (p : Periods) (dry_run : Bool) (db : Db)
    → IsValid db
    → IsValid (apply_retention now_ms p dry_run db).1
unfolding apply_retention
apply_retention-IsValid now_ms p dry_run db v = elim (Bool-cases (has_negative p)) [
  | inl e ↦ rw e v
  | inr e ↦ rw e (elim (Bool-cases (metadata_outlives_row p)) [
    | inl f ↦ rw f v
    | inr f ↦
        rw f (elim (Bool-cases dry_run) [
          | inl g ↦ rw g v
          | inr g ↦ rw g (purge-IsValid now_ms p db v)
        ])
  ])
]
