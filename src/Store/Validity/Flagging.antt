-- ===== src/Store/Validity/Flagging.antt =====
-- `flag` keeps the tables valid; above all, `flag_count` stays the number of distinct flaggers.
use fingerprint_hub.Prelude.{
  ℕ, ◌+◌, ◌≤◌, ◌≡◌, sym, ◌∙◌, refl, Str, Option, true, false, ◌&&◌, leb, List, [], ◌∷◌, arith, All,
  All-imp, All-append, Pairwise, Pairwise-snoc, Bool-cases, inl, inr,
}
use fingerprint_hub.Cipher.{Cipher}
use fingerprint_hub.Schema.{Status, is_active, Fingerprint, Flag, Db}
use fingerprint_hub.Store.Keys.{has_id}
use fingerprint_hub.Store.Flags.{
  has_flagger, insert_flag, flaggers, hide, set_flag_count, settle_flags, record_flag, flag,
}
use fingerprint_hub.Store.Flags.Branches.{flag_branches}
use fingerprint_hub.Store.Validity.{IsValid, RowOk, FlagsDiffer}
use fingerprint_hub.Store.Validity.Counts.{flaggers-insert_ne}
use fingerprint_hub.Store.Validity.Updates.{SameKey, update-IsValid, has_id-eq, has_id-ne}
use fingerprint_hub.Sql.{exists}
use fingerprint_hub.Sql.Rows.{exists_of_fetch, not_exists_all}

hide-SameKey : (n now_ms seq : ℕ) (r : Fingerprint) → SameKey r (hide n now_ms seq r)
unfolding hide
hide-SameKey n now_ms seq r = record { id = refl; phash_hex = refl; consumer_id = refl }

set_flag_count-SameKey : (n now_ms : ℕ) (r : Fingerprint) → SameKey r (set_flag_count n now_ms r)
unfolding set_flag_count
set_flag_count-SameKey n now_ms r = record { id = refl; phash_hex = refl; consumer_id = refl }

-- the unique constraint on the flags, whether or not the INSERT met a conflict
insert_flag-Differ :
    (f : Flag) (flags : List Flag)
    → Pairwise FlagsDiffer flags
    → Pairwise FlagsDiffer (insert_flag f flags)
unfolding insert_flag
insert_flag-Differ f flags d =
    elim (Bool-cases (exists (has_flagger f.fingerprint_id f.consumer_id) flags)) [
      | inl e ↦ rw e d
      | inr e ↦ rw e (
          Pairwise-snoc FlagsDiffer flags f d
            (All-imp (λ g h. has_flagger_sym f g h) flags (not_exists_all _ flags e)))
    ]
  where
    has_flagger_sym :
        (f g : Flag)
        → has_flagger f.fingerprint_id f.consumer_id g ≡ false
        → has_flagger g.fingerprint_id g.consumer_id f ≡ false
    has_flagger_sym f g h = ground arith

insert_flag-All {ℓ} :
    (P : Flag → Type ℓ) (f : Flag) (flags : List Flag)
    → P f
    → All P flags
    → All P (insert_flag f flags)
unfolding insert_flag
insert_flag-All P f flags h a =
    elim (Bool-cases (exists (has_flagger f.fingerprint_id f.consumer_id) flags)) [
      | inl e ↦ rw e a
      | inr e ↦ rw e (All-append P flags (f ∷ []) a (h, tt))
    ]

module _ (db : Db) (v : IsValid db) (id : ℕ) (there : exists (has_id id) db.fingerprints ≡ true)
    (f : Flag) (here : f.fingerprint_id ≡ id) (status : Status)
    (now_ms auto_hide_threshold : ℕ) where
  abbrev flags' : List Flag
  flags' = insert_flag f db.flags

  missed-RowOk :
      (next : ℕ)
      → db.next_sync_seq ≤ next
      → (r : Fingerprint) → has_id id r ≡ false
      → RowOk db.next_fingerprint_id db.next_sync_seq db.flags db.hits r
      → RowOk db.next_fingerprint_id next flags' db.hits r
  missed-RowOk next le r e k = record {
    id_below = k.id_below;
    seq_below = omega (arith, k.seq_below);
    flags_counted =
        k.flags_counted
        ∙ sym (flaggers-insert_ne r.id f db.flags (λ i. has_id-ne id r e (i ∙ here)));
    hits_counted = k.hits_counted;
  }

  flags_refer' : All (λ g. exists (has_id g.fingerprint_id) db.fingerprints ≡ true) flags'
  flags_refer' =
      insert_flag-All (λ g. exists (has_id g.fingerprint_id) db.fingerprints ≡ true) f db.flags
        (rw here there) v.flags_refer

  settle_flags-IsValid :
      IsValid
        (settle_flags id status
          (flaggers id flags')
          now_ms
          auto_hide_threshold
          (record db { flags = flags' })).1
  unfolding settle_flags
  settle_flags-IsValid =
      elim (Bool-cases (leb auto_hide_threshold (flaggers id flags') && is_active status)) [
        | inl e ↦
            rw (e, there)
              (update-IsValid db v (has_id id) (hide (flaggers id flags') now_ms db.next_sync_seq)
                id (has_id-eq id) (hide-SameKey (flaggers id flags') now_ms db.next_sync_seq)
                (λ r. inr (unfold hide in refl)) (db.next_sync_seq + 1) flags' db.hits
                (λ r h k.
                  unfold hide in
                  record {
                    id_below = k.id_below;
                    seq_below = omega arith;
                    flags_counted = rw (has_id-eq id r h);
                    hits_counted = k.hits_counted;
                  })
                (λ r h k. missed-RowOk (db.next_sync_seq + 1) (omega arith) r h k)
                (insert_flag-Differ f db.flags v.distinct_flags) flags_refer' v.hits_refer)
        | inr e ↦ rw e (
            update-IsValid db v (has_id id) (set_flag_count (flaggers id flags') now_ms) id
              (has_id-eq id) (set_flag_count-SameKey (flaggers id flags') now_ms)
              (λ r. inl (unfold set_flag_count in refl)) db.next_sync_seq flags' db.hits
              (λ r h k.
                unfold set_flag_count in
                record {
                  id_below = k.id_below;
                  seq_below = k.seq_below;
                  flags_counted = rw (has_id-eq id r h);
                  hits_counted = k.hits_counted;
                })
              (λ r h k. missed-RowOk db.next_sync_seq (omega arith) r h k)
              (insert_flag-Differ f db.flags v.distinct_flags) flags_refer' v.hits_refer)
      ]

module _ (id consumer_id : ℕ) (reason : Option Str) (now_ms auto_hide_threshold : ℕ) where
  record_flag-IsValid :
      (status : Status) (db : Db)
      → IsValid db
      → exists (has_id id) db.fingerprints ≡ true
      → IsValid (record_flag id status consumer_id reason now_ms auto_hide_threshold db).1
  unfolding record_flag
  record_flag-IsValid status db v there =
      settle_flags-IsValid db v id there
        (record {
          fingerprint_id = id;
          consumer_id = consumer_id;
          reason = reason;
          created_at_ms = now_ms;
        })
        refl status now_ms auto_hide_threshold

module _ (id consumer_id : ℕ) (reason : Option Str) (now_ms auto_hide_threshold : ℕ) where
  -- From a valid database `flag` leads to a valid one on every branch, an exception included.
  pub flag-IsValid :
      (c : Cipher) (nonce : List ℕ) (db : Db)
      → IsValid db
      → IsValid (flag c nonce id consumer_id reason now_ms auto_hide_threshold db).1
  flag-IsValid c nonce db v =
      elim (flag_branches c nonce id consumer_id reason now_ms auto_hide_threshold db) [
        | inl m ↦ rw m.result v
        | inr (inl m) ↦ rw m.result v
        | inr (inr m) ↦ rw m.result (
            record_flag-IsValid id consumer_id m.sealed now_ms auto_hide_threshold m.row.status db v
              (exists_of_fetch (has_id id) db.fingerprints m.row m.found))
      ]
