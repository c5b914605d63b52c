-- ===== src/Store/Validity/Contributing.antt =====
-- `contribute` keeps the tables valid, also where another transaction commits between its SELECT
-- and its INSERT or UPDATE.
use fingerprint_hub.Prelude.{
  ℕ, not, ◌+◌, ◌≡◌, ◌≢◌, sym, ◌∙◌, refl, str_eq_iff, Option, none, some, true, false, List, [], ◌∷◌,
  arith, All, All-imp, All-and, All-append, Pairwise, Pairwise-snoc, Bool-cases, Result-cases, inl,
  inr,
}
use fingerprint_hub.Cipher.{Cipher}
use fingerprint_hub.Schema.{is_deleted, Fingerprint, Hit, Flag, Db}
use fingerprint_hub.Store.Keys.{has_id, has_key, hit_of, flag_of}
use fingerprint_hub.Store.Contribute.{
  Contribution, Nonces, Existing, encrypt_fields, select_existing, resurrected, resurrect, new_row,
  insert, write, contribute,
}
use fingerprint_hub.Store.Validity.{IsValid, RowOk, Differ, FlagsDiffer}
use fingerprint_hub.Store.Validity.Counts.{
  flaggers_none, flaggers-delete_self, flaggers-delete_ne, count_none, unused,
}
use fingerprint_hub.Store.Validity.Updates.{
  SameKey, RowOk-later, update-IsValid, has_id-eq, has_id-ne,
}
use fingerprint_hub.Sql.{exists, delete}
use fingerprint_hub.Sql.Rows.{
  update_nothing, All-select, Pairwise-select, not_exists_all, exists_append_left,
}

module _ (id : ℕ) (x : Contribution) (now_ms : ℕ) where
  resurrected-SameKey : (seq : ℕ) (r : Fingerprint) → SameKey r (resurrected x now_ms seq r)
  unfolding resurrected
  resurrected-SameKey seq r = record { id = refl; phash_hex = refl; consumer_id = refl }

  unflagged-RowOk :
      {next_id next : ℕ} {flags : List Flag} {hits : List Hit} (r : Fingerprint)
      → has_id id r ≡ false
      → RowOk next_id next flags hits r
      → RowOk next_id next (delete (flag_of id) flags) hits r
  unflagged-RowOk {flags = flags} r e k = record {
    id_below = k.id_below;
    seq_below = k.seq_below;
    flags_counted = k.flags_counted ∙ sym (flaggers-delete_ne r.id id flags (has_id-ne id r e));
    hits_counted = k.hits_counted;
  }

  pub resurrect-IsValid : (db : Db) → IsValid db → IsValid (resurrect id x now_ms db).1
  unfolding resurrect
  resurrect-IsValid db v = elim (Bool-cases (exists (has_id id) db.fingerprints)) [
    | inl e ↦ rw e (
        update-IsValid db v (has_id id) (resurrected x now_ms db.next_sync_seq) id (has_id-eq id)
          (resurrected-SameKey db.next_sync_seq) (λ r. inr (unfold resurrected in refl))
          (db.next_sync_seq + 1) (delete (flag_of id) db.flags) db.hits
          (λ r h k.
            unfold resurrected in
            record {
              id_below = k.id_below;
              seq_below = omega arith;
              flags_counted = rw (has_id-eq id r h, flaggers-delete_self);
              hits_counted = k.hits_counted;
            })
          (λ r h k. RowOk-later (unflagged-RowOk r h k)) fewer refer v.hits_refer)
    | inr e ↦
        rw (e, update_nothing (has_id id) (resurrected x now_ms db.next_sync_seq) _ e)
          (record {
            rows =
                All-imp (λ r h. unflagged-RowOk r h.0 h.1) db.fingerprints
                  (All-and (λ r. has_id id r ≡ false)
                    (RowOk db.next_fingerprint_id db.next_sync_seq db.flags db.hits) db.fingerprints
                    (not_exists_all (has_id id) db.fingerprints e) v.rows);
            distinct_rows = v.distinct_rows;
            distinct_flags = fewer;
            flags_refer = refer;
            hits_refer = v.hits_refer;
          })
  ]
    where
      fewer : Pairwise FlagsDiffer (delete (flag_of id) db.flags)
      fewer = Pairwise-select FlagsDiffer (λ f. not (flag_of id f)) db.flags v.distinct_flags

      refer :
          All
            (λ f. exists (has_id f.fingerprint_id) db.fingerprints ≡ true)
            (delete (flag_of id) db.flags)
      refer =
          All-select (λ f. exists (has_id f.fingerprint_id) db.fingerprints ≡ true)
            (λ f. not (flag_of id f)) db.flags v.flags_refer

drawn-RowOk :
    {next_id next : ℕ} {flags : List Flag} {hits : List Hit} (r : Fingerprint)
    → RowOk next_id next flags hits r
    → RowOk (next_id + 1) (next + 1) flags hits r
drawn-RowOk r k = record {
  id_below = omega (arith, k.id_below);
  seq_below = omega (arith, k.seq_below);
  flags_counted = k.flags_counted;
  hits_counted = k.hits_counted;
}

unreferred :
    (n k : ℕ) (rows : List Fingerprint)
    → exists (has_id n) rows ≡ false
    → exists (has_id k) rows ≡ true
    → k ≢ n
unreferred n k rows h e i = cc (h, e, i)

module _ (x : Contribution) (consumer_id now_ms : ℕ) (db : Db) (v : IsValid db) where
  no_such_id : exists (has_id db.next_fingerprint_id) db.fingerprints ≡ false
  no_such_id =
      unused db.next_fingerprint_id db.fingerprints
        (All-imp (λ r k. k.id_below) db.fingerprints v.rows)

  new_row-RowOk :
      RowOk
        (db.next_fingerprint_id + 1)
        (db.next_sync_seq + 1)
        db.flags
        db.hits
        (new_row x consumer_id now_ms db)
  unfolding new_row
  new_row-RowOk = record {
    id_below = omega arith;
    seq_below = omega arith;
    flags_counted = sym (
        flaggers_none db.next_fingerprint_id db.flags (
          All-imp
            (λ f e.
              flag_of-ne f (unreferred db.next_fingerprint_id f.fingerprint_id _ no_such_id e))
            db.flags v.flags_refer));
    hits_counted =
        rw
          (count_none db.next_fingerprint_id db.hits (
            All-imp
              (λ h e.
                hit_of-ne h (unreferred db.next_fingerprint_id h.fingerprint_id _ no_such_id e))
              db.hits v.hits_refer))
          (omega arith);
  }
    where
      flag_of-ne :
          (f : Flag)
          → f.fingerprint_id ≢ db.next_fingerprint_id
          → flag_of db.next_fingerprint_id f ≡ false
      flag_of-ne f h = unfold flag_of in ground arith

      hit_of-ne :
          (f : Hit)
          → f.fingerprint_id ≢ db.next_fingerprint_id
          → hit_of db.next_fingerprint_id f ≡ false
      hit_of-ne f h = unfold hit_of in ground arith

  new_row-Differ :
      (r : Fingerprint)
      → has_key x.phash_hex consumer_id r ≡ false
      → RowOk db.next_fingerprint_id db.next_sync_seq db.flags db.hits r
      → Differ r (new_row x consumer_id now_ms db)
  unfolding new_row has_key
  new_row-Differ r e k = record {
    ids = omega (arith, k.id_below);
    seqs = omega (arith, k.seq_below);
    keys = ground (arith, str_eq_iff r.phash_hex x.phash_hex, str_eq_iff x.phash_hex r.phash_hex);
  }

  pub insert-IsValid : IsValid (insert x consumer_id now_ms db).1
  unfolding insert
  insert-IsValid = elim (Bool-cases (exists (has_key x.phash_hex consumer_id) db.fingerprints)) [
    | inl e ↦ rw e (record {
      rows = All-imp drawn-RowOk db.fingerprints v.rows;
      distinct_rows = v.distinct_rows;
      distinct_flags = v.distinct_flags;
      flags_refer = v.flags_refer;
      hits_refer = v.hits_refer;
    })
    | inr e ↦ rw e (record {
      rows =
          All-append (RowOk (db.next_fingerprint_id + 1) (db.next_sync_seq + 1) db.flags db.hits)
            db.fingerprints (row ∷ []) (All-imp drawn-RowOk db.fingerprints v.rows)
            (new_row-RowOk, tt);
      distinct_rows = Pairwise-snoc Differ db.fingerprints row v.distinct_rows (
          All-imp (λ r h. new_row-Differ r h.0 h.1) db.fingerprints
            (All-and (λ r. has_key x.phash_hex consumer_id r ≡ false)
              (RowOk db.next_fingerprint_id db.next_sync_seq db.flags db.hits) db.fingerprints
              (not_exists_all (has_key x.phash_hex consumer_id) db.fingerprints e) v.rows));
      distinct_flags = v.distinct_flags;
      flags_refer =
          All-imp (λ f h. exists_append_left (has_id f.fingerprint_id) db.fingerprints (row ∷ []) h)
            db.flags v.flags_refer;
      hits_refer =
          All-imp (λ f h. exists_append_left (has_id f.fingerprint_id) db.fingerprints (row ∷ []) h)
            db.hits v.hits_refer;
    })
  ]
    where
      row : Fingerprint
      row = new_row x consumer_id now_ms db

-- Whatever the SELECT returned, and whatever was committed since, what the transaction writes
-- into a valid database leaves it valid.
pub write-IsValid :
    (existing : Option Existing) (x : Contribution) (consumer_id now_ms : ℕ) (db : Db)
    → IsValid db
    → IsValid (write existing x consumer_id now_ms db).1
unfolding write
write-IsValid none x consumer_id now_ms db v = insert-IsValid x consumer_id now_ms db v
write-IsValid (some existing) x consumer_id now_ms db v =
    elim (Bool-cases (is_deleted existing.status)) [
      | inl e ↦ rw e (resurrect-IsValid existing.id x now_ms db v)
      | inr e ↦ rw e v
    ]

pub contribute-IsValid :
    (c : Cipher) (n : Nonces) (consumer_id : ℕ) (x : Contribution) (now_ms : ℕ) (db : Db)
    → IsValid db
    → IsValid (contribute c n consumer_id x now_ms db).1
unfolding contribute
contribute-IsValid c n consumer_id x now_ms db v = elim (Result-cases (encrypt_fields c n x)) [
  | inl (e, f) ↦ rw (f, contribute) v
  | inr (y, f) ↦
      rw (f, contribute)
        (write-IsValid (select_existing y.phash_hex consumer_id db) y consumer_id now_ms db v)
]
