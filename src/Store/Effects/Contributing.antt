-- ===== src/Store/Effects/Contributing.antt =====
-- `contribute`: a new row, a tombstone that comes back, or a duplicate.
use fingerprint_hub.Prelude.{
  ℕ, str_eq_iff, ◌+◌, ◌∙◌, sym, ap, ◌≡◌, refl, str_eq_refl, none, some, Bool, true, false, List, [],
  ◌∷◌, ◌++◌, arith, Bool-cases, Option-cases, inl, inr, ok,
}
use fingerprint_hub.Cipher.{Cipher}
use fingerprint_hub.Schema.{active, is_deleted, Fingerprint, Db}
use fingerprint_hub.Store.Keys.{has_id, has_key, flag_of}
use fingerprint_hub.Store.Flags.{flaggers}
use fingerprint_hub.Store.Contribute.{
  Contribution, Nonces, Contributed, created, duplicate, encrypt_fields, select_existing,
  resurrected, new_row, write, contribute,
}
use fingerprint_hub.Store.Validity.{IsValid}
use fingerprint_hub.Store.Validity.Counts.{flaggers-delete_self}
use fingerprint_hub.Store.Freshness.{find_self}
use fingerprint_hub.Sql.{fetch_one, update, delete}
use fingerprint_hub.Sql.Rows.{
  fetch_one-update, fetch_one_holds, fetch_one-All, exists_of_fetch, not_exists_of_none,
}

-- What a row of the table says of the contribution that made it.
pub record Holds (x : Contribution) (consumer_id now_ms seq : ℕ) (r : Fingerprint) : Type 0 where
  pub phash_hex : r.phash_hex ≡ x.phash_hex
  pub consumer : r.consumer_id ≡ consumer_id
  pub triple :
      (r.algorithm ≡ x.algorithm)
      × (r.algorithm_version ≡ x.algorithm_version)
      × (r.normalization_version ≡ x.normalization_version)
  pub judgement : (r.category ≡ x.category) × (r.action ≡ x.action)
  pub secrets :
      (r.source_guild_id ≡ x.source_guild_id)
      × (r.reason ≡ x.reason)
      × (r.source_url ≡ x.source_url)
  pub origin : (r.auto_added ≡ x.auto_added) × (r.provenance ≡ x.provenance)
  pub times : (r.added_at_ms ≡ now_ms) × (r.updated_at_ms ≡ now_ms)
  pub status : r.status ≡ active
  pub seq_new : r.sync_seq ≡ seq
  pub unflagged : r.flag_count ≡ 0

module _ (x : Contribution) (consumer_id now_ms : ℕ) (db : Db) where
  abbrev key : Fingerprint → Bool
  key = has_key x.phash_hex consumer_id

  -- A live row of the same consumer and hash: a duplicate, and nothing changes.
  write_live :
      (r : Fingerprint)
      → fetch_one key db.fingerprints ≡ some r
      → is_deleted r.status ≡ false
      → write (select_existing x.phash_hex consumer_id db) x consumer_id now_ms db
        ≡ (duplicate (some (record { id = r.id; status = r.status })), db)
  unfolding write select_existing
  write_live r h live = rw (h, live) refl

  pub own_key : key (new_row x consumer_id now_ms db) ≡ true
  unfolding new_row has_key
  own_key = ground (arith, str_eq_refl x.phash_hex)

  pub write_new :
      fetch_one key db.fingerprints ≡ none
      → (write (select_existing x.phash_hex consumer_id db) x consumer_id now_ms db ≡ (
        created (some (new_row x consumer_id now_ms db)),
        record db {
          fingerprints = db.fingerprints ++ new_row x consumer_id now_ms db ∷ [];
          next_fingerprint_id = db.next_fingerprint_id + 1;
          next_sync_seq = db.next_sync_seq + 1;
        },
      ))
        × Holds x consumer_id now_ms db.next_sync_seq (new_row x consumer_id now_ms db)
  unfolding write select_existing
  write_new h = (
    rw (h, not_exists_of_none key db.fingerprints h) refl,
    unfold new_row in
        record {
          phash_hex = refl;
          consumer = refl;
          triple = (refl, refl, refl);
          judgement = (refl, refl);
          secrets = (refl, refl, refl);
          origin = (refl, refl);
          times = (refl, refl);
          status = refl;
          seq_new = refl;
          unflagged = refl;
        },
  )

  -- A tombstone of the same consumer and hash: the row comes back under its id.
  module _ (v : IsValid db) (r : Fingerprint) (h : fetch_one key db.fingerprints ≡ some r) where
    found_again : fetch_one (has_id r.id) db.fingerprints ≡ some r
    found_again =
        fetch_one-All (λ s. fetch_one (has_id s.id) db.fingerprints ≡ some s) key db.fingerprints h
          (find_self db.fingerprints v.distinct_rows)

    own_id : has_id r.id r ≡ true
    own_id = fetch_one_holds (has_id r.id) db.fingerprints r found_again

    abbrev back : Fingerprint
    back = resurrected x now_ms db.next_sync_seq r

    abbrev rows' : List Fingerprint
    rows' = update (has_id r.id) (resurrected x now_ms db.next_sync_seq) db.fingerprints

    found_back : fetch_one (has_id r.id) rows' ≡ some back
    found_back =
        fetch_one-update (has_id r.id) (has_id r.id) (resurrected x now_ms db.next_sync_seq)
          db.fingerprints r (λ s. unfold has_id resurrected in refl) found_again
        ∙ rw own_id refl

    key-back : fetch_one key rows' ≡ some back
    key-back =
        fetch_one-update key (has_id r.id) (resurrected x now_ms db.next_sync_seq) db.fingerprints r
          (λ s. unfold has_key resurrected in refl) h
        ∙ rw own_id refl

    write_tombstone :
        is_deleted r.status ≡ true
        → (write (select_existing x.phash_hex consumer_id db) x consumer_id now_ms db ≡ (
          created (some back),
          record db {
            flags = delete (flag_of r.id) db.flags;
            fingerprints = rows';
            next_sync_seq = db.next_sync_seq + 1;
          },
        ))
          × Holds x consumer_id now_ms db.next_sync_seq back
    unfolding write select_existing
    write_tombstone dead = (
      rw (h, dead, found_back, exists_of_fetch (has_id r.id) db.fingerprints r found_again) refl,
      let same : key r ≡ true = fetch_one_holds key db.fingerprints r h in
          unfold resurrected in
          record {
            phash_hex = key_hash same;
            consumer = key_consumer same;
            triple = (refl, refl, refl);
            judgement = (refl, refl);
            secrets = (refl, refl, refl);
            origin = (refl, refl);
            times = (refl, refl);
            status = refl;
            seq_new = refl;
            unflagged = refl;
          },
    )
      where
        key_hash : key r ≡ true → r.phash_hex ≡ x.phash_hex
        key_hash e = unfold has_key in ground (arith, str_eq_iff r.phash_hex x.phash_hex)

        key_consumer : key r ≡ true → r.consumer_id ≡ consumer_id
        key_consumer e = unfold has_key in ground arith

-- The three outcomes of a contribution whose fields could be encrypted.
pub data Outcome (c : Cipher) (n : Nonces) (consumer_id : ℕ) (x y : Contribution) (now_ms : ℕ)
    (db : Db) : Type 0 where
  rejected :
      (r : Fingerprint)
      → fetch_one (has_key y.phash_hex consumer_id) db.fingerprints ≡ some r
      → is_deleted r.status ≡ false
      → contribute c n consumer_id x now_ms db
        ≡ (ok (duplicate (some (record { id = r.id; status = r.status }))), db)
      → Outcome c n consumer_id x y now_ms db
  added :
      (r : Fingerprint)
      → fetch_one (has_key y.phash_hex consumer_id) db.fingerprints ≡ none
      → (contribute c n consumer_id x now_ms db).0 ≡ ok (created (some r))
      → (contribute c n consumer_id x now_ms db).1.fingerprints ≡ db.fingerprints ++ r ∷ []
      → r.id ≡ db.next_fingerprint_id
      → Holds y consumer_id now_ms db.next_sync_seq r
      → Outcome c n consumer_id x y now_ms db
  revived :
      (old r : Fingerprint)
      → fetch_one (has_key y.phash_hex consumer_id) db.fingerprints ≡ some old
      → is_deleted old.status ≡ true
      → (contribute c n consumer_id x now_ms db).0 ≡ ok (created (some r))
      → fetch_one
          (has_key y.phash_hex consumer_id)
          (contribute c n consumer_id x now_ms db).1.fingerprints
        ≡ some r
      → flaggers old.id (contribute c n consumer_id x now_ms db).1.flags ≡ 0
      → r ≡ resurrected y now_ms db.next_sync_seq old
      → Holds y consumer_id now_ms db.next_sync_seq r
      → Outcome c n consumer_id x y now_ms db

-- In a valid database a contribution whose fields `encrypt_fields` encrypts has one of three outcomes.
-- A live row of this consumer and hash is reported as a duplicate, and nothing changes. Without a row,
-- one is added under the next id. A tombstone comes back in its place, without its flags. A created
-- row is active, unflagged, holds what was contributed, and has the next `sync_seq`.
pub contribute-Outcome :
    (c : Cipher) (n : Nonces) (consumer_id : ℕ) (x y : Contribution) (now_ms : ℕ) (db : Db)
    → IsValid db
    → encrypt_fields c n x ≡ ok y
    → Outcome c n consumer_id x y now_ms db
contribute-Outcome c n consumer_id x y now_ms db v e =
    elim (Option-cases (fetch_one (has_key y.phash_hex consumer_id) db.fingerprints)) [
      | inl h ↦
          let (w, k) = write_new y consumer_id now_ms db h in
          let q = written (sym w) in
          added (new_row y consumer_id now_ms db) h (ap (λ p. p.0) q) (ap (λ p. p.1.fingerprints) q)
            (unfold new_row in refl) k
      | inr (r, h) ↦ elim (Bool-cases (is_deleted r.status)) [
        | inl dead ↦
            let (w, k) = write_tombstone y consumer_id now_ms db v r h dead in
            let q = written (sym w) in
            revived r (resurrected y now_ms db.next_sync_seq r) h dead (ap (λ p. p.0) q)
              (ap (λ p. fetch_one (has_key y.phash_hex consumer_id) p.1.fingerprints) q
                ∙ key-back y consumer_id now_ms db v r h)
              (ap (λ p. flaggers r.id p.1.flags) q ∙ flaggers-delete_self r.id db.flags) refl k
        | inr live ↦ rejected r h live (written (sym (write_live y consumer_id now_ms db r h live)))
      ]
    ]
  where
    written :
        {p : Contributed × Db}
        → p ≡ write (select_existing y.phash_hex consumer_id db) y consumer_id now_ms db
        → contribute c n consumer_id x now_ms db ≡ (ok p.0, p.1)
    written k = unfold contribute in rw (e, contribute, k) refl
