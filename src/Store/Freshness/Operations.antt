-- ===== src/Store/Freshness/Operations.antt =====
-- Every operation of the store moves `sync_seq` with the content.
use fingerprint_hub.Prelude.{
  ℕ, subst, ◌≤◌, ◌≡◌, refl, ◌∙◌, ◌⊎◌, inl, inr, Bool, ◌&&◌, leb, Str, Option, none, some, List, [],
  ◌∷◌, arith, All, All-append, Bool-cases, Result-cases,
}
use fingerprint_hub.Prelude.Int.{ℤ}
use fingerprint_hub.Cipher.{Cipher}
use fingerprint_hub.Schema.{Status, is_active, is_deleted, Fingerprint, Flag, Db}
use fingerprint_hub.Store.Keys.{has_id, has_key, seq_after}
use fingerprint_hub.Store.Contribute.{
  Contribution, Nonces, Existing, encrypt_fields, select_existing, resurrected, resurrect, new_row,
  insert, write, contribute,
}
use fingerprint_hub.Store.Hits.{counted, fits_integer, record_hit, report_hit}
use fingerprint_hub.Store.Hits.Branches.{report_hit_branches}
use fingerprint_hub.Store.Flags.{hide, set_flag_count, settle_flags, record_flag, flag}
use fingerprint_hub.Store.Flags.Branches.{flag_branches}
use fingerprint_hub.Store.Delete.{is_live, tombstone, soft_delete}
use fingerprint_hub.Store.Retention.{
  Periods, anonymize, has_negative, metadata_outlives_row, purge_tombstones, purge, apply_retention,
}
use fingerprint_hub.Store.Feed.{sync_columns}
use fingerprint_hub.Store.Validity.{IsValid}
use fingerprint_hub.Store.Freshness.{
  WasThere, IsFresh, Follows, all_there, still_there, Follows-refl,
}
use fingerprint_hub.Sql.{exists, update, delete, fetch_one}
use fingerprint_hub.Sql.Rows.{All-update, All-select}

-- What a SET list does to the columns of the feed: nothing, or it takes the next number too.
record Renumbers (n : ℕ) (r s : Fingerprint) : Type 0 where
  owner : r.consumer_id ≡ s.consumer_id
  id : r.id ≡ s.id
  columns : (n ≤ s.sync_seq) ⊎ (sync_columns r ≡ sync_columns s)

updated-IsFresh :
    (db : Db) (r s : Fingerprint)
    → Renumbers db.next_sync_seq r s
    → (db.next_sync_seq ≤ s.sync_seq) ⊎ (sync_columns r ≡ sync_columns s)
    → WasThere db.fingerprints r
    → IsFresh db s
updated-IsFresh db r s h (inl n) w = inr (
    inl (record {
      new_seq = n;
      owned = record {
        row = w.row;
        found = subst (λ i. fetch_one (has_id i) db.fingerprints ≡ some w.row) h.id w.found;
        owner = w.owner ∙ h.owner;
      };
    }))
updated-IsFresh db r s h (inr e) w = inr (
    inr (record {
      row = w.row;
      found = subst (λ i. fetch_one (has_id i) db.fingerprints ≡ some w.row) h.id w.found;
      columns = w.columns ∙ e;
      owner = w.owner ∙ h.owner;
    }))

update-Follows :
    (db : Db)
    → IsValid db
    → (p : Fingerprint → Bool) (g : Fingerprint → Fingerprint)
    → ((r : Fingerprint) → Renumbers db.next_sync_seq r (g r))
    → All (IsFresh db) (update p g db.fingerprints)
update-Follows db v p g h =
    All-update (WasThere db.fingerprints) (IsFresh db) p g
      (λ r _ w. updated-IsFresh db r (g r) (h r) (h r).columns w) (λ r _ w. inr (inr w))
      db.fingerprints (all_there db v)

seq_after-grows : (id : ℕ) (db : Db) → db.next_sync_seq ≤ seq_after id db
unfolding seq_after
seq_after-grows id db = ground arith

module _ (db : Db) (v : IsValid db) where
  pub soft_delete-Follows : (id now_ms : ℕ) → Follows db (soft_delete id now_ms db).1
  unfolding soft_delete
  soft_delete-Follows id now_ms = record {
    seq_grows = ground arith;
    id_grows = omega arith;
    rows =
        update-Follows db v (is_live id) _ (λ r.
          unfold tombstone in record { owner = refl; id = refl; columns = inl (omega arith) });
  }

  resurrect-Follows :
      (id : ℕ) (x : Contribution) (now_ms : ℕ) → Follows db (resurrect id x now_ms db).1
  unfolding resurrect
  resurrect-Follows id x now_ms = record {
    seq_grows = seq_after-grows id db;
    id_grows = omega arith;
    rows = update-Follows db v (has_id id) _ (λ r.
        unfold resurrected in record { owner = refl; id = refl; columns = inl (omega arith) });
  }

  insert-Follows :
      (x : Contribution) (consumer_id now_ms : ℕ) → Follows db (insert x consumer_id now_ms db).1
  unfolding insert
  insert-Follows x consumer_id now_ms =
      elim (Bool-cases (exists (has_key x.phash_hex consumer_id) db.fingerprints)) [
        | inl e ↦ rw e (record { seq_grows = omega arith; id_grows = omega arith; rows = there })
        | inr e ↦ rw e (record {
          seq_grows = omega arith;
          id_grows = omega arith;
          rows =
              All-append (IsFresh db) db.fingerprints (new_row x consumer_id now_ms db ∷ []) there (
                inl (unfold new_row in record { new_seq = omega arith; new_id = omega arith }),
                tt,
              );
        })
      ]
    where
      there : All (IsFresh db) db.fingerprints
      there = still_there db v

  pub write-Follows :
      (existing : Option Existing) (x : Contribution) (consumer_id now_ms : ℕ)
      → Follows db (write existing x consumer_id now_ms db).1
  unfolding write
  write-Follows none x consumer_id now_ms = insert-Follows x consumer_id now_ms
  write-Follows (some existing) x consumer_id now_ms =
      elim (Bool-cases (is_deleted existing.status)) [
        | inl e ↦ rw e (resurrect-Follows existing.id x now_ms)
        | inr e ↦ rw e (Follows-refl db v)
      ]

  pub contribute-Follows :
      (c : Cipher) (n : Nonces) (consumer_id : ℕ) (x : Contribution) (now_ms : ℕ)
      → Follows db (contribute c n consumer_id x now_ms db).1
  unfolding contribute
  contribute-Follows c n consumer_id x now_ms = elim (Result-cases (encrypt_fields c n x)) [
    | inl (e, f) ↦ rw (f, contribute) (Follows-refl db v)
    | inr (y, f) ↦
        rw (f, contribute)
          (write-Follows (select_existing y.phash_hex consumer_id db) y consumer_id now_ms)
  ]

  record_hit-Follows :
      (id consumer_id : ℕ) (guild_id : Option Str) (distance : Option ℤ) (now_ms : ℕ)
      → Follows db (record_hit id consumer_id guild_id distance now_ms db).1
  unfolding record_hit
  record_hit-Follows id consumer_id guild_id distance now_ms =
      elim (Bool-cases (fits_integer distance)) [
        | inl e ↦ rw e (record {
          seq_grows = omega arith;
          id_grows = omega arith;
          rows = update-Follows db v (has_id id) _ (λ r.
              unfold counted sync_columns in
              record { owner = refl; id = refl; columns = inr refl });
        })
        | inr e ↦ rw e (Follows-refl db v)
      ]

  pub report_hit-Follows :
      (c : Cipher) (nonce : List ℕ) (id consumer_id : ℕ) (guild_id : Option Str)
      (distance : Option ℤ) (now_ms : ℕ)
      → Follows db (report_hit c nonce id consumer_id guild_id distance now_ms db).1
  report_hit-Follows c nonce id consumer_id guild_id distance now_ms =
      elim (report_hit_branches c nonce id consumer_id guild_id distance now_ms db) [
        | inl m ↦ rw m.result (Follows-refl db v)
        | inr (inl m) ↦ rw m.result (Follows-refl db v)
        | inr (inr m) ↦ rw m.result (record_hit-Follows id consumer_id m.guild distance now_ms)
      ]

  settle_flags-Follows :
      (id : ℕ) (status : Status) (n now_ms auto_hide_threshold : ℕ) (flags : List Flag)
      → Follows db
          (settle_flags id status n now_ms auto_hide_threshold (record db { flags = flags })).1
  unfolding settle_flags
  settle_flags-Follows id status n now_ms auto_hide_threshold flags =
      elim (Bool-cases (leb auto_hide_threshold n && is_active status)) [
        | inl e ↦ rw e (record {
          seq_grows = ground arith;
          id_grows = omega arith;
          rows =
              update-Follows db v (has_id id) _ (λ r.
                unfold hide in record { owner = refl; id = refl; columns = inl (omega arith) });
        })
        | inr e ↦ rw e (record {
          seq_grows = omega arith;
          id_grows = omega arith;
          rows = update-Follows db v (has_id id) _ (λ r.
              unfold set_flag_count sync_columns in
              record { owner = refl; id = refl; columns = inr refl });
        })
      ]

  pub flag-Follows :
      (c : Cipher) (nonce : List ℕ) (id consumer_id : ℕ) (reason : Option Str)
      (now_ms auto_hide_threshold : ℕ)
      → Follows db (flag c nonce id consumer_id reason now_ms auto_hide_threshold db).1
  unfolding record_flag
  flag-Follows c nonce id consumer_id reason now_ms auto_hide_threshold =
      elim (flag_branches c nonce id consumer_id reason now_ms auto_hide_threshold db) [
        | inl m ↦ rw m.result (Follows-refl db v)
        | inr (inl m) ↦ rw m.result (Follows-refl db v)
        | inr (inr m) ↦
            rw m.result (settle_flags-Follows id m.row.status _ now_ms auto_hide_threshold _)
      ]

  purge-Follows : (now_ms : ℕ) (p : Periods) → Follows db (purge now_ms p db).1
  unfolding purge purge_tombstones
  purge-Follows now_ms p = record {
    seq_grows = omega arith;
    id_grows = omega arith;
    rows =
        All-update (WasThere db.fingerprints) (IsFresh db) _ anonymize
          (λ r _ w. inr (inr (anonymized r w))) (λ r _ w. inr (inr w)) _
          (unfold delete in
            All-select (WasThere db.fingerprints) _ db.fingerprints (all_there db v));
  }
    where
      anonymized :
          (r : Fingerprint) → WasThere db.fingerprints r → WasThere db.fingerprints (anonymize r)
      anonymized r w =
          unfold anonymize sync_columns in
          record { row = w.row; found = w.found; columns = w.columns; owner = w.owner }

  pub apply_retention-Follows :
      (now_ms : ℕ) (p : Periods) (dry_run : Bool)
      → Follows db (apply_retention now_ms p dry_run db).1
  unfolding apply_retention
  apply_retention-Follows now_ms p dry_run = elim (Bool-cases (has_negative p)) [
    | inl e ↦ rw e (Follows-refl db v)
    | inr e ↦ rw e (elim (Bool-cases (metadata_outlives_row p)) [
      | inl f ↦ rw f (Follows-refl db v)
      | inr f ↦ rw f (elim (Bool-cases dry_run) [
        | inl g ↦ rw g (Follows-refl db v)
        | inr g ↦ rw g (purge-Follows now_ms p)
      ])
    ])
  ]
