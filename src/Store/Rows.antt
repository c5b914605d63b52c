-- ===== src/Store/Rows.antt =====
-- Properties of a single row that the operations of api/fingerprint_store.py keep.
use fingerprint_hub.Prelude.{
  ℕ, Str, Bool, ◌&&◌, leb, Option, none, some, List, [], ◌∷◌, All, All-append, Bool-cases, inl, inr,
}
use fingerprint_hub.Prelude.Int.{ℤ}
use fingerprint_hub.Cipher.{Cipher}
use fingerprint_hub.Schema.{is_deleted, is_active, Status, Fingerprint, Db}
use fingerprint_hub.Sql.{exists, update, delete}
use fingerprint_hub.Sql.Rows.{All-update, All-select}
use fingerprint_hub.Store.Keys.{has_id, has_key}
use fingerprint_hub.Store.Contribute.{
  Contribution, Existing, resurrected, resurrect, new_row, insert, write,
}
use fingerprint_hub.Store.Hits.{fits_integer, counted, record_hit, report_hit}
use fingerprint_hub.Store.Hits.Branches.{report_hit_branches}
use fingerprint_hub.Store.Flags.{hide, set_flag_count, settle_flags, record_flag, flag}
use fingerprint_hub.Store.Flags.Branches.{flag_branches}
use fingerprint_hub.Store.Delete.{is_live, tombstone, soft_delete}
use fingerprint_hub.Store.Retention.{
  Periods, anonymize, has_negative, metadata_outlives_row, purge_tombstones, purge, apply_retention,
}

-- What an UPDATE or an INSERT writes has the property, if the contribution has its own.
pub record Kept (F : Contribution → Type 0) (Q : Fingerprint → Type 0) : Type 0 where
  pub new_row :
      (x : Contribution) (consumer_id now_ms : ℕ) (db : Db)
      → F x
      → Q (new_row x consumer_id now_ms db)
  pub resurrected :
      (x : Contribution) (now_ms seq : ℕ) (r : Fingerprint)
      → F x
      → Q r
      → Q (resurrected x now_ms seq r)
  pub counted : (now_ms : ℕ) (r : Fingerprint) → Q r → Q (counted now_ms r)
  pub hide : (count now_ms seq : ℕ) (r : Fingerprint) → Q r → Q (hide count now_ms seq r)
  pub set_flag_count :
      (count now_ms : ℕ) (r : Fingerprint) → Q r → Q (set_flag_count count now_ms r)
  pub tombstone : (now_ms seq : ℕ) (r : Fingerprint) → Q r → Q (tombstone now_ms seq r)
  pub anonymize : (r : Fingerprint) → Q r → Q (anonymize r)

module _ (F : Contribution → Type 0) (Q : Fingerprint → Type 0) (k : Kept F Q) where
  abbrev AllRows : Db → Type 0
  AllRows db = All Q db.fingerprints

  updated :
      (p : Fingerprint → Bool) (g : Fingerprint → Fingerprint)
      → ((r : Fingerprint) → Q r → Q (g r))
      → (rows : List Fingerprint) → All Q rows
      → All Q (update p g rows)
  updated p g h rows = All-update Q Q p g (λ r e q. h r q) (λ r e q. q) rows

  pub write-AllRows :
      (existing : Option Existing) (x : Contribution) (consumer_id now_ms : ℕ) (db : Db)
      → F x
      → AllRows db
      → AllRows (write existing x consumer_id now_ms db).1
  unfolding write insert resurrect
  write-AllRows none x consumer_id now_ms db f s =
      elim (Bool-cases (exists (has_key x.phash_hex consumer_id) db.fingerprints)) [
        | inl e ↦ rw e s
        | inr e ↦ rw e (
            All-append Q db.fingerprints (new_row x consumer_id now_ms db ∷ []) s
              (k.new_row x consumer_id now_ms db f, tt))
      ]
  write-AllRows (some existing) x consumer_id now_ms db f s =
      elim (Bool-cases (is_deleted existing.status)) [
        | inl e ↦ rw e (
            updated (has_id existing.id) (resurrected x now_ms db.next_sync_seq)
              (λ r. k.resurrected x now_ms db.next_sync_seq r f) db.fingerprints s)
        | inr e ↦ rw e s
      ]

  record_hit-AllRows :
      (id consumer_id : ℕ) (guild : Option Str) (distance : Option ℤ) (now_ms : ℕ) (db : Db)
      → AllRows db
      → AllRows (record_hit id consumer_id guild distance now_ms db).1
  unfolding record_hit
  record_hit-AllRows id consumer_id guild distance now_ms db s =
      elim (Bool-cases (fits_integer distance)) [
        | inl e ↦ rw e (updated (has_id id) (counted now_ms) (k.counted now_ms) db.fingerprints s)
        | inr e ↦ rw e s
      ]

  settle_flags-AllRows :
      (id : ℕ) (status : Status) (count now_ms threshold : ℕ) (db : Db)
      → AllRows db
      → AllRows (settle_flags id status count now_ms threshold db).1
  unfolding settle_flags
  settle_flags-AllRows id status count now_ms threshold db s =
      elim (Bool-cases (leb threshold count && is_active status)) [
        | inl e ↦ rw e (
            updated (has_id id) (hide count now_ms db.next_sync_seq)
              (k.hide count now_ms db.next_sync_seq) db.fingerprints s)
        | inr e ↦ rw e (
            updated (has_id id) (set_flag_count count now_ms) (k.set_flag_count count now_ms)
              db.fingerprints s)
      ]

  pub report_hit-AllRows :
      (c : Cipher) (nonce : List ℕ) (id consumer_id : ℕ) (guild_id : Option Str)
      (distance : Option ℤ) (now_ms : ℕ) (db : Db)
      → AllRows db
      → AllRows (report_hit c nonce id consumer_id guild_id distance now_ms db).1
  report_hit-AllRows c nonce id consumer_id guild_id distance now_ms db s =
      elim (report_hit_branches c nonce id consumer_id guild_id distance now_ms db) [
        | inl m ↦ rw m.result s
        | inr (inl m) ↦ rw m.result s
        | inr (inr m) ↦ rw m.result (record_hit-AllRows id consumer_id m.guild distance now_ms db s)
      ]

  pub flag-AllRows :
      (c : Cipher) (nonce : List ℕ) (id consumer_id : ℕ) (reason : Option Str)
      (now_ms threshold : ℕ) (db : Db)
      → AllRows db
      → AllRows (flag c nonce id consumer_id reason now_ms threshold db).1
  flag-AllRows c nonce id consumer_id reason now_ms threshold db s =
      elim (flag_branches c nonce id consumer_id reason now_ms threshold db) [
        | inl m ↦ rw m.result s
        | inr (inl m) ↦ rw m.result s
        | inr (inr m) ↦
            rw m.result
              (unfold record_flag in settle_flags-AllRows id m.row.status _ now_ms threshold _ s)
      ]

  pub soft_delete-AllRows :
      (id now_ms : ℕ) (db : Db) → AllRows db → AllRows (soft_delete id now_ms db).1
  unfolding soft_delete
  soft_delete-AllRows id now_ms db s =
      updated (is_live id) (tombstone now_ms db.next_sync_seq) (k.tombstone now_ms db.next_sync_seq)
        db.fingerprints s

  purge-AllRows : (now_ms : ℕ) (p : Periods) (db : Db) → AllRows db → AllRows (purge now_ms p db).1
  unfolding purge purge_tombstones delete
  purge-AllRows now_ms p db s = updated _ anonymize k.anonymize _ (All-select Q _ db.fingerprints s)

  pub apply_retention-AllRows :
      (now_ms : ℕ) (p : Periods) (dry_run : Bool) (db : Db)
      → AllRows db
      → AllRows (apply_retention now_ms p dry_run db).1
  unfolding apply_retention
  apply_retention-AllRows now_ms p dry_run db s = elim (Bool-cases (has_negative p)) [
    | inl e ↦ rw e s
    | inr e ↦ elim (Bool-cases (metadata_outlives_row p)) [
      | inl f ↦ rw (e, f) s
      | inr f ↦ elim (Bool-cases dry_run) [
        | inl g ↦ rw (e, f, g) s
        | inr g ↦ rw (e, f, g) (purge-AllRows now_ms p db s)
      ]
    ]
  ]
