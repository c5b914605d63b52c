-- ===== src/Store/Secrets.antt =====
-- The texts with secrets that the tables of alembic/versions/0001_init.py hold, and what the operations
-- of api/fingerprint_store.py do to them.
use fingerprint_hub.Prelude.{
  ℕ, Str, Bool, not, ◌&&◌, leb, Option, none, some, List, [], ◌∷◌, All, All-append, Bool-cases, inl,
  inr,
}
use fingerprint_hub.Prelude.Int.{ℤ}
use fingerprint_hub.Schema.{is_deleted, is_active, Status, Fingerprint, Flag, Db}
use fingerprint_hub.Sql.{exists, update, delete}
use fingerprint_hub.Sql.Rows.{All-update, All-select}
use fingerprint_hub.Store.Keys.{has_id, has_key, flag_of}
use fingerprint_hub.Store.Contribute.{
  Contribution, Existing, resurrected, resurrect, new_row, insert, write,
}
use fingerprint_hub.Store.Hits.{fits_integer, counted, record_hit}
use fingerprint_hub.Store.Flags.{
  has_flagger, insert_flag, hide, set_flag_count, settle_flags, record_flag,
}
use fingerprint_hub.Store.Delete.{is_live, tombstone, soft_delete}
use fingerprint_hub.Store.Retention.{
  Periods, cutoff, hit_before, flag_reason_before, tombstone_before, clear_reason, anonymize,
  has_negative, metadata_outlives_row, purge_tombstones, purge, apply_retention,
}

-- A predicate of the value, where there is one.
abbrev pub Every : (Str → Type 0) → Option Str → Type 0
Every P none = Unit
Every P (some v) = P v

-- Every text with a secret that the tables hold.
pub record EverySecret (P : Str → Type 0) (db : Db) : Type 0 where
  pub rows :
      All (λ r. Every P r.source_guild_id × Every P r.reason × Every P r.source_url) db.fingerprints
  pub hits : All (λ h. Every P h.guild_id) db.hits
  pub flags : All (λ f. Every P f.reason) db.flags

module _ (P : Str → Type 0) where
  abbrev RowSecrets : Fingerprint → Type 0
  RowSecrets r = Every P r.source_guild_id × Every P r.reason × Every P r.source_url

  abbrev pub FieldSecrets : Contribution → Type 0
  FieldSecrets x = Every P x.source_guild_id × Every P x.reason × Every P x.source_url

  -- An UPDATE that leaves the three columns as they are, or empties them.
  update-RowSecrets :
      (p : Fingerprint → Bool) (g : Fingerprint → Fingerprint)
      → ((r : Fingerprint) → RowSecrets r → RowSecrets (g r))
      → (rows : List Fingerprint) → All RowSecrets rows
      → All RowSecrets (update p g rows)
  update-RowSecrets p g h rows =
      All-update RowSecrets RowSecrets p g (λ r e k. h r k) (λ r e k. k) rows

  insert-EverySecret :
      (x : Contribution) (consumer_id now_ms : ℕ) (db : Db)
      → FieldSecrets x
      → EverySecret P db
      → EverySecret P (insert x consumer_id now_ms db).1
  unfolding insert new_row
  insert-EverySecret x consumer_id now_ms db f s =
      elim (Bool-cases (exists (has_key x.phash_hex consumer_id) db.fingerprints)) [
        | inl e ↦ rw e (record { rows = s.rows; hits = s.hits; flags = s.flags })
        | inr e ↦ rw e (record {
          rows =
              All-append RowSecrets db.fingerprints (new_row x consumer_id now_ms db ∷ []) s.rows
                (f, tt);
          hits = s.hits;
          flags = s.flags;
        })
      ]

  resurrect-EverySecret :
      (id : ℕ) (x : Contribution) (now_ms : ℕ) (db : Db)
      → FieldSecrets x
      → EverySecret P db
      → EverySecret P (resurrect id x now_ms db).1
  unfolding resurrect resurrected delete
  resurrect-EverySecret id x now_ms db f s = record {
    rows =
        update-RowSecrets (has_id id) (resurrected x now_ms db.next_sync_seq) (λ r k. f)
          db.fingerprints s.rows;
    hits = s.hits;
    flags = All-select (λ g. Every P g.reason) (λ g. not (flag_of id g)) db.flags s.flags;
  }

  pub write-EverySecret :
      (existing : Option Existing) (x : Contribution) (consumer_id now_ms : ℕ) (db : Db)
      → FieldSecrets x
      → EverySecret P db
      → EverySecret P (write existing x consumer_id now_ms db).1
  unfolding write
  write-EverySecret none x consumer_id now_ms db f s =
      insert-EverySecret x consumer_id now_ms db f s
  write-EverySecret (some existing) x consumer_id now_ms db f s =
      elim (Bool-cases (is_deleted existing.status)) [
        | inl e ↦ rw e (resurrect-EverySecret existing.id x now_ms db f s)
        | inr e ↦ rw e s
      ]

  settle_flags-EverySecret :
      (id : ℕ) (status : Status) (count now_ms threshold : ℕ) (db : Db)
      → EverySecret P db
      → EverySecret P (settle_flags id status count now_ms threshold db).1
  unfolding settle_flags hide set_flag_count
  settle_flags-EverySecret id status count now_ms threshold db s =
      elim (Bool-cases (leb threshold count && is_active status)) [
        | inl e ↦ rw e (record {
          rows =
              update-RowSecrets (has_id id) (hide count now_ms db.next_sync_seq) (λ r k. k)
                db.fingerprints s.rows;
          hits = s.hits;
          flags = s.flags;
        })
        | inr e ↦ rw e (record {
          rows =
              update-RowSecrets (has_id id) (set_flag_count count now_ms) (λ r k. k) db.fingerprints
                s.rows;
          hits = s.hits;
          flags = s.flags;
        })
      ]

  insert_flag-All :
      (f : Flag) (flags : List Flag)
      → Every P f.reason
      → All (λ g. Every P g.reason) flags
      → All (λ g. Every P g.reason) (insert_flag f flags)
  unfolding insert_flag
  insert_flag-All f flags h a =
      elim (Bool-cases (exists (has_flagger f.fingerprint_id f.consumer_id) flags)) [
        | inl e ↦ rw e a
        | inr e ↦ rw e (All-append (λ g. Every P g.reason) flags (f ∷ []) a (h, tt))
      ]

  pub record_flag-EverySecret :
      (id : ℕ) (status : Status) (consumer_id : ℕ) (sealed : Option Str) (now_ms threshold : ℕ)
      (db : Db)
      → Every P sealed
      → EverySecret P db
      → EverySecret P (record_flag id status consumer_id sealed now_ms threshold db).1
  unfolding record_flag
  record_flag-EverySecret id status consumer_id sealed now_ms threshold db h s =
      settle_flags-EverySecret id status _ now_ms threshold _
        (record { rows = s.rows; hits = s.hits; flags = insert_flag-All _ db.flags h s.flags })

  pub record_hit-EverySecret :
      (id consumer_id : ℕ) (guild : Option Str) (distance : Option ℤ) (now_ms : ℕ) (db : Db)
      → Every P guild
      → EverySecret P db
      → EverySecret P (record_hit id consumer_id guild distance now_ms db).1
  unfolding record_hit counted
  record_hit-EverySecret id consumer_id guild distance now_ms db h s =
      elim (Bool-cases (fits_integer distance)) [
        | inl e ↦ rw e (record {
          rows = update-RowSecrets (has_id id) (counted now_ms) (λ r k. k) db.fingerprints s.rows;
          hits = All-append (λ t. Every P t.guild_id) db.hits (_ ∷ []) s.hits (h, tt);
          flags = s.flags;
        })
        | inr e ↦ rw e s
      ]

  pub soft_delete-EverySecret :
      (id now_ms : ℕ) (db : Db) → EverySecret P db → EverySecret P (soft_delete id now_ms db).1
  unfolding soft_delete tombstone
  soft_delete-EverySecret id now_ms db s = record {
    rows =
        update-RowSecrets (is_live id) (tombstone now_ms db.next_sync_seq) (λ r k. k)
          db.fingerprints s.rows;
    hits = s.hits;
    flags = s.flags;
  }

  purge_tombstones-EverySecret :
      (at : ℤ) (db : Db) → EverySecret P db → EverySecret P (purge_tombstones at db)
  unfolding purge_tombstones delete
  purge_tombstones-EverySecret at db s = record {
    rows = All-select RowSecrets (λ r. not (tombstone_before at r)) db.fingerprints s.rows;
    hits = All-select (λ h. Every P h.guild_id) _ db.hits s.hits;
    flags = All-select (λ f. Every P f.reason) _ db.flags s.flags;
  }

  purge-EverySecret :
      (now_ms : ℕ) (p : Periods) (db : Db) → EverySecret P db → EverySecret P (purge now_ms p db).1
  unfolding purge delete clear_reason anonymize
  purge-EverySecret now_ms p db s =
      let before : Db = record db {
        hits = delete (hit_before (cutoff now_ms p.hit_retention_ms)) db.hits;
        flags =
            update (flag_reason_before (cutoff now_ms p.flag_reason_retention_ms)) clear_reason
              db.flags;
      } in
      let t = purge_tombstones-EverySecret (cutoff now_ms p.tombstone_retention_ms) before (record {
        rows = s.rows;
        hits = All-select (λ h. Every P h.guild_id) _ db.hits s.hits;
        flags =
            All-update (λ f. Every P f.reason) (λ f. Every P f.reason) _ clear_reason (λ f e k. tt)
              (λ f e k. k) db.flags s.flags;
      }) in
      record {
        rows = update-RowSecrets _ anonymize (λ r k. (tt, tt, tt)) _ t.rows;
        hits = t.hits;
        flags = t.flags;
      }

  pub apply_retention-EverySecret :
      (now_ms : ℕ) (p : Periods) (dry_run : Bool) (db : Db)
      → EverySecret P db
      → EverySecret P (apply_retention now_ms p dry_run db).1
  unfolding apply_retention
  apply_retention-EverySecret now_ms p dry_run db s = elim (Bool-cases (has_negative p)) [
    | inl e ↦ rw e s
    | inr e ↦ elim (Bool-cases (metadata_outlives_row p)) [
      | inl f ↦ rw (e, f) s
      | inr f ↦ elim (Bool-cases dry_run) [
        | inl g ↦ rw (e, f, g) s
        | inr g ↦ rw (e, f, g) (purge-EverySecret now_ms p db s)
      ]
    ]
  ]
