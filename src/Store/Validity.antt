-- ===== src/Store/Validity.antt =====
-- The invariant of the tables, which the constraints of alembic/versions/0001_init.py and the
-- operations of api/fingerprint_store.py keep together.
pub mod Counts
pub mod Updates
pub mod Deletion
pub mod Reports
pub mod Contributing
pub mod Purging
pub mod Flagging
use fingerprint_hub.Prelude.{ℕ, ◌≤◌, ◌<◌, ◌≡◌, ◌≢◌, Bool, true, false, List, All, Pairwise}
use fingerprint_hub.Schema.{Fingerprint, Hit, Flag, Db}
use fingerprint_hub.Store.Keys.{has_id, has_key, hit_of}
use fingerprint_hub.Store.Flags.{flaggers, has_flagger}
use fingerprint_hub.Sql.{exists, count}

-- Both sequences are ahead of the row, its `flag_count` is the number of its flaggers, and its
-- `hit_count` is at least the number of hits that are still recorded.
pub record RowOk (next_id next_seq : ℕ) (flags : List Flag) (hits : List Hit) (r : Fingerprint)
    : Type 0 where
  pub id_below : r.id < next_id
  pub seq_below : r.sync_seq < next_seq
  pub flags_counted : r.flag_count ≡ flaggers r.id flags
  pub hits_counted : count (hit_of r.id) hits ≤ r.hit_count

-- PRIMARY KEY, the unique index on `sync_seq`, and `uq_fingerprints_phash_consumer`
pub record Differ (r s : Fingerprint) : Type 0 where
  pub ids : r.id ≢ s.id
  pub seqs : r.sync_seq ≢ s.sync_seq
  pub keys : has_key r.phash_hex r.consumer_id s ≡ false

-- `uq_fingerprint_flags`
abbrev pub FlagsDiffer : Flag → Flag → Type 0
FlagsDiffer f g = has_flagger f.fingerprint_id f.consumer_id g ≡ false

pub record IsValid (db : Db) : Type 0 where
  pub rows : All (RowOk db.next_fingerprint_id db.next_sync_seq db.flags db.hits) db.fingerprints
  pub distinct_rows : Pairwise Differ db.fingerprints
  pub distinct_flags : Pairwise FlagsDiffer db.flags
  -- the foreign keys
  pub flags_refer : All (λ f. exists (has_id f.fingerprint_id) db.fingerprints ≡ true) db.flags
  pub hits_refer : All (λ h. exists (has_id h.fingerprint_id) db.fingerprints ≡ true) db.hits
