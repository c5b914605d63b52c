-- ===== src/Store/Contribute.antt =====
-- `contribute` of api/fingerprint_store.py.
pub mod Fields
use fingerprint_hub.Prelude.{
  ℕ, ◌+◌, Str, str_eq, Bool, Option, none, some, List, [], ◌∷◌, ◌++◌, if◌then◌else◌, Result, ok,
  raise, ◌>>=◌,
}
use fingerprint_hub.Schema.{Status, active, is_deleted, Fingerprint, Db}
use fingerprint_hub.Cipher.{Cipher}
use fingerprint_hub.Store.Keys.{has_id, has_key, flag_of, seq_after}
use fingerprint_hub.Sql.{fetch_one, exists, update, delete}

-- The keyword arguments of `contribute` that a client chooses.
pub record Contribution : Type 0 where
  pub phash_hex : Str
  pub algorithm : Str
  pub algorithm_version : Str
  pub normalization_version : Str
  pub category : Str
  pub action : Str
  pub source_guild_id : Option Str
  pub reason : Option Str
  pub source_url : Option Str
  pub auto_added : Bool
  pub provenance : Str

-- The nonces that the three calls of `encrypt_text` draw, in their order.
pub record Nonces : Type 0 where
  pub reason : List ℕ
  pub source_url : List ℕ
  pub source_guild_id : List ℕ

-- `SELECT id, status`
pub record Existing : Type 0 where
  pub id : ℕ
  pub status : Status

-- `(row, True)` with what RETURNING gave, and `(existing, False)`
pub data Contributed : Type 0 where
  created : Option Fingerprint → Contributed
  duplicate : Option Existing → Contributed

-- The three encrypted fields, before any statement runs.
unfoldable pub encrypt_fields : Cipher → Nonces → Contribution → Result Contribution
encrypt_fields c n x = do
  reason ← c.encrypt n.reason x.reason
  source_url ← c.encrypt n.source_url x.source_url
  source_guild_id ← c.encrypt n.source_guild_id x.source_guild_id
  ok (record x { source_guild_id = source_guild_id; reason = reason; source_url = source_url })

existing_of : Option Fingerprint → Option Existing
existing_of none = none
existing_of (some r) = some (record { id = r.id; status = r.status })

unfoldable pub select_existing : Str → ℕ → Db → Option Existing
unfolding existing_of fetch_one has_key str_eq
select_existing phash_hex consumer_id db =
    existing_of (fetch_one (has_key phash_hex consumer_id) db.fingerprints)

-- the SET list of the UPDATE
unfoldable pub resurrected : Contribution → ℕ → ℕ → Fingerprint → Fingerprint
resurrected x now_ms seq r = record r {
  sync_seq = seq;
  algorithm = x.algorithm;
  algorithm_version = x.algorithm_version;
  normalization_version = x.normalization_version;
  category = x.category;
  action = x.action;
  source_guild_id = x.source_guild_id;
  reason = x.reason;
  source_url = x.source_url;
  auto_added = x.auto_added;
  provenance = x.provenance;
  status = active;
  added_at_ms = now_ms;
  updated_at_ms = now_ms;
  flag_count = 0;
}

-- The DELETE of the stale flags and the UPDATE of the tombstone.
unfoldable pub resurrect : ℕ → Contribution → ℕ → Db → Contributed × Db
unfolding flag_of has_id seq_after resurrected fetch_one update delete
resurrect id x now_ms db =
    let rows = update (has_id id) (resurrected x now_ms db.next_sync_seq) db.fingerprints in
    (
      created (fetch_one (has_id id) rows),
      record db {
        flags = delete (flag_of id) db.flags;
        fingerprints = rows;
        next_sync_seq = seq_after id db;
      },
    )

-- The row of the INSERT: the columns that it names, and the defaults of the others.
unfoldable pub new_row : Contribution → ℕ → ℕ → Db → Fingerprint
new_row x consumer_id now_ms db = record {
  id = db.next_fingerprint_id;
  sync_seq = db.next_sync_seq;
  phash_hex = x.phash_hex;
  algorithm = x.algorithm;
  algorithm_version = x.algorithm_version;
  normalization_version = x.normalization_version;
  category = x.category;
  action = x.action;
  consumer_id = consumer_id;
  source_guild_id = x.source_guild_id;
  reason = x.reason;
  source_url = x.source_url;
  added_at_ms = now_ms;
  updated_at_ms = now_ms;
  hit_count = 0;
  last_hit_at_ms = none;
  auto_added = x.auto_added;
  provenance = x.provenance;
  status = active;
  flag_count = 0;
}

-- INSERT … ON CONFLICT DO NOTHING. The defaults draw from both sequences before the conflict is
-- seen, so those advance on either branch.
unfoldable pub insert : Contribution → ℕ → ℕ → Db → Contributed × Db
unfolding new_row select_existing exists
insert x consumer_id now_ms db =
    let drawn = record db {
      next_fingerprint_id = db.next_fingerprint_id + 1;
      next_sync_seq = db.next_sync_seq + 1;
    } in
    let row = new_row x consumer_id now_ms db in
    if exists (has_key x.phash_hex consumer_id) db.fingerprints
    then (duplicate (select_existing x.phash_hex consumer_id db), drawn)
    else (created (some row), record drawn { fingerprints = db.fingerprints ++ row ∷ [] })

-- What the transaction does after its SELECT returned `existing`. Another transaction may have
-- committed in between, so the database is not always the one that the SELECT read.
unfoldable pub write : Option Existing → Contribution → ℕ → ℕ → Db → Contributed × Db
unfolding resurrect insert
write none x consumer_id now_ms db = insert x consumer_id now_ms db
write (some existing) x consumer_id now_ms db =
    if is_deleted existing.status
    then resurrect existing.id x now_ms db
    else (duplicate (some existing), db)

unfoldable pub contribute : Cipher → Nonces → ℕ → Contribution → ℕ → Db → Result Contributed × Db
unfolding encrypt_fields write
contribute c n consumer_id x now_ms db = elim (encrypt_fields c n x) [
  | raise e ↦ (raise e, db)
  | ok y ↦
      let (r, db') = write (select_existing y.phash_hex consumer_id db) y consumer_id now_ms db in
      (ok r, db')
]
