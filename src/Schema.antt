-- ===== src/Schema.antt =====
-- The tables of alembic/versions/0001_init.py: a record for a row, and the database as the tables
-- with the next values of its sequences. The surrogate keys of `fingerprint_hits` and
-- `fingerprint_flags`, which no statement of the service reads, are left out.
use fingerprint_hub.Prelude.{ℕ, Str, Bool, true, false, Option, List}
use fingerprint_hub.Prelude.Int.{ℤ}

-- the CHECK on `status`
pub data Status : Type 0 where
  active hidden deleted : Status

abbrev pub is_active : Status → Bool
is_active active = true
is_active _ = false

abbrev pub is_hidden : Status → Bool
is_hidden hidden = true
is_hidden _ = false

abbrev pub is_deleted : Status → Bool
is_deleted deleted = true
is_deleted _ = false

pub record Consumer : Type 0 where
  pub id : ℕ
  pub name : Str
  pub api_key_hash : Str
  pub scopes : List Str
  pub enabled : Bool
  pub created_at_ms : ℕ
  pub last_seen_at_ms : Option ℕ

pub record Fingerprint : Type 0 where
  pub id : ℕ
  pub sync_seq : ℕ
  pub phash_hex : Str
  pub algorithm : Str
  pub algorithm_version : Str
  pub normalization_version : Str
  pub category : Str
  pub action : Str
  pub consumer_id : ℕ
  pub source_guild_id : Option Str
  pub reason : Option Str
  pub source_url : Option Str
  pub added_at_ms : ℕ
  pub updated_at_ms : ℕ
  pub hit_count : ℕ
  pub last_hit_at_ms : Option ℕ
  pub auto_added : Bool
  pub provenance : Str
  pub status : Status
  pub flag_count : ℕ

pub record Hit : Type 0 where
  pub fingerprint_id : ℕ
  pub consumer_id : ℕ
  pub guild_id : Option Str
  pub distance : Option ℤ
  pub hit_at_ms : ℕ

pub record Flag : Type 0 where
  pub fingerprint_id : ℕ
  pub consumer_id : ℕ
  pub reason : Option Str
  pub created_at_ms : ℕ

pub record Db : Type 0 where
  pub consumers : List Consumer
  pub fingerprints : List Fingerprint
  pub hits : List Hit
  pub flags : List Flag
  pub next_consumer_id : ℕ
  pub next_fingerprint_id : ℕ
  pub next_sync_seq : ℕ
