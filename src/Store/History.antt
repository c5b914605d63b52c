-- ===== src/Store/History.antt =====
-- The databases that the service can reach: any operations of the store in any order, with any
-- arguments, and with the two halves of `contribute` apart.
use fingerprint_hub.Prelude.{ℕ, ◌≡◌, ok, Bool, Str, Option, List, []}
use fingerprint_hub.Prelude.Int.{ℤ}
use fingerprint_hub.Cipher.{Cipher}
use fingerprint_hub.Schema.{Db}
use fingerprint_hub.Store.Contribute.{
  Contribution, Existing, Nonces, encrypt_fields, write, contribute,
}
use fingerprint_hub.Store.Hits.{report_hit}
use fingerprint_hub.Store.Flags.{flag}
use fingerprint_hub.Store.Delete.{soft_delete}
use fingerprint_hub.Store.Retention.{Periods, apply_retention}
use fingerprint_hub.Store.Validity.{IsValid}
use fingerprint_hub.Store.Validity.Contributing.{write-IsValid, contribute-IsValid}
use fingerprint_hub.Store.Validity.Reports.{report_hit-IsValid}
use fingerprint_hub.Store.Validity.Flagging.{flag-IsValid}
use fingerprint_hub.Store.Validity.Deletion.{soft_delete-IsValid}
use fingerprint_hub.Store.Validity.Purging.{apply_retention-IsValid}
use fingerprint_hub.Store.Freshness.{Follows, Follows-refl, Follows-trans}
use fingerprint_hub.Store.Freshness.Operations.{
  write-Follows, contribute-Follows, report_hit-Follows, flag-Follows, soft_delete-Follows,
  apply_retention-Follows,
}

-- `races` is a transaction of `contribute` with its fields encrypted, whose SELECT ran before other
-- transactions committed.
pub data Step (c : Cipher) (db : Db) : Db → Type 0 where
  contributes :
      (n : Nonces) (consumer_id : ℕ) (x : Contribution) (now_ms : ℕ)
      → Step c db (contribute c n consumer_id x now_ms db).1
  races :
      (existing : Option Existing) (n : Nonces) (consumer_id : ℕ) (x y : Contribution) (now_ms : ℕ)
      → encrypt_fields c n x ≡ ok y
      → Step c db (write existing y consumer_id now_ms db).1
  reports :
      (nonce : List ℕ) (id consumer_id : ℕ) (guild_id : Option Str) (distance : Option ℤ)
      (now_ms : ℕ)
      → Step c db (report_hit c nonce id consumer_id guild_id distance now_ms db).1
  flags :
      (nonce : List ℕ) (id consumer_id : ℕ) (reason : Option Str) (now_ms auto_hide_threshold : ℕ)
      → Step c db (flag c nonce id consumer_id reason now_ms auto_hide_threshold db).1
  deletes : (id now_ms : ℕ) → Step c db (soft_delete id now_ms db).1
  purges :
      (now_ms : ℕ) (p : Periods) (dry_run : Bool)
      → Step c db (apply_retention now_ms p dry_run db).1

pub data Reach (c : Cipher) (db : Db) : Db → Type 0 where
  here : Reach c db db
  next : {db' db'' : Db} → Reach c db db' → Step c db' db'' → Reach c db db''

-- The tables after the first migration.
abbrev pub init : Db
init = record {
  consumers = [];
  fingerprints = [];
  hits = [];
  flags = [];
  next_consumer_id = 1;
  next_fingerprint_id = 1;
  next_sync_seq = 1;
}

module _ {c : Cipher} where
  pub Step-IsValid : {db db' : Db} → Step c db db' → IsValid db → IsValid db'
  Step-IsValid {db} (contributes n consumer_id x now_ms) v =
      contribute-IsValid c n consumer_id x now_ms db v
  Step-IsValid {db} (races existing n consumer_id x y now_ms e) v =
      write-IsValid existing y consumer_id now_ms db v
  Step-IsValid {db} (reports nonce id consumer_id guild_id distance now_ms) v =
      report_hit-IsValid id consumer_id guild_id distance now_ms c nonce db v
  Step-IsValid {db} (flags nonce id consumer_id reason now_ms auto_hide_threshold) v =
      flag-IsValid id consumer_id reason now_ms auto_hide_threshold c nonce db v
  Step-IsValid {db} (deletes id now_ms) v = soft_delete-IsValid id now_ms db v
  Step-IsValid {db} (purges now_ms p dry_run) v = apply_retention-IsValid now_ms p dry_run db v

  pub Step-Follows : {db db' : Db} → Step c db db' → IsValid db → Follows db db'
  Step-Follows {db} (contributes n consumer_id x now_ms) v =
      contribute-Follows db v c n consumer_id x now_ms
  Step-Follows {db} (races existing n consumer_id x y now_ms e) v =
      write-Follows db v existing y consumer_id now_ms
  Step-Follows {db} (reports nonce id consumer_id guild_id distance now_ms) v =
      report_hit-Follows db v c nonce id consumer_id guild_id distance now_ms
  Step-Follows {db} (flags nonce id consumer_id reason now_ms auto_hide_threshold) v =
      flag-Follows db v c nonce id consumer_id reason now_ms auto_hide_threshold
  Step-Follows {db} (deletes id now_ms) v = soft_delete-Follows db v id now_ms
  Step-Follows {db} (purges now_ms p dry_run) v = apply_retention-Follows db v now_ms p dry_run

  pub Reach-IsValid_from : {db db' : Db} → IsValid db → Reach c db db' → IsValid db'
  Reach-IsValid_from v here = v
  Reach-IsValid_from v (next r s) = Step-IsValid s (Reach-IsValid_from v r)

pub init-IsValid : IsValid init
init-IsValid = record {
  rows = tt;
  distinct_rows = tt;
  distinct_flags = tt;
  flags_refer = tt;
  hits_refer = tt;
}

-- Every database that the operations reach from the empty tables, in any order and with any
-- arguments, is valid: ids, sync numbers, (phash_hex, consumer) and (fingerprint, flagger) are
-- unique and below their sequences, references point at rows, `flag_count` is the number of distinct
-- flaggers, and `hit_count` is at least the number of hits kept.
pub Reach-IsValid : (c : Cipher) (db : Db) → Reach c init db → IsValid db
Reach-IsValid c db r = Reach-IsValid_from init-IsValid r

-- Over any operations from a valid database, the sequence does not fall, and every row of the later
-- one has a `sync_seq` that the sequence had not given yet, or was in the earlier one under the same
-- owner and with the same columns of the feed.
pub Reach-Follows : (c : Cipher) (db db' : Db) → IsValid db → Reach c db db' → Follows db db'
Reach-Follows c db db' v here = Follows-refl db v
Reach-Follows c db db' v (next {db' = mid} r s) =
    Follows-trans db mid db' (Reach-Follows c db mid v r) (Step-Follows s (Reach-IsValid_from v r))
