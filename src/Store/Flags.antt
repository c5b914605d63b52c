-- ===== src/Store/Flags.antt =====
-- `flag` of api/fingerprint_store.py.
pub mod Branches
use fingerprint_hub.Prelude.{
  ℕ, ◌+◌, Str, Bool, true, false, ◌&&◌, Option, none, some, List, [], ◌∷◌, ◌++◌, map, leb, ◌==◌,
  if◌then◌else◌, Result, ok, raise,
}
use fingerprint_hub.Schema.{Status, active, hidden, is_active, is_deleted, Fingerprint, Flag, Db}
use fingerprint_hub.Store.Keys.{has_id, flag_of, seq_after}
use fingerprint_hub.Cipher.{Cipher}
use fingerprint_hub.Sql.{select, fetch_one, exists, update, count_distinct}

-- `{"flag_count": …, "status": …, "hidden": …}`
pub record FlagResult : Type 0 where
  pub flag_count : ℕ
  pub status : Status
  pub hidden_now : Bool

-- the columns of `uq_fingerprint_flags`
unfoldable pub has_flagger : ℕ → ℕ → Flag → Bool
has_flagger fingerprint_id consumer_id f =
    f.fingerprint_id == fingerprint_id && f.consumer_id == consumer_id

-- INSERT … ON CONFLICT (fingerprint_id, consumer_id) DO NOTHING
unfoldable pub insert_flag : Flag → List Flag → List Flag
unfolding exists has_flagger
insert_flag f flags =
    if exists (has_flagger f.fingerprint_id f.consumer_id) flags then flags else flags ++ f ∷ []

-- SELECT COUNT(DISTINCT consumer_id) … WHERE fingerprint_id = …
unfoldable pub flaggers : ℕ → List Flag → ℕ
unfolding select count_distinct flag_of
flaggers fingerprint_id flags =
    count_distinct (map (λ f. f.consumer_id) (select (flag_of fingerprint_id) flags))

-- the SET lists of the two UPDATEs
unfoldable pub hide : ℕ → ℕ → ℕ → Fingerprint → Fingerprint
hide flag_count now_ms seq r = record r {
  sync_seq = seq;
  updated_at_ms = now_ms;
  status = hidden;
  flag_count = flag_count;
}

unfoldable pub set_flag_count : ℕ → ℕ → Fingerprint → Fingerprint
set_flag_count flag_count now_ms r = record r { updated_at_ms = now_ms; flag_count = flag_count }

-- What follows the INSERT, for a row that had the status `status` at the SELECT.
unfoldable pub settle_flags : ℕ → Status → ℕ → ℕ → ℕ → Db → FlagResult × Db
unfolding hide set_flag_count has_id update seq_after
settle_flags fingerprint_id status flag_count now_ms auto_hide_threshold db =
    if leb auto_hide_threshold flag_count && is_active status
    then (
      record { flag_count = flag_count; status = hidden; hidden_now = true },
      record db {
        fingerprints =
            update (has_id fingerprint_id) (hide flag_count now_ms db.next_sync_seq)
              db.fingerprints;
        next_sync_seq = seq_after fingerprint_id db;
      },
    )
    else (
      record { flag_count = flag_count; status = status; hidden_now = false },
      record db {
        fingerprints =
            update (has_id fingerprint_id) (set_flag_count flag_count now_ms) db.fingerprints;
      },
    )

unfoldable pub record_flag : ℕ → Status → ℕ → Option Str → ℕ → ℕ → Db → FlagResult × Db
unfolding insert_flag flaggers settle_flags
record_flag fingerprint_id status consumer_id reason now_ms auto_hide_threshold db =
    let flags =
      insert_flag
        (record {
          fingerprint_id = fingerprint_id;
          consumer_id = consumer_id;
          reason = reason;
          created_at_ms = now_ms;
        })
        db.flags in
    settle_flags fingerprint_id status (flaggers fingerprint_id flags) now_ms auto_hide_threshold
      (record db { flags = flags })

unfoldable pub flag :
    Cipher → List ℕ → ℕ → ℕ → Option Str → ℕ → ℕ → Db → Result (Option FlagResult) × Db
unfolding record_flag fetch_one
flag c nonce fingerprint_id consumer_id reason now_ms auto_hide_threshold db =
    elim (fetch_one (has_id fingerprint_id) db.fingerprints) [
      | none ↦ (ok none, db)
      | some fp ↦ if is_deleted fp.status then (ok none, db) else elim (c.encrypt nonce reason) [
        | raise e ↦ (raise e, db)
        | ok sealed ↦
            let (r, db') =
              record_flag fingerprint_id fp.status consumer_id sealed now_ms auto_hide_threshold
                db in
            (ok (some r), db')
      ]
    ]
