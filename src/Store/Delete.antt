-- ===== src/Store/Delete.antt =====
-- `soft_delete` of api/fingerprint_store.py.
use fingerprint_hub.Prelude.{ℕ, ◌+◌, Bool, not, ◌&&◌, if◌then◌else◌}
use fingerprint_hub.Schema.{deleted, is_deleted, Fingerprint, Db}
use fingerprint_hub.Store.Keys.{has_id}
use fingerprint_hub.Sql.{exists, update}

-- `WHERE id = … AND status <> 'deleted'`
unfoldable pub is_live : ℕ → Fingerprint → Bool
unfolding has_id
is_live id r = has_id id r && not (is_deleted r.status)

-- the SET list of the UPDATE
unfoldable pub tombstone : ℕ → ℕ → Fingerprint → Fingerprint
tombstone now_ms seq r = record r { sync_seq = seq; updated_at_ms = now_ms; status = deleted }

-- The flag is `row is not None`: the UPDATE changed a row, and drew from the sequence for it.
unfoldable pub soft_delete : ℕ → ℕ → Db → Bool × Db
unfolding is_live tombstone exists update
soft_delete fingerprint_id now_ms db =
    let changed = exists (is_live fingerprint_id) db.fingerprints in
    (
      changed,
      record db {
        fingerprints =
            update (is_live fingerprint_id) (tombstone now_ms db.next_sync_seq) db.fingerprints;
        next_sync_seq = if changed then db.next_sync_seq + 1 else db.next_sync_seq;
      },
    )
