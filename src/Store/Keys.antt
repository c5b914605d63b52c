-- ===== src/Store/Keys.antt =====
-- The conditions by which the statements of api/fingerprint_store.py find their rows.
use fingerprint_hub.Prelude.{ℕ, ◌+◌, Str, str_eq, Bool, ◌&&◌, if◌then◌else◌, ◌==◌}
use fingerprint_hub.Schema.{Fingerprint, Flag, Hit, Db}
use fingerprint_hub.Sql.{exists}

unfoldable pub has_id : ℕ → Fingerprint → Bool
has_id id r = r.id == id

-- the columns of `uq_fingerprints_phash_consumer`
unfoldable pub has_key : Str → ℕ → Fingerprint → Bool
has_key phash_hex consumer_id r = str_eq r.phash_hex phash_hex && r.consumer_id == consumer_id

unfoldable pub flag_of : ℕ → Flag → Bool
flag_of id f = f.fingerprint_id == id

unfoldable pub hit_of : ℕ → Hit → Bool
hit_of id h = h.fingerprint_id == id

-- The sequence after a statement that calls nextval for the row with this id.
unfoldable pub seq_after : ℕ → Db → ℕ
unfolding exists has_id
seq_after id db =
    if exists (has_id id) db.fingerprints then db.next_sync_seq + 1 else db.next_sync_seq
