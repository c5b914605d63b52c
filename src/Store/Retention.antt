-- ===== src/Store/Retention.antt =====
-- `apply_retention` of api/fingerprint_store.py.
use fingerprint_hub.Prelude.{
  ℕ, ◌+◌, Bool, ◌&&◌, ◌||◌, none, is_some, if◌then◌else◌, Result, ok, raise, Exc,
}
use fingerprint_hub.Prelude.Int.{ℤ, pos, pos_part, neg_part, sub_ℕ, ltb_ℤ, min_ℤ}
use fingerprint_hub.Schema.{is_deleted, Fingerprint, Hit, Flag, Db}
use fingerprint_hub.Store.Keys.{has_id}
use fingerprint_hub.Sql.{select, exists, count, update, delete}

-- `{"hits_deleted": …, "flag_reasons_cleared": …, …}`
pub record Purged : Type 0 where
  pub hits_deleted : ℕ
  pub flag_reasons_cleared : ℕ
  pub tombstones_anonymized : ℕ
  pub tombstones_deleted : ℕ

-- The four periods, in milliseconds.
pub record Periods : Type 0 where
  pub hit_retention_ms : ℤ
  pub flag_reason_retention_ms : ℤ
  pub tombstone_metadata_retention_ms : ℤ
  pub tombstone_retention_ms : ℤ

-- `now_ms - period`
abbrev pub cutoff : ℕ → ℤ → ℤ
cutoff now_ms period = sub_ℕ (now_ms + neg_part period) (pos_part period)

unfoldable pub hit_before : ℤ → Hit → Bool
hit_before at h = ltb_ℤ (pos h.hit_at_ms) at

unfoldable pub flag_reason_before : ℤ → Flag → Bool
flag_reason_before at f = is_some f.reason && ltb_ℤ (pos f.created_at_ms) at

unfoldable pub tombstone_before : ℤ → Fingerprint → Bool
tombstone_before at r = is_deleted r.status && ltb_ℤ (pos r.updated_at_ms) at

unfoldable pub has_metadata : Fingerprint → Bool
has_metadata r = is_some r.source_guild_id || is_some r.reason || is_some r.source_url

unfoldable pub metadata_before : ℤ → Fingerprint → Bool
unfolding tombstone_before has_metadata
metadata_before at r = tombstone_before at r && has_metadata r

unfoldable pub clear_reason : Flag → Flag
clear_reason f = record f { reason = none }

unfoldable pub anonymize : Fingerprint → Fingerprint
anonymize r = record r { source_guild_id = none; reason = none; source_url = none }

-- The tests before the transaction.
unfoldable pub has_negative : Periods → Bool
has_negative p =
    ltb_ℤ
      (min_ℤ
        (min_ℤ (min_ℤ p.hit_retention_ms p.flag_reason_retention_ms)
          p.tombstone_metadata_retention_ms)
        p.tombstone_retention_ms)
      (pos 0)

unfoldable pub metadata_outlives_row : Periods → Bool
metadata_outlives_row p = ltb_ℤ p.tombstone_retention_ms p.tombstone_metadata_retention_ms

-- The DELETE of the tombstones, with ON DELETE CASCADE to their hits and flags.
unfoldable pub purge_tombstones : ℤ → Db → Db
unfolding tombstone_before delete exists has_id select
purge_tombstones at db =
    let kept = delete (tombstone_before at) db.fingerprints in
    record db {
      fingerprints = kept;
      hits = select (λ h. exists (has_id h.fingerprint_id) kept) db.hits;
      flags = select (λ f. exists (has_id f.fingerprint_id) kept) db.flags;
    }

-- The four statements in their order, each after the one before it.
unfoldable pub purge : ℕ → Periods → Db → Purged × Db
unfolding hit_before flag_reason_before metadata_before clear_reason anonymize purge_tombstones
    count
purge now_ms p db =
    let old_hit = hit_before (cutoff now_ms p.hit_retention_ms) in
    let old_reason = flag_reason_before (cutoff now_ms p.flag_reason_retention_ms) in
    let at_row = cutoff now_ms p.tombstone_retention_ms in
    let old_metadata = metadata_before (cutoff now_ms p.tombstone_metadata_retention_ms) in
    let db₁ = record db { hits = delete old_hit db.hits } in
    let db₂ = record db₁ { flags = update old_reason clear_reason db₁.flags } in
    let db₃ = purge_tombstones at_row db₂ in
    (
      record {
        hits_deleted = count old_hit db.hits;
        flag_reasons_cleared = count old_reason db₁.flags;
        tombstones_anonymized = count old_metadata db₃.fingerprints;
        tombstones_deleted = count (tombstone_before at_row) db₂.fingerprints;
      },
      record db₃ { fingerprints = update old_metadata anonymize db₃.fingerprints },
    )

-- `force_rollback` undoes the transaction at its end; the counts are returned all the same.
unfoldable pub apply_retention : ℕ → Periods → Bool → Db → Result Purged × Db
apply_retention now_ms p dry_run db =
    let (purged, db') = purge now_ms p db in
    if has_negative p
    then (raise Exc.value_error, db)
    else if metadata_outlives_row p
    then (raise Exc.value_error, db)
    else (ok purged, if dry_run then db else db')
