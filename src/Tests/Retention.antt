-- ===== src/Tests/Retention.antt =====
-- A retention run on the small history.
use fingerprint_hub.Prelude.{false, true}
use fingerprint_hub.Prelude.Int.{pos}
use fingerprint_hub.Store.Retention.{Periods, apply_retention}
use fingerprint_hub.Store.Effects.Purging.{RetentionOutcome, apply_retention-RetentionOutcome}
use fingerprint_hub.Tests.Data.{sample}

abbrev periods : Periods
periods = record {
  hit_retention_ms = pos 10;
  flag_reason_retention_ms = pos 10;
  tombstone_metadata_retention_ms = pos 10;
  tombstone_retention_ms = pos 20;
}

apply_retention-RetentionOutcome_example :
    RetentionOutcome 9000 periods sample
      (apply_retention 9000 periods false sample)
      (apply_retention 9000 periods true sample)
apply_retention-RetentionOutcome_example = apply_retention-RetentionOutcome 9000 periods sample
