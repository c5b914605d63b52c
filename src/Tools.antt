-- ===== src/Tools.antt =====
-- tools/create_consumer.py, tools/purge_retention.py and tools/generate_field_key.py: each `main` from
-- its parsed options on, where none is an option that was not given. The texts on the standard error
-- are left out.
pub mod Retention
pub mod Accounts
use fingerprint_hub.Prelude.{
  ℕ, ◌+◌, ◌-◌, ◌*◌, Str, Env, codes, Bool, true, false, not, ◌||◌, ◌==◌, Option, none, some,
  or_else, List, [], ◌∷◌, ◌++◌, length, if◌then◌else◌, Result, ok, raise, Exc,
}
use fingerprint_hub.Prelude.Int.{ℤ, pos, negsuc, ltb_ℤ, min_ℤ}
use fingerprint_hub.Schema.{Db}
use fingerprint_hub.Consumers.{create_consumer}
use fingerprint_hub.Store.Retention.{Purged, Periods, apply_retention}
use fingerprint_hub.Api.Values.{strip}
use fingerprint_hub.Encryption.Keyring.{split_commas, generate_key_entry}
use fingerprint_hub.Encryption.Environment.{keys_env, active_key_env}
use fingerprint_hub.Postgres.{PostgresSettings, PoolManager, postgres_config, get_pool, close}

-- How a tool ends: with a status other than 0, with an exception that leaves `main`, or with a result
-- that it prints.
pub data Exit {ℓ} (A : Type ℓ) : Type ℓ where
  status : ℕ → Exit A
  uncaught : Exc → Exit A
  printed : A → Exit A

-- `[s.strip() for s in scopes.split(",") if s.strip()]`
unfoldable pub nonblank : List Str → List Str
unfolding strip
nonblank [] = []
nonblank (s ∷ rest) =
    let others = nonblank rest in if length (strip s) == 0 then others else strip s ∷ others

abbrev pub default_scopes : Str
default_scopes = codes "read,write"

unfoldable pub scopes_of : Option Str → List Str
unfolding nonblank split_commas
scopes_of option = nonblank (split_commas (or_else option default_scopes))

-- `except ValueError` and `except psycopg.errors.UniqueViolation`
unfoldable pub is_caught : Exc → Bool
is_caught Exc.value_error = true
is_caught Exc.unique_violation = true
is_caught _ = false

-- What becomes of the call of `create_consumer`.
unfoldable pub report_created : Result (ℕ × Str) → Exit (ℕ × Str)
unfolding is_caught
report_created (ok created) = printed created
report_created (raise e) = if is_caught e then status 2 else uncaught e

-- The id and the key that tools/create_consumer.py prints. It leaves its pool open.
unfoldable pub create_consumer_main :
    (PostgresSettings → Option Exc)
    → Env
    → (Str → Str)
    → Str
    → Str
    → Option Str
    → ℕ
    → PoolManager
    → Db
    → Exit (ℕ × Str) × PoolManager × Db
unfolding scopes_of report_created create_consumer get_pool
create_consumer_main refuses env hash_api_key token name scopes now_ms m db =
    let (pool, m') = get_pool refuses env postgres_config m in
    let (created, db') = create_consumer hash_api_key token name (scopes_of scopes) now_ms db in
    elim pool [ raise e ↦ (uncaught e, m', db) | ok _ ↦ (report_created created, m', db') ]

abbrev pub day_ms : ℕ
day_ms = 24 * 60 * 60 * 1000

-- `days * DAY_MS`
abbrev pub in_ms : ℤ → ℤ
in_ms (pos n) = pos (n * day_ms)
in_ms (negsuc n) = negsuc (n * day_ms + (day_ms - 1))

-- The four options of tools/purge_retention.py, in days.
pub record Days : Type 0 where
  pub hit_days : ℤ
  pub flag_reason_days : ℤ
  pub tombstone_metadata_days : ℤ
  pub tombstone_days : ℤ

abbrev pub default_days : Days
default_days = record {
  hit_days = pos 90;
  flag_reason_days = pos 90;
  tombstone_metadata_days = pos 30;
  tombstone_days = pos 180;
}

unfoldable pub periods_of : Days → Periods
periods_of d = record {
  hit_retention_ms = in_ms d.hit_days;
  flag_reason_retention_ms = in_ms d.flag_reason_days;
  tombstone_metadata_retention_ms = in_ms d.tombstone_metadata_days;
  tombstone_retention_ms = in_ms d.tombstone_days;
}

-- The two calls of `parser.error`, which exits with status 2.
unfoldable pub refuses_days : Days → Bool
refuses_days d =
    ltb_ℤ
      (min_ℤ (min_ℤ (min_ℤ d.hit_days d.flag_reason_days) d.tombstone_metadata_days)
        d.tombstone_days)
      (pos 0)
    || ltb_ℤ d.tombstone_days d.tombstone_metadata_days

-- "apply" or "preview" with the counts, where true is "apply"
unfoldable pub report_purged : Bool → Result Purged → Exit (Bool × Purged)
report_purged apply (ok purged) = printed (apply, purged)
report_purged apply (raise e) = uncaught e

-- The pool is closed whatever `apply_retention` does.
unfoldable pub purge_retention_main :
    (PostgresSettings → Option Exc)
    → Env
    → Days
    → Bool
    → ℕ
    → PoolManager
    → Db
    → Exit (Bool × Purged) × PoolManager × Db
unfolding refuses_days periods_of report_purged apply_retention get_pool close
purge_retention_main refuses env days apply now_ms m db =
    let (pool, m') = get_pool refuses env postgres_config m in
    let (purged, db') = apply_retention now_ms (periods_of days) (not apply) db in
    if refuses_days days then (status 2, m, db) else elim pool [
      | raise e ↦ (uncaught e, m', db)
      | ok _ ↦ (report_purged apply purged, close m', db')
    ]

-- The lines that tools/generate_field_key.py prints.
unfoldable pub generate_field_key_main : Option Str → List ℕ → Result (List Str)
unfolding generate_key_entry
generate_field_key_main option key =
    let key_id = or_else option (codes "v1") in
    elim (generate_key_entry key_id key) [
      | raise e ↦ raise e
      | ok entry ↦ ok (
          (keys_env ++ codes "=" ++ entry)
          ∷ (active_key_env ++ codes "=" ++ key_id)
          ∷ []
          ∷ codes
              "Back up this key outside the repo. Losing it permanently loses encrypted field access."
          ∷ [])
    ]
