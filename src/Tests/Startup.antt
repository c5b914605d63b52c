-- ===== src/Tests/Startup.antt =====
-- URLs, pools, and the start of the process.
use fingerprint_hub.Prelude.{
  ◌≡◌, refl, Str, Env, codes, str_eq, true, Option, none, some, [], ◌∷◌, ok, Exc, if◌then◌else◌,
}
use fingerprint_hub.Encryption.Envelope.{starts_with}
use fingerprint_hub.Postgres.{
  PostgresSettings, postgres_config, database_url_env, normalize_psycopg_dsn, migration_url,
  get_pool, close, no_pool,
}
use fingerprint_hub.Postgres.Urls.{
  occurs, settings_of, get_postgres_settings_of, settings-migration_url,
}
use fingerprint_hub.Postgres.Pools.{start, gets, Served, IsEmpty, get_pool-Served}
use fingerprint_hub.Postgres.Runtime.{Inspection, sorted_set}
use fingerprint_hub.Process.{main}
use fingerprint_hub.Process.Startup.{EndsWell, main-EndsWell}

abbrev pub url : Str
url = codes "postgresql://hub@db/hub"

abbrev pub env : Env
env name = if str_eq name database_url_env then some url else none

has_url : env database_url_env ≡ some url
unfolding str_eq
has_url = refl

settings-migration_url_example :
    (settings_of url).dsn ≡ normalize_psycopg_dsn (migration_url env (some (codes "sqlite://")))
unfolding starts_with occurs
settings-migration_url_example =
    settings-migration_url env (some (codes "sqlite://")) url (settings_of url) has_url refl
      (get_postgres_settings_of env 112 (codes "ostgresql://hub@db/hub") has_url)

abbrev other : Env
other name = if str_eq name database_url_env then some (codes "postgresql://other") else none

abbrev pub willing : PostgresSettings → Option Exc
willing s = none

-- A pool for another URL is open when the one for this URL is asked for.
get_pool-Served_example :
    Served willing
      (λ s. refl)
      (settings_of url)
      (get_pool willing env postgres_config (get_pool willing other postgres_config no_pool).1)
    × IsEmpty (
        close
          (get_pool willing env postgres_config
            (get_pool willing other postgres_config no_pool).1).1)
get_pool-Served_example =
    get_pool-Served willing (λ s. refl) (get_pool willing other postgres_config no_pool).1 env
      postgres_config (settings_of url) (gets other postgres_config start)
      (get_postgres_settings_of env 112 (codes "ostgresql://hub@db/hub") has_url)

-- Where psycopg_pool refuses the new settings, the manager keeps the old pool, which is closed.
abbrev choosy : PostgresSettings → Option Exc
choosy s = if str_eq s.dsn url then some Exc.value_error else none

refused_pool :
    let opened = (get_pool choosy other postgres_config no_pool).1 in
    let failed = (get_pool choosy env postgres_config opened).1 in
    ((get_pool choosy other postgres_config failed).0 ≡ ok 0) × (failed.live ≡ [])
unfolding get_pool str_eq
refused_pool = (refl, refl)

abbrev at_head : Inspection
at_head = record {
  expected_heads = codes "0002_privacy_hardening" ∷ [];
  connect_error = none;
  server_version = some (codes "16.3");
  has_version_table = true;
  version_nums = codes "0002_privacy_hardening" ∷ [];
}

main-EndsWell_example :
    EndsWell willing env at_head (main willing (λ a. some Exc.overflow_error) env at_head no_pool)
main-EndsWell_example = main-EndsWell willing env at_head (λ a. some Exc.overflow_error)

-- The server ran.
served : (main willing (λ a. none) env at_head no_pool).error ≡ none
unfolding main str_eq
served = refl

behind :
    (main willing
      (λ a. none)
      env
      (record at_head { version_nums = codes "0001_init" ∷ [] })
      no_pool).error
    ≡ some Exc.runtime_error
unfolding main str_eq
behind = refl

heads : sorted_set (codes "b" ∷ codes "a" ∷ codes "b" ∷ []) ≡ codes "a" ∷ codes "b" ∷ []
unfolding sorted_set
heads = refl
