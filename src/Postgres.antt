-- ===== src/Postgres.antt =====
-- utils/postgres_utils.py and utils/config_access.py: the settings of the connection, the pool of the
-- process, and the check of the schema's revision; `_database_url` of alembic/env.py.
pub mod Urls
pub mod Pools
pub mod Runtime
use fingerprint_hub.Prelude.{
  ℕ, suc, ◌+◌, Str, Env, codes, str_eq, str_in, Bool, true, false, not, ◌&&◌, ◌==◌, Option, none,
  some, or_else, List, [], ◌∷◌, ◌++◌, drop, length, if◌then◌else◌, Result, ok, raise, Exc, ◌>>=◌,
}
use fingerprint_hub.Prelude.Int.{ℤ, pos, is_int}
use fingerprint_hub.Sql.{select}
use fingerprint_hub.Api.Values.{int}
use fingerprint_hub.Api.Messages.{lookup}
use fingerprint_hub.Encryption.Envelope.{starts_with}

-- A value of a configuration section, of the kinds that the settings are made of.
pub data Setting : Type 0 where
  absent : Setting
  words : Str → Setting
  -- with its `str`
  number : Str → ℤ → Setting

abbrev pub Section : Type 0
Section = List (Str × Setting)

-- A value at the top: a mapping, or something else.
pub data Node : Type 0 where
  mapping : Section → Node
  scalar : Setting → Node

abbrev pub Configuration : Type 0
Configuration = List (Str × Node)

-- `ServiceConfig.postgres_config` of config.py
abbrev pub postgres_config : Configuration
postgres_config = (codes "database", mapping []) ∷ []

unfoldable pub mapping_at : Configuration → Str → Section
unfolding lookup
mapping_at node key = elim (lookup key node) [ some (mapping section) ↦ section | _ ↦ [] ]

abbrev pub database_url_env : Str
database_url_env = codes "FINGERPRINTHUB_DATABASE_URL"

abbrev pub libpq_scheme : Str
libpq_scheme = codes "postgresql://"

abbrev pub sqlalchemy_scheme : Str
sqlalchemy_scheme = codes "postgresql+psycopg://"

-- `text.replace(old, new, 1)`
unfoldable pub replace_first : Str → Str → Str → Str
unfolding starts_with
replace_first old new [] = if starts_with old [] then new else []
replace_first old new (c ∷ s) =
    let rest = replace_first old new s in
    if starts_with old (c ∷ s) then new ++ drop (length old) (c ∷ s) else c ∷ rest

unfoldable pub normalize_psycopg_dsn : Str → Str
unfolding replace_first
normalize_psycopg_dsn dsn = replace_first sqlalchemy_scheme libpq_scheme dsn

-- `value or default`, of texts
unfoldable pub nonempty_or {ℓ} : {A : Type ℓ} → Option Str → (Str → A) → A → A
nonempty_or (some (c ∷ s)) f d = f (c ∷ s)
nonempty_or _ f d = d

-- `str(section.get("url_env") or DEFAULT_DATABASE_URL_ENV)` and the like: none where the value is
-- falsy.
unfoldable pub text_at : Section → Str → Option Str
unfolding lookup
text_at section key = elim (lookup key section) [
  | some (words (c ∷ s)) ↦ some (c ∷ s)
  | some (number s n) ↦ if is_int 0 n then none else some s
  | _ ↦ none
]

unfoldable pub get_database_url : Env → Configuration → Result Str
unfolding mapping_at text_at nonempty_or
get_database_url env config =
    let section = mapping_at config (codes "database") in
    nonempty_or (env (or_else (text_at section (codes "url_env")) database_url_env)) (λ dsn. ok dsn)
      (elim (text_at section (codes "url")) [ none ↦ raise Exc.runtime_error | some dsn ↦ ok dsn ])

-- `int(section.get(key, default))`
unfoldable pub int_at : Section → Str → ℕ → Result ℤ
unfolding lookup int
int_at section key default = elim (lookup key section) [
  | none ↦ ok (pos default)
  | some absent ↦ raise Exc.type_error
  | some (words s) ↦ elim (int s) [ none ↦ raise Exc.value_error | some n ↦ ok n ]
  | some (number _ n) ↦ ok n
]

pub record PostgresSettings : Type 0 where
  pub dsn : Str
  pub pool_min_size : ℤ
  pub pool_max_size : ℤ
  pub connect_timeout_seconds : ℤ

unfoldable pub get_postgres_settings : Env → Configuration → Result PostgresSettings
unfolding get_database_url normalize_psycopg_dsn mapping_at int_at
get_postgres_settings env config = do
  url ← get_database_url env config
  least ← int_at (mapping_at config (codes "database")) (codes "pool_min_size") 1
  most ← int_at (mapping_at config (codes "database")) (codes "pool_max_size") 10
  timeout ← int_at (mapping_at config (codes "database")) (codes "connect_timeout_seconds") 5
  ok (record {
    dsn = normalize_psycopg_dsn url;
    pool_min_size = least;
    pool_max_size = most;
    connect_timeout_seconds = timeout;
  })

-- `_database_url` of alembic/env.py, with the main option "sqlalchemy.url"
unfoldable pub migration_url : Env → Option Str → Str
unfolding nonempty_or starts_with replace_first
migration_url env main_option =
    let url = nonempty_or (env database_url_env) (λ u. u) (or_else main_option []) in
    if starts_with libpq_scheme url then replace_first libpq_scheme sqlalchemy_scheme url else url

-- The manager's two fields, and beside them the pools that are open with the settings they were made
-- with, and the name that the next pool gets.
pub record PoolManager : Type 0 where
  pub pool : Option ℕ
  pub pool_dsn : Option Str
  pub live : List (ℕ × PostgresSettings)
  pub next : ℕ

abbrev pub no_pool : PoolManager
no_pool = record { pool = none; pool_dsn = none; live = []; next = 0 }

-- `pool.close()`
unfoldable pub close_pool : ℕ → List (ℕ × PostgresSettings) → List (ℕ × PostgresSettings)
unfolding select
close_pool p = select (λ q. not (q.0 == p))

unfoldable pub has_dsn : Str → Option Str → Bool
unfolding str_eq
has_dsn dsn none = false
has_dsn dsn (some d) = str_eq d dsn

-- What stands before the call of `ConnectionPool`.
unfoldable pub drop_pool : PoolManager → PoolManager
unfolding close_pool
drop_pool m = elim m.pool [ none ↦ m | some p ↦ record m { live = close_pool p m.live } ]

-- `ConnectionPool(…)`, which psycopg_pool refuses for some settings, and the assignments after it
unfoldable pub make_pool :
    (PostgresSettings → Option Exc) → PostgresSettings → PoolManager → Result ℕ × PoolManager
make_pool refuses settings m = elim (refuses settings) [
  | some e ↦ (raise e, m)
  | none ↦ (
    ok m.next,
    record {
      pool = some m.next;
      pool_dsn = some settings.dsn;
      live = (m.next, settings) ∷ m.live;
      next = suc m.next;
    },
  )
]

unfoldable pub pool_for :
    (PostgresSettings → Option Exc) → PostgresSettings → PoolManager → Result ℕ × PoolManager
unfolding has_dsn drop_pool make_pool
pool_for refuses settings m = elim m.pool [
  | none ↦ make_pool refuses settings (drop_pool m)
  | some p ↦
      if has_dsn settings.dsn m.pool_dsn
      then (ok p, m)
      else make_pool refuses settings (drop_pool m)
]

-- `PostgresPoolManager.get_pool`, and `get_postgres_pool`
unfoldable pub get_pool :
    (PostgresSettings → Option Exc) → Env → Configuration → PoolManager → Result ℕ × PoolManager
unfolding get_postgres_settings pool_for
get_pool refuses env config m = elim (get_postgres_settings env config) [
  | raise e ↦ (raise e, m)
  | ok settings ↦ pool_for refuses settings m
]

-- `PostgresPoolManager.close`, and `close_postgres_pool`
unfoldable pub close : PoolManager → PoolManager
unfolding drop_pool
close m = record (drop_pool m) { pool = none; pool_dsn = none }
