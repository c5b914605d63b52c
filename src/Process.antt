-- ===== src/Process.antt =====
-- main.py: from the environment to the application, and to its end. The server is aiohttp's: it
-- returns, or it leaves with an exception.
pub mod Startup
use fingerprint_hub.Prelude.{ℕ, Str, Env, Option, none, some, Result, ok, raise, Exc, ◌>>=◌}
use fingerprint_hub.Api.Messages.{ServiceConfig}
use fingerprint_hub.Config.{load_config_from_env}
use fingerprint_hub.Postgres.{PostgresSettings, PoolManager, postgres_config, get_pool, close}
use fingerprint_hub.Postgres.Runtime.{Inspection, validate_postgres_runtime}

-- The two values that `create_app` keeps in the application.
pub record App : Type 0 where
  pub pool : ℕ
  pub config : ServiceConfig

-- The environment is the one that `load_dotenv` leaves.
unfoldable pub create_app_from_environment :
    (PostgresSettings → Option Exc) → Env → Inspection → PoolManager → Result App × PoolManager
unfolding load_config_from_env validate_postgres_runtime get_pool
create_app_from_environment refuses env i m =
    elim (validate_postgres_runtime env postgres_config i) [
      | raise e ↦ (raise e, m)
      | ok _ ↦
          let (pool, m') = get_pool refuses env postgres_config m in
          (pool >>= (λ p. ok (record { pool = p; config = load_config_from_env env })), m')
    ]

-- How the process ended: the exception that left `main`, the application that ran, and the pools.
pub record Ended : Type 0 where
  pub error : Option Exc
  pub ran : Option App
  pub pools : PoolManager

-- `main`, where `run_app` tells the exception that `web.run_app` leaves with
unfoldable pub main :
    (PostgresSettings → Option Exc) → (App → Option Exc) → Env → Inspection → PoolManager → Ended
unfolding create_app_from_environment close
main refuses run_app env i m =
    let (app, m') = create_app_from_environment refuses env i m in
    elim app [
      | raise e ↦ record { error = some e; ran = none; pools = m' }
      | ok a ↦ record { error = run_app a; ran = some a; pools = close m' }
    ]
