-- ===== src/Process/Startup.antt =====
-- What holds of the process of main.py, however it ends.
use fingerprint_hub.Prelude.{
  ℕ, ◌≡◌, ◌∙◌, refl, sym, ap, subst, Env, Option, some, ◌∷◌, Result, ok, raise, Exc, ◌>>=◌,
  Option-cases, Result-cases, inl, inr, ◌⊎◌,
}
use fingerprint_hub.Config.{load_config_from_env}
use fingerprint_hub.Postgres.{
  PostgresSettings, Configuration, get_postgres_settings, PoolManager, no_pool, postgres_config,
  drop_pool, make_pool, pool_for, get_pool,
}
use fingerprint_hub.Postgres.Pools.{IsEmpty, IsTidy, drop_pool-live, close-IsEmpty}
use fingerprint_hub.Postgres.Runtime.{
  Inspection, RuntimeInfo, validate_postgres_runtime, IsAtHead, validate-IsAtHead,
}
use fingerprint_hub.Process.{App, create_app_from_environment, Ended, main}

-- A call that was asked for the first pool failed and left none, or opened one.
abbrev First : Result ℕ × PoolManager → Type 0
First out =
    ((x : Exc) × (out.0 ≡ raise x) × IsEmpty out.1) ⊎ ((p : ℕ) × (out.0 ≡ ok p) × IsTidy out.1)

module _ (refuses : PostgresSettings → Option Exc) where
  make_pool-First :
      (s : PostgresSettings) (m : PoolManager) → IsEmpty m → First (make_pool refuses s m)
  make_pool-First s m v = elim (Option-cases (refuses s)) [
    | inl e ↦
        unfold make_pool in
        rw (e, make_pool)
          (inr (
            m.next,
            refl,
            inr (
              m.next,
              s,
              record { pool = refl; pool_dsn = refl; live = ap (◌∷◌ (m.next, s)) v.live },
            ),
          ))
    | inr (x, e) ↦ unfold make_pool in rw (e, make_pool) (inl (x, refl, v))
  ]

  drop_pool-IsEmpty : (m : PoolManager) → IsEmpty m → IsEmpty (drop_pool m)
  drop_pool-IsEmpty m v = record {
    pool = unfold drop_pool in rw (v.pool, drop_pool) v.pool;
    live = drop_pool-live m (inl v);
  }

  get_pool-First :
      (env : Env) (config : Configuration) (m : PoolManager)
      → IsEmpty m
      → First (get_pool refuses env config m)
  get_pool-First env config m v = elim (Result-cases (get_postgres_settings env config)) [
    | inl (x, e) ↦ unfold get_pool in rw (e, get_pool) (inl (x, refl, v))
    | inr (s, e) ↦
        unfold get_pool pool_for in
        rw (e, v.pool, get_pool, pool_for) (make_pool-First s (drop_pool m) (drop_pool-IsEmpty m v))
  ]

  module _ (env : Env) (i : Inspection) where
    unchecked :
        (x : Exc) (m : PoolManager)
        → validate_postgres_runtime env postgres_config i ≡ raise x
        → create_app_from_environment refuses env i m ≡ (raise x, m)
    unchecked x m e = unfold create_app_from_environment in rw (e, create_app_from_environment) refl

    checked :
        (info : RuntimeInfo) (m : PoolManager)
        → validate_postgres_runtime env postgres_config i ≡ ok info
        → create_app_from_environment refuses env i m ≡ (
          (get_pool refuses env postgres_config m).0
              >>= (λ p. ok (record { pool = p; config = load_config_from_env env })),
          (get_pool refuses env postgres_config m).1,
        )
    checked info m e =
        unfold create_app_from_environment in rw (e, create_app_from_environment) refl

    -- No pool is left open, and an application that ran did so on a database at the expected revisions,
    -- with the configuration of the environment.
    pub record EndsWell (e : Ended) : Type 0 where
      pub pools : IsEmpty e.pools
      pub ran : (a : App) → e.ran ≡ some a → IsAtHead i × (a.config ≡ load_config_from_env env)

    abbrev created : Result App × PoolManager
    created = create_app_from_environment refuses env i no_pool

    module _ (run_app : App → Option Exc) where
      failed :
          (x : Exc)
          → created.0 ≡ raise x
          → IsEmpty created.1
          → EndsWell (main refuses run_app env i no_pool)
      failed x e v = unfold main in rw (e, main) (record { pools = v; ran = λ a h. absurd cc })

      succeeded :
          (p : ℕ)
          → created.0 ≡ ok (record { pool = p; config = load_config_from_env env })
          → IsTidy created.1
          → IsAtHead i
          → EndsWell (main refuses run_app env i no_pool)
      succeeded p e v head =
          unfold main in
          rw (e, main)
            (record {
              pools = close-IsEmpty created.1 v;
              ran = λ a h.
                  let same : record { pool = p; config = load_config_from_env env } ≡ a = cc in
                  (head, ap (λ b. b.config) (sym same));
            })

      -- However the process of `main` ends, whatever psycopg_pool refuses and the server raises: no pool
      -- is left open, and if an application ran, then on a database whose revisions are the heads that
      -- Alembic expects, and with the configuration of the environment.
      pub main-EndsWell : EndsWell (main refuses run_app env i no_pool)
      main-EndsWell = elim (Result-cases (validate_postgres_runtime env postgres_config i)) [
        | inl (x, e) ↦
            let c = unchecked x no_pool e in
            failed x (ap (λ r. r.0) c)
              (subst IsEmpty (sym (ap (λ r. r.1) c)) (record { pool = refl; live = refl }))
        | inr (info, e) ↦
            let c = checked info no_pool e in
            let head = validate-IsAtHead env postgres_config i info e in
            elim (get_pool-First env postgres_config no_pool
              (record { pool = refl; live = refl })) [
                | inl (x, q, v) ↦
                    failed x (ap (λ r. r.0) c ∙ ap with_config q)
                      (subst IsEmpty (sym (ap (λ r. r.1) c)) v)
                | inr (p, q, v) ↦
                    succeeded p (ap (λ r. r.0) c ∙ ap with_config q)
                      (subst IsTidy (sym (ap (λ r. r.1) c)) v) head
              ]
      ]
        where
          with_config : Result ℕ → Result App
          with_config r = r >>= (λ p. ok (record { pool = p; config = load_config_from_env env }))
