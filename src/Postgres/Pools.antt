-- ===== src/Postgres/Pools.antt =====
-- The pools that the manager of utils/postgres_utils.py opens and closes.
use fingerprint_hub.Prelude.{
  ℕ, ◌≡◌, ◌∙◌, refl, sym, ap, Env, str_eq_iff, true, Option, none, some, [], ◌∷◌, Result, ok, Exc,
  Bool-cases, Result-cases, inl, inr, ◌⊎◌, arith,
}
use fingerprint_hub.Sql.{select}
use fingerprint_hub.Postgres.{
  Configuration, PostgresSettings, get_postgres_settings, PoolManager, no_pool, close_pool, has_dsn,
  drop_pool, make_pool, pool_for, get_pool, close,
}

-- Sequences of calls, where psycopg_pool refuses the given settings.
pub data Calls (refuses : PostgresSettings → Option Exc) : PoolManager → Type 0 where
  start : Calls refuses no_pool
  gets :
      {m : PoolManager} (env : Env) (config : Configuration)
      → Calls refuses m
      → Calls refuses (get_pool refuses env config m).1
  closes : {m : PoolManager} → Calls refuses m → Calls refuses (close m)

-- The pool of the manager is the only open one, and the DSN that it notes is the pool's.
pub record Holds (m : PoolManager) (p : ℕ) (s : PostgresSettings) : Type 0 where
  pub pool : m.pool ≡ some p
  pub pool_dsn : m.pool_dsn ≡ some s.dsn
  pub live : m.live ≡ (p, s) ∷ []

pub record IsEmpty (m : PoolManager) : Type 0 where
  pub pool : m.pool ≡ none
  pub live : m.live ≡ []

abbrev pub IsTidy : PoolManager → Type 0
IsTidy m = IsEmpty m ⊎ ((p : ℕ) × (s : PostgresSettings) × Holds m p s)

close_pool_self : (p : ℕ) (s : PostgresSettings) → close_pool p ((p, s) ∷ []) ≡ []
unfolding close_pool select
close_pool_self p s = ground arith

pub drop_pool-live : (m : PoolManager) → IsTidy m → (drop_pool m).live ≡ []
unfolding drop_pool
drop_pool-live m (inl e) = rw (e.pool, drop_pool) e.live
drop_pool-live m (inr (p, s, h)) =
    rw (h.pool, drop_pool) (ap (close_pool p) h.live ∙ close_pool_self p s)

-- After a call of `close`, and after any sequence of calls, no pool is open but the manager's.
pub close-IsEmpty : (m : PoolManager) → IsTidy m → IsEmpty (close m)
unfolding close
close-IsEmpty m t = record { pool = refl; live = drop_pool-live m t }

module _ (refuses : PostgresSettings → Option Exc)
    (never : (s : PostgresSettings) → refuses s ≡ none) where
  -- A call for the given settings returned the only open pool, which has their DSN.
  pub record Served (s : PostgresSettings) (out : Result ℕ × PoolManager) : Type 0 where
    pub pool : ℕ
    pub made_with : PostgresSettings
    pub returned : out.0 ≡ ok pool
    pub holds : Holds out.1 pool made_with
    pub dsn : made_with.dsn ≡ s.dsn

  make_pool-Served :
      (s : PostgresSettings) (m : PoolManager) → m.live ≡ [] → Served s (make_pool refuses s m)
  make_pool-Served s m e =
      unfold make_pool in
      rw (never s, make_pool)
        (record {
          pool = m.next;
          made_with = s;
          returned = refl;
          holds = record { pool = refl; pool_dsn = refl; live = ap (◌∷◌ (m.next, s)) e };
          dsn = refl;
        })

  pool_for-Served :
      (s : PostgresSettings) (m : PoolManager) → IsTidy m → Served s (pool_for refuses s m)
  pool_for-Served s m (inl e) =
      unfold pool_for in
      rw (e.pool, pool_for) (make_pool-Served s (drop_pool m) (drop_pool-live m (inl e)))
  pool_for-Served s m (inr (p, t, h)) = elim (Bool-cases (has_dsn s.dsn m.pool_dsn)) [
    | inl e ↦
        unfold pool_for in
        rw (h.pool, e, pool_for)
          (record { pool = p; made_with = t; returned = refl; holds = h; dsn = same e })
    | inr e ↦
        unfold pool_for in
        rw (h.pool, e, pool_for)
          (make_pool-Served s (drop_pool m) (drop_pool-live m (inr (p, t, h))))
  ]
    where
      same : has_dsn s.dsn m.pool_dsn ≡ true → t.dsn ≡ s.dsn
      same e =
          (str_eq_iff t.dsn s.dsn).0 (unfold has_dsn in ap (has_dsn s.dsn) (sym h.pool_dsn) ∙ e)

  get_pool-IsTidy :
      (env : Env) (config : Configuration) (m : PoolManager)
      → IsTidy m
      → IsTidy (get_pool refuses env config m).1
  unfolding get_pool
  get_pool-IsTidy env config m t = elim (Result-cases (get_postgres_settings env config)) [
    | inl (x, e) ↦ rw (e, get_pool) t
    | inr (s, e) ↦
        rw (e, get_pool) (let v = pool_for-Served s m t in inr (v.pool, v.made_with, v.holds))
  ]

  Calls-IsTidy : (m : PoolManager) → Calls refuses m → IsTidy m
  Calls-IsTidy m start = inl (record { pool = refl; live = refl })
  Calls-IsTidy m (gets {m = m'} env config calls) =
      get_pool-IsTidy env config m' (Calls-IsTidy m' calls)
  Calls-IsTidy m (closes {m = m'} calls) = inl (close-IsEmpty m' (Calls-IsTidy m' calls))

  -- Where psycopg_pool refuses no settings: whatever calls of `get_pool` and `close` come before, in
  -- whichever environments, `get_pool` with settings that can be read returns the only open pool, which
  -- has their DSN, and a `close` after it leaves none open.
  pub get_pool-Served :
      (m : PoolManager) (env : Env) (config : Configuration) (s : PostgresSettings)
      → Calls refuses m
      → get_postgres_settings env config ≡ ok s
      → Served s (get_pool refuses env config m) × IsEmpty (close (get_pool refuses env config m).1)
  get_pool-Served m env config s calls e = (
    unfold get_pool in rw (e, get_pool) (pool_for-Served s m (Calls-IsTidy m calls)),
    close-IsEmpty (get_pool refuses env config m).1
        (Calls-IsTidy (get_pool refuses env config m).1 (gets env config calls)),
  )
