-- ===== src/Tools/Retention.antt =====
-- tools/purge_retention.py checks its options as `apply_retention` checks its periods.
use fingerprint_hub.Prelude.{
  ℕ, ◌≡◌, ◌∙◌, refl, sym, ap, Env, Bool, true, false, not, ◌||◌, Option, ok, raise, Exc, Bool-cases,
  Result-cases, inl, inr, arith, if◌then◌else◌,
}
use fingerprint_hub.Prelude.Int.{ℤ, pos, negsuc, ltb_ℤ, leb_ℤ, min_ℤ}
use fingerprint_hub.Schema.{Db}
use fingerprint_hub.Store.Retention.{
  Purged, has_negative, metadata_outlives_row, purge, apply_retention,
}
use fingerprint_hub.Postgres.{PostgresSettings, PoolManager, postgres_config, get_pool, close}
use fingerprint_hub.Tools.{
  Exit, status, uncaught, printed, in_ms, Days, periods_of, refuses_days, report_purged,
  purge_retention_main,
}

ltb-in_ms : (a b : ℤ) → ltb_ℤ (in_ms a) (in_ms b) ≡ ltb_ℤ a b
ltb-in_ms (pos a) (pos b) = ground arith
ltb-in_ms (pos a) (negsuc b) = ground arith
ltb-in_ms (negsuc a) (pos b) = ground arith
ltb-in_ms (negsuc a) (negsuc b) = ground arith

leb-in_ms : (a b : ℤ) → leb_ℤ (in_ms a) (in_ms b) ≡ leb_ℤ a b
leb-in_ms (pos a) (pos b) = ground arith
leb-in_ms (pos a) (negsuc b) = ground arith
leb-in_ms (negsuc a) (pos b) = ground arith
leb-in_ms (negsuc a) (negsuc b) = ground arith

min-in_ms : (a b : ℤ) → min_ℤ (in_ms a) (in_ms b) ≡ in_ms (min_ℤ a b)
min-in_ms a b = elim (Bool-cases (leb_ℤ a b)) [
  | inl e ↦ rw (leb-in_ms, e) refl
  | inr e ↦ rw (leb-in_ms, e) refl
]

abbrev least : ℤ → ℤ → ℤ → ℤ → ℤ
least a b c d = min_ℤ (min_ℤ (min_ℤ a b) c) d

least-in_ms : (a b c d : ℤ) → least (in_ms a) (in_ms b) (in_ms c) (in_ms d) ≡ in_ms (least a b c d)
least-in_ms a b c d =
    ap (λ z. min_ℤ (min_ℤ z (in_ms c)) (in_ms d)) (min-in_ms a b)
    ∙ ap (λ z. min_ℤ z (in_ms d)) (min-in_ms (min_ℤ a b) c)
    ∙ min-in_ms (min_ℤ (min_ℤ a b) c) d

has_negative-periods :
    (d : Days)
    → has_negative (periods_of d)
      ≡ ltb_ℤ
          (least d.hit_days d.flag_reason_days d.tombstone_metadata_days d.tombstone_days)
          (pos 0)
unfolding has_negative periods_of
has_negative-periods d =
    let low = least d.hit_days d.flag_reason_days d.tombstone_metadata_days d.tombstone_days in
    ap (λ z. ltb_ℤ z (pos 0))
      (least-in_ms d.hit_days d.flag_reason_days d.tombstone_metadata_days d.tombstone_days)
    ∙ ltb-in_ms low (pos 0)

-- The two checks are the same.
refuses_days-periods :
    (d : Days)
    → refuses_days d ≡ (has_negative (periods_of d) || metadata_outlives_row (periods_of d))
unfolding refuses_days
refuses_days-periods d =
    let outlives : metadata_outlives_row (periods_of d)
        ≡ ltb_ℤ d.tombstone_days d.tombstone_metadata_days =
      unfold metadata_outlives_row periods_of in
      ltb-in_ms d.tombstone_days d.tombstone_metadata_days in
    rw (has_negative-periods, outlives) refl

-- How a run of the tool ends.
pub data RunOutcome (refuses : PostgresSettings → Option Exc) (env : Env) (days : Days)
    (apply : Bool) (now_ms : ℕ) (m : PoolManager) (db : Db)
    : Exit (Bool × Purged) × PoolManager × Db → Type 0 where
  -- `apply_retention` would refuse the periods.
  refused :
      apply_retention now_ms (periods_of days) (not apply) db ≡ (raise Exc.value_error, db)
      → RunOutcome refuses env days apply now_ms m db (status 2, m, db)
  -- It would accept them, but there is no pool.
  no_pool :
      (purged : Purged) (x : Exc)
      → (apply_retention now_ms (periods_of days) (not apply) db).0 ≡ ok purged
      → (get_pool refuses env postgres_config m).0 ≡ raise x
      → RunOutcome refuses env days apply now_ms m db
          (uncaught x, (get_pool refuses env postgres_config m).1, db)
  -- There is a pool, `apply_retention` ran and returned, and the pool is closed.
  finished :
      (pool : ℕ) (purged : Purged) (db' : Db)
      → apply_retention now_ms (periods_of days) (not apply) db ≡ (ok purged, db')
      → (get_pool refuses env postgres_config m).0 ≡ ok pool
      → RunOutcome refuses env days apply now_ms m db
          (printed (apply, purged), close (get_pool refuses env postgres_config m).1, db')

module _ (refuses : PostgresSettings → Option Exc) (env : Env) (days : Days) (apply : Bool)
    (now_ms : ℕ) (m : PoolManager) (db : Db) where
  abbrev run : Exit (Bool × Purged) × PoolManager × Db
  run = purge_retention_main refuses env days apply now_ms m db

  accepted :
      refuses_days days ≡ false
      → apply_retention now_ms (periods_of days) (not apply) db ≡ (
        ok (purge now_ms (periods_of days) db).0,
        if not apply then db else (purge now_ms (periods_of days) db).1,
      )
  accepted e =
      let r = sym (refuses_days-periods days) ∙ e in
      unfold apply_retention in
      rw
        (
          left (has_negative (periods_of days)) (metadata_outlives_row (periods_of days)) r,
          right (has_negative (periods_of days)) (metadata_outlives_row (periods_of days)) r,
          apply_retention,
        )
        refl
    where
      left : (a b : Bool) → (a || b) ≡ false → a ≡ false
      left a b h = ground (arith, h)

      right : (a b : Bool) → (a || b) ≡ false → b ≡ false
      right a b h = ground (arith, h)

  rejected :
      refuses_days days ≡ true
      → apply_retention now_ms (periods_of days) (not apply) db ≡ (raise Exc.value_error, db)
  rejected e =
      let r = sym (refuses_days-periods days) ∙ e in
      elim (Bool-cases (has_negative (periods_of days))) [
        | inl f ↦ unfold apply_retention in rw (f, apply_retention) refl
        | inr f ↦
            let g =
              either (has_negative (periods_of days)) (metadata_outlives_row (periods_of days)) r
                f in
            unfold apply_retention in rw (f, g, apply_retention) refl
      ]
    where
      either : (a b : Bool) → (a || b) ≡ true → a ≡ false → b ≡ true
      either a b h k = ground (arith, h, k)

  -- A run of tools/purge_retention.py with options that `apply_retention` would refuse as periods exits
  -- with status 2, asks for no pool and touches nothing. Any other run asks for a pool: without one it
  -- ends with the exception of `get_pool` and the tables as they were, and with one it ends with the
  -- counts and the tables that `apply_retention` returns, and with its pool closed.
  pub purge_retention_main-RunOutcome : RunOutcome refuses env days apply now_ms m db run
  purge_retention_main-RunOutcome = elim (Bool-cases (refuses_days days)) [
    | inl e ↦ unfold purge_retention_main in rw (e, purge_retention_main) (refused (rejected e))
    | inr e ↦ elim (Result-cases (get_pool refuses env postgres_config m).0) [
      | inl (x, f) ↦
          unfold purge_retention_main in
          rw (e, f, purge_retention_main)
            (no_pool (purge now_ms (periods_of days) db).0 x (ap (λ o. o.0) (accepted e)) f)
      | inr (pool, f) ↦
          unfold purge_retention_main report_purged in
          rw (e, f, accepted e, purge_retention_main)
            (finished pool (purge now_ms (periods_of days) db).0
              (if not apply then db else (purge now_ms (periods_of days) db).1) (accepted e) f)
    ]
  ]
