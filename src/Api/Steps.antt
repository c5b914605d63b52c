-- ===== src/Api/Steps.antt =====
-- Each request is at most one operation of the store.
use fingerprint_hub.Prelude.{
  ℕ, ◌≡◌, refl, Str, codes, Option, List, Bool-cases, Option-cases, Result-cases, inl, inr, ◌⊎◌,
  Result, ok, raise,
}
use fingerprint_hub.Prelude.Int.{ℤ, pos, negsuc}
use fingerprint_hub.Cipher.{Cipher}
use fingerprint_hub.Schema.{Consumer, Db}
use fingerprint_hub.Store.Browse as browse
use fingerprint_hub.Store.Contribute.{Contribution, Nonces}
use fingerprint_hub.Api.Contents.{IsClean, check-IsClean}
use fingerprint_hub.Store.History.{Step, contributes, races, reports, flags, deletes, purges}
use fingerprint_hub.Api.Messages.{
  Json, Request, ServiceConfig, Reply, Parsed, parsed, refused, parse_json_body, lookup, statistics,
}
use fingerprint_hub.Api.Access.{has_scope, require_scope}
use fingerprint_hub.Api.Reading.{
  read_sync, read_window, read_one, path_id, get_live, sync_fingerprints, get_fingerprint,
  list_fingerprints, stats,
}
use fingerprint_hub.Api.Writing.{
  Checked, accepted, rejected, check, store_contribution, checked_contribution, accept_contribution,
  contribute_fingerprint, distance_of, str_or_none, store_hit, read_hit, body_or_empty,
  with_id_and_body, report_hit, store_flag, flag_fingerprint, may_delete, delete_at, delete_found,
  delete_row, delete_fingerprint,
}
use fingerprint_hub.Api.App.{
  Endpoint, Draws, dispatch, get_sync, get_stats, post_fingerprint, get_list, post_hit, post_flag,
  get_one, delete_one,
}

-- The operation is that of a handler: a contribution is one that the checks let through, and neither
-- half of one runs alone.
abbrev pub IsHandled : {c : Cipher} {db db' : Db} → Step c db db' → Type 0
IsHandled (contributes n consumer_id x now_ms) = IsClean x
IsHandled (races existing n consumer_id x y now_ms e) = ⊥
IsHandled (purges now_ms p dry_run) = ⊥
IsHandled _ = Unit

-- Nothing changes, or one operation of the store runs.
abbrev pub Moves : Cipher → Db → Db → Type 0
Moves c db db' = (db' ≡ db) ⊎ ((s : Step c db db') × IsHandled s)

module _ (c : Cipher) (db : Db) where
  scoped-Moves :
      (scope : Str) (consumer : Consumer) (r : Result Reply × Db)
      → Moves c db r.1
      → Moves c db (require_scope scope consumer r db).1
  scoped-Moves scope consumer r m = elim (Bool-cases (has_scope scope consumer)) [
    | inl e ↦ unfold require_scope in rw (e, require_scope) m
    | inr e ↦ unfold require_scope in rw (e, require_scope) (inl refl)
  ]

  checked-Moves :
      (n : Nonces) (consumer : Consumer) (x : Checked) (now_ms : ℕ)
      → ((y : Contribution) → x ≡ accepted y → IsClean y)
      → Moves c db (checked_contribution c n consumer x now_ms db).1
  checked-Moves n consumer (accepted x) now_ms clean =
      unfold checked_contribution store_contribution in
      inr (contributes n consumer.id x now_ms, clean x refl)
  checked-Moves n consumer (rejected m) now_ms clean = unfold checked_contribution in inl refl

  Parsed-cases :
      (r : Result Parsed)
      → ((e : _) × (r ≡ raise e))
        ⊎ (((q : Reply) × (r ≡ ok (refused q))) ⊎ ((b : List (Str × Json)) × (r ≡ ok (parsed b))))
  Parsed-cases (raise e) = inl (e, refl)
  Parsed-cases (ok (refused q)) = inr (inl (q, refl))
  Parsed-cases (ok (parsed b)) = inr (inr (b, refl))

  accept-Moves :
      (n : Nonces) (now_ms : ℕ) (request : Request)
      → Moves c db (accept_contribution c n now_ms request db).1
  accept-Moves n now_ms request = elim (Parsed-cases (parse_json_body request.body)) [
    | inl (e, h) ↦ unfold accept_contribution in rw (h, accept_contribution) (inl refl)
    | inr (inl (q, h)) ↦ unfold accept_contribution in rw (h, accept_contribution) (inl refl)
    | inr (inr (b, h)) ↦
        unfold accept_contribution in
        rw (h, accept_contribution)
          (checked-Moves n request.consumer (check b) now_ms (check-IsClean b))
  ]

  with_id-Moves :
      (request : Request) (handle : ℤ → List (Str × Json) → Db → Result Reply × Db)
      → ((id : ℤ) (body : List (Str × Json)) → Moves c db (handle id body db).1)
      → Moves c db (with_id_and_body request handle db).1
  with_id-Moves request handle h = elim (Option-cases (path_id request.id)) [
    | inl e ↦ unfold with_id_and_body in rw (e, with_id_and_body) (inl refl)
    | inr (id, e) ↦ elim (Result-cases (parse_json_body request.body)) [
      | inl (x, f) ↦ unfold with_id_and_body in rw (e, f, with_id_and_body) (inl refl)
      | inr (p, f) ↦ unfold with_id_and_body in rw (e, f, with_id_and_body) (h id (body_or_empty p))
    ]
  ]

  store_hit-Moves :
      (nonce : List ℕ) (now_ms : ℕ) (consumer : Consumer) (id : ℤ) (guild : Option Str)
      (distance : Option ℤ)
      → Moves c db (store_hit c nonce now_ms consumer id guild distance db).1
  store_hit-Moves nonce now_ms consumer (pos id) guild distance =
      unfold store_hit in inr (reports nonce id consumer.id guild distance now_ms, tt)
  store_hit-Moves nonce now_ms consumer (negsuc id) guild distance = unfold store_hit in inl refl

  read_hit-Moves :
      (nonce : List ℕ) (now_ms : ℕ) (consumer : Consumer) (id : ℤ) (body : List (Str × Json))
      → Moves c db (read_hit c nonce now_ms consumer id body db).1
  read_hit-Moves nonce now_ms consumer id body =
      elim (Result-cases (distance_of (lookup (codes "distance") body))) [
        | inl (x, f) ↦ unfold read_hit in rw (f, read_hit) (inl refl)
        | inr (d, f) ↦
            unfold read_hit in
            rw (f, read_hit)
              (store_hit-Moves nonce now_ms consumer id
                (str_or_none (lookup (codes "guild_id") body)) d)
      ]

  store_flag-Moves :
      (nonce : List ℕ) (now_ms threshold : ℕ) (consumer : Consumer) (id : ℤ)
      (body : List (Str × Json))
      → Moves c db (store_flag c nonce now_ms threshold consumer id body db).1
  store_flag-Moves nonce now_ms threshold consumer (pos id) body =
      unfold store_flag in
      inr (
        flags nonce id consumer.id (str_or_none (lookup (codes "reason") body)) now_ms threshold,
        tt,
      )
  store_flag-Moves nonce now_ms threshold consumer (negsuc id) body = unfold store_flag in inl refl

  delete_at-Moves : (id : ℤ) (now_ms : ℕ) → Moves c db (delete_at id now_ms db)
  delete_at-Moves (pos id) now_ms = unfold delete_at in inr (deletes id now_ms, tt)
  delete_at-Moves (negsuc id) now_ms = unfold delete_at in inl refl

  delete_row-Moves : (now_ms : ℕ) (request : Request) → Moves c db (delete_row now_ms request db).1
  delete_row-Moves now_ms request = elim (Option-cases (path_id request.id)) [
    | inl e ↦ unfold delete_row in rw (e, delete_row) (inl refl)
    | inr (id, e) ↦ elim (Option-cases (get_live id db)) [
      | inl f ↦ unfold delete_row in rw (e, f, delete_row) (inl refl)
      | inr (r, f) ↦ elim (Bool-cases (may_delete request.consumer r)) [
        | inl g ↦
            unfold delete_row in rw (e, f, g, delete_row, delete_found) (delete_at-Moves id now_ms)
        | inr g ↦ unfold delete_row in rw (e, f, g, delete_row, delete_found) (inl refl)
      ]
    ]
  ]

  -- A request to any endpoint leaves the tables as they are, or runs one operation of the store:
  -- `contribute` as a whole, with a contribution that the checks let through, `report_hit`, `flag` or
  -- `soft_delete`.
  pub dispatch-Moves :
      (d : Draws) (config : ServiceConfig) (endpoint : Endpoint) (request : Request)
      → Moves c db (dispatch c d config endpoint request db).1
  unfolding dispatch
  dispatch-Moves d config get_sync request =
      unfold sync_fingerprints in
      scoped-Moves (codes "read") request.consumer (ok (read_sync config request db), db) (inl refl)
  dispatch-Moves d config get_stats request =
      unfold stats in
      scoped-Moves (codes "admin") request.consumer (ok (statistics (browse.stats db)), db)
        (inl refl)
  dispatch-Moves d config post_fingerprint request =
      unfold contribute_fingerprint in
      scoped-Moves (codes "write") request.consumer
        (accept_contribution c d.nonces d.now_ms request db)
        (accept-Moves d.nonces d.now_ms request)
  dispatch-Moves d config get_list request =
      unfold list_fingerprints in
      scoped-Moves (codes "read") request.consumer (read_window c config request db, db) (inl refl)
  dispatch-Moves d config post_hit request =
      unfold report_hit in
      scoped-Moves (codes "write") request.consumer
        (with_id_and_body request (read_hit c d.nonce d.now_ms request.consumer) db)
        (with_id-Moves request (read_hit c d.nonce d.now_ms request.consumer)
          (read_hit-Moves d.nonce d.now_ms request.consumer))
  dispatch-Moves d config post_flag request =
      unfold flag_fingerprint in
      scoped-Moves (codes "write") request.consumer
        (with_id_and_body request
          (store_flag c d.nonce d.now_ms config.auto_hide_flag_threshold request.consumer) db)
        (with_id-Moves request
          (store_flag c d.nonce d.now_ms config.auto_hide_flag_threshold request.consumer)
          (store_flag-Moves d.nonce d.now_ms config.auto_hide_flag_threshold request.consumer))
  dispatch-Moves d config get_one request =
      unfold get_fingerprint in
      scoped-Moves (codes "read") request.consumer (read_one c request db, db) (inl refl)
  dispatch-Moves d config delete_one request =
      unfold delete_fingerprint in
      scoped-Moves (codes "write") request.consumer
        (ok (delete_row d.now_ms request db).0, (delete_row d.now_ms request db).1)
        (delete_row-Moves d.now_ms request)
