-- ===== src/Api/Privacy/Endpoints.antt =====
-- The four endpoints that read, on redacted tables.
use fingerprint_hub.Prelude.{
  ℕ, ◌+◌, ◌≡◌, ◌∙◌, refl, ap, Str, codes, Option, Bool, true, false, ◌&&◌, List, [], ◌∷◌, map, take,
  Bool-cases, Option-cases, inl, inr, ◌⊎◌, Result, ok, ◌>>=◌,
}
use mathlib.Core.Path.{ap₂}
use fingerprint_hub.Prelude.Int.{ℤ, pos, at_least}
use fingerprint_hub.Cipher.{Cipher}
use fingerprint_hub.Schema.{Consumer, Fingerprint, Db}
use fingerprint_hub.Sql.Rows.{length-map}
use fingerprint_hub.Store.Feed.{Triple, sync, cut_page}
use fingerprint_hub.Store.Browse as browse
use fingerprint_hub.Api.Messages.{Request, ServiceConfig, Reply, listing, statistics}
use fingerprint_hub.Api.Access.{has_scope, require_scope}
use fingerprint_hub.Api.Reading.{
  Scope, limited_to, denied, path_id, query_int, query_text, wants_hidden, clamp, triple_of,
  page_of, read_sync, get_live, read_one, consumer_scope, fits_bigint, list_rows, show_rows,
  read_list, read_window, sync_fingerprints, get_fingerprint, list_fingerprints, stats,
}
use fingerprint_hub.Api.App.{
  Endpoint, Draws, dispatch, get_sync, get_stats, post_fingerprint, get_list, post_hit, post_flag,
  get_one, delete_one,
}
use fingerprint_hub.Api.Privacy.{
  redact, redacted, feed-redacted, get_live-redact, show-redact, details-redact,
}
use fingerprint_hub.Api.Privacy.Listing.{IsNarrow, admin-see, consumer_scope-IsNarrow, list-redact}

Scope-cases :
    (s : Scope) → ((r : Reply) × (s ≡ denied r)) ⊎ ((cid : Option ℤ) × (s ≡ limited_to cid))
Scope-cases (denied r) = inl (r, refl)
Scope-cases (limited_to cid) = inr (cid, refl)

module _ (request : Request) (db : Db) where
  abbrev db' : Db
  db' = redacted request.consumer db

  sync-redacted :
      (since limit : ℕ) (t : Triple)
      → sync request.consumer.id since limit t db' ≡ sync request.consumer.id since limit t db
  unfolding sync
  sync-redacted since limit t =
      ap (λ rows. cut_page since limit (take (limit + 1) rows))
        (feed-redacted request.consumer t since db)

  read_sync-redacted :
      (config : ServiceConfig) → read_sync config request db' ≡ read_sync config request db
  read_sync-redacted config = elim (Option-cases (query_int (codes "since") (pos 0) request)) [
    | inl e ↦ unfold read_sync in rw (e, read_sync) refl
    | inr (since, e) ↦
        elim (Option-cases (query_int (codes "limit") config.default_sync_limit request)) [
          | inl f ↦ unfold read_sync in rw (e, f, read_sync) refl
          | inr (limit, f) ↦
              unfold read_sync in
              rw (e, f, read_sync)
                (ap page_of (
                  sync-redacted (at_least 0 since) (clamp limit config.max_sync_limit)
                    (triple_of request)))
        ]
  ]

  read_one-redacted : (c : Cipher) → read_one c request db' ≡ read_one c request db
  read_one-redacted c = elim (Option-cases (path_id request.id)) [
    | inl e ↦ unfold read_one in rw (e, read_one) refl
    | inr (id, e) ↦ elim (Option-cases (get_live id db)) [
      | inl f ↦ unfold read_one in rw (e, get_live-redact request.consumer id db, f, read_one) refl
      | inr (r, f) ↦
          unfold read_one in
          rw (e, get_live-redact request.consumer id db, f, read_one)
            (show-redact request.consumer c r)
    ]
  ]

  show_rows-redact :
      (c : Cipher) (rows : List Fingerprint)
      → show_rows c request (map (redact request.consumer) rows) ≡ show_rows c request rows
  unfolding show_rows
  show_rows-redact c rows =
      ap₂ (λ ds n. ds >>= (λ d. ok (listing d n))) (details-redact request.consumer c rows)
        (length-map (redact request.consumer) rows)

  read_list-redacted :
      (c : Cipher) (limit offset : ℕ)
      → read_list c request limit offset db' ≡ read_list c request limit offset db
  read_list-redacted c limit offset = elim (Scope-cases (consumer_scope request)) [
    | inl (reply, e) ↦ unfold read_list in rw (e, read_list) refl
    | inr (cid, e) ↦ elim (Bool-cases (fits_bigint offset)) [
      | inl f ↦
          unfold read_list in
          rw (e, f, read_list) (rows_redacted cid (consumer_scope-IsNarrow request cid e))
      | inr f ↦ unfold read_list in rw (e, f, read_list) refl
    ]
  ]
    where
      rows_same :
          (cid : Option ℤ)
          → IsNarrow request.consumer cid
          → list_rows request cid limit offset db'
            ≡ map (redact request.consumer) (list_rows request cid limit offset db)
      rows_same cid n =
          unfold list_rows in
          list-redact request.consumer (query_text (codes "category") request)
            (query_text (codes "algorithm") request) cid
            (wants_hidden request && has_scope (codes "admin") request.consumer) limit offset db n

      rows_redacted :
          (cid : Option ℤ)
          → IsNarrow request.consumer cid
          → show_rows c request (list_rows request cid limit offset db')
            ≡ show_rows c request (list_rows request cid limit offset db)
      rows_redacted cid n =
          ap (show_rows c request) (rows_same cid n)
          ∙ show_rows-redact c (list_rows request cid limit offset db)

  read_window-redacted :
      (c : Cipher) (config : ServiceConfig)
      → read_window c config request db' ≡ read_window c config request db
  read_window-redacted c config = elim (Option-cases (query_int (codes "limit") (pos 50) request)) [
    | inl e ↦ unfold read_window in rw (e, read_window) refl
    | inr (limit, e) ↦ elim (Option-cases (query_int (codes "offset") (pos 0) request)) [
      | inl f ↦ unfold read_window in rw (e, f, read_window) refl
      | inr (offset, f) ↦
          unfold read_window in
          rw (e, f, read_window)
            (read_list-redacted c (clamp limit config.max_list_limit) (at_least 0 offset))
    ]
  ]

  rows_admin :
      (rows : List Fingerprint)
      → has_scope (codes "admin") request.consumer ≡ true
      → map (redact request.consumer) rows ≡ rows
  rows_admin [] a = refl
  rows_admin (r ∷ rows) a = rw (admin-see request.consumer r a, rows_admin rows a) refl

  stats-redacted :
      has_scope (codes "admin") request.consumer ≡ true → browse.stats db' ≡ browse.stats db
  unfolding browse.stats
  stats-redacted a = rw (rows_admin db.fingerprints a) refl

-- An answer is the same with and without the parts of the tables that the consumer may not see.
scoped-reply :
    (scope : Str) (consumer : Consumer) (r r' : Result Reply) (db db' : Db)
    → (has_scope scope consumer ≡ true → r' ≡ r)
    → (require_scope scope consumer (r', db') db').0 ≡ (require_scope scope consumer (r, db) db).0
scoped-reply scope consumer r r' db db' h = elim (Bool-cases (has_scope scope consumer)) [
  | inl e ↦ unfold require_scope in rw (e, require_scope) (h e)
  | inr e ↦ unfold require_scope in rw (e, require_scope) refl
]

-- The endpoints that read.
abbrev pub reads : Endpoint → Bool
reads get_sync = true
reads get_stats = true
reads get_list = true
reads get_one = true
reads _ = false

-- The answer of an endpoint that reads does not depend on what the consumer may not see: unless it
-- owns a row or has the scope "admin", the row's owner, source, reason, times, counts, provenance and
-- origin, and all hits and flags, may be replaced without a change of the answer.
pub dispatch-redacted :
    (c : Cipher) (d : Draws) (config : ServiceConfig) (endpoint : Endpoint) (request : Request)
    (db : Db)
    → reads endpoint ≡ true
    → (dispatch c d config endpoint request (redacted request.consumer db)).0
      ≡ (dispatch c d config endpoint request db).0
unfolding dispatch
dispatch-redacted c d config get_sync request db h =
    unfold sync_fingerprints in
    scoped-reply (codes "read") request.consumer (ok (read_sync config request db))
      (ok (read_sync config request (redacted request.consumer db))) db
      (redacted request.consumer db) (λ _. ap ok (read_sync-redacted request db config))
dispatch-redacted c d config get_stats request db h =
    unfold stats in
    scoped-reply (codes "admin") request.consumer (ok (statistics (browse.stats db)))
      (ok (statistics (browse.stats (redacted request.consumer db)))) db
      (redacted request.consumer db)
      (λ a. ap (λ s. ok (statistics s)) (stats-redacted request db a))
dispatch-redacted c d config get_list request db h =
    unfold list_fingerprints in
    scoped-reply (codes "read") request.consumer (read_window c config request db)
      (read_window c config request (redacted request.consumer db)) db
      (redacted request.consumer db) (λ _. read_window-redacted request db c config)
dispatch-redacted c d config get_one request db h =
    unfold get_fingerprint in
    scoped-reply (codes "read") request.consumer (read_one c request db)
      (read_one c request (redacted request.consumer db)) db (redacted request.consumer db)
      (λ _. read_one-redacted request db c)
dispatch-redacted c d config post_fingerprint request db h = absurd cc
dispatch-redacted c d config post_hit request db h = absurd cc
dispatch-redacted c d config post_flag request db h = absurd cc
dispatch-redacted c d config delete_one request db h = absurd cc
