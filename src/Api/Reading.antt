-- ===== src/Api/Reading.antt =====
-- The handlers that read, of api/fingerprints.py: `health`, `sync_fingerprints`, `get_fingerprint`,
-- `list_fingerprints` and `stats`.
use fingerprint_hub.Prelude.{
  ℕ, ◌-◌, ◌^◌, Str, codes, str_in, Bool, true, false, not, ◌&&◌, Option, none, some, List, [], ◌∷◌,
  length, if◌then◌else◌, Result, ok, raise, Exc, ◌>>=◌,
}
use fingerprint_hub.Prelude.Int.{ℤ, pos, negsuc, min_ℤ, at_least, leb_ℤ, is_int}
use fingerprint_hub.Schema.{is_hidden, is_deleted, Consumer, Fingerprint, Db}
use fingerprint_hub.Cipher.{Cipher}
use fingerprint_hub.Store.Feed.{Page, Triple, sync}
use fingerprint_hub.Store.Browse as browse
use fingerprint_hub.Api.Values.{strip, lower, int, nonempty}
use fingerprint_hub.Api.Access.{has_scope, require_scope}
use fingerprint_hub.Api.Messages.{
  Request, ServiceConfig, Reply, failure, page, detail, listing, statistics, health_report, lookup,
}
use fingerprint_hub.Api.Views.{can_see_secrets, detail_fp, details}

-- `health`, which reports a failure of `_ping` and does not raise
unfoldable pub health : Bool → Reply
health ping_succeeds = health_report ping_succeeds

-- `_path_id`
unfoldable pub path_id : Option Str → Option ℤ
unfolding int
path_id none = none
path_id (some text) = int text

-- `_str_or_none(request.query.get(key))`
unfoldable pub query_text : Str → Request → Option Str
unfolding lookup strip nonempty
query_text key request = elim (lookup key request.query) [
  | none ↦ none
  | some text ↦ nonempty (strip text)
]

-- `int(request.query.get(key, …))`
unfoldable pub query_int : Str → ℤ → Request → Option ℤ
unfolding lookup int
query_int key default request = elim (lookup key request.query) [
  | none ↦ some default
  | some text ↦ int text
]

-- `max(1, min(limit, maximum))`
unfoldable pub clamp : ℤ → ℤ → ℕ
clamp limit maximum = at_least 1 (min_ℤ limit maximum)

unfoldable pub page_of : Page → Reply
page_of p = page p.rows p.next_since p.has_more

unfoldable pub triple_of : Request → Triple
unfolding query_text
triple_of request = record {
  algorithm = query_text (codes "algorithm") request;
  algorithm_version = query_text (codes "algorithm_version") request;
  normalization_version = query_text (codes "normalization_version") request;
}

-- From `require_scope` on.
unfoldable pub read_sync : ServiceConfig → Request → Db → Reply
unfolding query_int clamp triple_of page_of sync
read_sync config request db = elim (query_int (codes "since") (pos 0) request) [
  | none ↦ failure 400 (codes "since must be an integer")
  | some since ↦ elim (query_int (codes "limit") config.default_sync_limit request) [
    | none ↦ failure 400 (codes "limit must be an integer")
    | some limit ↦ page_of (
        sync request.consumer.id (at_least 0 since) (clamp limit config.max_sync_limit)
          (triple_of request) db)
  ]
]

unfoldable pub sync_fingerprints : ServiceConfig → Request → Db → Result Reply × Db
unfolding require_scope read_sync
sync_fingerprints config request db =
    require_scope (codes "read") request.consumer (ok (read_sync config request db), db) db

-- A path id that is negative is the id of no row.
unfoldable pub get_row : ℤ → Db → Option Fingerprint
unfolding browse.get
get_row (pos id) db = browse.get id db
get_row (negsuc _) db = none

-- `row is None or row["status"] == "deleted"`, of the row that `get` returns
unfoldable pub get_live : ℤ → Db → Option Fingerprint
unfolding get_row
get_live id db = elim (get_row id db) [
  | none ↦ none
  | some r ↦ if is_deleted r.status then none else some r
]

abbrev pub not_found : Reply
not_found = failure 404 (codes "fingerprint not found")

abbrev pub invalid_id : Reply
invalid_id = failure 400 (codes "invalid fingerprint id")

-- The answer for a row that is not deleted.
unfoldable pub show : Cipher → Consumer → Fingerprint → Result Reply
unfolding detail_fp can_see_secrets
show c consumer r =
    if is_hidden r.status && not (can_see_secrets consumer r)
    then ok not_found
    else detail_fp c consumer r >>= (λ d. ok (detail d))

unfoldable pub read_one : Cipher → Request → Db → Result Reply
unfolding path_id get_live show
read_one c request db = elim (path_id request.id) [
  | none ↦ ok invalid_id
  | some id ↦ elim (get_live id db) [ none ↦ ok not_found | some r ↦ show c request.consumer r ]
]

unfoldable pub get_fingerprint : Cipher → Request → Db → Result Reply × Db
unfolding require_scope read_one
get_fingerprint c request db =
    require_scope (codes "read") request.consumer (read_one c request db, db) db

-- The `consumer_id` of the statement: the filter of the request, or the error answer.
pub data Scope : Type 0 where
  limited_to : Option ℤ → Scope
  denied : Reply → Scope

-- `if not is_admin: …`
unfoldable pub narrow : Bool → ℕ → Option ℤ → Scope
narrow true requester_id filter = limited_to filter
narrow false requester_id none = limited_to (some (pos requester_id))
narrow false requester_id (some id) =
    if is_int requester_id id
    then limited_to (some (pos requester_id))
    else denied (failure 403 (codes "consumer_id filtering is limited to your own records"))

unfoldable pub consumer_scope : Request → Scope
unfolding lookup int narrow has_scope
consumer_scope request =
    let is_admin = has_scope (codes "admin") request.consumer in
    elim (lookup (codes "consumer_id") request.query) [
      | none ↦ narrow is_admin request.consumer.id none
      | some text ↦ elim (int text) [
        | none ↦ denied (failure 400 (codes "consumer_id must be an integer"))
        | some id ↦ narrow is_admin request.consumer.id (some id)
      ]
    ]

-- `.lower() in ("1", "true", "yes")`
unfoldable pub wants_hidden : Request → Bool
unfolding lookup lower str_in
wants_hidden request = elim (lookup (codes "include_hidden") request.query) [
  | none ↦ false
  | some text ↦ str_in (lower text) (codes "1" ∷ codes "true" ∷ codes "yes" ∷ [])
]

-- The statement's OFFSET is a BIGINT.
unfoldable pub fits_bigint : ℕ → Bool
fits_bigint n = leb_ℤ (pos n) (pos (2 ^ 63 - 1))

unfoldable pub list_rows : Request → Option ℤ → ℕ → ℕ → Db → List Fingerprint
unfolding query_text wants_hidden has_scope browse.list_fingerprints
list_rows request consumer_id limit offset db =
    browse.list_fingerprints (query_text (codes "category") request)
      (query_text (codes "algorithm") request) consumer_id
      (wants_hidden request && has_scope (codes "admin") request.consumer) limit offset db

unfoldable pub show_rows : Cipher → Request → List Fingerprint → Result Reply
unfolding details
show_rows c request rows = details c request.consumer rows >>= (λ ds. ok (listing ds (length rows)))

unfoldable pub read_list : Cipher → Request → ℕ → ℕ → Db → Result Reply
unfolding consumer_scope fits_bigint list_rows show_rows
read_list c request limit offset db = elim (consumer_scope request) [
  | denied reply ↦ ok reply
  | limited_to consumer_id ↦
      if fits_bigint offset
      then show_rows c request (list_rows request consumer_id limit offset db)
      else raise Exc.numeric_value_out_of_range
]

unfoldable pub read_window : Cipher → ServiceConfig → Request → Db → Result Reply
unfolding query_int clamp read_list
read_window c config request db = elim (query_int (codes "limit") (pos 50) request) [
  | none ↦ ok (failure 400 (codes "limit/offset must be integers"))
  | some limit ↦ elim (query_int (codes "offset") (pos 0) request) [
    | none ↦ ok (failure 400 (codes "limit/offset must be integers"))
    | some offset ↦ read_list c request (clamp limit config.max_list_limit) (at_least 0 offset) db
  ]
]

unfoldable pub list_fingerprints : Cipher → ServiceConfig → Request → Db → Result Reply × Db
unfolding require_scope read_window
list_fingerprints c config request db =
    require_scope (codes "read") request.consumer (read_window c config request db, db) db

unfoldable pub stats : Request → Db → Result Reply × Db
unfolding require_scope browse.stats
stats request db =
    require_scope (codes "admin") request.consumer (ok (statistics (browse.stats db)), db) db
