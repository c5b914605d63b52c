-- ===== src/Store/Browse.antt =====
-- `get`, `list_fingerprints` and `stats` of api/fingerprint_store.py.
use fingerprint_hub.Prelude.{
  ℕ, ◌+◌, Str, str_eq, Bool, true, not, ◌&&◌, Option, none, some, List, [], ◌∷◌, map, take, drop,
  if◌then◌else◌,
}
use fingerprint_hub.Prelude.Int.{ℤ, is_int}
use mathlib.Core.List.{reverse}
use fingerprint_hub.Schema.{Status, is_active, is_hidden, is_deleted, Fingerprint, Db}
use fingerprint_hub.Store.Keys.{has_id}
use fingerprint_hub.Store.Feed.{matches}
use fingerprint_hub.Sql.{select, fetch_one, count, order_by}

unfoldable pub get : ℕ → Db → Option Fingerprint
unfolding fetch_one has_id
get fingerprint_id db = fetch_one (has_id fingerprint_id) db.fingerprints

-- `status <> 'deleted'`, or `status = 'active'`
unfoldable pub listed_status : Bool → Status → Bool
listed_status include_hidden s = if include_hidden then not (is_deleted s) else is_active s

unfoldable pub owned_by : Option ℤ → Fingerprint → Bool
owned_by none r = true
owned_by (some consumer_id) r = is_int r.consumer_id consumer_id

unfoldable pub is_listed : Option Str → Option Str → Option ℤ → Bool → Fingerprint → Bool
unfolding listed_status owned_by matches
is_listed category algorithm consumer_id include_hidden r =
    listed_status include_hidden r.status
    && (matches category r.category && (matches algorithm r.algorithm && owned_by consumer_id r))

-- ORDER BY id DESC LIMIT … OFFSET …
unfoldable pub list_fingerprints :
    Option Str → Option Str → Option ℤ → Bool → ℕ → ℕ → Db → List Fingerprint
unfolding is_listed select order_by
list_fingerprints category algorithm consumer_id include_hidden limit offset db = take limit (
    drop offset (
      reverse (
        order_by (λ r. r.id)
          (select (is_listed category algorithm consumer_id include_hidden) db.fingerprints))))

-- SELECT column, COUNT(*) … GROUP BY column
unfoldable pub tally : Str → List (Str × ℕ) → List (Str × ℕ)
unfolding str_eq
tally key [] = (key, 1) ∷ []
tally key ((k, n) ∷ groups) =
    let rest = tally key groups in if str_eq k key then (k, n + 1) ∷ groups else (k, n) ∷ rest

unfoldable pub group_count : List Str → List (Str × ℕ)
unfolding tally
group_count [] = []
group_count (key ∷ keys) = tally key (group_count keys)

-- COALESCE(SUM(hit_count), 0)
unfoldable pub sum_hits : List Fingerprint → ℕ
sum_hits [] = 0
sum_hits (r ∷ rows) = r.hit_count + sum_hits rows

pub record Stats : Type 0 where
  pub total_active : ℕ
  pub total_hidden : ℕ
  pub total_deleted : ℕ
  pub total_hits : ℕ
  pub by_category : List (Str × ℕ)
  pub by_provenance : List (Str × ℕ)
  pub active_consumers : ℕ

unfoldable pub stats : Db → Stats
unfolding count sum_hits group_count select
stats db =
    let live = select (λ r. is_active r.status) db.fingerprints in
    record {
      total_active = count (λ r. is_active r.status) db.fingerprints;
      total_hidden = count (λ r. is_hidden r.status) db.fingerprints;
      total_deleted = count (λ r. is_deleted r.status) db.fingerprints;
      total_hits = sum_hits db.fingerprints;
      by_category = group_count (map (λ r. r.category) live);
      by_provenance = group_count (map (λ r. r.provenance) live);
      active_consumers = count (λ c. c.enabled) db.consumers;
    }
