-- ===== src/Consumers.antt =====
-- api/consumers_store.py. SHA-256 and the random token come from the standard library and enter as
-- arguments: the digest as a function of the key, the token as the text that was drawn.
pub mod Uniqueness
use fingerprint_hub.Prelude.{
  ℕ, ◌+◌, Str, codes, str_eq, str_in, Bool, true, false, not, ◌||◌, Option, none, some, List, [],
  ◌∷◌, ◌++◌, if◌then◌else◌, ◌==◌, Result, ok, raise, Exc,
}
use fingerprint_hub.Schema.{Consumer, Db}
use fingerprint_hub.Sql.{select, fetch_one, exists, update}

abbrev pub api_key_prefix : Str
api_key_prefix = codes "fph_"

abbrev pub valid_scopes : List Str
valid_scopes = codes "read" ∷ codes "write" ∷ codes "admin" ∷ []

unfoldable pub generate_api_key : Str → Str
generate_api_key token = api_key_prefix ++ token

unfoldable pub has_key_hash : Str → Consumer → Bool
unfolding str_eq
has_key_hash key_hash c = str_eq c.api_key_hash key_hash

unfoldable pub has_name : Str → Consumer → Bool
unfolding str_eq
has_name name c = str_eq c.name name

unfoldable pub find_by_key_hash : Str → Db → Option Consumer
unfolding fetch_one has_key_hash
find_by_key_hash key_hash db = fetch_one (has_key_hash key_hash) db.consumers

unfoldable pub seen : ℕ → Consumer → Consumer
seen now_ms c = record c { last_seen_at_ms = some now_ms }

unfoldable pub touch_last_seen : ℕ → ℕ → Db → Db
unfolding seen update
touch_last_seen consumer_id now_ms db = record db {
  consumers = update (λ c. c.id == consumer_id) (seen now_ms) db.consumers;
}

-- `set(scopes) - VALID_SCOPES`
unfoldable pub invalid_scopes : List Str → List Str
unfolding select str_in str_eq
invalid_scopes scopes = select (λ s. not (str_in s valid_scopes)) scopes

unfoldable pub is_nonempty {ℓ} : {A : Type ℓ} → List A → Bool
is_nonempty [] = false
is_nonempty (x ∷ xs) = true

unfoldable pub new_consumer : Str → Str → List Str → ℕ → Db → Consumer
new_consumer name key_hash scopes now_ms db = record {
  id = db.next_consumer_id;
  name = name;
  api_key_hash = key_hash;
  scopes = scopes;
  enabled = true;
  created_at_ms = now_ms;
  last_seen_at_ms = none;
}

-- The INSERT, with the unique constraints on the name and on the hash. The identity is drawn before
-- a violation is seen, and stays drawn.
unfoldable pub insert_consumer : Str → Str → List Str → ℕ → Db → Result ℕ × Db
unfolding new_consumer exists has_name has_key_hash
insert_consumer name key_hash scopes now_ms db =
    let drawn = record db { next_consumer_id = db.next_consumer_id + 1 } in
    let row = new_consumer name key_hash scopes now_ms db in
    if exists (λ c. has_name name c || has_key_hash key_hash c) db.consumers
    then (raise Exc.unique_violation, drawn)
    else (ok db.next_consumer_id, record drawn { consumers = db.consumers ++ row ∷ [] })

unfoldable pub with_key : Str → Result ℕ → Result (ℕ × Str)
with_key raw_key (ok id) = ok (id, raw_key)
with_key raw_key (raise e) = raise e

-- The id and the raw key, which is not stored.
unfoldable pub create_consumer : (Str → Str) → Str → Str → List Str → ℕ → Db → Result (ℕ × Str) × Db
create_consumer hash_api_key token name scopes now_ms db =
    let raw_key = generate_api_key token in
    let (r, db') = insert_consumer name (hash_api_key raw_key) scopes now_ms db in
    if is_nonempty (invalid_scopes scopes)
    then (raise Exc.value_error, db)
    else (with_key raw_key r, db')
