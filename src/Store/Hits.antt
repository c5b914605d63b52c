-- ===== src/Store/Hits.antt =====
-- `report_hit` of api/fingerprint_store.py.
pub mod Branches
use fingerprint_hub.Prelude.{
  ℕ, ◌+◌, ◌-◌, ◌^◌, Str, Bool, ◌&&◌, true, Option, none, some, List, [], ◌∷◌, ◌++◌, if◌then◌else◌,
  Result, ok, raise, Exc,
}
use fingerprint_hub.Prelude.Int.{ℤ, pos, negsuc, leb_ℤ}
use fingerprint_hub.Schema.{is_deleted, Fingerprint, Hit, Db}
use fingerprint_hub.Store.Keys.{has_id}
use fingerprint_hub.Cipher.{Cipher}
use fingerprint_hub.Sql.{fetch_one, update}

-- The column `distance` is an INTEGER, of 32 bits.
unfoldable pub fits_integer : Option ℤ → Bool
fits_integer none = true
fits_integer (some d) = leb_ℤ (negsuc (2 ^ 31 - 1)) d && leb_ℤ d (pos (2 ^ 31 - 1))

-- the SET list of the UPDATE
unfoldable pub counted : ℕ → Fingerprint → Fingerprint
counted now_ms r = record r { hit_count = r.hit_count + 1; last_hit_at_ms = some now_ms }

-- `int(row["hit_count"])`, which has no row to read if the UPDATE met none
unfoldable pub hit_count_of : Option Fingerprint → Result (Option ℕ)
hit_count_of none = raise Exc.type_error
hit_count_of (some r) = ok (some r.hit_count)

-- The INSERT and the UPDATE, for a row that the SELECT found.
unfoldable pub record_hit : ℕ → ℕ → Option Str → Option ℤ → ℕ → Db → Result (Option ℕ) × Db
unfolding fits_integer counted hit_count_of fetch_one update has_id
record_hit fingerprint_id consumer_id guild_id distance now_ms db =
    let hit : Hit = record {
      fingerprint_id = fingerprint_id;
      consumer_id = consumer_id;
      guild_id = guild_id;
      distance = distance;
      hit_at_ms = now_ms;
    } in
    let rows = update (has_id fingerprint_id) (counted now_ms) db.fingerprints in
    if fits_integer distance
    then (
      hit_count_of (fetch_one (has_id fingerprint_id) rows),
      record db { hits = db.hits ++ hit ∷ []; fingerprints = rows },
    )
    else (raise Exc.numeric_value_out_of_range, db)

-- An exception rolls the transaction back.
unfoldable pub report_hit :
    Cipher → List ℕ → ℕ → ℕ → Option Str → Option ℤ → ℕ → Db → Result (Option ℕ) × Db
unfolding record_hit
report_hit c nonce fingerprint_id consumer_id guild_id distance now_ms db =
    elim (fetch_one (has_id fingerprint_id) db.fingerprints) [
      | none ↦ (ok none, db)
      | some fp ↦ if is_deleted fp.status then (ok none, db) else elim (c.encrypt nonce guild_id) [
        | raise e ↦ (raise e, db)
        | ok guild ↦ record_hit fingerprint_id consumer_id guild distance now_ms db
      ]
    ]
