-- ===== src/Api/Writing.antt =====
-- The handlers that write, of api/fingerprints.py: `contribute_fingerprint`, `report_hit`,
-- `flag_fingerprint` and `delete_fingerprint`. The random nonces and the time enter as arguments.
mod Checks
unfoldable pub use Checks.*
use fingerprint_hub.Prelude.{
  ℕ, Str, codes, str_in, Bool, true, false, ◌||◌, Option, none, some, List, [], ◌∷◌, ◌==◌,
  if◌then◌else◌, Result, ok, raise, Exc, ◌>>=◌, or_else,
}
use fingerprint_hub.Prelude.Int.{ℤ, pos, negsuc}
use fingerprint_hub.Schema.{Consumer, Fingerprint, Db}
use fingerprint_hub.Cipher.{Cipher}
use fingerprint_hub.Store.Contribute.{
  Contribution, Contributed, created, duplicate, Nonces, contribute,
}
use fingerprint_hub.Store.Hits as hits
use fingerprint_hub.Store.Flags.{FlagResult, flag}
use fingerprint_hub.Store.Delete.{soft_delete}
use fingerprint_hub.Api.Values.{strip, lower, int, nonempty, matches_phash}
use fingerprint_hub.Api.Access.{has_scope, require_scope}
use fingerprint_hub.Api.Messages.{
  finite, not_a_number, infinite, Json, null, boolean, integer, float, text, array, nested, Request,
  ServiceConfig, Reply, failure, duplicate_of, contributed, hit, flagged, no_content, lookup,
  Parsed, parsed, refused, parse_json_body,
}
use fingerprint_hub.Api.Views.{detail_fp}
use fingerprint_hub.Api.Reading.{path_id, get_live, not_found, invalid_id}

-- The answer to what `contribute` returned. Without a row there is nothing to index.
unfoldable pub answer : Cipher → Consumer → Contributed → Result Reply
unfolding detail_fp
answer c consumer (created none) = raise Exc.type_error
answer c consumer (created (some r)) = detail_fp c consumer r >>= (λ d. ok (contributed d))
answer c consumer (duplicate none) = raise Exc.type_error
answer c consumer (duplicate (some existing)) = ok (duplicate_of existing.id)

unfoldable pub store_contribution :
    Cipher → Nonces → Consumer → Contribution → ℕ → Db → Result Reply × Db
unfolding contribute answer
store_contribution c n consumer x now_ms db =
    let (r, db') = contribute c n consumer.id x now_ms db in (r >>= answer c consumer, db')

unfoldable pub checked_contribution :
    Cipher → Nonces → Consumer → Checked → ℕ → Db → Result Reply × Db
unfolding store_contribution
checked_contribution c n consumer (accepted x) now_ms db =
    store_contribution c n consumer x now_ms db
checked_contribution c n consumer (rejected message) now_ms db = (ok (failure 400 message), db)

unfoldable pub accept_contribution : Cipher → Nonces → ℕ → Request → Db → Result Reply × Db
unfolding parse_json_body check checked_contribution
accept_contribution c n now_ms request db = elim (parse_json_body request.body) [
  | raise e ↦ (raise e, db)
  | ok (refused reply) ↦ (ok reply, db)
  | ok (parsed body) ↦ checked_contribution c n request.consumer (check body) now_ms db
]

unfoldable pub contribute_fingerprint : Cipher → Nonces → ℕ → Request → Db → Result Reply × Db
unfolding require_scope accept_contribution
contribute_fingerprint c n now_ms request db =
    require_scope (codes "write") request.consumer (accept_contribution c n now_ms request db) db

-- `int(distance_raw)`, and the `except` clause around it
unfoldable pub distance_of : Option Json → Result (Option ℤ)
unfolding int
distance_of none = ok none
distance_of (some null) = ok none
distance_of (some (boolean true)) = ok (some (pos 1))
distance_of (some (boolean false)) = ok (some (pos 0))
distance_of (some (integer _ z)) = ok (some z)
distance_of (some (float _ (finite z))) = ok (some z)
distance_of (some (float _ not_a_number)) = ok none
distance_of (some (float _ infinite)) = raise Exc.overflow_error
distance_of (some (text s)) = ok (int s)
distance_of (some (array _)) = ok none
distance_of (some (nested _)) = ok none

-- `if error is not None: body = {}`
unfoldable pub body_or_empty : Parsed → List (Str × Json)
body_or_empty (parsed body) = body
body_or_empty (refused _) = []

unfoldable pub hit_answer : ℤ → Option ℕ → Result Reply
hit_answer id none = ok not_found
hit_answer id (some count) = ok (hit id count)

unfoldable pub store_hit :
    Cipher → List ℕ → ℕ → Consumer → ℤ → Option Str → Option ℤ → Db → Result Reply × Db
unfolding hits.report_hit hit_answer
store_hit c nonce now_ms consumer (negsuc _) guild_id distance db = (ok not_found, db)
store_hit c nonce now_ms consumer (pos id) guild_id distance db =
    let (r, db') = hits.report_hit c nonce id consumer.id guild_id distance now_ms db in
    (r >>= hit_answer (pos id), db')

unfoldable pub read_hit :
    Cipher → List ℕ → ℕ → Consumer → ℤ → List (Str × Json) → Db → Result Reply × Db
unfolding lookup distance_of str_or_none store_hit
read_hit c nonce now_ms consumer id body db = elim (distance_of (lookup (codes "distance") body)) [
  | raise e ↦ (raise e, db)
  | ok distance ↦
      store_hit c nonce now_ms consumer id (str_or_none (lookup (codes "guild_id") body)) distance
        db
]

-- From the path id on, for a handler with an optional body.
unfoldable pub with_id_and_body :
    Request → (ℤ → List (Str × Json) → Db → Result Reply × Db) → Db → Result Reply × Db
unfolding path_id parse_json_body body_or_empty
with_id_and_body request handle db = elim (path_id request.id) [
  | none ↦ (ok invalid_id, db)
  | some id ↦ elim (parse_json_body request.body) [
    | raise e ↦ (raise e, db)
    | ok p ↦ handle id (body_or_empty p) db
  ]
]

unfoldable pub report_hit : Cipher → List ℕ → ℕ → Request → Db → Result Reply × Db
unfolding require_scope with_id_and_body read_hit
report_hit c nonce now_ms request db =
    require_scope (codes "write") request.consumer
      (with_id_and_body request (read_hit c nonce now_ms request.consumer) db) db

unfoldable pub flag_answer : ℤ → Option FlagResult → Result Reply
flag_answer id none = ok not_found
flag_answer id (some result) = ok (flagged id result)

unfoldable pub store_flag :
    Cipher → List ℕ → ℕ → ℕ → Consumer → ℤ → List (Str × Json) → Db → Result Reply × Db
unfolding lookup str_or_none flag flag_answer
store_flag c nonce now_ms threshold consumer (negsuc _) body db = (ok not_found, db)
store_flag c nonce now_ms threshold consumer (pos id) body db =
    let reason = str_or_none (lookup (codes "reason") body) in
    let (r, db') = flag c nonce id consumer.id reason now_ms threshold db in
    (r >>= flag_answer (pos id), db')

unfoldable pub flag_fingerprint :
    Cipher → List ℕ → ℕ → ServiceConfig → Request → Db → Result Reply × Db
unfolding require_scope with_id_and_body store_flag
flag_fingerprint c nonce now_ms config request db =
    require_scope (codes "write") request.consumer
      (with_id_and_body request
        (store_flag c nonce now_ms config.auto_hide_flag_threshold request.consumer) db)
      db

-- `is_owner or is_admin`
unfoldable pub may_delete : Consumer → Fingerprint → Bool
unfolding has_scope
may_delete consumer r = r.consumer_id == consumer.id || has_scope (codes "admin") consumer

-- The call of `soft_delete`, whose result is not read.
unfoldable pub delete_at : ℤ → ℕ → Db → Db
unfolding soft_delete
delete_at (pos id) now_ms db = (soft_delete id now_ms db).1
delete_at (negsuc _) now_ms db = db

unfoldable pub delete_found : ℤ → ℕ → Consumer → Fingerprint → Db → Reply × Db
unfolding may_delete delete_at
delete_found id now_ms consumer r db =
    if may_delete consumer r then (no_content, delete_at id now_ms db) else (
      failure 403 (codes "only the owning consumer or an admin may delete; use /flag instead"),
      db,
    )

unfoldable pub delete_row : ℕ → Request → Db → Reply × Db
unfolding path_id get_live delete_found
delete_row now_ms request db = elim (path_id request.id) [
  | none ↦ (invalid_id, db)
  | some id ↦ elim (get_live id db) [
    | none ↦ (not_found, db)
    | some r ↦ delete_found id now_ms request.consumer r db
  ]
]

unfoldable pub delete_fingerprint : ℕ → Request → Db → Result Reply × Db
unfolding require_scope delete_row
delete_fingerprint now_ms request db =
    let (reply, db') = delete_row now_ms request db in
    require_scope (codes "write") request.consumer (ok reply, db') db
