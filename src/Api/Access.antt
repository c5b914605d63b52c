-- ===== src/Api/Access.antt =====
-- api/auth.py: scopes, the rate limit and the middleware. The clocks are natural numbers, of
-- nanoseconds for `time.monotonic()`, and `digest` is `hash_api_key`.
pub mod Limit
pub mod Admission
use fingerprint_hub.Prelude.{
  ℕ, ◌+◌, ◌*◌, ◌^◌, Str, codes, str_in, Bool, true, false, not, Option, none, some, List, [], ◌∷◌,
  ◌++◌, leb, ltb, ◌==◌, length, if◌then◌else◌, Result, ok, raise, Exc,
}
use fingerprint_hub.Prelude.Int.{ℤ, pos, leb_ℤ}
use fingerprint_hub.Schema.{Consumer, Db}
use fingerprint_hub.Consumers.{find_by_key_hash, touch_last_seen}
use fingerprint_hub.Api.Messages.{Reply, failure}

-- `scope in set(consumer.get("scopes") or ())`
unfoldable pub has_scope : Str → Consumer → Bool
unfolding str_in
has_scope scope consumer = str_in scope consumer.scopes

-- `require_scope`, before the rest of a handler
unfoldable pub require_scope {ℓ} :
    {A : Type ℓ} → Str → Consumer → Result A × Db → Db → Result A × Db
unfolding has_scope
require_scope scope consumer rest db =
    if has_scope scope consumer then rest else (raise (Exc.http_forbidden scope), db)

abbrev pub minute : ℕ
minute = 60 * 10 ^ 9

-- `while window and window[0] < now - 60.0: window.popleft()`
unfoldable pub drop_old : ℕ → List ℕ → List ℕ
drop_old now [] = []
drop_old now (t ∷ window) =
    let rest = drop_old now window in if ltb (t + minute) now then rest else t ∷ window

-- `_rate_limited`, with the window of the consumer before and after
unfoldable pub rate_limited : ℤ → ℕ → List ℕ → Bool × List ℕ
unfolding drop_old
rate_limited rate_limit now window =
    let kept = drop_old now window in
    if leb_ℤ rate_limit (pos (length kept)) then (true, kept) else (false, kept ++ now ∷ [])

-- The state of the closure that `make_auth_middleware` returns.
pub record Gate : Type 0 where
  pub request_times : ℕ → List ℕ
  pub last_seen_marked : ℕ → Option ℕ

unfoldable pub set_at {ℓ} : {A : Type ℓ} → ℕ → A → (ℕ → A) → ℕ → A
set_at id a f i = if i == id then a else f i

-- `now - last_seen_marked.get(consumer_id, 0.0) >= 60.0`
unfoldable pub is_due : ℕ → Option ℕ → Bool
is_due now none = leb minute now
is_due now (some marked) = leb (marked + minute) now

-- What a request brings to the middleware: its path's being public, the header, both clocks, and
-- whether the database takes the update of `last_seen_at_ms` and answers a ping.
pub record Arrival : Type 0 where
  pub is_public : Bool
  pub api_key : Option Str
  pub now : ℕ
  pub now_ms : ℕ
  pub touch_succeeds : Bool
  pub ping_succeeds : Bool

-- The answer of the middleware, or the call of the handler with the consumer of the request.
pub data Decision : Type 0 where
  denied : Reply → Decision
  admitted : Consumer → Decision
  unauthenticated : Decision

-- The last-seen update, whose failure is caught.
unfoldable pub mark_seen : Consumer → Arrival → Gate → Db → Gate × Db
unfolding set_at is_due touch_last_seen
mark_seen consumer a g db =
    if is_due a.now (g.last_seen_marked consumer.id)
    then (
      record g { last_seen_marked = set_at consumer.id (some a.now) g.last_seen_marked },
      if a.touch_succeeds then touch_last_seen consumer.id a.now_ms db else db,
    )
    else (g, db)

-- From the found consumer on.
unfoldable pub admit : ℤ → Consumer → Arrival → Gate → Db → Decision × Gate × Db
unfolding rate_limited set_at mark_seen
admit rate_limit consumer a g db =
    let (limited, window) = rate_limited rate_limit a.now (g.request_times consumer.id) in
    let g' = record g { request_times = set_at consumer.id window g.request_times } in
    if limited
    then (denied (failure 429 (codes "rate limit exceeded")), g', db)
    else let (g'', db') = mark_seen consumer a g' db in (admitted consumer, g'', db')

unfoldable pub authenticate : (Str → Str) → ℤ → Arrival → Gate → Db → Decision × Gate × Db
unfolding admit
authenticate digest rate_limit a g db =
    if a.is_public then (unauthenticated, g, db) else elim a.api_key [
      | none ↦ (denied (failure 401 (codes "missing X-API-Key")), g, db)
      | some [] ↦ (denied (failure 401 (codes "missing X-API-Key")), g, db)
      | some (k ∷ key) ↦ elim (find_by_key_hash (digest (k ∷ key)) db) [
        | none ↦ (denied (failure 401 (codes "invalid or disabled API key")), g, db)
        | some consumer ↦
            if consumer.enabled
            then admit rate_limit consumer a g db
            else (denied (failure 401 (codes "invalid or disabled API key")), g, db)
      ]
    ]
