-- ===== src/Api/App.antt =====
-- api/app.py: the routes, and the middlewares around the handlers. Which endpoint a method and a path
-- lead to is decided by aiohttp.
use fingerprint_hub.Prelude.{ℕ, Str, codes, Option, List, ◌++◌, Result, ok, raise, Exc}
use fingerprint_hub.Schema.{Consumer, Db}
use fingerprint_hub.Cipher.{Cipher}
use fingerprint_hub.Store.Contribute.{Nonces}
use fingerprint_hub.Api.Messages.{Body, Request, ServiceConfig, Reply, failure}
use fingerprint_hub.Api.Access.{Arrival, Gate, denied, admitted, unauthenticated, authenticate}
use fingerprint_hub.Api.Reading.{
  health, sync_fingerprints, get_fingerprint, list_fingerprints, stats,
}
use fingerprint_hub.Api.Writing.{
  contribute_fingerprint, report_hit, flag_fingerprint, delete_fingerprint,
}

-- The routes with authentication, in the order of their registration.
pub data Endpoint : Type 0 where
  get_sync get_stats post_fingerprint get_list post_hit post_flag get_one delete_one : Endpoint

-- What a handler draws while it runs: random nonces and the time.
pub record Draws : Type 0 where
  pub nonces : Nonces
  pub nonce : List ℕ
  pub now_ms : ℕ

unfoldable pub dispatch :
    Cipher → Draws → ServiceConfig → Endpoint → Request → Db → Result Reply × Db
unfolding sync_fingerprints get_fingerprint list_fingerprints stats contribute_fingerprint
    report_hit flag_fingerprint delete_fingerprint
dispatch c d config get_sync request db = sync_fingerprints config request db
dispatch c d config get_stats request db = stats request db
dispatch c d config post_fingerprint request db =
    contribute_fingerprint c d.nonces d.now_ms request db
dispatch c d config get_list request db = list_fingerprints c config request db
dispatch c d config post_hit request db = report_hit c d.nonce d.now_ms request db
dispatch c d config post_flag request db = flag_fingerprint c d.nonce d.now_ms config request db
dispatch c d config get_one request db = get_fingerprint c request db
dispatch c d config delete_one request db = delete_fingerprint d.now_ms request db

-- `error_middleware`, with the answer that aiohttp makes of an HTTPForbidden
unfoldable pub error_middleware : Result Reply → Reply
error_middleware (ok reply) = reply
error_middleware (raise (Exc.http_forbidden scope)) =
    failure 403 (codes "missing required scope: " ++ scope)
error_middleware (raise Exc.operational_error) =
    failure 503 (codes "database temporarily unavailable")
error_middleware (raise _) = failure 500 (codes "internal server error")

-- A request before its consumer is known.
pub record Message : Type 0 where
  pub id : Option Str
  pub query : List (Str × Str)
  pub body : Body

unfoldable pub request_of : Consumer → Message → Request
request_of consumer m = record { id = m.id; query = m.query; body = m.body; consumer = consumer }

-- A request to one of the endpoints, through both middlewares. `unauthenticated` is for the public
-- path, which leads to `health` and to none of the endpoints.
unfoldable pub serve :
    (Str → Str)
    → Cipher
    → Draws
    → ServiceConfig
    → Arrival
    → Endpoint
    → Message
    → Gate
    → Db
    → Reply × Gate × Db
unfolding authenticate dispatch error_middleware request_of health
serve digest c d config a endpoint m g db =
    let (decision, g', db') = authenticate digest config.rate_limit_per_minute a g db in
    elim decision [
      | denied reply ↦ (reply, g', db')
      | unauthenticated ↦ (health a.ping_succeeds, g', db')
      | admitted consumer ↦
          let (r, db'') = dispatch c d config endpoint (request_of consumer m) db' in
          (error_middleware r, g', db'')
    ]
