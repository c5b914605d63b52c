-- ===== src/Api/Messages.antt =====
-- Requests, answers and the configuration, as far as the handlers read and write them.
use fingerprint_hub.Prelude.{
  ℕ, Str, codes, str_eq, Bool, false, Option, none, some, List, [], ◌∷◌, if◌then◌else◌, Result, ok,
  raise, Exc,
}
use fingerprint_hub.Prelude.Int.{ℤ}
use fingerprint_hub.Schema.{Consumer}
use fingerprint_hub.Store.Feed.{PeerRecord}
use fingerprint_hub.Store.Flags.{FlagResult}
use fingerprint_hub.Store.Browse.{Stats}

-- What `int` makes of a float: it drops the fraction.
pub data Float : Type 0 where
  finite : ℤ → Float
  not_a_number : Float
  infinite : Float

-- A JSON value. A number, an array and a nested object carry their `str`, which is all that the
-- service reads of an array or a nested object.
pub data Json : Type 0 where
  null : Json
  boolean : Bool → Json
  integer : Str → ℤ → Json
  float : Str → Float → Json
  text : Str → Json
  array : Str → Json
  nested : Str → Json

-- `await request.json()`: it raises JSONDecodeError or ContentTypeError, or another exception, or
-- returns a value that is an object or is not.
pub data Body : Type 0 where
  invalid : Body
  unreadable : Exc → Body
  other : Body
  object : List (Str × Json) → Body

-- A request of a consumer that the middleware has admitted.
pub record Request : Type 0 where
  -- `request.match_info["id"]`, on the routes that have it
  pub id : Option Str
  pub query : List (Str × Str)
  pub body : Body
  -- `request[CONSUMER_KEY]`
  pub consumer : Consumer

pub record ServiceConfig : Type 0 where
  pub host : Str
  pub port : ℤ
  pub rate_limit_per_minute : ℤ
  pub auto_hide_flag_threshold : ℕ
  pub max_sync_limit : ℤ
  pub default_sync_limit : ℤ
  pub max_list_limit : ℤ

-- The full record of `_detail_fp`.
pub record FullRecord : Type 0 where
  pub peer : PeerRecord
  pub consumer_id : ℕ
  pub source_guild_id : Option Str
  pub added_at_ms : ℕ
  pub updated_at_ms : ℕ
  pub hit_count : ℕ
  pub last_hit_at_ms : Option ℕ
  pub auto_added : Bool
  pub provenance : Str
  pub flag_count : ℕ
  pub reason : Option Str
  pub source_url : Option Str

pub data Detail : Type 0 where
  peer_detail : PeerRecord → Detail
  full_detail : FullRecord → Detail

-- The answers, each with the status in its comment where the code gives one.
pub data Reply : Type 0 where
  -- {"error": …} under the given status
  failure : ℕ → Str → Reply
  -- 409 with `existing_id`
  duplicate_of : ℕ → Reply
  page : List PeerRecord → ℕ → Bool → Reply
  -- 201
  contributed : Detail → Reply
  hit : ℤ → ℕ → Reply
  flagged : ℤ → FlagResult → Reply
  -- 204
  no_content : Reply
  detail : Detail → Reply
  listing : List Detail → ℕ → Reply
  statistics : Stats → Reply
  -- {"status": …, "db": …}, 503 for a database that does not answer
  health_report : Bool → Reply

unfoldable pub status_code : Reply → ℕ
status_code (failure status _) = status
status_code (duplicate_of _) = 409
status_code (contributed _) = 201
status_code no_content = 204
status_code (health_report false) = 503
status_code _ = 200

-- `mapping.get(key)`, of the keys in their order. An object that `json` read has each key once.
unfoldable pub lookup {ℓ} : {A : Type ℓ} → Str → List (Str × A) → Option A
unfolding str_eq
lookup key [] = none
lookup key ((k, a) ∷ entries) =
    let rest = lookup key entries in if str_eq k key then some a else rest

-- `parse_json_body`: the object, or the error answer.
pub data Parsed : Type 0 where
  parsed : List (Str × Json) → Parsed
  refused : Reply → Parsed

unfoldable pub parse_json_body : Body → Result Parsed
parse_json_body invalid = ok (refused (failure 400 (codes "Invalid JSON")))
parse_json_body (unreadable e) = raise e
parse_json_body other = ok (refused (failure 400 (codes "JSON body must be an object")))
parse_json_body (object entries) = ok (parsed entries)
