-- ===== src/Tests/Service.antt =====
-- The service: requests of two consumers on the small history.
use fingerprint_hub.Prelude.{
  str_eq, ◌≤◌, ◌≡◌, refl, codes, none, some, true, [], ◌∷◌, arith, ok, raise, Exc,
}
use fingerprint_hub.Prelude.Int.{pos}
use fingerprint_hub.Schema.{Consumer}
use fingerprint_hub.Sql.{count}
use fingerprint_hub.Api.Messages.{Request, ServiceConfig, object, text, no_content}
use fingerprint_hub.Api.App.{Draws, dispatch, get_one, post_flag}
use fingerprint_hub.Api.Access.Limit.{accepted, within, rate_limited_burst}
use fingerprint_hub.Store.Flags.{flag}
use fingerprint_hub.Store.Contribute.{contribute}
use fingerprint_hub.Api.Access.{has_scope}
use fingerprint_hub.Api.Writing.{delete_fingerprint}
use fingerprint_hub.Api.Authorization.{dispatch-unchanged}
use fingerprint_hub.Api.Deletion.{DeleteOutcome, delete_fingerprint-DeleteOutcome}
use fingerprint_hub.Api.Privacy.{redacted}
use fingerprint_hub.Api.Privacy.Endpoints.{dispatch-redacted}
use fingerprint_hub.Tests.Data.{plain, nonces, sample}

abbrev pub reader : Consumer
reader = record {
  id = 3;
  name = codes "reader";
  api_key_hash = codes "hash";
  scopes = codes "read" ∷ [];
  enabled = true;
  created_at_ms = 1;
  last_seen_at_ms = none;
}

abbrev pub writer : Consumer
writer = record {
  id = 2;
  name = codes "writer";
  api_key_hash = codes "hash2";
  scopes = codes "read" ∷ codes "write" ∷ [];
  enabled = true;
  created_at_ms = 1;
  last_seen_at_ms = none;
}

abbrev pub defaults : ServiceConfig
defaults = record {
  host = codes "127.0.0.1";
  port = pos 58751;
  rate_limit_per_minute = pos 300;
  auto_hide_flag_threshold = 2;
  max_sync_limit = pos 500;
  default_sync_limit = pos 200;
  max_list_limit = pos 200;
}

abbrev pub draws : Draws
draws = record { nonces = nonces; nonce = []; now_ms = 7000 }

abbrev pub about_second : Consumer → Request
about_second consumer = record {
  id = some (codes "2");
  query = [];
  body = object ((codes "reason", text (codes "spam")) ∷ []);
  consumer = consumer;
}

-- The owner deletes the row; a reader does not, for want of the scope.
owner_deletes : (delete_fingerprint 7000 (about_second writer) sample).0 ≡ ok no_content
unfolding delete_fingerprint str_eq flag contribute
owner_deletes = refl

reader_deletes :
    (delete_fingerprint 7000 (about_second reader) sample).0
    ≡ raise (Exc.http_forbidden (codes "write"))
unfolding delete_fingerprint str_eq
reader_deletes = refl

dispatch-unchanged_example :
    (dispatch plain draws defaults post_flag (about_second reader) sample).1 ≡ sample
unfolding has_scope str_eq
dispatch-unchanged_example =
    dispatch-unchanged plain draws defaults post_flag (about_second reader) sample refl

delete_fingerprint-DeleteOutcome_example :
    DeleteOutcome 7000
      (about_second writer)
      sample
      (delete_fingerprint 7000 (about_second writer) sample)
delete_fingerprint-DeleteOutcome_example =
    delete_fingerprint-DeleteOutcome 7000 (about_second writer) sample

dispatch-redacted_example :
    (dispatch plain draws defaults get_one (about_second reader) (redacted reader sample)).0
    ≡ (dispatch plain draws defaults get_one (about_second reader) sample).0
dispatch-redacted_example =
    dispatch-redacted plain draws defaults get_one (about_second reader) sample refl

rate_limited_burst_example : count (within 1) (accepted 2 [] (1 ∷ 2 ∷ 3 ∷ 90000000000 ∷ [])) ≤ 2
rate_limited_burst_example = rate_limited_burst 2 1 (1 ∷ 2 ∷ 3 ∷ 90000000000 ∷ []) (
  (omega arith, (omega arith, (omega arith, tt))),
  ((omega arith, (omega arith, tt)), ((omega arith, tt), (tt, tt))),
)
