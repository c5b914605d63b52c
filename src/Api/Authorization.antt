-- ===== src/Api/Authorization.antt =====
-- Who may change what: scopes and ownership.
use fingerprint_hub.Prelude.{◌≡◌, refl, codes, false, arith}
use fingerprint_hub.Cipher.{Cipher}
use fingerprint_hub.Schema.{Db}
use fingerprint_hub.Api.Messages.{Request, ServiceConfig}
use fingerprint_hub.Api.Access.{has_scope}
use fingerprint_hub.Api.Reading.{sync_fingerprints, get_fingerprint, list_fingerprints, stats}
use fingerprint_hub.Api.Writing.{
  contribute_fingerprint, report_hit, flag_fingerprint, delete_fingerprint,
}
use fingerprint_hub.Api.App.{
  Endpoint, Draws, dispatch, get_sync, get_stats, post_fingerprint, get_list, post_hit, post_flag,
  get_one, delete_one,
}

-- A request of a consumer without the scope "write" changes no table, at any endpoint.
pub dispatch-unchanged :
    (c : Cipher) (d : Draws) (config : ServiceConfig) (endpoint : Endpoint) (request : Request)
    (db : Db)
    → has_scope (codes "write") request.consumer ≡ false
    → (dispatch c d config endpoint request db).1 ≡ db
unfolding dispatch
dispatch-unchanged c d config get_sync request db h = unfold sync_fingerprints in ground arith
dispatch-unchanged c d config get_stats request db h = unfold stats in ground arith
dispatch-unchanged c d config post_fingerprint request db h =
    unfold contribute_fingerprint in rw h refl
dispatch-unchanged c d config get_list request db h = unfold list_fingerprints in ground arith
dispatch-unchanged c d config post_hit request db h = unfold report_hit in rw h refl
dispatch-unchanged c d config post_flag request db h = unfold flag_fingerprint in rw h refl
dispatch-unchanged c d config get_one request db h = unfold get_fingerprint in ground arith
dispatch-unchanged c d config delete_one request db h = unfold delete_fingerprint in rw h refl
