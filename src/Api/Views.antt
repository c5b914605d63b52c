-- ===== src/Api/Views.antt =====
-- What an answer shows of a row: `_peer_fp`, `_detail_fp` and the decryption of its secrets.
use fingerprint_hub.Prelude.{
  Str, codes, Bool, ◌||◌, Option, none, some, List, [], ◌∷◌, ◌==◌, if◌then◌else◌, Result, ok, raise,
  Exc, ◌>>=◌,
}
use fingerprint_hub.Schema.{Consumer, Fingerprint}
use fingerprint_hub.Cipher.{Cipher}
use fingerprint_hub.Store.Feed.{sync_columns}
use fingerprint_hub.Api.Access.{has_scope}
use fingerprint_hub.Api.Messages.{FullRecord, Detail, peer_detail, full_detail}

-- `_can_see_secrets`
unfoldable pub can_see_secrets : Consumer → Fingerprint → Bool
unfolding has_scope
can_see_secrets consumer r = has_scope (codes "admin") consumer || r.consumer_id == consumer.id

-- The `except` clause of `_decrypt`.
unfoldable pub no_decryption_error : Result Str → Result (Option Str)
no_decryption_error (ok text) = ok (some text)
no_decryption_error (raise Exc.field_decryption_error) = ok none
no_decryption_error (raise e) = raise e

-- `_decrypt`
unfoldable pub decrypt : Cipher → Option Str → Result (Option Str)
unfolding no_decryption_error
decrypt c none = ok none
decrypt c (some value) = no_decryption_error (c.decrypt value)

unfoldable pub full_record : Cipher → Fingerprint → Result FullRecord
unfolding decrypt sync_columns
full_record c r = do
  source_guild_id ← decrypt c r.source_guild_id
  reason ← decrypt c r.reason
  source_url ← decrypt c r.source_url
  ok (record {
    peer = sync_columns r;
    consumer_id = r.consumer_id;
    source_guild_id = source_guild_id;
    added_at_ms = r.added_at_ms;
    updated_at_ms = r.updated_at_ms;
    hit_count = r.hit_count;
    last_hit_at_ms = r.last_hit_at_ms;
    auto_added = r.auto_added;
    provenance = r.provenance;
    flag_count = r.flag_count;
    reason = reason;
    source_url = source_url;
  })

-- `_detail_fp`
unfoldable pub detail_fp : Cipher → Consumer → Fingerprint → Result Detail
unfolding can_see_secrets full_record sync_columns
detail_fp c consumer r =
    if can_see_secrets consumer r
    then full_record c r >>= (λ full. ok (full_detail full))
    else ok (peer_detail (sync_columns r))

-- `[_detail_fp(request, r) for r in rows]`
unfoldable pub details : Cipher → Consumer → List Fingerprint → Result (List Detail)
unfolding detail_fp
details c consumer [] = ok []
details c consumer (r ∷ rows) = do
  first ← detail_fp c consumer r
  rest ← details c consumer rows
  ok (first ∷ rest)
