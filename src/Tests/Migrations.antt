-- ===== src/Tests/Migrations.antt =====
-- Tables of legacy texts, one of which looks like an envelope, and their upgrade.
use fingerprint_hub.Prelude.{
  ℕ, ◌≡◌, refl, Str, codes, str_eq, false, none, some, [], ◌∷◌, ok, Exc, inl, arith, All,
}
use fingerprint_hub.Schema.{Fingerprint, Db, active}
use fingerprint_hub.Encryption.Envelope.{
  starts_with, encrypt_text, decrypt_text, envelope, seal_text,
}
use fingerprint_hub.Encryption.Utf8.RoundTrip.{IsChar}
use fingerprint_hub.Encryption.Utf8.{encode, encode_char}
use fingerprint_hub.Api.Messages.{lookup}
use fingerprint_hub.Sql.{count, exists}
use fingerprint_hub.Store.Keys.{has_id, hit_of}
use fingerprint_hub.Store.Flags.{flaggers}
use fingerprint_hub.Store.Validity.{IsValid}
use fingerprint_hub.Store.Feed.{Triple, feed}
use fingerprint_hub.Migration.{is_decryption_error, Nonces, upgrade, downgrade}
use fingerprint_hub.Migration.Values.{IsNonce}
use fingerprint_hub.Store.Secrets.{EverySecret}
use fingerprint_hub.Migration.Rows.{IsLegacy, DbSeals}
use fingerprint_hub.Migration.Upgrade.{upgrade-DbSeals}
use fingerprint_hub.Migration.Reversal.{downgrade-upgrade}
use fingerprint_hub.Migration.Preserved.{migration-IsValid}
use fingerprint_hub.Tests.Secrets.{open_box, ring, nonce, nonce_bytes-All}

abbrev row : Str → Fingerprint
row reason = record {
  id = 1;
  sync_seq = 1;
  phash_hex = codes "00ff00ff00ff00ff";
  algorithm = codes "phash";
  algorithm_version = codes "imagehash.phash";
  normalization_version = codes "alpha_white_v1";
  category = codes "scam";
  action = codes "kick";
  consumer_id = 1;
  source_guild_id = none;
  reason = some reason;
  source_url = none;
  added_at_ms = 1000;
  updated_at_ms = 1000;
  hit_count = 1;
  last_hit_at_ms = some 2000;
  auto_added = false;
  provenance = codes "manual_staff";
  status = active;
  flag_count = 1;
}

abbrev tables : Str → Str → Str → Db
tables reason guild_id flag_reason = record {
  consumers = [];
  fingerprints = row reason ∷ [];
  hits =
      record {
        fingerprint_id = 1;
        consumer_id = 1;
        guild_id = some guild_id;
        distance = none;
        hit_at_ms = 2000;
      }
      ∷ [];
  flags =
      record {
        fingerprint_id = 1;
        consumer_id = 2;
        reason = some flag_reason;
        created_at_ms = 2000;
      }
      ∷ [];
  next_consumer_id = 1;
  next_fingerprint_id = 2;
  next_sync_seq = 2;
}

abbrev legacy : Db
legacy = tables (codes "enc:v1:?") (codes "7") (codes "no")

abbrev sealed : Db
sealed =
    tables (envelope (codes "k1") nonce (codes "enc:v1:?"))
      (envelope (codes "k1") nonce (codes "7")) (envelope (codes "k1") nonce (codes "no"))

abbrev nonces : Nonces
nonces i j = nonce

drawn : (i j : ℕ) → IsNonce (nonces i j)
drawn i j = (refl, nonce_bytes-All)

texts : EverySecret (All IsChar) legacy
texts = record {
  rows = (
    (
      tt,
      (
        omega arith,
        (
          omega arith,
          (
            omega arith,
            (omega arith, (omega arith, (omega arith, (omega arith, (omega arith, tt))))),
          ),
        ),
      ),
      tt,
    ),
    tt,
  );
  hits = ((omega arith, tt), tt);
  flags = ((omega arith, (omega arith, tt)), tt);
}

no_envelopes : EverySecret (IsLegacy open_box ring) legacy
unfolding decrypt_text lookup str_eq
no_envelopes = record {
  rows = ((tt, (Exc.field_decryption_error, refl), tt), tt);
  hits = ((Exc.field_decryption_error, refl), tt);
  flags = ((Exc.field_decryption_error, refl), tt);
}

runs : upgrade open_box ring nonces legacy ≡ ok sealed
unfolding upgrade encrypt_text seal_text encode encode_char lookup str_eq starts_with decrypt_text
    is_decryption_error
runs = refl

legacy-IsValid : IsValid legacy
unfolding flaggers count exists has_id hit_of
legacy-IsValid = record {
  rows = (
    record {
      id_below = omega arith;
      seq_below = omega arith;
      flags_counted = refl;
      hits_counted = omega arith;
    },
    tt,
  );
  distinct_rows = (tt, tt);
  distinct_flags = (tt, tt);
  flags_refer = (refl, tt);
  hits_refer = (refl, tt);
}

upgrade-DbSeals_example : DbSeals open_box ring legacy sealed
upgrade-DbSeals_example =
    upgrade-DbSeals open_box ring (refl, (refl, tt)) nonces drawn legacy sealed texts runs

downgrade-upgrade_example : downgrade open_box ring sealed ≡ ok legacy
downgrade-upgrade_example =
    downgrade-upgrade open_box ring (refl, (refl, tt)) nonces drawn legacy sealed texts runs
      no_envelopes

migration-IsValid_example :
    IsValid sealed
    × ((requester since : ℕ) (t : Triple)
        → feed requester t since sealed ≡ feed requester t since legacy)
migration-IsValid_example =
    migration-IsValid open_box ring nonces legacy sealed (inl runs) legacy-IsValid
