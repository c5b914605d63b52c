-- ===== src/Tests/Data.antt =====
-- A small history: two consumers contribute, and one row is flagged until it is hidden.
use fingerprint_hub.Prelude.{codes, Str, false, none, some, [], ok}
use fingerprint_hub.Cipher.{Cipher}
use fingerprint_hub.Schema.{Db}
use fingerprint_hub.Store.Contribute.{Contribution, Nonces, contribute}
use fingerprint_hub.Store.Flags.{flag}
use fingerprint_hub.Store.History.{Reach, here, next, contributes, flags, init, Reach-IsValid}
use fingerprint_hub.Store.Validity.{IsValid}

-- An encryption that leaves the text as it is meets the interface.
abbrev pub plain : Cipher
plain = record { encrypt = λ nonce text. ok text; decrypt = λ envelope. ok envelope }

abbrev pub nonces : Nonces
nonces = record { reason = []; source_url = []; source_guild_id = [] }

abbrev pub image : Str → Contribution
image phash_hex = record {
  phash_hex = phash_hex;
  algorithm = codes "phash";
  algorithm_version = codes "imagehash.phash";
  normalization_version = codes "alpha_white_v1";
  category = codes "scam";
  action = codes "kick";
  source_guild_id = none;
  reason = some (codes "reported");
  source_url = none;
  auto_added = false;
  provenance = codes "manual_staff";
}

abbrev pub one_row : Db
one_row = (contribute plain nonces 1 (image (codes "00ff00ff00ff00ff")) 1000 init).1

abbrev pub two_rows : Db
two_rows = (contribute plain nonces 2 (image (codes "123456789abcdef0")) 2000 one_row).1

abbrev pub flagged : Db
flagged = (flag plain [] 1 2 none 3000 2 two_rows).1

abbrev pub sample : Db
sample = (flag plain [] 1 3 none 4000 2 flagged).1

pub history : Reach plain init sample
history =
    next
      (next
        (next (next here (contributes nonces 1 (image (codes "00ff00ff00ff00ff")) 1000))
          (contributes nonces 2 (image (codes "123456789abcdef0")) 2000))
        (flags [] 1 2 none 3000 2))
      (flags [] 1 3 none 4000 2)

pub sample-IsValid : IsValid sample
sample-IsValid = Reach-IsValid plain sample history
